-- ===== src/Sales/Write.antt =====
-- What the statements of `bulk_upsert` do to the row of one key, and to the other tenants.
use integrado_web_xd.Prelude.{
  ℕ, ◌≡◌, refl, ◌∙◌, String, true, false, not, Option, none, some, List, [], ◌∷◌, ◌++◌, map, arith,
  if◌then◌else◌, ◌==◌, eq_iff, any, keep, subst, Bool-cases, inl, inr, keep-append, is_some,
  append-nil,
}
use integrado_web_xd.Sales.{
  SaleRecord, Venda, Dialect, postgresql, sqlite, default, row_of, has_key, upsert, replace, write,
}
use integrado_web_xd.Sales.Dedup.{same_uuid, find_record, IsDistinct}

-- A row but for the time of its creation.
abbrev pub content : Venda → Venda
content v = record v { created_at = 0 }

-- The content of the row of a key.
abbrev pub view : String → String → List Venda → Option Venda
view e u [] = none
view e u (v ∷ table) = let rest = view e u table in if has_key e u v then some (content v) else rest

-- The statement for one entry.
abbrev pub write_one : Dialect → List Venda → Venda → List Venda
write_one default table new = replace table new
write_one postgresql table new = upsert table new
write_one sqlite table new = upsert table new

pub write-cons :
    (d : Dialect) (table : List Venda) (new : Venda) (values : List Venda)
    → write d table (new ∷ values) ≡ write d (write_one d table new) values
unfolding write
write-cons default table new values = refl
write-cons postgresql table new values = refl
write-cons sqlite table new values = refl

view-append :
    (e u : String) (xs ys : List Venda)
    → view e u (xs ++ ys) ≡ (if is_some (view e u xs) then view e u xs else view e u ys)
view-append e u [] ys = refl
view-append e u (v ∷ xs) ys = ground (arith, view-append e u xs ys)

view-upsert :
    (e u : String) (table : List Venda) (new : Venda)
    → view e u (upsert table new) ≡ (if has_key e u new then some (content new) else view e u table)
unfolding upsert
view-upsert e u [] new = refl
view-upsert e u (v ∷ table) new = ground (
  arith,
  view-upsert e u table new,
  eq_iff v.empresa_id e,
  eq_iff v.uuid u,
  eq_iff new.empresa_id e,
  eq_iff new.uuid u,
  eq_iff v.empresa_id new.empresa_id,
  eq_iff v.uuid new.uuid,
)

view-without :
    (e u : String) (table : List Venda) (new : Venda)
    → view e u (keep (λ v. not (has_key new.empresa_id new.uuid v)) table)
      ≡ (if has_key e u new then none else view e u table)
view-without e u [] new = ground arith
view-without e u (v ∷ table) new = ground (
  arith,
  view-without e u table new,
  eq_iff v.empresa_id e,
  eq_iff v.uuid u,
  eq_iff new.empresa_id e,
  eq_iff new.uuid u,
  eq_iff v.empresa_id new.empresa_id,
  eq_iff v.uuid new.uuid,
)

view-replace :
    (e u : String) (table : List Venda) (new : Venda)
    → view e u (replace table new)
      ≡ (if has_key e u new then some (content new) else view e u table)
unfolding replace
view-replace e u table new =
    let rest = keep (λ (v : Venda). not (has_key new.empresa_id new.uuid v)) table in
    ground (arith, view-append e u rest (new ∷ []), view-without e u table new)

pub view-write_one :
    (d : Dialect) (e u : String) (table : List Venda) (new : Venda)
    → view e u (write_one d table new)
      ≡ (if has_key e u new then some (content new) else view e u table)
view-write_one default e u table new = view-replace e u table new
view-write_one postgresql e u table new = view-upsert e u table new
view-write_one sqlite e u table new = view-upsert e u table new

-- The rows of one tenant.
abbrev pub rows_of : String → List Venda → List Venda
rows_of e = keep (λ v. v.empresa_id == e)

rows_of-upsert :
    (f : String) (table : List Venda) (new : Venda)
    → (new.empresa_id == f) ≡ false
    → rows_of f (upsert table new) ≡ rows_of f table
unfolding upsert
rows_of-upsert f [] new h = ground arith
rows_of-upsert f (v ∷ table) new h = ground (
  arith,
  rows_of-upsert f table new,
  eq_iff v.empresa_id f,
  eq_iff new.empresa_id f,
  eq_iff v.empresa_id new.empresa_id,
)

rows_of-without :
    (f : String) (table : List Venda) (new : Venda)
    → (new.empresa_id == f) ≡ false
    → rows_of f (keep (λ v. not (has_key new.empresa_id new.uuid v)) table) ≡ rows_of f table
rows_of-without f [] new h = refl
rows_of-without f (v ∷ table) new h = ground (
  arith,
  rows_of-without f table new,
  eq_iff v.empresa_id f,
  eq_iff new.empresa_id f,
  eq_iff v.empresa_id new.empresa_id,
)

pub rows_of-write_one :
    (d : Dialect) (f : String) (table : List Venda) (new : Venda)
    → (new.empresa_id == f) ≡ false
    → rows_of f (write_one d table new) ≡ rows_of f table
unfolding replace
rows_of-write_one default f table new h = ground (
  arith,
  rows_of-without f table new,
  keep-append (λ (v : Venda). v.empresa_id == f)
      (keep (λ (v : Venda). not (has_key new.empresa_id new.uuid v)) table) (new ∷ []),
  append-nil (rows_of f (keep (λ (v : Venda). not (has_key new.empresa_id new.uuid v)) table)),
)
rows_of-write_one postgresql f table new h = rows_of-upsert f table new h
rows_of-write_one sqlite f table new h = rows_of-upsert f table new h

find_record-none :
    (u : String) (rs : List SaleRecord) → any (same_uuid u) rs ≡ false → find_record u rs ≡ none
find_record-none u [] h = refl
find_record-none u (r ∷ rs) h = ground (arith, find_record-none u rs)

find_record-absent :
    (r : SaleRecord) (u : String) (rs : List SaleRecord)
    → any (same_uuid r.uuid) rs ≡ false
    → (r.uuid == u) ≡ true
    → find_record u rs ≡ none
find_record-absent r u rs h e =
    find_record-none u rs (subst (λ w. any (same_uuid w) rs ≡ false) ((eq_iff r.uuid u).0 e) h)

-- The row of a key after the write, from the row before it and the record of the key.
abbrev pub written : String → ℕ → Option Venda → Option SaleRecord → Option Venda
written e now old none = old
written e now old (some r) = some (content (row_of e now r))

module _ (d : Dialect) (e : String) (now : ℕ) where
  view-write_row :
      (u : String) (table : List Venda) (r : SaleRecord)
      → view e u (write_one d table (row_of e now r))
        ≡ (if r.uuid == u then some (content (row_of e now r)) else view e u table)
  view-write_row u table r =
      view-write_one d e u table (row_of e now r) ∙ (unfold row_of in rw ((eq_iff e e).1 refl))

  -- One entry for each record: the row of a key is the one of its record, if it has one.
  pub view-write :
      (u : String) (table : List Venda) (records : List SaleRecord)
      → IsDistinct records
      → view e u (write d table (map (row_of e now) records))
        ≡ written e now (view e u table) (find_record u records)
  view-write u table [] dist = unfold write in refl
  view-write u table (r ∷ records) dist =
      rw
        (
          write-cons d table (row_of e now r) (map (row_of e now) records),
          view-write u (write_one d table (row_of e now r)) records dist.1,
          view-write_row u table r,
        )
        (elim (Bool-cases (r.uuid == u)) [
          | inl own ↦ rw (own, find_record-absent r u records dist.0 own)
          | inr other ↦ rw other
        ])

  pub rows_of-write :
      (f : String) (table : List Venda) (records : List SaleRecord)
      → (e == f) ≡ false
      → rows_of f (write d table (map (row_of e now) records)) ≡ rows_of f table
  rows_of-write f table [] h = unfold write in refl
  rows_of-write f table (r ∷ records) h =
      rw (write-cons d table (row_of e now r) (map (row_of e now) records)) (
        rows_of-write f (write_one d table (row_of e now r)) records h
        ∙ rows_of-write_one d f table (row_of e now r) (unfold row_of in h))
