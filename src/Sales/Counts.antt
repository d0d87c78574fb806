-- ===== src/Sales/Counts.antt =====
-- What the counts of `bulk_upsert` count: chunk by chunk, as over the table at the start.
use integrado_web_xd.Prelude.{
  ℕ, ◌+◌, ◌≡◌, refl, ◌∙◌, String, Bool, false, not, ◌||◌, List, [], ◌∷◌, ◌++◌, map, arith, ◌==◌,
  eq_iff, any, count, keep, count-append,
}
use mathlib.Core.List.{map-append}
use integrado_web_xd.Sales.{
  SaleRecord, Venda, Dialect, postgresql, sqlite, default, row_of, has_key, upsert, replace, write,
  is_stored, upsert_chunks,
}
use integrado_web_xd.Sales.Dedup.{same_uuid, IsDistinct}
use integrado_web_xd.Sales.Chunks.{joined}
use integrado_web_xd.Sales.Write.{write_one, write-cons}

module _ (e u : String) (new : Venda) (other : (new.uuid == u) ≡ false) where
  any-upsert : (table : List Venda) → any (has_key e u) (upsert table new) ≡ any (has_key e u) table
  unfolding upsert
  any-upsert [] = ground arith
  any-upsert (v ∷ table) =
      ground (arith, any-upsert table, eq_iff v.uuid u, eq_iff new.uuid u, eq_iff v.uuid new.uuid)

  any-without :
      (table : List Venda)
      → any (has_key e u) (keep (λ v. not (has_key new.empresa_id new.uuid v)) table ++ new ∷ [])
        ≡ any (has_key e u) table
  any-without [] = ground arith
  any-without (v ∷ table) =
      ground (arith, any-without table, eq_iff v.uuid u, eq_iff new.uuid u, eq_iff v.uuid new.uuid)

  any-write_one :
      (d : Dialect) (table : List Venda)
      → any (has_key e u) (write_one d table new) ≡ any (has_key e u) table
  unfolding replace
  any-write_one default table = any-without table
  any-write_one postgresql table = any-upsert table
  any-write_one sqlite table = any-upsert table

-- The counts that a batch of a tenant is reported with.
abbrev pub inserts : String → List Venda → List SaleRecord → ℕ
inserts e table = count (λ r. not (is_stored e table r))

abbrev pub updates : String → List Venda → List SaleRecord → ℕ
updates e table = count (λ r. is_stored e table r)

pub any_append :
    (u : String) (xs ys : List SaleRecord)
    → any (same_uuid u) (xs ++ ys) ≡ (any (same_uuid u) xs || any (same_uuid u) ys)
any_append u [] ys = refl
any_append u (x ∷ xs) ys = ground (arith, any_append u xs ys)

-- No uuid of the second list stands in the first.
abbrev pub Apart : List SaleRecord → List SaleRecord → Type 0
Apart xs [] = Unit
Apart xs (q ∷ qs) = (any (same_uuid q.uuid) xs ≡ false) × Apart xs qs

pub Apart-cons :
    (x : SaleRecord) (xs ys : List SaleRecord)
    → any (same_uuid x.uuid) ys ≡ false
    → Apart xs ys
    → Apart (x ∷ xs) ys
Apart-cons x xs [] h a = tt
Apart-cons x xs (q ∷ ys) h a = (
  ground (arith, eq_iff q.uuid x.uuid, eq_iff x.uuid q.uuid),
  Apart-cons x xs ys (ground arith) a.1,
)

pub Apart-nil : (ys : List SaleRecord) → Apart [] ys
Apart-nil [] = tt
Apart-nil (q ∷ ys) = (refl, Apart-nil ys)

IsDistinct-append : (xs ys : List SaleRecord) → IsDistinct (xs ++ ys) → IsDistinct ys × Apart xs ys
IsDistinct-append [] ys dist = (dist, Apart-nil ys)
IsDistinct-append (x ∷ xs) ys dist =
    let (right, apart) = IsDistinct-append xs ys dist.1 in
    (right, Apart-cons x xs ys (ground (arith, any_append x.uuid xs ys)) apart)

module _ (d : Dialect) (e : String) (now : ℕ) where
  -- Writing records of other uuids does not change what is stored.
  is_stored-write :
      (table : List Venda) (records : List SaleRecord) (q : SaleRecord)
      → any (same_uuid q.uuid) records ≡ false
      → is_stored e (write d table (map (row_of e now) records)) q ≡ is_stored e table q
  is_stored-write table [] q h = unfold write in refl
  is_stored-write table (r ∷ records) q h =
      rw (write-cons d table (row_of e now r) (map (row_of e now) records)) (
        is_stored-write (write_one d table (row_of e now r)) records q (ground arith)
        ∙ any-write_one e q.uuid (row_of e now r) (unfold row_of in ground arith) d table)

  pub count-write :
      (p : Bool → Bool) (table : List Venda) (xs ys : List SaleRecord)
      → Apart xs ys
      → count (λ q. p (is_stored e (write d table (map (row_of e now) xs)) q)) ys
        ≡ count (λ q. p (is_stored e table q)) ys
  count-write p table xs [] a = refl
  count-write p table xs (q ∷ ys) a =
      rw (is_stored-write table xs q a.0, count-write p table xs ys a.1)

  write-append :
      (table vs ws : List Venda) → write d table (vs ++ ws) ≡ write d (write d table vs) ws
  write-append table [] ws = unfold write in refl
  write-append table (v ∷ vs) ws =
      rw (write-cons d table v (vs ++ ws), write-cons d table v vs)
        (write-append (write_one d table v) vs ws)

  -- Over chunks that repeat no uuid, the loop writes all of the records and counts them as they
  -- stand to the table before the loop.
  pub upsert_chunks-joined :
      (table : List Venda) (i u : ℕ) (chunks : List (List SaleRecord))
      → IsDistinct (joined chunks)
      → upsert_chunks d e now table i u chunks ≡ (
        write d table (map (row_of e now) (joined chunks)),
        i + inserts e table (joined chunks),
        u + updates e table (joined chunks),
      )
  unfolding upsert_chunks
  upsert_chunks-joined table i u [] dist = unfold write in ground arith
  upsert_chunks-joined table i u (chunk ∷ chunks) dist =
      let rows = joined chunks in
      let (right, apart) = IsDistinct-append chunk rows dist in
      rw
        (
          upsert_chunks-joined (write d table (map (row_of e now) chunk))
              (i + inserts e table chunk) (u + updates e table chunk) chunks right,
          count-write not table chunk rows apart,
          count-write (λ b. b) table chunk rows apart,
          map-append (row_of e now) chunk rows,
          write-append table (map (row_of e now) chunk) (map (row_of e now) rows),
          count-append (λ r. not (is_stored e table r)) chunk rows,
          count-append (λ r. is_stored e table r) chunk rows,
        )
        (ground arith)
