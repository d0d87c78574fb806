-- ===== src/Sales/Upsert.antt =====
-- `bulk_upsert` as a whole.
use integrado_web_xd.Prelude.{
  ℕ, ◌+◌, max, ◌≡◌, ◌≢◌, refl, ◌∙◌, ap, String, true, false, not, List, [], ◌∷◌, ◌++◌, map, arith,
  if◌then◌else◌, ◌==◌, eq_iff, any, is_some, append_assoc, length,
}
use integrado_web_xd.Sales.{
  SaleRecord, Venda, Dialect, postgresql, sqlite, default, row_of, has_key, upsert, write,
  is_stored, bulk_upsert, deduplicate_by_uuid, chunked,
}
use integrado_web_xd.Sales.Dedup.{
  same_uuid, IsDistinct, find_record, newest, find_record-deduplicate_by_uuid,
  deduplicate_by_uuid-IsDistinct,
}
use integrado_web_xd.Sales.Chunks.{joined-chunked}
use integrado_web_xd.Sales.Write.{
  view, written, view-write, rows_of, rows_of-write, write_one, write-cons,
}
use integrado_web_xd.Sales.Counts.{
  inserts, updates, upsert_chunks-joined, any_append, count-write, Apart-cons, Apart-nil,
}

module _ (d : Dialect) (e : String) (now : ℕ) (records : List SaleRecord) (size : ℕ)
    (table : List Venda) where
  -- Whatever the chunk size, the batch is written as if its deduplicated records were sent in one
  -- statement, and counted against the table as it was before the batch.
  bulk_upsert-one_chunk : bulk_upsert d e now records size table ≡ (
    write d table (map (row_of e now) (deduplicate_by_uuid records)),
    inserts e table (deduplicate_by_uuid records),
    updates e table (deduplicate_by_uuid records),
  )
  unfolding bulk_upsert
  bulk_upsert-one_chunk =
      let rows = deduplicate_by_uuid records in
      let whole = joined-chunked (max 1 size) rows (omega arith) in
      upsert_chunks-joined d e now table 0 0 (chunked (max 1 size) rows)
        (rw whole (deduplicate_by_uuid-IsDistinct records))
      ∙ rw whole (ground arith)

  -- After the batch, the row of the tenant with a uuid has the content of the newest record of the
  -- batch with that uuid, and of equally new ones the last; a row that no record names is as it was.
  pub view-bulk_upsert :
      (u : String)
      → view e u (bulk_upsert d e now records size table).0
        ≡ written e now (view e u table) (newest u records)
  view-bulk_upsert u = rw bulk_upsert-one_chunk (
      view-write d e now u table (deduplicate_by_uuid records)
        (deduplicate_by_uuid-IsDistinct records)
      ∙ ap (written e now (view e u table)) (find_record-deduplicate_by_uuid u records))

  -- A batch of one tenant leaves the rows of every other tenant as they are, and in their order.
  pub rows_of-bulk_upsert :
      (f : String)
      → (e == f) ≡ false
      → rows_of f (bulk_upsert d e now records size table).0 ≡ rows_of f table
  rows_of-bulk_upsert f h =
      rw bulk_upsert-one_chunk (rows_of-write d e now f table (deduplicate_by_uuid records) h)

-- Each record of a list is counted as inserted or as updated.
inserts-updates :
    (e : String) (table : List Venda) (rs : List SaleRecord)
    → inserts e table rs + updates e table rs ≡ length rs
inserts-updates e table [] = omega arith
inserts-updates e table (r ∷ rs) = ground (arith, inserts-updates e table rs)

length-upsert :
    (table : List Venda) (new : Venda)
    → length (upsert table new)
      ≡ (if any (has_key new.empresa_id new.uuid) table then length table else length table + 1)
unfolding upsert
length-upsert [] new = omega arith
length-upsert (v ∷ table) new = ground (arith, length-upsert table new)

length-upsert_row :
    (e : String) (now : ℕ) (table : List Venda) (r : SaleRecord)
    → length (upsert table (row_of e now r))
      ≡ (if is_stored e table r then length table else length table + 1)
unfolding row_of
length-upsert_row e now table r = length-upsert table (row_of e now r)

inserts-cons :
    (e : String) (table : List Venda) (r : SaleRecord) (rs : List SaleRecord)
    → inserts e table (r ∷ rs)
      ≡ (if is_stored e table r then inserts e table rs else inserts e table rs + 1)
inserts-cons e table r rs = ground arith

write_one-upsert :
    (d : Dialect) (table : List Venda) (new : Venda)
    → d ≢ default
    → write_one d table new ≡ upsert table new
write_one-upsert default table new h = absurd (h refl)
write_one-upsert postgresql table new h = refl
write_one-upsert sqlite table new h = refl

module _ (d : Dialect) (e : String) (now : ℕ) (conflict : d ≢ default) where
  length-write :
      (table : List Venda) (rs : List SaleRecord)
      → IsDistinct rs
      → length (write d table (map (row_of e now) rs)) ≡ length table + inserts e table rs
  length-write table [] dist = unfold write in omega arith
  length-write table (r ∷ rs) dist =
      let new = row_of e now r in
      let one : write d table (new ∷ []) ≡ upsert table new =
        write-cons d table new [] ∙ (unfold write in write_one-upsert d table new conflict) in
      let others =
        count-write d e now not table (r ∷ []) rs (Apart-cons r [] rs dist.0 (Apart-nil rs)) in
      rw (write-cons d table new (map (row_of e now) rs), write_one-upsert d table new conflict)
        (ground (
          arith,
          length-write (upsert table new) rs,
          length-upsert_row e now table r,
          inserts-cons e table r rs,
          rw one at others,
        ))

-- Under ON CONFLICT, the two counts add up to the number of different uuids of the batch, and the
-- table grows by `inserted_count` rows.
pub counts-bulk_upsert :
    (d : Dialect) (e : String) (now : ℕ) (records : List SaleRecord) (size : ℕ) (table : List Venda)
    → d ≢ default
    → ((bulk_upsert d e now records size table).1 + (bulk_upsert d e now records size table).2
        ≡ length (deduplicate_by_uuid records))
      × (length (bulk_upsert d e now records size table).0
          ≡ length table + (bulk_upsert d e now records size table).1)
counts-bulk_upsert d e now records size table h =
    let rows = deduplicate_by_uuid records in
    rw (bulk_upsert-one_chunk d e now records size table) (
      inserts-updates e table rows,
      length-write d e now h table rows (deduplicate_by_uuid-IsDistinct records),
    )

-- `is_stored` in terms of the rows by key.
is_stored-view :
    (e : String) (table : List Venda) (r : SaleRecord)
    → is_stored e table r ≡ is_some (view e r.uuid table)
is_stored-view e [] r = refl
is_stored-view e (v ∷ table) r = ground (arith, is_stored-view e table r)

find_record-some :
    (u : String) (rs : List SaleRecord) → is_some (find_record u rs) ≡ any (same_uuid u) rs
find_record-some u [] = refl
find_record-some u (r ∷ rs) = ground (arith, find_record-some u rs)

inserts-nil :
    (e : String) (table : List Venda) (pre rs : List SaleRecord)
    → ((u : String) → any (same_uuid u) (pre ++ rs) ≡ true → is_some (view e u table) ≡ true)
    → inserts e table rs ≡ 0
inserts-nil e table pre [] h = refl
inserts-nil e table pre (r ∷ rs) h = ground (
  arith,
  h r.uuid,
  is_stored-view e table r,
  any_append r.uuid pre (r ∷ rs),
  eq_iff r.uuid r.uuid,
  inserts-nil e table (pre ++ r ∷ []) rs (rw (append_assoc pre (r ∷ []) rs) h),
)

-- Sending a batch again, under any chunk size, inserts nothing.
pub bulk_upsert_again :
    (d : Dialect) (e : String) (now now' : ℕ) (records : List SaleRecord) (size size' : ℕ)
    (table : List Venda)
    → (bulk_upsert d e now' records size' (bulk_upsert d e now records size table).0).1 ≡ 0
bulk_upsert_again d e now now' records size size' table =
    let rows = deduplicate_by_uuid records in
    rw
      (
        bulk_upsert-one_chunk d e now records size table,
        bulk_upsert-one_chunk d e now' records size' (write d table (map (row_of e now) rows)),
      )
      (inserts-nil e (write d table (map (row_of e now) rows)) [] rows λ u h.
        rw (view-write d e now u table rows (deduplicate_by_uuid-IsDistinct records))
          (ground (arith, find_record-some u rows)))
