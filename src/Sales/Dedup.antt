-- ===== src/Sales/Dedup.antt =====
-- `_deduplicate_by_uuid`: one record for each uuid of the batch, the newest.
use integrado_web_xd.Prelude.{
  ◌≡◌, refl, String, Bool, false, ◌||◌, Option, none, some, List, [], ◌∷◌, arith, leb,
  if◌then◌else◌, ◌==◌, eq_iff, any,
}
use integrado_web_xd.Sales.{SaleRecord, put_latest, dedup_from, deduplicate_by_uuid}

abbrev pub same_uuid : String → SaleRecord → Bool
same_uuid u r = r.uuid == u

abbrev pub find_record : String → List SaleRecord → Option SaleRecord
find_record u [] = none
find_record u (r ∷ rs) = let rest = find_record u rs in if r.uuid == u then some r else rest

-- The later of two candidates, unless the first one is newer.
abbrev pub newer : Option SaleRecord → Option SaleRecord → Option SaleRecord
newer none b = b
newer (some p) none = some p
newer (some p) (some q) = if leb p.data_atualizacao q.data_atualizacao then some q else some p

-- The specification, from the end of the batch: the newest record of a uuid, and of equally new
-- ones the last.
abbrev pub newest : String → List SaleRecord → Option SaleRecord
newest u [] = none
newest u (r ∷ rs) = let rest = newest u rs in if r.uuid == u then newer (some r) rest else rest

newer_assoc : (a b c : Option SaleRecord) → newer (newer a b) c ≡ newer a (newer b c)
newer_assoc none b c = refl
newer_assoc (some p) none c = refl
newer_assoc (some p) (some q) none = ground arith
newer_assoc (some p) (some q) (some r) = ground arith

find_record-put_latest :
    (u : String) (r : SaleRecord) (g : List SaleRecord)
    → find_record u (put_latest r g)
      ≡ (if r.uuid == u then newer (find_record u g) (some r) else find_record u g)
unfolding put_latest
find_record-put_latest u r [] = ground arith
find_record-put_latest u r (p ∷ g) =
    ground
      (arith, find_record-put_latest u r g, eq_iff p.uuid u, eq_iff p.uuid r.uuid, eq_iff r.uuid u)

find_record-dedup_from :
    (u : String) (g rs : List SaleRecord)
    → find_record u (dedup_from g rs) ≡ newer (find_record u g) (newest u rs)
unfolding dedup_from
find_record-dedup_from u g [] = ground arith
find_record-dedup_from u g (r ∷ rs) = ground (
  arith,
  find_record-dedup_from u (put_latest r g) rs,
  find_record-put_latest u r g,
  newer_assoc (find_record u g) (some r) (newest u rs),
)

-- For every uuid, what the deduplication keeps is the newest record of the batch, and of equally
-- new ones the last; it keeps nothing for a uuid that the batch has not.
pub find_record-deduplicate_by_uuid :
    (u : String) (records : List SaleRecord)
    → find_record u (deduplicate_by_uuid records) ≡ newest u records
unfolding deduplicate_by_uuid
find_record-deduplicate_by_uuid u records = find_record-dedup_from u [] records

-- No uuid stands twice.
abbrev pub IsDistinct : List SaleRecord → Type 0
IsDistinct [] = Unit
IsDistinct (r ∷ rs) = (any (same_uuid r.uuid) rs ≡ false) × IsDistinct rs

pub any-put_latest :
    (u : String) (r : SaleRecord) (g : List SaleRecord)
    → any (same_uuid u) (put_latest r g) ≡ ((r.uuid == u) || any (same_uuid u) g)
unfolding put_latest
any-put_latest u r [] = refl
any-put_latest u r (p ∷ g) =
    ground (arith, any-put_latest u r g, eq_iff p.uuid u, eq_iff p.uuid r.uuid, eq_iff r.uuid u)

put_latest-IsDistinct :
    (r : SaleRecord) (g : List SaleRecord) → IsDistinct g → IsDistinct (put_latest r g)
unfolding put_latest
put_latest-IsDistinct r [] d = (refl, tt)
put_latest-IsDistinct r (p ∷ g) d = ground (
  arith,
  put_latest-IsDistinct r g,
  any-put_latest p.uuid r g,
  eq_iff p.uuid r.uuid,
  eq_iff r.uuid p.uuid,
)

dedup_from-IsDistinct : (g rs : List SaleRecord) → IsDistinct g → IsDistinct (dedup_from g rs)
unfolding dedup_from
dedup_from-IsDistinct g [] d = d
dedup_from-IsDistinct g (r ∷ rs) d =
    dedup_from-IsDistinct (put_latest r g) rs (put_latest-IsDistinct r g d)

pub deduplicate_by_uuid-IsDistinct :
    (records : List SaleRecord) → IsDistinct (deduplicate_by_uuid records)
unfolding deduplicate_by_uuid
deduplicate_by_uuid-IsDistinct records = dedup_from-IsDistinct [] records tt
