-- ===== src/Agent/Order.antt =====
-- Which rows a run of the agent takes, and which remain for the next one.
use integrado_web_xd.Prelude.{
  ℕ, suc, ◌≤◌, max, ◌≡◌, refl, sym, ◌∙◌, ap, arith, String, true, false, List, [], ◌∷◌, map, take,
  drop, keep, sort_by, keep-sort_by, is_strict_by, greatest, keep-greatest, ltb, ◌==◌, eq_iff, all,
  all-sort_by, all-keep_self, all_weaken, ltb→lt,
}
use integrado_web_xd.Sales.{SaleRecord}
use integrado_web_xd.Agent.{
  SourceVenda, selected, canonicalize_sales_row, is_changed, updated, changed, get, put, max_update,
}

keep-is_changed :
    (e : String) (since later : ℕ) (vs : List SourceVenda)
    → since ≤ later
    → keep (λ v. ltb later (updated v)) (keep (is_changed e since) vs)
      ≡ keep (is_changed e later) vs
keep-is_changed e since later [] le = refl
keep-is_changed e since later (v ∷ vs) le = ground (arith, keep-is_changed e since later vs)

-- The rows changed after a later time are among those changed after an earlier one.
pub changed_later :
    (e : String) (since later : ℕ) (vs : List SourceVenda)
    → since ≤ later
    → changed e later vs ≡ keep (λ v. ltb later (updated v)) (changed e since vs)
changed_later e since later vs le = sym (
    keep-sort_by updated (λ v. ltb later (updated v)) (keep (is_changed e since) vs)
    ∙ ap (sort_by updated) (keep-is_changed e since later vs le))

-- The rows as the agent reads them.
abbrev pub read : List SourceVenda → List SaleRecord
read = map (λ v. canonicalize_sales_row (selected v))

pub max_update-read : (vs : List SourceVenda) → max_update (read vs) ≡ greatest updated vs
unfolding canonicalize_sales_row
max_update-read [] = refl
max_update-read (v ∷ vs) = ap (max (updated v)) (max_update-read vs)

pub get-put :
    (key : String) (value : ℕ) (cp : List (String × ℕ)) → get key (put key value cp) ≡ value
unfolding get put
get-put key value [] = ground (arith, eq_iff key key)
get-put key value (e ∷ cp) = ground (arith, get-put key value cp, eq_iff key key)

pub get-put_other :
    (key other : String) (value : ℕ) (cp : List (String × ℕ))
    → (key == other) ≡ false
    → get other (put key value cp) ≡ get other cp
unfolding get put
get-put_other key other value [] h = ground arith
get-put_other key other value (e ∷ cp) h =
    ground (arith, get-put_other key other value cp, eq_iff e.0 key, eq_iff e.0 other)

-- Every row of a run is newer than the checkpoint.
pub newer-changed :
    (e : String) (since : ℕ) (vs : List SourceVenda)
    → all (λ v. ltb since (updated v)) (changed e since vs) ≡ true
newer-changed e since vs =
    all-sort_by updated (λ v. ltb since (updated v)) (keep (is_changed e since) vs)
    ∙ all_weaken (is_changed e since) (λ v. ltb since (updated v)) (keep (is_changed e since) vs)
        (λ v h. ground (arith, h)) (all-keep_self (is_changed e since) vs)

-- After a run that took some of the rows, the next ones are those that it left.
pub changed-greatest :
    (e : String) (since size : ℕ) (vs : List SourceVenda) (x : SourceVenda) (xs : List SourceVenda)
    → changed e since vs ≡ x ∷ xs
    → is_strict_by updated (changed e since vs) ≡ true
    → changed e (greatest updated (take (suc size) (changed e since vs))) vs
      ≡ drop (suc size) (changed e since vs)
changed-greatest e since size vs x xs eq strict =
    let newer : ltb since (updated x) ≡ true =
      ground (arith, rw (eq) at (newer-changed e since vs)) in
    let above : since ≤ greatest updated (take (suc size) (changed e since vs)) =
      rw (eq) (omega (arith, ltb→lt since (updated x) newer)) in
    changed_later e since (greatest updated (take (suc size) (changed e since vs))) vs above
    ∙ keep-greatest updated size (changed e since vs) strict
