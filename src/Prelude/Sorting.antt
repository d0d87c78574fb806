-- ===== src/Prelude/Sorting.antt =====
-- `ORDER BY key ASC`: stable, by insertion.
use Prim.Native.Nat.{ℕ, zero, suc, ◌<◌, max}
use mathlib.Core.Path.{◌≡◌, refl, sym, subst}
use mathlib.Core.Bool.{Bool, true, ◌&&◌}
use mathlib.Core.List.{List, [], ◌∷◌}
use native.Mathlib.Omega.{arith}
use integrado_web_xd.Prelude.Tests.{if◌then◌else◌, leb, ltb}
use integrado_web_xd.Prelude.Lists.{all, all-keep, keep, take, drop}
use integrado_web_xd.Prelude.Counting.{count}

module _ {ℓ} {A : Type ℓ} (key : A → ℕ) where
  abbrev insert_by : A → List A → List A
  insert_by x [] = x ∷ []
  insert_by x (y ∷ ys) =
      let rest = insert_by x ys in if leb (key x) (key y) then x ∷ y ∷ ys else y ∷ rest

  abbrev pub sort_by : List A → List A
  sort_by [] = []
  sort_by (x ∷ xs) = insert_by x (sort_by xs)

  abbrev pub is_sorted_by : List A → Bool
  is_sorted_by [] = true
  is_sorted_by (x ∷ xs) = all (λ y. leb (key x) (key y)) xs && is_sorted_by xs

  count-insert_by :
      (p : A → Bool) (x : A) (ys : List A) → count p (insert_by x ys) ≡ count p (x ∷ ys)
  count-insert_by p x [] = refl
  count-insert_by p x (y ∷ ys) = ground (arith, count-insert_by p x ys)

  pub count-sort_by : (p : A → Bool) (xs : List A) → count p (sort_by xs) ≡ count p xs
  count-sort_by p [] = refl
  count-sort_by p (x ∷ xs) = ground (arith, count-insert_by p x (sort_by xs), count-sort_by p xs)

  all-insert_by : (p : A → Bool) (x : A) (ys : List A) → all p (insert_by x ys) ≡ (p x && all p ys)
  all-insert_by p x [] = refl
  all-insert_by p x (y ∷ ys) = ground (arith, all-insert_by p x ys)

  pub all-sort_by : (p : A → Bool) (xs : List A) → all p (sort_by xs) ≡ all p xs
  all-sort_by p [] = refl
  all-sort_by p (x ∷ xs) = ground (arith, all-insert_by p x (sort_by xs), all-sort_by p xs)

  all-leb :
      (a b : ℕ) (ys : List A)
      → leb a b ≡ true
      → all (λ y. leb b (key y)) ys ≡ true
      → all (λ y. leb a (key y)) ys ≡ true
  all-leb a b [] h k = refl
  all-leb a b (y ∷ ys) h k = ground (arith, all-leb a b ys)

  sorted-insert_by :
      (x : A) (ys : List A) → is_sorted_by ys ≡ true → is_sorted_by (insert_by x ys) ≡ true
  sorted-insert_by x [] h = refl
  sorted-insert_by x (y ∷ ys) h = ground (
    arith,
    sorted-insert_by x ys,
    all-insert_by (λ z. leb (key y) (key z)) x ys,
    all-leb (key x) (key y) ys,
  )

  pub sorted-sort_by : (xs : List A) → is_sorted_by (sort_by xs) ≡ true
  sorted-sort_by [] = refl
  sorted-sort_by (x ∷ xs) = sorted-insert_by x (sort_by xs) (sorted-sort_by xs)

  insert_by-first :
      (x : A) (ys : List A) → all (λ y. leb (key x) (key y)) ys ≡ true → insert_by x ys ≡ x ∷ ys
  insert_by-first x [] h = refl
  insert_by-first x (y ∷ ys) h = ground arith

  keep-insert_by :
      (p : A → Bool) (x : A) (ys : List A)
      → is_sorted_by ys ≡ true
      → keep p (insert_by x ys) ≡ (if p x then insert_by x (keep p ys) else keep p ys)
  keep-insert_by p x [] h = ground arith
  keep-insert_by p x (y ∷ ys) h = ground (
    arith,
    keep-insert_by p x ys,
    insert_by-first x (keep p ys),
    all-keep (λ z. leb (key x) (key z)) p ys,
    all-leb (key x) (key y) ys,
  )

  -- Sorting is stable, so it commutes with a query's WHERE.
  pub keep-sort_by : (p : A → Bool) (xs : List A) → keep p (sort_by xs) ≡ sort_by (keep p xs)
  keep-sort_by p [] = refl
  keep-sort_by p (x ∷ xs) =
      ground (arith, keep-insert_by p x (sort_by xs) (sorted-sort_by xs), keep-sort_by p xs)

  abbrev pub is_strict_by : List A → Bool
  is_strict_by [] = true
  is_strict_by (x ∷ xs) = all (λ y. ltb (key x) (key y)) xs && is_strict_by xs

  pub strict-drop : (n : ℕ) (xs : List A) → is_strict_by xs ≡ true → is_strict_by (drop n xs) ≡ true
  strict-drop zero xs h = h
  strict-drop (suc n) [] h = refl
  strict-drop (suc n) (x ∷ xs) h = ground (arith, strict-drop n xs)

  -- The greatest key, from 0.
  abbrev pub greatest : List A → ℕ
  greatest [] = 0
  greatest (x ∷ xs) = max (key x) (greatest xs)

  keep_above :
      (m : ℕ) (xs : List A) → all (λ y. ltb m (key y)) xs ≡ true → keep (λ y. ltb m (key y)) xs ≡ xs
  keep_above m [] h = refl
  keep_above m (x ∷ xs) h = ground (arith, keep_above m xs)

  first-le-greatest :
      (a n : ℕ) (x : A) (xs : List A) → ltb a (key x) ≡ true → a < greatest (take (suc n) (x ∷ xs))
  first-le-greatest a n x xs h = ground arith

  -- Above the greatest key of the first rows of a strictly ordered list are the others.
  pub keep-greatest :
      (n : ℕ) (xs : List A)
      → is_strict_by xs ≡ true
      → keep (λ y. ltb (greatest (take (suc n) xs)) (key y)) xs ≡ drop (suc n) xs
  keep-greatest n [] h = refl
  keep-greatest zero (x ∷ xs) h =
      let e : max (key x) 0 ≡ key x = omega arith in
      subst (λ m. keep (λ y. ltb m (key y)) (x ∷ xs) ≡ xs) (sym e)
        (ground (arith, keep_above (key x) xs))
  keep-greatest (suc n) (x ∷ []) h = ground arith
  keep-greatest (suc n) (x ∷ y ∷ xs) h =
      let rest = greatest (take (suc n) (y ∷ xs)) in
      let less : key x < rest = first-le-greatest (key x) n y xs (ground arith) in
      let e : max (key x) rest ≡ rest = omega (arith, less) in
      subst (λ m. keep (λ z. ltb m (key z)) (x ∷ y ∷ xs) ≡ drop (suc n) (y ∷ xs)) (sym e)
        (ground (arith, less, keep-greatest n (y ∷ xs)))
