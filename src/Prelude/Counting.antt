-- ===== src/Prelude/Counting.antt =====
-- Counting the elements that pass a test, as `SELECT COUNT(*) ... WHERE` does.
use Prim.Native.Nat.{ℕ, suc, ◌+◌, ◌≤◌}
use mathlib.Core.Path.{◌≡◌, refl}
use mathlib.Core.Bool.{Bool}
use mathlib.Core.List.{List, [], ◌∷◌, ◌++◌}
use native.Mathlib.Omega.{arith}
use integrado_web_xd.Prelude.Tests.{if◌then◌else◌}
use integrado_web_xd.Prelude.Lists.{length, keep}

module _ {ℓ} {A : Type ℓ} (p : A → Bool) where
  abbrev pub count : List A → ℕ
  count [] = 0
  count (x ∷ xs) = let rest = count xs in if p x then suc rest else rest

  pub count-append : (xs ys : List A) → count (xs ++ ys) ≡ count xs + count ys
  count-append [] ys = omega arith
  count-append (x ∷ xs) ys = ground (arith, count-append xs ys)

  pub count-eq-length-keep : (xs : List A) → count xs ≡ length (keep p xs)
  count-eq-length-keep [] = refl
  count-eq-length-keep (x ∷ xs) = ground (arith, count-eq-length-keep xs)

  pub count-le-length : (xs : List A) → count xs ≤ length xs
  count-le-length [] = omega arith
  count-le-length (x ∷ xs) = ground (arith, count-le-length xs)
