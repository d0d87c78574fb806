-- ===== src/RateLimit/Keys.antt =====
-- The limiter on calls for many keys.
use integrado_web_xd.Prelude.{
  ℕ, ◌≤◌, max, ◌≡◌, refl, ◌∙◌, String, true, List, [], ◌∷◌, arith, count, if◌then◌else◌, ◌==◌,
  eq_iff,
}
use integrado_web_xd.RateLimit.{allow, allow_bucket}
use integrado_web_xd.RateLimit.Window.{
  is_allowed, let_through, is_ordered, is_within, count-let_through,
}
use integrado_web_xd.RateLimit.Reference.{reference, let_through-reference}

abbrev pub times_of : String → List (String × ℕ) → List ℕ
times_of k [] = []
times_of k (c ∷ calls) = let rest = times_of k calls in if c.0 == k then c.1 ∷ rest else rest

-- The calls that are let through, each with its key and its time.
abbrev pub run : ℕ → (String → List ℕ) → List (String × ℕ) → List (String × ℕ)
run limit requests [] = []
run limit requests (c ∷ calls) =
    let r = allow limit c.0 c.1 requests in
    let rest = run limit r.0 calls in if is_allowed r.1 then c ∷ rest else rest

bucket-allow :
    (limit : ℕ) (k key : String) (now : ℕ) (requests : String → List ℕ)
    → (allow limit key now requests).0 k
      ≡ (if k == key then (allow_bucket (max 1 limit) now (requests key)).0 else requests k)
unfolding allow
bucket-allow limit k key now requests = refl

decision-allow :
    (limit : ℕ) (key : String) (now : ℕ) (requests : String → List ℕ)
    → (allow limit key now requests).1 ≡ (allow_bucket (max 1 limit) now (requests key)).1
unfolding allow
decision-allow limit key now requests = refl

times_of-run :
    (limit : ℕ) (k : String) (requests : String → List ℕ) (calls : List (String × ℕ))
    → times_of k (run limit requests calls)
      ≡ let_through (max 1 limit) (requests k) (times_of k calls)
times_of-run limit k requests [] = refl
times_of-run limit k requests ((key, now) ∷ calls) =
    let next = (allow limit key now requests).0 in
    ground (
      arith,
      times_of-run limit k next calls,
      bucket-allow limit k key now requests,
      decision-allow limit key now requests,
      eq_iff key k,
      eq_iff k key,
    )

module _ (limit t : ℕ) (k : String) (calls : List (String × ℕ))
    (h : is_ordered t (times_of k calls) ≡ true) where
  -- If the calls for a key come in the order of the clock, then whatever calls come for other keys
  -- between them, no minute, wherever it begins, holds more calls for the key that are let through
  -- than the limit, or than one if the limit is zero.
  pub run-limit :
      (a : ℕ) → count (is_within a) (times_of k (run limit (λ _. []) calls)) ≤ max 1 limit
  run-limit a =
      rw (times_of-run limit k (λ _. []) calls)
        (count-let_through (max 1 limit) t a (times_of k calls) h)

  -- Under the same condition the calls for the key that are let through are those of the definition:
  -- a call passes exactly if fewer than the limit of those that passed are at most a minute old.
  pub run-reference :
      times_of k (run limit (λ _. []) calls) ≡ reference (max 1 limit) [] (times_of k calls)
  run-reference =
      times_of-run limit k (λ _. []) calls
      ∙ let_through-reference (max 1 limit) t (times_of k calls) h
