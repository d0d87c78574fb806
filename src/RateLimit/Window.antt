-- ===== src/RateLimit/Window.antt =====
-- No minute holds more requests of a key than the limit.
use integrado_web_xd.Prelude.{
  subst, ℕ, ◌+◌, ◌≤◌, ◌≡◌, refl, ap, Bool, true, false, ◌&&◌, List, [], ◌∷◌, ◌++◌, arith, leb, ltb,
  length, count, count-append, count-le-length, all, length-append, if◌then◌else◌, append_assoc,
  Bool-cases, inl, inr,
}
use integrado_web_xd.RateLimit.{
  window, RateLimitDecision, allowed, refused, drop_old, retry_after, allow_bucket,
}

abbrev pub is_allowed : RateLimitDecision → Bool
is_allowed allowed = true
is_allowed (refused n) = false

-- The times of the requests of a key that are let through, out of those that come.
abbrev pub let_through : ℕ → List ℕ → List ℕ → List ℕ
let_through limit bucket [] = []
let_through limit bucket (now ∷ times) =
    let r = allow_bucket limit now bucket in
    let rest = let_through limit r.0 times in if is_allowed r.1 then now ∷ rest else rest

-- Times in the order of the clock, from `t` on.
abbrev pub is_ordered : ℕ → List ℕ → Bool
is_ordered t [] = true
is_ordered t (u ∷ times) = leb t u && is_ordered u times

abbrev pub is_within : ℕ → ℕ → Bool
is_within a t = leb a t && leb t (a + window)

-- What `drop_old` takes off the front, and that it leaves the rest.
abbrev pub old_part : ℕ → List ℕ → List ℕ
old_part now [] = []
old_part now (t ∷ bucket) =
    let rest = old_part now bucket in if ltb (t + window) now then t ∷ rest else []

pub split-drop_old : (now : ℕ) (b : List ℕ) → b ≡ old_part now b ++ drop_old now b
unfolding drop_old
split-drop_old now [] = refl
split-drop_old now (t ∷ b) = ground (arith, split-drop_old now b)

length-drop_old-le : (now : ℕ) (b : List ℕ) → length (drop_old now b) ≤ length b
unfolding drop_old
length-drop_old-le now [] = omega arith
length-drop_old-le now (t ∷ b) = ground (arith, length-drop_old-le now b)

pub old_part-old : (now : ℕ) (b : List ℕ) → all (λ t. ltb (t + window) now) (old_part now b) ≡ true
old_part-old now [] = refl
old_part-old now (t ∷ b) = ground (arith, old_part-old now b)

-- If an old time is in a minute, no time from `now` on is.
count-late :
    (a now : ℕ) (xs : List ℕ)
    → a + window + 1 ≤ now
    → is_ordered now xs ≡ true
    → count (is_within a) xs ≡ 0
count-late a now [] h k = refl
count-late a now (x ∷ xs) h k = ground (arith, count-late a x xs)

count-old :
    (a now : ℕ) (xs : List ℕ)
    → all (λ t. ltb (t + window) now) xs ≡ true
    → now ≤ a + window
    → count (is_within a) xs ≡ 0
count-old a now [] h k = refl
count-old a now (x ∷ xs) h k = ground (arith, count-old a now xs)

pub ordered_later :
    (t u : ℕ) (xs : List ℕ) → t ≤ u → is_ordered u xs ≡ true → is_ordered t xs ≡ true
ordered_later t u [] h k = refl
ordered_later t u (x ∷ xs) h k = ground arith

ordered-let_through :
    (limit t : ℕ) (b times : List ℕ)
    → is_ordered t times ≡ true
    → is_ordered t (let_through limit b times) ≡ true
ordered-let_through limit t b [] h = refl
ordered-let_through limit t b (now ∷ times) h =
    let rest = let_through limit (allow_bucket limit now b).0 times in
    ground (
      arith,
      ordered-let_through limit now (allow_bucket limit now b).0 times,
      ordered_later t now rest,
    )

pub allow_full :
    (limit now : ℕ) (b : List ℕ)
    → leb limit (length (drop_old now b)) ≡ true
    → allow_bucket limit now b ≡ (drop_old now b, refused (retry_after now (drop_old now b)))
unfolding allow_bucket
allow_full limit now b h = rw h refl

pub allow_room :
    (limit now : ℕ) (b : List ℕ)
    → leb limit (length (drop_old now b)) ≡ false
    → allow_bucket limit now b ≡ (drop_old now b ++ now ∷ [], allowed)
unfolding allow_bucket
allow_room limit now b h = rw h refl

module _ (limit a : ℕ) where
  -- One call: what it takes off the bucket, what it keeps and what it lets through.
  count-step :
      (t now : ℕ) (b rest : List ℕ)
      → length b ≤ limit
      → is_ordered now rest ≡ true
      → count (is_within a) (drop_old now b ++ rest) ≤ limit
      → count (is_within a) (b ++ rest) ≤ limit
  count-step t now b rest short ordered fits =
      let parts = split-drop_old now b in
      ground (
        arith,
        count-append (is_within a) b rest,
        count-append (is_within a) (drop_old now b) rest,
        count-append (is_within a) (old_part now b) (drop_old now b),
        ap (count (is_within a)) parts,
        count-le-length (is_within a) b,
        count-late a now rest,
        count-old a now (old_part now b) (old_part-old now b),
      )

  count-let_through_from :
      (t : ℕ) (b times : List ℕ)
      → length b ≤ limit
      → is_ordered t times ≡ true
      → count (is_within a) (b ++ let_through limit b times) ≤ limit
  count-let_through_from t b [] short h =
      ground (arith, count-append (is_within a) b [], count-le-length (is_within a) b)
  count-let_through_from t b (now ∷ times) short h =
      let kept = drop_old now b in
      elim (Bool-cases (leb limit (length kept))) [
        | inl full ↦ rw (allow_full limit now b full) (
            count-step t now b (let_through limit kept times) short
              (ordered-let_through limit now kept times (ground arith))
              (count-let_through_from now kept times (ground (arith, length-drop_old-le now b))
                (ground arith)))
        | inr room ↦
            let longer = kept ++ now ∷ [] in
            let rest = let_through limit longer times in
            rw (allow_room limit now b room) (
              count-step t now b (now ∷ rest) short
                (ground (arith, ordered-let_through limit now longer times))
                (subst (λ xs. count (is_within a) xs ≤ limit) (append_assoc kept (now ∷ []) rest)
                  (count-let_through_from now longer times
                    (ground (arith, length-append kept (now ∷ []))) (ground arith))))
      ]

-- If the calls for a key come in the order of the clock, no minute, wherever it begins, holds more
-- requests that were let through than the limit.
pub count-let_through :
    (limit t a : ℕ) (times : List ℕ)
    → is_ordered t times ≡ true
    → count (is_within a) (let_through limit [] times) ≤ limit
count-let_through limit t a times h = count-let_through_from limit a t [] times (omega arith) h
