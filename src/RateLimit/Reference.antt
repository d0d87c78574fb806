-- ===== src/RateLimit/Reference.antt =====
-- The limiter against its definition on the whole history, for all keys together.
use integrado_web_xd.Prelude.{
  ℕ, ◌+◌, ◌≤◌, ◌≡◌, refl, sym, ◌∙◌, ap, Bool, true, false, not, List, [], ◌∷◌, ◌++◌, arith, leb,
  ltb, length, count, count-append, all, all-append, if◌then◌else◌, append_assoc, Bool-cases, inl,
  inr,
}
use integrado_web_xd.RateLimit.{window, drop_old}
use integrado_web_xd.RateLimit.Window.{
  let_through, is_ordered, old_part, split-drop_old, old_part-old, allow_full, allow_room,
  ordered_later,
}

-- A request from the last minute before `now`.
abbrev pub is_recent : ℕ → ℕ → Bool
is_recent now t = not (ltb (t + window) now)

-- The definition: a request passes if fewer than `limit` of those that passed are recent.
abbrev pub reference : ℕ → List ℕ → List ℕ → List ℕ
reference limit passed [] = []
reference limit passed (now ∷ times) =
    let more = now ∷ reference limit (passed ++ now ∷ []) times in
    let same = reference limit passed times in
    if ltb (count (is_recent now) passed) limit then more else same

count-all_recent :
    (now t : ℕ) (b : List ℕ)
    → is_recent now t ≡ true
    → is_ordered t b ≡ true
    → count (is_recent now) b ≡ length b
count-all_recent now t [] h k = omega arith
count-all_recent now t (x ∷ b) h k = ground (arith, count-all_recent now x b)

length-drop_old :
    (now t : ℕ) (b : List ℕ)
    → is_ordered t b ≡ true
    → length (drop_old now b) ≡ count (is_recent now) b
unfolding drop_old
length-drop_old now t [] h = omega arith
length-drop_old now t (x ∷ b) h = ground (arith, length-drop_old now x b, count-all_recent now x b)

count-gone :
    (t now : ℕ) (gone : List ℕ)
    → t ≤ now
    → all (λ u. ltb (u + window) t) gone ≡ true
    → count (is_recent now) gone ≡ 0
count-gone t now [] h k = refl
count-gone t now (x ∷ gone) h k = ground (arith, count-gone t now gone)

older :
    (t now : ℕ) (gone : List ℕ)
    → t ≤ now
    → all (λ u. ltb (u + window) t) gone ≡ true
    → all (λ u. ltb (u + window) now) gone ≡ true
older t now [] h k = refl
older t now (x ∷ gone) h k = ground (arith, older t now gone)

ordered-drop_old :
    (now t : ℕ) (b : List ℕ) → is_ordered t b ≡ true → is_ordered t (drop_old now b) ≡ true
unfolding drop_old
ordered-drop_old now t [] h = refl
ordered-drop_old now t (x ∷ b) h =
    ground (arith, ordered-drop_old now x b, ordered_later t x (drop_old now b))

all-drop_old :
    (p : ℕ → Bool) (now : ℕ) (b : List ℕ) → all p b ≡ true → all p (drop_old now b) ≡ true
unfolding drop_old
all-drop_old p now [] h = refl
all-drop_old p now (x ∷ b) h = ground (arith, all-drop_old p now b)

ordered-snoc :
    (t now : ℕ) (b : List ℕ)
    → t ≤ now
    → is_ordered t b ≡ true
    → all (λ u. leb u now) b ≡ true
    → is_ordered t (b ++ now ∷ []) ≡ true
ordered-snoc t now [] h k l = ground arith
ordered-snoc t now (x ∷ b) h k l = ground (arith, ordered-snoc x now b)

all_later :
    (t now : ℕ) (b : List ℕ) → t ≤ now → all (λ u. leb u t) b ≡ true → all (λ u. leb u now) b ≡ true
all_later t now [] h k = refl
all_later t now (x ∷ b) h k = ground (arith, all_later t now b)

-- A bucket at a time: ordered, and of times that have come.
abbrev IsBucket : ℕ → List ℕ → Type 0
IsBucket t b = (is_ordered 0 b ≡ true) × (all (λ u. leb u t) b ≡ true)

module _ (limit : ℕ) where
  let_through-reference_from :
      (t : ℕ) (gone b times : List ℕ)
      → all (λ u. ltb (u + window) t) gone ≡ true
      → IsBucket t b
      → is_ordered t times ≡ true
      → let_through limit b times ≡ reference limit (gone ++ b) times
  let_through-reference_from t gone b [] old bucket h = refl
  let_through-reference_from t gone b (now ∷ times) old (ordered, past) h =
      let kept = drop_old now b in
      let gone' = gone ++ old_part now b in
      let le : t ≤ now = ground arith in
      let parts : gone ++ b ≡ gone' ++ kept =
        ap (λ x. gone ++ x) (split-drop_old now b)
        ∙ sym (append_assoc gone (old_part now b) kept) in
      let old' : all (λ u. ltb (u + window) now) gone' ≡ true = ground (
        arith,
        all-append (λ u. ltb (u + window) now) gone (old_part now b),
        older t now gone le old,
        old_part-old now b,
      ) in
      let past' : all (λ u. leb u now) kept ≡ true =
        all-drop_old (λ u. leb u now) now b (all_later t now b le past) in
      let ordered' : is_ordered 0 kept ≡ true = ordered-drop_old now 0 b ordered in
      let number : count (is_recent now) (gone ++ b) ≡ length kept = ground (
        arith,
        count-append (is_recent now) gone b,
        count-gone t now gone le old,
        length-drop_old now 0 b ordered,
      ) in
      elim (Bool-cases (leb limit (length kept))) [
        | inl full ↦
            let refuse : ltb (count (is_recent now) (gone ++ b)) limit ≡ false = ground arith in
            rw (allow_full limit now b full, refuse)
              (let_through-reference_from now gone' kept times old' (ordered', past') (ground arith)
                ∙ ap (λ x. reference limit x times) (sym parts))
        | inr room ↦
            let pass : ltb (count (is_recent now) (gone ++ b)) limit ≡ true = ground arith in
            rw (allow_room limit now b room, pass)
              (ap (λ x. now ∷ x)
                (let_through-reference_from now gone' (kept ++ now ∷ []) times old'
                    (
                      ordered-snoc 0 now kept (omega arith) ordered' past',
                      ground (arith, all-append (λ u. leb u now) kept (now ∷ [])),
                    )
                    (ground arith)
                  ∙ ap (λ x. reference limit x times)
                      (sym (append_assoc gone' kept (now ∷ []))
                        ∙ ap (λ x. x ++ now ∷ []) (sym parts))))
      ]

-- If the calls for a key come in the order of the clock, the requests that the limiter lets through
-- are those of the definition, which looks at all that passed before.
pub let_through-reference :
    (limit t : ℕ) (times : List ℕ)
    → is_ordered t times ≡ true
    → let_through limit [] times ≡ reference limit [] times
let_through-reference limit t times h =
    let_through-reference_from limit t [] [] times refl (refl, refl) h
