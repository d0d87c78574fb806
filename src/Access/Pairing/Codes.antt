-- ===== src/Access/Pairing/Codes.antt =====
-- The groups of a pairing code, and what a device types.
use integrado_web_xd.Prelude.{
  ℕ, ◌≤◌, ◌≡◌, refl, Bool, true, false, not, ◌||◌, some, List, [], ◌∷◌, map, arith, leb, nat_eq,
  keep, all, length,
}
use integrado_web_xd.Access.Pairing.{
  lstrip, rstrip, strip, upper, is_code_char, normalize_pairing_code, format_chunks,
  format_pairing_code,
}

-- A character of a shown code.
abbrev is_shown : ℕ → Bool
is_shown c = is_code_char c || nat_eq c b'-'

lstrip-shown : (cs : List ℕ) → all is_shown cs ≡ true → lstrip cs ≡ cs
unfolding lstrip
lstrip-shown [] h = refl
lstrip-shown (c ∷ cs) h = ground arith

rstrip-shown : (cs : List ℕ) → all is_shown cs ≡ true → rstrip cs ≡ cs
unfolding rstrip
rstrip-shown [] h = refl
rstrip-shown (c ∷ []) h = ground arith
rstrip-shown (c ∷ d ∷ cs) h = ground (arith, rstrip-shown (d ∷ cs))

map-upper-shown : (cs : List ℕ) → all is_shown cs ≡ true → map upper cs ≡ cs
unfolding upper
map-upper-shown [] h = refl
map-upper-shown (c ∷ cs) h = ground (arith, map-upper-shown cs)

shown-format_chunks :
    (cs : List ℕ) → all is_code_char cs ≡ true → all is_shown (format_chunks cs) ≡ true
unfolding format_chunks
shown-format_chunks [] h = refl
shown-format_chunks (a ∷ []) h = ground arith
shown-format_chunks (a ∷ b ∷ []) h = ground arith
shown-format_chunks (a ∷ b ∷ c ∷ []) h = ground arith
shown-format_chunks (a ∷ b ∷ c ∷ d ∷ []) h = ground arith
shown-format_chunks (a ∷ b ∷ c ∷ d ∷ e ∷ cs) h = ground (arith, shown-format_chunks (e ∷ cs))

undashed :
    (cs : List ℕ)
    → all is_code_char cs ≡ true
    → keep (λ c. not (nat_eq c b'-')) (format_chunks cs) ≡ cs
unfolding format_chunks
undashed [] h = refl
undashed (a ∷ []) h = ground arith
undashed (a ∷ b ∷ []) h = ground arith
undashed (a ∷ b ∷ c ∷ []) h = ground arith
undashed (a ∷ b ∷ c ∷ d ∷ []) h = ground arith
undashed (a ∷ b ∷ c ∷ d ∷ e ∷ cs) h = ground (arith, undashed (e ∷ cs))

unspaced : (cs : List ℕ) → all is_code_char cs ≡ true → keep (λ c. not (nat_eq c 32)) cs ≡ cs
unspaced [] h = refl
unspaced (c ∷ cs) h = ground (arith, unspaced cs)

-- A code of capital letters and digits, six or more, comes back from the text that shows it in
-- groups.
pub normalize-format_pairing_code :
    (raw : List ℕ)
    → all is_code_char raw ≡ true
    → 6 ≤ length raw
    → normalize_pairing_code (format_pairing_code raw) ≡ some raw
unfolding normalize_pairing_code format_pairing_code strip
normalize-format_pairing_code raw h long =
    let shown = shown-format_chunks raw h in
    let big : leb (length raw) 4 ≡ false = ground arith in
    rw
      (
        big,
        lstrip-shown (format_chunks raw) shown,
        rstrip-shown (format_chunks raw) shown,
        map-upper-shown (format_chunks raw) shown,
        undashed raw h,
        unspaced raw h,
        h,
      )
      (ground arith)
