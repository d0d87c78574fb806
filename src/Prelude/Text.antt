-- ===== src/Prelude/Text.antt =====
-- Texts as Python handles them: numbers in decimal, code points, `lower` on ASCII letters, and the `in` test.
use Prim.Native.Nat.{ℕ, zero, suc, ◌+◌, ◌/◌, ◌%◌}
use Prim.Native.Char.{code}
use Prim.Native.String.{String}
use Prim.Native.String
use mathlib.Core.Bool.{Bool, true, false, ◌&&◌, ◌||◌}
use mathlib.Core.List.{List, [], ◌∷◌, map}
use integrado_web_xd.Prelude.Tests.{leb, ltb, nat_eq, if◌then◌else◌}
use integrado_web_xd.Prelude.Lists.{any}

-- `String` has its own `[]` and `∷`.
abbrev pub codes : String → List ℕ
codes String.[] = []
codes (String.◌∷◌ c s) = code c ∷ codes s

unfoldable pub lower : ℕ → ℕ
lower c = if leb b'A' c && leb c b'Z' then c + 32 else c

unfoldable pub starts_with : List ℕ → List ℕ → Bool
starts_with [] s = true
starts_with (c ∷ cs) [] = false
starts_with (c ∷ cs) (d ∷ ds) = nat_eq c d && starts_with cs ds

-- `token in s`
unfoldable pub contains : List ℕ → List ℕ → Bool
unfolding starts_with
contains token [] = starts_with token []
contains token (d ∷ ds) = starts_with token (d ∷ ds) || contains token ds

-- `any(token in s.lower() for token in tokens)`
unfoldable pub mentions : String → List String → Bool
unfolding lower contains
mentions s tokens = any (λ token. contains (codes token) (map lower (codes s))) tokens

-- The decimal text of a number, on fuel: a number has fewer digits than its successor.
abbrev digits : ℕ → ℕ → String
digits zero n = ""
digits (suc fuel) n =
    let more = digits fuel (n / 10) in
    let last = String.slice "0123456789" (n % 10) (n % 10 + 1) in
    if ltb n 10 then last else String.◌++◌ more last

-- `str(n)`
abbrev pub decimal : ℕ → String
decimal n = digits (n + 1) n
