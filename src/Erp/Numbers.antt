-- ===== src/Erp/Numbers.antt =====
-- The numbers of agent_local/db/xd_open_orders_writer.py: rounding, and the number of a table.
use integrado_web_xd.Prelude.{
  ℕ, ◌+◌, ◌-◌, ◌*◌, ◌/◌, ◌≤◌, ◌<◌, arith, String, Bool, ◌&&◌, Option, none, some, List, [], ◌∷◌,
  leb, nat_eq, if◌then◌else◌,
}
use integrado_web_xd.Prelude.Text.{codes}
use native.Mathlib.Nat.{div-lt_iff_lt-mul}
use integrado_web_xd.Access.Pairing.{strip}

-- `n / d` to the nearest whole, a half up.
unfoldable pub round_half_up : ℕ → ℕ → ℕ
round_half_up n d = (2 * n + d) / (2 * d)

abbrev is_digit : ℕ → Bool
is_digit c = leb b'0' c && leb c b'9'

-- The rest of a number after a digit; single underscores may stand between digits, as `int` allows.
abbrev pub digits_from : ℕ → List ℕ → Option ℕ
digits_from v [] = some v
digits_from v (c ∷ []) = if is_digit c then some (v * 10 + (c - 48)) else none
digits_from v (c ∷ d ∷ cs) =
    let plain = digits_from (v * 10 + (c - 48)) (d ∷ cs) in
    let after = digits_from (v * 10 + (d - 48)) cs in
    if is_digit c then plain else if nat_eq c b'_' && is_digit d then after else none

-- What `int` makes of a text: nothing, or a number with its sign.
abbrev pub unsigned : List ℕ → Option ℕ
unsigned [] = none
unsigned (c ∷ cs) = if is_digit c then digits_from (c - 48) cs else none

pub data ParsedNumber : Type 0 where
  number : ℕ → ParsedNumber
  not_numeric not_positive : ParsedNumber

abbrev positive : Option ℕ → ParsedNumber
positive none = not_numeric
positive (some n) = if nat_eq n 0 then not_positive else number n

abbrev negative : Option ℕ → ParsedNumber
negative none = not_numeric
negative (some n) = not_positive

abbrev signed : List ℕ → ParsedNumber
signed [] = not_numeric
signed (c ∷ cs) =
    if nat_eq c b'-'
    then negative (unsigned cs)
    else if nat_eq c b'+'
    then positive (unsigned cs)
    else positive (unsigned (c ∷ cs))

unfoldable pub parse_command_number : String → ParsedNumber
unfolding strip
parse_command_number command_number = signed (strip (codes command_number))

quotient_below : (x k y : ℕ) → 1 ≤ k → x < y * k → x / k < y
quotient_below x k y pos h = (div-lt_iff_lt-mul (omega (arith, pos))).1 h

-- A price with a tax is at least the price without it.
pub round_half_up-le : (t h r : ℕ) → 1 ≤ h → round_half_up (t * h) (h + r) ≤ t
unfolding round_half_up
round_half_up-le t h r big =
    let bound : 2 * (t * h) + (h + r) < (t + 1) * (2 * (h + r)) = grind arith in
    omega (
      arith,
      quotient_below (2 * (t * h) + (h + r)) (2 * (h + r)) (t + 1) (omega (arith, big)) bound,
    )
