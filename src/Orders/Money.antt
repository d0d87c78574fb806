-- ===== src/Orders/Money.antt =====
-- The decimals of agent_local/orders, as the fields of agent_local/orders/schemas.py bound their
-- places: an amount is its number of cents, a quantity its thousandths, a unit price its
-- ten-thousandths, a percentage its hundredths.
use Prim.Native.String.{String}
use Prim.Native.String
use integrado_web_xd.Prelude.Text.{decimal}
use integrado_web_xd.Prelude.{ℕ, ◌+◌, ◌*◌, ◌/◌, ◌%◌, ltb, if◌then◌else◌}

-- `n / d` rounded to the nearest whole, a half to the even one, as `quantize` rounds.
unfoldable pub round_half_even : ℕ → ℕ → ℕ
round_half_even n d =
    let q = n / d in
    let r = n % d in if ltb (2 * r) d then q else if ltb d (2 * r) then q + 1 else q + q % 2

-- `_to_money(quantity * unit_price)`: thousandths times ten-thousandths, in cents.
unfoldable pub line_money : ℕ → ℕ → ℕ
unfolding round_half_even
line_money quantity unit_price = round_half_even (quantity * unit_price) 100000

-- `_to_money(total_amount * (value / Decimal("100")))`: cents times hundredths of a percent.
unfoldable pub percent_money : ℕ → ℕ → ℕ
unfolding round_half_even
percent_money total_amount value = round_half_even (total_amount * value) 10000

-- `f"{n:03d}"`
abbrev pub padded : ℕ → String
padded n =
    let text = decimal n in
    if ltb n 10 then String.◌++◌ "00" text else if ltb n 100 then String.◌++◌ "0" text else text
