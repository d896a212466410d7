-- ===== src/Money.antt =====
-- backend/app/money.py, and `_commission` and `_resolve_commission_rate` of
-- backend/app/services_deals.py.
-- Money is a number of units of 10 ^ -8, the last place of the `Numeric(28, 8)` columns. A
-- quantised value of a currency with `d` decimals is a multiple of `step d` units.
-- Percentages are `Numeric(5, 2)`: a number of hundredths of a percent.
pub mod Rounding
pub mod Quantize
use garant.Base.{
  ℕ, ◌+◌, ◌-◌, ◌*◌, ◌/◌, ◌%◌, ◌^◌, Bool, true, false, ◌&&◌, ◌||◌, ltb, ◌==◌, if◌then◌else◌,
}
use garant.Base.Int.{ℤ, pos, negsuc}

abbrev pub money_scale : ℕ
money_scale = 8

-- `Decimal(10) ** -decimals`, in units
unfoldable pub step : ℕ → ℕ
step decimals = 10 ^ (money_scale - decimals)

-- n / m to the nearest integer, a tie to the even one (`ROUND_HALF_EVEN`)
unfoldable pub round_half_even : ℕ → ℕ → ℕ
round_half_even n m =
    let q = n / m in
    let r = n % m in
    if ltb (2 * r) m then q else if ltb m (2 * r) then q + 1 else if q % 2 == 0 then q else q + 1

-- `quantize_money` of the exact value `num / den` units
unfoldable pub quantize_ratio : ℕ → ℕ → ℕ → ℕ
unfolding step round_half_even
quantize_ratio num den decimals = round_half_even num (den * step decimals) * step decimals

-- `quantize_money` of a value with at most eight places, such as a column
unfoldable pub quantize_money : ℕ → ℕ → ℕ
unfolding quantize_ratio
quantize_money value decimals = quantize_ratio value 1 decimals

-- A `Decimal` from outside: a coefficient and its number of places, an infinity or a NaN.
pub data Decimal : Type 0 where
  finite : ℤ → ℕ → Decimal
  not_finite : Decimal

-- `not raw.is_finite() or raw <= 0`
unfoldable pub is_unusable : Decimal → Bool
is_unusable not_finite = true
is_unusable (finite (pos c) places) = c == 0
is_unusable (finite (negsuc c) places) = true

-- `quantize_money(raw, decimals)` at a value that `is_unusable` let through
unfoldable pub quantize_decimal : Decimal → ℕ → ℕ
unfolding quantize_ratio
quantize_decimal (finite (pos c) places) decimals =
    quantize_ratio (c * 10 ^ money_scale) (10 ^ places) decimals
quantize_decimal _ decimals = 0

-- `quantize_money(amount * percent / 100, decimals)`
unfoldable pub commission_of : ℕ → ℕ → ℕ → ℕ
unfolding quantize_ratio
commission_of amount percent decimals = quantize_ratio (amount * percent) (100 * 100) decimals

-- `_resolve_commission_rate`: the VIP rate is -1 where there is no override.
unfoldable pub resolve_commission_rate : ℕ → ℤ → Bool → Bool → ℕ
resolve_commission_rate deal_percent (pos vip_percent) buyer_vip seller_vip =
    if buyer_vip || seller_vip then vip_percent else deal_percent
resolve_commission_rate deal_percent (negsuc _) buyer_vip seller_vip = deal_percent
