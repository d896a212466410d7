-- ===== src/Money/Quantize.antt =====
-- What quantising money gives: the nearest multiple of the currency's step, ties to even.
use native.Mathlib.Nat.{
  mul-mod_left, add-mod-mod, div-add-mod', one-mul, pow-suc, mul-le-mul_left, mul-le-mul_right,
}
use garant.Base.{
  ℕ, zero, suc, ◌+◌, ◌-◌, ◌*◌, ◌/◌, ◌%◌, ◌^◌, ◌≤◌, ◌<◌, ◌≡◌, ◌⊎◌, inl, inr, ap, sym, ◌∙◌, refl,
  arith,
}
use garant.Base.Int.{pos, negsuc}
use garant.Money.{
  Decimal, finite, not_finite, quantize_decimal, step, quantize_ratio, quantize_money,
  commission_of, round_half_even, money_scale,
}
use garant.Money.Rounding.{round_half_even_nearest, round_half_even_exact, round_half_even_mono}

pow_pos : (k : ℕ) → 0 < 10 ^ k
pow_pos zero = omega arith
pow_pos (suc k) = rw pow-suc (omega (arith, pow_pos k))

pub step_pos : (d : ℕ) → 0 < step d
unfolding step
step_pos d = pow_pos (money_scale - d)

-- A multiple of the step: an amount that the currency can express.
abbrev pub IsAligned : ℕ → ℕ → Type 0
IsAligned d x = x % step d ≡ 0

quantize_ratio_lem :
    (n den d : ℕ) → quantize_ratio n den d ≡ round_half_even n (den * step d) * step d
unfolding quantize_ratio
quantize_ratio_lem n den d = refl

quantize_money_lem : (x d : ℕ) → quantize_money x d ≡ round_half_even x (step d) * step d
unfolding quantize_money
quantize_money_lem x d = ap (λ (m : ℕ). round_half_even x m * step d) (one-mul (step d))

pub quantize_ratio-IsAligned : (n den d : ℕ) → IsAligned d (quantize_ratio n den d)
quantize_ratio-IsAligned n den d =
    rw quantize_ratio_lem (mul-mod_left (round_half_even n (den * step d)) (step d))

pub quantize_money-IsAligned : (x d : ℕ) → IsAligned d (quantize_money x d)
quantize_money-IsAligned x d =
    rw quantize_money_lem (mul-mod_left (round_half_even x (step d)) (step d))

-- An aligned amount is a number of steps.
steps : (x d : ℕ) → IsAligned d x → x / step d * step d ≡ x
steps x d a = omega (arith, div-add-mod' x (step d))

-- Quantising an amount that its currency can express leaves it.
pub quantize_money_aligned : (x d : ℕ) → IsAligned d x → quantize_money x d ≡ x
quantize_money_aligned x d a =
    quantize_money_lem x d
    ∙ ap (λ (y : ℕ). round_half_even y (step d) * step d) (sym (steps x d a))
    ∙ ap (λ (k : ℕ). k * step d) (round_half_even_exact (x / step d) (step d) (step_pos d))
    ∙ steps x d a

pub zero-IsAligned : (d : ℕ) → IsAligned d 0
zero-IsAligned d = omega (arith, div-add-mod' 0 (step d))

-- A quantised amount is at most half a step of its currency away from the exact one.
pub quantize_money_nearest :
    (x d : ℕ)
    → (2 * quantize_money x d ≤ 2 * x + step d) × (2 * x ≤ 2 * quantize_money x d + step d)
quantize_money_nearest x d = rw quantize_money_lem (round_half_even_nearest x (step d) (step_pos d))

-- Rounding a value that is at most `k` steps gives at most `k` steps.
round_half_even-le : (n k m : ℕ) → 0 < m → n ≤ k * m → round_half_even n m ≤ k
round_half_even-le n k m h le =
    omega (arith, round_half_even_mono n (k * m) m h le, round_half_even_exact k m h)

-- At a rate of at most 100%, the commission on an amount that its currency can express is at
-- most the amount.
pub commission_of-le :
    (amount percent d : ℕ)
    → IsAligned d amount
    → percent ≤ 10000
    → commission_of amount percent d ≤ amount
unfolding commission_of
commission_of-le amount percent d a p =
    let k : ℕ = amount / step d in
    let below : amount * percent ≤ k * (100 * 100 * step d) =
      omega (arith, steps amount d a, mul-le-mul_left amount p) in
    let few : round_half_even (amount * percent) (100 * 100 * step d) ≤ k =
      round_half_even-le _ k _ (omega (arith, step_pos d)) below in
    rw quantize_ratio_lem (omega (arith, mul-le-mul_right (step d) few, steps amount d a))

pub quantize_decimal-IsAligned : (raw : Decimal) (d : ℕ) → IsAligned d (quantize_decimal raw d)
unfolding quantize_decimal
quantize_decimal-IsAligned (finite (pos c) places) d =
    quantize_ratio-IsAligned (c * 10 ^ money_scale) (10 ^ places) d
quantize_decimal-IsAligned (finite (negsuc c) places) d = zero-IsAligned d
quantize_decimal-IsAligned not_finite d = zero-IsAligned d

drop_aligned : (x y d : ℕ) → IsAligned d y → (x + y) % step d ≡ x % step d
drop_aligned x y d b =
    let gone : x + y % step d ≡ x = omega (arith, b) in
    sym (add-mod-mod x y (step d)) ∙ ap (λ (k : ℕ). k % step d) gone

split : (y x : ℕ) → (y ≤ x) ⊎ (x < y)
split y x = ground arith

-- Sums and differences of amounts that the currency can express are such amounts.
pub add-IsAligned : (x y d : ℕ) → IsAligned d x → IsAligned d y → IsAligned d (x + y)
add-IsAligned x y d a b = drop_aligned x y d b ∙ a

pub sub-IsAligned : (x y d : ℕ) → IsAligned d x → IsAligned d y → IsAligned d (x - y)
sub-IsAligned x y d a b = elim (split y x) [
  | inl le ↦
      let whole : x - y + y ≡ x = omega arith in
      sym (drop_aligned (x - y) y d b) ∙ ap (λ (k : ℕ). k % step d) whole ∙ a
  | inr lt ↦
      let nothing : x - y ≡ 0 = omega arith in ap (λ (k : ℕ). k % step d) nothing ∙ zero-IsAligned d
]
