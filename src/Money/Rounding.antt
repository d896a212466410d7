-- ===== src/Money/Rounding.antt =====
-- Rounding half to even: the nearest integer, ties to the even one, exact on multiples, monotone.
use native.Mathlib.Nat.{div-add-mod', mod-lt, mul-div_left, mul-mod_left, le-div_iff_mul-le}
use native.Mathlib.Decide.{dec_lt}
use garant.Base.{ℕ, ◌+◌, ◌*◌, ◌/◌, ◌%◌, ◌≤◌, ◌<◌, ◌≡◌, ap, ◌⊎◌, inl, inr, arith}
use garant.Money.{round_half_even}

-- The quotient rounded down, or that plus one, by how the remainder compares with one half.
pub round_cases :
    (n m : ℕ)
    → ((round_half_even n m ≡ n / m) × ((2 * (n % m) < m) ⊎ ((2 * (n % m) ≡ m) × (n / m % 2 ≡ 0))))
      ⊎ ((round_half_even n m ≡ n / m + 1)
          × ((m < 2 * (n % m)) ⊎ ((2 * (n % m) ≡ m) × (n / m % 2 ≡ 1))))
unfolding round_half_even
round_cases n m = ground arith

pub round_half_even_nearest :
    (n m : ℕ)
    → 0 < m
    → (2 * (round_half_even n m * m) ≤ 2 * n + m) × (2 * n ≤ 2 * (round_half_even n m * m) + m)
round_half_even_nearest n m h = elim (round_cases n m) [
  | inl (e, c) ↦ rw e (omega (arith, div-add-mod' n m, c), omega (arith, div-add-mod' n m, c))
  | inr (e, c) ↦ rw e (
    omega (arith, div-add-mod' n m, mod-lt n h, c),
    omega (arith, div-add-mod' n m, mod-lt n h, c),
  )
]

-- A tie is rounded to an even number.
pub round_half_even_tie : (n m : ℕ) → 2 * (n % m) ≡ m → round_half_even n m % 2 ≡ 0
round_half_even_tie n m e = elim (round_cases n m) [
  | inl (f, c) ↦ rw f (omega (arith, c))
  | inr (f, c) ↦ rw f (omega (arith, c))
]

pub round_half_even_exact : (k m : ℕ) → 0 < m → round_half_even (k * m) m ≡ k
unfolding round_half_even
round_half_even_exact k m h = ground (arith, mul-div_left k h, mul-mod_left k m)

pub floor-le : (n m : ℕ) → n / m ≤ round_half_even n m
floor-le n m = ground (arith, round_cases n m)

pub le-ceiling : (n m : ℕ) → round_half_even n m ≤ n / m + 1
le-ceiling n m = ground (arith, round_cases n m)

div_mono : (n n' m : ℕ) → 0 < m → n ≤ n' → n / m ≤ n' / m
div_mono n n' m h le = (le-div_iff_mul-le h).1 (omega (arith, div-add-mod' n m))

-- With the same quotient the remainders decide.
same_floor : (n n' m : ℕ) → n ≤ n' → n / m ≡ n' / m → round_half_even n m ≤ round_half_even n' m
same_floor n n' m le e =
    let r : n % m ≤ n' % m =
      omega (arith, div-add-mod' n m, div-add-mod' n' m, ap (λ (t : ℕ). t * m) e) in
    ground (arith, round_cases n m, round_cases n' m)

-- Rounding half to even is monotone for a positive divisor.
pub round_half_even_mono :
    (n n' m : ℕ) → 0 < m → n ≤ n' → round_half_even n m ≤ round_half_even n' m
round_half_even_mono n n' m h le = elim (dec_lt (n / m) (n' / m)) [
  | yes lower ↦ omega (arith, floor-le n' m, le-ceiling n m)
  | no same ↦ same_floor n n' m le (omega (arith, div_mono n n' m h le))
]
