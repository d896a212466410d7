-- ===== src/Tests/Money.antt =====
-- The results on money at concrete amounts.
use garant.Base.{◌+◌, ◌*◌, ◌≡◌, ◌≤◌, refl, arith}
use garant.Money.{quantize_money, commission_of, step}
use garant.Money.Quantize.{IsAligned, quantize_money_nearest, commission_of-le}

half : quantize_money 2500000 2 ≡ 2000000
unfolding quantize_money
half = refl

quantize_money_nearest_example :
    (2 * quantize_money 2500000 2 ≤ 2 * 2500000 + step 2)
    × (2 * 2500000 ≤ 2 * quantize_money 2500000 2 + step 2)
quantize_money_nearest_example = quantize_money_nearest 2500000 2

seven-IsAligned : IsAligned 2 7000000
unfolding step
seven-IsAligned = refl

commission_of-le_example : commission_of 7000000 9999 2 ≤ 7000000
commission_of-le_example = commission_of-le 7000000 9999 2 seven-IsAligned (omega arith)
