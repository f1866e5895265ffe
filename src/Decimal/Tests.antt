-- ===== src/Decimal/Tests.antt =====
-- Runs of the arithmetic on small inputs, as `python3` prints them.
use aistock.Common.{◌≡◌, refl, true}
use aistock.Int.{pos, negsuc}
use aistock.Decimal.Defs.{Decimal, whole, add, div, eq}

abbrev dec : Decimal
dec = record { coeff = pos 1; scale = 1 }

-- 1 / 3
third : div (whole 1) (whole 3) ≡ record { coeff = pos 3333333333333333333333333333; scale = 28 }
unfolding div
third = refl

-- 2 / -3
two_thirds :
    div (whole 2) (record { coeff = negsuc 2; scale = 0 })
    ≡ record { coeff = negsuc 6666666666666666666666666666; scale = 28 }
unfolding div
two_thirds = refl

-- 0.1 + 2
small_sum : eq (add dec (whole 2)) (record { coeff = pos 21; scale = 1 }) ≡ true
unfolding add eq
small_sum = refl
