-- ===== src/Decimal/Sign.antt =====
-- The operations keep the sign: rounding makes no positive value negative.
use aistock.Common.{Bool-cases, inl, inr, ◌≡◌, ◌↔◌, true, false, arith}
use mathlib.Core.Bool.{xor}
use aistock.Int.{neg_part}
use aistock.Decimal.Defs.{
  Decimal, whole, cross, le, lt, fix, exact_add, exact_neg, exact_mul, exact_div, add, sub, mul,
  div, abs, neg, max_of,
}

abbrev pub IsNonneg : Decimal → Type 0
IsNonneg d = neg_part d.coeff ≡ 0

pub lt_zero_iff : (d : Decimal) → (lt d (whole 0) ≡ false) ↔ IsNonneg d
unfolding lt le cross
lt_zero_iff d = ground arith

pub zero_le_iff : (d : Decimal) → (le (whole 0) d ≡ true) ↔ IsNonneg d
unfolding lt le cross
zero_le_iff d = ground arith

fix-IsNonneg : (d : Decimal) → IsNonneg d → IsNonneg (fix d)
unfolding fix
fix-IsNonneg d h = ground arith

pub add-IsNonneg : (a b : Decimal) → IsNonneg a → IsNonneg b → IsNonneg (add a b)
unfolding add exact_add
add-IsNonneg a b h k = fix-IsNonneg (exact_add a b) (ground arith)

-- A difference that does not go below zero.
pub sub-IsNonneg : (a b : Decimal) → le b a ≡ true → IsNonneg (sub a b)
unfolding sub le cross exact_add exact_neg
sub-IsNonneg a b h = fix-IsNonneg (exact_add a (exact_neg b)) (ground arith)

pub mul-IsNonneg : (a b : Decimal) → IsNonneg a → IsNonneg b → IsNonneg (mul a b)
unfolding mul exact_mul
mul-IsNonneg a b h k = fix-IsNonneg (exact_mul a b) (ground arith)

pub div-IsNonneg : (a b : Decimal) → IsNonneg a → IsNonneg b → IsNonneg (div a b)
unfolding div exact_div xor
div-IsNonneg a b h k = fix-IsNonneg (exact_div a b) (ground arith)

pub abs-IsNonneg : (a : Decimal) → IsNonneg (abs a)
unfolding neg exact_neg lt cross
abs-IsNonneg a = elim (Bool-cases (lt a (whole 0))) [
  | inl below ↦ rw below (fix-IsNonneg (exact_neg a) (ground arith))
  | inr above ↦ rw above (fix-IsNonneg a (ground arith))
]

pub max_of-IsNonneg : (a : Decimal) → IsNonneg (max_of (whole 0) a)
unfolding lt le cross
max_of-IsNonneg a = ground arith
