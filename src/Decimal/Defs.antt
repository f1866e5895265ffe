-- ===== src/Decimal/Defs.antt =====
-- Finite decimals, their exact operations and the rounding of the default context.
use aistock.Common.{
  ℕ, zero, suc, ◌+◌, ◌-◌, ◌*◌, ◌/◌, ◌%◌, ◌^◌, Bool, ◌&&◌, ◌||◌, List, [], ◌∷◌, leb, ltb, nat_eq,
  if◌then◌else◌, Result, ok, raise, type_error, value_error, String,
}
use mathlib.Core.Bool.{xor}
use aistock.Int.{ℤ, pos, pos_part, neg_part, sub_ℕ}

pub record Decimal : Type 0 where
  pub coeff : ℤ
  pub scale : ℕ

abbrev pub whole : ℕ → Decimal
whole n = record { coeff = pos n; scale = 0 }

-- The number of decimal digits, by fuel: `n` has at most `n` digits more than zero.
digits_from : ℕ → ℕ → ℕ
digits_from zero n = 0
digits_from (suc f) n = let more = suc (digits_from f (n / 10)) in if nat_eq n 0 then 0 else more

-- Whether the last of the digits kept is raised: half to even.
rounds_up : (kept dropped unit : ℕ) → Bool
rounds_up kept dropped unit =
    ltb unit (2 * dropped) || nat_eq unit (2 * dropped) && nat_eq (kept % 2) 1

-- n / unit, rounded half to even.
round_half_even : (n unit : ℕ) → ℕ
unfolding rounds_up
round_half_even n unit = n / unit + (if rounds_up (n / unit) (n % unit) unit then 1 else 0)

abbrev precision : ℕ
precision = 28

-- With `k` digits too many, the rounded magnitude and its scale.
drop_digits : (k n scale : ℕ) → ℕ × ℕ
unfolding round_half_even
drop_digits k n scale =
    let m = round_half_even n (10 ^ k) in
    if leb k scale then (m, scale - k) else (m * 10 ^ (k - scale), 0)

-- The digits beyond the precision.
excess : ℕ → ℕ
unfolding digits_from
excess n = digits_from (suc n) n - precision

fix_magnitude : (n scale : ℕ) → ℕ × ℕ
unfolding drop_digits excess
fix_magnitude n scale = if nat_eq (excess n) 0 then (n, scale) else drop_digits (excess n) n scale

-- The context's rounding of an exact value; the sign is kept.
unfoldable pub fix : Decimal → Decimal
unfolding fix_magnitude
fix d =
    let (p, s) = fix_magnitude (pos_part d.coeff) d.scale in
    let (n, t) = fix_magnitude (neg_part d.coeff) d.scale in
    if nat_eq (neg_part d.coeff) 0
    then record { coeff = pos p; scale = s }
    else record { coeff = sub_ℕ 0 n; scale = t }

-- `a` against `b` over the common denominator 10 ^ (a.scale + b.scale): what counts for `a`.
unfoldable pub cross : Decimal → Decimal → ℕ
cross a b = pos_part a.coeff * 10 ^ b.scale + neg_part b.coeff * 10 ^ a.scale

-- `a <= b`, `a < b` and `a == b`
unfoldable pub le : Decimal → Decimal → Bool
unfolding cross
le a b = leb (cross a b) (cross b a)

unfoldable pub lt : Decimal → Decimal → Bool
unfolding cross
lt a b = ltb (cross a b) (cross b a)

unfoldable pub eq : Decimal → Decimal → Bool
unfolding cross
eq a b = nat_eq (cross a b) (cross b a)

unfoldable pub exact_add : Decimal → Decimal → Decimal
exact_add a b = record {
  coeff =
      sub_ℕ (pos_part a.coeff * 10 ^ b.scale + pos_part b.coeff * 10 ^ a.scale)
        (neg_part a.coeff * 10 ^ b.scale + neg_part b.coeff * 10 ^ a.scale);
  scale = a.scale + b.scale;
}

unfoldable pub exact_neg : Decimal → Decimal
exact_neg a = record { coeff = sub_ℕ (neg_part a.coeff) (pos_part a.coeff); scale = a.scale }

unfoldable pub exact_mul : Decimal → Decimal → Decimal
exact_mul a b = record {
  coeff =
      sub_ℕ (pos_part a.coeff * pos_part b.coeff + neg_part a.coeff * neg_part b.coeff)
        (pos_part a.coeff * neg_part b.coeff + neg_part a.coeff * pos_part b.coeff);
  scale = a.scale + b.scale;
}

-- `a + b`, `a - b`, `a * b`, `-a`, `abs(a)`
unfoldable pub add : Decimal → Decimal → Decimal
unfolding fix exact_add
add a b = fix (exact_add a b)

unfoldable pub sub : Decimal → Decimal → Decimal
unfolding fix exact_add exact_neg
sub a b = fix (exact_add a (exact_neg b))

unfoldable pub mul : Decimal → Decimal → Decimal
unfolding fix exact_mul
mul a b = fix (exact_mul a b)

unfoldable pub neg : Decimal → Decimal
unfolding fix exact_neg
neg a = fix (exact_neg a)

abbrev pub abs : Decimal → Decimal
abs a = if lt a (whole 0) then neg a else fix a

-- A quotient of magnitudes to more digits than the precision, and one digit for a remainder.
quotient : (n d shift : ℕ) → ℕ
quotient n d shift = n * 10 ^ shift / d * 10 + (if nat_eq (n * 10 ^ shift % d) 0 then 0 else 1)

abbrev magnitude : Decimal → ℕ
magnitude a = pos_part a.coeff + neg_part a.coeff

abbrev is_negative : Decimal → Bool
is_negative a = ltb 0 (neg_part a.coeff)

quotient_scale : Decimal → Decimal → ℕ
unfolding digits_from
quotient_scale a b = let d = magnitude b * 10 ^ a.scale in precision + 1 + digits_from (suc d) d

unfoldable pub exact_div : Decimal → Decimal → Decimal
unfolding quotient quotient_scale
exact_div a b =
    let shift = quotient_scale a b in
    let q = quotient (magnitude a * 10 ^ b.scale) (magnitude b * 10 ^ a.scale) shift in
    record {
      coeff = if xor (is_negative a) (is_negative b) then sub_ℕ 0 q else pos q;
      scale = shift + 1;
    }

-- `a / b` for a divisor that is not zero.
unfoldable pub div : Decimal → Decimal → Decimal
unfolding fix exact_div xor
div a b = fix (exact_div a b)

-- The built-in `min` and `max` return the first of two equal arguments.
abbrev pub min_of : Decimal → Decimal → Decimal
min_of a b = if lt b a then b else a

abbrev pub max_of : Decimal → Decimal → Decimal
max_of a b = if lt a b then b else a

-- `sum(values, start)`
abbrev pub sum_from : Decimal → List Decimal → Decimal
sum_from acc [] = acc
sum_from acc (x ∷ xs) = sum_from (add acc x) xs

-- An argument annotated `Decimal`: what a caller may pass at run time.
pub data Number : Type 0 where
  finite : Decimal → Number
  not_finite not_decimal : Number

-- `_decimal(name, value)`: the type and the finiteness of an argument.
abbrev pub decimal_arg : String → Number → Result Decimal
decimal_arg name (finite d) = ok d
decimal_arg name not_finite = raise (value_error name)
decimal_arg name not_decimal = raise (type_error name)
