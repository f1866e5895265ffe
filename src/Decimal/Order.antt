-- ===== src/Decimal/Order.antt =====
-- The order of the values is transitive; that it is total is read off `cross`.
use native.Mathlib.Nat.{pow-suc}
use aistock.Common.{ℕ, zero, suc, ◌*◌, ◌^◌, ◌≤◌, ◌<◌, ◌≡◌, true, false, ◌||◌, arith}
use aistock.Decimal.Defs.{Decimal, cross, le, lt, eq, min_of, max_of}

pow_pos : (s : ℕ) → 0 < 10 ^ s
pow_pos zero = omega arith
pow_pos (suc s) = rw (pow-suc 10 s) (omega (arith, pow_pos s))

cancel : (a b c : ℕ) → 0 < c → a * c ≤ b * c → a ≤ b
cancel a b c h k = grind arith

scaled : (a b c : ℕ) → a ≤ b → a * c ≤ b * c
scaled a b c h = grind arith

pub cross_trans :
    (a b c : Decimal) → cross a b ≤ cross b a → cross b c ≤ cross c b → cross a c ≤ cross c a
unfolding cross
cross_trans a b c h k =
    cancel _ _ (10 ^ b.scale) (pow_pos b.scale)
      (omega (arith, scaled _ _ (10 ^ c.scale) h, scaled _ _ (10 ^ a.scale) k))

pub cross-trans_lt :
    (a b c : Decimal) → cross a b < cross b a → cross b c ≤ cross c b → cross a c < cross c a
cross-trans_lt a b c h k = ground (arith, cross_trans b c a k)

pub cross-lt_trans :
    (a b c : Decimal) → cross a b ≤ cross b a → cross b c < cross c b → cross a c < cross c a
cross-lt_trans a b c h k = ground (arith, cross_trans c a b)

-- The tests by the value, for the proofs below.
tests : Unit {0}
unfolding le lt eq
tests = tt

-- The tests are transitive.
pub le_trans : (a b c : Decimal) → le a b ≡ true → le b c ≡ true → le a c ≡ true
unfolding tests
le_trans a b c h k = ground (arith, cross_trans a b c)

pub lt-le_trans : (a b c : Decimal) → lt a b ≡ true → le b c ≡ true → lt a c ≡ true
unfolding tests
lt-le_trans a b c h k = ground (arith, cross-trans_lt a b c)

pub le-lt_trans : (a b c : Decimal) → le a b ≡ true → lt b c ≡ true → lt a c ≡ true
unfolding tests
le-lt_trans a b c h k = ground (arith, cross-lt_trans a b c)

pub le_refl : (a : Decimal) → le a a ≡ true
unfolding tests
le_refl a = ground arith

pub eq_refl : (a : Decimal) → eq a a ≡ true
unfolding tests
eq_refl a = ground arith

pub le_of_not_lt : (a b : Decimal) → lt b a ≡ false → le a b ≡ true
unfolding tests
le_of_not_lt a b h = ground arith

pub le_of_lt : (a b : Decimal) → lt a b ≡ true → le a b ≡ true
unfolding tests
le_of_lt a b h = ground arith

pub min_of-le_left : (a b : Decimal) → le (min_of a b) a ≡ true
unfolding tests
min_of-le_left a b = ground arith

pub min_of-le_right : (a b : Decimal) → le (min_of a b) b ≡ true
unfolding tests
min_of-le_right a b = ground arith

pub le-max_of_left : (a b : Decimal) → le a (max_of a b) ≡ true
unfolding tests
le-max_of_left a b = ground arith

pub le-max_of_right : (a b : Decimal) → le b (max_of a b) ≡ true
unfolding tests
le-max_of_right a b = ground arith

pub ne_of_lt : (a b : Decimal) → lt a b ≡ true → eq a b ≡ false
unfolding tests
ne_of_lt a b h = ground arith

pub ne_of_gt : (a b : Decimal) → lt b a ≡ true → eq a b ≡ false
unfolding tests
ne_of_gt a b h = ground arith

pub not-lt_of_le : (a b : Decimal) → le a b ≡ true → lt b a ≡ false
unfolding tests
not-lt_of_le a b h = ground arith

pub not-le_of_lt : (a b : Decimal) → lt a b ≡ true → le b a ≡ false
unfolding tests
not-le_of_lt a b h = ground arith

-- `<=` is `<` or `==`.
pub not-le_of_not : (a b : Decimal) → (lt a b || eq a b) ≡ false → le a b ≡ false
unfolding tests
not-le_of_not a b h = ground arith

pub le_of_not_le : (a b : Decimal) → le a b ≡ false → le b a ≡ true
unfolding tests
le_of_not_le a b h = ground arith
