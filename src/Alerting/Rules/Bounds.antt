-- ===== src/Alerting/Rules/Bounds.antt =====
-- How many conditions an alert can have, and which triggers share an identity.
use native.Mathlib.Nat.{div-mul-le_self, lt-div-mul-add, le-div_iff_mul-le, div-lt_iff_lt-mul}
use aistock.Common.{
  ℕ, ◌+◌, ◌-◌, ◌*◌, ◌/◌, ◌≤◌, ◌<◌, ◌≡◌, ◌↔◌, refl, Bool, true, false, not, List, [], ◌∷◌, arith,
  leb, ltb, nat_eq, if◌then◌else◌, Text, length, any, ◌==◌, ℕ_eq, text_eq, pair_eq, Option, none,
  some, ok, raise_if, codes, ok-injective, >>=-eq-ok, >>-eq-ok, ap, sym, subst,
}
use aistock.Decimal.{Decimal}
use aistock.Domain.Ids.{Uuid, symbol}
use aistock.Domain.Time.{Datetime, naive, aware, Instant}
use aistock.Alerting.Features.{
  AnomalyFeatures, available, is_some, MinuteBar, GapContext, features_of, five_minute_return_of,
  relative_volume_of, returns_along, zscore, mean, breakout_of, calculate, calculate_sorted, gap_of,
}
use aistock.Alerting.Rules.{
  no_severity, RuleThresholds, AlertRule, evaluate_rule, checks, matched, reaches, size_reaches,
  is_true, severity_of, AlertIdentity, identity_in, for_trigger, bucket_of,
}

length-matched :
    (name : Text) (b : Bool) (cs : List (Text × Bool))
    → length (matched ((name, b) ∷ cs)) ≡ (if b then 1 else 0) + length (matched cs)
unfolding matched
length-matched name true cs = omega arith
length-matched name false cs = omega arith

reaches-le : (o : Option Decimal) (t : Decimal) → (if reaches o t then 1 else 0) ≤ is_some o
reaches-le none t = omega arith
reaches-le (some d) t = ground arith

size_reaches-le :
    (o : Option Decimal) (t : Decimal) → (if size_reaches o t then 1 else 0) ≤ is_some o
size_reaches-le none t = omega arith
size_reaches-le (some d) t = ground arith

is_true-le : (o : Option Bool) → (if is_true o then 1 else 0) ≤ is_some o
is_true-le none = omega arith
is_true-le (some b) = ground arith

matched_le :
    (t : RuleThresholds) (f : AnomalyFeatures) → length (matched (checks t f)) ≤ available f
unfolding checks available matched
matched_le t f = omega (
  arith,
  length-matched (codes "FIVE_MINUTE_RETURN")
      (size_reaches f.five_minute_return t.five_minute_return) _,
  length-matched (codes "RELATIVE_VOLUME") (reaches f.relative_volume t.relative_volume) _,
  length-matched (codes "RETURN_ZSCORE") (size_reaches f.return_zscore t.return_zscore) _,
  length-matched (codes "VOLUME_ZSCORE") (size_reaches f.volume_zscore t.volume_zscore) _,
  length-matched (codes "VOLATILITY_ZSCORE") (size_reaches f.volatility_zscore t.volatility_zscore)
      _,
  length-matched (codes "GAP") (size_reaches f.gap t.gap) _,
  length-matched (codes "BREAKOUT") (is_true f.breakout) [],
  size_reaches-le f.five_minute_return t.five_minute_return,
  reaches-le f.relative_volume t.relative_volume,
  size_reaches-le f.return_zscore t.return_zscore,
  size_reaches-le f.volume_zscore t.volume_zscore,
  size_reaches-le f.volatility_zscore t.volatility_zscore,
  size_reaches-le f.gap t.gap,
  is_true-le f.breakout,
)

severity_iff :
    (triggered : Bool) (count : ℕ)
    → (severity_of triggered count ≡ no_severity) ↔ (triggered ≡ false)
unfolding severity_of
severity_iff true count = (λ h. absurd (ground arith), λ h. absurd (ground arith))
severity_iff false count = (λ h. refl, λ h. refl)

bucket_bounds :
    (n t q s : ℕ)
    → q ≤ n
    → n < q + s
    → n * 1000000 ≤ t
    → t < n * 1000000 + 1000000
    → (q * 1000000 ≤ t) × (t < q * 1000000 + s * 1000000)
bucket_bounds n t q s h k a b = (omega (arith, h, k, a, b), omega (arith, h, k, a, b))

bucket_of_bounds :
    (s : ℕ) (t : Instant) → 0 < s → (bucket_of s t ≤ t) × (t < bucket_of s t + s * 1000000)
bucket_of_bounds s t h =
    bucket_bounds (t / 1000000) t (t / 1000000 / s * s) s (div-mul-le_self (t / 1000000) s)
      (lt-div-mul-add h) (div-mul-le_self t 1000000) (lt-div-mul-add (omega arith))

-- A rule that asks for more conditions than there are features is not triggered, has no severity, and
-- lists at most as many conditions as there are features.
pub evaluate_rule_quiet :
    (r : AlertRule) (f : AnomalyFeatures)
    → available f < r.minimum_conditions
    → ((evaluate_rule r f).triggered ≡ false)
      × ((evaluate_rule r f).severity ≡ no_severity)
      × (length (evaluate_rule r f).conditions ≤ available f)
unfolding evaluate_rule
evaluate_rule_quiet r f h =
    let few = matched_le r.thresholds f in
    let quiet : leb r.minimum_conditions (length (matched (checks r.thresholds f))) ≡ false =
      ground (arith, few) in
    (quiet, (severity_iff _ (length (matched (checks r.thresholds f)))).1 quiet, few)

is_some-le_one {ℓ} : {A : Type ℓ} (o : Option A) → is_some o ≤ 1
is_some-le_one none = omega arith
is_some-le_one (some a) = omega arith

module _ (sqrt square : Decimal → Decimal) where
  one_bar :
      (lookback : ℕ) (cutoff : Instant) (g : Option GapContext) (b : MinuteBar)
      → 1 ≤ lookback
      → available (features_of sqrt square lookback cutoff g b []) ≤ 1
  unfolding available features_of five_minute_return_of relative_volume_of returns_along zscore mean
      breakout_of
  one_bar lookback cutoff g b h =
      let short : nat_eq 1 (lookback + 1) ≡ false = ground arith in
      rw short (omega (arith, is_some-le_one (gap_of g)))

  -- However the square root and the square of a decimal are computed, the features of one bar alone,
  -- with a lookback of at least one, trigger no rule that asks for two conditions or more.
  pub evaluate_rule-calculate :
      (lookback : ℕ) (b : MinuteBar) (now : Datetime) (g : Option GapContext) (f : AnomalyFeatures)
      (r : AlertRule)
      → 1 ≤ lookback
      → 2 ≤ r.minimum_conditions
      → calculate sqrt square lookback (b ∷ []) now g ≡ ok f
      → ((evaluate_rule r f).triggered ≡ false)
        × ((evaluate_rule r f).severity ≡ no_severity)
        × (length (evaluate_rule r f).conditions ≤ available f)
  unfolding calculate calculate_sorted
  evaluate_rule-calculate lookback b naive g f r h k made = cc
  evaluate_rule-calculate lookback b (aware now) g f r h k made =
      let whole_window : 1 - (lookback + 1) ≡ 0 = omega arith in
      let here = rw whole_window at made in
      let (_, h1) =
        >>-eq-ok (raise_if (any (λ (x : MinuteBar). ltb now x.available_at) (b ∷ [])) _) _ here in
      let (_, h2) =
        >>-eq-ok (raise_if (any (λ (x : MinuteBar). not (x.symbol == b.symbol)) (b ∷ [])) _) _ h1 in
      evaluate_rule_quiet r f (
        subst (λ (x : AnomalyFeatures). available x < r.minimum_conditions) (ok-injective h2)
          (omega (arith, k, one_bar lookback now g b h)))

quotient_unique : (m s p : ℕ) → 0 < s → p * s ≤ m → m < p * s + s → m / s ≡ p
quotient_unique m s p h a b =
    let below : p ≤ m / s = (le-div_iff_mul-le h).1 a in
    let above : m / s < p + 1 = (div-lt_iff_lt-mul h).1 (ground (arith, b)) in
    omega (arith, below, above)

seconds_in :
    (u q s : ℕ)
    → q * 1000000 ≤ u
    → u < q * 1000000 + s * 1000000
    → (q ≤ u / 1000000) × (u / 1000000 < q + s)
seconds_in u q s a b = (omega (arith, a, b), omega (arith, a, b))

bucket_of_same :
    (s : ℕ) (t u : Instant)
    → 0 < s
    → bucket_of s t ≤ u
    → u < bucket_of s t + s * 1000000
    → bucket_of s u ≡ bucket_of s t
bucket_of_same s t u h a b =
    let (low, high) = seconds_in u (t / 1000000 / s * s) s a b in
    ap (λ (q : ℕ). q * s * 1000000) (quotient_unique (u / 1000000) s (t / 1000000 / s) h low high)

identity_in-bucket_start :
    (uuid5 : Text → Uuid) (isoformat : Instant → Text) (symbol_text rule_id : Text) (b : Instant)
    (i : AlertIdentity)
    → identity_in uuid5 isoformat symbol_text rule_id b ≡ ok i
    → b ≡ i.bucket_start
unfolding identity_in
identity_in-bucket_start uuid5 isoformat symbol_text rule_id b i h =
    let (s, _, last) = >>=-eq-ok (symbol symbol_text) _ h in
    ap (λ (x : AlertIdentity). x.bucket_start) (ok-injective last)

-- A trigger of an alert lies in its bucket, which is as long as the whole seconds of the cooldown, and
-- each other trigger of the symbol and the rule in this bucket gets the same identity.
pub for_trigger_bucket :
    (uuid5 : Text → Uuid) (isoformat : Instant → Text) (symbol_text rule_id : Text) (t u : Instant)
    (cooldown : ℕ) (i : AlertIdentity)
    → for_trigger uuid5 isoformat symbol_text rule_id (aware t) cooldown ≡ ok i
    → i.bucket_start ≤ u
    → u < i.bucket_start + cooldown / 1000000 * 1000000
    → (i.bucket_start ≤ t)
      × (t < i.bucket_start + cooldown / 1000000 * 1000000)
      × (for_trigger uuid5 isoformat symbol_text rule_id (aware u) cooldown ≡ ok i)
unfolding for_trigger
for_trigger_bucket uuid5 isoformat symbol_text rule_id t u cooldown i h a b =
    let s = cooldown / 1000000 in
    let (some_seconds, made) = >>-eq-ok (raise_if (nat_eq s 0) _) _ h in
    let positive : 0 < s = ground arith in
    let start =
      identity_in-bucket_start uuid5 isoformat symbol_text rule_id (bucket_of s t) i made in
    let (low, high) = bucket_of_bounds s t positive in
    (
      subst (λ (x : ℕ). x ≤ t) start low,
      subst (λ (x : ℕ). t < x + s * 1000000) start high,
      rw some_seconds (
          rw
            (bucket_of_same s t u positive (subst (λ (x : ℕ). x ≤ u) (sym start) a)
              (subst (λ (x : ℕ). u < x + s * 1000000) (sym start) b))
            made),
    )
