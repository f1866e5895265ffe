-- ===== src/Alerting/Rules.antt =====
-- application/alerting/rules.py and dedup.py. `uuid5` and the text of a time are parameters.
pub mod Bounds
use aistock.Common.{
  ℕ, zero, suc, ◌+◌, ◌-◌, ◌*◌, ◌/◌, ◌≤◌, ◌<◌, ◌≡◌, ◌≢◌, ◌↔◌, ◌⊎◌, inl, inr, refl, Bool, true, false,
  ◌&&◌, ◌||◌, not, List, [], ◌∷◌, ◌++◌, map, arith, leb, ltb, nat_eq, if◌then◌else◌, Text, length,
  all, any, filter, is_empty, Eq, ◌==◌, ℕ_eq, text_eq, text_beq_iff, pair_eq, Option, none, some,
  Result, Exception, ok, raise, value_error, type_error, key_error, permission_error,
  version_conflict, no_result_found, multiple_results_found, integrity_error, lookup_error, ◌>>=◌,
  ◌>>◌, raise_if, Bool-cases, Option-cases, sort_by, text_lt, All, sort_by-All, String, codes,
  All-append, any-append, ok-injective, ap₂, >>=-eq-ok, >>-eq-ok, raise_if-eq-ok, Result-cases, ap,
  sym, ◌∙◌, subst,
}
use aistock.Decimal.{
  Decimal, Number, finite, not_finite, not_decimal, whole, add, sub, mul, div, neg, abs, le, lt, eq,
  min_of, max_of, sum_from, decimal_arg,
}
use aistock.Domain.Ids.{
  Uuid, symbol, iso_currency, strip, lower, upper, lower_char, upper_char, is_space, is_blank,
}
use aistock.Domain.Time.{Datetime, naive, aware, Instant, require_aware}
use aistock.Dict.{
  Dict, lookup, contains, get_or, get_or-insert, All-insert_entry, All-insert, All-get_or,
  lookup-insert, insert, values, unique_by, unique_by-All, unique_by_idem, any-unique_by,
}
use aistock.Alerting.Features.{AnomalyFeatures}

pub data AlertSeverity : Type 0 where
  no_severity low_severity medium_severity high_severity critical_severity : AlertSeverity

pub record RuleThresholds : Type 0 where
  pub five_minute_return : Decimal
  pub relative_volume : Decimal
  pub return_zscore : Decimal
  pub volume_zscore : Decimal
  pub volatility_zscore : Decimal
  pub gap : Decimal

pub record RuleEvaluation : Type 0 where
  pub triggered : Bool
  pub conditions : List Text
  pub severity : AlertSeverity
  pub materiality : Decimal
  pub rule_id : Text
  pub rule_version : Text

pub record AlertRule : Type 0 where
  pub rule_id : Text
  pub version : Text
  pub thresholds : RuleThresholds
  pub minimum_conditions : ℕ

-- The constructor with its `__post_init__`.
unfoldable pub alert_rule : AlertRule → Result AlertRule
alert_rule r = do
  raise_if (ltb r.minimum_conditions 1 || ltb 7 r.minimum_conditions)
      (value_error "minimum_conditions must be between one and seven")
  ok r

abbrev pub reaches : Option Decimal → Decimal → Bool
reaches none threshold = false
reaches (some d) threshold = le threshold d

abbrev pub size_reaches : Option Decimal → Decimal → Bool
size_reaches none threshold = false
size_reaches (some d) threshold = le threshold (abs d)

abbrev pub is_true : Option Bool → Bool
is_true none = false
is_true (some b) = b

-- The checks of `evaluate`, with the names of the conditions.
unfoldable pub checks : RuleThresholds → AnomalyFeatures → List (Text × Bool)
checks t f =
    (codes "FIVE_MINUTE_RETURN", size_reaches f.five_minute_return t.five_minute_return)
    ∷ (codes "RELATIVE_VOLUME", reaches f.relative_volume t.relative_volume)
    ∷ (codes "RETURN_ZSCORE", size_reaches f.return_zscore t.return_zscore)
    ∷ (codes "VOLUME_ZSCORE", size_reaches f.volume_zscore t.volume_zscore)
    ∷ (codes "VOLATILITY_ZSCORE", size_reaches f.volatility_zscore t.volatility_zscore)
    ∷ (codes "GAP", size_reaches f.gap t.gap)
    ∷ (codes "BREAKOUT", is_true f.breakout)
    ∷ []

unfoldable pub matched : List (Text × Bool) → List Text
matched [] = []
matched ((name, b) ∷ cs) = let rest = matched cs in if b then name ∷ rest else rest

unfoldable pub severity_of : (triggered : Bool) → (count : ℕ) → AlertSeverity
severity_of triggered count =
    if not triggered
    then no_severity
    else if leb 5 count
    then critical_severity
    else if leb 4 count
    then high_severity
    else if leb 3 count
    then medium_severity
    else low_severity

-- `AlertRule.evaluate`
unfoldable pub evaluate_rule : AlertRule → AnomalyFeatures → RuleEvaluation
evaluate_rule r f =
    let conditions = matched (checks r.thresholds f) in
    let count = length conditions in
    let triggered = leb r.minimum_conditions count in
    record {
      triggered = triggered;
      conditions = conditions;
      severity = severity_of triggered count;
      materiality = div (whole count) (whole 7);
      rule_id = r.rule_id;
      rule_version = r.version;
    }

pub record AlertIdentity : Type 0 where
  pub id : Uuid
  pub key : Text
  pub bucket_start : Instant

-- The start of the bucket of a time, for a cooldown of some seconds.
abbrev pub bucket_of : (seconds : ℕ) → Instant → Instant
bucket_of seconds t = t / 1000000 / seconds * seconds * 1000000

-- The identity of the alerts of a symbol and a rule in a bucket.
unfoldable pub identity_in :
    (uuid5 : Text → Uuid)
    → (isoformat : Instant → Text) → (symbol_text rule_id : Text) → (bucket_start : Instant)
    → Result AlertIdentity
identity_in uuid5 isoformat symbol_text rule_id bucket_start = do
  s ← symbol symbol_text
  let key = s ++ codes ":" ++ rule_id ++ codes ":" ++ isoformat bucket_start
  ok (record { id = uuid5 key; key = key; bucket_start = bucket_start })

-- `AlertIdentity.for_trigger`; the cooldown is in microseconds, as is the time.
unfoldable pub for_trigger :
    (uuid5 : Text → Uuid)
    → (isoformat : Instant → Text) → (symbol_text rule_id : Text) → Datetime
    → (cooldown : ℕ) → Result AlertIdentity
for_trigger uuid5 isoformat symbol_text rule_id event_time cooldown = do
  t ← require_aware event_time
  raise_if (nat_eq (cooldown / 1000000) 0) (value_error "cooldown must be positive")
  identity_in uuid5 isoformat symbol_text rule_id (bucket_of (cooldown / 1000000) t)
