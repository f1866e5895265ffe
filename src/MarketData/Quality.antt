-- ===== src/MarketData/Quality.antt =====
-- application/market_data/quality.py: assessments of the quality of market data, and the health of a
-- provider. Durations are microseconds; the details of an assessment, which are only stored, and the
-- reading of the configuration file are left out.
pub mod Worst
use aistock.Common.{
  ℕ, zero, suc, ◌+◌, ◌-◌, ◌*◌, ◌/◌, ◌≤◌, ◌<◌, ◌≡◌, ◌≢◌, ◌↔◌, ◌⊎◌, inl, inr, refl, Bool, true, false,
  ◌&&◌, ◌||◌, not, List, [], ◌∷◌, ◌++◌, map, arith, leb, ltb, nat_eq, if◌then◌else◌, Text, length,
  all, any, filter, is_empty, Eq, ◌==◌, ℕ_eq, text_eq, text_beq_iff, pair_eq, Option, none, some,
  Result, Exception, ok, raise, value_error, type_error, key_error, permission_error,
  version_conflict, no_result_found, multiple_results_found, integrity_error, lookup_error, ◌>>=◌,
  ◌>>◌, raise_if, Bool-cases, Option-cases, sort_by, text_lt, All, sort_by-All, String, codes,
  All-append, any-append, ok-injective, ap₂, >>=-eq-ok, >>-eq-ok, raise_if-eq-ok, Result-cases, ap,
  sym, ◌∙◌, subst,
}
use aistock.Decimal.{
  Decimal, Number, finite, not_finite, not_decimal, whole, add, sub, mul, div, neg, abs, le, lt, eq,
  min_of, max_of, sum_from, decimal_arg,
}
use aistock.Domain.Ids.{
  Uuid, symbol, iso_currency, strip, lower, upper, lower_char, upper_char, is_space, is_blank,
  matches_symbol, is_symbol_char,
}
use aistock.Domain.Time.{Datetime, naive, aware, Instant, require_aware}
use aistock.Dict.{
  Dict, lookup, contains, get_or, get_or-insert, All-insert_entry, All-insert, All-get_or,
  lookup-insert, insert, values, unique_by, unique_by-All, unique_by_idem, any-unique_by,
}
use aistock.Int.{ℤ, pos_part, neg_part}

pub data MarketDataCoverage : Type 0 where
  iex sip : MarketDataCoverage

abbrev pub coverage_value : MarketDataCoverage → Text
coverage_value iex = codes "IEX"
coverage_value sip = codes "SIP"

abbrev pub same_coverage : MarketDataCoverage → MarketDataCoverage → Bool
same_coverage iex iex = true
same_coverage sip sip = true
same_coverage _ _ = false

pub data QualityDimension : Type 0 where
  freshness_dimension coverage_dimension provider_dimension delay_dimension : QualityDimension
  conflict_dimension reconciliation_dimension heartbeat_dimension : QualityDimension

pub data QualityStatus : Type 0 where
  pass degraded unavailable fail : QualityStatus

-- The coverage is one of the two values, or none, which the constructor would check.
pub record QualityAssessment : Type 0 where
  pub dimension : QualityDimension
  pub status : QualityStatus
  pub provider : Text
  pub dataset : Text
  pub observed_at : Instant
  pub freshness : Option ℕ
  pub coverage : Option MarketDataCoverage
  pub delay : Option ℕ
  pub conflict : Bool
  pub policy_version : Text

-- The checks of `__post_init__`, on an assessment whose time is given apart.
unfoldable pub quality_assessment :
    (observed_at : Datetime) → QualityAssessment → Result QualityAssessment
quality_assessment observed_at a = do
  raise_if (is_empty a.provider || is_empty a.dataset || is_empty a.policy_version)
      (value_error "provider, dataset, and policy version are required")
  t ← require_aware observed_at
  ok (record a { observed_at = t })

pub record Threshold : Type 0 where
  pub degraded_after : ℕ
  pub unavailable_after : ℕ

-- The constructor of `_Threshold`.
unfoldable pub threshold : (degraded_after unavailable_after : ℤ) → Result Threshold
threshold degraded_after unavailable_after = do
  raise_if (ltb 0 (neg_part degraded_after))
      (value_error "quality degraded threshold cannot be negative")
  raise_if (leb (pos_part unavailable_after) (pos_part degraded_after))
      (value_error "quality thresholds must increase")
  ok (record {
    degraded_after = pos_part degraded_after;
    unavailable_after = pos_part unavailable_after;
  })

pub record QualityPolicy : Type 0 where
  pub version : Text
  pub freshness : Dict Text Threshold
  pub heartbeat : Dict Text Threshold
  pub delay : Dict Text Threshold

abbrev pub pair_key : Text → Text → Text
pair_key a b = a ++ codes ":" ++ b

abbrev configured : String → Option Threshold → Result Threshold
configured message none = raise (value_error message)
configured message (some t) = ok t

unfoldable pub thresholds : QualityPolicy → (provider dataset : Text) → Result Threshold
thresholds p provider dataset =
    configured "quality freshness threshold is not configured"
      (lookup (pair_key provider dataset) p.freshness)

unfoldable pub heartbeat_thresholds :
    QualityPolicy → (provider : Text) → MarketDataCoverage → Result Threshold
heartbeat_thresholds p provider coverage =
    configured "quality heartbeat threshold is not configured"
      (lookup (pair_key provider (coverage_value coverage)) p.heartbeat)

unfoldable pub delay_thresholds : QualityPolicy → (provider dataset : Text) → Result Threshold
delay_thresholds p provider dataset =
    configured "quality delay threshold is not configured"
      (lookup (pair_key provider dataset) p.delay)

-- `_status`
unfoldable pub status_of_age : ℕ → Threshold → QualityStatus
status_of_age age t =
    if leb t.unavailable_after age
    then unavailable
    else if leb t.degraded_after age
    then degraded
    else pass

unfoldable pub evaluate_freshness :
    (provider dataset : Text) (observed_at latest_available_at : Datetime)
    → Option MarketDataCoverage
    → (declared_delay : ℤ) → QualityPolicy
    → Result QualityAssessment
evaluate_freshness provider dataset observed_at latest_available_at coverage declared_delay policy =
    do
      observed ← require_aware observed_at
      latest ← require_aware latest_available_at
      raise_if (ltb 0 (neg_part declared_delay)) (value_error "declared delay cannot be negative")
      raise_if (ltb observed latest)
          (value_error "latest availability cannot be after observation time")
      t ← thresholds policy provider dataset
      quality_assessment (aware observed) (record {
        dimension = freshness_dimension;
        status = status_of_age (observed - latest - pos_part declared_delay) t;
        provider = provider;
        dataset = dataset;
        observed_at = observed;
        freshness = some (observed - latest);
        coverage = coverage;
        delay = some (pos_part declared_delay);
        conflict = false;
        policy_version = policy.version;
      })

unfoldable pub evaluate_heartbeat :
    (provider : Text) (observed_at heartbeat_at : Datetime)
    → MarketDataCoverage
    → QualityPolicy
    → Result QualityAssessment
evaluate_heartbeat provider observed_at heartbeat_at coverage policy = do
  observed ← require_aware observed_at
  heartbeat ← require_aware heartbeat_at
  raise_if (ltb observed heartbeat) (value_error "heartbeat cannot be after observation time")
  t ← heartbeat_thresholds policy provider coverage
  quality_assessment (aware observed) (record {
    dimension = heartbeat_dimension;
    status = status_of_age (observed - heartbeat) t;
    provider = provider;
    dataset = codes "stream_heartbeat";
    observed_at = observed;
    freshness = some (observed - heartbeat);
    coverage = some coverage;
    delay = some 0;
    conflict = false;
    policy_version = policy.version;
  })

-- An assessment whose time the constructor reads, without a freshness and a delay.
abbrev plain :
    QualityDimension
    → QualityStatus
    → (provider dataset : Text) → Datetime
    → Option MarketDataCoverage
    → (conflict : Bool) → (policy_version : Text) → Result QualityAssessment
plain dimension status provider dataset observed_at coverage conflict policy_version =
    quality_assessment observed_at (record {
      dimension = dimension;
      status = status;
      provider = provider;
      dataset = dataset;
      observed_at = 0;
      freshness = none;
      coverage = coverage;
      delay = none;
      conflict = conflict;
      policy_version = policy_version;
    })

abbrev coverage_status : Option MarketDataCoverage → MarketDataCoverage → QualityStatus
coverage_status none required = unavailable
coverage_status (some actual) required = if same_coverage actual required then pass else degraded

unfoldable pub evaluate_coverage :
    (provider dataset : Text)
    → Datetime
    → (actual : Option MarketDataCoverage) → (required : MarketDataCoverage)
    → (policy_version : Text) → Result QualityAssessment
evaluate_coverage provider dataset observed_at actual required policy_version =
    plain coverage_dimension (coverage_status actual required) provider dataset observed_at actual
      false policy_version

unfoldable pub evaluate_delay :
    (provider dataset : Text)
    → Datetime
    → (delay : ℤ) → Option MarketDataCoverage
    → QualityPolicy
    → Result QualityAssessment
evaluate_delay provider dataset observed_at delay coverage policy = do
  raise_if (ltb 0 (neg_part delay)) (value_error "delay cannot be negative")
  t ← delay_thresholds policy provider dataset
  quality_assessment observed_at (record {
    dimension = delay_dimension;
    status = status_of_age (pos_part delay) t;
    provider = provider;
    dataset = dataset;
    observed_at = 0;
    freshness = none;
    coverage = coverage;
    delay = some (pos_part delay);
    conflict = false;
    policy_version = policy.version;
  })

unfoldable pub evaluate_conflict :
    (provider dataset : Text)
    → Datetime
    → (conflict : Bool) → Option MarketDataCoverage
    → (policy_version : Text) → Result QualityAssessment
evaluate_conflict provider dataset observed_at conflict coverage policy_version =
    plain conflict_dimension (if conflict then fail else pass) provider dataset observed_at coverage
      conflict policy_version

pub record ProviderHealthSignals : Type 0 where
  pub provider : Text
  pub job_states : List Text
  pub cursor : Option (ℕ × QualityStatus)
  pub observations : List QualityAssessment

abbrev negative : Option ℤ → Bool
negative none = false
negative (some lag) = ltb 0 (neg_part lag)

-- The lag and the status of a cursor are given together.
abbrev together : Option ℤ → Option QualityStatus → Result (Option (ℕ × QualityStatus))
together none none = ok none
together (some lag) (some status) = ok (some (pos_part lag, status))
together _ _ = raise (value_error "cursor lag and cursor status must be provided together")

-- The checks of `__post_init__`; the lag and the status of the cursor are given apart.
unfoldable pub provider_health_signals :
    (cursor_lag : Option ℤ) (cursor_status : Option QualityStatus)
    → (provider : Text) → (job_states : List Text) → List QualityAssessment
    → Result ProviderHealthSignals
provider_health_signals cursor_lag cursor_status provider job_states observations = do
  raise_if (is_empty provider) (value_error "provider is required")
  raise_if (negative cursor_lag) (value_error "cursor lag cannot be negative")
  cursor ← together cursor_lag cursor_status
  raise_if (any (λ (o : QualityAssessment). not (o.provider == provider)) observations)
      (value_error "provider health observations must match the provider")
  ok (record {
    provider = provider;
    job_states = job_states;
    cursor = cursor;
    observations = observations;
  })

abbrev pub is_bad : QualityStatus → Bool
is_bad unavailable = true
is_bad fail = true
is_bad _ = false

abbrev pub is_degraded : QualityStatus → Bool
is_degraded degraded = true
is_degraded _ = false

abbrev pub cursor_is : (QualityStatus → Bool) → Option (ℕ × QualityStatus) → Bool
cursor_is test none = false
cursor_is test (some (lag, status)) = test status

abbrev pub is_failed : Text → Bool
is_failed state = (state == codes "FAILED") || (state == codes "DEAD_LETTER")

abbrev pub is_retried : Text → Bool
is_retried state = (state == codes "RETRY_SCHEDULED") || (state == codes "COMPLETED_WITH_GAPS")

unfoldable pub derive_provider_health : ProviderHealthSignals → QualityStatus
derive_provider_health s =
    if cursor_is is_bad s.cursor
      || any is_failed s.job_states
      || any (λ (o : QualityAssessment). is_bad o.status) s.observations
    then unavailable
    else if cursor_is is_degraded s.cursor
        || any is_retried s.job_states
        || any (λ (o : QualityAssessment). is_degraded o.status) s.observations
    then degraded
    else pass

abbrev lag_of : Option (ℕ × QualityStatus) → Option ℕ
lag_of none = none
lag_of (some (lag, status)) = some lag

unfoldable pub provider_health_transition :
    ProviderHealthSignals → Datetime → (policy_version : Text) → Result QualityAssessment
provider_health_transition s observed_at policy_version = quality_assessment observed_at (record {
  dimension = provider_dimension;
  status = derive_provider_health s;
  provider = s.provider;
  dataset = codes "provider_health";
  observed_at = 0;
  freshness = lag_of s.cursor;
  coverage = none;
  delay = none;
  conflict = false;
  policy_version = policy_version;
})
