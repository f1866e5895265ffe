-- ===== src/MarketData/Fallback.antt =====
-- application/market_data/fallback.py, with the responses of infrastructure/providers/base.py. The two
-- providers are arguments of each call, and so are the clock's time and the values of an enumeration,
-- which are texts. Durations are numbers of microseconds, and a payload is of any type with an equality.
pub mod Visible
pub mod Breaker
use aistock.Common.{
  ℕ, zero, suc, ◌+◌, ◌-◌, ◌≤◌, ◌<◌, ◌≡◌, ◌≢◌, ◌↔◌, ◌⊎◌, inl, inr, refl, Bool, true, false, ◌&&◌,
  ◌||◌, not, List, [], ◌∷◌, ◌++◌, map, arith, leb, ltb, nat_eq, if◌then◌else◌, Text, length, all,
  any, filter, is_empty, Eq, ◌==◌, ℕ_eq, text_eq, text_beq_iff, pair_eq, Option, none, some, Result,
  Exception, ok, raise, value_error, type_error, key_error, permission_error, version_conflict,
  no_result_found, multiple_results_found, integrity_error, ◌>>=◌, ◌>>◌, raise_if, Bool-cases,
  Option-cases, sort_by, text_lt, All, sort_by-All, String, codes, All-append, any-append,
  ok-injective, ap₂, >>=-eq-ok, >>-eq-ok, raise_if-eq-ok, Result-cases, ap, sym, ◌∙◌, subst,
}
use aistock.Decimal.{
  Decimal, Number, finite, not_finite, not_decimal, whole, add, sub, mul, div, neg, abs, le, lt, eq,
  min_of, max_of, sum_from, decimal_arg,
}
use aistock.Domain.Ids.{Uuid, symbol, iso_currency, strip, lower, is_blank}
use aistock.Domain.Time.{Datetime, naive, aware, Instant, require_aware}
use aistock.Dict.{
  Dict, lookup, contains, get_or, get_or-insert, All-insert_entry, All-insert, All-get_or,
  lookup-insert, insert, values, unique_by, unique_by-All, unique_by_idem, any-unique_by,
}

pub data ProviderStatus : Type 0 where
  ok_status not_found not_supported unavailable error_status : ProviderStatus

abbrev pub is_ok : ProviderStatus → Bool
is_ok ok_status = true
is_ok _ = false

abbrev pub is_missing : ProviderStatus → Bool
is_missing not_found = true
is_missing not_supported = true
is_missing _ = false

pub record ProviderRecord (P : Type 0) : Type 0 where
  pub symbol : Text
  pub feed_type : Text
  pub provider : Text
  pub event_time : Instant
  pub available_at : Instant
  pub ingested_at : Instant
  pub content_hash : Text
  pub raw_object_key : Text
  pub payload : P
  pub normalized_record_id : Option Uuid
  pub is_delayed : Bool
  pub quality_flags : List Text

pub record ProviderResponse (P : Type 0) : Type 0 where
  pub status : ProviderStatus
  pub provider : Text
  pub feed_type : Text
  pub symbol : Text
  pub query_as_of : Instant
  pub records : List (ProviderRecord P)
  pub warnings : List Text
  pub trace_id : Option Text
  pub missingness : Option Text

-- The protocol `ResearchDataProvider`.
pub record ResearchDataProvider (P : Type 0) : Type 0 where
  pub name : Text
  pub fetch : (feed_type symbol : Text) → Instant → Result (ProviderResponse P)

-- The arguments of the constructor of `FallbackPolicy` that are not providers or the clock.
pub record FallbackPolicy : Type 0 where
  pub max_staleness : ℕ
  pub failure_threshold : ℕ
  pub reset_timeout : ℕ
  pub compare_on_success : Bool

-- Its state.
pub record Circuit : Type 0 where
  pub failures : ℕ
  pub opened_at : Option Instant

abbrev pub new_circuit : Circuit
new_circuit = record { failures = 0; opened_at = none }

-- `_circuit_is_open`
abbrev pub is_open_since : ℕ → Instant → Option Instant → Bool
is_open_since reset_timeout checked_at none = false
is_open_since reset_timeout checked_at (some opened) = ltb checked_at (opened + reset_timeout)

abbrev pub circuit_is_open : FallbackPolicy → Circuit → Instant → Bool
circuit_is_open policy c checked_at = is_open_since policy.reset_timeout checked_at c.opened_at

pub record ProviderHealthSnapshot : Type 0 where
  pub primary : Text
  pub fallback : Text
  pub circuit_open : Bool
  pub failure_count : ℕ
  pub checked_at : Instant

-- `health`
unfoldable pub health :
    {P : Type 0}
    → FallbackPolicy
    → (primary fallback : ResearchDataProvider P) → Circuit
    → Datetime
    → Result ProviderHealthSnapshot
health policy primary fallback c now = do
  checked_at ← require_aware now
  ok (record {
    primary = primary.name;
    fallback = fallback.name;
    circuit_open = circuit_is_open policy c checked_at;
    failure_count = c.failures;
    checked_at = checked_at;
  })

abbrev pub is_future : {P : Type 0} → Instant → ProviderRecord P → Bool
is_future as_of r = ltb as_of r.available_at

-- `max(record.available_at for record in records)`, of a list that is not empty.
abbrev pub freshest : {P : Type 0} → List (ProviderRecord P) → Instant
freshest [] = 0
freshest (r ∷ rs) =
    let best = freshest rs in if ltb best r.available_at then r.available_at else best

-- A fallback response that is replaced by an unavailable one.
abbrev rejected : {P : Type 0} → ProviderResponse P → (warning reason : Text) → ProviderResponse P
rejected r warning reason = record r {
  status = unavailable;
  records = [];
  warnings = r.warnings ++ warning ∷ reason ∷ [];
  missingness = some (codes "UNAVAILABLE");
}

-- What `_fallback_result` makes of the response of the fallback.
unfoldable pub check_fallback :
    {P : Type 0}
    → FallbackPolicy
    → Instant
    → (warning : Text) → ProviderResponse P
    → ProviderResponse P
check_fallback policy as_of warning r =
    if is_ok r.status && not (is_empty r.records)
    then (if any (is_future as_of) r.records
        then rejected r warning (codes "future_fallback_rejected")
        else if ltb (freshest r.records + policy.max_staleness) as_of
        then rejected r warning (codes "stale_fallback_rejected")
        else record r { warnings = r.warnings ++ warning ∷ [] })
    else record r { warnings = r.warnings ++ warning ∷ [] }

unfoldable pub fallback_result :
    {P : Type 0}
    → FallbackPolicy
    → ResearchDataProvider P
    → (feed_type symbol : Text) → Instant
    → (warning : Text) → Result (ProviderResponse P)
fallback_result policy fallback feed_type symbol as_of warning = do
  r ← fallback.fetch feed_type symbol as_of
  ok (check_fallback policy as_of warning r)

-- `tuple(sorted({*record.quality_flags, "conflict"}))`
unfoldable pub mark : {P : Type 0} → ProviderRecord P → ProviderRecord P
mark r = record r {
  quality_flags =
      sort_by text_lt (unique_by (λ (t : Text). t) (codes "conflict" ∷ r.quality_flags));
}

abbrev pub payloads : {P : Type 0} → List (ProviderRecord P) → List P
payloads = map (λ r. r.payload)

abbrev pub same_payloads : {P : Type 0} → ⦃e : Eq P⦄ → List P → List P → Bool
same_payloads [] [] = true
same_payloads (p ∷ ps) (q ∷ qs) = (p == q) && same_payloads ps qs
same_payloads _ _ = false

-- What `_compare` makes of the two responses.
unfoldable pub compare_responses :
    {P : Type 0} ⦃e : Eq P⦄ → Instant → (primary fallback : ProviderResponse P) → ProviderResponse P
compare_responses as_of primary fallback =
    if not (is_ok fallback.status)
    then primary
    else if any (is_future as_of) fallback.records
    then primary
    else if same_payloads (payloads primary.records) (payloads fallback.records)
    then primary
    else record primary {
      records = map mark primary.records;
      warnings = primary.warnings ++ (codes "provider_conflict=" ++ fallback.provider) ∷ [];
    }

-- `_failures += 1`, which opens the circuit at the threshold.
unfoldable pub record_failure : FallbackPolicy → Instant → Circuit → Circuit
record_failure policy checked_at c = record {
  failures = suc c.failures;
  opened_at =
      if leb policy.failure_threshold (suc c.failures) then some checked_at else c.opened_at;
}

-- An open circuit whose time has passed is closed.
abbrev pub closed_again : Circuit → Circuit
closed_again c = elim c.opened_at [ none ↦ c | some _ ↦ new_circuit ]

-- What follows a response of the primary.
unfoldable pub after_primary :
    {P : Type 0} ⦃e : Eq P⦄
    → FallbackPolicy
    → (primary fallback : ResearchDataProvider P) → (feed_type symbol : Text)
    → (as_of checked_at : Instant) → Circuit
    → ProviderResponse P
    → Result (ProviderResponse P) × Circuit
after_primary policy primary fallback feed_type symbol as_of checked_at c r =
    if is_ok r.status
    then (if any (is_future as_of) r.records
        then (
          fallback_result policy fallback feed_type symbol as_of (codes "future_primary_rejected"),
          record_failure policy checked_at c,
        )
        else (
          (if policy.compare_on_success
              then (do
                other ← fallback.fetch feed_type symbol as_of
                ok (compare_responses as_of r other))
              else ok r),
          record c { failures = 0 },
        ))
    else if is_missing r.status
    then (ok r, c)
    else (
      fallback_result policy fallback feed_type symbol as_of
          (codes "fallback_from=" ++ primary.name),
      record_failure policy checked_at c,
    )

abbrev pub when_fetched :
    {P : Type 0}
    → Circuit
    → (ProviderResponse P → Result (ProviderResponse P) × Circuit)
    → Result (ProviderResponse P)
    → Result (ProviderResponse P) × Circuit
when_fetched c rest (raise e) = (raise e, c)
when_fetched c rest (ok r) = rest r

-- `fetch`, of aware times.
unfoldable pub fetch_at :
    {P : Type 0} ⦃e : Eq P⦄
    → FallbackPolicy
    → (primary fallback : ResearchDataProvider P) → (feed_type symbol : Text)
    → (as_of checked_at : Instant) → Circuit
    → Result (ProviderResponse P) × Circuit
fetch_at policy primary fallback feed_type symbol as_of checked_at c =
    if circuit_is_open policy c checked_at
    then (
      fallback_result policy fallback feed_type symbol as_of
          (codes "circuit_open=" ++ primary.name),
      c,
    )
    else when_fetched (closed_again c)
        (after_primary policy primary fallback feed_type symbol as_of checked_at (closed_again c))
        (primary.fetch feed_type symbol as_of)

-- `fetch`
unfoldable pub fetch :
    {P : Type 0} ⦃e : Eq P⦄
    → FallbackPolicy
    → (primary fallback : ResearchDataProvider P) → (feed_type symbol : Text)
    → (as_of now : Datetime) → Circuit
    → Result (ProviderResponse P) × Circuit
fetch policy primary fallback feed_type symbol (aware as_of) (aware now) c =
    fetch_at policy primary fallback feed_type symbol as_of now c
fetch policy primary fallback feed_type symbol _ _ c =
    (raise (value_error "timestamp must be timezone-aware"), c)
