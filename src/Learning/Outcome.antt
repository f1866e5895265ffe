-- ===== src/Learning/Outcome.antt =====
-- domain/learning/outcome.py, attribution.py and application/learning/eligibility.py: what became of a
-- decision. The ids that `uuid4` makes are arguments.
pub mod Sound
use aistock.Common.{
  ℕ, zero, suc, ◌+◌, ◌-◌, ◌*◌, ◌≤◌, ◌<◌, ◌≡◌, ◌≢◌, ◌↔◌, ◌⊎◌, inl, inr, refl, Bool, true, false,
  ◌&&◌, ◌||◌, not, List, [], ◌∷◌, ◌++◌, map, arith, leb, ltb, nat_eq, if◌then◌else◌, Text, length,
  all, any, filter, is_empty, Eq, ◌==◌, ℕ_eq, text_eq, text_beq_iff, pair_eq, Option, none, some,
  Result, Exception, ok, raise, value_error, type_error, key_error, permission_error,
  version_conflict, no_result_found, multiple_results_found, integrity_error, ◌>>=◌, ◌>>◌, raise_if,
  Bool-cases, Option-cases, sort_by, text_lt, All, sort_by-All, String, codes, All-append,
  any-append, ok-injective, ap₂, >>=-eq-ok, >>-eq-ok, raise_if-eq-ok, Result-cases, ap, sym, ◌∙◌,
  subst,
}
use aistock.Decimal.{
  Decimal, Number, finite, not_finite, not_decimal, whole, add, sub, mul, div, neg, abs, le, lt, eq,
  min_of, max_of, sum_from, decimal_arg,
}
use aistock.Domain.Ids.{Uuid, symbol, iso_currency, strip, lower, is_blank}
use aistock.Domain.Time.{Datetime, naive, aware, Instant, require_aware}
use aistock.Dict.{
  Dict, lookup, contains, get_or, get_or-insert, All-insert_entry, All-insert, All-get_or,
  lookup-insert, insert, values, unique_by, unique_by-All, unique_by_idem, any-unique_by,
}
use aistock.Portfolio.Fill.{positive_arg}
use aistock.Portfolio.Risk.Inputs.{ResearchOpinionValue, bullish, bearish, neutral, abstain}

pub data Horizon : Type 0 where
  day_1 day_5 day_20 day_60 : Horizon

abbrev pub days : Horizon → ℕ
days day_1 = 1
days day_5 = 5
days day_20 = 20
days day_60 = 60

abbrev pub horizons : List Horizon
horizons = day_1 ∷ day_5 ∷ day_20 ∷ day_60 ∷ []

-- `decision_time + timedelta(days=int(horizon))`, in microseconds.
abbrev pub target_of : Instant → Horizon → Instant
target_of decision_time h = decision_time + days h * 86400000000

pub record DecisionForReview : Type 0 where
  pub id : Uuid
  pub symbol : Text
  pub decision_time : Instant
  pub reference_price : Decimal
  pub opinion : ResearchOpinionValue
  pub data_complete : Bool
  pub data_fresh : Bool
  pub evidence_conflicted : Bool

-- The arguments that the constructor checks or changes.
unfoldable pub decision_for_review :
    (id : Uuid) (symbol : Text) (decision_time : Datetime) (reference_price : Number)
    → ResearchOpinionValue
    → (data_complete data_fresh evidence_conflicted : Bool) → Result DecisionForReview
decision_for_review id symbol decision_time reference_price opinion complete fresh conflicted = do
  t ← require_aware decision_time
  raise_if (is_blank symbol) (value_error "symbol is required")
  p ← positive_arg reference_price
  ok (record {
    id = id;
    symbol = symbol;
    decision_time = t;
    reference_price = p;
    opinion = opinion;
    data_complete = complete;
    data_fresh = fresh;
    evidence_conflicted = conflicted;
  })

pub record PriceObservation : Type 0 where
  pub event_time : Instant
  pub available_at : Instant
  pub price : Decimal

-- The constructor with its `__post_init__`.
unfoldable pub price_observation :
    (event_time available_at : Datetime) → Number → Result PriceObservation
price_observation event_time available_at price = do
  e ← require_aware event_time
  a ← require_aware available_at
  raise_if (ltb a e) (value_error "timestamps must satisfy event_time <= available_at")
  p ← positive_arg price
  ok (record { event_time = e; available_at = a; price = p })

-- A mapping from horizons is the list of its items, in the order of the horizons.
pub record DecisionOutcome : Type 0 where
  pub id : Uuid
  pub decision_id : Uuid
  pub matured : Bool
  pub returns : List (Horizon × Decimal)
  pub excess_returns : List (Horizon × Decimal)
  pub maximum_favorable_excursion : Decimal
  pub maximum_adverse_excursion : Decimal
  pub risk_adjusted_return : Decimal
  pub calibration_error : Decimal
  pub computed_at : Instant

abbrev pub observation_lt : PriceObservation → PriceObservation → Bool
observation_lt a b =
    ltb a.event_time b.event_time
    || nat_eq a.event_time b.event_time && ltb a.available_at b.available_at

abbrev pub is_late : Instant → PriceObservation → Bool
is_late as_of o = ltb as_of o.available_at

-- `_visible`
unfoldable pub visible : List PriceObservation → Instant → Result (List PriceObservation)
visible observations as_of = do
  raise_if (any (is_late as_of) observations)
      (value_error "price observation was not available at outcome cutoff")
  ok (sort_by observation_lt observations)

-- `_price_at_or_after`
abbrev pub price_at_or_after : List PriceObservation → Instant → Option Decimal
price_at_or_after [] target = none
price_at_or_after (o ∷ os) target =
    if leb target o.event_time then some o.price else price_at_or_after os target

-- The price of the last observation up to a time.
abbrev pub last_until : Option Decimal → List PriceObservation → Instant → Option Decimal
last_until best [] time = best
last_until best (o ∷ os) time =
    last_until (if leb o.event_time time then some o.price else best) os time

-- `matured_horizons`, and the same of `compute_outcome`.
unfoldable pub matured_at : Instant → Instant → List Horizon
matured_at decision_time cutoff =
    filter (λ (h : Horizon). leb (target_of decision_time h) cutoff) horizons

unfoldable pub matured_horizons : DecisionForReview → (as_of : Datetime) → Result (List Horizon)
matured_horizons decision as_of = do
  cutoff ← require_aware as_of
  ok (matured_at decision.decision_time cutoff)

abbrev one : Decimal
one = whole 1

-- `price / base - Decimal("1")`
abbrev pub return_of : Decimal → Decimal → Decimal
return_of price base = sub (div price base) one

abbrev pub keep {ℓ} : {A : Type ℓ} → (Decimal → A) → Option Decimal → List A → List A
keep f none rest = rest
keep f (some p) rest = f p ∷ rest

-- The returns at the horizons that have a price.
unfoldable pub returns_at :
    DecisionForReview → List PriceObservation → List Horizon → List (Horizon × Decimal)
returns_at d prices [] = []
returns_at d prices (h ∷ hs) =
    keep (λ p. (h, return_of p d.reference_price))
      (price_at_or_after prices (target_of d.decision_time h)) (returns_at d prices hs)

abbrev excess : Option Decimal → Option Decimal → Decimal → Option Decimal
excess (some base) (some price) realized = some (sub realized (return_of price base))
excess _ _ realized = none

-- The excess returns at the horizons that have a price, a benchmark price and a benchmark base.
unfoldable pub excess_at :
    (base : Option Decimal)
    → DecisionForReview
    → List PriceObservation
    → List (Horizon × Decimal)
    → List (Horizon × Decimal)
excess_at base d benchmark [] = []
excess_at base d benchmark ((h, realized) ∷ rs) =
    keep (λ x. (h, x))
      (excess base (price_at_or_after benchmark (target_of d.decision_time h)) realized)
      (excess_at base d benchmark rs)

-- The returns along the path after the decision.
unfoldable pub path_returns : DecisionForReview → List PriceObservation → List Decimal
path_returns d [] = []
path_returns d (o ∷ os) =
    if leb d.decision_time o.event_time
    then return_of o.price d.reference_price ∷ path_returns d os
    else path_returns d os

abbrev pub max_from : Decimal → List Decimal → Decimal
max_from best [] = best
max_from best (x ∷ xs) = max_from (max_of best x) xs

abbrev pub min_from : Decimal → List Decimal → Decimal
min_from best [] = best
min_from best (x ∷ xs) = min_from (min_of best x) xs

-- `returns[max(returns)] if returns else Decimal("0")`: the horizons increase.
abbrev terminal_from : Decimal → List (Horizon × Decimal) → Decimal
terminal_from best [] = best
terminal_from best ((h, r) ∷ rs) = terminal_from r rs

-- `abs(adverse) or Decimal("1")`
abbrev downside_of : Decimal → Decimal
downside_of adverse = if eq (abs adverse) (whole 0) then one else abs adverse

unfoldable pub expected_direction : ResearchOpinionValue → Decimal
expected_direction bullish = one
expected_direction bearish = neg one
expected_direction neutral = whole 0
expected_direction abstain = whole 0

unfoldable pub realized_direction : Decimal → Decimal
realized_direction terminal =
    if lt (whole 0) terminal then one else if lt terminal (whole 0) then neg one else whole 0

-- What `compute_outcome` makes of the visible observations.
unfoldable pub outcome_of :
    (id : Uuid)
    → DecisionForReview
    → (prices benchmark : List PriceObservation) → Instant
    → DecisionOutcome
outcome_of id d prices benchmark cutoff =
    let returns = returns_at d prices (matured_at d.decision_time cutoff) in
    let adverse = min_from (whole 0) (path_returns d prices) in
    let terminal = terminal_from (whole 0) returns in
    record {
      id = id;
      decision_id = d.id;
      matured = not (is_empty returns);
      returns = returns;
      excess_returns = excess_at (last_until none benchmark d.decision_time) d benchmark returns;
      maximum_favorable_excursion = max_from (whole 0) (path_returns d prices);
      maximum_adverse_excursion = adverse;
      risk_adjusted_return = div terminal (downside_of adverse);
      calibration_error = abs (sub (expected_direction d.opinion) (realized_direction terminal));
      computed_at = cutoff;
    }

unfoldable pub compute_outcome :
    (id : Uuid)
    → DecisionForReview
    → (prices benchmark : List PriceObservation) → (as_of : Datetime) → Result DecisionOutcome
compute_outcome id d prices benchmark as_of = do
  cutoff ← require_aware as_of
  visible_prices ← visible prices cutoff
  visible_benchmark ← visible benchmark cutoff
  ok (outcome_of id d visible_prices visible_benchmark cutoff)

-- attribution.py
pub data ErrorCategory : Type 0 where
  stale_data missing_evidence fact_error conflict_ignored thesis_error timing_error : ErrorCategory
  position_sizing_error execution_error regime_change risk_policy_failure : ErrorCategory
  uncontrollable_event : ErrorCategory

pub record ErrorAttribution : Type 0 where
  pub id : Uuid
  pub outcome_id : Uuid
  pub category : ErrorCategory
  pub rationale : Text
  pub controllable : Bool

-- The opinion pointed against the return.
abbrev pub opposes : ResearchOpinionValue → Decimal → Bool
opposes bullish realized = lt realized (whole 0)
opposes bearish realized = lt (whole 0) realized
opposes _ realized = false

unfoldable pub category_of :
    ResearchOpinionValue
    → Decimal
    → (data_complete data_fresh evidence_conflicted : Bool) → ErrorCategory × Text
category_of opinion realized complete fresh conflicted =
    if not complete
    then (missing_evidence, codes "required evidence was missing")
    else if not fresh
    then (stale_data, codes "decision used stale data")
    else if conflicted
    then (conflict_ignored, codes "conflicting evidence was ignored")
    else if opposes opinion realized
    then (thesis_error, codes "thesis direction opposed realized return")
    else (uncontrollable_event, codes "no controllable error identified")

abbrev is_controllable : ErrorCategory → Bool
is_controllable uncontrollable_event = false
is_controllable _ = true

-- The comparisons of a realized return that is not finite are left out.
unfoldable pub attribute_error :
    (id outcome_id : Uuid)
    → ResearchOpinionValue
    → Decimal
    → (data_complete data_fresh evidence_conflicted : Bool) → ErrorAttribution
attribute_error id outcome_id opinion realized complete fresh conflicted =
    let (category, rationale) = category_of opinion realized complete fresh conflicted in
    record {
      id = id;
      outcome_id = outcome_id;
      category = category;
      rationale = rationale;
      controllable = is_controllable category;
    }
