-- ===== src/Portfolio/Allocation.antt =====
-- application/portfolio/allocation.py: from research opinions to portfolio actions, and the market
-- regime.
use aistock.Common.{
  ◌≤◌, ◌≡◌, ◌⊎◌, true, false, ◌&&◌, ◌||◌, List, arith, ltb, if◌then◌else◌, Text, is_empty, ℕ_eq,
  text_eq, pair_eq, Result, ok, value_error, ◌>>=◌, ◌>>◌, raise_if,
}
use aistock.Decimal.{Decimal, Number, finite, whole, le, lt, decimal_arg}
use aistock.Domain.Ids.{Uuid, is_blank}
use aistock.Domain.Time.{Datetime, aware, Instant, require_aware}
use aistock.Portfolio.Risk.Inputs.{ResearchOpinionValue, bullish, neutral, bearish, abstain}

pub data PortfolioActionValue : Type 0 where
  enter add_to hold reduce exit no_action : PortfolioActionValue

pub data MarketRegime : Type 0 where
  risk_on mixed risk_off : MarketRegime

pub record MarketContextSnapshot : Type 0 where
  pub id : Uuid
  pub as_of : Instant
  pub available_at : Instant
  pub qqq_trend : Decimal
  pub qqq_volatility : Decimal
  pub soxx_relative_strength : Decimal
  pub vix : Decimal
  pub regime : MarketRegime
  pub algorithm_version : Text
  pub source_lineage : List Uuid

pub record ContextArgs : Type 0 where
  pub id : Uuid
  pub as_of : Datetime
  pub available_at : Datetime
  pub qqq_trend : Number
  pub qqq_volatility : Number
  pub soxx_relative_strength : Number
  pub vix : Number
  pub regime : MarketRegime
  pub algorithm_version : Text
  pub source_lineage : List Uuid

-- The constructor of `MarketContextSnapshot` with its `__post_init__`.
unfoldable pub market_context_snapshot : ContextArgs → Result MarketContextSnapshot
market_context_snapshot c = do
  t ← require_aware c.as_of
  a ← require_aware c.available_at
  raise_if (ltb a t) (value_error "market context cannot be available before its event time")
  trend ← decimal_arg "qqq_trend must be a finite Decimal" c.qqq_trend
  volatility ← decimal_arg "qqq_volatility must be a finite Decimal" c.qqq_volatility
  strength ← decimal_arg "soxx_relative_strength must be a finite Decimal" c.soxx_relative_strength
  vix ← decimal_arg "vix must be a finite Decimal" c.vix
  raise_if (lt volatility (whole 0) || lt vix (whole 0))
      (value_error "volatility inputs must be non-negative")
  raise_if (is_blank c.algorithm_version) (value_error "algorithm version is required")
  raise_if (is_empty c.source_lineage) (value_error "market context source lineage is required")
  ok (record {
    id = c.id;
    as_of = t;
    available_at = a;
    qqq_trend = trend;
    qqq_volatility = volatility;
    soxx_relative_strength = strength;
    vix = vix;
    regime = c.regime;
    algorithm_version = c.algorithm_version;
    source_lineage = c.source_lineage;
  })

-- The current weight is the finite decimal that the annotation asks for.
unfoldable pub opinion_to_action : ResearchOpinionValue → Decimal → PortfolioActionValue
opinion_to_action abstain w = no_action
opinion_to_action bullish w = if lt (whole 0) w then add_to else enter
opinion_to_action bearish w = if lt (whole 0) w then exit else no_action
opinion_to_action neutral w = hold

-- The regime of four finite indicators.
unfoldable pub regime_of : (trend strength vix : Decimal) → MarketRegime
regime_of trend strength vix =
    if lt trend (whole 0) && (lt strength (whole 0) && le (whole 25) vix)
    then risk_off
    else if lt (whole 0) trend && (le (whole 0) strength && lt vix (whole 25))
    then risk_on
    else mixed

unfoldable pub classify_market_regime :
    (snapshot_id : Uuid) (as_of available_at : Datetime) (trend volatility strength vix : Decimal)
    (algorithm_version : Text) (source_lineage : List Uuid)
    → Result MarketContextSnapshot
classify_market_regime snapshot_id as_of available_at trend volatility strength vix version
      lineage =
    do
      t ← require_aware as_of
      a ← require_aware available_at
      market_context_snapshot (record {
        id = snapshot_id;
        as_of = aware t;
        available_at = aware a;
        qqq_trend = finite trend;
        qqq_volatility = finite volatility;
        soxx_relative_strength = finite strength;
        vix = finite vix;
        regime = regime_of trend strength vix;
        algorithm_version = version;
        source_lineage = lineage;
      })

-- A context that is classified is known no earlier than it happened, and its regime follows its own
-- indicators: risk-off exactly when the trend and the relative strength are negative and the VIX is 25
-- or more, risk-on exactly when the trend is positive, the strength is not negative and the VIX is
-- below 25, and mixed otherwise.
pub classify_market_regime_sound :
    (id : Uuid) (as_of available_at : Datetime) (trend volatility strength vix : Decimal)
    (version : Text) (lineage : List Uuid) (c : MarketContextSnapshot)
    → classify_market_regime id as_of available_at trend volatility strength vix version lineage
      ≡ ok c
    → (c.as_of ≤ c.available_at)
      × ((c.regime ≡ risk_off)
            × (lt c.qqq_trend (whole 0) ≡ true)
            × (lt c.soxx_relative_strength (whole 0) ≡ true)
            × (le (whole 25) c.vix ≡ true)
          ⊎ (c.regime ≡ risk_on)
            × (lt (whole 0) c.qqq_trend ≡ true)
            × (le (whole 0) c.soxx_relative_strength ≡ true)
            × (lt c.vix (whole 25) ≡ true)
          ⊎ (c.regime ≡ mixed)
            × ((lt c.qqq_trend (whole 0)
                  && (lt c.soxx_relative_strength (whole 0) && le (whole 25) c.vix))
                ≡ false)
            × ((lt (whole 0) c.qqq_trend
                  && (le (whole 0) c.soxx_relative_strength && lt c.vix (whole 25)))
                ≡ false))
unfolding classify_market_regime market_context_snapshot regime_of
classify_market_regime_sound id as_of available_at trend volatility strength vix version lineage c
      h =
    ground arith
