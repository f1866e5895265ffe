-- ===== src/Portfolio/Risk/Inputs.antt =====
-- application/portfolio/risk.py: the policy, the proposals and the portfolio snapshot.
use aistock.Common.{
  Bool, ◌||◌, [], ◌∷◌, Text, ℕ_eq, text_eq, pair_eq, Option, Result, ok, value_error, ◌>>=◌, ◌>>◌,
  raise_if,
}
use aistock.Decimal.{Decimal, Number, whole, le, lt, eq, sum_from, decimal_arg}
use aistock.Domain.Ids.{Uuid, symbol, is_blank}
use aistock.Domain.Time.{Datetime, Instant, require_aware, optional_aware}
use aistock.Dict.{Dict, values}
use aistock.Int.{ℤ, pos, leb_ℤ, ltb_ℤ}

-- `domain/research/claims.py`
pub data ResearchOpinionValue : Type 0 where
  bullish neutral bearish abstain : ResearchOpinionValue

-- `_decimal(name, value)` and the test for a negative value.
abbrev pub nonneg_arg : Number → Result Decimal
nonneg_arg n = do
  d ← decimal_arg "value must be a finite Decimal" n
  raise_if (lt d (whole 0)) (value_error "value must be non-negative")
  ok d

pub record RiskPolicy : Type 0 where
  pub id : Uuid
  pub version : Text
  pub max_position_weight : Decimal
  pub max_gross_exposure : Decimal
  pub min_cash_reserve : Decimal
  pub max_daily_turnover : Decimal
  pub max_drawdown : Decimal
  pub max_research_age : ℤ
  pub earnings_blackout : ℤ

pub record PolicyArgs : Type 0 where
  pub id : Uuid
  pub version : Text
  pub max_position_weight : Number
  pub max_gross_exposure : Number
  pub min_cash_reserve : Number
  pub max_daily_turnover : Number
  pub max_drawdown : Number
  pub max_research_age : ℤ
  pub earnings_blackout : ℤ

-- The constructor of `RiskPolicy` with its `__post_init__`.
unfoldable pub risk_policy : PolicyArgs → Result RiskPolicy
risk_policy p = do
  raise_if (is_blank p.version) (value_error "risk policy version is required")
  position ← nonneg_arg p.max_position_weight
  gross ← nonneg_arg p.max_gross_exposure
  cash ← nonneg_arg p.min_cash_reserve
  turnover ← nonneg_arg p.max_daily_turnover
  drawdown ← nonneg_arg p.max_drawdown
  raise_if (lt gross position) (value_error "position limit cannot exceed gross exposure limit")
  raise_if (lt (whole 1) gross) (value_error "long-only gross exposure cannot exceed one")
  raise_if (lt (whole 1) cash || lt (whole 1) turnover)
      (value_error "cash reserve and daily turnover cannot exceed one")
  raise_if (leb_ℤ p.max_research_age (pos 0)) (value_error "max research age must be positive")
  raise_if (ltb_ℤ p.earnings_blackout (pos 0)) (value_error "earnings blackout cannot be negative")
  ok (record {
    id = p.id;
    version = p.version;
    max_position_weight = position;
    max_gross_exposure = gross;
    min_cash_reserve = cash;
    max_daily_turnover = turnover;
    max_drawdown = drawdown;
    max_research_age = p.max_research_age;
    earnings_blackout = p.earnings_blackout;
  })

pub record TargetWeightProposal : Type 0 where
  pub id : Uuid
  pub research_decision_id : Uuid
  pub symbol : Text
  pub opinion : ResearchOpinionValue
  pub proposed_weight : Decimal
  pub rationale : Text
  pub research_as_of : Instant
  pub earnings_at : Option Instant
  pub evidence_complete : Bool

pub record ProposalArgs : Type 0 where
  pub id : Uuid
  pub research_decision_id : Uuid
  pub symbol : Text
  pub opinion : ResearchOpinionValue
  pub proposed_weight : Number
  pub rationale : Text
  pub research_as_of : Datetime
  pub earnings_at : Option Datetime
  pub evidence_complete : Bool

-- The constructor of `TargetWeightProposal` with its `__post_init__`.
unfoldable pub target_weight_proposal : ProposalArgs → Result TargetWeightProposal
target_weight_proposal p = do
  s ← symbol p.symbol
  w ← nonneg_arg p.proposed_weight
  raise_if (is_blank p.rationale) (value_error "proposal rationale is required")
  t ← require_aware p.research_as_of
  e ← optional_aware p.earnings_at
  ok (record {
    id = p.id;
    research_decision_id = p.research_decision_id;
    symbol = s;
    opinion = p.opinion;
    proposed_weight = w;
    rationale = p.rationale;
    research_as_of = t;
    earnings_at = e;
    evidence_complete = p.evidence_complete;
  })

pub record PortfolioRiskSnapshot : Type 0 where
  pub portfolio_id : Uuid
  pub market_context_snapshot_id : Uuid
  pub nav : Decimal
  pub cash_weight : Decimal
  pub current_weights : Dict Text Decimal
  pub prices : Dict Text Decimal
  pub daily_turnover : Decimal
  pub drawdown : Decimal

pub record SnapshotArgs : Type 0 where
  pub portfolio_id : Uuid
  pub market_context_snapshot_id : Uuid
  pub nav : Number
  pub cash_weight : Number
  pub current_weights : Dict Text Number
  pub prices : Dict Text Number
  pub daily_turnover : Number
  pub drawdown : Number

-- The loop over one of the two mappings. `too_small` is the test of its values.
unfoldable pub checked_values : (Decimal → Bool) → Dict Text Number → Result (Dict Text Decimal)
checked_values too_small [] = ok []
checked_values too_small ((s, n) ∷ rest) = do
  checked ← symbol s
  d ← decimal_arg "value must be a finite Decimal" n
  raise_if (too_small d) (value_error "values must be positive")
  ds ← checked_values too_small rest
  ok ((s, d) ∷ ds)

abbrev pub weight_too_small : Decimal → Bool
weight_too_small d = lt d (whole 0)

abbrev pub price_too_small : Decimal → Bool
price_too_small d = lt d (whole 0) || eq d (whole 0)

-- The constructor of `PortfolioRiskSnapshot` with its `__post_init__`.
unfoldable pub portfolio_risk_snapshot : SnapshotArgs → Result PortfolioRiskSnapshot
portfolio_risk_snapshot a = do
  nav ← decimal_arg "nav must be a finite Decimal" a.nav
  raise_if (le nav (whole 0)) (value_error "NAV must be positive")
  cash ← decimal_arg "cash_weight must be a finite Decimal" a.cash_weight
  turnover ← decimal_arg "daily_turnover must be a finite Decimal" a.daily_turnover
  drawdown ← decimal_arg "drawdown must be a finite Decimal" a.drawdown
  raise_if (lt cash (whole 0) || lt turnover (whole 0))
      (value_error "cash weight and turnover must be non-negative")
  raise_if (lt (whole 1) cash) (value_error "cash weight cannot exceed one")
  raise_if (lt (whole 0) drawdown) (value_error "drawdown cannot be positive")
  weights ← checked_values weight_too_small a.current_weights
  prices ← checked_values price_too_small a.prices
  raise_if (lt (whole 1) (sum_from (whole 0) (values weights)))
      (value_error "current gross weight cannot exceed one")
  ok (record {
    portfolio_id = a.portfolio_id;
    market_context_snapshot_id = a.market_context_snapshot_id;
    nav = nav;
    cash_weight = cash;
    current_weights = weights;
    prices = prices;
    daily_turnover = turnover;
    drawdown = drawdown;
  })
