-- ===== src/Portfolio/Risk/Valid.antt =====
-- What the constructors of the gateway's inputs guarantee.
use aistock.Common.{◌≡◌, Bool, false, List, [], ◌∷◌, arith, Text, ℕ_eq, text_eq, pair_eq, ok, All}
use aistock.Decimal.{Decimal, Number, finite, not_finite, not_decimal, whole, le, lt}
use aistock.Domain.Ids.{symbol, symbol_idem}
use aistock.Dict.{Dict, values}
use aistock.Decimal.Order.{not-le_of_not}
use aistock.Decimal.Sign.{IsNonneg, lt_zero_iff}
use aistock.Portfolio.Risk.Inputs.{
  RiskPolicy, PolicyArgs, risk_policy, TargetWeightProposal, ProposalArgs, target_weight_proposal,
  PortfolioRiskSnapshot, SnapshotArgs, portfolio_risk_snapshot, checked_values, nonneg_arg,
  weight_too_small, price_too_small,
}

pub record IsPolicy (p : RiskPolicy) : Type 0 where
  pub position_nonneg : IsNonneg p.max_position_weight
  pub turnover_nonneg : IsNonneg p.max_daily_turnover
  pub position_within_gross : lt p.max_gross_exposure p.max_position_weight ≡ false
  pub gross_within_one : lt (whole 1) p.max_gross_exposure ≡ false

pub record IsProposal (p : TargetWeightProposal) : Type 0 where
  pub symbol_fixed : symbol p.symbol ≡ ok p.symbol
  pub weight_nonneg : IsNonneg p.proposed_weight

abbrev pub IsPositive : Decimal → Type 0
IsPositive d = le d (whole 0) ≡ false

pub record IsSnapshot (s : PortfolioRiskSnapshot) : Type 0 where
  pub nav_positive : IsPositive s.nav
  pub weights_nonneg : All IsNonneg (values s.current_weights)
  pub prices_positive : All IsPositive (values s.prices)

nonneg_arg-IsNonneg : (n : Number) (d : Decimal) → nonneg_arg n ≡ ok d → IsNonneg d
nonneg_arg-IsNonneg (finite x) d h = ground (arith, lt_zero_iff d)
nonneg_arg-IsNonneg not_finite d h = cc
nonneg_arg-IsNonneg not_decimal d h = cc

-- A policy that was constructed meets the bounds that the gateway relies on.
pub risk_policy-IsPolicy : (a : PolicyArgs) (p : RiskPolicy) → risk_policy a ≡ ok p → IsPolicy p
unfolding risk_policy
risk_policy-IsPolicy a p h =
    ground (arith, lt_zero_iff p.max_position_weight, lt_zero_iff p.max_daily_turnover)

-- A proposal that was constructed has a normalised symbol and no negative weight.
pub target_weight_proposal-IsProposal :
    (a : ProposalArgs) (p : TargetWeightProposal) → target_weight_proposal a ≡ ok p → IsProposal p
unfolding target_weight_proposal
target_weight_proposal-IsProposal a p h =
    ground (arith, lt_zero_iff p.proposed_weight, symbol_idem a.symbol p.symbol)

checked_values-All :
    (bad : Decimal → Bool) (ns : Dict Text Number) (ds : Dict Text Decimal)
    → checked_values bad ns ≡ ok ds
    → All (λ d. bad d ≡ false) (values ds)
unfolding checked_values
checked_values-All bad [] [] h = tt
checked_values-All bad [] (d ∷ ds) h = cc
checked_values-All bad ((s, n) ∷ ns) [] h = ground arith
checked_values-All bad ((s, n) ∷ ns) ((t, d) ∷ ds) h = ground (arith, checked_values-All bad ns ds)

weights : (ds : List Decimal) → All (λ d. weight_too_small d ≡ false) ds → All IsNonneg ds
weights [] h = tt
weights (d ∷ ds) h = ((lt_zero_iff d).0 h.0, weights ds h.1)

prices : (ds : List Decimal) → All (λ d. price_too_small d ≡ false) ds → All IsPositive ds
prices [] h = tt
prices (d ∷ ds) h = (not-le_of_not d (whole 0) h.0, prices ds h.1)

-- A snapshot that was constructed has a positive value, no negative weight and only positive prices.
pub portfolio_risk_snapshot-IsSnapshot :
    (a : SnapshotArgs) (s : PortfolioRiskSnapshot) → portfolio_risk_snapshot a ≡ ok s → IsSnapshot s
unfolding portfolio_risk_snapshot
portfolio_risk_snapshot-IsSnapshot a s h = ground (
  arith,
  checked_values-All weight_too_small a.current_weights s.current_weights,
  checked_values-All price_too_small a.prices s.prices,
  weights (values s.current_weights),
  prices (values s.prices),
)
