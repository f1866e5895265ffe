-- ===== src/Portfolio/Risk/Tests.antt =====
-- The gateway on a portfolio of two positions, of which one is above the position limit.
use aistock.Common.{
  ℕ, ◌≡◌, ◌≢◌, refl, true, false, ◌↔◌, List, [], ◌∷◌, map, codes, Text, sort_by, All, ok, none,
}
use aistock.Int.{pos, negsuc}
use aistock.Decimal.{Decimal, finite, whole, lt, le, sub}
use aistock.Decimal.{fix, cross, exact_add, exact_neg, add, neg, eq}
use aistock.Domain.Ids.{Uuid, symbol, is_blank, strip, matches_symbol, is_symbol_char}
use aistock.Domain.Time.{aware}
use aistock.Portfolio.Risk.Inputs.{
  PolicyArgs, RiskPolicy, risk_policy, ProposalArgs, TargetWeightProposal, target_weight_proposal,
  SnapshotArgs, PortfolioRiskSnapshot, portfolio_risk_snapshot, checked_values, bullish,
}
use aistock.Portfolio.Risk.Decision.{
  RiskDecision, RiskReason, rejected, clipped, has_reason, incomplete_evidence,
}
use aistock.Portfolio.Risk.Gateway.{
  DecisionIdentity, Budget, evaluate, proposal_lt, verdict, hard_reasons, current_weight, limits,
  settle, adjust, apply_limits,
}
use aistock.Portfolio.Risk.Fits.{IsSound}
use aistock.Portfolio.Risk.Gate.{
  Violates, unsupported, Violates-rejected, IsWithin, increase-IsWithin, increase_sells,
}
use aistock.Portfolio.Risk.Total.{evaluate_total}

-- n hundredths
abbrev hundredths : ℕ → Decimal
hundredths n = record { coeff = pos n; scale = 2 }

abbrev policy_args : PolicyArgs
policy_args = record {
  id = 1;
  version = codes "risk-v1";
  max_position_weight = finite (hundredths 20);
  max_gross_exposure = finite (hundredths 80);
  min_cash_reserve = finite (hundredths 10);
  max_daily_turnover = finite (hundredths 30);
  max_drawdown = finite (hundredths 15);
  max_research_age = pos 1000;
  earnings_blackout = pos 100;
}

abbrev policy : RiskPolicy
policy = record {
  id = 1;
  version = codes "risk-v1";
  max_position_weight = hundredths 20;
  max_gross_exposure = hundredths 80;
  min_cash_reserve = hundredths 10;
  max_daily_turnover = hundredths 30;
  max_drawdown = hundredths 15;
  max_research_age = pos 1000;
  earnings_blackout = pos 100;
}

policy_constructed : risk_policy policy_args ≡ ok policy
unfolding risk_policy lt is_blank strip cross
policy_constructed = refl

abbrev snapshot_args : SnapshotArgs
snapshot_args = record {
  portfolio_id = 7;
  market_context_snapshot_id = 8;
  nav = finite (whole 100000);
  cash_weight = finite (hundredths 70);
  current_weights =
      (codes "MU", finite (hundredths 5)) ∷ (codes "AMD", finite (hundredths 25)) ∷ [];
  prices = (codes "MU", finite (whole 100)) ∷ (codes "AMD", finite (whole 50)) ∷ [];
  daily_turnover = finite (hundredths 5);
  drawdown = finite (record { coeff = negsuc 1; scale = 2 });
}

abbrev snapshot : PortfolioRiskSnapshot
snapshot = record {
  portfolio_id = 7;
  market_context_snapshot_id = 8;
  nav = whole 100000;
  cash_weight = hundredths 70;
  current_weights = (codes "MU", hundredths 5) ∷ (codes "AMD", hundredths 25) ∷ [];
  prices = (codes "MU", whole 100) ∷ (codes "AMD", whole 50) ∷ [];
  daily_turnover = hundredths 5;
  drawdown = record { coeff = negsuc 1; scale = 2 };
}

snapshot_constructed : portfolio_risk_snapshot snapshot_args ≡ ok snapshot
unfolding portfolio_risk_snapshot checked_values symbol lt le eq add fix exact_add cross strip
    matches_symbol is_symbol_char
snapshot_constructed = refl

abbrev proposal_args : Text → Decimal → ProposalArgs
proposal_args s w = record {
  id = 3;
  research_decision_id = 4;
  symbol = s;
  opinion = bullish;
  proposed_weight = finite w;
  rationale = codes "earnings";
  research_as_of = aware 900;
  earnings_at = none;
  evidence_complete = true;
}

abbrev proposal : Text → Decimal → TargetWeightProposal
proposal s w = record {
  id = 3;
  research_decision_id = 4;
  symbol = s;
  opinion = bullish;
  proposed_weight = w;
  rationale = codes "earnings";
  research_as_of = 900;
  earnings_at = none;
  evidence_complete = true;
}

mu_constructed :
    target_weight_proposal (proposal_args (codes "MU") (hundredths 30))
    ≡ ok (proposal (codes "MU") (hundredths 30))
unfolding target_weight_proposal symbol lt cross is_blank strip matches_symbol is_symbol_char
mu_constructed = refl

-- Every identity is hashed to one number here.
abbrev hash : DecisionIdentity → Uuid
hash i = 99

abbrev proposals : List TargetWeightProposal
proposals = proposal (codes "MU") (hundredths 30) ∷ []

evaluate_total_example :
    (ds : List RiskDecision) × (evaluate policy hash proposals snapshot (aware 1000) ≡ ok ds)
    × (map (λ (d : RiskDecision). d.proposal_id) ds
        ≡ map (λ (p : TargetWeightProposal). p.id) (sort_by proposal_lt proposals))
    × All (IsSound policy 1000) ds
evaluate_total_example =
    evaluate_total policy_args snapshot_args policy snapshot hash proposals 1000 policy_constructed
      snapshot_constructed ((proposal_args (codes "MU") (hundredths 30), mu_constructed), tt)

abbrev budget : Budget
budget = record { gross = hundredths 30; cash = hundredths 70; turnover = hundredths 25 }

abbrev unproved : TargetWeightProposal
unproved = record {
  id = 3;
  research_decision_id = 4;
  symbol = codes "NVDA";
  opinion = bullish;
  proposed_weight = hundredths 10;
  rationale = codes "earnings";
  research_as_of = 900;
  earnings_at = none;
  evidence_complete = false;
}

Violates-rejected_example :
    ((verdict policy snapshot 1000 budget 1 unproved).status ≡ rejected)
    × ((verdict policy snapshot 1000 budget 1 unproved).weight ≡ whole 0)
    × ((s : RiskReason)
        → (has_reason s (verdict policy snapshot 1000 budget 1 unproved).reasons ≡ true)
          ↔ Violates policy snapshot 1000 1 unproved s)
Violates-rejected_example =
    Violates-rejected policy snapshot 1000 1 unproved budget incomplete_evidence (unsupported refl)

abbrev mu : TargetWeightProposal
mu = proposal (codes "MU") (hundredths 30)

mu_up : lt (current_weight snapshot mu) mu.proposed_weight ≡ true
unfolding lt cross
mu_up = refl

mu_kept : (verdict policy snapshot 1000 budget 1 mu).status ≢ rejected
unfolding verdict hard_reasons settle adjust apply_limits limits lt le eq add sub neg fix exact_add
    exact_neg cross
mu_kept e = cc

increase-IsWithin_example :
    IsWithin policy budget
      (current_weight snapshot mu)
      (verdict policy snapshot 1000 budget 1 mu).weight
increase-IsWithin_example = increase-IsWithin policy snapshot 1000 1 budget mu mu_up mu_kept

-- A holding of 25 percent under a limit of 20 percent.
abbrev amd : TargetWeightProposal
amd = proposal (codes "AMD") (hundredths 30)

amd_clear : hard_reasons policy snapshot 1000 1 amd ≡ []
unfolding hard_reasons lt le neg fix exact_neg cross
amd_clear = refl

amd_up : lt (current_weight snapshot amd) amd.proposed_weight ≡ true
unfolding lt cross
amd_up = refl

amd_over : lt policy.max_position_weight (current_weight snapshot amd) ≡ true
unfolding lt cross
amd_over = refl

increase_sells_example :
    ((verdict policy snapshot 1000 budget 1 amd).status ≡ clipped)
    × (le (verdict policy snapshot 1000 budget 1 amd).weight policy.max_position_weight ≡ true)
    × (lt (verdict policy snapshot 1000 budget 1 amd).weight (current_weight snapshot amd) ≡ true)
increase_sells_example = increase_sells policy snapshot 1000 1 budget amd amd_clear amd_up amd_over
