-- ===== src/Portfolio/Risk/Gateway.antt =====
-- application/portfolio/risk.py: `RiskGateway`. The hash `uuid5` of the identity text is a parameter,
-- a function of the values that the text is joined from.
use aistock.Common.{
  ℕ, suc, ◌-◌, Bool, false, ◌&&◌, ◌||◌, not, List, [], ◌∷◌, ◌++◌, ltb, if◌then◌else◌, Text,
  is_empty, ◌==◌, ℕ_eq, text_eq, text_lt, pair_eq, Option, none, some, Result, ok, ◌>>=◌, sort_by,
}
use aistock.Decimal.{Decimal, whole, add, sub, neg, abs, le, lt, eq, max_of, sum_from}
use aistock.Domain.Ids.{Uuid}
use aistock.Domain.Time.{Datetime, Instant, require_aware}
use aistock.Dict.{lookup, contains, get_or, values}
use aistock.Int.{pos, sub_ℕ, leb_ℤ, ltb_ℤ}
use aistock.Portfolio.Risk.Inputs.{RiskPolicy, TargetWeightProposal, PortfolioRiskSnapshot}
use aistock.Portfolio.Risk.Decision.{
  RiskDecisionStatus, approved, clipped, rejected, RiskReason, position_limit, gross_exposure,
  cash_reserve, daily_turnover, stale_research, missing_price, earnings_blackout, drawdown_limit,
  duplicate_intent, incomplete_evidence, has_reason, RiskDecision, is_rejected, order_quantity,
  risk_decision,
}

-- What the identity of a decision is made of.
pub record DecisionIdentity : Type 0 where
  pub proposal_id : Uuid
  pub policy_id : Uuid
  pub decision_time : Instant
  pub status : RiskDecisionStatus
  pub approved_weight : Decimal
  pub current_weight : Decimal
  pub nav : Decimal
  pub price : Option Decimal
  pub market_context_snapshot_id : Uuid
  pub portfolio_id : Uuid
  pub reasons : List RiskReason

-- `tuple(dict.fromkeys(reasons))`
abbrev unique_reasons_from : List RiskReason → List RiskReason → List RiskReason
unique_reasons_from seen [] = []
unique_reasons_from seen (r ∷ rs) =
    let rest = unique_reasons_from (r ∷ seen) rs in if has_reason r seen then rest else r ∷ rest

unfoldable pub unique_reasons : List RiskReason → List RiskReason
unique_reasons rs = unique_reasons_from [] rs

-- The quantity that `_decision` authorizes.
unfoldable pub maximum_quantity : RiskDecisionStatus → Decimal → Decimal → Option Decimal → Decimal
maximum_quantity status delta nav none = whole 0
maximum_quantity status delta nav (some price) =
    if not (eq delta (whole 0)) && not (is_rejected status)
    then order_quantity delta nav price
    else whole 0

-- What `evaluate` carries from one proposal to the next.
pub record Budget : Type 0 where
  pub gross : Decimal
  pub cash : Decimal
  pub turnover : Decimal

-- What `evaluate` makes of one proposal before it records the decision.
pub record Verdict : Type 0 where
  pub status : RiskDecisionStatus
  pub weight : Decimal
  pub reasons : List RiskReason

abbrev pub current_weight : PortfolioRiskSnapshot → TargetWeightProposal → Decimal
current_weight snapshot p = get_or p.symbol (whole 0) snapshot.current_weights

-- `Counter(proposal.symbol for proposal in proposals)[symbol]`
abbrev pub count_symbol : Text → List TargetWeightProposal → ℕ
count_symbol s [] = 0
count_symbol s (p ∷ ps) = if p.symbol == s then suc (count_symbol s ps) else count_symbol s ps

abbrev reason_if : Bool → RiskReason → List RiskReason → List RiskReason
reason_if b r rs = if b then r ∷ rs else rs

-- `cutoff < as_of or cutoff - as_of > max_research_age`
abbrev pub is_stale : RiskPolicy → Instant → Instant → Bool
is_stale policy cutoff as_of =
    ltb cutoff as_of || ltb_ℤ policy.max_research_age (sub_ℕ cutoff as_of)

-- `earnings_at is not None and abs(earnings_at - cutoff) <= earnings_blackout`
abbrev pub in_blackout : RiskPolicy → Instant → Option Instant → Bool
in_blackout policy cutoff none = false
in_blackout policy cutoff (some t) =
    leb_ℤ (pos (if ltb t cutoff then cutoff - t else t - cutoff)) policy.earnings_blackout

-- `for limit, reason in limits: if approved > limit: …`
unfoldable pub apply_limits :
    List (Decimal × RiskReason) → Decimal → List RiskReason → Decimal × List RiskReason
apply_limits [] weight reasons = (weight, reasons)
apply_limits ((limit, reason) ∷ limits) weight reasons =
    let over = lt limit weight in
    apply_limits limits (if over then limit else weight)
      (if over then reasons ++ reason ∷ [] else reasons)

unfoldable pub limits : RiskPolicy → Budget → Decimal → List (Decimal × RiskReason)
limits policy b current =
    (policy.max_position_weight, position_limit)
    ∷ (add current (max_of (whole 0) (sub policy.max_gross_exposure b.gross)), gross_exposure)
    ∷ (add current (max_of (whole 0) (sub b.cash policy.min_cash_reserve)), cash_reserve)
    ∷ (add current b.turnover, daily_turnover)
    ∷ []

-- A reduction may go no further than the turnover that is left.
unfoldable pub reduce : Budget → Decimal → Decimal → Decimal × List RiskReason
reduce b current proposed =
    let minimum = max_of (whole 0) (sub current b.turnover) in
    if lt proposed minimum then (minimum, daily_turnover ∷ []) else (proposed, [])

-- The weight after the limits, with the reasons for its change.
unfoldable pub adjust : RiskPolicy → Budget → Decimal → Decimal → Decimal × List RiskReason
adjust policy b current proposed =
    if lt current proposed
    then apply_limits (limits policy b current) proposed []
    else if lt proposed current
    then reduce b current proposed
    else (proposed, [])

-- What the adjusted weight becomes; a target that could not move at all is rejected.
unfoldable pub settle : Decimal → Decimal → Decimal × List RiskReason → Verdict
settle current proposed (weight, reasons) =
    if eq weight current && not (eq proposed current)
    then record {
      status = rejected;
      weight = whole 0;
      reasons = if is_empty reasons then daily_turnover ∷ [] else reasons;
    }
    else record {
      status = if eq weight proposed then approved else clipped;
      weight = weight;
      reasons = reasons;
    }

-- The budgets after a decision: a rejection leaves them alone.
unfoldable pub spend : Budget → Decimal → Verdict → Budget
spend b current v =
    let delta = sub v.weight current in
    if is_rejected v.status then b else record {
      gross = add b.gross delta;
      cash = sub b.cash delta;
      turnover = max_of (whole 0) (sub b.turnover (abs delta));
    }

module _ (policy : RiskPolicy) (snapshot : PortfolioRiskSnapshot) (cutoff : Instant) where
  unfoldable pub hard_reasons : ℕ → TargetWeightProposal → List RiskReason
  hard_reasons count p = reason_if (ltb 1 count) duplicate_intent (
      reason_if (not (contains p.symbol snapshot.prices)) missing_price (
        reason_if (is_stale policy cutoff p.research_as_of) stale_research (
          reason_if (in_blackout policy cutoff p.earnings_at) earnings_blackout (
            reason_if (not p.evidence_complete) incomplete_evidence (
              reason_if
                (le snapshot.drawdown (neg policy.max_drawdown)
                  && lt (current_weight snapshot p) p.proposed_weight)
                drawdown_limit [])))))

  unfoldable pub verdict : Budget → ℕ → TargetWeightProposal → Verdict
  verdict b count p =
      let hard = hard_reasons count p in
      let current = current_weight snapshot p in
      if not (is_empty hard)
      then record { status = rejected; weight = whole 0; reasons = hard }
      else settle current p.proposed_weight (adjust policy b current p.proposed_weight)

  module _ (uuid5 : DecisionIdentity → Uuid) where
    -- The arguments that `RiskGateway._decision` passes to the constructor.
    unfoldable pub draft : TargetWeightProposal → Verdict → RiskDecision
    draft p v =
        let reasons = unique_reasons v.reasons in
        let current = current_weight snapshot p in
        let price = lookup p.symbol snapshot.prices in
        let delta = sub v.weight current in
        record {
          id = uuid5 (record {
            proposal_id = p.id;
            policy_id = policy.id;
            decision_time = cutoff;
            status = v.status;
            approved_weight = v.weight;
            current_weight = current;
            nav = snapshot.nav;
            price = price;
            market_context_snapshot_id = snapshot.market_context_snapshot_id;
            portfolio_id = snapshot.portfolio_id;
            reasons = reasons;
          });
          proposal_id = p.id;
          research_decision_id = some p.research_decision_id;
          symbol = p.symbol;
          status = v.status;
          requested_weight = p.proposed_weight;
          approved_weight = v.weight;
          reason_codes = reasons;
          risk_policy_version_id = policy.id;
          decided_at = cutoff;
          current_weight = current;
          approved_delta = delta;
          reference_nav = elim price [ none ↦ none | some _ ↦ some snapshot.nav ];
          reference_price = price;
          max_order_quantity = maximum_quantity v.status delta snapshot.nav price;
          market_context_snapshot_id = some snapshot.market_context_snapshot_id;
          portfolio_id = snapshot.portfolio_id;
        }

    -- `RiskGateway._decision`
    unfoldable pub decision : TargetWeightProposal → Verdict → Result RiskDecision
    decision p v = risk_decision (draft p v)

    -- The loop over the sorted proposals.
    unfoldable pub decide_from :
        List TargetWeightProposal → Budget → List TargetWeightProposal → Result (List RiskDecision)
    decide_from all_proposals b [] = ok []
    decide_from all_proposals b (p ∷ ps) = do
      let v = verdict b (count_symbol p.symbol all_proposals) p
      d ← decision p v
      ds ← decide_from all_proposals (spend b (current_weight snapshot p) v) ps
      ok (d ∷ ds)

abbrev pub opening : RiskPolicy → PortfolioRiskSnapshot → Budget
opening policy snapshot = record {
  gross = sum_from (whole 0) (values snapshot.current_weights);
  cash = snapshot.cash_weight;
  turnover = max_of (whole 0) (sub policy.max_daily_turnover snapshot.daily_turnover);
}

-- `sorted(proposals, key=lambda item: (str(item.symbol), str(item.id)))`
abbrev pub proposal_lt : TargetWeightProposal → TargetWeightProposal → Bool
proposal_lt p q = text_lt p.symbol q.symbol || p.symbol == q.symbol && ltb p.id q.id

-- `RiskGateway.evaluate`
unfoldable pub evaluate :
    RiskPolicy
    → (DecisionIdentity → Uuid)
    → List TargetWeightProposal
    → PortfolioRiskSnapshot
    → Datetime
    → Result (List RiskDecision)
evaluate policy uuid5 proposals snapshot decision_time = do
  cutoff ← require_aware decision_time
  decide_from policy snapshot cutoff uuid5 proposals (opening policy snapshot)
      (sort_by proposal_lt proposals)
