-- ===== src/Portfolio/Risk/Total.antt =====
-- The gateway always decides: its own constructor never refuses what it records.
use aistock.Common.{
  ℕ, ◌≡◌, ◌⊎◌, inl, inr, refl, ap, ap₂, Option-cases, true, false, List, [], ◌∷◌, map, arith,
  is_empty, ℕ_eq, text_eq, pair_eq, some, ok, Bool-cases, sort_by, All, sort_by-All,
}
use aistock.Decimal.{Decimal, whole, sub, abs, le, lt, eq}
use aistock.Domain.Ids.{Uuid}
use aistock.Domain.Time.{aware, Instant}
use aistock.Dict.{lookup}
use aistock.Decimal.Order.{eq_refl}
use aistock.Decimal.Sign.{IsNonneg, lt_zero_iff, zero_le_iff, max_of-IsNonneg}
use aistock.Dict.{All-lookup, All-get_or}
use aistock.Portfolio.Risk.Inputs.{
  PolicyArgs, SnapshotArgs, ProposalArgs, risk_policy, portfolio_risk_snapshot,
  target_weight_proposal, RiskPolicy, TargetWeightProposal, PortfolioRiskSnapshot,
}
use aistock.Portfolio.Risk.Decision.{RiskReason, RiskDecision, is_rejected, given_nonpositive}
use aistock.Portfolio.Risk.Gateway.{
  DecisionIdentity, Budget, Verdict, current_weight, hard_reasons, limits, adjust, settle, verdict,
  spend, draft, decision, decide_from, opening, proposal_lt, evaluate, count_symbol,
}
use aistock.Portfolio.Risk.Limits.{apply_limits-IsBelow, adjust_cases, adjust-IsNonneg}
use aistock.Portfolio.Risk.Valid.{
  risk_policy-IsPolicy, portfolio_risk_snapshot-IsSnapshot, target_weight_proposal-IsProposal,
  IsPolicy, IsProposal, IsPositive, IsSnapshot,
}
use aistock.Portfolio.Risk.Fits.{
  IsSound, Fits, rejected-Fits, settle-Fits, maximum_quantity-nonneg, check_quantity-ok,
  nav_with-positive, risk_decision-accepts, rejected_quantity,
}

module _ (policy : RiskPolicy) (snapshot : PortfolioRiskSnapshot) (cutoff : Instant)
    (p : TargetWeightProposal) (valid_policy : IsPolicy policy)
    (valid_snapshot : IsSnapshot snapshot) (valid : IsProposal p) where
  current_weight-IsNonneg : IsNonneg (current_weight snapshot p)
  current_weight-IsNonneg =
      All-get_or IsNonneg p.symbol (whole 0) snapshot.current_weights refl
        valid_snapshot.weights_nonneg

  verdict-Fits :
      (b : Budget) (count : ℕ)
      → IsNonneg b.turnover
      → Fits p.proposed_weight (verdict policy snapshot cutoff b count p)
  unfolding verdict
  verdict-Fits b count turnover = elim (Bool-cases (is_empty hard)) [
    | inl clear ↦
        rw clear (
          settle-Fits current p.proposed_weight adjusted.0 adjusted.1 fits (outcome adjusted_cases))
    | inr refused ↦ rw refused (rejected-Fits p.proposed_weight hard refused)
  ]
    where
      hard : List RiskReason
      hard = hard_reasons policy snapshot cutoff count p

      current : Decimal
      current = current_weight snapshot p

      adjusted : Decimal × List RiskReason
      adjusted = adjust policy b current p.proposed_weight

      fits : IsNonneg adjusted.0
      fits =
          adjust-IsNonneg policy b current p.proposed_weight valid_policy.position_nonneg turnover
            current_weight-IsNonneg valid.weight_nonneg

      adjusted_cases :
          (adjusted ≡ (p.proposed_weight, []))
          ⊎ (eq adjusted.0 p.proposed_weight ≡ false) × (is_empty adjusted.1 ≡ false)
      adjusted_cases = adjust_cases policy b current p.proposed_weight

      outcome :
          (adjusted ≡ (p.proposed_weight, []))
            ⊎ (eq adjusted.0 p.proposed_weight ≡ false) × (is_empty adjusted.1 ≡ false)
          → (adjusted.0 ≡ p.proposed_weight) × (adjusted.1 ≡ [])
            ⊎ (eq adjusted.0 p.proposed_weight ≡ false) × (is_empty adjusted.1 ≡ false)
      outcome (inl e) = inl (
        ap (λ (x : Decimal × List RiskReason). x.0) e,
        ap (λ (x : Decimal × List RiskReason). x.1) e,
      )
      outcome (inr h) = inr h

  -- A verdict that is no rejection has a price.
  verdict-priced :
      (b : Budget) (count : ℕ)
      → (is_rejected (verdict policy snapshot cutoff b count p).status ≡ true)
        ⊎ ((price : Decimal) × (lookup p.symbol snapshot.prices ≡ some price))
  unfolding verdict hard_reasons
  verdict-priced b count = elim (Option-cases (lookup p.symbol snapshot.prices)) [
    | inl missing ↦ inl (ground arith)
    | inr (price, e) ↦ inr (price, e)
  ]

  -- An increase is not approved above the position limit, whatever the budgets.
  verdict-capped :
      (b : Budget) (count : ℕ)
      → (lt (current_weight snapshot p) p.proposed_weight ≡ false)
        ⊎ (le (verdict policy snapshot cutoff b count p).weight policy.max_position_weight ≡ true)
  unfolding verdict settle adjust limits
  verdict-capped b count = elim (Bool-cases (lt (current_weight snapshot p) p.proposed_weight)) [
    | inl up ↦ inr (
        ground (
          arith,
          (zero_le_iff policy.max_position_weight).1 valid_policy.position_nonneg,
          (apply_limits-IsBelow (limits policy b (current_weight snapshot p)) p.proposed_weight
              []).0,
        ))
    | inr not_up ↦ inl not_up
  ]

  price_positive : given_nonpositive (lookup p.symbol snapshot.prices) ≡ false
  price_positive = elim (Option-cases (lookup p.symbol snapshot.prices)) [
    | inl missing ↦ rw missing
    | inr (price, e) ↦
        rw e (All-lookup IsPositive p.symbol price snapshot.prices valid_snapshot.prices_positive e)
  ]

  module _ (uuid5 : DecisionIdentity → Uuid) where
    draft_accepted :
        (v : Verdict)
        → Fits p.proposed_weight v
        → (is_rejected v.status ≡ true)
          ⊎ ((price : Decimal) × (lookup p.symbol snapshot.prices ≡ some price))
        → decision policy snapshot cutoff uuid5 p v ≡ ok (draft policy snapshot cutoff uuid5 p v)
    unfolding decision draft
    draft_accepted v fits priced =
        let price = lookup p.symbol snapshot.prices in
        let delta = sub v.weight (current_weight snapshot p) in
        risk_decision-accepts _ valid.symbol_fixed
          ((lt_zero_iff p.proposed_weight).1 valid.weight_nonneg)
          ((lt_zero_iff v.weight).1 fits.weight_nonneg)
          ((lt_zero_iff (current_weight snapshot p)).1 current_weight-IsNonneg)
          (maximum_quantity-nonneg v.status delta snapshot.nav price valid_snapshot.nav_positive
            price_positive)
          (nav_with-positive snapshot.nav price valid_snapshot.nav_positive) price_positive
          (eq_refl delta) refl fits.consistent
          (check_quantity-ok v.status delta snapshot.nav price priced)

    draft-IsSound :
        (b : Budget) (count : ℕ)
        → IsNonneg b.turnover
        → IsSound policy cutoff
            (draft policy snapshot cutoff uuid5 p (verdict policy snapshot cutoff b count p))
    unfolding draft decision
    draft-IsSound b count turnover =
        let v = verdict policy snapshot cutoff b count p in
        let fits = verdict-Fits b count turnover in
        record {
          accepted = draft_accepted v fits (verdict-priced b count);
          capped = verdict-capped b count;
          powerless =
              rejected_quantity v.status (sub v.weight (current_weight snapshot p)) snapshot.nav
                (lookup p.symbol snapshot.prices);
          decided = refl;
        }

draft-proposal :
    (policy : RiskPolicy) (snapshot : PortfolioRiskSnapshot) (cutoff : Instant)
    (uuid5 : DecisionIdentity → Uuid) (p : TargetWeightProposal) (v : Verdict)
    → (draft policy snapshot cutoff uuid5 p v).proposal_id ≡ p.id
unfolding draft
draft-proposal policy snapshot cutoff uuid5 p v = refl

module _ (policy : RiskPolicy) (snapshot : PortfolioRiskSnapshot) (cutoff : Instant)
    (uuid5 : DecisionIdentity → Uuid) (valid_policy : IsPolicy policy)
    (valid_snapshot : IsSnapshot snapshot) (every : List TargetWeightProposal) where
  spend-turnover :
      (b : Budget) (current : Decimal) (v : Verdict)
      → IsNonneg b.turnover
      → IsNonneg (spend b current v).turnover
  unfolding spend
  spend-turnover b current v h =
      ground (arith, max_of-IsNonneg (sub b.turnover (abs (sub v.weight current))))

  decide_from_total :
      (b : Budget) (ps : List TargetWeightProposal)
      → IsNonneg b.turnover
      → All IsProposal ps
      → (ds : List RiskDecision) × (decide_from policy snapshot cutoff uuid5 every b ps ≡ ok ds)
        × (map (λ (d : RiskDecision). d.proposal_id) ds
            ≡ map (λ (p : TargetWeightProposal). p.id) ps)
        × All (IsSound policy cutoff) ds
  unfolding decide_from
  decide_from_total b [] h valid = ([], refl, refl, tt)
  decide_from_total b (p ∷ ps) h valid =
      let v = verdict policy snapshot cutoff b (count_symbol p.symbol every) p in
      let next = spend b (current_weight snapshot p) v in
      let (ds, e, named, sound) =
        decide_from_total next ps (spend-turnover b (current_weight snapshot p) v h) valid.1 in
      let d = draft policy snapshot cutoff uuid5 p v in
      (
        d ∷ ds,
        rw (decided p valid.0 b (count_symbol p.symbol every) h) (rw e refl),
        ap₂ ◌∷◌ (draft-proposal policy snapshot cutoff uuid5 p v) named,
        (
          draft-IsSound policy snapshot cutoff p valid_policy valid_snapshot valid.0 uuid5 b
              (count_symbol p.symbol every) h,
          sound,
        ),
      )
    where
      decided :
          (p : TargetWeightProposal)
          → IsProposal p
          → (b : Budget) (count : ℕ) → IsNonneg b.turnover
          → decision policy snapshot cutoff uuid5 p (verdict policy snapshot cutoff b count p)
            ≡ ok (draft policy snapshot cutoff uuid5 p (verdict policy snapshot cutoff b count p))
      decided p valid b count h =
          draft_accepted policy snapshot cutoff p valid_policy valid_snapshot valid uuid5 _
            (verdict-Fits policy snapshot cutoff p valid_policy valid_snapshot valid b count h)
            (verdict-priced policy snapshot cutoff p valid_policy valid_snapshot valid b count)

-- A proposal that the constructor returned.
abbrev pub IsConstructed : TargetWeightProposal → Type 0
IsConstructed p = (a : ProposalArgs) × (target_weight_proposal a ≡ ok p)

constructed : (ps : List TargetWeightProposal) → All IsConstructed ps → All IsProposal ps
constructed [] h = tt
constructed (p ∷ ps) h = (target_weight_proposal-IsProposal h.0.0 p h.0.1, constructed ps h.1)

-- For a policy, a snapshot and proposals that were constructed, the gateway returns at every aware
-- time, one decision for each proposal in the order of symbol and id, and each of the decisions is
-- accepted by the constructor once more, is made at that time, approves an increase up to the
-- position limit at most, and authorizes no quantity when it rejects.
pub evaluate_total :
    (pa : PolicyArgs) (sa : SnapshotArgs) (policy : RiskPolicy) (snapshot : PortfolioRiskSnapshot)
    (uuid5 : DecisionIdentity → Uuid) (proposals : List TargetWeightProposal) (cutoff : Instant)
    → risk_policy pa ≡ ok policy
    → portfolio_risk_snapshot sa ≡ ok snapshot
    → All IsConstructed proposals
    → (ds : List RiskDecision) × (evaluate policy uuid5 proposals snapshot (aware cutoff) ≡ ok ds)
      × (map (λ (d : RiskDecision). d.proposal_id) ds
          ≡ map (λ (p : TargetWeightProposal). p.id) (sort_by proposal_lt proposals))
      × All (IsSound policy cutoff) ds
unfolding evaluate
evaluate_total pa sa policy snapshot uuid5 proposals cutoff hp hs h =
    decide_from_total policy snapshot cutoff uuid5 (risk_policy-IsPolicy pa policy hp)
      (portfolio_risk_snapshot-IsSnapshot sa snapshot hs) proposals (opening policy snapshot)
      (sort_by proposal_lt proposals)
      (max_of-IsNonneg (sub policy.max_daily_turnover snapshot.daily_turnover))
      (sort_by-All IsProposal proposal_lt proposals (constructed proposals h))
