-- ===== src/Portfolio/Risk/Gate.antt =====
-- The hard rules of the gateway against an independent statement of them, and the limits on an
-- increase.
use aistock.Common.{
  ℕ, ◌-◌, ◌≤◌, ◌<◌, ◌≡◌, ◌≢◌, inl, inr, refl, sym, subst, ap, ◌↔◌, Option-cases, true, false, List,
  [], ◌∷◌, arith, ltb, is_empty, ℕ_eq, text_eq, pair_eq, none, some, Bool-cases,
}
use aistock.Decimal.{Decimal, whole, add, sub, max_of, neg, le, lt}
use aistock.Domain.Time.{Instant}
use aistock.Dict.{lookup}
use aistock.Int.{pos, sub_ℕ, ltb_ℤ, ◌≤ℤ◌}
use aistock.Decimal.Order.{le-lt_trans, ne_of_lt, lt-le_trans, le_of_lt}
use aistock.Portfolio.Risk.Inputs.{RiskPolicy, TargetWeightProposal, PortfolioRiskSnapshot}
use aistock.Portfolio.Risk.Decision.{
  clipped, rejected, RiskReason, position_limit, gross_exposure, cash_reserve, daily_turnover,
  stale_research, missing_price, earnings_blackout, drawdown_limit, duplicate_intent,
  incomplete_evidence, market_data_entitlement, has_reason,
}
use aistock.Portfolio.Risk.Gateway.{
  Budget, Verdict, current_weight, hard_reasons, limits, adjust, settle, verdict, apply_limits,
}
use aistock.Portfolio.Risk.Limits.{apply_limits-IsBelow}

module _ (policy : RiskPolicy) (snapshot : PortfolioRiskSnapshot) (cutoff : Instant) (count : ℕ)
    (p : TargetWeightProposal) where
  -- Why a proposal may not be acted upon, rule by rule.
  pub data Violates : RiskReason → Type 0 where
    duplicated : 1 < count → Violates duplicate_intent
    unpriced : lookup p.symbol snapshot.prices ≡ none → Violates missing_price
    from_future : cutoff < p.research_as_of → Violates stale_research
    too_old :
        ltb_ℤ policy.max_research_age (sub_ℕ cutoff p.research_as_of) ≡ true
        → Violates stale_research
    before_earnings :
        (t : Instant)
        → p.earnings_at ≡ some t
        → cutoff ≤ t
        → pos (t - cutoff) ≤ℤ policy.earnings_blackout
        → Violates earnings_blackout
    after_earnings :
        (t : Instant)
        → p.earnings_at ≡ some t
        → t < cutoff
        → pos (cutoff - t) ≤ℤ policy.earnings_blackout
        → Violates earnings_blackout
    unsupported : p.evidence_complete ≡ false → Violates incomplete_evidence
    drawn_down :
        le snapshot.drawdown (neg policy.max_drawdown) ≡ true
        → lt (current_weight snapshot p) p.proposed_weight ≡ true
        → Violates drawdown_limit

  -- Every violation is found, and stands among the reasons.
  Violates-has_reason :
      {r : RiskReason}
      → Violates r
      → has_reason r (hard_reasons policy snapshot cutoff count p) ≡ true
  unfolding hard_reasons
  Violates-has_reason (duplicated h) = ground arith
  Violates-has_reason (unpriced h) = ground arith
  Violates-has_reason (from_future h) = ground arith
  Violates-has_reason (too_old h) = ground arith
  Violates-has_reason (before_earnings t e h k) = ground arith
  Violates-has_reason (after_earnings t e h k) = ground arith
  Violates-has_reason (unsupported h) = ground arith
  Violates-has_reason (drawn_down h k) = ground arith

  -- Only violations are found.
  has_reason-Violates :
      (r : RiskReason)
      → has_reason r (hard_reasons policy snapshot cutoff count p) ≡ true
      → Violates r
  unfolding hard_reasons
  has_reason-Violates duplicate_intent h = duplicated (ground arith)
  has_reason-Violates missing_price h = unpriced (ground arith)
  has_reason-Violates stale_research h = elim (Bool-cases (ltb cutoff p.research_as_of)) [
    | inl future ↦ from_future (ground arith)
    | inr past ↦ too_old (ground arith)
  ]
  has_reason-Violates earnings_blackout h = elim (Option-cases p.earnings_at) [
    | inl unknown ↦ absurd (ground arith)
    | inr (t, e) ↦ elim (Bool-cases (ltb t cutoff)) [
      | inl over ↦ after_earnings t e (ground arith) (ground arith)
      | inr ahead ↦ before_earnings t e (ground arith) (ground arith)
    ]
  ]
  has_reason-Violates incomplete_evidence h = unsupported (ground arith)
  has_reason-Violates drawdown_limit h = drawn_down (ground arith) (ground arith)
  has_reason-Violates position_limit h = absurd (ground arith)
  has_reason-Violates gross_exposure h = absurd (ground arith)
  has_reason-Violates cash_reserve h = absurd (ground arith)
  has_reason-Violates daily_turnover h = absurd (ground arith)
  has_reason-Violates market_data_entitlement h = absurd (ground arith)

  abbrev of_proposal : Budget → Verdict
  of_proposal b = verdict policy snapshot cutoff b count p

  has_reason-nonempty :
      (r : RiskReason) (rs : List RiskReason) → has_reason r rs ≡ true → is_empty rs ≡ false
  has_reason-nonempty r [] h = cc
  has_reason-nonempty r (x ∷ rs) h = refl

  refused :
      (b : Budget)
      → is_empty (hard_reasons policy snapshot cutoff count p) ≡ false
      → of_proposal b ≡ record {
        status = rejected;
        weight = whole 0;
        reasons = hard_reasons policy snapshot cutoff count p;
      }
  unfolding verdict
  refused b h = rw h

  -- Whatever the budgets: a proposal that violates a hard rule is rejected with weight zero, and its
  -- reasons are exactly the rules that it violates.
  pub Violates-rejected :
      (b : Budget) (r : RiskReason)
      → Violates r
      → ((of_proposal b).status ≡ rejected)
        × ((of_proposal b).weight ≡ whole 0)
        × ((s : RiskReason) → (has_reason s (of_proposal b).reasons ≡ true) ↔ Violates s)
  Violates-rejected b r h =
      let e = refused b (has_reason-nonempty r _ (Violates-has_reason h)) in
      (
        ap (λ (v : Verdict). v.status) e,
        ap (λ (v : Verdict). v.weight) e,
        λ s. rw e (has_reason-Violates s, Violates-has_reason),
      )

kept_weight :
    (policy : RiskPolicy) (snapshot : PortfolioRiskSnapshot) (cutoff : Instant) (count : ℕ)
    (b : Budget) (p : TargetWeightProposal)
    → lt (current_weight snapshot p) p.proposed_weight ≡ true
    → (verdict policy snapshot cutoff b count p).status ≢ rejected
    → (verdict policy snapshot cutoff b count p).weight
      ≡ (apply_limits (limits policy b (current_weight snapshot p)) p.proposed_weight []).0
unfolding verdict settle adjust
kept_weight policy snapshot cutoff count b p up kept = ground arith

-- A weight within the four limits on an increase from the current weight.
pub record IsWithin (policy : RiskPolicy) (b : Budget) (current weight : Decimal) : Type 0 where
  pub position : le weight policy.max_position_weight ≡ true
  pub gross :
      le weight (add current (max_of (whole 0) (sub policy.max_gross_exposure b.gross))) ≡ true
  pub cash : le weight (add current (max_of (whole 0) (sub b.cash policy.min_cash_reserve))) ≡ true
  pub turnover : le weight (add current b.turnover) ≡ true

limited-IsWithin :
    (policy : RiskPolicy) (b : Budget) (current proposed : Decimal)
    → IsWithin policy b current (apply_limits (limits policy b current) proposed []).0
unfolding limits
limited-IsWithin policy b current proposed =
    let below = apply_limits-IsBelow (limits policy b current) proposed [] in
    record { position = below.0; gross = below.1.0; cash = below.1.1.0; turnover = below.1.1.1.0 }

-- A proposed increase that the gateway does not reject ends at or below each of the limits: the
-- position limit, and the current weight plus the room that gross exposure, the cash reserve and the
-- turnover leave, where the room for gross exposure and cash is zero when their limit is passed.
pub increase-IsWithin :
    (policy : RiskPolicy) (snapshot : PortfolioRiskSnapshot) (cutoff : Instant) (count : ℕ)
    (b : Budget) (p : TargetWeightProposal)
    → lt (current_weight snapshot p) p.proposed_weight ≡ true
    → (verdict policy snapshot cutoff b count p).status ≢ rejected
    → IsWithin policy b
        (current_weight snapshot p)
        (verdict policy snapshot cutoff b count p).weight
increase-IsWithin policy snapshot cutoff count b p up kept =
    let current = current_weight snapshot p in
    subst (IsWithin policy b current) (sym (kept_weight policy snapshot cutoff count b p up kept))
      (limited-IsWithin policy b current p.proposed_weight)

-- A proposal that violates no hard rule and asks to increase a position that already exceeds the
-- position limit is clipped to a weight that is at most the position limit and less than the current
-- weight: it becomes a reduction, also where no turnover is left.
pub increase_sells :
    (policy : RiskPolicy) (snapshot : PortfolioRiskSnapshot) (cutoff : Instant) (count : ℕ)
    (b : Budget) (p : TargetWeightProposal)
    → hard_reasons policy snapshot cutoff count p ≡ []
    → lt (current_weight snapshot p) p.proposed_weight ≡ true
    → lt policy.max_position_weight (current_weight snapshot p) ≡ true
    → ((verdict policy snapshot cutoff b count p).status ≡ clipped)
      × (le (verdict policy snapshot cutoff b count p).weight policy.max_position_weight ≡ true)
      × (lt (verdict policy snapshot cutoff b count p).weight (current_weight snapshot p) ≡ true)
unfolding verdict settle adjust limits
increase_sells policy snapshot cutoff count b p clear up over =
    let current = current_weight snapshot p in
    let w = (apply_limits (limits policy b current) p.proposed_weight []).0 in
    let capped = (limited-IsWithin policy b current p.proposed_weight).position in
    let sold = le-lt_trans w policy.max_position_weight current capped over in
    let less =
      lt-le_trans w current p.proposed_weight sold (le_of_lt current p.proposed_weight up) in
    ground (arith, capped, sold, ne_of_lt w current sold, ne_of_lt w p.proposed_weight less)
