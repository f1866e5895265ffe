-- ===== src/Portfolio/Execution/Authorized.antt =====
-- Only an order that its risk decision authorizes is filled.
use aistock.Common.{
  ◌≡◌, ◌≢◌, ◌⊎◌, inl, inr, refl, text_beq_iff, Option-cases, Bool, true, false, List, ◌∷◌, arith,
  ℕ_eq, text_eq, pair_eq, Option, some, ok,
}
use aistock.Decimal.{whole, lt, eq}
use aistock.Domain.Ids.{Uuid}
use aistock.Portfolio.Order.{OrderSide, buy, sell, OrderIntent, side_eq}
use aistock.Portfolio.Fill.{ExecutionBar, PaperFill}
use aistock.Portfolio.Ledger.{bool_eq}
use aistock.Portfolio.Position.{unique_fills}
use aistock.Portfolio.Risk.Decision.{RiskDecision, rejected}
use aistock.Portfolio.Execution.{
  ExecutionPolicy, FillIdentity, exceeds_authorization, execute, previously_filled,
}
use aistock.Portfolio.Execution.Source.{execute_inversion}

-- The decision that authorizes an order.
pub record Authorizes (d : RiskDecision) (o : OrderIntent) : Type 0 where
  pub named : o.risk_decision_id ≡ some d.id
  pub kept : d.status ≢ rejected
  pub of_symbol : o.symbol ≡ d.symbol
  pub of_portfolio : o.portfolio_id ≡ d.portfolio_id
  pub same_time : o.decision_time ≡ d.decided_at
  pub full_quantity : eq o.quantity d.max_order_quantity ≡ true
  pub right_side :
      (o.side ≡ buy) × (lt (whole 0) d.approved_delta ≡ true)
      ⊎ (o.side ≡ sell) × (lt (whole 0) d.approved_delta ≡ false)

matching_side :
    (s : OrderSide) (b : Bool)
    → bool_eq (side_eq s buy) b ≡ true
    → (s ≡ buy) × (b ≡ true) ⊎ (s ≡ sell) × (b ≡ false)
matching_side buy b h = inl (refl, h)
matching_side sell b h = inr (refl, ground arith)

authorized :
    (o : OrderIntent) (d : RiskDecision) → exceeds_authorization o (some d) ≡ false → Authorizes d o
unfolding exceeds_authorization
authorized o d h = record {
  named = ground arith;
  kept = ground arith;
  of_symbol = ground (arith, text_beq_iff o.symbol d.symbol);
  of_portfolio = ground arith;
  same_time = ground arith;
  full_quantity = ground arith;
  right_side = matching_side o.side (lt (whole 0) d.approved_delta) (ground arith);
}

-- A run that fills anything was given a risk decision that is not rejected and that authorizes just
-- this order: its id, symbol, portfolio, time, whole quantity and side.
pub execute-Authorizes :
    (policy : ExecutionPolicy) (uuid5 : FillIdentity → Uuid) (o : OrderIntent)
    (bars : List ExecutionBar) (prior : List PaperFill) (decision : Option RiskDecision)
    (f : PaperFill) (fills : List PaperFill)
    → execute policy uuid5 o bars prior decision ≡ ok (f ∷ fills)
    → (o.risk_approved ≡ true)
      × (o.execution_policy_version_id ≡ policy.id)
      × (lt o.quantity (previously_filled (unique_fills prior)) ≡ false)
      × ((d : RiskDecision) × (decision ≡ some d) × Authorizes d o)
unfolding exceeds_authorization
execute-Authorizes policy uuid5 o bars prior decision f fills e =
    elim (execute_inversion policy uuid5 o bars prior decision (f ∷ fills) e) [
      | inl (_, nothing) ↦ absurd (cc)
      | inr (on, allowed, same, fits, _) ↦ elim (Option-cases decision) [
        | inl missing ↦ absurd (ground arith)
        | inr (d, given) ↦
            (on, (ℕ_eq.beq_iff _ _).0 same, fits, (d, given, authorized o d (rw given at allowed)))
      ]
    ]
