-- ===== src/Portfolio/Risk/Decision.antt =====
-- application/portfolio/risk.py: `RiskDecision` and what its constructor refuses.
use aistock.Common.{
  ℕ, Bool, true, false, ◌&&◌, ◌||◌, not, List, nat_eq, if◌then◌else◌, Text, any, is_empty, ℕ_eq,
  text_eq, pair_eq, Option, none, some, Result, ok, raise, value_error, ◌>>=◌, ◌>>◌, raise_if,
}
use aistock.Decimal.{Decimal, whole, sub, mul, div, abs, le, lt, eq}
use aistock.Domain.Ids.{Uuid, symbol}
use aistock.Domain.Time.{Instant}
use aistock.Portfolio.Order.{is_none}

pub data RiskDecisionStatus : Type 0 where
  approved clipped rejected : RiskDecisionStatus

pub data RiskReason : Type 0 where
  position_limit gross_exposure cash_reserve daily_turnover : RiskReason
  stale_research missing_price earnings_blackout drawdown_limit : RiskReason
  duplicate_intent incomplete_evidence market_data_entitlement : RiskReason

-- The place of a reason in the enumeration, by which reasons are compared.
abbrev rank : RiskReason → ℕ
rank position_limit = 0
rank gross_exposure = 1
rank cash_reserve = 2
rank daily_turnover = 3
rank stale_research = 4
rank missing_price = 5
rank earnings_blackout = 6
rank drawdown_limit = 7
rank duplicate_intent = 8
rank incomplete_evidence = 9
rank market_data_entitlement = 10

abbrev pub reason_beq : RiskReason → RiskReason → Bool
reason_beq a b = nat_eq (rank a) (rank b)

-- `reason in reasons`
abbrev pub has_reason : RiskReason → List RiskReason → Bool
has_reason r rs = any (reason_beq r) rs

pub record RiskDecision : Type 0 where
  pub id : Uuid
  pub proposal_id : Uuid
  pub research_decision_id : Option Uuid
  pub symbol : Text
  pub status : RiskDecisionStatus
  pub requested_weight : Decimal
  pub approved_weight : Decimal
  pub reason_codes : List RiskReason
  pub risk_policy_version_id : Uuid
  pub decided_at : Instant
  pub current_weight : Decimal
  pub approved_delta : Decimal
  pub reference_nav : Option Decimal
  pub reference_price : Option Decimal
  pub max_order_quantity : Decimal
  pub market_context_snapshot_id : Option Uuid
  pub portfolio_id : Uuid

abbrev pub is_rejected : RiskDecisionStatus → Bool
is_rejected rejected = true
is_rejected _ = false

-- The property `approved`.
abbrev pub is_approved : RiskDecision → Bool
is_approved d = not (is_rejected d.status)

-- `value is not None and value <= ZERO`
abbrev pub given_nonpositive : Option Decimal → Bool
given_nonpositive none = false
given_nonpositive (some d) = le d (whole 0)

-- The three tests of a status against the weights and the reasons.
abbrev pub check_status :
    RiskDecisionStatus → Decimal → Decimal → List RiskReason → Result (Unit {0})
check_status approved requested weight reasons =
    raise_if (not (eq weight requested) || not (is_empty reasons))
      (value_error "approved decision must preserve weight without reason codes")
check_status clipped requested weight reasons =
    raise_if (eq weight requested || is_empty reasons)
      (value_error "clipped decision must change weight and record a reason")
check_status rejected requested weight reasons =
    raise_if (not (eq weight (whole 0)) || is_empty reasons)
      (value_error "rejected decision must have zero weight and record a reason")

-- `abs(delta) * reference_nav / reference_price`
abbrev pub order_quantity : Decimal → Decimal → Decimal → Decimal
order_quantity delta nav price = div (mul (abs delta) nav) price

abbrev pub check_economics : Decimal → Decimal → Option Decimal → Option Decimal → Result (Unit {0})
check_economics delta maximum (some nav) (some price) =
    raise_if (not (eq maximum (order_quantity delta nav price)))
      (value_error "maximum order quantity must match approved economics")
check_economics delta maximum (some nav) none =
    raise (value_error "approved order requires reference NAV and price")
check_economics delta maximum none price =
    raise (value_error "approved order requires reference NAV and price")

-- The last chain of tests: what quantity the decision may authorize.
abbrev pub check_quantity :
    RiskDecisionStatus → Decimal → Decimal → Option Decimal → Option Decimal → Result (Unit {0})
check_quantity status delta maximum nav price =
    if is_rejected status
    then raise_if (not (eq maximum (whole 0)))
        (value_error "rejected decision cannot authorize order quantity")
    else if eq delta (whole 0)
    then raise_if (not (eq maximum (whole 0)))
        (value_error "unchanged target cannot authorize order quantity")
    else check_economics delta maximum nav price

-- The constructor with its `__post_init__`, on arguments that are finite decimals and aware times:
-- the gateway passes no others.
unfoldable pub risk_decision : RiskDecision → Result RiskDecision
risk_decision d = do
  s ← symbol d.symbol
  raise_if
      (lt d.requested_weight (whole 0)
        || (lt d.approved_weight (whole 0)
            || (lt d.current_weight (whole 0) || lt d.max_order_quantity (whole 0))))
      (value_error "risk decision weights must be non-negative")
  raise_if (given_nonpositive d.reference_nav) (value_error "reference NAV must be positive")
  raise_if (given_nonpositive d.reference_price) (value_error "reference price must be positive")
  raise_if (not (eq d.approved_delta (sub d.approved_weight d.current_weight)))
      (value_error "approved delta must match current and approved weights")
  raise_if
      (is_none d.market_context_snapshot_id
        && not (is_rejected d.status && has_reason market_data_entitlement d.reason_codes))
      (value_error "market context is required unless market-data entitlement rejects the decision")
  check_status d.status d.requested_weight d.approved_weight d.reason_codes
  check_quantity d.status d.approved_delta d.max_order_quantity d.reference_nav d.reference_price
  ok (record d { symbol = s })
