-- ===== src/Portfolio/Order.antt =====
-- domain/portfolio/order.py.
use aistock.Common.{
  Bool, true, false, Text, ℕ_eq, text_eq, pair_eq, Option, none, some, Result, ok, value_error,
  ◌>>=◌, ◌>>◌, raise_if,
}
use aistock.Decimal.{Decimal, Number, whole, le, decimal_arg}
use aistock.Domain.Ids.{Uuid, symbol}
use aistock.Domain.Time.{Datetime, Instant, require_aware}

pub data OrderSide : Type 0 where
  buy sell : OrderSide

abbrev pub side_eq : OrderSide → OrderSide → Bool
side_eq buy buy = true
side_eq sell sell = true
side_eq buy sell = false
side_eq sell buy = false

pub record OrderIntent : Type 0 where
  pub id : Uuid
  pub portfolio_id : Uuid
  pub symbol : Text
  pub side : OrderSide
  pub quantity : Decimal
  pub decision_time : Instant
  pub execution_policy_version_id : Uuid
  pub risk_approved : Bool
  pub risk_decision_id : Option Uuid

-- What a caller passes to the constructor.
pub record OrderArgs : Type 0 where
  pub id : Uuid
  pub portfolio_id : Uuid
  pub symbol : Text
  pub side : OrderSide
  pub quantity : Number
  pub decision_time : Datetime
  pub execution_policy_version_id : Uuid
  pub risk_approved : Bool
  pub risk_decision_id : Option Uuid

abbrev pub is_none {ℓ} : {A : Type ℓ} → Option A → Bool
is_none none = true
is_none (some a) = false

-- The constructor with its `__post_init__`.
unfoldable pub order_intent : OrderArgs → Result OrderIntent
order_intent o = do
  s ← symbol o.symbol
  q ← decimal_arg "quantity must be finite and positive" o.quantity
  raise_if (le q (whole 0)) (value_error "quantity must be finite and positive")
  raise_if (is_none o.risk_decision_id)
      (value_error "order intent requires a deterministic risk decision")
  t ← require_aware o.decision_time
  ok (record {
    id = o.id;
    portfolio_id = o.portfolio_id;
    symbol = s;
    side = o.side;
    quantity = q;
    decision_time = t;
    execution_policy_version_id = o.execution_policy_version_id;
    risk_approved = o.risk_approved;
    risk_decision_id = o.risk_decision_id;
  })
