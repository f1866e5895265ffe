-- ===== src/Portfolio/Fill.antt =====
-- domain/portfolio/fill.py.
use aistock.Common.{
  ltb, Text, is_empty, ℕ_eq, text_eq, pair_eq, Option, Result, ok, value_error, ◌>>=◌, ◌>>◌,
  raise_if,
}
use aistock.Decimal.{Decimal, Number, whole, le, lt, decimal_arg}
use aistock.Domain.Ids.{Uuid, symbol, iso_currency, strip, lower}
use aistock.Domain.Time.{Datetime, Instant, require_aware}
use aistock.Portfolio.Order.{OrderSide}

-- `_decimal(name, value, positive=True)`
abbrev pub positive_arg : Number → Result Decimal
positive_arg n = do
  d ← decimal_arg "value must be a finite Decimal" n
  raise_if (le d (whole 0)) (value_error "value must be positive")
  ok d

pub record ExecutionBar : Type 0 where
  pub symbol : Text
  pub event_time : Instant
  pub available_at : Instant
  pub open_price : Decimal
  pub volume : Decimal
  pub content_hash : Text

pub record BarArgs : Type 0 where
  pub symbol : Text
  pub event_time : Datetime
  pub available_at : Datetime
  pub open_price : Number
  pub volume : Number
  pub content_hash : Text

-- The constructor of `ExecutionBar` with its `__post_init__`.
unfoldable pub execution_bar : BarArgs → Result ExecutionBar
execution_bar b = do
  s ← symbol b.symbol
  e ← require_aware b.event_time
  a ← require_aware b.available_at
  raise_if (ltb a e) (value_error "bar cannot be available before event time")
  p ← positive_arg b.open_price
  v ← decimal_arg "volume must be a finite Decimal" b.volume
  raise_if (lt v (whole 0)) (value_error "volume cannot be negative")
  let h = lower (strip b.content_hash)
  raise_if (is_empty h) (value_error "bar content_hash is required")
  ok (record {
    symbol = s;
    event_time = e;
    available_at = a;
    open_price = p;
    volume = v;
    content_hash = h;
  })

pub record PaperFill : Type 0 where
  pub id : Uuid
  pub order_id : Uuid
  pub portfolio_id : Uuid
  pub symbol : Text
  pub side : OrderSide
  pub quantity : Decimal
  pub price : Decimal
  pub fee : Decimal
  pub currency : Text
  pub filled_at : Instant
  pub source_bar_time : Instant
  pub execution_policy_version_id : Uuid
  pub reversal_of_id : Option Uuid

pub record FillArgs : Type 0 where
  pub id : Uuid
  pub order_id : Uuid
  pub portfolio_id : Uuid
  pub symbol : Text
  pub side : OrderSide
  pub quantity : Number
  pub price : Number
  pub fee : Number
  pub currency : Text
  pub filled_at : Datetime
  pub source_bar_time : Datetime
  pub execution_policy_version_id : Uuid
  pub reversal_of_id : Option Uuid

-- The constructor of `PaperFill` with its `__post_init__`.
unfoldable pub paper_fill : FillArgs → Result PaperFill
paper_fill f = do
  s ← symbol f.symbol
  q ← positive_arg f.quantity
  p ← positive_arg f.price
  fee ← decimal_arg "fee must be a finite Decimal" f.fee
  raise_if (lt fee (whole 0)) (value_error "fee cannot be negative")
  c ← iso_currency f.currency
  t ← require_aware f.filled_at
  b ← require_aware f.source_bar_time
  raise_if (ltb t b) (value_error "fill cannot precede its source bar")
  ok (record {
    id = f.id;
    order_id = f.order_id;
    portfolio_id = f.portfolio_id;
    symbol = s;
    side = f.side;
    quantity = q;
    price = p;
    fee = fee;
    currency = c;
    filled_at = t;
    source_bar_time = b;
    execution_policy_version_id = f.execution_policy_version_id;
    reversal_of_id = f.reversal_of_id;
  })
