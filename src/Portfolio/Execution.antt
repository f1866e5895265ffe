-- ===== src/Portfolio/Execution.antt =====
-- application/portfolio/execution.py: the deterministic simulator of paper fills. The hash `uuid5` of
-- the identity text is a parameter, a function of the values that the text is joined from.
pub mod Source
pub mod Authorized
pub mod Tests
use aistock.Common.{
  ℕ, zero, suc, ◌+◌, ◌-◌, ◌≤◌, ◌<◌, ◌≡◌, ◌≢◌, ◌⊎◌, inl, inr, refl, Bool, true, false, ◌&&◌, ◌||◌,
  not, List, [], ◌∷◌, ◌++◌, map, arith, leb, ltb, nat_eq, if◌then◌else◌, Text, length, all, any,
  filter, is_empty, Eq, ◌==◌, ℕ_eq, text_eq, pair_eq, Option, none, some, Result, ok, raise,
  value_error, type_error, key_error, ◌>>=◌, ◌>>◌, raise_if, Bool-cases, sort_by, All, sort_by-All,
  codes, All-append,
}
use aistock.Decimal.{
  Decimal, Number, finite, not_finite, not_decimal, whole, add, sub, mul, div, neg, abs, le, lt, eq,
  min_of, max_of, sum_from, decimal_arg,
}
use aistock.Domain.Ids.{Uuid, symbol, iso_currency, strip, lower, is_blank}
use aistock.Domain.Time.{Datetime, naive, aware, Instant, require_aware}
use aistock.Dict.{Dict, lookup, contains, get_or, insert, values, unique_by, unique_by-All}
use aistock.Portfolio.Order.{OrderSide, buy, sell, OrderIntent, is_none, side_eq}
use aistock.Portfolio.Fill.{ExecutionBar, PaperFill, FillArgs, paper_fill}
use aistock.Portfolio.Ledger.{bool_eq}
use aistock.Portfolio.Position.{unique_fills}
use aistock.Portfolio.Valuation.{revisions_from}
use aistock.Portfolio.Risk.Inputs.{nonneg_arg}
use aistock.Portfolio.Risk.Decision.{RiskDecision, is_approved}

pub record ExecutionPolicy : Type 0 where
  pub id : Uuid
  pub version : Text
  pub spread_bps : Decimal
  pub slippage_bps : Decimal
  pub fee_per_share : Decimal
  pub minimum_fee : Decimal
  pub volume_participation : Decimal

pub record ExecutionPolicyArgs : Type 0 where
  pub id : Uuid
  pub version : Text
  pub spread_bps : Number
  pub slippage_bps : Number
  pub fee_per_share : Number
  pub minimum_fee : Number
  pub volume_participation : Number

-- The constructor with its `__post_init__`.
unfoldable pub execution_policy : ExecutionPolicyArgs → Result ExecutionPolicy
execution_policy p = do
  spread ← nonneg_arg p.spread_bps
  slippage ← nonneg_arg p.slippage_bps
  per_share ← nonneg_arg p.fee_per_share
  minimum ← nonneg_arg p.minimum_fee
  participation ← nonneg_arg p.volume_participation
  raise_if (le participation (whole 0) || lt (whole 1) participation)
      (value_error "volume_participation must be in (0, 1]")
  raise_if (is_empty p.version) (value_error "execution policy version is required")
  ok (record {
    id = p.id;
    version = p.version;
    spread_bps = spread;
    slippage_bps = slippage;
    fee_per_share = per_share;
    minimum_fee = minimum;
    volume_participation = participation;
  })

-- What the identity of a fill is made of.
pub record FillIdentity : Type 0 where
  pub order_id : Uuid
  pub event_time : Instant
  pub available_at : Instant
  pub content_hash : Text
  pub quantity : Decimal
  pub policy_id : Uuid

-- The test that refuses an order without its risk decision.
unfoldable pub exceeds_authorization : OrderIntent → Option RiskDecision → Bool
exceeds_authorization o none = true
exceeds_authorization o (some d) =
    elim o.risk_decision_id [ none ↦ true | some r ↦ not (r == d.id) ]
    || (not (is_approved d)
        || (not (o.symbol == d.symbol)
            || (not (o.portfolio_id == d.portfolio_id)
                || (not (o.decision_time == d.decided_at)
                    || (not (eq o.quantity d.max_order_quantity)
                        || not (bool_eq (side_eq o.side buy) (lt (whole 0) d.approved_delta)))))))

-- `(item.event_time, item.available_at)` as a sort key.
abbrev pub bar_lt : ExecutionBar → ExecutionBar → Bool
bar_lt a b =
    ltb a.event_time b.event_time
    || nat_eq a.event_time b.event_time && ltb a.available_at b.available_at

abbrev pub is_eligible : OrderIntent → ExecutionBar → Bool
is_eligible o bar = bar.symbol == o.symbol && ltb o.decision_time bar.event_time

unfoldable pub eligible_bars : OrderIntent → List ExecutionBar → List ExecutionBar
eligible_bars o bars = sort_by bar_lt (filter (is_eligible o) bars)

-- A prior fill that does not belong to the order.
abbrev pub is_foreign : OrderIntent → ExecutionPolicy → PaperFill → Bool
is_foreign o policy f =
    not (f.order_id == o.id)
    || (not (f.portfolio_id == o.portfolio_id)
        || (not (f.symbol == o.symbol)
            || (not (f.execution_policy_version_id == policy.id)
                || not (is_none f.reversal_of_id))))

-- `(item.event_time, item.available_at) in consumed_revisions`
abbrev pub is_consumed : List PaperFill → Instant → Instant → Bool
is_consumed prior event_time available_at =
    any (λ (f : PaperFill). nat_eq f.source_bar_time event_time && nat_eq f.filled_at available_at)
      prior

-- The quantity that a bar can fill, if any.
unfoldable pub usable : ExecutionPolicy → List PaperFill → Decimal → ExecutionBar → Option Decimal
usable policy prior remaining bar =
    let quantity = min_of remaining (mul bar.volume policy.volume_participation) in
    if is_consumed prior bar.event_time bar.available_at
    then none
    else if le quantity (whole 0)
    then none
    else some quantity

unfoldable pub fill_price : ExecutionPolicy → OrderSide → ExecutionBar → Decimal
fill_price policy side bar =
    let adjustment =
      div (add (div policy.spread_bps (whole 2)) policy.slippage_bps) (whole 10000) in
    mul bar.open_price
      (if side_eq side buy then add (whole 1) adjustment else sub (whole 1) adjustment)

unfoldable pub fill_fee : ExecutionPolicy → Decimal → Decimal
fill_fee policy quantity = max_of policy.minimum_fee (mul policy.fee_per_share quantity)

module _ (policy : ExecutionPolicy) (uuid5 : FillIdentity → Uuid) (o : OrderIntent)
    (prior : List PaperFill) where
  unfoldable pub bar_fill : Decimal → ExecutionBar → Result PaperFill
  bar_fill quantity bar = paper_fill (record {
    id = uuid5 (record {
      order_id = o.id;
      event_time = bar.event_time;
      available_at = bar.available_at;
      content_hash = bar.content_hash;
      quantity = quantity;
      policy_id = policy.id;
    });
    order_id = o.id;
    portfolio_id = o.portfolio_id;
    symbol = o.symbol;
    side = o.side;
    quantity = finite quantity;
    price = finite (fill_price policy o.side bar);
    fee = finite (fill_fee policy quantity);
    currency = codes "USD";
    filled_at = aware bar.available_at;
    source_bar_time = aware bar.event_time;
    execution_policy_version_id = policy.id;
    reversal_of_id = none;
  })

  -- The loop over the eligible bars; it stops when nothing remains.
  unfoldable pub fill_from : Decimal → List ExecutionBar → Result (List PaperFill)
  fill_from remaining [] = ok []
  fill_from remaining (bar ∷ bars) = elim (usable policy prior remaining bar) [
    | none ↦ fill_from remaining bars
    | some quantity ↦ do
      fill ← bar_fill quantity bar
      rest ← elim (eq (sub remaining quantity) (whole 0)) [
        | true ↦ ok []
        | false ↦ fill_from (sub remaining quantity) bars
      ]
      ok (fill ∷ rest)
  ]

-- The quantity of the prior fills.
unfoldable pub previously_filled : List PaperFill → Decimal
previously_filled prior = sum_from (whole 0) (map (λ (f : PaperFill). f.quantity) prior)

-- `PaperExecutionSimulator.execute`
unfoldable pub execute :
    ExecutionPolicy
    → (FillIdentity → Uuid)
    → OrderIntent
    → List ExecutionBar
    → List PaperFill
    → Option RiskDecision
    → Result (List PaperFill)
execute policy uuid5 o bars prior_fills decision = if not o.risk_approved then ok [] else do
  raise_if (exceeds_authorization o decision)
      (value_error "order exceeds its deterministic risk authorization")
  raise_if (not (o.execution_policy_version_id == policy.id))
      (value_error "order and execution policy version do not match")
  revisions ← revisions_from [] bars
  let prior = unique_fills prior_fills
  raise_if (any (is_foreign o policy) prior) (value_error "prior fills do not belong to the order")
  raise_if (lt o.quantity (previously_filled prior))
      (value_error "prior fills exceed order quantity")
  fill_from policy uuid5 o prior (sub o.quantity (previously_filled prior))
      (eligible_bars o (values revisions))
