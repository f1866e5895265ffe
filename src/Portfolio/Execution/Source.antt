-- ===== src/Portfolio/Execution/Source.antt =====
-- Where every fill comes from: the order, the policy and one bar that opened after the decision.
use aistock.Common.{
  ◌≤◌, ◌<◌, ◌≡◌, ◌≢◌, ◌⊎◌, inl, inr, refl, subst, ap, sym, Result-cases, filter-All, All-Memᴰ, ◌∙◌,
  Option-cases, true, false, List, [], ◌∷◌, arith, filter, ◌==◌, ℕ_eq, text_eq, pair_eq, Option,
  none, some, ok, Bool-cases, All, sort_by-All,
}
use aistock.Decimal.{Decimal, whole, add, sub, mul, div, max_of, le, lt}
use aistock.Domain.Ids.{Uuid}
use aistock.Dict.{values}
use mathlib.Core.List.{Memᴰ}
use aistock.Decimal.Order.{min_of-le_left, min_of-le_right}
use aistock.Portfolio.Order.{OrderIntent, OrderSide, buy, sell}
use aistock.Portfolio.Fill.{ExecutionBar, PaperFill, paper_fill}
use aistock.Portfolio.Position.{unique_fills}
use aistock.Portfolio.Valuation.{revisions_from, Revisions}
use aistock.Portfolio.Valuation.Revisions.{revisions_from-All}
use aistock.Portfolio.Risk.Decision.{RiskDecision}
use aistock.Portfolio.Execution.{
  ExecutionPolicy, FillIdentity, is_eligible, is_consumed, usable, fill_price, fill_fee, bar_fill,
  fill_from, eligible_bars, execute, bar_lt, previously_filled, exceeds_authorization,
}

-- Half the spread and the slippage, as a part of the price.
abbrev pub cost_part : ExecutionPolicy → Decimal
cost_part policy = div (add (div policy.spread_bps (whole 2)) policy.slippage_bps) (whole 10000)

-- The price of the side: the opening price, raised by that part for a purchase, lowered for a sale.
abbrev pub IsPriceOf : ExecutionPolicy → ExecutionBar → OrderSide → Decimal → Type 0
IsPriceOf policy bar buy price = price ≡ mul bar.open_price (add (whole 1) (cost_part policy))
IsPriceOf policy bar sell price = price ≡ mul bar.open_price (sub (whole 1) (cost_part policy))

fill_price-IsPriceOf :
    (policy : ExecutionPolicy) (bar : ExecutionBar) (side : OrderSide)
    → IsPriceOf policy bar side (fill_price policy side bar)
unfolding fill_price
fill_price-IsPriceOf policy bar buy = refl
fill_price-IsPriceOf policy bar sell = refl

fill_fee_lem :
    (policy : ExecutionPolicy) (q : Decimal)
    → fill_fee policy q ≡ max_of policy.minimum_fee (mul policy.fee_per_share q)
unfolding fill_fee
fill_fee_lem policy q = refl

-- The fill `f` of the order `o` takes `bar`, one of the bars that were given.
pub record IsFillOf (policy : ExecutionPolicy) (o : OrderIntent) (bars : List ExecutionBar)
    (prior : List PaperFill) (f : PaperFill) : Type 0 where
  pub bar : ExecutionBar
  pub given : Memᴰ bar bars
  pub same_symbol : (bar.symbol == o.symbol) ≡ true
  pub after_decision : o.decision_time < bar.event_time
  pub at_open : f.source_bar_time ≡ bar.event_time
  pub when_available : f.filled_at ≡ bar.available_at
  pub ordered : f.source_bar_time ≤ f.filled_at
  pub fresh : is_consumed prior f.source_bar_time f.filled_at ≡ false
  pub of_order : f.order_id ≡ o.id
  pub of_portfolio : f.portfolio_id ≡ o.portfolio_id
  pub of_side : f.side ≡ o.side
  pub of_policy : f.execution_policy_version_id ≡ policy.id
  pub positive : le f.quantity (whole 0) ≡ false
  pub within_volume : le f.quantity (mul bar.volume policy.volume_participation) ≡ true
  pub priced : IsPriceOf policy bar o.side f.price
  pub charged : f.fee ≡ max_of policy.minimum_fee (mul policy.fee_per_share f.quantity)

abbrev IsSource : OrderIntent → List ExecutionBar → ExecutionBar → Type 0
IsSource o bars bar = Memᴰ bar bars × (is_eligible o bar ≡ true)

-- Each fill takes at most what is left of the order, as the loop subtracts it.
abbrev pub Spends : Decimal → List PaperFill → Type 0
Spends r [] = Unit
Spends r (f ∷ fs) = (le f.quantity r ≡ true) × Spends (sub r f.quantity) fs

module _ (policy : ExecutionPolicy) (uuid5 : FillIdentity → Uuid) (o : OrderIntent)
    (bars : List ExecutionBar) (prior : List PaperFill) where
  usable-some :
      (r : Decimal) (bar : ExecutionBar) (q : Decimal)
      → usable policy prior r bar ≡ some q
      → (le q r ≡ true)
        × (le q (mul bar.volume policy.volume_participation) ≡ true)
        × (le q (whole 0) ≡ false)
        × (is_consumed prior bar.event_time bar.available_at ≡ false)
  unfolding usable
  usable-some r bar q h =
      let v = mul bar.volume policy.volume_participation in
      ground (arith, min_of-le_left r v, min_of-le_right r v)

  bar_fill_fields :
      (bar : ExecutionBar) (q : Decimal) (f : PaperFill)
      → bar_fill policy uuid5 o prior q bar ≡ ok f
      → (f.source_bar_time ≡ bar.event_time)
        × (f.filled_at ≡ bar.available_at)
        × (f.source_bar_time ≤ f.filled_at)
        × (f.order_id ≡ o.id)
        × (f.portfolio_id ≡ o.portfolio_id)
        × (f.side ≡ o.side)
        × (f.execution_policy_version_id ≡ policy.id)
        × (f.quantity ≡ q)
        × (f.price ≡ fill_price policy o.side bar)
        × (f.fee ≡ fill_fee policy q)
  unfolding bar_fill paper_fill
  bar_fill_fields bar q f h = ground arith

  bar_fill-IsFillOf :
      (r : Decimal) (bar : ExecutionBar) (q : Decimal) (f : PaperFill)
      → IsSource o bars bar
      → usable policy prior r bar ≡ some q
      → bar_fill policy uuid5 o prior q bar ≡ ok f
      → IsFillOf policy o bars prior f × (f.quantity ≡ q)
  bar_fill-IsFillOf r bar q f (m, e) u h =
      let (at, when, order, of_order, portfolio, side, of_policy, takes, price, fee) =
        bar_fill_fields bar q f h in
      let (_, volume, some_left, new) = usable-some r bar q u in
      (
        record {
          bar = bar;
          given = m;
          same_symbol = ground arith;
          after_decision = ground arith;
          at_open = at;
          when_available = when;
          ordered = order;
          fresh = ground arith;
          of_order = of_order;
          of_portfolio = portfolio;
          of_side = side;
          of_policy = of_policy;
          positive = ground arith;
          within_volume = ground arith;
          priced =
              subst (IsPriceOf policy bar o.side) (sym price)
                (fill_price-IsPriceOf policy bar o.side);
          charged =
              fee
              ∙ fill_fee_lem policy q
              ∙ ap (λ (x : Decimal). max_of policy.minimum_fee (mul policy.fee_per_share x))
                  (sym takes);
        },
        takes,
      )

  skip :
      (r : Decimal) (bar : ExecutionBar) (bs : List ExecutionBar)
      → usable policy prior r bar ≡ none
      → fill_from policy uuid5 o prior r (bar ∷ bs) ≡ fill_from policy uuid5 o prior r bs
  unfolding fill_from
  skip r bar bs e = ground arith

  -- A bar that is used yields the first fill; the others come from the bars behind it.
  take_nil :
      (r : Decimal) (bar : ExecutionBar) (bs : List ExecutionBar) (q : Decimal)
      → usable policy prior r bar ≡ some q
      → fill_from policy uuid5 o prior r (bar ∷ bs) ≢ ok []
  unfolding fill_from
  take_nil r bar bs q e h = ground arith

  take_cons :
      (r : Decimal) (bar : ExecutionBar) (bs : List ExecutionBar) (q : Decimal) (f : PaperFill)
      (fs : List PaperFill)
      → usable policy prior r bar ≡ some q
      → fill_from policy uuid5 o prior r (bar ∷ bs) ≡ ok (f ∷ fs)
      → (bar_fill policy uuid5 o prior q bar ≡ ok f)
        × ((fs ≡ []) ⊎ (fill_from policy uuid5 o prior (sub r q) bs ≡ ok fs))
  unfolding fill_from
  take_cons r bar bs q f fs e h = ground arith

  abbrev Tracked : Decimal → List PaperFill → Type 0
  Tracked r fs = All (IsFillOf policy o bars prior) fs × Spends r fs

  taken :
      (r : Decimal) (bar : ExecutionBar) (bs : List ExecutionBar) (fs : List PaperFill)
      (q : Decimal)
      → IsSource o bars bar
      → usable policy prior r bar ≡ some q
      → fill_from policy uuid5 o prior r (bar ∷ bs) ≡ ok fs
      → ((r' : Decimal) (rest : List PaperFill)
          → fill_from policy uuid5 o prior r' bs ≡ ok rest
          → Tracked r' rest)
      → Tracked r fs
  taken r bar bs [] q m e h ih = absurd (take_nil r bar bs q e h)
  taken r bar bs (f ∷ fs) q m e h ih =
      let (made, behind) = take_cons r bar bs q f fs e h in
      let (is_fill, same) = bar_fill-IsFillOf r bar q f m e made in
      let fits : le f.quantity r ≡ true = rw same ((usable-some r bar q e).0) in
      elim behind [
        | inl none_left ↦ rw none_left ((is_fill, tt), (fits, tt))
        | inr more ↦
            let (all_rest, spends) = ih (sub r q) fs more in
            ((is_fill, all_rest), (fits, rw same spends))
      ]

  fill_from-Tracked :
      (r : Decimal) (bs : List ExecutionBar) (fs : List PaperFill)
      → All (IsSource o bars) bs
      → fill_from policy uuid5 o prior r bs ≡ ok fs
      → Tracked r fs
  unfolding fill_from
  fill_from-Tracked r [] [] m h = (tt, tt)
  fill_from-Tracked r [] (f ∷ fs) m h = cc
  fill_from-Tracked r (bar ∷ bs) fs m h = elim (Option-cases (usable policy prior r bar)) [
    | inl e ↦ fill_from-Tracked r bs fs m.1 (sym (skip r bar bs e) ∙ h)
    | inr (q, e) ↦ taken r bar bs fs q m.0 e h λ r' rest. fill_from-Tracked r' bs rest m.1
  ]

IsSource-eligible :
    (o : OrderIntent) (bars : List ExecutionBar) (bs : List ExecutionBar)
    → All (λ b. Memᴰ b bars) bs
    → All (IsSource o bars) (eligible_bars o bs)
unfolding eligible_bars
IsSource-eligible o bars bs h =
    sort_by-All (IsSource o bars) bar_lt (filter (is_eligible o) bs)
      (filter-All (λ b. Memᴰ b bars) (is_eligible o) bs h)

-- The loop of `execute` ran over the eligible revisions.
abbrev pub Ran :
    ExecutionPolicy
    → (FillIdentity → Uuid)
    → OrderIntent
    → List ExecutionBar
    → List PaperFill
    → List PaperFill
    → Type 0
Ran policy uuid5 o bars prior fills =
    (revisions : Revisions) × (revisions_from [] bars ≡ ok revisions)
    × (fill_from policy uuid5 o (unique_fills prior)
          (sub o.quantity (previously_filled (unique_fills prior)))
          (eligible_bars o (values revisions))
        ≡ ok fills)

-- A run that returns was not approved and fills nothing, or passed every test.
pub execute_inversion :
    (policy : ExecutionPolicy) (uuid5 : FillIdentity → Uuid) (o : OrderIntent)
    (bars : List ExecutionBar) (prior : List PaperFill) (d : Option RiskDecision)
    (fills : List PaperFill)
    → execute policy uuid5 o bars prior d ≡ ok fills
    → (o.risk_approved ≡ false) × (fills ≡ [])
      ⊎ (o.risk_approved ≡ true)
        × (exceeds_authorization o d ≡ false)
        × ((o.execution_policy_version_id == policy.id) ≡ true)
        × (lt o.quantity (previously_filled (unique_fills prior)) ≡ false)
        × Ran policy uuid5 o bars prior fills
unfolding execute
execute_inversion policy uuid5 o bars prior d fills e = elim (Bool-cases o.risk_approved) [
  | inl yes_approved ↦ inr (elim (Result-cases (revisions_from [] bars)) [
    | inl (revisions, found) ↦
        (yes_approved, ground arith, ground arith, ground arith, (revisions, found, ground arith))
    | inr (x, failed) ↦ absurd (ground arith)
  ])
  | inr unapproved ↦ inl (unapproved, ground arith)
]

-- Every fill that the simulator returns belongs to the order and to the policy, and takes one of the
-- given bars of the symbol that opened after the decision: at most the bar's share of volume, when the
-- bar was available, and no bar that a prior fill took. A purchase pays the opening price raised by
-- half the spread and the slippage, a sale gets the price lowered by them, and the fee is the larger
-- of the minimum fee and the fee for the shares. In turn each takes at most what prior and earlier fills leave of the order's quantity.
pub execute-IsFillOf :
    (policy : ExecutionPolicy) (uuid5 : FillIdentity → Uuid) (o : OrderIntent)
    (bars : List ExecutionBar) (prior : List PaperFill) (d : Option RiskDecision)
    (fills : List PaperFill)
    → execute policy uuid5 o bars prior d ≡ ok fills
    → All (IsFillOf policy o bars (unique_fills prior)) fills
      × Spends (sub o.quantity (previously_filled (unique_fills prior))) fills
execute-IsFillOf policy uuid5 o bars prior d fills e =
    elim (execute_inversion policy uuid5 o bars prior d fills e) [
      | inl (_, nothing) ↦ rw nothing (tt, tt)
      | inr (_, _, _, _, (revisions, found, ran)) ↦
          fill_from-Tracked policy uuid5 o bars (unique_fills prior) _
            (eligible_bars o (values revisions)) fills
            (IsSource-eligible o bars (values revisions)
              (revisions_from-All (λ b. Memᴰ b bars) [] bars revisions tt (All-Memᴰ bars) found))
            ran
    ]
