-- ===== src/Portfolio/Execution/Tests.antt =====
-- A buy order for ten shares over two bars.
use aistock.Common.{ℕ, ◌≡◌, refl, true, false, List, [], ◌∷◌, codes, All, ok, none, some, or_else}
use aistock.Int.{pos}
use aistock.Decimal.{Decimal, whole, lt, le, eq, add, sub, mul, div, cross}
use aistock.Domain.Ids.{Uuid, symbol, matches_symbol, is_symbol_char, iso_currency, is_letter}
use aistock.Portfolio.Order.{OrderIntent, buy}
use aistock.Portfolio.Fill.{ExecutionBar, PaperFill, paper_fill}
use aistock.Portfolio.Position.{unique_fills}
use aistock.Portfolio.Valuation.{revisions_from, revise}
use aistock.Portfolio.Risk.Decision.{RiskDecision, approved}
use aistock.Portfolio.Execution.{
  ExecutionPolicy, FillIdentity, execute, exceeds_authorization, previously_filled, fill_from,
  bar_fill, usable, fill_price, fill_fee, eligible_bars,
}
use aistock.Portfolio.Execution.Source.{IsFillOf, Spends, execute-IsFillOf}
use aistock.Portfolio.Execution.Authorized.{Authorizes, execute-Authorizes}

abbrev pub policy : ExecutionPolicy
policy = record {
  id = 5;
  version = codes "execution-v1";
  spread_bps = whole 10;
  slippage_bps = whole 5;
  fee_per_share = record { coeff = pos 5; scale = 3 };
  minimum_fee = whole 1;
  volume_participation = record { coeff = pos 1; scale = 1 };
}

abbrev pub order : OrderIntent
order = record {
  id = 11;
  portfolio_id = 7;
  symbol = codes "MU";
  side = buy;
  quantity = whole 10;
  decision_time = 1000;
  execution_policy_version_id = 5;
  risk_approved = true;
  risk_decision_id = some 21;
}

abbrev risk : RiskDecision
risk = record {
  id = 21;
  proposal_id = 3;
  research_decision_id = none;
  symbol = codes "MU";
  status = approved;
  requested_weight = record { coeff = pos 1; scale = 2 };
  approved_weight = record { coeff = pos 1; scale = 2 };
  reason_codes = [];
  risk_policy_version_id = 1;
  decided_at = 1000;
  current_weight = whole 0;
  approved_delta = record { coeff = pos 1; scale = 2 };
  reference_nav = some (whole 100000);
  reference_price = some (whole 100);
  max_order_quantity = whole 10;
  market_context_snapshot_id = some 8;
  portfolio_id = 7;
}

abbrev pub bar : ℕ → ℕ → Decimal → ExecutionBar
bar t volume price = record {
  symbol = codes "MU";
  event_time = t;
  available_at = t;
  open_price = price;
  volume = whole volume;
  content_hash = codes "h";
}

abbrev bars : List ExecutionBar
bars = bar 3000 200 (whole 102) ∷ bar 2000 60 (whole 101) ∷ bar 1000 500 (whole 99) ∷ []

abbrev hash : FillIdentity → Uuid
hash i = i.event_time

abbrev fills : List PaperFill
fills = or_else [] (execute policy hash order bars [] (some risk))

filled : execute policy hash order bars [] (some risk) ≡ ok fills
unfolding execute exceeds_authorization previously_filled fill_from bar_fill usable fill_price
    fill_fee eligible_bars paper_fill revisions_from revise symbol matches_symbol is_symbol_char
    iso_currency is_letter lt le eq add sub mul div cross
filled = refl

execute-IsFillOf_example :
    All (IsFillOf policy order bars (unique_fills [])) fills
    × Spends (sub order.quantity (previously_filled (unique_fills []))) fills
execute-IsFillOf_example = execute-IsFillOf policy hash order bars [] (some risk) fills filled

-- A fill of the order.
abbrev pub fill : PaperFill
fill = record {
  id = 2000;
  order_id = 11;
  portfolio_id = 7;
  symbol = codes "MU";
  side = buy;
  quantity = whole 6;
  price = record { coeff = pos 101101; scale = 3 };
  fee = whole 1;
  currency = codes "USD";
  filled_at = 2000;
  source_bar_time = 2000;
  execution_policy_version_id = 5;
  reversal_of_id = none;
}

abbrev first_of : List PaperFill → PaperFill
first_of [] = fill
first_of (f ∷ fs) = f

abbrev rest_of : List PaperFill → List PaperFill
rest_of [] = []
rest_of (f ∷ fs) = fs

filled_some : execute policy hash order bars [] (some risk) ≡ ok (first_of fills ∷ rest_of fills)
unfolding execute exceeds_authorization previously_filled fill_from bar_fill usable fill_price
    fill_fee eligible_bars paper_fill revisions_from revise symbol matches_symbol is_symbol_char
    iso_currency is_letter lt le eq add sub mul div cross
filled_some = refl

execute-Authorizes_example :
    (order.risk_approved ≡ true)
    × (order.execution_policy_version_id ≡ policy.id)
    × (lt order.quantity (previously_filled (unique_fills [])) ≡ false)
    × ((d : RiskDecision) × (some risk ≡ some d) × Authorizes d order)
execute-Authorizes_example =
    execute-Authorizes policy hash order bars [] (some risk) (first_of fills) (rest_of fills)
      filled_some
