-- ===== src/Portfolio/Tests.antt =====
-- Prices, corporate actions and the market regime on small inputs.
use aistock.Common.{
  ◌⊎◌, inl, inr, arith, ℕ, ◌+◌, ◌*◌, ◌≡◌, ◌≤◌, ◌⊎◌, refl, true, false, ◌&&◌, any, List, [], ◌∷◌,
  ◌++◌, codes, Text, All, ok, none, some, or_else,
}
use aistock.Int.{pos}
use aistock.Decimal.{Decimal, whole, lt, le, eq, add, mul, cross}
use aistock.Dict.{Dict}
use aistock.Domain.Ids.{is_blank, iso_currency, is_letter}
use aistock.Domain.Time.{aware}
use aistock.Portfolio.Fill.{ExecutionBar, PaperFill}
use aistock.Portfolio.Execution.Tests.{bar, fill}
use aistock.Portfolio.Ledger.{LedgerEntry, ledger_entry, unique_entries, is_balanced, totals_from}
use aistock.Portfolio.Order.{sell}
use aistock.Portfolio.Position.{Position, rebuild_positions}
use aistock.Portfolio.Position.Reversed.{rebuild_positions_reversed}
use aistock.Portfolio.Accounting.{uuid_text}
use aistock.Portfolio.Valuation.{
  visible_bar_prices, revisions_from, revise, latest_from, keep_latest,
}
use aistock.Portfolio.Valuation.Revisions.{
  IsVisiblePrice, visible_bar_prices_sound, AddsLater, given_bar, later_bar, none_left,
  visible_bar_prices-AddsLater,
}
use aistock.Portfolio.Allocation.{
  MarketContextSnapshot, classify_market_regime, market_context_snapshot, regime_of, risk_on, mixed,
  risk_off, classify_market_regime_sound,
}
use aistock.Portfolio.CorporateActions.{
  CorporateAction, ActionHeader, split, stock_dividend, cash_dividend, adjust_position,
  unique_actions,
}
use aistock.Portfolio.CorporateActions.Adjust.{adjust_position_idem}
use aistock.Portfolio.CorporateActions.Dividends.{
  apply_dividends, pays_nothing, is_settled, dividend_entry, dividend_entries, pay_new, pay,
  pay_all,
}
use aistock.Portfolio.CorporateActions.Dividends.Once.{
  apply_dividends-appends, apply_dividends_idem,
}

abbrev bars : List ExecutionBar
bars = bar 2000 60 (whole 101) ∷ bar 1000 500 (whole 99) ∷ []

abbrev prices : Dict Text Decimal
prices = or_else [] (visible_bar_prices bars (aware 2500) (aware 2500))

priced : visible_bar_prices bars (aware 2500) (aware 2500) ≡ ok prices
unfolding visible_bar_prices revisions_from revise latest_from keep_latest
priced = refl

visible_bar_prices_sound_example : All (IsVisiblePrice bars 2500 2500) prices
visible_bar_prices_sound_example = visible_bar_prices_sound bars 2500 2500 prices priced

-- A bar that opened too late stands first, and one that was known too late last.
abbrev more_bars : List ExecutionBar
more_bars =
    bar 3000 200 (whole 102)
    ∷ bar 2000 60 (whole 101)
    ∷ bar 1000 500 (whole 99)
    ∷ record (bar 2400 70 (whole 98)) { available_at = 2600 }
    ∷ []

more_later : AddsLater bars 2500 2500 bars more_bars
more_later =
    later_bar _ _ _ (inl (omega arith))
      (given_bar _ _ _ (given_bar _ _ _ (later_bar _ _ _ (inr (omega arith)) none_left)))

visible_bar_prices-AddsLater_example :
    visible_bar_prices more_bars (aware 2500) (aware 2500)
    ≡ visible_bar_prices bars (aware 2500) (aware 2500)
visible_bar_prices-AddsLater_example =
    visible_bar_prices-AddsLater bars 2500 2500 more_bars more_later

abbrev tenths : ℕ → Decimal
tenths n = record { coeff = pos n; scale = 1 }

abbrev context : MarketContextSnapshot
context = record {
  id = 8;
  as_of = 900;
  available_at = 950;
  qqq_trend = tenths 3;
  qqq_volatility = tenths 2;
  soxx_relative_strength = tenths 1;
  vix = whole 18;
  regime = risk_on;
  algorithm_version = codes "v1";
  source_lineage = 1 ∷ [];
}

classified :
    classify_market_regime 8
      (aware 900)
      (aware 950)
      (tenths 3)
      (tenths 2)
      (tenths 1)
      (whole 18)
      (codes "v1")
      (1 ∷ [])
    ≡ ok context
unfolding classify_market_regime market_context_snapshot regime_of lt le cross is_blank
classified = refl

classify_market_regime_sound_example :
    (context.as_of ≤ context.available_at)
    × ((context.regime ≡ risk_off)
          × (lt context.qqq_trend (whole 0) ≡ true)
          × (lt context.soxx_relative_strength (whole 0) ≡ true)
          × (le (whole 25) context.vix ≡ true)
        ⊎ (context.regime ≡ risk_on)
          × (lt (whole 0) context.qqq_trend ≡ true)
          × (le (whole 0) context.soxx_relative_strength ≡ true)
          × (lt context.vix (whole 25) ≡ true)
        ⊎ (context.regime ≡ mixed)
          × ((lt context.qqq_trend (whole 0)
                && (lt context.soxx_relative_strength (whole 0) && le (whole 25) context.vix))
              ≡ false)
          × ((lt (whole 0) context.qqq_trend
                && (le (whole 0) context.soxx_relative_strength && lt context.vix (whole 25)))
              ≡ false))
classify_market_regime_sound_example =
    classify_market_regime_sound 8 (aware 900) (aware 950) (tenths 3) (tenths 2) (tenths 1)
      (whole 18) (codes "v1") (1 ∷ []) context classified

abbrev header : ℕ → ActionHeader
header n = record {
  id = n;
  symbol = codes "MU";
  effective_at = n;
  available_at = n;
  supersedes_chain = [];
}

abbrev actions : List CorporateAction
actions =
    record { header = header 31; kind = split (whole 2) }
    ∷ record { header = header 32; kind = cash_dividend (tenths 5) (codes "USD") }
    ∷ record { header = header 33; kind = stock_dividend (tenths 1) }
    ∷ []

abbrev holding : Position
holding = record { symbol = codes "MU"; quantity = whole 6; applied_split_ids = [] }

adjust_position_idem_example :
    adjust_position (adjust_position holding actions) actions ≡ adjust_position holding actions
adjust_position_idem_example = adjust_position_idem holding actions

abbrev number : Text → ℕ
number [] = 1
number (c ∷ s) = c + 31 * number s

abbrev paid : List LedgerEntry
paid = or_else [] (apply_dividends number [] 7 holding actions (some (codes "usd")))

dividends_paid : apply_dividends number [] 7 holding actions (some (codes "usd")) ≡ ok paid
unfolding apply_dividends dividend_entry dividend_entries pay_new pay pay_all ledger_entry
    is_balanced totals_from uuid_text iso_currency is_letter lt eq add mul cross
dividends_paid = refl

apply_dividends-appends_example :
    ((new : List LedgerEntry) × (paid ≡ unique_entries [] ++ new))
    × All
        (λ (a : CorporateAction).
          (pays_nothing holding a ≡ true) ⊎ (is_settled holding paid a ≡ true))
        (unique_actions actions)
    × (is_balanced paid ≡ true)
apply_dividends-appends_example =
    apply_dividends-appends number 7 holding (some (codes "usd")) [] actions paid dividends_paid

paid_distinct : unique_entries paid ≡ paid
unfolding apply_dividends dividend_entry dividend_entries pay_new pay pay_all ledger_entry
    is_balanced totals_from uuid_text iso_currency is_letter lt eq add mul cross
paid_distinct = refl

paid_nonzero : any (pays_nothing holding) (unique_actions actions) ≡ false
unfolding eq mul cross
paid_nonzero = refl

apply_dividends_idem_example :
    apply_dividends number paid 7 holding actions (some (codes "usd")) ≡ ok paid
apply_dividends_idem_example =
    apply_dividends_idem number 7 holding (some (codes "usd")) [] actions paid dividends_paid
      paid_distinct paid_nonzero

abbrev entry : ℕ → LedgerEntry
entry t = record {
  id = t;
  transaction_id = t;
  portfolio_id = 7;
  source_id = t;
  account = codes "ASSET:CASH";
  debit = whole 100;
  credit = whole 0;
  currency = codes "USD";
  occurred_at = t;
  idempotency_key = codes "k";
  reversal_of_id = none;
}

abbrev other_fill : PaperFill
other_fill = record fill { id = 1500; filled_at = 1500; source_bar_time = 1500 }

abbrev undoing : PaperFill
undoing = record fill {
  id = 2500;
  side = sell;
  filled_at = 2500;
  source_bar_time = 2500;
  reversal_of_id = some 2000;
}

rebuild_positions_reversed_example :
    rebuild_positions (other_fill ∷ fill ∷ undoing ∷ []) [] (some (aware 2600))
    ≡ rebuild_positions (other_fill ∷ []) [] (some (aware 2600))
rebuild_positions_reversed_example =
    rebuild_positions_reversed (other_fill ∷ []) fill undoing [] (some (aware 2600)) (some 2600)
      refl refl refl (refl, tt) (refl, tt) refl refl refl
