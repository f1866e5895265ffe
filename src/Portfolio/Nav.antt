-- ===== src/Portfolio/Nav.antt =====
-- domain/portfolio/nav.py. The prices are the finite decimals that the annotation asks for.
pub mod Cutoff
use aistock.Common.{
  not, List, [], ◌∷◌, leb, Text, any, filter, ◌==◌, ℕ_eq, text_eq, pair_eq, none, some, Result, ok,
  raise, value_error, key_error, ◌>>=◌, ◌>>◌, raise_if,
}
use aistock.Decimal.{Decimal, whole, add, mul, sum_from}
use aistock.Domain.Time.{Datetime, aware, Instant, require_aware}
use aistock.Dict.{Dict, lookup}
use aistock.Portfolio.Fill.{PaperFill}
use aistock.Portfolio.Ledger.{LedgerEntry, cash_balance}
use aistock.Portfolio.Position.{Position, SplitAdjustment, rebuild_positions}

pub record PortfolioNav : Type 0 where
  pub cash : Decimal
  pub positions_value : Decimal
  pub total : Decimal

-- The terms `position.quantity * prices[position.symbol]`.
unfoldable pub market_values : Dict Text Decimal → Dict Text Position → Result (List Decimal)
market_values prices [] = ok []
market_values prices ((s, p) ∷ ps) = do
  rest ← market_values prices ps
  elim (lookup p.symbol prices) [
    | none ↦ raise (key_error "price of a position")
    | some price ↦ ok (mul p.quantity price ∷ rest)
  ]

-- `visible_entries[0]` is the first argument.
unfoldable pub nav_of :
    LedgerEntry
    → List LedgerEntry
    → List PaperFill
    → Dict Text Decimal
    → Instant
    → List SplitAdjustment
    → Result PortfolioNav
nav_of first entries fills prices cutoff split_actions = do
  raise_if (any (λ (e : LedgerEntry). not (e.currency == first.currency)) entries)
      (value_error "NAV requires one currency")
  raise_if (any (λ (e : LedgerEntry). not (e.portfolio_id == first.portfolio_id)) entries)
      (value_error "NAV requires one portfolio")
  raise_if (any (λ (f : PaperFill). not (f.portfolio_id == first.portfolio_id)) fills)
      (value_error "NAV requires one portfolio")
  let cash = cash_balance entries first.portfolio_id first.currency
  positions ← rebuild_positions fills split_actions (some (aware cutoff))
  terms ← market_values prices positions
  let positions_value = sum_from (whole 0) terms
  ok (record { cash = cash; positions_value = positions_value; total = add cash positions_value })

-- `not visible_entries`
unfoldable pub nav_of_visible :
    List LedgerEntry
    → List PaperFill
    → Dict Text Decimal
    → Instant
    → List SplitAdjustment
    → Result PortfolioNav
nav_of_visible [] fills prices cutoff splits =
    raise (value_error "at least one ledger entry is required")
nav_of_visible (e ∷ es) fills prices cutoff splits = nav_of e (e ∷ es) fills prices cutoff splits

unfoldable pub rebuild_nav :
    List LedgerEntry
    → List PaperFill
    → Dict Text Decimal
    → Datetime
    → List SplitAdjustment
    → Result PortfolioNav
rebuild_nav entries fills prices as_of split_actions = do
  cutoff ← require_aware as_of
  nav_of_visible (filter (λ (e : LedgerEntry). leb e.occurred_at cutoff) entries)
      (filter (λ (f : PaperFill). leb f.filled_at cutoff) fills) prices cutoff split_actions
