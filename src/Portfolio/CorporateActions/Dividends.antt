-- ===== src/Portfolio/CorporateActions/Dividends.antt =====
-- application/portfolio/corporate_actions.py: `apply_dividends`.
pub mod Once
use mathlib.Core.List.{append-nil, append_assoc}
use aistock.Common.{
  ◌≡◌, ◌⊎◌, inl, inr, refl, Bool, true, false, ◌&&◌, ◌||◌, not, List, [], ◌∷◌, ◌++◌, arith,
  if◌then◌else◌, Text, any, ◌==◌, ℕ_eq, text_eq, pair_eq, Option, none, some, Result, ok,
  value_error, ◌>>=◌, ◌>>◌, raise_if, Bool-cases, All, max, String, codes, any-append, ok-injective,
  >>=-eq-ok, >>-eq-ok, ap, sym, ◌∙◌,
}
use aistock.Decimal.{Decimal, finite, whole, mul, eq}
use aistock.Domain.Ids.{Uuid}
use aistock.Domain.Time.{aware}
use aistock.Domain.Ids.{upper}
use aistock.Portfolio.Ledger.{LedgerEntry, ledger_entry, unique_entries, is_balanced, cash_account}
use aistock.Portfolio.Position.{Position}
use aistock.Portfolio.Accounting.{uuid_text, from_source}
use aistock.Portfolio.CorporateActions.{
  ActionHeader, ActionKind, split, stock_dividend, adr_ratio_change, reference_action,
  cash_dividend, CorporateAction, is_in, unique_actions,
}

-- `uuid5(_ENTRY_NAMESPACE, key)` is a parameter.
module _ (uuid5 : Text → Uuid) where
  abbrev dividend_key : Uuid → Uuid → String → Text
  dividend_key portfolio_id action_id side =
      codes "dividend|" ++ (uuid_text portfolio_id ++ (b'|' ∷ (uuid_text action_id ++ codes side)))

  -- One of the two entries of a dividend.
  unfoldable pub dividend_entry :
      Uuid → ActionHeader → String → Text → Decimal → Decimal → Text → Result LedgerEntry
  dividend_entry portfolio_id h side account debit credit currency =
      let key = dividend_key portfolio_id h.id side in
      ledger_entry (record {
        id = uuid5 key;
        transaction_id = h.id;
        portfolio_id = portfolio_id;
        source_id = h.id;
        account = account;
        debit = finite debit;
        credit = finite credit;
        currency = currency;
        occurred_at = aware (max h.effective_at h.available_at);
        idempotency_key = key;
        reversal_of_id = none;
      })

  unfoldable pub dividend_entries :
      Uuid → Position → ActionHeader → Decimal → Text → Result (List LedgerEntry)
  dividend_entries portfolio_id p h amount currency = do
    cash ← dividend_entry portfolio_id h "|cash" cash_account amount (whole 0) currency
    income ←
        dividend_entry portfolio_id h "|income" (codes "INCOME:DIVIDEND:" ++ p.symbol) (whole 0)
          amount currency
    ok (cash ∷ income ∷ [])

  abbrev pub is_foreign_currency : Option Text → Text → Bool
  is_foreign_currency none currency = false
  is_foreign_currency (some c) currency = not (currency == upper c)

  -- What the loop does for a dividend that is not in the ledger.
  unfoldable pub pay_new :
      Uuid
      → Position
      → Option Text
      → List LedgerEntry
      → ActionHeader
      → Decimal
      → Text
      → Result (List LedgerEntry)
  pay_new portfolio_id p cash_currency result h cash_per_share currency = do
    raise_if (any (λ (e : LedgerEntry). is_in h.supersedes_chain e.source_id) result)
        (value_error "revised cash dividend requires explicit ledger reversal")
    raise_if (is_foreign_currency cash_currency currency)
        (value_error "implicit FX conversion is forbidden for cash dividends")
    let amount = mul p.quantity cash_per_share
    new ← if eq amount (whole 0) then ok [] else dividend_entries portfolio_id p h amount currency
    ok (result ++ new)

  -- One round of the loop.
  unfoldable pub pay :
      Uuid
      → Position
      → Option Text
      → List LedgerEntry
      → ActionHeader
      → ActionKind
      → Result (List LedgerEntry)
  pay portfolio_id p cash_currency result h (cash_dividend c currency) =
      if not (h.symbol == p.symbol) || any (from_source h.id) result
      then ok result
      else pay_new portfolio_id p cash_currency result h c currency
  pay portfolio_id p cash_currency result h (split r) = ok result
  pay portfolio_id p cash_currency result h (stock_dividend r) = ok result
  pay portfolio_id p cash_currency result h (adr_ratio_change o n) = ok result
  pay portfolio_id p cash_currency result h (reference_action t) = ok result

  unfoldable pub pay_all :
      Uuid
      → Position
      → Option Text
      → List LedgerEntry
      → List CorporateAction
      → Result (List LedgerEntry)
  pay_all portfolio_id p cash_currency result [] = ok result
  pay_all portfolio_id p cash_currency result (a ∷ actions) = do
    next ← pay portfolio_id p cash_currency result a.header a.kind
    pay_all portfolio_id p cash_currency next actions

  unfoldable pub apply_dividends :
      List LedgerEntry
      → Uuid
      → Position
      → List CorporateAction
      → Option Text
      → Result (List LedgerEntry)
  apply_dividends entries portfolio_id p actions cash_currency = do
    result ← pay_all portfolio_id p cash_currency (unique_entries entries) (unique_actions actions)
    raise_if (not (is_balanced result)) (value_error "corporate action ledger is not balanced")
    ok result

-- A dividend of the position whose amount is zero.
abbrev pub pays_nothing : Position → CorporateAction → Bool
pays_nothing p a = elim a.kind [
  | cash_dividend c currency ↦ a.header.symbol == p.symbol && eq (mul p.quantity c) (whole 0)
  | split r ↦ false
  | stock_dividend r ↦ false
  | adr_ratio_change o n ↦ false
  | reference_action t ↦ false
]

-- Nothing is left to pay for the action.
abbrev pub is_settled : Position → List LedgerEntry → CorporateAction → Bool
is_settled p result a = elim a.kind [
  | cash_dividend c currency ↦
      not (a.header.symbol == p.symbol) || any (from_source a.header.id) result
  | split r ↦ true
  | stock_dividend r ↦ true
  | adr_ratio_change o n ↦ true
  | reference_action t ↦ true
]
