-- ===== src/Portfolio/Ledger.antt =====
-- domain/portfolio/ledger.py.
use aistock.Common.{
  Bool, true, false, ◌&&◌, ◌||◌, not, List, [], ◌∷◌, map, Text, all, filter, ◌==◌, ℕ_eq, text_eq,
  pair_eq, Option, Result, ok, value_error, ◌>>=◌, ◌>>◌, raise_if, codes,
}
use aistock.Decimal.{Decimal, Number, whole, add, sub, lt, eq, sum_from, decimal_arg}
use aistock.Domain.Ids.{Uuid, iso_currency, upper}
use aistock.Domain.Time.{Datetime, Instant, require_aware}
use aistock.Dict.{Dict, get_or, insert, values, unique_by}

pub record LedgerEntry : Type 0 where
  pub id : Uuid
  pub transaction_id : Uuid
  pub portfolio_id : Uuid
  pub source_id : Uuid
  pub account : Text
  pub debit : Decimal
  pub credit : Decimal
  pub currency : Text
  pub occurred_at : Instant
  pub idempotency_key : Text
  pub reversal_of_id : Option Uuid

pub record EntryArgs : Type 0 where
  pub id : Uuid
  pub transaction_id : Uuid
  pub portfolio_id : Uuid
  pub source_id : Uuid
  pub account : Text
  pub debit : Number
  pub credit : Number
  pub currency : Text
  pub occurred_at : Datetime
  pub idempotency_key : Text
  pub reversal_of_id : Option Uuid

abbrev is_zero : Decimal → Bool
is_zero d = eq d (whole 0)

abbrev pub bool_eq : Bool → Bool → Bool
bool_eq true b = b
bool_eq false b = not b

-- The constructor with its `__post_init__`.
unfoldable pub ledger_entry : EntryArgs → Result LedgerEntry
ledger_entry e = do
  d ← decimal_arg "ledger amounts must be finite Decimals" e.debit
  c ← decimal_arg "ledger amounts must be finite Decimals" e.credit
  raise_if (lt d (whole 0) || lt c (whole 0)) (value_error "ledger amounts cannot be negative")
  raise_if (bool_eq (is_zero d) (is_zero c))
      (value_error "exactly one of debit or credit must be positive")
  cur ← iso_currency e.currency
  t ← require_aware e.occurred_at
  ok (record {
    id = e.id;
    transaction_id = e.transaction_id;
    portfolio_id = e.portfolio_id;
    source_id = e.source_id;
    account = e.account;
    debit = d;
    credit = c;
    currency = cur;
    occurred_at = t;
    idempotency_key = e.idempotency_key;
    reversal_of_id = e.reversal_of_id;
  })

-- `{item.id: item for item in entries}.values()`
abbrev pub unique_entries : List LedgerEntry → List LedgerEntry
unique_entries = unique_by (λ (e : LedgerEntry). e.id)

-- `total[0] += entry.debit; total[1] += entry.credit`
abbrev post : LedgerEntry → Decimal × Decimal → Decimal × Decimal
post e (d, c) = (add d e.debit, add c e.credit)

abbrev pub Totals : Type 0
Totals = Dict (Uuid × Text) (Decimal × Decimal)

-- The defaultdict of the totals by transaction and currency.
unfoldable pub totals_from : Totals → List LedgerEntry → Totals
totals_from d [] = d
totals_from d (e ∷ es) =
    let key : Uuid × Text = (e.transaction_id, e.currency) in
    totals_from (insert key (post e (get_or key (whole 0, whole 0) d)) d) es

unfoldable pub is_balanced : List LedgerEntry → Bool
is_balanced entries =
    all (λ (t : Decimal × Decimal). eq t.0 t.1) (values (totals_from [] (unique_entries entries)))

abbrev pub cash_account : Text
cash_account = codes "ASSET:CASH"

abbrev pub is_cash : Uuid → Text → LedgerEntry → Bool
is_cash portfolio_id currency e =
    e.portfolio_id == portfolio_id && (e.currency == currency && e.account == cash_account)

unfoldable pub cash_balance : List LedgerEntry → Uuid → Text → Decimal
cash_balance entries portfolio_id currency = sum_from (whole 0) (
    map (λ (e : LedgerEntry). sub e.debit e.credit)
      (filter (is_cash portfolio_id (upper currency)) (unique_entries entries)))
