-- ===== src/Portfolio/Accounting.antt =====
-- application/portfolio/accounting.py: the pure part, which turns fills into balanced ledger entries.
-- The hashes `uuid5` of the identity texts are parameters. Where the text holds `isoformat()` of a
-- timestamp they take the instant, so that one instant written in two zones is not told apart.
pub mod Append
pub mod Reversal
pub mod Tests
use aistock.Common.{
  ℕ, zero, suc, ◌+◌, ◌-◌, ◌/◌, ◌%◌, String, ◌≤◌, ◌<◌, ◌≡◌, ◌≢◌, ◌⊎◌, inl, inr, refl, Bool, true,
  false, ◌&&◌, ◌||◌, not, List, [], ◌∷◌, ◌++◌, map, arith, leb, ltb, nat_eq, if◌then◌else◌, Text,
  length, all, any, filter, is_empty, Eq, ◌==◌, ℕ_eq, text_eq, pair_eq, Option, none, some, Result,
  ok, raise, value_error, type_error, key_error, ◌>>=◌, ◌>>◌, raise_if, Bool-cases, sort_by, All,
  sort_by-All, codes, All-append,
}
use aistock.Decimal.{
  Decimal, Number, finite, not_finite, not_decimal, whole, add, sub, mul, div, neg, abs, le, lt, eq,
  min_of, max_of, sum_from, decimal_arg,
}
use aistock.Domain.Ids.{Uuid, symbol, iso_currency, strip, lower, is_blank}
use aistock.Domain.Time.{Datetime, naive, aware, Instant, require_aware}
use aistock.Dict.{Dict, lookup, contains, get_or, insert, values, unique_by, unique_by-All}
use aistock.Portfolio.Order.{OrderSide, buy, sell, is_none}
use aistock.Portfolio.Fill.{PaperFill, FillArgs, paper_fill}
use aistock.Portfolio.Ledger.{
  LedgerEntry, EntryArgs, ledger_entry, unique_entries, is_balanced, cash_balance, cash_account,
}

pub record AccountingIds : Type 0 where
  -- `uuid5(_LEDGER_NAMESPACE, key)` of an entry's key
  pub entry_id : Text → Uuid
  -- of the portfolio, the currency and the time of a funding
  pub funding_id : Uuid → Text → Instant → Uuid
  -- of the fill and the time of a reversal
  pub reversal_id : Uuid → Instant → Uuid

-- `str(uuid)`: 32 hexadecimal digits in groups of 8, 4, 4, 4 and 12.
abbrev hex_digit : ℕ → ℕ
hex_digit d = if ltb d 10 then b'0' + d else b'a' + (d - 10)

abbrev hex_digits : ℕ → ℕ → Text → Text
hex_digits zero n out = out
hex_digits (suc k) n out = hex_digits k (n / 16) (hex_digit (n % 16) ∷ out)

abbrev group : ℕ → Text → Text
group i [] = []
group i (c ∷ s) =
    if any (nat_eq i) (8 ∷ 12 ∷ 16 ∷ 20 ∷ [])
    then b'-' ∷ c ∷ group (suc i) s
    else c ∷ group (suc i) s

unfoldable pub uuid_text : Uuid → Text
uuid_text u = group 0 (hex_digits 32 u [])

-- The accounts and the suffixes of the entries' keys.
abbrev pub opening_balance : Text
opening_balance = codes "EQUITY:OPENING_BALANCE"

abbrev pub execution_fee : Text
execution_fee = codes "EXPENSE:EXECUTION_FEE"

abbrev pub security_account : Text → Text
security_account s = codes "ASSET:SECURITY:" ++ s

-- What one call of `_entry` passes on; an amount that is left out is zero.
pub record Posting : Type 0 where
  pub account : Text
  pub debit : Decimal
  pub credit : Decimal
  pub suffix : Text
  pub reversal_of_id : Option Uuid

abbrev pub debit_of : Text → Decimal → String → Posting
debit_of account amount suffix = record {
  account = account;
  debit = amount;
  credit = whole 0;
  suffix = codes suffix;
  reversal_of_id = none;
}

abbrev pub credit_of : Text → Decimal → String → Posting
credit_of account amount suffix = record {
  account = account;
  debit = whole 0;
  credit = amount;
  suffix = codes suffix;
  reversal_of_id = none;
}

-- The two postings of the trade, by its side.
unfoldable pub trade_postings : OrderSide → Text → Decimal → Decimal → List Posting
trade_postings buy s gross fee =
    debit_of (security_account s) gross "security"
    ∷ credit_of cash_account (add gross fee) "cash"
    ∷ []
trade_postings sell s gross fee =
    debit_of cash_account (sub gross fee) "cash"
    ∷ credit_of (security_account s) gross "security"
    ∷ []

unfoldable pub fee_postings : Decimal → List Posting
fee_postings fee = if lt (whole 0) fee then debit_of execution_fee fee "fee" ∷ [] else []

abbrev pub from_source : Uuid → LedgerEntry → Bool
from_source id e = e.source_id == id

abbrev pub other_side : OrderSide → OrderSide
other_side buy = sell
other_side sell = buy

-- `entry.reversal_of_id in original_entry_ids`
abbrev pub undoes : List LedgerEntry → LedgerEntry → Bool
undoes originals e = elim e.reversal_of_id [
  | none ↦ false
  | some r ↦ any (λ (o : LedgerEntry). o.id == r) originals
]

module _ (ids : AccountingIds) where
  -- `_entry`
  unfoldable pub entry :
      (transaction_id portfolio_id source_id : Uuid) → Text → Instant → Posting → Result LedgerEntry
  entry transaction_id portfolio_id source_id currency occurred_at p =
      let key = uuid_text transaction_id ++ (b'|' ∷ p.suffix) in
      ledger_entry (record {
        id = ids.entry_id key;
        transaction_id = transaction_id;
        portfolio_id = portfolio_id;
        source_id = source_id;
        account = p.account;
        debit = finite p.debit;
        credit = finite p.credit;
        currency = currency;
        occurred_at = aware occurred_at;
        idempotency_key = key;
        reversal_of_id = p.reversal_of_id;
      })

  -- A tuple of entries that share all but the posting.
  unfoldable pub entries_of :
      (transaction_id portfolio_id source_id : Uuid)
      → Text
      → Instant
      → List Posting
      → Result (List LedgerEntry)
  entries_of transaction_id portfolio_id source_id currency occurred_at [] = ok []
  entries_of transaction_id portfolio_id source_id currency occurred_at (p ∷ ps) = do
    e ← entry transaction_id portfolio_id source_id currency occurred_at p
    es ← entries_of transaction_id portfolio_id source_id currency occurred_at ps
    ok (e ∷ es)

  unfoldable pub initial_funding : Uuid → Number → Text → Datetime → Result (List LedgerEntry)
  initial_funding portfolio_id amount currency occurred_at = do
    a ← decimal_arg "funding amount must be a finite Decimal" amount
    raise_if (le a (whole 0)) (value_error "funding amount must be finite and positive")
    t ← require_aware occurred_at
    let transaction_id = ids.funding_id portfolio_id currency t
    entries_of transaction_id portfolio_id transaction_id currency t (
        record {
          account = cash_account;
          debit = a;
          credit = whole 0;
          suffix = codes "cash";
          reversal_of_id = none;
        }
        ∷ record {
          account = opening_balance;
          debit = whole 0;
          credit = a;
          suffix = codes "equity";
          reversal_of_id = none;
        }
        ∷ [])

  -- `_fill_entries`
  unfoldable pub fill_entries : PaperFill → Result (List LedgerEntry)
  fill_entries f =
      let gross = mul f.quantity f.price in
      entries_of f.id f.portfolio_id f.id f.currency f.filled_at
        (trade_postings f.side f.symbol gross f.fee ++ fee_postings f.fee)

  -- What `apply_fill` appends to the entries that are there.
  unfoldable pub book_fill : List LedgerEntry → PaperFill → Result (List LedgerEntry)
  book_fill existing f = do
    new ← fill_entries f
    raise_if (not (is_balanced (existing ++ new)))
        (value_error "ledger transaction is not balanced")
    raise_if (lt (cash_balance (existing ++ new) f.portfolio_id f.currency) (whole 0))
        (value_error "fill would create negative cash")
    ok (existing ++ new)

  unfoldable pub apply_fill : List LedgerEntry → PaperFill → Result (List LedgerEntry)
  apply_fill entries f =
      if any (from_source f.id) (unique_entries entries)
      then ok (unique_entries entries)
      else book_fill (unique_entries entries) f

  -- The fill that `reverse_fill` records.
  unfoldable pub reversal_fill : PaperFill → Instant → Result PaperFill
  reversal_fill f t = paper_fill (record {
    id = ids.reversal_id f.id t;
    order_id = f.order_id;
    portfolio_id = f.portfolio_id;
    symbol = f.symbol;
    side = other_side f.side;
    quantity = finite f.quantity;
    price = finite f.price;
    fee = finite (whole 0);
    currency = f.currency;
    filled_at = aware t;
    source_bar_time = aware t;
    execution_policy_version_id = f.execution_policy_version_id;
    reversal_of_id = some f.id;
  })

  -- The mirrored entry of `entry`, with debit and credit exchanged.
  unfoldable pub mirror : Uuid → Instant → LedgerEntry → Result LedgerEntry
  mirror reversal_id t e = entry reversal_id e.portfolio_id reversal_id e.currency t (record {
    account = e.account;
    debit = e.credit;
    credit = e.debit;
    suffix = uuid_text e.id;
    reversal_of_id = some e.id;
  })

  unfoldable pub mirror_all : Uuid → Instant → List LedgerEntry → Result (List LedgerEntry)
  mirror_all reversal_id t [] = ok []
  mirror_all reversal_id t (e ∷ es) = do
    m ← mirror reversal_id t e
    ms ← mirror_all reversal_id t es
    ok (m ∷ ms)

  -- What `reverse_fill` appends to the entries that are there.
  unfoldable pub book_reversal :
      List LedgerEntry → List LedgerEntry → Uuid → Instant → Result (List LedgerEntry)
  book_reversal existing original reversal_id t = do
    raise_if (is_empty original) (value_error "fill has no ledger entries to reverse")
    raise_if (any (undoes original) existing) (value_error "fill is already reversed")
    mirrored ← mirror_all reversal_id t original
    raise_if (not (is_balanced (existing ++ mirrored))) (value_error "reversal is not balanced")
    ok (existing ++ mirrored)

  unfoldable pub reverse_fill :
      List LedgerEntry → PaperFill → Datetime → Result (PaperFill × List LedgerEntry)
  reverse_fill entries f occurred_at = do
    t ← require_aware occurred_at
    reversal ← reversal_fill f t
    let existing = unique_entries entries
    booked ←
        if any (from_source reversal.id) existing
        then ok existing
        else book_reversal existing (filter (from_source f.id) existing) reversal.id t
    ok (reversal, booked)
