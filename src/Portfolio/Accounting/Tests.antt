-- ===== src/Portfolio/Accounting/Tests.antt =====
-- A funded portfolio, one fill, and its reversal.
use aistock.Common.{
  ◌==◌, ℕ_eq, ℕ, ◌+◌, ◌*◌, ◌≡◌, ◌⊎◌, refl, true, false, any, filter, is_empty, List, [], ◌∷◌, ◌++◌,
  codes, Text, All, ok, raise, value_error, or_else,
}
use aistock.Decimal.{finite, whole, lt, le, eq, add, sub, mul, cross}
use aistock.Domain.Ids.{symbol, matches_symbol, is_symbol_char, iso_currency, is_letter}
use aistock.Domain.Time.{aware}
use aistock.Portfolio.Fill.{PaperFill, paper_fill}
use aistock.Portfolio.Ledger.{
  LedgerEntry, ledger_entry, unique_entries, is_balanced, cash_balance, totals_from,
}
use aistock.Portfolio.Execution.Tests.{fill}
use aistock.Portfolio.Accounting.{
  AccountingIds, initial_funding, apply_fill, reverse_fill, from_source, uuid_text, entry,
  entries_of, fill_entries, book_fill, trade_postings, fee_postings, reversal_fill, mirror,
  mirror_all, book_reversal,
}
use aistock.Portfolio.Accounting.Append.{IsOfSource, apply_fill-appends, apply_fill_idem}
use aistock.Portfolio.Accounting.Reversal.{
  Reverses, Mirrors, reverse_fill-Mirrors, reverse_fill_once,
}

-- Hashes that tell these texts apart.
abbrev number : Text → ℕ
number [] = 1
number (c ∷ s) = c + 31 * number s

abbrev ids : AccountingIds
ids = record {
  entry_id = λ t. number t;
  funding_id = λ p c t. 1000000 + t;
  reversal_id = λ f t. 2000000 + t;
}

abbrev funded : List LedgerEntry
funded = or_else [] (initial_funding ids 7 (finite (whole 5000)) (codes "USD") (aware 500))

abbrev booked : List LedgerEntry
booked = or_else [] (apply_fill ids funded fill)

fill-booked : apply_fill ids funded fill ≡ ok booked
unfolding apply_fill book_fill fill_entries entries_of entry ledger_entry trade_postings
    fee_postings is_balanced totals_from cash_balance initial_funding uuid_text iso_currency
    is_letter lt le eq add sub mul cross
fill-booked = refl

apply_fill-appends_example :
    (booked ≡ unique_entries funded) × (any (from_source fill.id) (unique_entries funded) ≡ true)
    ⊎ ((e : LedgerEntry) × (rest : List LedgerEntry) × (booked ≡ unique_entries funded ++ e ∷ rest)
        × All (IsOfSource fill.id) (e ∷ rest)
        × (any (from_source fill.id) (unique_entries funded) ≡ false)
        × (is_balanced booked ≡ true)
        × (lt (cash_balance booked fill.portfolio_id fill.currency) (whole 0) ≡ false))
apply_fill-appends_example = apply_fill-appends ids funded fill booked fill-booked

apply_fill_idem_example : apply_fill ids booked fill ≡ ok (unique_entries booked)
apply_fill_idem_example = apply_fill_idem ids funded fill booked fill-booked

abbrev reversed : PaperFill × List LedgerEntry
reversed = or_else (fill, []) (reverse_fill ids booked fill (aware 3000))

fill_reversed : reverse_fill ids booked fill (aware 3000) ≡ ok (reversed.0, reversed.1)
unfolding reverse_fill reversal_fill paper_fill mirror mirror_all book_reversal apply_fill book_fill
    fill_entries entries_of entry ledger_entry trade_postings fee_postings is_balanced totals_from
    cash_balance initial_funding uuid_text symbol matches_symbol is_symbol_char iso_currency
    is_letter lt le eq add sub mul cross
fill_reversed = refl

reverse_fill-Mirrors_example :
    Reverses fill 3000 reversed.0
    × ((reversed.1 ≡ unique_entries booked)
          × (any (from_source reversed.0.id) (unique_entries booked) ≡ true)
        ⊎ ((new : List LedgerEntry) × (reversed.1 ≡ unique_entries booked ++ new)
            × Mirrors reversed.0.id 3000 (filter (from_source fill.id) (unique_entries booked)) new
            × (is_empty (filter (from_source fill.id) (unique_entries booked)) ≡ false)
            × (is_balanced reversed.1 ≡ true)))
reverse_fill-Mirrors_example =
    reverse_fill-Mirrors ids booked fill reversed.0 3000 reversed.1 fill_reversed

reversal_new : any (from_source reversed.0.id) (unique_entries booked) ≡ false
unfolding reverse_fill reversal_fill paper_fill mirror mirror_all book_reversal apply_fill book_fill
    fill_entries entries_of entry ledger_entry trade_postings fee_postings is_balanced totals_from
    cash_balance initial_funding uuid_text symbol matches_symbol is_symbol_char iso_currency
    is_letter lt le eq add sub mul cross
reversal_new = refl

reversal_distinct : unique_entries reversed.1 ≡ reversed.1
unfolding reverse_fill reversal_fill paper_fill mirror mirror_all book_reversal apply_fill book_fill
    fill_entries entries_of entry ledger_entry trade_postings fee_postings is_balanced totals_from
    cash_balance initial_funding uuid_text symbol matches_symbol is_symbol_char iso_currency
    is_letter lt le eq add sub mul cross
reversal_distinct = refl

reversal_other : (reversed.0.id == fill.id) ≡ false
unfolding reverse_fill reversal_fill paper_fill mirror mirror_all book_reversal apply_fill book_fill
    fill_entries entries_of entry ledger_entry trade_postings fee_postings is_balanced totals_from
    cash_balance initial_funding uuid_text symbol matches_symbol is_symbol_char iso_currency
    is_letter lt le eq add sub mul cross
reversal_other = refl

later_fresh : any (from_source (ids.reversal_id fill.id 4000)) reversed.1 ≡ false
unfolding reverse_fill reversal_fill paper_fill mirror mirror_all book_reversal apply_fill book_fill
    fill_entries entries_of entry ledger_entry trade_postings fee_postings is_balanced totals_from
    cash_balance initial_funding uuid_text symbol matches_symbol is_symbol_char iso_currency
    is_letter lt le eq add sub mul cross
later_fresh = refl

reverse_fill_once_example :
    reverse_fill ids reversed.1 fill (aware 4000) ≡ raise (value_error "fill is already reversed")
reverse_fill_once_example =
    reverse_fill_once ids booked fill reversed.0 3000 4000 reversed.1 fill_reversed reversal_new
      reversal_distinct reversal_other later_fresh
