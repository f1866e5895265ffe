-- ===== src/Portfolio/Accounting/Append.antt =====
-- What `apply_fill` keeps of the entries that are there.
use aistock.Common.{
  ◌≡◌, ◌⊎◌, inl, inr, refl, true, false, List, [], ◌∷◌, ◌++◌, arith, Text, any, ◌==◌, ℕ_eq, text_eq,
  pair_eq, ok, Bool-cases, All, ok-injective, >>=-eq-ok, ap, sym, ◌∙◌, subst,
}
use aistock.Decimal.{Decimal, whole, mul, lt}
use aistock.Domain.Ids.{Uuid}
use aistock.Domain.Time.{Instant}
use aistock.Dict.{unique_by_idem, any-unique_by}
use aistock.Portfolio.Order.{OrderSide, buy, sell}
use aistock.Portfolio.Fill.{PaperFill}
use aistock.Portfolio.Ledger.{LedgerEntry, ledger_entry, unique_entries, is_balanced, cash_balance}
use aistock.Portfolio.Accounting.{
  AccountingIds, Posting, entry, entries_of, trade_postings, fee_postings, fill_entries, book_fill,
  apply_fill, from_source,
}

abbrev pub IsOfSource : Uuid → LedgerEntry → Type 0
IsOfSource source e = (e.source_id == source) ≡ true

trade_postings_some :
    (s : OrderSide) (name : Text) (gross fee : Decimal)
    → (p : Posting) × (ps : List Posting) × (trade_postings s name gross fee ≡ p ∷ ps)
unfolding trade_postings
trade_postings_some buy name gross fee = (_, _, refl)
trade_postings_some sell name gross fee = (_, _, refl)

module _ (ids : AccountingIds) where
  pub entry_lem :
      (transaction portfolio source : Uuid) (currency : Text) (t : Instant) (p : Posting)
      (e : LedgerEntry)
      → entry ids transaction portfolio source currency t p ≡ ok e
      → (e.transaction_id ≡ transaction)
        × (e.portfolio_id ≡ portfolio)
        × (e.source_id ≡ source)
        × (e.account ≡ p.account)
        × (e.debit ≡ p.debit)
        × (e.credit ≡ p.credit)
        × (e.occurred_at ≡ t)
        × (e.reversal_of_id ≡ p.reversal_of_id)
  unfolding entry ledger_entry
  entry_lem transaction portfolio source currency t p e h = ground arith

  entries_of-cons :
      (transaction portfolio source : Uuid) (currency : Text) (t : Instant) (p : Posting)
      (ps : List Posting) (es : List LedgerEntry)
      → entries_of ids transaction portfolio source currency t (p ∷ ps) ≡ ok es
      → (e : LedgerEntry) × (rest : List LedgerEntry) × (entry ids transaction portfolio source
            currency t p
          ≡ ok e)
        × (entries_of ids transaction portfolio source currency t ps ≡ ok rest)
        × (es ≡ e ∷ rest)
  unfolding entries_of
  entries_of-cons transaction portfolio source currency t p ps es h =
      let (e, one, more) = >>=-eq-ok (entry ids transaction portfolio source currency t p) _ h in
      let (rest, others, last) =
        >>=-eq-ok (entries_of ids transaction portfolio source currency t ps) _ more in
      (e, rest, one, others, sym (ok-injective last))

  entries_of-All :
      (transaction portfolio source : Uuid) (currency : Text) (t : Instant) (ps : List Posting)
      (es : List LedgerEntry)
      → entries_of ids transaction portfolio source currency t ps ≡ ok es
      → All (IsOfSource source) es
  unfolding entries_of
  entries_of-All transaction portfolio source currency t [] es h =
      subst (All (IsOfSource source)) (ok-injective h) tt
  entries_of-All transaction portfolio source currency t (p ∷ ps) es h =
      let (e, rest, one, others, whole_list) =
        entries_of-cons transaction portfolio source currency t p ps es h in
      let fields = entry_lem transaction portfolio source currency t p e one in
      subst (All (IsOfSource source)) (sym whole_list) (
        ((ℕ_eq.beq_iff e.source_id source).1 fields.2),
        entries_of-All transaction portfolio source currency t ps rest others,
      )

  fill_entries-All :
      (f : PaperFill) (es : List LedgerEntry)
      → fill_entries ids f ≡ ok es
      → All (IsOfSource f.id) es
  unfolding fill_entries
  fill_entries-All f es h = entries_of-All f.id f.portfolio_id f.id f.currency f.filled_at _ es h

  fill_entries_some :
      (f : PaperFill) (es : List LedgerEntry)
      → fill_entries ids f ≡ ok es
      → (e : LedgerEntry) × (rest : List LedgerEntry) × (es ≡ e ∷ rest)
  unfolding fill_entries
  fill_entries_some f es h =
      let gross = mul f.quantity f.price in
      let (p, ps, some_posting) = trade_postings_some f.side f.symbol gross f.fee in
      let (e, rest, _, _, all_entries) =
        entries_of-cons f.id f.portfolio_id f.id f.currency f.filled_at p (ps ++ fee_postings f.fee)
          es
          (subst
            (λ (qs : List Posting).
              entries_of ids f.id f.portfolio_id f.id f.currency f.filled_at
                (qs ++ fee_postings f.fee)
              ≡ ok es)
            some_posting h) in
      (e, rest, all_entries)

  book_fill_cases :
      (existing : List LedgerEntry) (f : PaperFill) (es : List LedgerEntry)
      → book_fill ids existing f ≡ ok es
      → (new : List LedgerEntry) × (fill_entries ids f ≡ ok new)
        × (es ≡ existing ++ new)
        × (is_balanced es ≡ true)
        × (lt (cash_balance es f.portfolio_id f.currency) (whole 0) ≡ false)
  unfolding book_fill
  book_fill_cases existing f es h =
      let (new, made, checks) = >>=-eq-ok (fill_entries ids f) _ h in
      (new, made, ground arith, ground arith, ground arith)

  -- A call of `apply_fill` that returns gives back the entries without repeated ids, when some of them
  -- are of this fill; else it appends entries, at least one, that are all of this fill, and the
  -- result is balanced and leaves no negative cash in the fill's portfolio and currency.
  pub apply_fill-appends :
      (entries : List LedgerEntry) (f : PaperFill) (es : List LedgerEntry)
      → apply_fill ids entries f ≡ ok es
      → (es ≡ unique_entries entries) × (any (from_source f.id) (unique_entries entries) ≡ true)
        ⊎ ((e : LedgerEntry) × (rest : List LedgerEntry) × (es ≡ unique_entries entries ++ e ∷ rest)
            × All (IsOfSource f.id) (e ∷ rest)
            × (any (from_source f.id) (unique_entries entries) ≡ false)
            × (is_balanced es ≡ true)
            × (lt (cash_balance es f.portfolio_id f.currency) (whole 0) ≡ false))
  unfolding apply_fill
  apply_fill-appends entries f es h =
      elim (Bool-cases (any (from_source f.id) (unique_entries entries))) [
        | inl known ↦ inl (ground arith, known)
        | inr new_fill ↦
            let (new, made, joined, balanced, funded) =
              book_fill_cases (unique_entries entries) f es (ground arith) in
            let (e, rest, listed) = fill_entries_some f new made in
            inr (
              e,
              rest,
              joined ∙ ap (λ (x : List LedgerEntry). unique_entries entries ++ x) listed,
              subst (All (IsOfSource f.id)) listed (fill_entries-All f new made),
              new_fill,
              balanced,
              funded,
            )
      ]

  -- Applying a fill a second time, to the entries that the first call returned, changes nothing but
  -- repeated ids: the call returns, and with those entries.
  pub apply_fill_idem :
      (entries : List LedgerEntry) (f : PaperFill) (es : List LedgerEntry)
      → apply_fill ids entries f ≡ ok es
      → apply_fill ids es f ≡ ok (unique_entries es)
  unfolding apply_fill
  apply_fill_idem entries f es h = elim (apply_fill-appends entries f es h) [
    | inl (same, known) ↦
        subst (λ (x : List LedgerEntry). apply_fill ids x f ≡ ok (unique_entries x)) (sym same)
          (rw (unique_by_idem (λ (e : LedgerEntry). e.id) entries) (rw known refl))
    | inr (e, rest, joined, sourced, _, _, _) ↦
        subst (λ (x : List LedgerEntry). apply_fill ids x f ≡ ok (unique_entries x)) (sym joined)
          (rw
            (any-unique_by (λ (x : LedgerEntry). x.id) (from_source f.id) (unique_entries entries) e
              rest sourced)
            refl)
  ]
