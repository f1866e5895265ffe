-- ===== src/Portfolio/CorporateActions/Dividends/Once.antt =====
-- A dividend is paid once, and paying one only appends to the ledger.
use mathlib.Core.List.{append-nil, append_assoc}
use aistock.Common.{
  ◌≡◌, ◌⊎◌, inl, inr, refl, Bool, true, false, ◌||◌, not, List, [], ◌∷◌, ◌++◌, arith, if◌then◌else◌,
  Text, any, ◌==◌, ℕ_eq, text_eq, pair_eq, Option, ok, raise_if, Bool-cases, All, String,
  any-append, ok-injective, >>=-eq-ok, >>-eq-ok, ap, sym, ◌∙◌,
}
use aistock.Decimal.{Decimal, whole, mul, eq}
use aistock.Domain.Ids.{Uuid}
use aistock.Portfolio.Ledger.{LedgerEntry, ledger_entry, unique_entries, is_balanced, cash_account}
use aistock.Portfolio.Position.{Position}
use aistock.Portfolio.Accounting.{from_source}
use aistock.Portfolio.CorporateActions.{
  ActionHeader, ActionKind, split, stock_dividend, adr_ratio_change, reference_action,
  cash_dividend, CorporateAction, is_in, unique_actions,
}
use aistock.Portfolio.CorporateActions.Dividends.{
  dividend_entry, dividend_entries, is_foreign_currency, pay_new, pay, pay_all, apply_dividends,
  pays_nothing, is_settled,
}

module _ (uuid5 : Text → Uuid) (portfolio_id : Uuid) (p : Position)
    (cash_currency : Option Text) where
  pay_settled :
      (result : List LedgerEntry) (h : ActionHeader) (k : ActionKind)
      → is_settled p result (record { header = h; kind = k }) ≡ true
      → pay uuid5 portfolio_id p cash_currency result h k ≡ ok result
  unfolding pay
  pay_settled result h (cash_dividend c currency) e = rw e refl
  pay_settled result h (split r) e = refl
  pay_settled result h (stock_dividend r) e = refl
  pay_settled result h (adr_ratio_change o n) e = refl
  pay_settled result h (reference_action t) e = refl

  dividend_entry_source :
      (h : ActionHeader) (side : String) (account : Text) (debit credit : Decimal) (currency : Text)
      (e : LedgerEntry)
      → dividend_entry uuid5 portfolio_id h side account debit credit currency ≡ ok e
      → e.source_id ≡ h.id
  unfolding dividend_entry ledger_entry
  dividend_entry_source h side account debit credit currency e x = ground arith

  dividend_entries_source :
      (h : ActionHeader) (amount : Decimal) (currency : Text) (new : List LedgerEntry)
      → dividend_entries uuid5 portfolio_id p h amount currency ≡ ok new
      → any (from_source h.id) new ≡ true
  unfolding dividend_entries
  dividend_entries_source h amount currency new x =
      let (cash, one, rest) =
        >>=-eq-ok
          (dividend_entry uuid5 portfolio_id h "|cash" cash_account amount (whole 0) currency) _
          x in
      ground (
        arith,
        dividend_entry_source h "|cash" cash_account amount (whole 0) currency cash one,
        ℕ_eq.beq_iff cash.source_id h.id,
      )

  pay_new_cases :
      (result : List LedgerEntry) (h : ActionHeader) (c : Decimal) (currency : Text)
      (es : List LedgerEntry)
      → pay_new uuid5 portfolio_id p cash_currency result h c currency ≡ ok es
      → (new : List LedgerEntry) × (es ≡ result ++ new)
        × ((eq (mul p.quantity c) (whole 0) ≡ true) ⊎ (any (from_source h.id) new ≡ true))
  unfolding pay_new
  pay_new_cases result h c currency es x =
      let (_, h1) =
        >>-eq-ok
          (raise_if (any (λ (e : LedgerEntry). is_in h.supersedes_chain e.source_id) result) _) _
          x in
      let (_, h2) = >>-eq-ok (raise_if (is_foreign_currency uuid5 cash_currency currency) _) _ h1 in
      let amount = mul p.quantity c in
      let (new, made, last) =
        >>=-eq-ok
          (if eq amount (whole 0)
            then ok []
            else dividend_entries uuid5 portfolio_id p h amount currency)
          _ h2 in
      (
        new,
        sym (ok-injective last),
        elim (Bool-cases (eq amount (whole 0))) [
          | inl nothing ↦ inl nothing
          | inr some_cash ↦ inr (dividend_entries_source h amount currency new (ground arith))
        ],
      )

  IsPaidBy : List LedgerEntry → List LedgerEntry → CorporateAction → Type 0
  IsPaidBy result es a =
      ((new : List LedgerEntry) × (es ≡ result ++ new))
      × ((pays_nothing p a ≡ true) ⊎ (is_settled p es a ≡ true))

  or_right : (a b : Bool) → b ≡ true → (a || b) ≡ true
  or_right a b h = ground arith

  pay_cases :
      (result : List LedgerEntry) (h : ActionHeader) (k : ActionKind) (es : List LedgerEntry)
      → pay uuid5 portfolio_id p cash_currency result h k ≡ ok es
      → IsPaidBy result es (record { header = h; kind = k })
  unfolding pay IsPaidBy
  pay_cases result h (cash_dividend c currency) es x =
      elim (Bool-cases (not (h.symbol == p.symbol) || any (from_source h.id) result)) [
        | inl out ↦
            let same : es ≡ result = ground arith in
            (([], same ∙ sym (append-nil result)), inr (rw same out))
        | inr due ↦
            let (new, joined, how) = pay_new_cases result h c currency es (ground arith) in
            (
              (new, joined),
              elim how [
                | inl nothing ↦ inl (ground arith)
                | inr found ↦ inr (
                    or_right (not (h.symbol == p.symbol)) (any (from_source h.id) es) (
                      rw joined (
                        rw (any-append (from_source h.id) result new) (
                          or_right (any (from_source h.id) result) (any (from_source h.id) new)
                            found))))
              ],
            )
      ]
  pay_cases result h (split r) es x =
      (([], sym (ok-injective x) ∙ sym (append-nil result)), inr refl)
  pay_cases result h (stock_dividend r) es x =
      (([], sym (ok-injective x) ∙ sym (append-nil result)), inr refl)
  pay_cases result h (adr_ratio_change o n) es x =
      (([], sym (ok-injective x) ∙ sym (append-nil result)), inr refl)
  pay_cases result h (reference_action t) es x =
      (([], sym (ok-injective x) ∙ sym (append-nil result)), inr refl)

  or_left : (a b c : Bool) → (a || b) ≡ true → (a || (b || c)) ≡ true
  or_left a b c h = ground arith

  settled-append :
      (es new : List LedgerEntry) (h : ActionHeader) (k : ActionKind)
      → is_settled p es (record { header = h; kind = k }) ≡ true
      → is_settled p (es ++ new) (record { header = h; kind = k }) ≡ true
  settled-append es new h (cash_dividend c currency) e = rw (any-append (from_source h.id) es new) (
      or_left (not (h.symbol == p.symbol)) (any (from_source h.id) es) (any (from_source h.id) new)
        e)
  settled-append es new h (split r) e = refl
  settled-append es new h (stock_dividend r) e = refl
  settled-append es new h (adr_ratio_change o n) e = refl
  settled-append es new h (reference_action t) e = refl

  pay_all_cases :
      (result : List LedgerEntry) (actions : List CorporateAction) (es : List LedgerEntry)
      → pay_all uuid5 portfolio_id p cash_currency result actions ≡ ok es
      → ((new : List LedgerEntry) × (es ≡ result ++ new))
        × All
            (λ (a : CorporateAction). (pays_nothing p a ≡ true) ⊎ (is_settled p es a ≡ true))
            actions
  unfolding pay_all IsPaidBy
  pay_all_cases result [] es x = (([], sym (ok-injective x) ∙ sym (append-nil result)), tt)
  pay_all_cases result (a ∷ actions) es x =
      let (next, one, more) =
        >>=-eq-ok (pay uuid5 portfolio_id p cash_currency result a.header a.kind) _ x in
      let ((new, joined), how) = pay_cases result a.header a.kind next one in
      let ((others, rest), settled) = pay_all_cases next actions es more in
      (
        (
          new ++ others,
          rest ∙ ap (λ (y : List LedgerEntry). y ++ others) joined ∙ append_assoc result new others,
        ),
        (
          elim how [
            | inl nothing ↦ inl nothing
            | inr found ↦ inr (rw rest (settled-append next others a.header a.kind found))
          ],
          settled,
        ),
      )

  pay_all_settled :
      (result : List LedgerEntry) (actions : List CorporateAction)
      → All
          (λ (a : CorporateAction). (pays_nothing p a ≡ true) ⊎ (is_settled p result a ≡ true))
          actions
      → any (pays_nothing p) actions ≡ false
      → pay_all uuid5 portfolio_id p cash_currency result actions ≡ ok result
  unfolding pay_all
  pay_all_settled result [] h n = refl
  pay_all_settled result (a ∷ actions) h n = elim h.0 [
    | inl nothing ↦ absurd (ground arith)
    | inr found ↦
        rw (pay_settled result a.header a.kind found)
          (pay_all_settled result actions h.1 (ground arith))
  ]

  -- A call of `apply_dividends` that returns keeps the entries that were there, without repeated ids,
  -- in their order, appends to them, and gives balanced entries that hold a source entry for each
  -- cash dividend of the position whose amount is not zero.
  pub apply_dividends-appends :
      (entries : List LedgerEntry) (actions : List CorporateAction) (es : List LedgerEntry)
      → apply_dividends uuid5 entries portfolio_id p actions cash_currency ≡ ok es
      → ((new : List LedgerEntry) × (es ≡ unique_entries entries ++ new))
        × All
            (λ (a : CorporateAction). (pays_nothing p a ≡ true) ⊎ (is_settled p es a ≡ true))
            (unique_actions actions)
        × (is_balanced es ≡ true)
  unfolding apply_dividends
  apply_dividends-appends entries actions es h =
      let (result, paid, h1) =
        >>=-eq-ok
          (pay_all uuid5 portfolio_id p cash_currency (unique_entries entries)
            (unique_actions actions))
          _ h in
      let (balanced, last) = >>-eq-ok (raise_if (not (is_balanced result)) _) _ h1 in
      let same = ok-injective last in
      let (new, settled) =
        pay_all_cases (unique_entries entries) (unique_actions actions) es
          (paid ∙ ap (λ (x : List LedgerEntry). ok x) same) in
      (new, settled, ground arith)

  -- Applying the same dividends a second time, to the entries that the first call returned, pays
  -- nothing more, when no id repeats in those entries and no dividend of the position is zero.
  pub apply_dividends_idem :
      (entries : List LedgerEntry) (actions : List CorporateAction) (es : List LedgerEntry)
      → apply_dividends uuid5 entries portfolio_id p actions cash_currency ≡ ok es
      → unique_entries es ≡ es
      → any (pays_nothing p) (unique_actions actions) ≡ false
      → apply_dividends uuid5 es portfolio_id p actions cash_currency ≡ ok es
  unfolding apply_dividends
  apply_dividends_idem entries actions es h distinct nonzero =
      let (_, settled, balanced) = apply_dividends-appends entries actions es h in
      rw distinct
        (rw (pay_all_settled es (unique_actions actions) settled nonzero) (rw balanced refl))
