-- ===== src/Portfolio/Accounting/Reversal.antt =====
-- What `reverse_fill` records, and that it records it once.
use mathlib.Core.List.{append-nil}
use aistock.Common.{
  ◌≡◌, ◌⊎◌, inl, inr, refl, Bool, true, false, ◌||◌, List, [], ◌∷◌, ◌++◌, arith, if◌then◌else◌, any,
  filter, is_empty, ◌==◌, ℕ_eq, text_eq, pair_eq, some, ok, raise, value_error, raise_if,
  Bool-cases, All, any-append, ok-injective, >>=-eq-ok, >>-eq-ok, Result-cases, ap, sym, subst,
}
use aistock.Decimal.{whole}
use aistock.Domain.Ids.{Uuid, symbol}
use aistock.Domain.Time.{aware, Instant}
use aistock.Portfolio.Order.{buy, sell}
use aistock.Portfolio.Fill.{PaperFill, paper_fill}
use aistock.Portfolio.Ledger.{LedgerEntry, unique_entries, is_balanced}
use aistock.Portfolio.Accounting.{
  AccountingIds, from_source, undoes, reversal_fill, mirror, mirror_all, book_reversal,
  reverse_fill,
}
use aistock.Portfolio.Accounting.Append.{entry_lem, IsOfSource}

-- The fill `r` at the time `t` takes the fill `f` back.
pub record Reverses (f : PaperFill) (t : Instant) (r : PaperFill) : Type 0 where
  pub same_order : r.order_id ≡ f.order_id
  pub same_portfolio : r.portfolio_id ≡ f.portfolio_id
  pub same_symbol : symbol f.symbol ≡ ok r.symbol
  pub opposite : (f.side ≡ buy) × (r.side ≡ sell) ⊎ (f.side ≡ sell) × (r.side ≡ buy)
  pub same_quantity : r.quantity ≡ f.quantity
  pub same_price : r.price ≡ f.price
  pub no_fee : r.fee ≡ whole 0
  pub then_filled : r.filled_at ≡ t
  pub then_priced : r.source_bar_time ≡ t
  pub same_policy : r.execution_policy_version_id ≡ f.execution_policy_version_id
  pub names_it : r.reversal_of_id ≡ some f.id

-- The entry `m` of the reversal `source` undoes `e`.
pub record IsMirror (source : Uuid) (t : Instant) (e m : LedgerEntry) : Type 0 where
  pub same_account : m.account ≡ e.account
  pub same_portfolio : m.portfolio_id ≡ e.portfolio_id
  pub debit_credit : m.debit ≡ e.credit
  pub credit_debit : m.credit ≡ e.debit
  pub names_it : m.reversal_of_id ≡ some e.id
  pub of_source : m.source_id ≡ source
  pub then_recorded : m.occurred_at ≡ t

abbrev pub Mirrors : Uuid → Instant → List LedgerEntry → List LedgerEntry → Type 0
Mirrors source t [] ms = ms ≡ []
Mirrors source t (e ∷ es) [] = ⊥
Mirrors source t (e ∷ es) (m ∷ ms) = IsMirror source t e m × Mirrors source t es ms

Mirrors-undoes :
    (source : Uuid) (t : Instant) (e : LedgerEntry) (es new : List LedgerEntry)
    → Mirrors source t (e ∷ es) new
    → any (undoes (e ∷ es)) new ≡ true
Mirrors-undoes source t e es [] h = absurd h
Mirrors-undoes source t e es (m ∷ ms) h =
    rw (h.0.names_it) (rw ((ℕ_eq.beq_iff e.id e.id).1 refl) refl)

Mirrors-All :
    (source : Uuid) (t : Instant) (es new : List LedgerEntry)
    → Mirrors source t es new
    → All (IsOfSource source) new
Mirrors-All source t [] new h = subst (All (IsOfSource source)) (sym h) tt
Mirrors-All source t (e ∷ es) [] h = absurd h
Mirrors-All source t (e ∷ es) (m ∷ ms) h =
    ((ℕ_eq.beq_iff m.source_id source).1 h.0.of_source, Mirrors-All source t es ms h.1)

filter-other :
    (a b : Uuid) (es : List LedgerEntry)
    → (a == b) ≡ false
    → All (IsOfSource a) es
    → filter (from_source b) es ≡ []
filter-other a b [] ne h = refl
filter-other a b (e ∷ es) ne h = ground (
  arith,
  ℕ_eq.beq_iff e.source_id a,
  ℕ_eq.beq_iff e.source_id b,
  ℕ_eq.beq_iff a b,
  filter-other a b es ne h.1,
)

filter-append :
    (p : LedgerEntry → Bool) (xs ys : List LedgerEntry)
    → filter p (xs ++ ys) ≡ filter p xs ++ filter p ys
filter-append p [] ys = refl
filter-append p (x ∷ xs) ys = ground (arith, filter-append p xs ys)

or_true : (b : Bool) → (b || true) ≡ true
or_true true = refl
or_true false = refl

module _ (ids : AccountingIds) where
  mirror-IsMirror :
      (source : Uuid) (t : Instant) (e m : LedgerEntry)
      → mirror ids source t e ≡ ok m
      → IsMirror source t e m
  unfolding mirror
  mirror-IsMirror source t e m h =
      let fields = entry_lem ids source e.portfolio_id source e.currency t _ m h in
      record {
        same_account = fields.3;
        same_portfolio = fields.1;
        debit_credit = fields.4;
        credit_debit = fields.5;
        names_it = fields.7;
        of_source = fields.2;
        then_recorded = fields.6;
      }

  mirror_all-Mirrors :
      (source : Uuid) (t : Instant) (es new : List LedgerEntry)
      → mirror_all ids source t es ≡ ok new
      → Mirrors source t es new
  unfolding mirror_all
  mirror_all-Mirrors source t [] new h = sym (ok-injective h)
  mirror_all-Mirrors source t (e ∷ es) new h =
      let (m, one, more) = >>=-eq-ok (mirror ids source t e) _ h in
      let (ms, others, last) = >>=-eq-ok (mirror_all ids source t es) _ more in
      subst (Mirrors source t (e ∷ es)) (ok-injective last)
        (mirror-IsMirror source t e m one, mirror_all-Mirrors source t es ms others)

  -- What `book_reversal` did when it returned.
  book_reversal_cases :
      (existing original : List LedgerEntry) (source : Uuid) (t : Instant) (es : List LedgerEntry)
      → book_reversal ids existing original source t ≡ ok es
      → (new : List LedgerEntry) × (es ≡ existing ++ new)
        × Mirrors source t original new
        × (is_empty original ≡ false)
        × (any (undoes original) existing ≡ false)
        × (is_balanced es ≡ true)
  unfolding book_reversal
  book_reversal_cases existing original source t es h =
      let (some_entry, h1) = >>-eq-ok (raise_if (is_empty original) _) _ h in
      let (first, h2) = >>-eq-ok (raise_if (any (undoes original) existing) _) _ h1 in
      let (new, made, h3) = >>=-eq-ok (mirror_all ids source t original) _ h2 in
      (
        new,
        ground arith,
        mirror_all-Mirrors source t original new made,
        ground arith,
        ground arith,
        ground arith,
      )

  reversal_fill_id :
      (f r : PaperFill) (t : Instant) → reversal_fill ids f t ≡ ok r → r.id ≡ ids.reversal_id f.id t
  unfolding reversal_fill paper_fill
  reversal_fill_id f r t h = ground arith

  -- Whether a reversal's fill is valid does not depend on its time.
  reversal_fill_again :
      (f r : PaperFill) (t u : Instant)
      → reversal_fill ids f t ≡ ok r
      → (s : PaperFill) × (reversal_fill ids f u ≡ ok s)
  unfolding reversal_fill paper_fill
  reversal_fill_again f r t u h = elim (Result-cases (reversal_fill ids f u)) [
    | inl found ↦ found
    | inr (e, bad) ↦ absurd (ground arith)
  ]

  -- The two steps of a call that returned.
  reverse_fill_cases :
      (entries : List LedgerEntry) (f r : PaperFill) (t : Instant) (es : List LedgerEntry)
      → reverse_fill ids entries f (aware t) ≡ ok (r, es)
      → (reversal_fill ids f t ≡ ok r)
        × ((es ≡ unique_entries entries) × (any (from_source r.id) (unique_entries entries) ≡ true)
            ⊎ (any (from_source r.id) (unique_entries entries) ≡ false)
              × (book_reversal ids
                    (unique_entries entries)
                    (filter (from_source f.id) (unique_entries entries))
                    r.id
                    t
                  ≡ ok es))
  unfolding reverse_fill
  reverse_fill_cases entries f r t es h =
      let existing = unique_entries entries in
      let (made, is_fill, h1) = >>=-eq-ok (reversal_fill ids f t) _ h in
      let (booked, posted, last) =
        >>=-eq-ok
          (if any (from_source made.id) existing
            then ok existing
            else book_reversal ids existing (filter (from_source f.id) existing) made.id t)
          _ h1 in
      let both = ok-injective last in
      let same_fill : made ≡ r = ap (λ (x : PaperFill × List LedgerEntry). x.0) both in
      let same_entries : booked ≡ es = ap (λ (x : PaperFill × List LedgerEntry). x.1) both in
      subst
        (λ (x : PaperFill).
          (reversal_fill ids f t ≡ ok x)
          × ((es ≡ existing) × (any (from_source x.id) existing ≡ true)
              ⊎ (any (from_source x.id) existing ≡ false)
                × (book_reversal ids existing (filter (from_source f.id) existing) x.id t ≡ ok es)))
        same_fill
        (
          is_fill,
          elim (Bool-cases (any (from_source made.id) existing)) [
            | inl known ↦ inl (ground arith, known)
            | inr new_one ↦ inr (new_one, ground arith)
          ],
        )

  reversal_fill-Reverses :
      (f r : PaperFill) (t : Instant) → reversal_fill ids f t ≡ ok r → Reverses f t r
  unfolding reversal_fill paper_fill
  reversal_fill-Reverses f r t h = record {
    same_order = ground arith;
    same_portfolio = ground arith;
    same_symbol = ground arith;
    opposite = ground arith;
    same_quantity = ground arith;
    same_price = ground arith;
    no_fee = ground arith;
    then_filled = ground arith;
    then_priced = ground arith;
    same_policy = ground arith;
    names_it = ground arith;
  }

  -- A call of `reverse_fill` that returns gives a fill of the same order, portfolio, symbol, quantity,
  -- price and policy, on the other side, without a fee, at the given time, that names the fill. The
  -- entries that it returns are those that were there, without repeated ids, when some of them are of
  -- this reversal; else those entries with, for each entry of the fill in order, its mirror appended,
  -- which exchanges debit and credit in the same account and names the entry, and the result is
  -- balanced.
  pub reverse_fill-Mirrors :
      (entries : List LedgerEntry) (f r : PaperFill) (t : Instant) (es : List LedgerEntry)
      → reverse_fill ids entries f (aware t) ≡ ok (r, es)
      → Reverses f t r
        × ((es ≡ unique_entries entries) × (any (from_source r.id) (unique_entries entries) ≡ true)
            ⊎ ((new : List LedgerEntry) × (es ≡ unique_entries entries ++ new)
                × Mirrors r.id t (filter (from_source f.id) (unique_entries entries)) new
                × (is_empty (filter (from_source f.id) (unique_entries entries)) ≡ false)
                × (is_balanced es ≡ true)))
  reverse_fill-Mirrors entries f r t es h =
      let (is_fill, booking) = reverse_fill_cases entries f r t es h in
      (
        reversal_fill-Reverses f r t is_fill,
        elim booking [
          | inl known ↦ inl known
          | inr (_, booked) ↦
              let existing = unique_entries entries in
              let (new, joined, mirrored, some_entry, _, balanced) =
                book_reversal_cases existing (filter (from_source f.id) existing) r.id t es
                  booked in
              inr (new, joined, mirrored, some_entry, balanced)
        ],
      )

  already_reversed :
      (existing original new : List LedgerEntry) (r s : Uuid) (t u : Instant)
      → is_empty original ≡ false
      → Mirrors r t original new
      → book_reversal ids (existing ++ new) original s u
        ≡ raise (value_error "fill is already reversed")
  unfolding book_reversal
  already_reversed existing [] new r s t u some_entry h = absurd (ground arith)
  already_reversed existing (o ∷ os) new r s t u some_entry h =
      rw (any-append (undoes (o ∷ os)) existing new)
        (rw (Mirrors-undoes r t o os new h) (rw (or_true (any (undoes (o ∷ os)) existing)) refl))

  -- The entries of the fill are the same after its reversal.
  originals_kept :
      (f r : PaperFill) (t : Instant) (existing original new : List LedgerEntry)
      → (r.id == f.id) ≡ false
      → Mirrors r.id t original new
      → filter (from_source f.id) (existing ++ new) ≡ filter (from_source f.id) existing
  originals_kept f r t existing original new ne h =
      rw (filter-append (from_source f.id) existing new) (
        rw (filter-other r.id f.id new ne (Mirrors-All r.id t original new h))
          (append-nil (filter (from_source f.id) existing)))

  -- After a call of `reverse_fill` that appended entries, whose ids do not repeat the ids there, a
  -- second call at a time whose reversal is new raises, since the fill is already reversed.
  pub reverse_fill_once :
      (entries : List LedgerEntry) (f r : PaperFill) (t u : Instant) (es : List LedgerEntry)
      → reverse_fill ids entries f (aware t) ≡ ok (r, es)
      → any (from_source r.id) (unique_entries entries) ≡ false
      → unique_entries es ≡ es
      → (r.id == f.id) ≡ false
      → any (from_source (ids.reversal_id f.id u)) es ≡ false
      → reverse_fill ids es f (aware u) ≡ raise (value_error "fill is already reversed")
  unfolding reverse_fill
  reverse_fill_once entries f r t u es h new_one distinct other fresh =
      elim ((reverse_fill_cases entries f r t es h).1) [
        | inl (_, known) ↦ absurd (ground arith)
        | inr (_, booked) ↦
            let existing = unique_entries entries in
            let original = filter (from_source f.id) existing in
            let (new, joined, mirrored, some_entry, _, _) =
              book_reversal_cases existing original r.id t es booked in
            let (s, again) =
              reversal_fill_again f r t u ((reverse_fill_cases entries f r t es h).0) in
            rw again (
              rw (reversal_fill_id f s u again) (
                rw distinct (
                  rw fresh (
                    rw joined (
                      rw (originals_kept f r t existing original new other mirrored) (
                        rw
                          (already_reversed existing original new r.id (ids.reversal_id f.id u) t u
                            some_entry mirrored)
                          refl))))))
      ]
