-- ===== src/Portfolio/CorporateActions/Adjust.antt =====
-- Corporate actions change a position once.
use aistock.Common.{
  ◌≡◌, ◌⊎◌, inl, inr, refl, Bool, true, false, ◌||◌, not, List, [], ◌∷◌, arith, Text, ◌==◌, ℕ_eq,
  text_eq, pair_eq, Bool-cases, sort_by, All, ap₂, sym, ◌∙◌, subst,
}
use aistock.Decimal.{Decimal}
use aistock.Domain.Ids.{Uuid}
use aistock.Portfolio.Position.{Position}
use aistock.Portfolio.CorporateActions.{
  ActionKind, split, stock_dividend, adr_ratio_change, reference_action, cash_dividend,
  CorporateAction, Adjusting, is_in, meets, apply_kind, adjust_by, adjust_all,
  adjust_position_with_gaps, adjust_position, unique_actions, action_lt,
}

-- What is applied stays applied.
abbrev Extends : List Uuid → List Uuid → Type 0
Extends a b = (id : Uuid) → is_in a id ≡ true → is_in b id ≡ true

meets-Extends : (chain a b : List Uuid) → Extends a b → meets chain a ≡ true → meets chain b ≡ true
meets-Extends [] a b h m = absurd (ground arith)
meets-Extends (x ∷ chain) a b h m = ground (arith, h x, meets-Extends chain a b h)

-- An action that is done with: a later round over it changes neither the quantity nor the ids.
abbrev IsDone : Text → List Uuid → CorporateAction → Type 0
IsDone name applied a =
    (s : Adjusting)
    → Extends applied s.applied_ids
    → ((adjust_by name s a).quantity ≡ s.quantity)
      × ((adjust_by name s a).applied_ids ≡ s.applied_ids)

apply_kind-Extends :
    (id : Uuid) (k : ActionKind) (s : Adjusting)
    → Extends s.applied_ids (apply_kind id k s).applied_ids
unfolding apply_kind
apply_kind-Extends id (split r) s x h = ground arith
apply_kind-Extends id (stock_dividend r) s x h = ground arith
apply_kind-Extends id (adr_ratio_change o n) s x h = ground arith
apply_kind-Extends id (reference_action t) s x h = h
apply_kind-Extends id (cash_dividend c n) s x h = h

adjust_by-Extends :
    (name : Text) (s : Adjusting) (a : CorporateAction)
    → Extends s.applied_ids (adjust_by name s a).applied_ids
unfolding adjust_by
adjust_by-Extends name s a x h = ground (arith, apply_kind-Extends a.header.id a.kind s x h)

adjust_all-Extends :
    (name : Text) (s : Adjusting) (actions : List CorporateAction)
    → Extends s.applied_ids (adjust_all name s actions).applied_ids
unfolding adjust_all
adjust_all-Extends name s [] x h = h
adjust_all-Extends name s (a ∷ actions) x h =
    adjust_all-Extends name (adjust_by name s a) actions x (adjust_by-Extends name s a x h)

-- A kind that changes the position records its id; the others change nothing of it.
apply_kind_cases :
    (id : Uuid) (k : ActionKind) (s : Adjusting)
    → (is_in (apply_kind id k s).applied_ids id ≡ true)
      ⊎ ((u : Adjusting)
          → ((apply_kind id k u).quantity ≡ u.quantity)
            × ((apply_kind id k u).applied_ids ≡ u.applied_ids))
unfolding apply_kind
apply_kind_cases id (split r) s = inl (rw ((ℕ_eq.beq_iff id id).1 refl) refl)
apply_kind_cases id (stock_dividend r) s = inl (rw ((ℕ_eq.beq_iff id id).1 refl) refl)
apply_kind_cases id (adr_ratio_change o n) s = inl (rw ((ℕ_eq.beq_iff id id).1 refl) refl)
apply_kind_cases id (reference_action t) s = inr (λ u. (refl, refl))
apply_kind_cases id (cash_dividend c n) s = inr (λ u. (refl, refl))

skipped :
    (name : Text) (a : CorporateAction) (u : Adjusting)
    → (not (a.header.symbol == name) || is_in u.applied_ids a.header.id) ≡ true
    → ((adjust_by name u a).quantity ≡ u.quantity)
      × ((adjust_by name u a).applied_ids ≡ u.applied_ids)
unfolding adjust_by
skipped name a u h = ground arith

gapped :
    (name : Text) (a : CorporateAction) (u : Adjusting)
    → meets a.header.supersedes_chain u.applied_ids ≡ true
    → ((adjust_by name u a).quantity ≡ u.quantity)
      × ((adjust_by name u a).applied_ids ≡ u.applied_ids)
unfolding adjust_by
gapped name a u h = ground arith

inert :
    (name : Text) (a : CorporateAction) (u : Adjusting)
    → ((apply_kind a.header.id a.kind u).quantity ≡ u.quantity)
      × ((apply_kind a.header.id a.kind u).applied_ids ≡ u.applied_ids)
    → ((adjust_by name u a).quantity ≡ u.quantity)
      × ((adjust_by name u a).applied_ids ≡ u.applied_ids)
unfolding adjust_by
inert name a u h = ground arith

or_right : (a b : Bool) → b ≡ true → (a || b) ≡ true
or_right a b h = ground arith

applied_branch :
    (name : Text) (s : Adjusting) (a : CorporateAction)
    → (not (a.header.symbol == name) || is_in s.applied_ids a.header.id) ≡ false
    → meets a.header.supersedes_chain s.applied_ids ≡ false
    → adjust_by name s a ≡ apply_kind a.header.id a.kind s
unfolding adjust_by
applied_branch name s a h g = rw h (rw g refl)

skip_kept : (c x y : Bool) → (x ≡ true → y ≡ true) → (c || x) ≡ true → (c || y) ≡ true
skip_kept c x y h e = ground (arith, h)

adjust_by-IsDone :
    (name : Text) (s : Adjusting) (a : CorporateAction)
    → IsDone name (adjust_by name s a).applied_ids a
adjust_by-IsDone name s a u h =
    let id = a.header.id in
    let kept : Extends s.applied_ids u.applied_ids = λ x m. h x (adjust_by-Extends name s a x m) in
    elim (Bool-cases (not (a.header.symbol == name) || is_in s.applied_ids id)) [
      | inl out ↦ skipped name a u (
          skip_kept (not (a.header.symbol == name)) (is_in s.applied_ids id)
            (is_in u.applied_ids id) (kept id) out)
      | inr kept_in ↦ elim (Bool-cases (meets a.header.supersedes_chain s.applied_ids)) [
        | inl revised ↦
            gapped name a u
              (meets-Extends a.header.supersedes_chain s.applied_ids u.applied_ids kept revised)
        | inr fresh ↦ elim (apply_kind_cases id a.kind s) [
          | inl recorded ↦ skipped name a u (
              or_right (not (a.header.symbol == name)) (is_in u.applied_ids id) (
                h id (
                  subst (λ (x : Adjusting). is_in x.applied_ids id ≡ true)
                    (sym (applied_branch name s a kept_in fresh)) recorded)))
          | inr unchanged ↦ inert name a u (unchanged u)
        ]
      ]
    ]

adjust_all-done :
    (name : Text) (u : Adjusting) (actions : List CorporateAction) (applied : List Uuid)
    → All (IsDone name applied) actions
    → Extends applied u.applied_ids
    → ((adjust_all name u actions).quantity ≡ u.quantity)
      × ((adjust_all name u actions).applied_ids ≡ u.applied_ids)
unfolding adjust_all
adjust_all-done name u [] applied h e = (refl, refl)
adjust_all-done name u (a ∷ actions) applied h e =
    let one = h.0 u e in
    let rest =
      adjust_all-done name (adjust_by name u a) actions applied h.1
        (subst (Extends applied) (sym one.1) e) in
    (rest.0 ∙ one.0, rest.1 ∙ one.1)

adjust_all-All :
    (name : Text) (s : Adjusting) (actions : List CorporateAction)
    → All (IsDone name (adjust_all name s actions).applied_ids) actions
unfolding adjust_all
adjust_all-All name s [] = tt
adjust_all-All name s (a ∷ actions) = (
  λ u e.
      adjust_by-IsDone name s a u
        (λ x m. e x (adjust_all-Extends name (adjust_by name s a) actions x m)),
  adjust_all-All name (adjust_by name s a) actions,
)

with_quantity : Text → Decimal → List Uuid → Position
with_quantity name q ids = record { symbol = name; quantity = q; applied_split_ids = ids }

-- Adjusting a position by the same actions a second time gives the same position: no split, stock
-- dividend or ratio change is applied twice, also where an action revises another.
pub adjust_position_idem :
    (p : Position) (actions : List CorporateAction)
    → adjust_position (adjust_position p actions) actions ≡ adjust_position p actions
unfolding adjust_position adjust_position_with_gaps with_quantity
adjust_position_idem p actions =
    let sorted_actions = sort_by action_lt (unique_actions actions) in
    let start : Adjusting = record {
      quantity = p.quantity;
      applied_ids = p.applied_split_ids;
      gaps = [];
    } in
    let s = adjust_all p.symbol start sorted_actions in
    let again : Adjusting = record {
      quantity = s.quantity;
      applied_ids = s.applied_ids;
      gaps = [];
    } in
    let (quantity, applied) =
      adjust_all-done p.symbol again sorted_actions s.applied_ids
        (adjust_all-All p.symbol start sorted_actions) (λ x m. m) in
    ap₂ (with_quantity p.symbol) quantity applied
