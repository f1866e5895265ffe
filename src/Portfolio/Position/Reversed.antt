-- ===== src/Portfolio/Position/Reversed.antt =====
-- A fill that was reversed leaves no trace on the positions.
use mathlib.Core.List.{append-nil, append_assoc}
use aistock.Common.{
  ◌≡◌, refl, sym, ap, ◌∙◌, Bool, true, false, List, [], ◌∷◌, ◌++◌, map, filter, ◌==◌, ℕ_eq, Option,
  none, some, arith, ok, All, All-append, any-append,
}
use aistock.Dict.{unique_by-All, unique_by-snoc}
use aistock.Domain.Time.{Datetime, Instant, optional_aware}
use aistock.Portfolio.Fill.{PaperFill}
use aistock.Portfolio.Position.{
  SplitAdjustment, within, unique_fills, reverses, is_effective, fill_event, fill_events,
  visible_fills, rebuild_positions,
}

abbrev pub IsNew : PaperFill → PaperFill → Type 0
IsNew f g = (g.id == f.id) ≡ false

filter-append :
    (p : PaperFill → Bool) (xs ys : List PaperFill)
    → filter p (xs ++ ys) ≡ filter p xs ++ filter p ys
filter-append p [] ys = refl
filter-append p (x ∷ xs) ys = ground (arith, filter-append p xs ys)

filter_cong :
    (p q : PaperFill → Bool) (xs : List PaperFill)
    → All (λ x. p x ≡ q x) xs
    → filter p xs ≡ filter q xs
filter_cong p q [] h = refl
filter_cong p q (x ∷ xs) h = ground (arith, h.0, filter_cong p q xs h.1)

kept-New :
    (p : PaperFill → Bool) (f : PaperFill) (xs : List PaperFill)
    → All (IsNew f) xs
    → All (IsNew f) (filter p xs)
kept-New p f [] h = tt
kept-New p f (x ∷ xs) h = ground (arith, h.0, kept-New p f xs h.1)

module _ (f r : PaperFill) (own : f.reversal_of_id ≡ none)
    (undone : r.reversal_of_id ≡ some f.id) where
  same_effect :
      (us : List PaperFill) (g : PaperFill)
      → IsNew f g
      → is_effective (us ++ f ∷ r ∷ []) g ≡ is_effective us g
  unfolding is_effective
  same_effect us g n =
      rw (any-append (reverses g.id) us (f ∷ r ∷ []))
        (rw own (rw undone (ground (arith, ℕ_eq.beq_iff f.id g.id, ℕ_eq.beq_iff g.id f.id))))

  same_effects :
      (all_fills us : List PaperFill)
      → All (IsNew f) us
      → All (λ g. is_effective (all_fills ++ f ∷ r ∷ []) g ≡ is_effective all_fills g) us
  same_effects all_fills [] h = tt
  same_effects all_fills (g ∷ us) h = (same_effect all_fills g h.0, same_effects all_fills us h.1)

  both_gone : (us : List PaperFill) → filter (is_effective (us ++ f ∷ r ∷ [])) (f ∷ r ∷ []) ≡ []
  unfolding is_effective
  both_gone us =
      rw (any-append (reverses f.id) us (f ∷ r ∷ []))
        (rw own (rw undone (rw ((ℕ_eq.beq_iff f.id f.id).1 refl) (ground arith))))

  fill_events-reversed :
      (us : List PaperFill) → All (IsNew f) us → fill_events (us ++ f ∷ r ∷ []) ≡ fill_events us
  unfolding fill_events
  fill_events-reversed us n = ap (map fill_event) (
      filter-append (is_effective (us ++ f ∷ r ∷ [])) us (f ∷ r ∷ [])
      ∙ ap (λ (x : List PaperFill). filter (is_effective (us ++ f ∷ r ∷ [])) us ++ x) (both_gone us)
      ∙ append-nil (filter (is_effective (us ++ f ∷ r ∷ [])) us)
      ∙ filter_cong (is_effective (us ++ f ∷ r ∷ [])) (is_effective us) us (same_effects us us n))

visible_twice :
    (cutoff : Option Instant) (fills : List PaperFill) (f r : PaperFill)
    → All (IsNew f) fills
    → All (IsNew r) fills
    → IsNew r f
    → within cutoff f.filled_at ≡ true
    → within cutoff r.filled_at ≡ true
    → visible_fills cutoff (fills ++ f ∷ r ∷ []) ≡ visible_fills cutoff fills ++ f ∷ r ∷ []
visible_twice cutoff fills f r nf nr other pf pr =
    let p : PaperFill → Bool = λ (x : PaperFill). within cutoff x.filled_at in
    let seen = filter p fills in
    let both : filter p (f ∷ r ∷ []) ≡ f ∷ r ∷ [] = rw pf (rw pr refl) in
    ap unique_fills (
      filter-append p fills (f ∷ r ∷ [])
      ∙ ap (λ (x : List PaperFill). seen ++ x) both
      ∙ sym (append_assoc seen (f ∷ []) (r ∷ [])))
    ∙ unique_by-snoc (λ (x : PaperFill). x.id) (seen ++ f ∷ []) r
        (All-append (IsNew r) seen (f ∷ []) (kept-New p r fills nr) (other, tt))
    ∙ ap (λ (x : List PaperFill). x ++ r ∷ [])
        (unique_by-snoc (λ (x : PaperFill). x.id) seen f (kept-New p f fills nf))
    ∙ append_assoc (unique_fills seen) (f ∷ []) (r ∷ [])

-- Adding a fill, which is no reversal itself, together with its reversal, both with new ids and both
-- seen at the cutoff, does not change the positions that are rebuilt, nor whether they can be.
pub rebuild_positions_reversed :
    (fills : List PaperFill) (f r : PaperFill) (splits : List SplitAdjustment)
    (as_of : Option Datetime) (cutoff : Option Instant)
    → optional_aware as_of ≡ ok cutoff
    → f.reversal_of_id ≡ none
    → r.reversal_of_id ≡ some f.id
    → All (IsNew f) fills
    → All (IsNew r) fills
    → IsNew r f
    → within cutoff f.filled_at ≡ true
    → within cutoff r.filled_at ≡ true
    → rebuild_positions (fills ++ f ∷ r ∷ []) splits as_of ≡ rebuild_positions fills splits as_of
unfolding rebuild_positions
rebuild_positions_reversed fills f r splits as_of cutoff time own undone nf nr other pf pr =
    rw time (
      rw (visible_twice cutoff fills f r nf nr other pf pr) (
        rw
          (fill_events-reversed f r own undone (visible_fills cutoff fills) (
            unique_by-All (λ (x : PaperFill). x.id) (IsNew f) _
              (kept-New (λ (x : PaperFill). within cutoff x.filled_at) f fills nf)))
          refl))
