-- ===== src/Portfolio/Risk/Limits.antt =====
-- What the limits do to a proposed weight.
use aistock.Common.{
  ◌≡◌, ◌⊎◌, inl, inr, refl, sym, subst, true, false, List, [], ◌∷◌, ◌++◌, arith, is_empty, ℕ_eq,
  text_eq, pair_eq, Bool-cases, All,
}
use aistock.Decimal.{Decimal, whole, sub, le, lt, eq, max_of}
use aistock.Decimal.Order.{
  le_trans, le_refl, le_of_lt, lt-le_trans, le_of_not_lt, ne_of_lt, ne_of_gt,
}
use aistock.Decimal.Sign.{IsNonneg, add-IsNonneg, max_of-IsNonneg}
use aistock.Portfolio.Risk.Inputs.{RiskPolicy}
use aistock.Portfolio.Risk.Decision.{RiskReason}
use aistock.Portfolio.Risk.Gateway.{Budget, apply_limits, limits, reduce, adjust}

module _ (l w : Decimal) (r : RiskReason) (ls : List (Decimal × RiskReason))
    (rs : List RiskReason) where
  over_step : lt l w ≡ true → apply_limits ((l, r) ∷ ls) w rs ≡ apply_limits ls l (rs ++ r ∷ [])
  unfolding apply_limits
  over_step h = ground arith

  under_step : lt l w ≡ false → apply_limits ((l, r) ∷ ls) w rs ≡ apply_limits ls w rs
  unfolding apply_limits
  under_step h = ground arith

apply_limits-le :
    (ls : List (Decimal × RiskReason)) (w : Decimal) (rs : List RiskReason)
    → le (apply_limits ls w rs).0 w ≡ true
unfolding apply_limits
apply_limits-le [] w rs = le_refl w
apply_limits-le ((l, r) ∷ ls) w rs = elim (Bool-cases (lt l w)) [
  | inl over ↦
      rw (over_step l w r ls rs over)
        (le_trans _ l w (apply_limits-le ls l (rs ++ r ∷ [])) (le_of_lt l w over))
  | inr under ↦ rw (under_step l w r ls rs under) (apply_limits-le ls w rs)
]

abbrev pub IsBelow : Decimal → List (Decimal × RiskReason) → Type 0
IsBelow w ls = All (λ (l : Decimal × RiskReason). le w l.0 ≡ true) ls

-- The clipped weight is below every limit.
pub apply_limits-IsBelow :
    (ls : List (Decimal × RiskReason)) (w : Decimal) (rs : List RiskReason)
    → IsBelow (apply_limits ls w rs).0 ls
apply_limits-IsBelow [] w rs = tt
apply_limits-IsBelow ((l, r) ∷ ls) w rs = elim (Bool-cases (lt l w)) [
  | inl over ↦
      subst (λ (x : Decimal × List RiskReason). IsBelow x.0 ((l, r) ∷ ls))
        (sym (over_step l w r ls rs over))
        (apply_limits-le ls l (rs ++ r ∷ []), apply_limits-IsBelow ls l (rs ++ r ∷ []))
  | inr under ↦
      subst (λ (x : Decimal × List RiskReason). IsBelow x.0 ((l, r) ∷ ls))
        (sym (under_step l w r ls rs under))
        (
          le_trans _ w l (apply_limits-le ls w rs) (le_of_not_lt w l under),
          apply_limits-IsBelow ls w rs,
        )
]

is_empty-snoc : (rs : List RiskReason) (r : RiskReason) → is_empty (rs ++ r ∷ []) ≡ false
is_empty-snoc [] r = refl
is_empty-snoc (x ∷ rs) r = refl

below :
    (ls : List (Decimal × RiskReason)) (l w : Decimal) (rs : List RiskReason) (r : RiskReason)
    → lt l w ≡ true
    → (apply_limits ls l (rs ++ r ∷ []) ≡ (l, rs ++ r ∷ []))
      ⊎ (lt (apply_limits ls l (rs ++ r ∷ [])).0 l ≡ true)
        × (is_empty (apply_limits ls l (rs ++ r ∷ [])).1 ≡ false)
    → (lt (apply_limits ls l (rs ++ r ∷ [])).0 w ≡ true)
      × (is_empty (apply_limits ls l (rs ++ r ∷ [])).1 ≡ false)
below ls l w rs r over (inl same) = rw same (over, is_empty-snoc rs r)
below ls l w rs r over (inr (less, more)) = (lt-le_trans _ l w less (le_of_lt l w over), more)

-- A weight is left alone without a reason, or lowered with one.
pub apply_limits_cases :
    (ls : List (Decimal × RiskReason)) (w : Decimal) (rs : List RiskReason)
    → (apply_limits ls w rs ≡ (w, rs))
      ⊎ (lt (apply_limits ls w rs).0 w ≡ true) × (is_empty (apply_limits ls w rs).1 ≡ false)
unfolding apply_limits
apply_limits_cases [] w rs = inl refl
apply_limits_cases ((l, r) ∷ ls) w rs = elim (Bool-cases (lt l w)) [
  | inl over ↦
      rw (over_step l w r ls rs over)
        (inr (below ls l w rs r over (apply_limits_cases ls l (rs ++ r ∷ []))))
  | inr under ↦ rw (under_step l w r ls rs under) (apply_limits_cases ls w rs)
]

from_limits :
    (ls : List (Decimal × RiskReason)) (w : Decimal)
    → (apply_limits ls w [] ≡ (w, []))
      ⊎ (eq (apply_limits ls w []).0 w ≡ false) × (is_empty (apply_limits ls w []).1 ≡ false)
from_limits ls w = elim (apply_limits_cases ls w []) [
  | inl same ↦ inl same
  | inr (less, more) ↦ inr (ne_of_lt _ w less, more)
]

reduce_cases :
    (b : Budget) (current proposed : Decimal)
    → (reduce b current proposed ≡ (proposed, []))
      ⊎ (eq (reduce b current proposed).0 proposed ≡ false)
        × (is_empty (reduce b current proposed).1 ≡ false)
unfolding reduce
reduce_cases b current proposed =
    let minimum = max_of (whole 0) (sub current b.turnover) in
    elim (Bool-cases (lt proposed minimum)) [
      | inl less ↦ rw less (inr (ne_of_gt minimum proposed less, refl))
      | inr fits ↦ rw fits (inl refl)
    ]

-- The weight that `adjust` returns is the proposed one, without a reason, or another one with a
-- reason.
pub adjust_cases :
    (policy : RiskPolicy) (b : Budget) (current proposed : Decimal)
    → (adjust policy b current proposed ≡ (proposed, []))
      ⊎ (eq (adjust policy b current proposed).0 proposed ≡ false)
        × (is_empty (adjust policy b current proposed).1 ≡ false)
unfolding adjust
adjust_cases policy b current proposed = elim (Bool-cases (lt current proposed)) [
  | inl up ↦ rw up (from_limits (limits policy b current) proposed)
  | inr not_up ↦ rw not_up (elim (Bool-cases (lt proposed current)) [
    | inl down ↦ rw down (reduce_cases b current proposed)
    | inr same ↦ rw same (inl refl)
  ])
]

apply_limits-IsNonneg :
    (ls : List (Decimal × RiskReason)) (w : Decimal) (rs : List RiskReason)
    → All (λ (l : Decimal × RiskReason). IsNonneg l.0) ls
    → IsNonneg w
    → IsNonneg (apply_limits ls w rs).0
unfolding apply_limits
apply_limits-IsNonneg [] w rs h k = k
apply_limits-IsNonneg ((l, r) ∷ ls) w rs h k = elim (Bool-cases (lt l w)) [
  | inl over ↦ rw (over_step l w r ls rs over) (apply_limits-IsNonneg ls l (rs ++ r ∷ []) h.1 h.0)
  | inr under ↦ rw (under_step l w r ls rs under) (apply_limits-IsNonneg ls w rs h.1 k)
]

limits-IsNonneg :
    (policy : RiskPolicy) (b : Budget) (current : Decimal)
    → IsNonneg policy.max_position_weight
    → IsNonneg b.turnover
    → IsNonneg current
    → All (λ (l : Decimal × RiskReason). IsNonneg l.0) (limits policy b current)
unfolding limits
limits-IsNonneg policy b current hp ht hc =
    let gross =
      add-IsNonneg current (max_of (whole 0) (sub policy.max_gross_exposure b.gross)) hc in
    let cash = add-IsNonneg current (max_of (whole 0) (sub b.cash policy.min_cash_reserve)) hc in
    (
      hp,
      (
        gross (max_of-IsNonneg _),
        (cash (max_of-IsNonneg _), (add-IsNonneg current b.turnover hc ht, tt)),
      ),
    )

reduce-IsNonneg :
    (b : Budget) (current proposed : Decimal)
    → IsNonneg proposed
    → IsNonneg (reduce b current proposed).0
unfolding reduce
reduce-IsNonneg b current proposed h =
    let minimum = max_of (whole 0) (sub current b.turnover) in
    elim (Bool-cases (lt proposed minimum)) [
      | inl less ↦ rw less (max_of-IsNonneg (sub current b.turnover))
      | inr fits ↦ rw fits h
    ]

-- No adjusted weight is negative.
pub adjust-IsNonneg :
    (policy : RiskPolicy) (b : Budget) (current proposed : Decimal)
    → IsNonneg policy.max_position_weight
    → IsNonneg b.turnover
    → IsNonneg current
    → IsNonneg proposed
    → IsNonneg (adjust policy b current proposed).0
unfolding adjust
adjust-IsNonneg policy b current proposed hp ht hc hw = elim (Bool-cases (lt current proposed)) [
  | inl up ↦ rw up (
      apply_limits-IsNonneg (limits policy b current) proposed []
        (limits-IsNonneg policy b current hp ht hc) hw)
  | inr not_up ↦ rw not_up (elim (Bool-cases (lt proposed current)) [
    | inl down ↦ rw down (reduce-IsNonneg b current proposed hw)
    | inr same ↦ rw same hw
  ])
]
