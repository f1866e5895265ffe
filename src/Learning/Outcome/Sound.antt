-- ===== src/Learning/Outcome/Sound.antt =====
-- An outcome uses what was known at its cutoff.
use aistock.Common.{
  ◌≤◌, ◌≡◌, refl, true, false, List, [], ◌∷◌, arith, leb, any, filter, ℕ_eq, text_eq, pair_eq,
  Option, none, some, ok, raise_if, All, ok-injective, >>=-eq-ok, >>-eq-ok, subst,
}
use aistock.Decimal.{Decimal, whole, le, min_of, max_of}
use aistock.Domain.Ids.{Uuid}
use aistock.Domain.Time.{Datetime, naive, aware, Instant}
use aistock.Decimal.Order.{le_trans, le_refl, le-max_of_left, min_of-le_left}
use aistock.Learning.Outcome.{
  Horizon, horizons, target_of, DecisionForReview, PriceObservation, DecisionOutcome, visible,
  is_late, matured_at, price_at_or_after, returns_at, keep, path_returns, max_from, min_from,
  outcome_of, compute_outcome, return_of,
}

-- Observations that were available at a time.
abbrev pub AreKnown : Instant → List PriceObservation → Type 0
AreKnown cutoff os = All (λ (o : PriceObservation). o.available_at ≤ cutoff) os

none_late :
    (cutoff : Instant) (os : List PriceObservation)
    → any (is_late cutoff) os ≡ false
    → AreKnown cutoff os
none_late cutoff [] h = tt
none_late cutoff (o ∷ os) h = (ground arith, none_late cutoff os (ground arith))

visible-AreKnown :
    (os seen : List PriceObservation) (cutoff : Instant)
    → visible os cutoff ≡ ok seen
    → AreKnown cutoff os
unfolding visible
visible-AreKnown os seen cutoff h =
    let (none_is, _) = >>-eq-ok (raise_if (any (is_late cutoff) os) _) _ h in
    none_late cutoff os (ground arith)

keep-All {ℓ κ} :
    {A : Type ℓ} (Q : A → Type κ) (f : Decimal → A) (p : Option Decimal) (rest : List A)
    → ((x : Decimal) → Q (f x))
    → All Q rest
    → All Q (keep f p rest)
keep-All Q f none rest q h = h
keep-All Q f (some p) rest q h = (q p, h)

returns_at-All :
    (d : DecisionForReview) (prices : List PriceObservation) (cutoff : Instant) (hs : List Horizon)
    → All (λ (h : Horizon). target_of d.decision_time h ≤ cutoff) hs
    → All
        (λ (r : Horizon × Decimal). target_of d.decision_time r.0 ≤ cutoff)
        (returns_at d prices hs)
unfolding returns_at
returns_at-All d prices cutoff [] k = tt
returns_at-All d prices cutoff (h ∷ hs) k =
    keep-All _ (λ p. (h, return_of p d.reference_price))
      (price_at_or_after prices (target_of d.decision_time h)) _ (λ x. k.0)
      (returns_at-All d prices cutoff hs k.1)

matured_at-All :
    (time cutoff : Instant) (hs : List Horizon)
    → All
        (λ (h : Horizon). target_of time h ≤ cutoff)
        (filter (λ (h : Horizon). leb (target_of time h) cutoff) hs)
matured_at-All time cutoff [] = tt
matured_at-All time cutoff (h ∷ hs) = ground (arith, matured_at-All time cutoff hs)

max_from-le : (best : Decimal) (xs : List Decimal) → le best (max_from best xs) ≡ true
max_from-le best [] = le_refl best
max_from-le best (x ∷ xs) =
    le_trans best (max_of best x) (max_from (max_of best x) xs) (le-max_of_left best x)
      (max_from-le (max_of best x) xs)

min_from-le : (best : Decimal) (xs : List Decimal) → le (min_from best xs) best ≡ true
min_from-le best [] = le_refl best
min_from-le best (x ∷ xs) =
    le_trans (min_from (min_of best x) xs) (min_of best x) best (min_from-le (min_of best x) xs)
      (min_of-le_left best x)

-- No look-ahead: an outcome is computed only from prices and benchmark prices that were all available
-- at its cutoff, its returns are at horizons that have passed by then, its favorable excursion is not
-- negative and its adverse excursion is not positive.
pub compute_outcome_sound :
    (id : Uuid) (d : DecisionForReview) (prices benchmark : List PriceObservation)
    (as_of : Datetime) (o : DecisionOutcome)
    → compute_outcome id d prices benchmark as_of ≡ ok o
    → (as_of ≡ aware o.computed_at)
      × AreKnown o.computed_at prices
      × AreKnown o.computed_at benchmark
      × All (λ (r : Horizon × Decimal). target_of d.decision_time r.0 ≤ o.computed_at) o.returns
      × (le (whole 0) o.maximum_favorable_excursion ≡ true)
      × (le o.maximum_adverse_excursion (whole 0) ≡ true)
unfolding compute_outcome outcome_of matured_at
compute_outcome_sound id d prices benchmark naive o h = cc
compute_outcome_sound id d prices benchmark (aware cutoff) o h =
    let (seen, at, h1) = >>=-eq-ok (visible prices cutoff) _ h in
    let (others, too, last) = >>=-eq-ok (visible benchmark cutoff) _ h1 in
    subst
      (λ (x : DecisionOutcome).
        (aware cutoff ≡ aware x.computed_at)
        × AreKnown x.computed_at prices
        × AreKnown x.computed_at benchmark
        × All (λ (r : Horizon × Decimal). target_of d.decision_time r.0 ≤ x.computed_at) x.returns
        × (le (whole 0) x.maximum_favorable_excursion ≡ true)
        × (le x.maximum_adverse_excursion (whole 0) ≡ true))
      (ok-injective last)
      (
        refl,
        visible-AreKnown prices seen cutoff at,
        visible-AreKnown benchmark others cutoff too,
        returns_at-All d seen cutoff _ (matured_at-All d.decision_time cutoff horizons),
        max_from-le (whole 0) (path_returns d seen),
        min_from-le (whole 0) (path_returns d seen),
      )
