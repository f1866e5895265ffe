-- ===== src/MarketData/Fallback/Visible.antt =====
-- What the fallback policy answers has no records from the future.
use aistock.Common.{
  ◌+◌, ◌≤◌, ◌≡◌, inl, inr, Bool, true, false, ◌&&◌, not, List, [], ◌∷◌, map, arith, ltb,
  if◌then◌else◌, Text, any, is_empty, Eq, ℕ_eq, text_eq, pair_eq, Result, ok, raise, ◌>>=◌,
  Bool-cases, All, Result-cases, subst,
}
use aistock.Domain.Ids.{symbol}
use aistock.Domain.Time.{aware, Instant}
use aistock.MarketData.Fallback.{
  is_ok, is_missing, ProviderRecord, ProviderResponse, ResearchDataProvider, FallbackPolicy,
  Circuit, circuit_is_open, is_future, check_fallback, fallback_result, compare_responses, mark,
  after_primary, closed_again, fetch_at, fetch, freshest, payloads, same_payloads,
}

-- The records of a list were available by a time.
abbrev pub AreVisible : {P : Type 0} → Instant → List (ProviderRecord P) → Type 0
AreVisible {P = P} as_of rs = All (λ (r : ProviderRecord P). r.available_at ≤ as_of) rs

-- A response with the status OK has only such records.
abbrev pub IsVisible : {P : Type 0} → Instant → ProviderResponse P → Type 0
IsVisible as_of r = is_ok r.status ≡ true → AreVisible as_of r.records

abbrev Returns : {P : Type 0} → Instant → Result (ProviderResponse P) → Type 0
Returns as_of (ok r) = IsVisible as_of r
Returns as_of (raise e) = Unit

none_future :
    {P : Type 0} (as_of : Instant) (rs : List (ProviderRecord P))
    → any (is_future as_of) rs ≡ false
    → AreVisible as_of rs
none_future as_of [] h = tt
none_future as_of (r ∷ rs) h = (ground arith, none_future as_of rs (ground arith))

no_records :
    {P : Type 0} (as_of : Instant) (rs : List (ProviderRecord P))
    → is_empty rs ≡ true
    → AreVisible as_of rs
no_records as_of [] h = tt
no_records as_of (r ∷ rs) h = absurd (ground arith)

check_fallback-IsVisible :
    {P : Type 0} (policy : FallbackPolicy) (as_of : Instant) (warning : Text)
    (r : ProviderResponse P)
    → IsVisible as_of (check_fallback policy as_of warning r)
unfolding check_fallback
check_fallback-IsVisible policy as_of warning r =
    elim (Bool-cases (is_ok r.status && not (is_empty r.records))) [
      | inr empty ↦ rw empty (λ h. no_records as_of r.records (ground arith))
      | inl full ↦ rw full (elim (Bool-cases (any (is_future as_of) r.records)) [
        | inl future ↦ rw future (λ h. absurd (ground arith))
        | inr visible ↦
            rw visible (elim (Bool-cases (ltb (freshest r.records + policy.max_staleness) as_of)) [
              | inl stale ↦ rw stale (λ h. absurd (ground arith))
              | inr fresh ↦ rw fresh (λ h. none_future as_of r.records visible)
            ])
      ])
    ]

fallback_result-Returns :
    {P : Type 0} (policy : FallbackPolicy) (fallback : ResearchDataProvider P)
    (feed_type symbol : Text) (as_of : Instant) (warning : Text)
    → Returns as_of (fallback_result policy fallback feed_type symbol as_of warning)
unfolding fallback_result
fallback_result-Returns policy fallback feed_type symbol as_of warning =
    elim (Result-cases (fallback.fetch feed_type symbol as_of)) [
      | inl (r, e) ↦ rw e (check_fallback-IsVisible policy as_of warning r)
      | inr (x, e) ↦ rw e tt
    ]

marked :
    {P : Type 0} (as_of : Instant) (rs : List (ProviderRecord P))
    → AreVisible as_of rs
    → AreVisible as_of (map mark rs)
unfolding mark
marked as_of [] h = tt
marked as_of (r ∷ rs) h = (h.0, marked as_of rs h.1)

compare_responses-AreVisible :
    {P : Type 0} ⦃e : Eq P⦄ (as_of : Instant) (primary fallback : ProviderResponse P)
    → AreVisible as_of primary.records
    → AreVisible as_of (compare_responses as_of primary fallback).records
unfolding compare_responses
compare_responses-AreVisible as_of primary fallback h =
    elim (Bool-cases (not (is_ok fallback.status))) [
      | inl bad ↦ rw bad h
      | inr good ↦ rw good (elim (Bool-cases (any (is_future as_of) fallback.records)) [
        | inl future ↦ rw future h
        | inr visible ↦
            rw visible
              (elim (Bool-cases
                (same_payloads (payloads primary.records) (payloads fallback.records))) [
                  | inl same ↦ rw same h
                  | inr other ↦ rw other (marked as_of primary.records h)
                ])
      ])
    ]

answered :
    {P : Type 0} ⦃e : Eq P⦄ (compare : Bool) (fallback : ResearchDataProvider P)
    (feed_type symbol : Text) (as_of : Instant) (r : ProviderResponse P)
    → AreVisible as_of r.records
    → Returns as_of (
        if compare
        then (do
          other ← fallback.fetch feed_type symbol as_of
          ok (compare_responses as_of r other))
        else ok r)
answered false fallback feed_type symbol as_of r h = λ k. h
answered true fallback feed_type symbol as_of r h =
    elim (Result-cases (fallback.fetch feed_type symbol as_of)) [
      | inl (other, e) ↦ rw e (λ k. compare_responses-AreVisible as_of r other h)
      | inr (x, e) ↦ rw e tt
    ]

after_primary-Returns :
    {P : Type 0} ⦃e : Eq P⦄ (policy : FallbackPolicy) (primary fallback : ResearchDataProvider P)
    (feed_type symbol : Text) (as_of checked_at : Instant) (c : Circuit) (r : ProviderResponse P)
    → Returns as_of (after_primary policy primary fallback feed_type symbol as_of checked_at c r).0
unfolding after_primary
after_primary-Returns policy primary fallback feed_type symbol as_of checked_at c r =
    elim (Bool-cases (is_ok r.status)) [
      | inl good ↦ rw good (elim (Bool-cases (any (is_future as_of) r.records)) [
        | inl future ↦ rw future (fallback_result-Returns policy fallback feed_type symbol as_of _)
        | inr visible ↦ rw visible (
            answered policy.compare_on_success fallback feed_type symbol as_of r
              (none_future as_of r.records visible))
      ])
      | inr bad ↦ rw bad (elim (Bool-cases (is_missing r.status)) [
        | inl missing ↦ rw missing (λ h. absurd (ground arith))
        | inr failed ↦ rw failed (fallback_result-Returns policy fallback feed_type symbol as_of _)
      ])
    ]

fetch_at-Returns :
    {P : Type 0} ⦃e : Eq P⦄ (policy : FallbackPolicy) (primary fallback : ResearchDataProvider P)
    (feed_type symbol : Text) (as_of checked_at : Instant) (c : Circuit)
    → Returns as_of (fetch_at policy primary fallback feed_type symbol as_of checked_at c).0
unfolding fetch_at
fetch_at-Returns policy primary fallback feed_type symbol as_of checked_at c =
    elim (Bool-cases (circuit_is_open policy c checked_at)) [
      | inl is_open ↦ rw is_open (fallback_result-Returns policy fallback feed_type symbol as_of _)
      | inr is_closed ↦ rw is_closed (elim (Result-cases (primary.fetch feed_type symbol as_of)) [
        | inl (r, e) ↦ rw e (
            after_primary-Returns policy primary fallback feed_type symbol as_of checked_at
              (closed_again c) r)
        | inr (x, e) ↦ rw e tt
      ])
    ]

-- No look-ahead: whatever the two providers answer, and whatever the state of the circuit, a response
-- of the policy that has the status OK holds only records that were available at the time asked for.
pub fetch-IsVisible :
    {P : Type 0} ⦃e : Eq P⦄ (policy : FallbackPolicy) (primary fallback : ResearchDataProvider P)
    (feed_type symbol : Text) (as_of now : Instant) (c : Circuit) (r : ProviderResponse P)
    → (fetch policy primary fallback feed_type symbol (aware as_of) (aware now) c).0 ≡ ok r
    → is_ok r.status ≡ true
    → All (λ (x : ProviderRecord P). x.available_at ≤ as_of) r.records
unfolding fetch
fetch-IsVisible policy primary fallback feed_type symbol as_of now c r h =
    subst (Returns as_of) h (fetch_at-Returns policy primary fallback feed_type symbol as_of now c)
