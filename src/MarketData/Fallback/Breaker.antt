-- ===== src/MarketData/Fallback/Breaker.antt =====
-- The circuit of the fallback policy: when it opens, and what an open circuit does.
use aistock.Common.{
  suc, ◌+◌, ◌≤◌, ◌<◌, ◌≡◌, ◌⊎◌, inl, inr, refl, true, false, List, [], ◌∷◌, ◌++◌, arith, Text,
  length, any, Eq, ℕ_eq, text_eq, pair_eq, none, some, ok, Bool-cases, codes, Result-cases, ap, ◌∙◌,
}
use aistock.Domain.Ids.{symbol}
use aistock.Domain.Time.{Datetime, naive, aware, Instant}
use aistock.MarketData.Fallback.{
  is_ok, is_missing, ProviderResponse, ResearchDataProvider, FallbackPolicy, Circuit, new_circuit,
  circuit_is_open, is_future, fallback_result, after_primary, closed_again, fetch_at, fetch,
  record_failure,
}

-- A call of `fetch`, with what the providers do then.
pub record Query (P : Type 0) : Type 0 where
  pub primary : ResearchDataProvider P
  pub fallback : ResearchDataProvider P
  pub feed_type : Text
  pub symbol : Text
  pub as_of : Datetime
  pub now : Datetime

-- The circuit after some calls.
unfoldable pub fetch_all :
    {P : Type 0} ⦃e : Eq P⦄ → FallbackPolicy → Circuit → List (Query P) → Circuit
fetch_all policy c [] = c
fetch_all policy c (q ∷ qs) =
    fetch_all policy (fetch policy q.primary q.fallback q.feed_type q.symbol q.as_of q.now c).1 qs

-- A circuit is open since some time when the threshold is reached, and only then.
abbrev pub IsSettled : FallbackPolicy → Circuit → Type 0
IsSettled policy c = elim c.opened_at [
  | none ↦ c.failures < policy.failure_threshold
  | some _ ↦ policy.failure_threshold ≤ c.failures
]

record_failure-IsSettled :
    (policy : FallbackPolicy) (now : Instant) (c : Circuit)
    → c.opened_at ≡ none
    → IsSettled policy (record_failure policy now c)
unfolding record_failure
record_failure-IsSettled policy now c h = ground arith

closed_again-IsSettled :
    (policy : FallbackPolicy) (c : Circuit)
    → 1 ≤ policy.failure_threshold
    → IsSettled policy c
    → IsSettled policy (closed_again c) × ((closed_again c).opened_at ≡ none)
closed_again-IsSettled policy c h v = ground arith

reset_circuit :
    (policy : FallbackPolicy) (c : Circuit)
    → 1 ≤ policy.failure_threshold
    → c.opened_at ≡ none
    → IsSettled policy (record c { failures = 0 })
reset_circuit policy c h n = ground arith

after_primary-IsSettled :
    {P : Type 0} ⦃e : Eq P⦄ (policy : FallbackPolicy) (primary fallback : ResearchDataProvider P)
    (feed_type symbol : Text) (as_of now : Instant) (c : Circuit) (r : ProviderResponse P)
    → 1 ≤ policy.failure_threshold
    → IsSettled policy c
    → c.opened_at ≡ none
    → IsSettled policy (after_primary policy primary fallback feed_type symbol as_of now c r).1
unfolding after_primary
after_primary-IsSettled policy primary fallback feed_type symbol as_of now c r h v n =
    elim (Bool-cases (is_ok r.status)) [
      | inl good ↦ rw good (elim (Bool-cases (any (is_future as_of) r.records)) [
        | inl future ↦ rw future (record_failure-IsSettled policy now c n)
        | inr visible ↦ rw visible (reset_circuit policy c h n)
      ])
      | inr bad ↦ rw bad (elim (Bool-cases (is_missing r.status)) [
        | inl missing ↦ rw missing v
        | inr failed ↦ rw failed (record_failure-IsSettled policy now c n)
      ])
    ]

fetch_at-IsSettled :
    {P : Type 0} ⦃e : Eq P⦄ (policy : FallbackPolicy) (primary fallback : ResearchDataProvider P)
    (feed_type symbol : Text) (as_of now : Instant) (c : Circuit)
    → 1 ≤ policy.failure_threshold
    → IsSettled policy c
    → IsSettled policy (fetch_at policy primary fallback feed_type symbol as_of now c).1
unfolding fetch_at
fetch_at-IsSettled policy primary fallback feed_type symbol as_of now c h v =
    let (w, n) = closed_again-IsSettled policy c h v in
    elim (Bool-cases (circuit_is_open policy c now)) [
      | inl is_open ↦ rw is_open v
      | inr is_closed ↦ rw is_closed (elim (Result-cases (primary.fetch feed_type symbol as_of)) [
        | inl (r, e) ↦ rw e (
            after_primary-IsSettled policy primary fallback feed_type symbol as_of now
              (closed_again c) r h w n)
        | inr (x, e) ↦ rw e w
      ])
    ]

fetch-IsSettled :
    {P : Type 0} ⦃e : Eq P⦄ (policy : FallbackPolicy) (q : Query P) (as_of now : Datetime)
    (c : Circuit)
    → 1 ≤ policy.failure_threshold
    → IsSettled policy c
    → IsSettled policy (fetch policy q.primary q.fallback q.feed_type q.symbol as_of now c).1
unfolding fetch
fetch-IsSettled policy q (aware t) (aware n) c h v =
    fetch_at-IsSettled policy q.primary q.fallback q.feed_type q.symbol t n c h v
fetch-IsSettled policy q naive n c h v = v
fetch-IsSettled policy q (aware t) naive c h v = v

circuit_after :
    {P : Type 0} ⦃e : Eq P⦄ (policy : FallbackPolicy) (c : Circuit) (qs : List (Query P))
    → 1 ≤ policy.failure_threshold
    → IsSettled policy c
    → IsSettled policy (fetch_all policy c qs)
unfolding fetch_all
circuit_after policy c [] h v = v
circuit_after policy c (q ∷ qs) h v =
    circuit_after policy (fetch policy q.primary q.fallback q.feed_type q.symbol q.as_of q.now c).1
      qs h (fetch-IsSettled policy q q.as_of q.now c h v)

-- When the threshold is at least one, after any calls on a new circuit, whatever the providers answered
-- or raised, the circuit has been opened exactly when the failures it counts reach the threshold.
pub fetch_all-IsSettled :
    {P : Type 0} ⦃e : Eq P⦄ (policy : FallbackPolicy) (qs : List (Query P))
    → 1 ≤ policy.failure_threshold
    → IsSettled policy (fetch_all policy new_circuit qs)
fetch_all-IsSettled policy qs h = circuit_after policy new_circuit qs h (ground arith)

-- A call in which the primary answers with a failure, or with records from the future.
pub record Fails {P : Type 0} (q : Query P) (time : Instant) : Type 0 where
  pub cutoff : Instant
  pub at : q.now ≡ aware time
  pub asks : q.as_of ≡ aware cutoff
  pub response : ProviderResponse P
  pub answers : q.primary.fetch q.feed_type q.symbol cutoff ≡ ok response
  pub fails :
      (is_ok response.status ≡ true) × (any (is_future cutoff) response.records ≡ true)
      ⊎ (is_ok response.status ≡ false) × (is_missing response.status ≡ false)

idle :
    (policy : FallbackPolicy) (c : Circuit) (time : Instant)
    → c.opened_at ≡ none
    → (circuit_is_open policy c time ≡ false) × (closed_again c ≡ c)
idle policy c time h = (rw h refl, rw h refl)

fetch_at-Fails :
    {P : Type 0} ⦃e : Eq P⦄ (policy : FallbackPolicy) (q : Query P) (time : Instant) (c : Circuit)
    (f : Fails q time)
    → c.opened_at ≡ none
    → (fetch_at policy q.primary q.fallback q.feed_type q.symbol f.cutoff time c).1
      ≡ record_failure policy time c
unfolding fetch_at after_primary
fetch_at-Fails policy q time c f h =
    let (closed, same) = idle policy c time h in
    rw closed (
      rw same (
        rw f.answers (elim f.fails [
          | inl (good, future) ↦ rw good (rw future refl)
          | inr (bad, failed) ↦ rw bad (rw failed refl)
        ])))

fetch-Fails :
    {P : Type 0} ⦃e : Eq P⦄ (policy : FallbackPolicy) (q : Query P) (time : Instant) (c : Circuit)
    → c.opened_at ≡ none
    → Fails q time
    → (fetch policy q.primary q.fallback q.feed_type q.symbol q.as_of q.now c).1
      ≡ record_failure policy time c
unfolding fetch
fetch-Fails policy q time c h f = rw f.asks (rw f.at (fetch_at-Fails policy q time c f h))

-- Calls that all fail, the last of them at a time.
abbrev pub AllFail : {P : Type 0} → List (Query P) → Instant → Type 0
AllFail [] time = ⊥
AllFail (q ∷ []) time = Fails q time
AllFail (q ∷ r ∷ qs) time = ((t : Instant) × Fails q t) × AllFail (r ∷ qs) time

tripped :
    (policy : FallbackPolicy) (now : Instant) (c : Circuit)
    → suc c.failures ≡ policy.failure_threshold
    → (record_failure policy now c).opened_at ≡ some now
unfolding record_failure
tripped policy now c h = ground arith

untripped :
    (policy : FallbackPolicy) (now : Instant) (c : Circuit)
    → suc c.failures < policy.failure_threshold
    → c.opened_at ≡ none
    → ((record_failure policy now c).opened_at ≡ none)
      × ((record_failure policy now c).failures ≡ suc c.failures)
unfolding record_failure
untripped policy now c h n = ground arith

trips :
    {P : Type 0} ⦃e : Eq P⦄ (policy : FallbackPolicy) (c : Circuit) (qs : List (Query P))
    (time : Instant)
    → c.opened_at ≡ none
    → c.failures + length qs ≡ policy.failure_threshold
    → AllFail qs time
    → (fetch_all policy c qs).opened_at ≡ some time
unfolding fetch_all
trips policy c [] time n h f = absurd f
trips policy c (q ∷ []) time n h f =
    ap (λ (x : Circuit). x.opened_at) (fetch-Fails policy q time c n f)
    ∙ tripped policy time c (omega (arith, h))
trips policy c (q ∷ r ∷ qs) time n h f =
    let (t, fails) = f.0 in
    let next = fetch-Fails policy q t c n fails in
    let (closed, counted) = untripped policy t c (omega (arith, h)) n in
    trips policy (fetch policy q.primary q.fallback q.feed_type q.symbol q.as_of q.now c).1 (r ∷ qs)
      time (ap (λ (x : Circuit). x.opened_at) next ∙ closed)
      (ap (λ (x : Circuit). x.failures + length (r ∷ qs)) next ∙ omega (arith, h, counted)) f.1

-- When as many calls in a row on a new circuit as the threshold says have found the primary failing or
-- answering with records from the future, then a call before the reset timeout has passed since the
-- last of them returns the checked answer of the fallback, with the warning that the circuit is open,
-- whatever the primary would answer, and leaves the circuit as it is.
pub fetch_tripped :
    {P : Type 0} ⦃e : Eq P⦄ (policy : FallbackPolicy) (qs : List (Query P)) (time : Instant)
    (primary fallback : ResearchDataProvider P) (feed_type symbol : Text) (as_of now : Instant)
    → length qs ≡ policy.failure_threshold
    → AllFail qs time
    → now < time + policy.reset_timeout
    → fetch policy primary fallback feed_type symbol
        (aware as_of)
        (aware now)
        (fetch_all policy new_circuit qs)
      ≡ (
        fallback_result policy fallback feed_type symbol as_of
            (codes "circuit_open=" ++ primary.name),
        fetch_all policy new_circuit qs,
      )
unfolding fetch fetch_at
fetch_tripped policy qs time primary fallback feed_type symbol as_of now h f early =
    let since : (fetch_all policy new_circuit qs).opened_at ≡ some time =
      trips policy new_circuit qs time refl (omega (arith, h)) f in
    let is_open : circuit_is_open policy (fetch_all policy new_circuit qs) now ≡ true =
      rw since (ground arith) in
    rw is_open refl
