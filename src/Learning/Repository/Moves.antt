-- ===== src/Learning/Repository/Moves.antt =====
-- The transitions of a status, and what storing a candidate does to the statuses.
use aistock.Common.{
  ◌≡◌, ◌⊎◌, inl, inr, refl, Bool, true, false, [], ◌∷◌, arith, if◌then◌else◌, ◌==◌, ℕ_eq, text_eq,
  pair_eq, Option, none, some, ok, All, ap, sym, ◌∙◌, subst,
}
use aistock.Domain.Ids.{Uuid}
use aistock.Dict.{Dict, lookup, get_or, All-insert_entry, lookup-insert}
use aistock.Learning.Policy.{
  PolicyStatus, candidate, approved, active, rejected, rolled_back, PolicyCandidate,
}
use aistock.Learning.Repository.{Change, InMemoryPolicyRepository, transact}
use aistock.Learning.Repository.Effect.{transact-Transacted}

-- The transitions of the status.
pub data Move : PolicyStatus → PolicyStatus → Type 0 where
  approves : Move candidate approved
  rejects : Move candidate rejected
  activates : Move approved active
  rolls_back : Move active rolled_back

-- One call: a candidate keeps its status, moves, or is stored for the first time by a first move.
pub data Evolves : Option PolicyStatus → Option PolicyStatus → Type 0 where
  stays : (x : Option PolicyStatus) → Evolves x x
  enters : (s : PolicyStatus) → Move candidate s → Evolves none (some s)
  moves : (s t : PolicyStatus) → Move s t → Evolves (some s) (some t)

-- Any number of calls.
pub data Trail : Option PolicyStatus → Option PolicyStatus → Type 0 where
  done : (x : Option PolicyStatus) → Trail x x
  step : (x y z : Option PolicyStatus) → Evolves x y → Trail y z → Trail x z

unfoldable pub status_in : Option PolicyCandidate → Option PolicyStatus
status_in none = none
status_in (some c) = some c.status

-- The status that a repository holds for an id.
abbrev pub status_of : Uuid → InMemoryPolicyRepository → Option PolicyStatus
status_of id r = status_in (lookup id r.candidates)

-- Each candidate is stored under its own id.
abbrev pub IsKeyed : InMemoryPolicyRepository → Type 0
IsKeyed r = All (λ (p : Uuid × PolicyCandidate). p.1.id ≡ p.0) r.candidates

get_or-id :
    (c : PolicyCandidate) (d : Dict Uuid PolicyCandidate)
    → All (λ (p : Uuid × PolicyCandidate). p.1.id ≡ p.0) d
    → (get_or c.id c d).id ≡ c.id
get_or-id c [] h = refl
get_or-id c ((k, x) ∷ d) h = ground (arith, get_or-id c d h.1)

lookup-get_or :
    (k : Uuid) (c : PolicyCandidate) (d : Dict Uuid PolicyCandidate)
    → (lookup k d ≡ none) ⊎ (lookup k d ≡ some (get_or k c d))
lookup-get_or k c [] = inl refl
lookup-get_or k c ((j, x) ∷ d) = ground (arith, lookup-get_or k c d)

pub transact-IsKeyed :
    (r s : InMemoryPolicyRepository) (c : Change) (next : PolicyStatus) (u : PolicyCandidate)
    → IsKeyed r
    → transact r c next ≡ ok (u, s)
    → IsKeyed s
transact-IsKeyed r s c next u k h =
    let t = transact-Transacted r c next u s h in
    subst IsKeyed (sym t.state)
      (All-insert_entry (λ (p : Uuid × PolicyCandidate). p.1.id ≡ p.0) u.id u r.candidates refl k)

-- From what is stored under an id to what is stored there afterwards, when `u` may have been stored
-- under its own id.
kept_or_written :
    (here : Bool) (u : PolicyCandidate) (old new : Option PolicyCandidate)
    → new ≡ (if here then some u else old)
    → (here ≡ true → Evolves (status_in old) (some u.status))
    → Evolves (status_in old) (status_in new)
unfolding status_in
kept_or_written true u old new h e =
    subst (λ (x : Option PolicyCandidate). Evolves (status_in old) (status_in x)) (sym h) (e refl)
kept_or_written false u old new h e =
    subst (λ (x : Option PolicyCandidate). Evolves (status_in old) (status_in x)) (sym h)
      (stays (status_in old))

-- A candidate that is not stored yet can only be moved from `candidate`.
enters_or_moves :
    (k : Uuid) (c : PolicyCandidate) (d : Dict Uuid PolicyCandidate) (next : PolicyStatus)
    → Move (get_or k c d).status next
    → (lookup k d ≡ none → Move candidate next)
    → Evolves (status_in (lookup k d)) (some next)
unfolding status_in
enters_or_moves k c d next m e = elim (lookup-get_or k c d) [
  | inl new ↦
      subst (λ (x : Option PolicyCandidate). Evolves (status_in x) (some next)) (sym new)
        (enters next (e new))
  | inr old ↦
      subst (λ (x : Option PolicyCandidate). Evolves (status_in x) (some next)) (sym old)
        (moves (get_or k c d).status next m)
]

pub transact-Evolves :
    (r s : InMemoryPolicyRepository) (c : Change) (next : PolicyStatus) (u : PolicyCandidate)
    (j : Uuid)
    → IsKeyed r
    → transact r c next ≡ ok (u, s)
    → Move (get_or c.policy.id c.policy r.candidates).status next
    → (lookup c.policy.id r.candidates ≡ none → Move candidate next)
    → Evolves (status_of j r) (status_of j s)
transact-Evolves r s c next u j k h m e =
    let t = transact-Transacted r c next u s h in
    let same : u.id ≡ c.policy.id =
      ap (λ (x : PolicyCandidate). x.id) t.result ∙ get_or-id c.policy r.candidates k in
    let status : u.status ≡ next = ap (λ (x : PolicyCandidate). x.status) t.result in
    kept_or_written (j == u.id) u (lookup j r.candidates) (lookup j s.candidates)
      (ap (λ (x : InMemoryPolicyRepository). lookup j x.candidates) t.state
        ∙ lookup-insert j u.id u r.candidates)
      (λ here.
        subst (λ (x : PolicyStatus). Evolves (status_of j r) (some x)) (sym status)
          (subst (λ (i : Uuid). Evolves (status_of i r) (some next))
            (sym ((ℕ_eq.beq_iff j u.id).0 here ∙ same))
            (enters_or_moves c.policy.id c.policy r.candidates next m e)))
