-- ===== src/Learning/Repository/Lifecycle.antt =====
-- How the status of a policy candidate changes under the calls of the service.
use aistock.Common.{
  ℕ, ◌≡◌, ◌⊎◌, inl, inr, refl, true, not, List, [], ◌∷◌, arith, Text, ◌==◌, ℕ_eq, text_eq, pair_eq,
  Option, none, some, ok, value_error, raise_if, Bool-cases, All, ok-injective, sym, ◌∙◌, subst,
}
use aistock.Domain.Ids.{Uuid}
use aistock.Domain.Time.{Instant}
use aistock.Dict.{Dict, lookup, get_or}
use aistock.Learning.Policy.{
  PolicyStatus, candidate, approved, active, rejected, rolled_back, is_candidate, is_approved,
  is_active, PolicyCandidate, HumanActor,
}
use aistock.Learning.Repository.{
  Change, InMemoryPolicyRepository, new_repository, deny, in_memory, authorize, approve, reject,
  activate, rollback, candidate_of, change, with_candidate_lem, authorize_lem, check_decision,
  switch_version, approve_action, reject_action, activate_action, rollback_action,
}
use aistock.Learning.Repository.Effect.{Transacted, transact-Transacted}
use aistock.Learning.Repository.History.{
  Operation, approving, rejecting, activating, rolling_back, operate, operate_all,
}
use aistock.Learning.Repository.Moves.{
  Move, Evolves, Trail, status_of, IsKeyed, transact-IsKeyed, transact-Evolves, approves, rejects,
  activates, rolls_back, stays, enters, moves, done, step,
}

is_candidate-eq : (s : PolicyStatus) → is_candidate s ≡ true → s ≡ candidate
is_candidate-eq candidate h = refl
is_candidate-eq approved h = absurd (ground arith)
is_candidate-eq active h = absurd (ground arith)
is_candidate-eq rejected h = absurd (ground arith)
is_candidate-eq rolled_back h = absurd (ground arith)

is_approved-eq : (s : PolicyStatus) → is_approved s ≡ true → s ≡ approved
is_approved-eq candidate h = absurd (ground arith)
is_approved-eq approved h = refl
is_approved-eq active h = absurd (ground arith)
is_approved-eq rejected h = absurd (ground arith)
is_approved-eq rolled_back h = absurd (ground arith)

is_active-eq : (s : PolicyStatus) → is_active s ≡ true → s ≡ active
is_active-eq candidate h = absurd (ground arith)
is_active-eq approved h = absurd (ground arith)
is_active-eq active h = refl
is_active-eq rejected h = absurd (ground arith)
is_active-eq rolled_back h = absurd (ground arith)

decides :
    (c : PolicyCandidate)
    → raise_if
        (not (is_candidate c.status))
        (value_error "only candidate policies can be approved or rejected")
      ≡ ok tt
    → c.status ≡ candidate
decides c h = is_candidate-eq c.status (ground arith)

abbrev Moved : InMemoryPolicyRepository → InMemoryPolicyRepository → Type 0
Moved r s = IsKeyed s × ((j : Uuid) → Evolves (status_of j r) (status_of j s))

unmoved : (r : InMemoryPolicyRepository) → IsKeyed r → Moved r r
unmoved r k = (k, λ j. stays (status_of j r))

deny-Moved : (r s : InMemoryPolicyRepository) (c : Change) → IsKeyed r → deny r c ≡ ok s → Moved r s
unfolding deny
deny-Moved r s c k h = subst (Moved r) (ok-injective h) (k, λ j. stays (status_of j r))

-- The move that the checks of a change allow.
abbrev Allowed : InMemoryPolicyRepository → Change → PolicyStatus → Type 0
Allowed r c next =
    (u : PolicyCandidate) (s : InMemoryPolicyRepository)
    → Transacted r c next u s
    → Move (get_or c.policy.id c.policy r.candidates).status next
      × (lookup c.policy.id r.candidates ≡ none → Move candidate next)

authorize-Moved :
    (r : InMemoryPolicyRepository) (c : Change) (next : PolicyStatus)
    → IsKeyed r
    → Allowed r c next
    → Moved r (authorize in_memory r c next).1
authorize-Moved r c next k a =
    authorize_lem in_memory (Moved r) r c next (unmoved r k) (λ s h. deny-Moved r s c k h)
      (λ u s human h.
        let m = a u s (transact-Transacted r c next u s h) in
        (transact-IsKeyed r s c next u k h, λ j. transact-Evolves r s c next u j k h m.0 m.1))

approve-Allowed :
    (r : InMemoryPolicyRepository) (c : PolicyCandidate) (actor : HumanActor) (expected : ℕ)
    (now : Instant)
    → Allowed r (change c actor approve_action expected now) approved
unfolding check_decision
approve-Allowed r c actor expected now u s t = (
  subst (λ (x : PolicyStatus). Move x approved)
      (sym (decides (get_or c.id c r.candidates) t.decision)) approves,
  λ n. approves,
)

reject-Allowed :
    (r : InMemoryPolicyRepository) (c : PolicyCandidate) (actor : HumanActor) (expected : ℕ)
    (now : Instant)
    → Allowed r (change c actor reject_action expected now) rejected
unfolding check_decision
reject-Allowed r c actor expected now u s t = (
  subst (λ (x : PolicyStatus). Move x rejected)
      (sym (decides (get_or c.id c r.candidates) t.decision)) rejects,
  λ n. rejects,
)

lookup-id :
    (k : Uuid) (c : PolicyCandidate) (d : Dict Uuid PolicyCandidate)
    → All (λ (p : Uuid × PolicyCandidate). p.1.id ≡ p.0) d
    → lookup k d ≡ some c
    → c.id ≡ k
lookup-id k c [] h e = absurd (ground arith)
lookup-id k c ((j, x) ∷ d) h e = elim (Bool-cases (k == j)) [
  | inl same ↦ ground (arith, ℕ_eq.beq_iff k j)
  | inr other ↦ ground (arith, lookup-id k c d h.1)
]

-- Only a stored candidate is activated or rolled back.
found_stored :
    (r : InMemoryPolicyRepository) (id : Uuid) (c : PolicyCandidate)
    → IsKeyed r
    → candidate_of r id ≡ ok c
    → lookup c.id r.candidates ≡ some c
unfolding candidate_of
found_stored r id c k h =
    let e : lookup id r.candidates ≡ some c = ground arith in
    subst (λ (i : Uuid). lookup i r.candidates ≡ some c) (sym (lookup-id id c r.candidates k e)) e

switch_activates :
    (version : Text) (c : PolicyCandidate) (x : Option Text)
    → switch_version activate_action version c ≡ ok x
    → c.status ≡ approved
unfolding switch_version
switch_activates version c x h = is_approved-eq c.status (ground arith)

switch_rolls_back :
    (version : Text) (c : PolicyCandidate) (x : Option Text)
    → switch_version rollback_action version c ≡ ok x
    → c.status ≡ active
unfolding switch_version
switch_rolls_back version c x h = is_active-eq c.status (ground arith)

activate-Allowed :
    (r : InMemoryPolicyRepository) (c : PolicyCandidate) (actor : HumanActor) (expected : ℕ)
    (now : Instant)
    → lookup c.id r.candidates ≡ some c
    → Allowed r (change c actor activate_action expected now) active
activate-Allowed r c actor expected now stored u s t = (
  subst (λ (x : PolicyStatus). Move x active)
      (sym (switch_activates t.version (get_or c.id c r.candidates) t.switched t.switch)) activates,
  λ n. absurd (ground arith),
)

rollback-Allowed :
    (r : InMemoryPolicyRepository) (c : PolicyCandidate) (actor : HumanActor) (expected : ℕ)
    (now : Instant)
    → lookup c.id r.candidates ≡ some c
    → Allowed r (change c actor rollback_action expected now) rolled_back
rollback-Allowed r c actor expected now stored u s t = (
  subst (λ (x : PolicyStatus). Move x rolled_back)
      (sym (switch_rolls_back t.version (get_or c.id c r.candidates) t.switched t.switch))
      rolls_back,
  λ n. absurd (ground arith),
)

operate-Moved : (r : InMemoryPolicyRepository) (o : Operation) → IsKeyed r → Moved r (operate r o)
unfolding operate approve reject activate rollback
operate-Moved r (approving c actor expected now) k =
    authorize-Moved r _ approved k (approve-Allowed r c actor expected now)
operate-Moved r (rejecting c actor expected now) k =
    authorize-Moved r _ rejected k (reject-Allowed r c actor expected now)
operate-Moved r (activating id actor expected now) k =
    with_candidate_lem (Moved r) r (candidate_of r id) _ (unmoved r k) (λ c h.
      authorize-Moved r _ active k
        (activate-Allowed r c actor expected now (found_stored r id c k h)))
operate-Moved r (rolling_back id actor expected now) k =
    with_candidate_lem (Moved r) r (candidate_of r id) _ (unmoved r k) (λ c h.
      authorize-Moved r _ rolled_back k
        (rollback-Allowed r c actor expected now (found_stored r id c k h)))

operate_all-IsKeyed :
    (r : InMemoryPolicyRepository) (os : List Operation) → IsKeyed r → IsKeyed (operate_all r os)
unfolding operate_all
operate_all-IsKeyed r [] k = k
operate_all-IsKeyed r (o ∷ os) k = operate_all-IsKeyed (operate r o) os (operate-Moved r o k).0

Trail-operate_all :
    (r : InMemoryPolicyRepository) (os : List Operation) (j : Uuid)
    → IsKeyed r
    → Trail (status_of j r) (status_of j (operate_all r os))
unfolding operate_all
Trail-operate_all r [] j k = done (status_of j r)
Trail-operate_all r (o ∷ os) j k =
    let m = operate-Moved r o k in
    step (status_of j r) (status_of j (operate r o)) (status_of j (operate_all (operate r o) os))
      (m.1 j) (Trail-operate_all (operate r o) os j m.0)

-- In a repository in memory that calls of the service have led to, further calls, of which any may
-- raise, change the stored status of each id along the transitions alone: it is first stored as
-- approved or rejected, an approved candidate may become active, and an active one rolled back.
pub operate_all-Trail :
    (active_versions : Dict Text Text) (before after : List Operation) (j : Uuid)
    → Trail
        (status_of j (operate_all (new_repository active_versions) before))
        (status_of j (operate_all (operate_all (new_repository active_versions) before) after))
operate_all-Trail active_versions before after j =
    Trail-operate_all _ after j (operate_all-IsKeyed (new_repository active_versions) before tt)

-- A status that no transition leaves.
abbrev pub IsFinal : PolicyStatus → Type 0
IsFinal s = (s ≡ rejected) ⊎ (s ≡ rolled_back)

some-injective : {s t : PolicyStatus} → some s ≡ some t → s ≡ t
some-injective h = cc

stuck : (s t : PolicyStatus) → IsFinal s → Move s t → ⊥
stuck s t (inl h) approves = cc
stuck s t (inl h) rejects = cc
stuck s t (inl h) activates = cc
stuck s t (inl h) rolls_back = cc
stuck s t (inr h) approves = cc
stuck s t (inr h) rejects = cc
stuck s t (inr h) activates = cc
stuck s t (inr h) rolls_back = cc

Evolves-IsFinal :
    (s : PolicyStatus) (x y : Option PolicyStatus)
    → IsFinal s
    → Evolves x y
    → x ≡ some s
    → y ≡ some s
Evolves-IsFinal s _ _ f (stays x) h = h
Evolves-IsFinal s _ _ f (enters t m) h = absurd (ground arith)
Evolves-IsFinal s _ _ f (moves t u m) h = absurd (
    stuck t u (elim f [ inl a ↦ inl (some-injective h ∙ a) | inr a ↦ inr (some-injective h ∙ a) ])
      m)

Trail-IsFinal :
    (s : PolicyStatus) (x y : Option PolicyStatus) → IsFinal s → Trail x y → x ≡ some s → y ≡ some s
Trail-IsFinal s _ _ f (done x) h = h
Trail-IsFinal s _ _ f (step x z y e p) h = Trail-IsFinal s z y f p (Evolves-IsFinal s x z f e h)

-- Once a candidate is stored as rejected or rolled back, no call of the service changes its status.
pub operate_all_final :
    (active_versions : Dict Text Text) (before after : List Operation) (j : Uuid) (s : PolicyStatus)
    → IsFinal s
    → status_of j (operate_all (new_repository active_versions) before) ≡ some s
    → status_of j (operate_all (operate_all (new_repository active_versions) before) after) ≡ some s
operate_all_final active_versions before after j s f h =
    Trail-IsFinal s _ _ f (operate_all-Trail active_versions before after j) h
