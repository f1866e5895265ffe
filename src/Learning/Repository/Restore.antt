-- ===== src/Learning/Repository/Restore.antt =====
-- Two calls in a row: of the same revision, and an activation that is rolled back.
use aistock.Common.{
  ℕ, ◌≡◌, refl, arith, Text, Eq, ℕ_eq, text_eq, text_beq_iff, pair_eq, Option, some, ok, ap, sym,
  ◌∙◌, subst,
}
use aistock.Domain.Ids.{Uuid}
use aistock.Domain.Time.{Instant}
use aistock.Dict.{Dict, lookup, get_or, lookup-insert, insert}
use aistock.Learning.Policy.{
  PolicyStatus, active, rolled_back, is_active, PolicyCandidate, with_status, HumanActor,
  require_authenticated_human,
}
use aistock.Learning.Repository.{
  Change, InMemoryPolicyRepository, transact, in_memory, authorize, activate, rollback,
  candidate_of, change, switch_version, set_version, activate_action,
}
use aistock.Learning.Repository.Effect.{transact-Transacted}
use aistock.Learning.Repository.Returned.{
  returned, get_or_found, transact_rolls_back, with_candidate-eq-ok, reconstructed,
}

candidate_of-eq-ok :
    (r : InMemoryPolicyRepository) (id : Uuid) (c : PolicyCandidate)
    → candidate_of r id ≡ ok c
    → lookup id r.candidates ≡ some c
unfolding candidate_of
candidate_of-eq-ok r id c h = ground arith

candidate_of_stored :
    (r : InMemoryPolicyRepository) (id : Uuid) (c : PolicyCandidate)
    → lookup id r.candidates ≡ some c
    → candidate_of r id ≡ ok c
unfolding candidate_of
candidate_of_stored r id c h = ground arith

-- The version that was active, and the one that an activation makes active.
switched_on :
    (version : Text) (c : PolicyCandidate) (x : Option Text)
    → switch_version activate_action version c ≡ ok x
    → (x ≡ some c.version) × (version ≡ c.base_version)
unfolding switch_version
switched_on version c x h = ground (arith, text_beq_iff version c.base_version)

lookup-insert_same {ℓ κ} :
    {K : Type ℓ} {V : Type κ} ⦃e : Eq K⦄ (k : K) (v : V) (d : Dict K V)
    → lookup k (insert k v d) ≡ some v
lookup-insert_same ⦃e⦄ k v d = lookup-insert k k v d ∙ ground (arith, e.beq_iff k k)

lookup-insert_back :
    (j k base version : Text) (d : Dict Text Text)
    → lookup k d ≡ some base
    → lookup j (insert k base (insert k version d)) ≡ lookup j d
lookup-insert_back j k base version d h =
    rw (lookup-insert j k base (insert k version d))
      (rw (lookup-insert j k version d) (ground (arith, text_beq_iff j k)))

-- The repository after the activation of a candidate.
record Activated (r : InMemoryPolicyRepository) (c : PolicyCandidate) (u : PolicyCandidate)
    (s : InMemoryPolicyRepository) : Type 0 where
  is_new : u ≡ record c { status = active }
  constructed : with_status c active ≡ ok u
  base : lookup c.policy_kind r.active_versions ≡ some c.base_version
  versions : s.active_versions ≡ insert c.policy_kind c.version r.active_versions
  stored : lookup u.id s.candidates ≡ some u

transact-Activated :
    (r s : InMemoryPolicyRepository) (c u : PolicyCandidate) (actor : HumanActor) (expected : ℕ)
    (now : Instant)
    → lookup c.id r.candidates ≡ some c
    → transact r (change c actor activate_action expected now) active ≡ ok (u, s)
    → Activated r c u s
transact-Activated r s c u actor expected now there h =
    let t = transact-Transacted r (change c actor activate_action expected now) active u s h in
    let prior = get_or c.id c r.candidates in
    let same : prior ≡ c = get_or_found c.id c c r.candidates there in
    let (on, from) = switched_on t.version prior t.switched t.switch in
    let kind = ap (λ (x : PolicyCandidate). x.policy_kind) same in
    record {
      is_new = t.result ∙ ap (λ (x : PolicyCandidate). record x { status = active }) same;
      constructed = subst (λ (x : PolicyCandidate). with_status x active ≡ ok u) same t.constructed;
      base =
          subst
            (λ (x : PolicyCandidate). lookup x.policy_kind r.active_versions ≡ some x.base_version)
            same (t.found ∙ ap some from);
      versions =
          ap (λ (x : InMemoryPolicyRepository). x.active_versions) t.state
          ∙ ap (λ (x : Option Text). set_version prior.policy_kind x r.active_versions) on
          ∙ ap (λ (x : PolicyCandidate). insert x.policy_kind x.version r.active_versions) same;
      stored =
          ap (λ (x : InMemoryPolicyRepository). lookup u.id x.candidates) t.state
          ∙ lookup-insert_same u.id u r.candidates;
    }

some-injective : {a b : PolicyCandidate} → some a ≡ some b → a ≡ b
some-injective h = cc

current_version :
    (r s : InMemoryPolicyRepository) (c u : PolicyCandidate)
    → Activated r c u s
    → lookup u.policy_kind s.active_versions ≡ some u.version
current_version r s c u act =
    subst (λ (x : PolicyCandidate). lookup x.policy_kind s.active_versions ≡ some x.version)
      (sym act.is_new)
      (ap (lookup c.policy_kind) act.versions
        ∙ lookup-insert_same c.policy_kind c.version r.active_versions)

restored :
    (r s : InMemoryPolicyRepository) (c u : PolicyCandidate)
    → Activated r c u s
    → insert u.policy_kind u.base_version s.active_versions
      ≡ insert c.policy_kind c.base_version (insert c.policy_kind c.version r.active_versions)
restored r s c u act =
    ap (λ (x : PolicyCandidate). insert x.policy_kind x.base_version s.active_versions) act.is_new
    ∙ ap (insert c.policy_kind c.base_version) act.versions

allowed :
    (s t : InMemoryPolicyRepository) (c : Change) (next : PolicyStatus) (u : PolicyCandidate)
    → require_authenticated_human c.actor ≡ ok tt
    → transact s c next ≡ ok (u, t)
    → authorize in_memory s c next ≡ (ok u, t)
unfolding authorize
allowed s t c next u human h = rw human (rw h refl)

-- When a stored candidate was activated, an authenticated human can roll it back at the revision that
-- the activation has left: the call returns, and every kind has the active version that it had before
-- the activation.
pub rollback-activate :
    (r s : InMemoryPolicyRepository) (id : Uuid) (c u : PolicyCandidate) (first second : HumanActor)
    (expected : ℕ) (time now : Instant)
    → lookup id r.candidates ≡ some c
    → c.id ≡ id
    → activate in_memory r id first expected time ≡ (ok u, s)
    → require_authenticated_human second ≡ ok tt
    → (w : PolicyCandidate) × (out : InMemoryPolicyRepository) × (rollback in_memory s id second
          s.revision now
        ≡ (ok w, out))
      × ((kind : Text) → lookup kind out.active_versions ≡ lookup kind r.active_versions)
unfolding activate rollback
rollback-activate r s id c u first second expected time now there own done human =
    let (x, found, call) = with_candidate-eq-ok r s (candidate_of r id) _ u done in
    let c_is : x ≡ c = some-injective (sym (candidate_of-eq-ok r id x found) ∙ there) in
    let act =
      transact-Activated r s c u first expected time
        (subst (λ (i : Uuid). lookup i r.candidates ≡ some c) (sym own) there)
        (returned r s _ active u (
          subst
            (λ (y : PolicyCandidate).
              authorize in_memory r (change y first activate_action expected time) active
              ≡ (ok u, s))
            c_is call)) in
    let kind = ap (λ (y : PolicyCandidate). y.policy_kind) act.is_new in
    let (out, back, versions) =
      transact_rolls_back s u _ second now
        (ap (λ (y : PolicyCandidate). is_active y.status) act.is_new) act.stored
        (current_version r s c u act) (reconstructed c u active rolled_back act.constructed) in
    (
      record u { status = rolled_back },
      out,
      rw
          (candidate_of_stored s id u (
            subst (λ (i : Uuid). lookup i s.candidates ≡ some u)
              (ap (λ (y : PolicyCandidate). y.id) act.is_new ∙ own) act.stored))
          (allowed s out _ rolled_back _ human back),
      λ k.
          ap (lookup k) (versions ∙ restored r s c u act)
          ∙ lookup-insert_back k c.policy_kind c.base_version c.version r.active_versions act.base,
    )
