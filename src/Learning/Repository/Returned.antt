-- ===== src/Learning/Repository/Returned.antt =====
-- What a call of the service that returned has done, and that of two calls with one revision one returns.
use aistock.Common.{
  suc, ◌≡◌, ◌≢◌, refl, true, false, arith, nat_eq, Text, ℕ_eq, text_eq, text_beq_iff, pair_eq, some,
  Result, Exception, ok, raise, version_conflict, ok-injective, ap₂, ap,
}
use aistock.Domain.Ids.{Uuid}
use aistock.Domain.Time.{Instant}
use aistock.Dict.{Dict, lookup, get_or, insert}
use aistock.Learning.Policy.{
  PolicyStatus, rolled_back, is_active, PolicyCandidate, policy_candidate, with_status, HumanActor,
  require_authenticated_human,
}
use aistock.Learning.Repository.{
  Change, InMemoryPolicyRepository, transact, in_memory, authorize, settled, after_check, change,
  check_decision, check_base, switch_version, active_version, rollback_action, with_candidate,
}
use aistock.Learning.Repository.Effect.{transact-Transacted}

raise_ne_ok : {e : Exception} {u : PolicyCandidate} → raise e ≢ ok u
raise_ne_ok h = cc

settled-eq-ok :
    (r s : InMemoryPolicyRepository) (x : Result (PolicyCandidate × InMemoryPolicyRepository))
    (u : PolicyCandidate)
    → settled r x ≡ (ok u, s)
    → x ≡ ok (u, s)
settled-eq-ok r s (ok (w, t)) u h =
    ap₂ (λ (y : PolicyCandidate) (z : InMemoryPolicyRepository). ok (y, z))
      (ok-injective (ap (λ (p : Result PolicyCandidate × InMemoryPolicyRepository). p.0) h))
      (ap (λ (p : Result PolicyCandidate × InMemoryPolicyRepository). p.1) h)
settled-eq-ok r s (raise e) u h =
    absurd (raise_ne_ok (ap (λ (p : Result PolicyCandidate × InMemoryPolicyRepository). p.0) h))

after_check-eq-ok :
    (r s : InMemoryPolicyRepository) (check : Result (Unit {0}))
    (a : Result PolicyCandidate × InMemoryPolicyRepository) (d : Result InMemoryPolicyRepository)
    (u : PolicyCandidate)
    → after_check r check a d ≡ (ok u, s)
    → a ≡ (ok u, s)
after_check-eq-ok r s (ok x) a d u h = h
after_check-eq-ok r s (raise e) a (ok t) u h =
    absurd (raise_ne_ok (ap (λ (p : Result PolicyCandidate × InMemoryPolicyRepository). p.0) h))
after_check-eq-ok r s (raise e) a (raise x) u h =
    absurd (raise_ne_ok (ap (λ (p : Result PolicyCandidate × InMemoryPolicyRepository). p.0) h))

-- A call that returned has changed the repository.
pub returned :
    (r s : InMemoryPolicyRepository) (c : Change) (next : PolicyStatus) (u : PolicyCandidate)
    → authorize in_memory r c next ≡ (ok u, s)
    → transact r c next ≡ ok (u, s)
unfolding authorize
returned r s c next u h = settled-eq-ok r s (transact r c next) u (after_check-eq-ok r s _ _ _ u h)

stale :
    (s : InMemoryPolicyRepository) (c : Change) (next : PolicyStatus)
    → nat_eq c.expected_revision s.revision ≡ false
    → transact s c next ≡ raise (version_conflict "policy revision changed concurrently")
unfolding transact
stale s c next h = rw h refl

-- Of two changes that expect the same revision, whatever their candidates and actions, only one is
-- made: after the first has returned, the second, by an authenticated human too, raises a version
-- conflict and leaves the repository as the first has left it.
pub authorize_once :
    (r s : InMemoryPolicyRepository) (first second : Change) (next next_status : PolicyStatus)
    (u : PolicyCandidate)
    → authorize in_memory r first next ≡ (ok u, s)
    → second.expected_revision ≡ first.expected_revision
    → require_authenticated_human second.actor ≡ ok tt
    → authorize in_memory s second next_status
      ≡ (raise (version_conflict "policy revision changed concurrently"), s)
unfolding authorize
authorize_once r s first second next next_status u h same human =
    let t = transact-Transacted r first next u s (returned r s first next u h) in
    let revision : s.revision ≡ suc r.revision =
      ap (λ (x : InMemoryPolicyRepository). x.revision) t.state in
    rw human (rw (stale s second next_status (ground (arith, t.is_current))) refl)

pub get_or_found :
    (k : Uuid) (c x : PolicyCandidate) (d : Dict Uuid PolicyCandidate)
    → lookup k d ≡ some x
    → get_or k c d ≡ x
get_or_found k c x d h = ground arith

active_version_lem :
    (r : InMemoryPolicyRepository) (kind version : Text)
    → lookup kind r.active_versions ≡ some version
    → active_version r kind ≡ ok version
unfolding active_version
active_version_lem r kind version h = ground arith

switch_back :
    (version : Text) (c : PolicyCandidate)
    → is_active c.status ≡ true
    → version ≡ c.version
    → switch_version rollback_action version c ≡ ok (some c.base_version)
unfolding switch_version
switch_back version c a e = ground (arith, text_beq_iff version c.version)

undecided : (c : PolicyCandidate) → check_decision rollback_action c ≡ ok tt
unfolding check_decision
undecided c = refl

unbased : (version : Text) (c : PolicyCandidate) → check_base rollback_action version c ≡ ok tt
unfolding check_base
unbased version c = refl

-- A rollback of an active candidate returns.
pub transact_rolls_back :
    (s : InMemoryPolicyRepository) (u w : PolicyCandidate) (actor : HumanActor) (now : Instant)
    → is_active u.status ≡ true
    → lookup u.id s.candidates ≡ some u
    → lookup u.policy_kind s.active_versions ≡ some u.version
    → with_status u rolled_back ≡ ok w
    → (out : InMemoryPolicyRepository) × (transact s
          (change u actor rollback_action s.revision now)
          rolled_back
        ≡ ok (w, out))
      × (out.active_versions ≡ insert u.policy_kind u.base_version s.active_versions)
unfolding transact
transact_rolls_back s u w actor now a stored version made =
    let current : nat_eq s.revision s.revision ≡ true = ground arith in
    rw current (
      rw (get_or_found u.id u u s.candidates stored) (
        rw (undecided u) (
          rw (active_version_lem s u.policy_kind u.version version) (
            rw (unbased u.version u)
              (rw made (rw (switch_back u.version u a refl) (_, refl, refl)))))))

pub with_candidate-eq-ok :
    (r s : InMemoryPolicyRepository) (found : Result PolicyCandidate)
    (rest : PolicyCandidate → Result PolicyCandidate × InMemoryPolicyRepository)
    (u : PolicyCandidate)
    → with_candidate r found rest ≡ (ok u, s)
    → (c : PolicyCandidate) × (found ≡ ok c) × (rest c ≡ (ok u, s))
with_candidate-eq-ok r s (ok c) rest u h = (c, refl, h)
with_candidate-eq-ok r s (raise e) rest u h =
    absurd (raise_ne_ok (ap (λ (p : Result PolicyCandidate × InMemoryPolicyRepository). p.0) h))

pub reconstructed :
    (c u : PolicyCandidate) (s next : PolicyStatus)
    → with_status c s ≡ ok u
    → with_status u next ≡ ok (record u { status = next })
unfolding with_status policy_candidate
reconstructed c u s next h = ground arith
