-- ===== src/Learning/Repository/Effect.antt =====
-- What a change that the repository in memory made leaves behind.
use aistock.Common.{
  suc, ◌≡◌, refl, not, [], ◌∷◌, ◌++◌, arith, nat_eq, Text, ℕ_eq, text_eq, pair_eq, Option, some, ok,
  raise_if, codes, ok-injective, >>=-eq-ok, >>-eq-ok, subst,
}
use aistock.Dict.{Dict, lookup, get_or, insert}
use aistock.Learning.Policy.{PolicyStatus, PolicyCandidate, with_status, with_status-eq-ok}
use aistock.Learning.Repository.{
  Change, InMemoryPolicyRepository, transact, get_item, active_version, audit_event, switch_version,
  check_decision, check_base, set_version,
}

-- Everything that a successful `transact` has checked, and the state that it returns.
pub record Transacted (r : InMemoryPolicyRepository) (c : Change) (next_status : PolicyStatus)
    (updated : PolicyCandidate) (s : InMemoryPolicyRepository) : Type 0 where
  pub version : Text
  pub switched : Option Text
  pub is_current : c.expected_revision ≡ r.revision
  pub decision : check_decision c.action (get_or c.policy.id c.policy r.candidates) ≡ ok tt
  pub found :
      lookup (get_or c.policy.id c.policy r.candidates).policy_kind r.active_versions ≡ some version
  pub base : check_base c.action version (get_or c.policy.id c.policy r.candidates) ≡ ok tt
  pub switch :
      switch_version c.action version (get_or c.policy.id c.policy r.candidates) ≡ ok switched
  pub constructed : with_status (get_or c.policy.id c.policy r.candidates) next_status ≡ ok updated
  pub result : updated ≡ record (get_or c.policy.id c.policy r.candidates) { status = next_status }
  pub state : s ≡ record {
    active_versions =
        set_version
          (get_or c.policy.id c.policy r.candidates).policy_kind
          switched
          r.active_versions;
    candidates = insert updated.id updated r.candidates;
    revision = suc r.revision;
    audit_events =
        r.audit_events
        ++ record (audit_event c c.action (codes "COMPLETED") (suc r.revision)) {
          candidate_id = updated.id;
        }
          ∷ [];
  }

get_item-eq-ok :
    (k : Text) (d : Dict Text Text) (v : Text) → get_item k d ≡ ok v → lookup k d ≡ some v
get_item-eq-ok k d v h = ground arith

pub transact-Transacted :
    (r : InMemoryPolicyRepository) (c : Change) (next_status : PolicyStatus)
    (updated : PolicyCandidate) (s : InMemoryPolicyRepository)
    → transact r c next_status ≡ ok (updated, s)
    → Transacted r c next_status updated s
unfolding transact active_version
transact-Transacted r c next_status updated s h =
    let prior = get_or c.policy.id c.policy r.candidates in
    let (current, h1) = >>-eq-ok (raise_if (not (nat_eq c.expected_revision r.revision)) _) _ h in
    let (decision, h2) = >>-eq-ok (check_decision c.action prior) _ h1 in
    let (version, found, h3) = >>=-eq-ok (get_item prior.policy_kind r.active_versions) _ h2 in
    let (base, h4) = >>-eq-ok (check_base c.action version prior) _ h3 in
    let (made, result, h5) = >>=-eq-ok (with_status prior next_status) _ h4 in
    let (switched, switch, last) = >>=-eq-ok (switch_version c.action version prior) _ h5 in
    subst (λ (x : PolicyCandidate × InMemoryPolicyRepository). Transacted r c next_status x.0 x.1)
      (ok-injective last)
      (record {
        version = version;
        switched = switched;
        is_current = ground arith;
        decision = decision;
        found = get_item-eq-ok prior.policy_kind r.active_versions version found;
        base = base;
        switch = switch;
        constructed = result;
        result = with_status-eq-ok prior made next_status result;
        state = refl;
      })
