-- ===== src/Learning/Repository.antt =====
-- application/learning/promotion.py: what a repository of policies offers, the service that is its
-- client, and the repository in memory. A call that raises leaves the state that is written beside
-- its result. The clock's time is an argument.
pub mod Effect
pub mod History
pub mod Moves
pub mod Lifecycle
pub mod Returned
pub mod Restore
use aistock.Common.{
  ℕ, zero, suc, ◌+◌, ◌-◌, ◌≤◌, ◌<◌, ◌≡◌, ◌≢◌, ◌⊎◌, inl, inr, refl, Bool, true, false, ◌&&◌, ◌||◌,
  not, List, [], ◌∷◌, ◌++◌, map, arith, leb, ltb, nat_eq, if◌then◌else◌, Text, length, all, any,
  filter, is_empty, Eq, ◌==◌, ℕ_eq, text_eq, pair_eq, Option, none, some, Result, Exception, ok,
  raise, value_error, type_error, key_error, permission_error, version_conflict, ◌>>=◌, ◌>>◌,
  raise_if, Bool-cases, sort_by, All, sort_by-All, String, codes, All-append, any-append,
  ok-injective, >>=-eq-ok, >>-eq-ok, raise_if-eq-ok, Result-cases, ap, sym, ◌∙◌, subst,
}
use aistock.Decimal.{
  Decimal, Number, finite, not_finite, not_decimal, whole, add, sub, mul, div, neg, abs, le, lt, eq,
  min_of, max_of, sum_from, decimal_arg,
}
use aistock.Domain.Ids.{Uuid, symbol, iso_currency, strip, lower, is_blank}
use aistock.Domain.Time.{Datetime, naive, aware, Instant, require_aware}
use aistock.Dict.{
  Dict, lookup, contains, get_or, get_or-insert, lookup-insert, insert, values, unique_by,
  unique_by-All, unique_by_idem, any-unique_by,
}
use aistock.Learning.Policy.{
  PolicyStatus, candidate, approved, active, rejected, rolled_back, is_candidate, is_approved,
  is_active, PolicyCandidate, with_status, PromotionAuditEvent, HumanActor,
  require_authenticated_human,
}

abbrev pub approve_action : Text
approve_action = codes "APPROVE"

abbrev pub reject_action : Text
reject_action = codes "REJECT"

abbrev pub activate_action : Text
activate_action = codes "ACTIVATE"

abbrev pub rollback_action : Text
rollback_action = codes "ROLLBACK"

-- The arguments that `transact` and `deny` share.
pub record Change : Type 0 where
  pub policy : PolicyCandidate
  pub actor : HumanActor
  pub action : Text
  pub expected_revision : ℕ
  pub now : Instant

-- The protocol `PolicyRepository`, over the states of an implementation.
pub record PolicyRepository (S : Type 0) : Type 0 where
  pub find_candidate : S → Uuid → Result PolicyCandidate
  pub transact : S → Change → PolicyStatus → Result (PolicyCandidate × S)
  pub deny : S → Change → Result S

pub record InMemoryPolicyRepository : Type 0 where
  pub active_versions : Dict Text Text
  pub candidates : Dict Uuid PolicyCandidate
  pub revision : ℕ
  pub audit_events : List PromotionAuditEvent

abbrev pub new_repository : Dict Text Text → InMemoryPolicyRepository
new_repository active_versions = record {
  active_versions = active_versions;
  candidates = [];
  revision = 0;
  audit_events = [];
}

-- `d[k]`
abbrev pub get_item {ℓ κ} : {K : Type ℓ} {V : Type κ} ⦃e : Eq K⦄ → K → Dict K V → Result V
get_item k d = elim (lookup k d) [ none ↦ raise (key_error "no such key") | some v ↦ ok v ]

unfoldable pub active_version : InMemoryPolicyRepository → Text → Result Text
active_version r policy_kind = get_item policy_kind r.active_versions

unfoldable pub candidate_of : InMemoryPolicyRepository → Uuid → Result PolicyCandidate
candidate_of r id = get_item id r.candidates

-- The event of a change, `COMPLETED` or `FORBIDDEN`.
abbrev pub audit_event :
    Change → (action outcome : Text) → (observed_revision : ℕ) → PromotionAuditEvent
audit_event c action outcome observed_revision = record {
  candidate_id = c.policy.id;
  actor_id = c.actor.id;
  action = action;
  outcome = outcome;
  expected_revision = c.expected_revision;
  observed_revision = observed_revision;
  created_at = c.now;
}

-- The branches of `transact` for ACTIVATE and ROLLBACK: the version that becomes active, if any.
unfoldable pub switch_version :
    (action active_version : Text) → PolicyCandidate → Result (Option Text)
switch_version action active_version prior =
    if action == activate_action
    then (do
      raise_if (not (is_approved prior.status))
          (value_error "only approved policy candidates can be activated")
      raise_if (not (active_version == prior.base_version))
          (version_conflict "active policy no longer matches candidate base version")
      ok (some prior.version))
    else if action == rollback_action
    then (do
      raise_if (not (is_active prior.status))
          (value_error "only active policy candidates can be rolled back")
      raise_if (not (active_version == prior.version))
          (version_conflict "policy candidate is no longer active")
      ok (some prior.base_version))
    else ok none

abbrev pub is_decision : Text → Bool
is_decision action = (action == approve_action) || (action == reject_action)

-- The checks of APPROVE and REJECT.
unfoldable pub check_decision : (action : Text) → PolicyCandidate → Result (Unit {0})
check_decision action prior =
    raise_if (is_decision action && not (is_candidate prior.status))
      (value_error "only candidate policies can be approved or rejected")

unfoldable pub check_base : (action active_version : Text) → PolicyCandidate → Result (Unit {0})
check_base action active_version prior =
    raise_if ((action == approve_action) && not (active_version == prior.base_version))
      (version_conflict "candidate base version is no longer active")

abbrev pub set_version : Text → Option Text → Dict Text Text → Dict Text Text
set_version kind none versions = versions
set_version kind (some version) versions = insert kind version versions

unfoldable pub transact :
    InMemoryPolicyRepository
    → Change
    → PolicyStatus
    → Result (PolicyCandidate × InMemoryPolicyRepository)
transact r c next_status = do
  raise_if (not (nat_eq c.expected_revision r.revision))
      (version_conflict "policy revision changed concurrently")
  let prior = get_or c.policy.id c.policy r.candidates
  check_decision c.action prior
  version ← active_version r prior.policy_kind
  check_base c.action version prior
  updated ← with_status prior next_status
  switched ← switch_version c.action version prior
  ok (
    updated,
    record {
      active_versions = set_version prior.policy_kind switched r.active_versions;
      candidates = insert updated.id updated r.candidates;
      revision = suc r.revision;
      audit_events =
          r.audit_events
          ++ record (audit_event c c.action (codes "COMPLETED") (suc r.revision)) {
            candidate_id = updated.id;
          }
            ∷ [];
    },
  )

unfoldable pub deny : InMemoryPolicyRepository → Change → Result InMemoryPolicyRepository
deny r c = ok (record r {
  audit_events =
      r.audit_events
      ++ audit_event c (codes "DENY_" ++ c.action) (codes "FORBIDDEN") r.revision ∷ [];
})

abbrev pub in_memory : PolicyRepository InMemoryPolicyRepository
in_memory = record { find_candidate = candidate_of; transact = transact; deny = deny }

-- The state after a call that may raise, which keeps the state it was called in.
abbrev pub settled : {S : Type 0} → S → Result (PolicyCandidate × S) → Result PolicyCandidate × S
settled s (ok (c, t)) = (ok c, t)
settled s (raise e) = (raise e, s)

-- The state after a denial, and what is raised: the refusal, or what the denial itself raised.
abbrev pub denied : {S : Type 0} → S → Exception → Result S → Result PolicyCandidate × S
denied s error (ok t) = (raise error, t)
denied s error (raise e) = (raise e, s)

-- The check of the actor, then the call or the denial.
abbrev pub after_check :
    {S : Type 0}
    → S
    → Result (Unit {0})
    → Result PolicyCandidate × S
    → Result S
    → Result PolicyCandidate × S
after_check s (ok _) allowed refusal = allowed
after_check s (raise e) allowed refusal = denied s e refusal

abbrev pub change : PolicyCandidate → HumanActor → Text → ℕ → Instant → Change
change c actor action expected_revision now = record {
  policy = c;
  actor = actor;
  action = action;
  expected_revision = expected_revision;
  now = now;
}

-- `candidate_of` and the call after it.
abbrev pub with_candidate :
    {S : Type 0}
    → S
    → Result PolicyCandidate
    → (PolicyCandidate → Result PolicyCandidate × S)
    → Result PolicyCandidate × S
with_candidate s (ok c) rest = rest c
with_candidate s (raise e) rest = (raise e, s)

-- What holds of the state when no candidate is found, and of the call's when one is, holds.
pub with_candidate_lem {ℓ} :
    {S : Type 0} (P : S → Type ℓ) (s : S) (found : Result PolicyCandidate)
    (rest : PolicyCandidate → Result PolicyCandidate × S)
    → P s
    → ((c : PolicyCandidate) → found ≡ ok c → P (rest c).1)
    → P (with_candidate s found rest).1
with_candidate_lem P s (ok c) rest p q = q c refl
with_candidate_lem P s (raise e) rest p q = p

-- `PolicyPromotionService`, over any repository.
module _ {S : Type 0} (repository : PolicyRepository S) where
  -- `_authorize`, and the call of `transact` after it.
  unfoldable pub authorize : S → Change → PolicyStatus → Result PolicyCandidate × S
  authorize s c next_status =
      after_check s (require_authenticated_human c.actor)
        (settled s (repository.transact s c next_status)) (repository.deny s c)

  -- What holds of the state before a call, after a denial and after a change, holds after the call.
  pub authorize_lem {ℓ} :
      (P : S → Type ℓ) (s : S) (c : Change) (next_status : PolicyStatus)
      → P s
      → ((t : S) → repository.deny s c ≡ ok t → P t)
      → ((u : PolicyCandidate) (t : S)
          → require_authenticated_human c.actor ≡ ok tt
          → repository.transact s c next_status ≡ ok (u, t)
          → P t)
      → P (authorize s c next_status).1
  unfolding authorize
  authorize_lem P s c next_status p d q =
      elim (Result-cases (require_authenticated_human c.actor)) [
        | inl (_, human) ↦ elim (Result-cases (repository.transact s c next_status)) [
          | inl ((u, t), h) ↦ rw human (rw h (q u t human h))
          | inr (x, h) ↦ rw human (rw h p)
        ]
        | inr (e, refused) ↦ elim (Result-cases (repository.deny s c)) [
          | inl (t, h) ↦ rw refused (rw h (d t h))
          | inr (x, h) ↦ rw refused (rw h p)
        ]
      ]

  unfoldable pub approve :
      S → PolicyCandidate → HumanActor → ℕ → Instant → Result PolicyCandidate × S
  approve s c actor expected now = authorize s (change c actor approve_action expected now) approved

  unfoldable pub reject :
      S → PolicyCandidate → HumanActor → ℕ → Instant → Result PolicyCandidate × S
  reject s c actor expected now = authorize s (change c actor reject_action expected now) rejected

  unfoldable pub activate : S → Uuid → HumanActor → ℕ → Instant → Result PolicyCandidate × S
  activate s id actor expected now =
      with_candidate s (repository.find_candidate s id)
        (λ c. authorize s (change c actor activate_action expected now) active)

  unfoldable pub rollback : S → Uuid → HumanActor → ℕ → Instant → Result PolicyCandidate × S
  rollback s id actor expected now =
      with_candidate s (repository.find_candidate s id)
        (λ c. authorize s (change c actor rollback_action expected now) rolled_back)
