-- ===== src/Learning/Tests.antt =====
-- A policy that is approved, activated and rolled back.
use aistock.Common.{
  ℕ, ◌+◌, ◌≤◌, ◌≡◌, refl, true, false, List, [], ◌∷◌, ◌++◌, Text, ℕ_eq, text_eq, pair_eq, some, ok,
  raise, permission_error, version_conflict, sort_by, All, codes,
}
use aistock.Decimal.{Decimal, whole, le}
use aistock.Domain.Ids.{is_blank}
use aistock.Domain.Time.{aware}
use aistock.Dict.{Dict, lookup}
use aistock.Portfolio.Risk.Inputs.{bullish}
use aistock.Learning.Outcome.{
  Horizon, DecisionForReview, PriceObservation, DecisionOutcome, outcome_of, observation_lt,
  compute_outcome, visible, target_of,
}
use aistock.Learning.Outcome.Sound.{AreKnown, compute_outcome_sound}
use aistock.Learning.Policy.{
  candidate, approved, active, rejected, rolled_back, PolicyCandidate, policy_candidate,
  with_status, HumanActor, require_authenticated_human, ends_with,
}
use aistock.Learning.Repository.{
  Change, InMemoryPolicyRepository, new_repository, transact, deny, in_memory, authorize, approve,
  activate, rollback, approve_action, reject_action, change, candidate_of, active_version,
  check_decision, check_base, switch_version,
}
use aistock.Learning.Repository.History.{
  Operation, approving, activating, rolling_back, operate, operate_all, History,
  operate_all-History,
}
use aistock.Learning.Repository.Moves.{Trail, status_of, status_in}
use aistock.Learning.Repository.Lifecycle.{operate_all-Trail}
use aistock.Learning.Repository.Returned.{authorize_once}
use aistock.Learning.Repository.Restore.{rollback-activate}
use aistock.Learning.Postgres.{PolicyDatabase, in_postgres}
use aistock.Learning.Postgres.Rows.{Simulates}
use aistock.Learning.Postgres.Simulation.{authorize_refused}

abbrev decision : DecisionForReview
decision = record {
  id = 1;
  symbol = codes "AAPL";
  decision_time = 1000;
  reference_price = whole 10;
  opinion = bullish;
  data_complete = true;
  data_fresh = true;
  evidence_conflicted = false;
}

abbrev day : ℕ
day = 86400000000

abbrev prices : List PriceObservation
prices =
    record { event_time = day + 2000; available_at = day + 2000; price = whole 11 }
    ∷ record { event_time = 1500; available_at = 1600; price = whole 9 }
    ∷ []

abbrev outcome : DecisionOutcome
outcome = outcome_of 8 decision (sort_by observation_lt prices) [] (day + 5000)

computed : compute_outcome 8 decision prices [] (aware (day + 5000)) ≡ ok outcome
unfolding compute_outcome visible
computed = refl

compute_outcome_sound_example :
    (aware (day + 5000) ≡ aware outcome.computed_at)
    × AreKnown outcome.computed_at prices
    × AreKnown outcome.computed_at []
    × All (λ (r : Horizon × Decimal). target_of 1000 r.0 ≤ outcome.computed_at) outcome.returns
    × (le (whole 0) outcome.maximum_favorable_excursion ≡ true)
    × (le outcome.maximum_adverse_excursion (whole 0) ≡ true)
compute_outcome_sound_example =
    compute_outcome_sound 8 decision prices [] (aware (day + 5000)) outcome computed

abbrev ada : HumanActor
ada = record { id = codes "ada"; authenticated = true; is_human = true }

abbrev robot : HumanActor
robot = record { id = codes "Research-AGENT"; authenticated = true; is_human = true }

abbrev kind : Text
kind = codes "scoring"

abbrev policy : PolicyCandidate
policy = record {
  id = 5;
  policy_kind = kind;
  version = codes "v2";
  base_version = codes "v1";
  lesson_ids = 7 ∷ [];
  created_at = 10;
  status = candidate;
}

abbrev versions : Dict Text Text
versions = (kind, codes "v1") ∷ []

abbrev fresh : InMemoryPolicyRepository
fresh = new_repository versions

abbrev approvals : List Operation
approvals = approving policy robot 0 1 ∷ approving policy ada 0 2 ∷ []

abbrev operations : List Operation
operations =
    approvals ++ activating 5 ada 1 3 ∷ rolling_back 5 ada 1 4 ∷ rolling_back 5 ada 2 5 ∷ []

operate_all-History_example : History (operate_all (new_repository versions) operations)
operate_all-History_example = operate_all-History versions operations

operate_all-Trail_example : Trail (status_of 5 (operate_all (new_repository versions) approvals)) (
    status_of 5
      (operate_all (operate_all (new_repository versions) approvals) (activating 5 ada 1 3 ∷ [])))
operate_all-Trail_example = operate_all-Trail versions approvals (activating 5 ada 1 3 ∷ []) 5

rolled : status_of 5 (operate_all (new_repository versions) operations) ≡ some rolled_back
unfolding operate_all operate approve activate rollback authorize transact deny candidate_of
    active_version check_decision check_base switch_version with_status policy_candidate
    require_authenticated_human ends_with status_in is_blank
rolled = refl

abbrev first_call : Change
first_call = change policy ada approve_action 0 2

abbrev after_first : InMemoryPolicyRepository
after_first = record {
  active_versions = versions;
  candidates = (5, record policy { status = approved }) ∷ [];
  revision = 1;
  audit_events =
      record {
        candidate_id = 5;
        actor_id = codes "ada";
        action = approve_action;
        outcome = codes "COMPLETED";
        expected_revision = 0;
        observed_revision = 1;
        created_at = 2;
      }
      ∷ [];
}

approved_first :
    authorize in_memory fresh first_call approved
    ≡ (ok (record policy { status = approved }), after_first)
unfolding authorize transact active_version check_decision check_base switch_version with_status
    policy_candidate require_authenticated_human ends_with is_blank
approved_first = refl

ada_is_human : require_authenticated_human ada ≡ ok tt
unfolding require_authenticated_human ends_with
ada_is_human = refl

robot_is_refused :
    require_authenticated_human robot
    ≡ raise (permission_error "authenticated human approval required")
unfolding require_authenticated_human ends_with
robot_is_refused = refl

authorize_once_example :
    authorize in_memory after_first (change policy ada reject_action 0 3) rejected
    ≡ (raise (version_conflict "policy revision changed concurrently"), after_first)
authorize_once_example =
    authorize_once fresh after_first first_call (change policy ada reject_action 0 3) approved
      rejected (record policy { status = approved }) approved_first refl ada_is_human

abbrev after_activation : InMemoryPolicyRepository
after_activation = record {
  active_versions = (kind, codes "v2") ∷ [];
  candidates = (5, record policy { status = active }) ∷ [];
  revision = 2;
  audit_events =
      after_first.audit_events
      ++ record {
        candidate_id = 5;
        actor_id = codes "ada";
        action = codes "ACTIVATE";
        outcome = codes "COMPLETED";
        expected_revision = 1;
        observed_revision = 2;
        created_at = 3;
      }
        ∷ [];
}

activated :
    activate in_memory after_first 5 ada 1 3
    ≡ (ok (record policy { status = active }), after_activation)
unfolding activate candidate_of authorize transact active_version check_decision check_base
    switch_version with_status policy_candidate require_authenticated_human ends_with is_blank
activated = refl

rollback-activate_example :
    (w : PolicyCandidate) × (out : InMemoryPolicyRepository) × (rollback in_memory after_activation
        5 ada 2 4
      ≡ (ok w, out))
    × ((k : Text) → lookup k out.active_versions ≡ lookup k versions)
rollback-activate_example =
    rollback-activate after_first after_activation 5 (record policy { status = approved })
      (record policy { status = active }) ada ada 1 3 4 refl refl activated ada_is_human

-- A candidate of another kind, and a repository that holds it.
abbrev limit_policy : PolicyCandidate
limit_policy = record policy { id = 6; policy_kind = codes "limits" }

abbrev mixed : InMemoryPolicyRepository
mixed = record fresh { candidates = (6, limit_policy) ∷ [] }

abbrev database : PolicyDatabase
database = record {
  control = (kind, record { active_version = codes "v1"; revision = 0 }) ∷ [];
  candidates = (6, record { policy = limit_policy; revision = 0 }) ∷ [];
  audit = [];
  lessons = 7 ∷ [];
  lesson_approvals = record { id = 1; lesson_id = 7; action = approve_action; created_at = 3 } ∷ [];
  replay_runs = record { lesson_id = 7; decision_ids = 9 ∷ [] } ∷ [];
}

abbrev stored : PolicyDatabase
stored = record {
  control = (kind, record { active_version = codes "v1"; revision = 1 }) ∷ [];
  candidates = (5, record { policy = record policy { status = approved }; revision = 1 }) ∷ [];
  audit =
      record {
        policy_candidate_id = 5;
        actor_id = codes "ada";
        action = approve_action;
        outcome = codes "COMPLETED";
        expected_revision = 0;
        observed_revision = 1;
      }
      ∷ [];
  lessons = 7 ∷ [];
  lesson_approvals = [];
  replay_runs = [];
}

after_first-Simulates : Simulates kind after_first stored
unfolding with_status policy_candidate is_blank
after_first-Simulates = record {
  version = codes "v1";
  active = refl;
  control = refl;
  candidates = refl;
  stored = (refl, tt);
  keyed = (refl, tt);
  trail = refl;
}

abbrev refused_call : Change
refused_call = change policy robot approve_action 1 9

authorize_refused_example :
    ((authorize in_memory after_first refused_call approved).0
      ≡ raise (permission_error "authenticated human approval required"))
    × ((authorize (in_postgres versions) stored refused_call approved).0
        ≡ raise (permission_error "authenticated human approval required"))
    × Simulates kind
        (authorize in_memory after_first refused_call approved).1
        (authorize (in_postgres versions) stored refused_call approved).1
authorize_refused_example =
    authorize_refused versions after_first stored refused_call approved
      (permission_error "authenticated human approval required") robot_is_refused
      after_first-Simulates refl
