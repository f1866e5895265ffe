-- ===== src/Learning/Postgres/Simulation.antt =====
-- The repository in PostgreSQL does what the repository in memory does, in calls for one kind of
-- policies.
use aistock.Common.{
  ℕ, ◌≡◌, refl, true, List, [], ◌∷◌, ◌++◌, arith, Text, ℕ_eq, text_eq, pair_eq, some, Exception, ok,
  raise, codes, ap, ◌∙◌,
}
use aistock.Domain.Ids.{Uuid}
use aistock.Dict.{Dict, lookup, contains}
use aistock.Learning.Policy.{PolicyStatus, PolicyCandidate, require_authenticated_human}
use aistock.Learning.Repository.{
  Change, InMemoryPolicyRepository, in_memory, authorize, PolicyRepository, get_item, set_version,
  audit_event, after_check,
}
use aistock.Learning.Repository
use aistock.Learning.Postgres.{
  PolicyDatabase, PolicyControl, CandidateRow, AuditRow, in_postgres, audit_row, deny,
  denial_control, keep_candidate,
}
use aistock.Learning.Postgres.Rows.{event_row, Simulates, map-snoc}

denial_control_lem :
    (versions : Dict Text Text) (kind : Text) (row : PolicyControl)
    (table : Dict Text PolicyControl)
    → lookup kind table ≡ some row
    → denial_control versions kind table ≡ ok (row.revision, table)
unfolding denial_control
denial_control_lem versions kind row table h = ground arith

keep_candidate_lem :
    (c : PolicyCandidate) (n : ℕ) (rows : Dict Uuid CandidateRow)
    → contains c.id rows ≡ true
    → keep_candidate c n rows ≡ ok rows
unfolding keep_candidate
keep_candidate_lem c n rows h = ground arith

deny-Simulates :
    (versions : Dict Text Text) (r : InMemoryPolicyRepository) (d : PolicyDatabase) (c : Change)
    → Simulates c.policy.policy_kind r d
    → contains c.policy.id d.candidates ≡ true
    → (s : InMemoryPolicyRepository) × (e : PolicyDatabase) × (Repository.deny r c ≡ ok s)
      × (deny versions d c ≡ ok e)
      × Simulates c.policy.policy_kind s e
unfolding Repository.deny deny
deny-Simulates versions r d c sim stored =
    let s : InMemoryPolicyRepository = record r {
      audit_events =
          r.audit_events
          ++ audit_event c (codes "DENY_" ++ c.action) (codes "FORBIDDEN") r.revision ∷ [];
    } in
    let row = audit_row c (codes "DENY_" ++ c.action) (codes "FORBIDDEN") r.revision c.policy.id in
    let e : PolicyDatabase = record d { audit = d.audit ++ row ∷ [] } in
    (
      s,
      e,
      refl,
      rw (denial_control_lem versions c.policy.policy_kind _ d.control sim.control)
          (rw (keep_candidate_lem c.policy r.revision d.candidates stored) refl),
      record {
        version = sim.version;
        active = sim.active;
        control = sim.control;
        candidates = sim.candidates;
        stored = sim.stored;
        keyed = sim.keyed;
        trail =
            map-snoc event_row r.audit_events _
            ∙ ap (λ (x : List AuditRow). x ++ row ∷ []) sim.trail;
      },
    )

-- A call by an actor who is refused, about a candidate that is stored: both repositories raise the
-- refusal, and states that hold the same candidates, each under its id and accepted by the
-- constructor, and the same trail, and agree on its kind's active version and revision, still do so
-- after the two denials.
pub authorize_refused :
    (versions : Dict Text Text) (r : InMemoryPolicyRepository) (d : PolicyDatabase) (c : Change)
    (next_status : PolicyStatus) (error : Exception)
    → require_authenticated_human c.actor ≡ raise error
    → Simulates c.policy.policy_kind r d
    → contains c.policy.id d.candidates ≡ true
    → ((authorize in_memory r c next_status).0 ≡ raise error)
      × ((authorize (in_postgres versions) d c next_status).0 ≡ raise error)
      × Simulates c.policy.policy_kind
          (authorize in_memory r c next_status).1
          (authorize (in_postgres versions) d c next_status).1
unfolding authorize
authorize_refused versions r d c next_status error refused sim stored =
    let (s, e, in_m, in_p, after) = deny-Simulates versions r d c sim stored in
    rw refused (rw in_m (rw in_p (refl, refl, after)))
