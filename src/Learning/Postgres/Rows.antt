-- ===== src/Learning/Postgres/Rows.antt =====
-- States that agree on a kind of policies, and how the rows keep them so.
use aistock.Common.{
  ℕ, suc, ◌≡◌, inl, inr, refl, Bool, false, ◌&&◌, ◌||◌, List, [], ◌∷◌, ◌++◌, map, arith, Text, ◌==◌,
  ℕ_eq, text_eq, pair_eq, Option, none, some, Result, ok, raise, Option-cases, All, codes, ap, sym,
  ◌∙◌, subst,
}
use aistock.Domain.Ids.{Uuid}
use aistock.Dict.{Dict, lookup, get_or, All-insert_entry, All-insert, lookup-insert, insert, values}
use aistock.Learning.Policy.{
  PolicyStatus, PolicyCandidate, policy_candidate, with_status, PromotionAuditEvent,
}
use aistock.Learning.Repository.{Change, InMemoryPolicyRepository, set_version, audit_event}
use aistock.Learning.Postgres.{
  PolicyDatabase, PolicyControl, CandidateRow, AuditRow, prior_of, read_row, clashes,
  write_candidate, write_control, version_or, audit_row,
}

-- The candidates of the rows.
abbrev pub policies : Dict Uuid CandidateRow → Dict Uuid PolicyCandidate
policies [] = []
policies ((k, row) ∷ rows) = (k, row.policy) ∷ policies rows

-- A row of the audit table has no time of its own.
abbrev pub event_row : PromotionAuditEvent → AuditRow
event_row e = record {
  policy_candidate_id = e.candidate_id;
  actor_id = e.actor_id;
  action = e.action;
  outcome = e.outcome;
  expected_revision = e.expected_revision;
  observed_revision = e.observed_revision;
}

-- The constructor accepts the candidate's fields.
abbrev pub IsConstructed : PolicyCandidate → Type 0
IsConstructed c = with_status c c.status ≡ ok c

-- A repository in memory and a database with the same candidates and the same trail, in which a kind
-- of policies has the same active version and the same revision. Candidates of other kinds may stand
-- among them.
pub record Simulates (kind : Text) (r : InMemoryPolicyRepository) (d : PolicyDatabase)
    : Type 0 where
  pub version : Text
  pub active : lookup kind r.active_versions ≡ some version
  pub control :
      lookup kind d.control ≡ some (record { active_version = version; revision = r.revision })
  pub candidates : r.candidates ≡ policies d.candidates
  pub stored : All IsConstructed (values r.candidates)
  pub keyed : All (λ (p : Uuid × PolicyCandidate). p.1.id ≡ p.0) r.candidates
  pub trail : map event_row r.audit_events ≡ d.audit

-- Two calls raise the same exception, or return the same candidate and states that still agree.
abbrev pub Agrees :
    Text
    → Result (PolicyCandidate × InMemoryPolicyRepository)
    → Result (PolicyCandidate × PolicyDatabase)
    → Type 0
Agrees kind (ok (u, s)) (ok (w, e)) = (u ≡ w) × Simulates kind s e
Agrees kind (raise x) (raise y) = x ≡ y
Agrees kind (ok _) (raise y) = ⊥
Agrees kind (raise x) (ok _) = ⊥

pub prior_of-policies :
    (k : Uuid) (c : PolicyCandidate) (rows : Dict Uuid CandidateRow)
    → All IsConstructed (values (policies rows))
    → prior_of c (lookup k rows) ≡ ok (get_or k c (policies rows))
unfolding read_row
prior_of-policies k c [] h = refl
prior_of-policies k c ((j, row) ∷ rows) h = ground (arith, h.0, prior_of-policies k c rows h.1)

pub with_status_lem :
    (c : PolicyCandidate) (s : PolicyStatus)
    → IsConstructed c
    → with_status c s ≡ ok (record c { status = s })
unfolding with_status policy_candidate
with_status_lem c s h = ground arith

pub with_status-IsConstructed :
    (c : PolicyCandidate) (s : PolicyStatus)
    → IsConstructed c
    → IsConstructed (record c { status = s })
unfolding with_status policy_candidate
with_status-IsConstructed c s h = ground arith

policies-insert :
    (k : Uuid) (row : CandidateRow) (rows : Dict Uuid CandidateRow)
    → policies (insert k row rows) ≡ insert k row.policy (policies rows)
policies-insert k row [] = refl
policies-insert k row ((j, x) ∷ rows) = ground (arith, policies-insert k row rows)

clashes-status :
    (c : PolicyCandidate) (s : PolicyStatus) (rows : Dict Uuid CandidateRow)
    → clashes (record c { status = s }) rows ≡ clashes c rows
clashes-status c s [] = refl
clashes-status c s ((k, row) ∷ rows) =
    ap
      (λ (x : Bool).
        (row.policy.policy_kind == c.policy_kind) && (row.policy.version == c.version) || x)
      (clashes-status c s rows)

get_or-none :
    (k : Uuid) (c : PolicyCandidate) (rows : Dict Uuid CandidateRow)
    → lookup k rows ≡ none
    → get_or k c (policies rows) ≡ c
get_or-none k c [] h = refl
get_or-none k c ((j, row) ∷ rows) h = ground (arith, get_or-none k c rows)

get_or-some :
    (k : Uuid) (c : PolicyCandidate) (row : CandidateRow) (rows : Dict Uuid CandidateRow)
    → lookup k rows ≡ some row
    → get_or k c (policies rows) ≡ row.policy
get_or-some k c row [] h = absurd (ground arith)
get_or-some k c row ((j, x) ∷ rows) h = ground (arith, get_or-some k c row rows)

-- Writing the row of a candidate that has moved on from what is stored, or is new.
abbrev pub Writes :
    PolicyStatus → ℕ → PolicyCandidate → Option CandidateRow → Dict Uuid CandidateRow → Type 0
Writes s n prior persisted rows =
    (new : Dict Uuid CandidateRow) × (write_candidate (record prior { status = s }) n persisted rows
      ≡ ok new)
    × (policies new ≡ insert prior.id (record prior { status = s }) (policies rows))

pub write_candidate_lem :
    (k : Uuid) (c : PolicyCandidate) (s : PolicyStatus) (n : ℕ) (rows : Dict Uuid CandidateRow)
    → (lookup k rows ≡ none → clashes c rows ≡ false)
    → Writes s n (get_or k c (policies rows)) (lookup k rows) rows
unfolding write_candidate
write_candidate_lem k c s n rows apart = elim (Option-cases (lookup k rows)) [
  | inl e ↦ rw e (
      rw (get_or-none k c rows e) (
        insert c.id (record { policy = record c { status = s }; revision = n }) rows,
        rw (clashes-status c s rows) (rw (apart e) refl),
        policies-insert c.id _ rows,
      ))
  | inr (row, e) ↦ rw e (
      rw (get_or-some k c row rows e) (
        insert row.policy.id (record { policy = record row.policy { status = s }; revision = n })
            rows,
        refl,
        policies-insert row.policy.id _ rows,
      ))
]

pub write_control_lem :
    (kind version : Text) (row : PolicyControl) (table : Dict Text PolicyControl) (n : ℕ)
    → lookup kind table ≡ some row
    → write_control kind version row.revision n table
      ≡ ok (insert kind (record { active_version = version; revision = n }) table)
unfolding write_control
write_control_lem kind version row table n h = rw h (ground arith)

lookup-insert_same {ℓ} :
    {V : Type ℓ} (k : Text) (v : V) (d : Dict Text V) → lookup k (insert k v d) ≡ some v
lookup-insert_same k v d = lookup-insert k k v d ∙ ground (arith, text_eq.beq_iff k k)

lookup-set_version :
    (kind version : Text) (switched : Option Text) (versions : Dict Text Text)
    → lookup kind versions ≡ some version
    → lookup kind (set_version kind switched versions) ≡ some (version_or version switched)
lookup-set_version kind version none versions h = h
lookup-set_version kind version (some w) versions h = lookup-insert_same kind w versions

pub map-snoc {ℓ κ} :
    {A : Type ℓ} {B : Type κ} (f : A → B) (xs : List A) (x : A)
    → map f (xs ++ x ∷ []) ≡ map f xs ++ f x ∷ []
map-snoc f [] x = refl
map-snoc f (y ∷ xs) x = ap (λ ys. f y ∷ ys) (map-snoc f xs x)

-- The states after a change still agree.
pub transacted :
    (kind : Text) (r : InMemoryPolicyRepository) (d : PolicyDatabase) (c : Change)
    (u : PolicyCandidate) (switched : Option Text) (new : Dict Uuid CandidateRow)
    (sim : Simulates kind r d)
    → u.policy_kind ≡ kind
    → IsConstructed u
    → policies new ≡ insert u.id u (policies d.candidates)
    → Simulates kind
        (record {
          active_versions = set_version u.policy_kind switched r.active_versions;
          candidates = insert u.id u r.candidates;
          revision = suc r.revision;
          audit_events =
              r.audit_events
              ++ record (audit_event c c.action (codes "COMPLETED") (suc r.revision)) {
                candidate_id = u.id;
              }
                ∷ [];
        })
        (record d {
          control =
              insert u.policy_kind
                (record {
                  active_version = version_or sim.version switched;
                  revision = suc r.revision;
                })
                d.control;
          candidates = new;
          audit = d.audit ++ audit_row c c.action (codes "COMPLETED") (suc r.revision) u.id ∷ [];
        })
transacted kind r d c u switched new sim same made written = record {
  version = version_or sim.version switched;
  active =
      subst
        (λ (x : Text).
          lookup kind (set_version x switched r.active_versions)
          ≡ some (version_or sim.version switched))
        (sym same) (lookup-set_version kind sim.version switched r.active_versions sim.active);
  control =
      let row : PolicyControl = record {
        active_version = version_or sim.version switched;
        revision = suc r.revision;
      } in
      subst (λ (x : Text). lookup kind (insert x row d.control) ≡ some row) (sym same)
        (lookup-insert_same kind row d.control);
  candidates = ap (insert u.id u) sim.candidates ∙ sym written;
  stored = All-insert _ u.id u r.candidates made sim.stored;
  keyed = All-insert_entry _ u.id u r.candidates refl sim.keyed;
  trail =
      map-snoc event_row r.audit_events _
      ∙ ap
          (λ (x : List AuditRow).
            x ++ audit_row c c.action (codes "COMPLETED") (suc r.revision) u.id ∷ [])
          sim.trail;
}
