-- ===== src/Learning/Postgres.antt =====
-- application/learning/promotion.py: the repository of policies in PostgreSQL. A table is a list of
-- its rows, or a dict from its primary key; a call that raises is rolled back by its transaction.
-- Column types, JSON and the locks of `with_for_update` are left out.
pub mod Rows
pub mod Simulation
use aistock.Common.{
  ℕ, zero, suc, ◌+◌, ◌-◌, ◌≤◌, ◌<◌, ◌≡◌, ◌≢◌, ◌⊎◌, inl, inr, refl, Bool, true, false, ◌&&◌, ◌||◌,
  not, List, [], ◌∷◌, ◌++◌, map, arith, leb, ltb, nat_eq, if◌then◌else◌, Text, length, all, any,
  filter, is_empty, Eq, ◌==◌, ℕ_eq, text_eq, pair_eq, Option, none, some, Result, Exception, ok,
  raise, value_error, type_error, key_error, permission_error, version_conflict, no_result_found,
  multiple_results_found, integrity_error, ◌>>=◌, ◌>>◌, raise_if, Bool-cases, sort_by, All,
  sort_by-All, String, codes, All-append, any-append, ok-injective, >>=-eq-ok, >>-eq-ok,
  raise_if-eq-ok, Result-cases, ap, sym, ◌∙◌, subst,
}
use aistock.Decimal.{
  Decimal, Number, finite, not_finite, not_decimal, whole, add, sub, mul, div, neg, abs, le, lt, eq,
  min_of, max_of, sum_from, decimal_arg,
}
use aistock.Domain.Ids.{Uuid, symbol, iso_currency, strip, lower, is_blank}
use aistock.Domain.Time.{Datetime, naive, aware, Instant, require_aware}
use aistock.Dict.{
  Dict, lookup, contains, get_or, get_or-insert, All-insert_entry, lookup-insert, insert, values,
  unique_by, unique_by-All, unique_by_idem, any-unique_by,
}
use aistock.Learning.Policy.{
  PolicyStatus, PolicyCandidate, policy_candidate, with_status, PromotionAuditEvent, HumanActor,
}
use aistock.Learning.Repository.{
  Change, PolicyRepository, get_item, check_decision, check_base, switch_version, approve_action,
  activate_action,
}

pub record PolicyControl : Type 0 where
  pub active_version : Text
  pub revision : ℕ

pub record CandidateRow : Type 0 where
  pub policy : PolicyCandidate
  pub revision : ℕ

pub record AuditRow : Type 0 where
  pub policy_candidate_id : Uuid
  pub actor_id : Text
  pub action : Text
  pub outcome : Text
  pub expected_revision : ℕ
  pub observed_revision : ℕ

pub record LessonApproval : Type 0 where
  pub id : Uuid
  pub lesson_id : Uuid
  pub action : Text
  pub created_at : Instant

pub record ReplayRow : Type 0 where
  pub lesson_id : Uuid
  pub decision_ids : List Uuid

pub record PolicyDatabase : Type 0 where
  pub control : Dict Text PolicyControl
  pub candidates : Dict Uuid CandidateRow
  pub audit : List AuditRow
  pub lessons : List Uuid
  pub lesson_approvals : List LessonApproval
  pub replay_runs : List ReplayRow

-- `.one()` of a query by primary key.
abbrev pub one {ℓ} : {A : Type ℓ} → Option A → Result A
one none = raise no_result_found
one (some a) = ok a

-- `ON CONFLICT DO NOTHING`
abbrev insert_new : Text → PolicyControl → Dict Text PolicyControl → Dict Text PolicyControl
insert_new kind row table = if contains kind table then table else insert kind row table

-- `__init__`
unfoldable pub bootstrap : PolicyDatabase → Dict Text Text → PolicyDatabase
bootstrap d [] = d
bootstrap d ((kind, version) ∷ versions) =
    bootstrap
      (record d {
        control = insert_new kind (record { active_version = version; revision = 0 }) d.control;
      })
      versions

unfoldable pub stored_version : PolicyDatabase → Text → Result Text
stored_version d kind = do row ← one (lookup kind d.control); ok row.active_version

-- A row becomes a candidate by the constructor.
unfoldable pub read_row : CandidateRow → Result PolicyCandidate
read_row row = with_status row.policy row.policy.status

unfoldable pub stored_candidate : PolicyDatabase → Uuid → Result PolicyCandidate
stored_candidate d id = do row ← one (lookup id d.candidates); read_row row

-- Whether an approval comes before another one in the order by time and id, both descending.
abbrev pub is_later : LessonApproval → LessonApproval → Bool
is_later a b = ltb b.created_at a.created_at || nat_eq a.created_at b.created_at && ltb b.id a.id

abbrev later : Option LessonApproval → LessonApproval → LessonApproval
later none b = b
later (some a) b = if is_later b a then b else a

-- The action of the first approval in that order.
unfoldable pub latest_action : Option LessonApproval → Uuid → List LessonApproval → Option Text
latest_action none lesson_id [] = none
latest_action (some a) lesson_id [] = some a.action
latest_action best lesson_id (a ∷ rows) =
    if nat_eq a.lesson_id lesson_id
    then latest_action (some (later best a)) lesson_id rows
    else latest_action best lesson_id rows

abbrev is_replay_of : Uuid → ReplayRow → Bool
is_replay_of lesson_id row = nat_eq row.lesson_id lesson_id && ltb 0 (length row.decision_ids)

-- `.scalar_one_or_none()`: whether there is a row; it raises on several.
unfoldable pub one_or_none {ℓ} : {A : Type ℓ} → List A → Result Bool
one_or_none [] = ok false
one_or_none (x ∷ []) = ok true
one_or_none (x ∷ y ∷ xs) = raise multiple_results_found

abbrev is_approve : Option Text → Bool
is_approve none = false
is_approve (some action) = action == approve_action

-- `_validate_learning_lineage`, of one lesson and of all.
unfoldable pub validate_lesson : PolicyDatabase → Uuid → Result (Unit {0})
validate_lesson d lesson_id = do
  replay_exists ← one_or_none (filter (is_replay_of lesson_id) d.replay_runs)
  raise_if
      (not (any (nat_eq lesson_id) d.lessons)
        || not (is_approve (latest_action none lesson_id d.lesson_approvals))
        || not replay_exists)
      (value_error "policy requires an approved and replayed lesson")

unfoldable pub validate_learning_lineage : PolicyDatabase → List Uuid → Result (Unit {0})
validate_learning_lineage d [] = ok tt
validate_learning_lineage d (id ∷ ids) = do validate_lesson d id; validate_learning_lineage d ids

abbrev needs_lineage : Text → Bool
needs_lineage action = (action == approve_action) || (action == activate_action)

abbrev pub validate_for : PolicyDatabase → Change → Result (Unit {0})
validate_for d c =
    if needs_lineage c.action then validate_learning_lineage d c.policy.lesson_ids else ok tt

-- `self.candidate(candidate.id) if persisted is not None else candidate`
abbrev pub prior_of : PolicyCandidate → Option CandidateRow → Result PolicyCandidate
prior_of c none = ok c
prior_of c (some row) = read_row row

-- The unique constraint on the kind and the version.
abbrev pub clashes : PolicyCandidate → Dict Uuid CandidateRow → Bool
clashes c [] = false
clashes c ((k, row) ∷ rows) =
    (row.policy.policy_kind == c.policy_kind) && (row.policy.version == c.version) || clashes c rows

-- The row of a candidate after its change: a new row, or the old one with a new status and revision.
unfoldable pub write_candidate :
    PolicyCandidate
    → (next_revision : ℕ) → Option CandidateRow
    → Dict Uuid CandidateRow
    → Result (Dict Uuid CandidateRow)
write_candidate u next none rows = do
  raise_if (clashes u rows) integrity_error
  ok (insert u.id (record { policy = u; revision = next }) rows)
write_candidate u next (some row) rows = ok (
    insert u.id (record { policy = record row.policy { status = u.status }; revision = next }) rows)

-- `UPDATE policy_control ... WHERE policy_kind = .. AND revision = ..`, which must match one row.
abbrev pub matched : (expected : ℕ) → Option PolicyControl → Bool
matched expected none = false
matched expected (some row) = nat_eq row.revision expected

unfoldable pub write_control :
    (kind version : Text) (expected_revision next_revision : ℕ)
    → Dict Text PolicyControl
    → Result (Dict Text PolicyControl)
write_control kind version expected next table = do
  raise_if (not (matched expected (lookup kind table)))
      (version_conflict "policy revision changed concurrently")
  ok (insert kind (record { active_version = version; revision = next }) table)

abbrev pub version_or : Text → Option Text → Text
version_or version none = version
version_or version (some w) = w

abbrev pub audit_row : Change → (action outcome : Text) → (observed : ℕ) → Uuid → AuditRow
audit_row c action outcome observed id = record {
  policy_candidate_id = id;
  actor_id = c.actor.id;
  action = action;
  outcome = outcome;
  expected_revision = c.expected_revision;
  observed_revision = observed;
}

unfoldable pub transact :
    PolicyDatabase → Change → PolicyStatus → Result (PolicyCandidate × PolicyDatabase)
transact d c next_status = do
  control ← one (lookup c.policy.policy_kind d.control)
  raise_if (not (nat_eq c.expected_revision control.revision))
      (version_conflict "policy revision changed concurrently")
  validate_for d c
  let persisted = lookup c.policy.id d.candidates
  prior ← prior_of c.policy persisted
  check_decision c.action prior
  check_base c.action control.active_version prior
  switched ← switch_version c.action control.active_version prior
  updated ← with_status prior next_status
  let next = suc control.revision
  rows ← write_candidate updated next persisted d.candidates
  table ←
      write_control updated.policy_kind (version_or control.active_version switched)
        c.expected_revision next d.control
  ok (
    updated,
    record d {
      control = table;
      candidates = rows;
      audit = d.audit ++ audit_row c c.action (codes "COMPLETED") next updated.id ∷ [];
    },
  )

-- The control row that a denial finds, or makes of the bootstrap versions.
unfoldable pub denial_control :
    (bootstrap_active_versions : Dict Text Text)
    → (kind : Text) → Dict Text PolicyControl
    → Result (ℕ × Dict Text PolicyControl)
denial_control versions kind table = elim (lookup kind table) [
  | some row ↦ ok (row.revision, table)
  | none ↦ elim (lookup kind versions) [
    | none ↦ raise (value_error "policy control must exist before denial audit")
    | some version ↦ ok (0, insert kind (record { active_version = version; revision = 0 }) table)
  ]
]

-- `INSERT ... ON CONFLICT (id) DO NOTHING`
unfoldable pub keep_candidate :
    PolicyCandidate → (revision : ℕ) → Dict Uuid CandidateRow → Result (Dict Uuid CandidateRow)
keep_candidate c revision rows = if contains c.id rows then ok rows else (do
  raise_if (clashes c rows) integrity_error
  ok (insert c.id (record { policy = c; revision = revision }) rows))

-- `deny`, in a transaction of its own, which is `_write_denial`.
unfoldable pub deny :
    (bootstrap_active_versions : Dict Text Text) → PolicyDatabase → Change → Result PolicyDatabase
deny versions d c = do
  (observed, table) ← denial_control versions c.policy.policy_kind d.control
  rows ← keep_candidate c.policy observed d.candidates
  ok (record d {
    control = table;
    candidates = rows;
    audit =
        d.audit
        ++ audit_row c (codes "DENY_" ++ c.action) (codes "FORBIDDEN") observed c.policy.id ∷ [];
  })

abbrev pub in_postgres : Dict Text Text → PolicyRepository PolicyDatabase
in_postgres versions = record {
  find_candidate = stored_candidate;
  transact = transact;
  deny = deny versions;
}
