-- ===== src/Learning/Policy.antt =====
-- domain/learning/policy.py, and the actors of application/learning/promotion.py.
use aistock.Common.{
  ℕ, ◌≡◌, Bool, true, false, ◌||◌, not, List, [], ◌∷◌, Text, is_empty, ◌==◌, ℕ_eq, text_eq, pair_eq,
  Result, ok, value_error, permission_error, ◌>>=◌, ◌>>◌, raise_if, codes, ok-injective, >>-eq-ok,
  sym,
}
use aistock.Domain.Ids.{Uuid, lower, is_blank}
use aistock.Domain.Time.{Datetime, aware, Instant, require_aware}

pub data PolicyStatus : Type 0 where
  candidate approved active rejected rolled_back : PolicyStatus

abbrev pub is_candidate : PolicyStatus → Bool
is_candidate candidate = true
is_candidate _ = false

abbrev pub is_approved : PolicyStatus → Bool
is_approved approved = true
is_approved _ = false

abbrev pub is_active : PolicyStatus → Bool
is_active active = true
is_active _ = false

pub record PolicyCandidate : Type 0 where
  pub id : Uuid
  pub policy_kind : Text
  pub version : Text
  pub base_version : Text
  pub lesson_ids : List Uuid
  pub created_at : Instant
  pub status : PolicyStatus

-- The constructor with its `__post_init__`.
unfoldable pub policy_candidate :
    (id : Uuid) (policy_kind version base_version : Text) (lesson_ids : List Uuid)
    (created_at : Datetime)
    → PolicyStatus
    → Result PolicyCandidate
policy_candidate id policy_kind version base_version lesson_ids created_at status = do
  raise_if (is_blank policy_kind || is_blank version || is_blank base_version)
      (value_error "policy kind and versions are required")
  raise_if (is_empty lesson_ids) (value_error "policy candidate requires lessons")
  t ← require_aware created_at
  ok (record {
    id = id;
    policy_kind = policy_kind;
    version = version;
    base_version = base_version;
    lesson_ids = lesson_ids;
    created_at = t;
    status = status;
  })

-- `replace(candidate, status=status)`, which constructs again.
unfoldable pub with_status : PolicyCandidate → PolicyStatus → Result PolicyCandidate
with_status c status =
    policy_candidate c.id c.policy_kind c.version c.base_version c.lesson_ids (aware c.created_at)
      status

pub record PromotionAuditEvent : Type 0 where
  pub candidate_id : Uuid
  pub actor_id : Text
  pub action : Text
  pub outcome : Text
  pub expected_revision : ℕ
  pub observed_revision : ℕ
  pub created_at : Instant

pub record HumanActor : Type 0 where
  pub id : Text
  pub authenticated : Bool
  pub is_human : Bool

-- The constructor with its `__post_init__`.
unfoldable pub human_actor : (id : Text) (authenticated is_human : Bool) → Result HumanActor
human_actor id authenticated is_human = do
  raise_if (is_blank id) (value_error "actor id is required")
  ok (record { id = id; authenticated = authenticated; is_human = is_human })

-- `text.endswith(suffix)`: the suffix is the text, or ends the text after its first character.
unfoldable pub ends_with : Text → Text → Bool
ends_with suffix [] = suffix == []
ends_with suffix (c ∷ text) = (suffix == c ∷ text) || ends_with suffix text

-- The source folds with `casefold`, which gives a text that ends in "agent" exactly when `lower` does.
unfoldable pub require_authenticated_human : HumanActor → Result (Unit {0})
require_authenticated_human actor =
    raise_if
      (not actor.authenticated || not actor.is_human || ends_with (codes "agent") (lower actor.id))
      (permission_error "authenticated human approval required")

pub with_status-eq-ok :
    (c u : PolicyCandidate) (s : PolicyStatus)
    → with_status c s ≡ ok u
    → u ≡ record c { status = s }
unfolding with_status policy_candidate
with_status-eq-ok c u s h =
    let (_, h1) =
      >>-eq-ok
        (raise_if (is_blank c.policy_kind || is_blank c.version || is_blank c.base_version) _) _
        h in
    let (_, h2) = >>-eq-ok (raise_if (is_empty c.lesson_ids) _) _ h1 in sym (ok-injective h2)
