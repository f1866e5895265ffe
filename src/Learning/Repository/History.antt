-- ===== src/Learning/Repository/History.antt =====
-- The audit trail of the repository in memory, over any sequence of calls of the service.
use aistock.Common.{
  ℕ, zero, suc, ◌≡◌, refl, Bool, true, false, List, [], ◌∷◌, ◌++◌, arith, if◌then◌else◌, Text, ◌==◌,
  ℕ_eq, text_eq, pair_eq, ok, All, codes, All-append, ok-injective, ap, sym, ◌∙◌, subst,
}
use aistock.Domain.Ids.{Uuid, lower}
use aistock.Domain.Time.{Instant}
use aistock.Dict.{Dict}
use aistock.Learning.Policy.{
  PolicyStatus, PolicyCandidate, PromotionAuditEvent, HumanActor, require_authenticated_human,
  ends_with,
}
use aistock.Learning.Repository.{
  Change, InMemoryPolicyRepository, new_repository, transact, deny, in_memory, authorize, approve,
  reject, activate, rollback, candidate_of, with_candidate_lem, authorize_lem,
}
use aistock.Learning.Repository.Effect.{transact-Transacted}

pub data Operation : Type 0 where
  approving rejecting : PolicyCandidate → HumanActor → ℕ → Instant → Operation
  activating rolling_back : Uuid → HumanActor → ℕ → Instant → Operation

-- The repository after a call of the service, of which the result is dropped.
unfoldable pub operate : InMemoryPolicyRepository → Operation → InMemoryPolicyRepository
operate r (approving c actor expected now) = (approve in_memory r c actor expected now).1
operate r (rejecting c actor expected now) = (reject in_memory r c actor expected now).1
operate r (activating id actor expected now) = (activate in_memory r id actor expected now).1
operate r (rolling_back id actor expected now) = (rollback in_memory r id actor expected now).1

unfoldable pub operate_all : InMemoryPolicyRepository → List Operation → InMemoryPolicyRepository
operate_all r [] = r
operate_all r (o ∷ os) = operate_all (operate r o) os

abbrev pub is_completed : PromotionAuditEvent → Bool
is_completed e = e.outcome == codes "COMPLETED"

-- The revisions that the completed events have observed, in their order.
abbrev pub completed_revisions : List PromotionAuditEvent → List ℕ
completed_revisions [] = []
completed_revisions (e ∷ es) =
    if is_completed e then e.observed_revision ∷ completed_revisions es else completed_revisions es

-- 1, 2, ... up to a number.
abbrev pub count_up : ℕ → List ℕ
count_up zero = []
count_up (suc n) = count_up n ++ suc n ∷ []

-- A completed event moved the revision by one, and its actor is no agent.
abbrev pub IsSound : PromotionAuditEvent → Type 0
IsSound e =
    is_completed e ≡ true
    → (e.observed_revision ≡ suc e.expected_revision)
      × (ends_with (codes "agent") (lower e.actor_id) ≡ false)

pub record History (r : InMemoryPolicyRepository) : Type 0 where
  pub revisions : completed_revisions r.audit_events ≡ count_up r.revision
  pub sound : All IsSound r.audit_events

completed_revisions-append :
    (es fs : List PromotionAuditEvent)
    → completed_revisions (es ++ fs) ≡ completed_revisions es ++ completed_revisions fs
completed_revisions-append [] fs = refl
completed_revisions-append (e ∷ es) fs = ground (arith, completed_revisions-append es fs)

not_agent :
    (a : HumanActor)
    → require_authenticated_human a ≡ ok tt
    → ends_with (codes "agent") (lower a.id) ≡ false
unfolding require_authenticated_human
not_agent a h = ground arith

append_nil : (xs : List ℕ) → xs ++ [] ≡ xs
append_nil [] = refl
append_nil (x ∷ xs) = ap (λ (ys : List ℕ). x ∷ ys) (append_nil xs)

deny-History :
    (r s : InMemoryPolicyRepository) (c : Change) → History r → deny r c ≡ ok s → History s
unfolding deny
deny-History r s c v h = subst History (ok-injective h) (record {
  revisions = completed_revisions-append r.audit_events _ ∙ append_nil _ ∙ v.revisions;
  sound = All-append IsSound r.audit_events _ v.sound (λ e. absurd (ground arith), tt);
})

transact-History :
    (r s : InMemoryPolicyRepository) (c : Change) (next_status : PolicyStatus) (u : PolicyCandidate)
    → History r
    → require_authenticated_human c.actor ≡ ok tt
    → transact r c next_status ≡ ok (u, s)
    → History s
transact-History r s c next_status u v human h =
    let t = transact-Transacted r c next_status u s h in
    subst History (sym t.state) (record {
      revisions =
          completed_revisions-append r.audit_events _
          ∙ ap (λ (x : List ℕ). x ++ suc r.revision ∷ []) v.revisions;
      sound =
          All-append IsSound r.audit_events _ v.sound
            (λ e. (ap suc (sym t.is_current), not_agent c.actor human), tt);
    })

authorize-History :
    (r : InMemoryPolicyRepository) (c : Change) (next_status : PolicyStatus)
    → History r
    → History (authorize in_memory r c next_status).1
authorize-History r c next_status v =
    authorize_lem in_memory History r c next_status v (λ s h. deny-History r s c v h)
      (λ u s human h. transact-History r s c next_status u v human h)

operate-History : (r : InMemoryPolicyRepository) (o : Operation) → History r → History (operate r o)
unfolding operate approve reject activate rollback
operate-History r (approving c actor expected now) v = authorize-History r _ _ v
operate-History r (rejecting c actor expected now) v = authorize-History r _ _ v
operate-History r (activating id actor expected now) v =
    with_candidate_lem History r (candidate_of r id) _ v (λ c h. authorize-History r _ _ v)
operate-History r (rolling_back id actor expected now) v =
    with_candidate_lem History r (candidate_of r id) _ v (λ c h. authorize-History r _ _ v)

operate_all_lem :
    (r : InMemoryPolicyRepository) (os : List Operation) → History r → History (operate_all r os)
unfolding operate_all
operate_all_lem r [] v = v
operate_all_lem r (o ∷ os) v = operate_all_lem (operate r o) os (operate-History r o v)

-- After any calls of the service on a new repository in memory, of which any may have raised, the
-- revision counts the completed audit events: these have observed 1, 2, and so on up to the
-- revision, each one more than it expected, and none was caused by an actor whose name ends with
-- "agent" in any letter case.
pub operate_all-History :
    (active_versions : Dict Text Text) (os : List Operation)
    → History (operate_all (new_repository active_versions) os)
operate_all-History active_versions os =
    operate_all_lem (new_repository active_versions) os (record { revisions = refl; sound = tt })
