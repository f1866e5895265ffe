-- ===== src/Harness/Approval.antt =====
-- agents/harness/approval.py: requests for approval and their decisions. The ids that `uuid4` makes
-- and the times that the clock gives are arguments of the operations.
use aistock.Common.{
  nat_eq, ◌≡◌, refl, Bool, true, false, not, List, [], ◌∷◌, ◌++◌, any, if◌then◌else◌, Text, ◌==◌,
  text_eq, text_beq_iff, Result, ok, raise, value_error, permission_error, key_error, ◌>>=◌, ◌>>◌,
  raise_if, codes, arith, Result-cases, inl, inr, All, All-append, any-append, >>=-eq-ok, >>-eq-ok,
  ok-injective, subst, ap,
}
use aistock.Domain.Time.{Datetime, Instant, require_aware}
use aistock.Dict.{Dict, contains, insert}

pub record ApprovalRequest : Type 0 where
  pub id : Text
  pub run_id : Text
  pub action : Text
  pub reason : Text
  pub requested_at : Instant

pub record ApprovalDecision : Type 0 where
  pub request_id : Text
  pub approved : Bool
  pub actor : Text
  pub decided_at : Instant

pub record HumanApprovalGateway : Type 0 where
  pub requests : Dict Text ApprovalRequest
  pub decisions : List ApprovalDecision

abbrev pub empty_gateway : HumanApprovalGateway
empty_gateway = record { requests = []; decisions = [] }

-- `text.startswith(prefix)`
unfoldable pub starts_with : Text → Text → Bool
starts_with [] text = true
starts_with (p ∷ prefix) [] = false
starts_with (p ∷ prefix) (c ∷ text) = if nat_eq p c then starts_with prefix text else false

unfoldable pub request :
    HumanApprovalGateway
    → (id run_id action reason : Text) → Datetime
    → Result (ApprovalRequest × HumanApprovalGateway)
request g id run_id action reason now = do
  t ← require_aware now
  let r : ApprovalRequest = record {
    id = id;
    run_id = run_id;
    action = action;
    reason = reason;
    requested_at = t;
  }
  ok (r, record { requests = insert id r g.requests; decisions = g.decisions })

abbrev pub is_about : Text → ApprovalDecision → Bool
is_about request_id d = d.request_id == request_id

unfoldable pub decide :
    HumanApprovalGateway
    → (request_id : Text) → (approved : Bool) → (actor : Text) → Datetime
    → Result (ApprovalDecision × HumanApprovalGateway)
decide g request_id approved actor now = do
  raise_if (not (starts_with (codes "human:") actor))
      (permission_error "approval actor must be an authenticated human")
  raise_if (not (contains request_id g.requests)) (key_error "unknown approval request")
  raise_if (any (is_about request_id) g.decisions) (value_error "approval request already decided")
  t ← require_aware now
  let d : ApprovalDecision = record {
    request_id = request_id;
    approved = approved;
    actor = actor;
    decided_at = t;
  }
  ok (d, record { requests = g.requests; decisions = g.decisions ++ d ∷ [] })

pub data Operation : Type 0 where
  ask : (id run_id action reason : Text) (now : Datetime) → Operation
  answer : (request_id : Text) (approved : Bool) (actor : Text) (now : Datetime) → Operation

abbrev kept {ℓ} :
    {A : Type ℓ} → HumanApprovalGateway → Result (A × HumanApprovalGateway) → HumanApprovalGateway
kept g (ok (a, h)) = h
kept g (raise e) = g

-- The gateway after an operation, which changes nothing when it raises.
unfoldable pub operate : HumanApprovalGateway → Operation → HumanApprovalGateway
operate g (ask id run_id action reason now) = kept g (request g id run_id action reason now)
operate g (answer request_id approved actor now) = kept g (decide g request_id approved actor now)

unfoldable pub operate_all : HumanApprovalGateway → List Operation → HumanApprovalGateway
operate_all g [] = g
operate_all g (o ∷ os) = operate_all (operate g o) os

-- No two decisions are about one request.
abbrev pub DecidedOnce : List ApprovalDecision → Type 0
DecidedOnce [] = Unit
DecidedOnce (d ∷ ds) = (any (is_about d.request_id) ds ≡ false) × DecidedOnce ds

pub record IsValid (g : HumanApprovalGateway) : Type 0 where
  pub once : DecidedOnce g.decisions
  pub by_humans :
      All (λ (d : ApprovalDecision). starts_with (codes "human:") d.actor ≡ true) g.decisions
  pub requested :
      All (λ (d : ApprovalDecision). contains d.request_id g.requests ≡ true) g.decisions

DecidedOnce-snoc :
    (ds : List ApprovalDecision) (d : ApprovalDecision)
    → DecidedOnce ds
    → any (is_about d.request_id) ds ≡ false
    → DecidedOnce (ds ++ d ∷ [])
DecidedOnce-snoc [] d h n = (refl, tt)
DecidedOnce-snoc (e ∷ ds) d h n = (
  rw (any-append (is_about e.request_id) ds (d ∷ [])) (
      ground (
        arith,
        h.0,
        text_beq_iff e.request_id d.request_id,
        text_beq_iff d.request_id e.request_id,
      )),
  DecidedOnce-snoc ds d h.1 (ground arith),
)

contains-insert :
    (j k : Text) (r : ApprovalRequest) (d : Dict Text ApprovalRequest)
    → contains j d ≡ true
    → contains j (insert k r d) ≡ true
contains-insert j k r [] h = absurd (ground arith)
contains-insert j k r ((i, x) ∷ d) h =
    ground (arith, contains-insert j k r d, text_beq_iff k i, text_beq_iff j i, text_beq_iff j k)

contains-All :
    (k : Text) (r : ApprovalRequest) (rs : Dict Text ApprovalRequest) (ds : List ApprovalDecision)
    → All (λ (d : ApprovalDecision). contains d.request_id rs ≡ true) ds
    → All (λ (d : ApprovalDecision). contains d.request_id (insert k r rs) ≡ true) ds
contains-All k r rs [] h = tt
contains-All k r rs (d ∷ ds) h =
    (contains-insert d.request_id k r rs h.0, contains-All k r rs ds h.1)

request-IsValid :
    (g : HumanApprovalGateway) (id run_id action reason : Text) (now : Datetime)
    (r : ApprovalRequest) (h : HumanApprovalGateway)
    → IsValid g
    → request g id run_id action reason now ≡ ok (r, h)
    → IsValid h
unfolding request
request-IsValid g id run_id action reason now r h v e =
    let (t, _, last) = >>=-eq-ok (require_aware now) _ e in
    let same = ap (λ (x : ApprovalRequest × HumanApprovalGateway). x.1) (ok-injective last) in
    subst IsValid same (record {
      once = v.once;
      by_humans = v.by_humans;
      requested = contains-All id _ g.requests g.decisions v.requested;
    })

decide-IsValid :
    (g : HumanApprovalGateway) (request_id : Text) (approved : Bool) (actor : Text) (now : Datetime)
    (d : ApprovalDecision) (h : HumanApprovalGateway)
    → IsValid g
    → decide g request_id approved actor now ≡ ok (d, h)
    → IsValid h
unfolding decide
decide-IsValid g request_id approved actor now d h v e =
    let (human, e1) = >>-eq-ok (raise_if (not (starts_with (codes "human:") actor)) _) _ e in
    let (known, e2) = >>-eq-ok (raise_if (not (contains request_id g.requests)) _) _ e1 in
    let (first, e3) = >>-eq-ok (raise_if (any (is_about request_id) g.decisions) _) _ e2 in
    let (t, _, last) = >>=-eq-ok (require_aware now) _ e3 in
    let same = ap (λ (x : ApprovalDecision × HumanApprovalGateway). x.1) (ok-injective last) in
    subst IsValid same (record {
      once = DecidedOnce-snoc g.decisions _ v.once (ground arith);
      by_humans = All-append _ g.decisions _ v.by_humans (ground arith, tt);
      requested = All-append _ g.decisions _ v.requested (ground arith, tt);
    })

operate-IsValid : (g : HumanApprovalGateway) (o : Operation) → IsValid g → IsValid (operate g o)
unfolding operate
operate-IsValid g (ask id run_id action reason now) v =
    elim (Result-cases (request g id run_id action reason now)) [
      | inl ((r, h), e) ↦ rw e (request-IsValid g id run_id action reason now r h v e)
      | inr (x, e) ↦ rw e v
    ]
operate-IsValid g (answer request_id approved actor now) v =
    elim (Result-cases (decide g request_id approved actor now)) [
      | inl ((d, h), e) ↦ rw e (decide-IsValid g request_id approved actor now d h v e)
      | inr (x, e) ↦ rw e v
    ]

operate_all_lem :
    (g : HumanApprovalGateway) (os : List Operation) → IsValid g → IsValid (operate_all g os)
unfolding operate_all
operate_all_lem g [] v = v
operate_all_lem g (o ∷ os) v = operate_all_lem (operate g o) os (operate-IsValid g o v)

-- After any sequence of requests and decisions on a new gateway, of which any may have raised, each
-- decision is about a known request, was made by an actor whose name begins with "human:", and is
-- the only one about its request.
pub operate_all-IsValid : (os : List Operation) → IsValid (operate_all empty_gateway os)
operate_all-IsValid os =
    operate_all_lem empty_gateway os (record { once = tt; by_humans = tt; requested = tt })
