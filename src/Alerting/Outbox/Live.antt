-- ===== src/Alerting/Outbox/Live.antt =====
-- A dispatch whose adapters work delivers every message that is due.
use aistock.Common.{
  ℕ, ◌+◌, ◌≤◌, ◌≡◌, ◌⊎◌, inl, inr, refl, Bool, true, false, List, [], ◌∷◌, arith, if◌then◌else◌,
  length, all, filter, ◌==◌, ℕ_eq, text_eq, pair_eq, some, Result, ok, Bool-cases, All, ap, sym,
  ◌∙◌, subst,
}
use aistock.Domain.Ids.{Uuid}
use aistock.Domain.Time.{aware, Instant}
use aistock.Dict.{Dict, lookup, values}
use aistock.Dict.{IsIndex}
use aistock.Alerting.Outbox.{
  channel_eq, is_delivered, Delivery, OutboxMessage, Adapters, deliver_all, started, updated,
  counted, InMemoryOutboxStore, is_due, due, dispatch_all, dispatch_due, state_delivered,
}
use aistock.Alerting.Outbox.Accounts.{deliver_all-Keeps}
use aistock.Alerting.Outbox.Store.{
  id_of, HasStates, IsValid, Pending, after, lookup-after, after-IsValid, Pending-after,
  dispatch_all_next, due-Pending, some-injective, none_ne_some,
}
use aistock.Alerting.Outbox.Once.{
  new_store, new_store-IsValid, IsCreated, Round, dispatch_rounds, dispatch_rounds-IsValid,
}
use aistock.Alerting.Outbox.Covers.{AreWorking, deliver_all-Covers, all_delivered}

-- A store holds a delivered message under an id.
abbrev pub DeliveredIn : {P : Type 0} → InMemoryOutboxStore P → Uuid → Type 0
DeliveredIn {P = P} store k =
    (m : OutboxMessage P) × (lookup k store.messages ≡ some m) × (is_delivered m.status ≡ true)

updated_delivered :
    {P : Type 0} (now : Instant) (m : OutboxMessage P) (s : Delivery)
    → all state_delivered (values s.states) ≡ true
    → is_delivered (updated now m s).status ≡ true
unfolding updated
updated_delivered now m s h = rw h refl

-- What a message becomes.
completes :
    {P : Type 0} (adapters : Adapters P) (now : Instant) (store : InMemoryOutboxStore P)
    (m : OutboxMessage P)
    → AreWorking adapters
    → HasStates m
    → is_delivered
        (updated now m (deliver_all adapters m (started m store.sends) m.channels).1).status
      ≡ true
completes adapters now store m w has =
    let (returned, keep) = deliver_all-Keeps adapters m (started m store.sends) m.channels has.0 in
    updated_delivered now m _ (
      all_delivered _ (keep.once has.2) (
        deliver_all-Covers adapters m (started m store.sends) m.channels w has.0
          (λ c s found. inr (has.1 c (ground arith)))))

after-DeliveredIn :
    {P : Type 0} (adapters : Adapters P) (now : Instant) (store : InMemoryOutboxStore P)
    (m : OutboxMessage P) (k : Uuid)
    → AreWorking adapters
    → HasStates m
    → ((k == m.id) ≡ true) ⊎ DeliveredIn store k
    → DeliveredIn (after adapters now store m) k
after-DeliveredIn adapters now store m k w has h = elim (Bool-cases (k == m.id)) [
  | inl same ↦ (
    updated now m (deliver_all adapters m (started m store.sends) m.channels).1,
    lookup-after adapters now store m k ∙ rw same refl,
    completes adapters now store m w has,
  )
  | inr other ↦ elim h [
    | inl same ↦ absurd (ground arith)
    | inr (x, found, done) ↦ (x, lookup-after adapters now store m k ∙ rw other found, done)
  ]
]

-- What a dispatch of pending messages does when its adapters work.
record Live {P : Type 0} (count : ℕ) (store : InMemoryOutboxStore P) (ms : List (OutboxMessage P))
    (r : Result ℕ × InMemoryOutboxStore P) : Type 0 where
  returns : r.0 ≡ ok (count + length ms)
  keeps : (k : Uuid) → DeliveredIn store k → DeliveredIn r.1 k
  delivers_all : All (λ (m : OutboxMessage P). DeliveredIn r.1 m.id) ms

dispatch_all-Live :
    {P : Type 0} (adapters : Adapters P) (now : Instant) (count : ℕ) (store : InMemoryOutboxStore P)
    (ms : List (OutboxMessage P))
    → AreWorking adapters
    → IsValid store
    → Pending store ms
    → Live count store ms (dispatch_all adapters now count store ms)
unfolding dispatch_all
dispatch_all-Live adapters now count store [] w v h = record {
  returns = ap ok (omega arith);
  keeps = λ k d. d;
  delivers_all = tt;
}
dispatch_all-Live {P = P} adapters now count store (m ∷ ms) w v h =
    let has = (v.each m.id m h.0).0 in
    let t = updated now m (deliver_all adapters m (started m store.sends) m.channels).1 in
    let rest =
      dispatch_all-Live adapters now (counted count t) (after adapters now store m) ms w
        (after-IsValid adapters now store m v h.0)
        (Pending-after adapters now store m ms h.1 h.2) in
    subst (Live count store (m ∷ ms)) (sym (dispatch_all_next adapters now count store m ms has))
      (record {
        returns = rest.returns ∙ ap ok (ground (arith, completes adapters now store m w has));
        keeps = λ k d. rest.keeps k (after-DeliveredIn adapters now store m k w has (inr d));
        delivers_all = (
          rest.keeps m.id (after-DeliveredIn adapters now store m m.id w has (inl (ground arith))),
          rest.delivers_all,
        );
      })

all_first {ℓ κ} :
    {A : Type ℓ} (Q : A → Type κ) (b : Bool) (x : A) (xs : List A)
    → All Q (if b then x ∷ xs else xs)
    → b ≡ true
    → Q x
all_first Q true x xs h e = h.0
all_first Q false x xs h e = cc

all_rest {ℓ κ} :
    {A : Type ℓ} (Q : A → Type κ) (b : Bool) (x : A) (xs : List A)
    → All Q (if b then x ∷ xs else xs)
    → All Q xs
all_rest Q true x xs h = h.1
all_rest Q false x xs h = h

head_found :
    {P : Type 0} (k j : Uuid) (x : OutboxMessage P) (d : Dict Uuid (OutboxMessage P))
    → (k == j) ≡ true
    → lookup k ((j, x) ∷ d) ≡ some x
head_found k j x d h = rw h refl

tail_found :
    {P : Type 0} (k j : Uuid) (x : OutboxMessage P) (d : Dict Uuid (OutboxMessage P))
    → (k == j) ≡ false
    → lookup k ((j, x) ∷ d) ≡ lookup k d
tail_found k j x d h = rw h refl

filtered {ℓ} :
    {P : Type 0} (Q : OutboxMessage P → Type ℓ) (p : OutboxMessage P → Bool) (k : Uuid)
    (m : OutboxMessage P) (d : Dict Uuid (OutboxMessage P))
    → All Q (filter p (values d))
    → lookup k d ≡ some m
    → p m ≡ true
    → Q m
filtered Q p k m [] h found t = absurd (none_ne_some found)
filtered Q p k m ((j, x) ∷ d) h found t = elim (Bool-cases (k == j)) [
  | inl same ↦
      let is_x : x ≡ m = some-injective (sym (head_found k j x d same) ∙ found) in
      subst Q is_x (all_first Q (p x) x (filter p (values d)) h (ap p is_x ∙ t))
  | inr other ↦
      filtered Q p k m d (all_rest Q (p x) x (filter p (values d)) h)
        (sym (tail_found k j x d other) ∙ found) t
]

own_id :
    {P : Type 0} (k : Uuid) (m : OutboxMessage P) (d : Dict Uuid (OutboxMessage P))
    → IsIndex id_of d
    → lookup k d ≡ some m
    → m.id ≡ k
own_id k m [] h found = absurd (none_ne_some found)
own_id k m ((j, x) ∷ d) h found = elim (Bool-cases (k == j)) [
  | inl same ↦
      let is_x : x ≡ m = some-injective (sym (head_found k j x d same) ∙ found) in
      subst (λ (y : OutboxMessage _). y.id ≡ k) is_x (h.0 ∙ sym ((ℕ_eq.beq_iff k j).0 same))
  | inr other ↦ own_id k m d h.2 (sym (tail_found k j x d other) ∙ found)
]

due_or_delivered :
    {P : Type 0} (now : Instant) (m : OutboxMessage P)
    → m.next_attempt_at ≤ now
    → (is_delivered m.status ≡ true) ⊎ (is_due now m ≡ true)
due_or_delivered now m h = ground arith

dispatch_due_live :
    {P : Type 0} (adapters : Adapters P) (now : Instant) (store : InMemoryOutboxStore P) (k : Uuid)
    (m : OutboxMessage P)
    → AreWorking adapters
    → IsValid store
    → lookup k store.messages ≡ some m
    → m.next_attempt_at ≤ now
    → ((dispatch_due adapters (aware now) store).0 ≡ ok (length (due store now)))
      × DeliveredIn (dispatch_due adapters (aware now) store).1 k
unfolding dispatch_due due
dispatch_due_live adapters now store k m w v found early =
    let ms = due store now in
    let live = dispatch_all-Live adapters now 0 store ms w v (due-Pending store now v.index) in
    let out = (dispatch_all adapters now 0 store ms).1 in
    (
      live.returns ∙ ap ok (omega arith),
      elim (due_or_delivered now m early) [
        | inl done ↦ live.keeps k (m, found, done)
        | inr is ↦
            subst (λ (i : Uuid). DeliveredIn out i) (own_id k m store.messages v.index found)
              (filtered (λ x. DeliveredIn out x.id) (is_due now) k m store.messages
                live.delivers_all found is)
      ],
    )

-- After messages that `create` has made went through any number of dispatches, whatever their adapters
-- did, one dispatch with an adapter for each channel that sends every payload returns the number of
-- the due messages, and leaves delivered each message whose next attempt was not after its time.
pub dispatch_rounds_live :
    {P : Type 0} (ms : List (OutboxMessage P)) (rounds : List (Round P)) (adapters : Adapters P)
    (now : Instant) (k : Uuid) (m : OutboxMessage P)
    → All IsCreated ms
    → AreWorking adapters
    → lookup k (dispatch_rounds (new_store ms) rounds).messages ≡ some m
    → m.next_attempt_at ≤ now
    → ((dispatch_due adapters (aware now) (dispatch_rounds (new_store ms) rounds)).0
        ≡ ok (length (due (dispatch_rounds (new_store ms) rounds) now)))
      × DeliveredIn (dispatch_due adapters (aware now) (dispatch_rounds (new_store ms) rounds)).1 k
dispatch_rounds_live ms rounds adapters now k m h w found early =
    dispatch_due_live adapters now (dispatch_rounds (new_store ms) rounds) k m w
      (dispatch_rounds-IsValid (new_store ms) rounds (new_store-IsValid ms h)) found early
