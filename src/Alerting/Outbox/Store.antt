-- ===== src/Alerting/Outbox/Store.antt =====
-- What a store and the messages that it holds keep while a dispatch goes through the due ones.
use aistock.Common.{
  ℕ, ◌≡◌, ◌≢◌, ◌⊎◌, inl, inr, refl, Bool, true, false, List, [], ◌∷◌, arith, nat_eq, if◌then◌else◌,
  any, filter, ◌==◌, ℕ_eq, text_eq, pair_eq, none, some, Result, ok, raise, Bool-cases, All, sym,
  ◌∙◌, subst,
}
use aistock.Domain.Ids.{Uuid}
use aistock.Domain.Time.{Instant}
use aistock.Dict.{Dict, lookup, contains, lookup-insert, insert, values}
use aistock.Dict.{IsIndex, insert-IsIndex}
use aistock.Alerting.Outbox.{
  NotificationChannel, channel_eq, Delivery, OutboxMessage, Adapters, deliver_all, started, updated,
  counted, InMemoryOutboxStore, is_due, due, save_delivery, dispatch_all, after_channels,
}
use aistock.Alerting.Outbox.Accounts.{KeyedOnce, Accounted, deliver_all-Keeps, has_all}

abbrev pub id_of : {P : Type 0} → OutboxMessage P → Uuid
id_of m = m.id

-- The channels of a message are those that have a state, and have one each.
abbrev pub HasStates : {P : Type 0} → OutboxMessage P → Type 0
HasStates m =
    All (λ (c : NotificationChannel). contains c m.channel_states ≡ true) m.channels
    × ((c : NotificationChannel)
        → contains c m.channel_states ≡ true
        → any (λ d. c == d) m.channels ≡ true)
    × KeyedOnce m.channel_states

pub record IsValid {P : Type 0} (store : InMemoryOutboxStore P) : Type 0 where
  pub index : IsIndex id_of store.messages
  pub each :
      (k : Uuid) (m : OutboxMessage P)
      → lookup k store.messages ≡ some m
      → HasStates m × Accounted k m.channel_states store.sends

-- Messages that a store holds, of different ids.
abbrev pub Pending : {P : Type 0} → InMemoryOutboxStore P → List (OutboxMessage P) → Type 0
Pending store [] = Unit
Pending store (m ∷ ms) =
    (lookup m.id store.messages ≡ some m)
    × All (λ n. nat_eq n.id m.id ≡ false) ms
    × Pending store ms

-- The store after a due message was delivered.
abbrev pub after :
    {P : Type 0}
    → Adapters P
    → Instant
    → InMemoryOutboxStore P
    → OutboxMessage P
    → InMemoryOutboxStore P
after adapters now store m =
    let s = (deliver_all adapters m (started m store.sends) m.channels).1 in
    save_delivery store (updated now m s) s.sends

pub lookup-after :
    {P : Type 0} (adapters : Adapters P) (now : Instant) (store : InMemoryOutboxStore P)
    (m : OutboxMessage P) (k : Uuid)
    → lookup k (after adapters now store m).messages ≡ (
        if k == m.id
        then some (updated now m (deliver_all adapters m (started m store.sends) m.channels).1)
        else lookup k store.messages)
unfolding save_delivery updated
lookup-after adapters now store m k = lookup-insert k m.id _ store.messages

pub some-injective {ℓ} : {A : Type ℓ} {a b : A} → some a ≡ some b → a ≡ b
some-injective h = cc

-- What is found after an insertion.
pub insert_found {ℓ} :
    {V : Type ℓ} (k j : Uuid) (v x : V) (d : Dict Uuid V)
    → lookup k (insert j v d) ≡ some x
    → ((k ≡ j) × (v ≡ x)) ⊎ ((nat_eq j k ≡ false) × (lookup k d ≡ some x))
insert_found k j v x d h = elim (Bool-cases (k == j)) [
  | inl same ↦
      inl
        ((ℕ_eq.beq_iff k j).0 same, some-injective (sym (lookup-insert k j v d ∙ rw same refl) ∙ h))
  | inr other ↦ inr (ground arith, sym (lookup-insert k j v d ∙ rw other refl) ∙ h)
]

pub after-IsValid :
    {P : Type 0} (adapters : Adapters P) (now : Instant) (store : InMemoryOutboxStore P)
    (m : OutboxMessage P)
    → IsValid store
    → lookup m.id store.messages ≡ some m
    → IsValid (after adapters now store m)
unfolding save_delivery updated
after-IsValid {P = P} adapters now store m v found =
    let (has, account) = v.each m.id m found in
    let (returned, keep) = deliver_all-Keeps adapters m (started m store.sends) m.channels has.0 in
    let s = (deliver_all adapters m (started m store.sends) m.channels).1 in
    record {
      index = insert-IsIndex id_of (updated now m s) store.messages v.index;
      each = λ k x there. elim (insert_found k m.id (updated now m s) x store.messages there) [
        | inl (here, new) ↦
            subst (λ (y : OutboxMessage P). HasStates y × Accounted k y.channel_states s.sends) new
              (
                (
                  has_all m.channel_states s.states m.channels keep.same_keys has.0,
                  λ c h. has.1 c (sym (keep.same_keys c) ∙ h),
                  keep.once has.2,
                ),
                subst (λ (i : Uuid). Accounted i s.states s.sends) (sym here) (keep.own account),
              )
        | inr (other, old) ↦
            let (had, before) = v.each k x old in (had, λ c. keep.other k c other ∙ before c)
      ];
    }

-- The messages that are still to come are untouched.
pub Pending-after :
    {P : Type 0} (adapters : Adapters P) (now : Instant) (store : InMemoryOutboxStore P)
    (m : OutboxMessage P) (ms : List (OutboxMessage P))
    → All (λ n. nat_eq n.id m.id ≡ false) ms
    → Pending store ms
    → Pending (after adapters now store m) ms
Pending-after adapters now store m [] n h = tt
Pending-after adapters now store m (x ∷ ms) n h = (
  lookup-after adapters now store m x.id ∙ rw n.0 h.0,
  h.1,
  Pending-after adapters now store m ms n.1 h.2,
)

after_channels_lem :
    {P : Type 0} (store : InMemoryOutboxStore P)
    (rest : Delivery → Result ℕ × InMemoryOutboxStore P) (r : Result (Unit {0}) × Delivery)
    → r.0 ≡ ok tt
    → after_channels store rest r ≡ rest r.1
after_channels_lem store rest (ok _, s) h = refl
after_channels_lem store rest (raise e, s) h = cc

pub dispatch_all_next :
    {P : Type 0} (adapters : Adapters P) (now : Instant) (count : ℕ) (store : InMemoryOutboxStore P)
    (m : OutboxMessage P) (ms : List (OutboxMessage P))
    → HasStates m
    → dispatch_all adapters now count store (m ∷ ms)
      ≡ dispatch_all adapters now
          (counted count
            (updated now m (deliver_all adapters m (started m store.sends) m.channels).1))
          (after adapters now store m)
          ms
unfolding dispatch_all
dispatch_all_next adapters now count store m ms h =
    after_channels_lem store _ (deliver_all adapters m (started m store.sends) m.channels)
      (deliver_all-Keeps adapters m (started m store.sends) m.channels h.0).0

pub dispatch_all-IsValid :
    {P : Type 0} (adapters : Adapters P) (now : Instant) (count : ℕ) (store : InMemoryOutboxStore P)
    (ms : List (OutboxMessage P))
    → IsValid store
    → Pending store ms
    → ((n : ℕ) × ((dispatch_all adapters now count store ms).0 ≡ ok n))
      × IsValid (dispatch_all adapters now count store ms).1
unfolding dispatch_all
dispatch_all-IsValid adapters now count store [] v h = ((count, refl), v)
dispatch_all-IsValid {P = P} adapters now count store (m ∷ ms) v h =
    subst (λ (x : Result ℕ × InMemoryOutboxStore P). ((n : ℕ) × (x.0 ≡ ok n)) × IsValid x.1)
      (sym (dispatch_all_next adapters now count store m ms (v.each m.id m h.0).0))
      (dispatch_all-IsValid adapters now
        (counted count
          (updated now m (deliver_all adapters m (started m store.sends) m.channels).1))
        (after adapters now store m) ms (after-IsValid adapters now store m v h.0)
        (Pending-after adapters now store m ms h.1 h.2))

all_if {ℓ κ} :
    {A : Type ℓ} (Q : A → Type κ) (b : Bool) (x : A) (xs : List A)
    → Q x
    → All Q xs
    → All Q (if b then x ∷ xs else xs)
all_if Q true x xs q h = (q, h)
all_if Q false x xs q h = h

in_store_if :
    {P : Type 0} (store : InMemoryOutboxStore P) (b : Bool) (x : OutboxMessage P)
    (xs : List (OutboxMessage P))
    → (lookup x.id store.messages ≡ some x)
      × All (λ n. nat_eq n.id x.id ≡ false) xs
      × Pending store xs
    → Pending store (if b then x ∷ xs else xs)
in_store_if store true x xs h = h
in_store_if store false x xs h = h.2

not_first :
    {P : Type 0} (k j : Uuid) (x : OutboxMessage P) (d : Dict Uuid (OutboxMessage P))
    → lookup k ((j, x) ∷ d) ≡ none
    → (nat_eq j k ≡ false) × (lookup k d ≡ none)
not_first k j x d h = ground arith

-- The ids that are not in a dict are not among its messages.
absent :
    {P : Type 0} (p : OutboxMessage P → Bool) (k : Uuid) (d : Dict Uuid (OutboxMessage P))
    → IsIndex id_of d
    → lookup k d ≡ none
    → All (λ n. nat_eq n.id k ≡ false) (filter p (values d))
absent p k [] h e = tt
absent p k ((j, x) ∷ d) h e =
    let (other, rest) = not_first k j x d e in
    all_if (λ n. nat_eq n.id k ≡ false) (p x) x (filter p (values d))
      (subst (λ (i : Uuid). nat_eq i k ≡ false) (sym h.0) other) (absent p k d h.2 rest)

pub none_ne_some {ℓ} : {A : Type ℓ} {a : A} → none ≢ some a
none_ne_some h = cc

later_found :
    {P : Type 0} (k j : Uuid) (x m : OutboxMessage P) (d : Dict Uuid (OutboxMessage P))
    → lookup j d ≡ none
    → lookup k d ≡ some m
    → lookup k ((j, x) ∷ d) ≡ some m
later_found k j x m d n h = elim (Bool-cases (k == j)) [
  | inl same ↦ absurd (
      none_ne_some
        (sym n ∙ subst (λ (i : Uuid). lookup i d ≡ some m) ((ℕ_eq.beq_iff k j).0 same) h))
  | inr other ↦ rw other h
]

-- The messages of an index that pass a test are found in any dict that extends it.
in_index :
    {P : Type 0} (p : OutboxMessage P → Bool) (store : InMemoryOutboxStore P)
    (d : Dict Uuid (OutboxMessage P))
    → IsIndex id_of d
    → ((k : Uuid) (m : OutboxMessage P) → lookup k d ≡ some m → lookup k store.messages ≡ some m)
    → Pending store (filter p (values d))
in_index p store [] h f = tt
in_index p store ((j, x) ∷ d) h f = in_store_if store (p x) x (filter p (values d)) (
  f x.id x (rw h.0 (ground arith)),
  subst (λ (i : Uuid). All (λ n. nat_eq n.id i ≡ false) (filter p (values d))) (sym h.0)
      (absent p j d h.2 h.1),
  in_index p store d h.2 (λ k m e. f k m (later_found k j x m d h.1 e)),
)

pub due-Pending :
    {P : Type 0} (store : InMemoryOutboxStore P) (now : Instant)
    → IsIndex id_of store.messages
    → Pending store (due store now)
unfolding due
due-Pending store now h = in_index (is_due now) store store.messages h (λ k m e. e)
