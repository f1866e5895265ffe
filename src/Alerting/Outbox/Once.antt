-- ===== src/Alerting/Outbox/Once.antt =====
-- The dispatcher sends each message at most once through each channel.
use aistock.Common.{
  ℕ, ◌≤◌, ◌≡◌, refl, true, List, [], ◌∷◌, arith, Text, any, is_empty, ◌==◌, ℕ_eq, text_eq, pair_eq,
  some, ok, value_error, raise_if, All, ok-injective, >>=-eq-ok, >>-eq-ok, sym, subst,
}
use aistock.Domain.Ids.{Uuid}
use aistock.Domain.Time.{Datetime, naive, aware, require_aware}
use aistock.Dict.{lookup, contains, lookup-insert}
use aistock.Dict.{index_from, index_from-IsIndex, index_from-All, All-lookup}
use aistock.Alerting.Outbox.{
  NotificationChannel, channel_eq, OutboxMessage, Adapters, InMemoryOutboxStore, due, dispatch_due,
  create, new_states, new_state, unique_channels,
}
use aistock.Alerting.Outbox.Accounts.{KeyedOnce, insert-KeyedOnce, successes, expected}
use aistock.Alerting.Outbox.Store.{id_of, HasStates, IsValid, dispatch_all-IsValid, due-Pending}

-- `InMemoryOutboxStore(messages)`
abbrev pub new_store : {P : Type 0} → List (OutboxMessage P) → InMemoryOutboxStore P
new_store ms = record { messages = index_from id_of [] ms; sends = [] }

-- The result of `create` on some arguments.
abbrev pub IsCreated : {P : Type 0} → OutboxMessage P → Type 0
IsCreated {P = P} m =
    (uuid5 : Text → Uuid) × (alert_id : Uuid) × (alert_key : Text) × (payload : P)
    × (channels : List NotificationChannel) × (created_at : Datetime) × (create uuid5 alert_id
          alert_key payload channels created_at
        ≡ ok m)

-- No channel is delivered, and each channel has a state.
abbrev IsNew : {P : Type 0} → OutboxMessage P → Type 0
IsNew m = HasStates m × ((c : NotificationChannel) → 0 ≡ expected (lookup c m.channel_states))

new_states-has :
    (cs : List NotificationChannel) (c : NotificationChannel)
    → any (λ d. c == d) cs ≡ true
    → contains c (new_states cs) ≡ true
unfolding new_states
new_states-has [] c h = absurd (ground arith)
new_states-has (d ∷ cs) c h =
    ground (arith, lookup-insert c d new_state (new_states cs), new_states-has cs c)

new_states-only :
    (cs : List NotificationChannel) (c : NotificationChannel)
    → contains c (new_states cs) ≡ true
    → any (λ d. c == d) cs ≡ true
unfolding new_states
new_states-only [] c h = absurd (ground arith)
new_states-only (d ∷ cs) c h =
    ground (arith, lookup-insert c d new_state (new_states cs), new_states-only cs c)

new_states-KeyedOnce : (cs : List NotificationChannel) → KeyedOnce (new_states cs)
unfolding new_states
new_states-KeyedOnce [] = tt
new_states-KeyedOnce (c ∷ cs) =
    insert-KeyedOnce c new_state (new_states cs) (new_states-KeyedOnce cs)

all_of {ℓ} :
    (Q : NotificationChannel → Type ℓ) (cs : List NotificationChannel)
    → ((c : NotificationChannel) → any (λ d. c == d) cs ≡ true → Q c)
    → All Q cs
all_of Q [] f = tt
all_of Q (c ∷ cs) f = (f c (ground arith), all_of Q cs (λ d h. f d (ground arith)))

new_states-open :
    (cs : List NotificationChannel) (c : NotificationChannel)
    → 0 ≡ expected (lookup c (new_states cs))
unfolding new_states
new_states-open [] c = refl
new_states-open (d ∷ cs) c =
    ground (arith, lookup-insert c d new_state (new_states cs), new_states-open cs c)

create-IsNew : {P : Type 0} (m : OutboxMessage P) → IsCreated m → IsNew m
unfolding create
create-IsNew m (uuid5, alert_id, alert_key, payload, channels, created_at, h) =
    let (t, _, h1) = >>=-eq-ok (require_aware created_at) _ h in
    let unique = unique_channels channels in
    let (_, last) =
      >>-eq-ok
        (raise_if (is_empty unique) (value_error "at least one notification channel is required")) _
        h1 in
    subst IsNew (ok-injective last) (
      (
        all_of (λ (c : NotificationChannel). contains c (new_states unique) ≡ true) unique
            (new_states-has unique),
        new_states-only unique,
        new_states-KeyedOnce unique,
      ),
      new_states-open unique,
    )

create-all : {P : Type 0} (ms : List (OutboxMessage P)) → All IsCreated ms → All IsNew ms
create-all [] h = tt
create-all (m ∷ ms) h = (create-IsNew m h.0, create-all ms h.1)

pub new_store-IsValid :
    {P : Type 0} (ms : List (OutboxMessage P)) → All IsCreated ms → IsValid (new_store ms)
new_store-IsValid ms h = record {
  index = index_from-IsIndex id_of [] ms tt;
  each = λ k m found.
      All-lookup IsNew k m (index_from id_of [] ms)
        (index_from-All id_of IsNew [] ms tt (create-all ms h)) found;
}

pub dispatch_due-IsValid :
    {P : Type 0} (adapters : Adapters P) (now : Datetime) (store : InMemoryOutboxStore P)
    → IsValid store
    → IsValid (dispatch_due adapters now store).1
unfolding dispatch_due
dispatch_due-IsValid adapters naive store v = v
dispatch_due-IsValid adapters (aware now) store v =
    (dispatch_all-IsValid adapters now 0 store (due store now) v (due-Pending store now v.index)).1

-- One call of `dispatch_due`, with what its adapters do and the time of its clock.
pub record Round (P : Type 0) : Type 0 where
  pub adapters : Adapters P
  pub now : Datetime

unfoldable pub dispatch_rounds :
    {P : Type 0} → InMemoryOutboxStore P → List (Round P) → InMemoryOutboxStore P
dispatch_rounds store [] = store
dispatch_rounds store (r ∷ rs) = dispatch_rounds (dispatch_due r.adapters r.now store).1 rs

pub dispatch_rounds-IsValid :
    {P : Type 0} (store : InMemoryOutboxStore P) (rounds : List (Round P))
    → IsValid store
    → IsValid (dispatch_rounds store rounds)
unfolding dispatch_rounds
dispatch_rounds-IsValid store [] v = v
dispatch_rounds-IsValid store (r ∷ rs) v =
    dispatch_rounds-IsValid (dispatch_due r.adapters r.now store).1 rs
      (dispatch_due-IsValid r.adapters r.now store v)

-- From a store of messages that `create` has made, whatever the adapters do in any number of
-- dispatches and whenever these run, a message is sent through a channel successfully once if the
-- state of the channel is delivered and never otherwise, so that it is sent at most once.
pub dispatch_rounds_once :
    {P : Type 0} (ms : List (OutboxMessage P)) (rounds : List (Round P)) (k : Uuid)
    (m : OutboxMessage P) (c : NotificationChannel)
    → All IsCreated ms
    → lookup k (dispatch_rounds (new_store ms) rounds).messages ≡ some m
    → (successes k c (dispatch_rounds (new_store ms) rounds).sends
        ≡ expected (lookup c m.channel_states))
      × (successes k c (dispatch_rounds (new_store ms) rounds).sends ≤ 1)
dispatch_rounds_once ms rounds k m c h found =
    let v = dispatch_rounds-IsValid (new_store ms) rounds (new_store-IsValid ms h) in
    let once = (v.each k m found).1 c in (once, subst (λ (n : ℕ). n ≤ 1) (sym once) (ground arith))
