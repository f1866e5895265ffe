-- ===== src/Alerting/Outbox/Accounts.antt =====
-- The successful sends of a message and the states of its channels, in the loop over the channels.
use mathlib.Core.List.{append-nil}
use aistock.Common.{
  ℕ, suc, ◌+◌, ◌≡◌, inl, inr, refl, Bool, true, false, ◌&&◌, List, [], ◌∷◌, ◌++◌, arith, nat_eq,
  if◌then◌else◌, Text, ◌==◌, ℕ_eq, text_eq, pair_eq, Option, none, some, ok, Bool-cases,
  Option-cases, All, codes, ◌∙◌, subst,
}
use aistock.Domain.Ids.{Uuid}
use aistock.Dict.{lookup, contains, lookup-insert, insert}
use aistock.Alerting.Outbox.{
  NotificationChannel, channel_eq, same_channel, ChannelState, ChannelStates, is_delivered, retry,
  SendOutcome, sent, timed_out, failed, Sent, Delivery, OutboxMessage, Adapters, deliver,
  deliver_all, after_send, tried,
}

abbrev is_sent : SendOutcome → Bool
is_sent sent = true
is_sent _ = false

-- Whether a call of an adapter has sent a message through a channel.
abbrev pub counts : Uuid → NotificationChannel → Sent → Bool
counts id c s = nat_eq s.message_id id && (s.channel == c) && is_sent s.outcome

-- How often a message was sent through a channel.
abbrev pub successes : Uuid → NotificationChannel → List Sent → ℕ
successes id c [] = 0
successes id c (s ∷ ss) = (if counts id c s then 1 else 0) + successes id c ss

-- One for a channel that is delivered.
abbrev pub expected : Option ChannelState → ℕ
expected none = 0
expected (some s) = if is_delivered s.status then 1 else 0

-- Each channel was sent to as often as its state says.
abbrev pub Accounted : Uuid → ChannelStates → List Sent → Type 0
Accounted id states sends =
    (c : NotificationChannel) → successes id c sends ≡ expected (lookup c states)

-- No channel has two states.
abbrev pub KeyedOnce : ChannelStates → Type 0
KeyedOnce [] = Unit
KeyedOnce ((c, v) ∷ states) = (lookup c states ≡ none) × KeyedOnce states

pub insert-KeyedOnce :
    (c : NotificationChannel) (v : ChannelState) (states : ChannelStates)
    → KeyedOnce states
    → KeyedOnce (insert c v states)
insert-KeyedOnce c v [] h = (refl, tt)
insert-KeyedOnce c v ((d, w) ∷ states) h = elim (Bool-cases (c == d)) [
  | inl same ↦ rw same h
  | inr other ↦ rw other (
    ground (arith, lookup-insert d c v states, same_channel d c, same_channel c d),
    insert-KeyedOnce c v states h.1,
  )
]

-- What a step of the delivery of a message keeps.
pub record Keeps (id : Uuid) (s t : Delivery) : Type 0 where
  pub own : Accounted id s.states s.sends → Accounted id t.states t.sends
  pub other :
      (j : Uuid) (c : NotificationChannel)
      → nat_eq id j ≡ false
      → successes j c t.sends ≡ successes j c s.sends
  pub same_keys : (c : NotificationChannel) → contains c t.states ≡ contains c s.states
  pub once : KeyedOnce s.states → KeyedOnce t.states

Keeps-refl : (id : Uuid) (s : Delivery) → Keeps id s s
Keeps-refl id s = record {
  own = λ h. h;
  other = λ j c h. refl;
  same_keys = λ c. refl;
  once = λ h. h;
}

Keeps-trans : {id : Uuid} {s t u : Delivery} → Keeps id s t → Keeps id t u → Keeps id s u
Keeps-trans a b = record {
  own = λ h. b.own (a.own h);
  other = λ j c h. b.other j c h ∙ a.other j c h;
  same_keys = λ c. b.same_keys c ∙ a.same_keys c;
  once = λ h. b.once (a.once h);
}

successes-append :
    (id : Uuid) (c : NotificationChannel) (xs ys : List Sent)
    → successes id c (xs ++ ys) ≡ successes id c xs + successes id c ys
successes-append id c [] ys = omega arith
successes-append id c (x ∷ xs) ys = omega (arith, successes-append id c xs ys)

contains-insert :
    (d c : NotificationChannel) (v current : ChannelState) (states : ChannelStates)
    → lookup c states ≡ some current
    → contains d (insert c v states) ≡ contains d states
contains-insert d c v current states h =
    ground (arith, lookup-insert d c v states, same_channel d c)

-- The calls that one step adds.
abbrev Calls : Uuid → NotificationChannel → ChannelState → List Sent → Type 0
Calls id c v calls =
    (j : Uuid) (d : NotificationChannel)
    → successes j d calls ≡ (if nat_eq id j && (d == c) then expected (some v) else 0)

-- The state of a channel that was not delivered is replaced.
marked-Keeps :
    (id : Uuid) (s : Delivery) (c : NotificationChannel) (current v : ChannelState)
    (calls : List Sent) (errors : List Text)
    → lookup c s.states ≡ some current
    → is_delivered current.status ≡ false
    → Calls id c v calls
    → Keeps id s
        (record { states = insert c v s.states; errors = errors; sends = s.sends ++ calls })
marked-Keeps id s c current v calls errors found undone added = record {
  own = λ h d. ground (
    arith,
    successes-append id d s.sends calls,
    h d,
    added id d,
    lookup-insert d c v s.states,
    same_channel d c,
  );
  other = λ j d ne. ground (arith, successes-append j d s.sends calls, added j d);
  same_keys = λ d. contains-insert d c v current s.states found;
  once = insert-KeyedOnce c v s.states;
}

after_send-Keeps :
    (id : Uuid) (s : Delivery) (c : NotificationChannel) (current : ChannelState) (o : SendOutcome)
    → lookup c s.states ≡ some current
    → is_delivered current.status ≡ false
    → Keeps id s
        (after_send s c current (λ o. record { message_id = id; channel = c; outcome = o }) o)
after_send-Keeps id s c current sent found undone =
    marked-Keeps id s c current _ _ _ found undone
      (λ j d. ground (arith, same_channel d c, same_channel c d))
after_send-Keeps id s c current timed_out found undone =
    marked-Keeps id s c current _ _ _ found undone (λ j d. ground arith)
after_send-Keeps id s c current failed found undone =
    marked-Keeps id s c current _ _ _ found undone (λ j d. ground arith)

tried-Keeps :
    {P : Type 0} (id : Uuid) (s : Delivery) (c : NotificationChannel) (current : ChannelState)
    (payload : P) (adapter : Option (P → SendOutcome))
    → lookup c s.states ≡ some current
    → is_delivered current.status ≡ false
    → Keeps id s (
        tried s c current
          (λ o. record { message_id = id; channel = c; outcome = o })
          payload
          adapter)
tried-Keeps id s c current payload none found undone =
    subst
      (λ (x : List Sent). Keeps id s (record {
        states =
            insert c
              (record {
                status = retry;
                attempts = suc current.attempts;
                last_error = some (codes "ADAPTER_UNAVAILABLE");
              })
              s.states;
        errors = s.errors ++ codes "ADAPTER_UNAVAILABLE" ∷ [];
        sends = x;
      }))
      (append-nil s.sends) (marked-Keeps id s c current _ [] _ found undone (λ j d. ground arith))
tried-Keeps id s c current payload (some send) found undone =
    after_send-Keeps id s c current (send payload) found undone

pub deliver-Keeps :
    {P : Type 0} (adapters : Adapters P) (m : OutboxMessage P) (s : Delivery)
    (c : NotificationChannel) (current : ChannelState)
    → lookup c s.states ≡ some current
    → Keeps m.id s (deliver adapters m s c current)
unfolding deliver
deliver-Keeps adapters m s c current found = elim (Bool-cases (is_delivered current.status)) [
  | inl done ↦ rw done (Keeps-refl m.id s)
  | inr undone ↦ rw undone (tried-Keeps m.id s c current m.payload (adapters c) found undone)
]

pub has-found :
    (c : NotificationChannel) (states : ChannelStates)
    → contains c states ≡ true
    → (current : ChannelState) × (lookup c states ≡ some current)
has-found c states h = elim (Option-cases (lookup c states)) [
  | inl e ↦ absurd (ground arith)
  | inr found ↦ found
]

pub has_all :
    (s t : ChannelStates) (cs : List NotificationChannel)
    → ((c : NotificationChannel) → contains c t ≡ contains c s)
    → All (λ (c : NotificationChannel). contains c s ≡ true) cs
    → All (λ (c : NotificationChannel). contains c t ≡ true) cs
has_all s t [] f h = tt
has_all s t (c ∷ cs) f h = (f c ∙ h.0, has_all s t cs f h.1)

-- The loop over channels that all have a state returns, and keeps the accounts.
pub deliver_all-Keeps :
    {P : Type 0} (adapters : Adapters P) (m : OutboxMessage P) (s : Delivery)
    (cs : List NotificationChannel)
    → All (λ (c : NotificationChannel). contains c s.states ≡ true) cs
    → ((deliver_all adapters m s cs).0 ≡ ok tt) × Keeps m.id s (deliver_all adapters m s cs).1
unfolding deliver_all
deliver_all-Keeps adapters m s [] h = (refl, Keeps-refl m.id s)
deliver_all-Keeps adapters m s (c ∷ cs) h =
    let (current, found) = has-found c s.states h.0 in
    let one = deliver-Keeps adapters m s c current found in
    let (returned, more) =
      deliver_all-Keeps adapters m (deliver adapters m s c current) cs
        (has_all s.states (deliver adapters m s c current).states cs one.same_keys h.1) in
    rw found (returned, Keeps-trans one more)
