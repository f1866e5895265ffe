-- ===== src/Alerting/Outbox.antt =====
-- application/alerting/outbox.py: messages, the store in memory, and the dispatcher. The adapters are
-- an argument of each dispatch, and so is the clock's time; what is sent is kept as a trace beside
-- the store. The payload is of any type, and `uuid5` of the alert's key is an argument.
pub mod Accounts
pub mod Store
pub mod Once
pub mod Covers
pub mod Live
use aistock.Common.{
  ℕ, zero, suc, ◌+◌, ◌-◌, ◌≤◌, ◌<◌, ◌≡◌, ◌≢◌, ◌↔◌, ◌⊎◌, inl, inr, refl, Bool, true, false, ◌&&◌,
  ◌||◌, not, List, [], ◌∷◌, ◌++◌, map, arith, leb, ltb, nat_eq, if◌then◌else◌, Text, length, all,
  any, filter, is_empty, Eq, ◌==◌, ℕ_eq, text_eq, text_beq_iff, pair_eq, Option, none, some, Result,
  Exception, ok, raise, value_error, type_error, key_error, permission_error, version_conflict,
  no_result_found, multiple_results_found, integrity_error, ◌>>=◌, ◌>>◌, raise_if, Bool-cases,
  Option-cases, sort_by, All, sort_by-All, String, codes, All-append, any-append, ok-injective, ap₂,
  >>=-eq-ok, >>-eq-ok, raise_if-eq-ok, Result-cases, ap, sym, ◌∙◌, subst,
}
use aistock.Decimal.{
  Decimal, Number, finite, not_finite, not_decimal, whole, add, sub, mul, div, neg, abs, le, lt, eq,
  min_of, max_of, sum_from, decimal_arg,
}
use aistock.Domain.Ids.{Uuid, symbol, iso_currency, strip, lower, is_blank}
use aistock.Domain.Time.{Datetime, naive, aware, Instant, require_aware}
use aistock.Dict.{
  Dict, lookup, contains, get_or, get_or-insert, All-insert_entry, All-insert, All-get_or,
  lookup-insert, insert, values, unique_by, unique_by-All, unique_by_idem, any-unique_by,
}

pub data NotificationChannel : Type 0 where
  telegram feishu email : NotificationChannel

abbrev channel_code : NotificationChannel → ℕ
channel_code telegram = 0
channel_code feishu = 1
channel_code email = 2

pub same_channel :
    (c d : NotificationChannel) → nat_eq (channel_code c) (channel_code d) ≡ true ↔ c ≡ d
same_channel telegram telegram = (λ h. refl, λ h. refl)
same_channel telegram feishu = (λ h. absurd (ground arith), λ h. absurd (ground arith))
same_channel telegram email = (λ h. absurd (ground arith), λ h. absurd (ground arith))
same_channel feishu telegram = (λ h. absurd (ground arith), λ h. absurd (ground arith))
same_channel feishu feishu = (λ h. refl, λ h. refl)
same_channel feishu email = (λ h. absurd (ground arith), λ h. absurd (ground arith))
same_channel email telegram = (λ h. absurd (ground arith), λ h. absurd (ground arith))
same_channel email feishu = (λ h. absurd (ground arith), λ h. absurd (ground arith))
same_channel email email = (λ h. refl, λ h. refl)

instance abbrev pub channel_eq : Eq NotificationChannel
channel_eq = record {
  beq_iff = same_channel;
  beq = λ c d. nat_eq (channel_code c) (channel_code d);
}

pub data DeliveryStatus : Type 0 where
  pending retry delivered : DeliveryStatus

abbrev pub is_delivered : DeliveryStatus → Bool
is_delivered delivered = true
is_delivered _ = false

pub record ChannelState : Type 0 where
  pub status : DeliveryStatus
  pub attempts : ℕ
  pub last_error : Option Text

abbrev pub ChannelStates : Type 0
ChannelStates = Dict NotificationChannel ChannelState

-- What happens to a call of `adapter.send`.
pub data SendOutcome : Type 0 where
  sent timed_out failed : SendOutcome

-- One call of an adapter.
pub record Sent : Type 0 where
  pub message_id : Uuid
  pub channel : NotificationChannel
  pub outcome : SendOutcome

-- The states of the channels, the errors and the calls, while a message is dispatched.
pub record Delivery : Type 0 where
  pub states : ChannelStates
  pub errors : List Text
  pub sends : List Sent

pub record OutboxMessage (P : Type 0) : Type 0 where
  pub id : Uuid
  pub alert_id : Uuid
  pub alert_key : Text
  pub payload : P
  pub channels : List NotificationChannel
  pub channel_states : ChannelStates
  pub status : DeliveryStatus
  pub attempts : ℕ
  pub next_attempt_at : Instant
  pub last_error : Option Text
  pub delivered_at : Option Instant
  pub created_at : Instant

-- The adapters that a dispatcher has.
abbrev pub Adapters : Type 0 → Type 0
Adapters P = NotificationChannel → Option (P → SendOutcome)

-- `ChannelState()`
abbrev pub new_state : ChannelState
new_state = record { status = pending; attempts = 0; last_error = none }

-- `tuple(dict.fromkeys(channels))`
unfoldable pub unique_channels : List NotificationChannel → List NotificationChannel
unique_channels = unique_by (λ (c : NotificationChannel). c)

-- `{channel: ChannelState() for channel in channels}`
unfoldable pub new_states : List NotificationChannel → ChannelStates
new_states [] = []
new_states (c ∷ cs) = insert c new_state (new_states cs)

-- `OutboxMessage.create`
unfoldable pub create :
    {P : Type 0}
    → (uuid5 : Text → Uuid) → (alert_id : Uuid) → (alert_key : Text) → P
    → List NotificationChannel
    → (created_at : Datetime) → Result (OutboxMessage P)
create uuid5 alert_id alert_key payload channels created_at = do
  created ← require_aware created_at
  let unique = unique_channels channels
  raise_if (is_empty unique) (value_error "at least one notification channel is required")
  ok (record {
    id = uuid5 alert_key;
    alert_id = alert_id;
    alert_key = alert_key;
    payload = payload;
    channels = unique;
    channel_states = new_states unique;
    status = pending;
    attempts = 0;
    next_attempt_at = created;
    last_error = none;
    delivered_at = none;
    created_at = created;
  })

-- `states[channel] = ChannelState(RETRY, current.attempts + 1, error_code)` and the error.
abbrev retried : Delivery → NotificationChannel → ChannelState → Text → List Sent → Delivery
retried s c current code sends = record {
  states =
      insert c (record { status = retry; attempts = suc current.attempts; last_error = some code })
        s.states;
  errors = s.errors ++ code ∷ [];
  sends = sends;
}

-- The `try` around `adapter.send`.
abbrev after_send :
    Delivery → NotificationChannel → ChannelState → (SendOutcome → Sent) → SendOutcome → Delivery
after_send s c current call sent = record {
  states =
      insert c (record { status = delivered; attempts = suc current.attempts; last_error = none })
        s.states;
  errors = s.errors;
  sends = s.sends ++ call sent ∷ [];
}
after_send s c current call timed_out =
    retried s c current (codes "TIMEOUT") (s.sends ++ call timed_out ∷ [])
after_send s c current call failed =
    retried s c current (codes "DELIVERY_ERROR") (s.sends ++ call failed ∷ [])

abbrev tried :
    {P : Type 0}
    → Delivery
    → NotificationChannel
    → ChannelState
    → (SendOutcome → Sent)
    → P
    → Option (P → SendOutcome)
    → Delivery
tried s c current call payload none = retried s c current (codes "ADAPTER_UNAVAILABLE") s.sends
tried s c current call payload (some send) = after_send s c current call (send payload)

-- The body of the loop over the channels, whose `continue` leaves a delivered channel alone.
unfoldable pub deliver :
    {P : Type 0}
    → Adapters P
    → OutboxMessage P
    → Delivery
    → NotificationChannel
    → ChannelState
    → Delivery
deliver adapters m s c current =
    if is_delivered current.status
    then s
    else tried s c current (λ o. record { message_id = m.id; channel = c; outcome = o }) m.payload
        (adapters c)

-- `states[channel]`, which raises on a channel without a state.
abbrev pub with_state :
    Delivery
    → Option ChannelState
    → (ChannelState → Result (Unit {0}) × Delivery)
    → Result (Unit {0}) × Delivery
with_state s none rest = (raise (key_error "no such key"), s)
with_state s (some current) rest = rest current

-- The loop over the channels.
unfoldable pub deliver_all :
    {P : Type 0}
    → Adapters P
    → OutboxMessage P
    → Delivery
    → List NotificationChannel
    → Result (Unit {0}) × Delivery
deliver_all adapters m s [] = (ok tt, s)
deliver_all adapters m s (c ∷ cs) =
    with_state s (lookup c s.states)
      (λ current. deliver_all adapters m (deliver adapters m s c current) cs)

abbrev pub state_delivered : ChannelState → Bool
state_delivered s = is_delivered s.status

abbrev first_error : List Text → Option Text
first_error [] = none
first_error (e ∷ es) = some e

-- `replace(message, ...)` after the loop over the channels.
unfoldable pub updated : {P : Type 0} → Instant → OutboxMessage P → Delivery → OutboxMessage P
updated now m s =
    let complete = all state_delivered (values s.states) in
    record m {
      channel_states = s.states;
      status = if complete then delivered else retry;
      attempts = suc m.attempts;
      next_attempt_at = now;
      last_error = first_error s.errors;
      delivered_at = if complete then some now else none;
    }

-- The store in memory, with the calls of adapters so far.
pub record InMemoryOutboxStore (P : Type 0) : Type 0 where
  pub messages : Dict Uuid (OutboxMessage P)
  pub sends : List Sent

abbrev pub is_due : {P : Type 0} → Instant → OutboxMessage P → Bool
is_due now m = not (is_delivered m.status) && leb m.next_attempt_at now

-- `due`
unfoldable pub due : {P : Type 0} → InMemoryOutboxStore P → Instant → List (OutboxMessage P)
due store now = filter (is_due now) (values store.messages)

-- `save_delivery`; `commit` and `rollback` of the store in memory do nothing.
unfoldable pub save_delivery :
    {P : Type 0} → InMemoryOutboxStore P → OutboxMessage P → List Sent → InMemoryOutboxStore P
save_delivery store m sends = record { messages = insert m.id m store.messages; sends = sends }

-- The states that the loop over the channels starts from.
abbrev pub started : {P : Type 0} → OutboxMessage P → List Sent → Delivery
started m sends = record { states = m.channel_states; errors = []; sends = sends }

-- What follows the loop over the channels, unless that raised.
abbrev pub after_channels :
    {P : Type 0}
    → InMemoryOutboxStore P
    → (Delivery → Result ℕ × InMemoryOutboxStore P)
    → Result (Unit {0}) × Delivery
    → Result ℕ × InMemoryOutboxStore P
after_channels store rest (raise e, s) =
    (raise e, record { messages = store.messages; sends = s.sends })
after_channels store rest (ok _, s) = rest s

-- `delivered += int(complete)`
abbrev pub counted : {P : Type 0} → ℕ → OutboxMessage P → ℕ
counted count m = if is_delivered m.status then suc count else count

-- The loop over the due messages, with the number that was delivered.
unfoldable pub dispatch_all :
    {P : Type 0}
    → Adapters P
    → Instant
    → (count : ℕ) → InMemoryOutboxStore P
    → List (OutboxMessage P)
    → Result ℕ × InMemoryOutboxStore P
dispatch_all adapters now count store [] = (ok count, store)
dispatch_all adapters now count store (m ∷ ms) =
    after_channels store
      (λ s.
        dispatch_all adapters now (counted count (updated now m s))
          (save_delivery store (updated now m s) s.sends) ms)
      (deliver_all adapters m (started m store.sends) m.channels)

-- `dispatch_due`
unfoldable pub dispatch_due :
    {P : Type 0}
    → Adapters P
    → (now : Datetime) → InMemoryOutboxStore P
    → Result ℕ × InMemoryOutboxStore P
dispatch_due adapters naive store = (raise (value_error "timestamp must be timezone-aware"), store)
dispatch_due adapters (aware now) store = dispatch_all adapters now 0 store (due store now)
