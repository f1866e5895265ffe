-- ===== src/Alerting/Outbox/Covers.antt =====
-- The loop over the channels of a message delivers them all when the adapters work.
use aistock.Common.{
  suc, ◌≡◌, ◌⊎◌, inl, inr, refl, true, List, [], ◌∷◌, arith, all, any, ◌==◌, ℕ_eq, text_eq, pair_eq,
  none, some, Bool-cases, All, sym, ◌∙◌, subst,
}
use aistock.Dict.{lookup, contains, lookup-insert, insert, values}
use aistock.Alerting.Outbox.{
  NotificationChannel, channel_eq, same_channel, ChannelState, ChannelStates, is_delivered,
  delivered, SendOutcome, sent, Delivery, OutboxMessage, Adapters, deliver, deliver_all,
  state_delivered,
}
use aistock.Alerting.Outbox.Accounts.{KeyedOnce, deliver-Keeps, has_all, has-found}
use aistock.Alerting.Outbox.Store.{some-injective, none_ne_some}

-- There is an adapter for each channel, and it sends every payload.
abbrev pub AreWorking : {P : Type 0} → Adapters P → Type 0
AreWorking {P = P} adapters =
    (c : NotificationChannel)
    → (send : P → SendOutcome) × (adapters c ≡ some send) × ((p : P) → send p ≡ sent)

-- A channel that is not delivered is among those that are to come.
abbrev Covers : List NotificationChannel → ChannelStates → Type 0
Covers cs states =
    (c : NotificationChannel) (s : ChannelState)
    → lookup c states ≡ some s
    → (state_delivered s ≡ true) ⊎ (any (λ d. c == d) cs ≡ true)

-- The states after a step at a channel: as before when it was delivered, and with a delivered state of
-- it otherwise.
delivers :
    {P : Type 0} (adapters : Adapters P) (m : OutboxMessage P) (s : Delivery)
    (c : NotificationChannel) (current : ChannelState)
    → AreWorking adapters
    → ((state_delivered current ≡ true) × ((deliver adapters m s c current).states ≡ s.states))
      ⊎ ((v : ChannelState) × (state_delivered v ≡ true)
          × ((deliver adapters m s c current).states ≡ insert c v s.states))
unfolding deliver
delivers adapters m s c current w = elim (Bool-cases (is_delivered current.status)) [
  | inl done ↦ inl (done, rw done refl)
  | inr undone ↦
      let (send, there, works) = w c in
      inr (
        record { status = delivered; attempts = suc current.attempts; last_error = none },
        refl,
        rw undone (rw there (rw (works m.payload) refl)),
      )
]

still_first :
    (c d : NotificationChannel) (cs : List NotificationChannel) (current x : ChannelState)
    (states : ChannelStates)
    → Covers (c ∷ cs) states
    → lookup c states ≡ some current
    → state_delivered current ≡ true
    → lookup d states ≡ some x
    → (state_delivered x ≡ true) ⊎ (any (λ e. d == e) cs ≡ true)
still_first c d cs current x states h found done there = elim (h d x there) [
  | inl settled ↦ inl settled
  | inr among ↦ elim (Bool-cases (d == c)) [
    | inl same ↦ inl (
        subst (λ (y : ChannelState). state_delivered y ≡ true)
          (some-injective (
            sym found
            ∙ subst (λ (e : NotificationChannel). lookup e states ≡ some x)
                ((same_channel d c).0 same) there))
          done)
    | inr other ↦ inr (ground arith)
  ]
]

inserted :
    (d c : NotificationChannel) (v : ChannelState) (states : ChannelStates)
    → (d == c) ≡ true
    → lookup d (insert c v states) ≡ some v
inserted d c v states same = lookup-insert d c v states ∙ rw same refl

still_inserted :
    (c d : NotificationChannel) (cs : List NotificationChannel) (v x : ChannelState)
    (states : ChannelStates)
    → Covers (c ∷ cs) states
    → state_delivered v ≡ true
    → lookup d (insert c v states) ≡ some x
    → (state_delivered x ≡ true) ⊎ (any (λ e. d == e) cs ≡ true)
still_inserted c d cs v x states h done there = elim (Bool-cases (d == c)) [
  | inl same ↦ inl (
      subst (λ (y : ChannelState). state_delivered y ≡ true)
        (some-injective (sym (inserted d c v states same) ∙ there)) done)
  | inr other ↦ elim (h d x (sym (lookup-insert d c v states ∙ rw other refl) ∙ there)) [
    | inl settled ↦ inl settled
    | inr among ↦ inr (ground arith)
  ]
]

deliver-Covers :
    {P : Type 0} (adapters : Adapters P) (m : OutboxMessage P) (s : Delivery)
    (c : NotificationChannel) (cs : List NotificationChannel) (current : ChannelState)
    → AreWorking adapters
    → lookup c s.states ≡ some current
    → Covers (c ∷ cs) s.states
    → Covers cs (deliver adapters m s c current).states
deliver-Covers adapters m s c cs current w found h = elim (delivers adapters m s c current w) [
  | inl (done, same) ↦
      subst (Covers cs) (sym same)
        (λ d x there. still_first c d cs current x s.states h found done there)
  | inr (v, done, same) ↦
      subst (Covers cs) (sym same) (λ d x there. still_inserted c d cs v x s.states h done there)
]

pub deliver_all-Covers :
    {P : Type 0} (adapters : Adapters P) (m : OutboxMessage P) (s : Delivery)
    (cs : List NotificationChannel)
    → AreWorking adapters
    → All (λ (c : NotificationChannel). contains c s.states ≡ true) cs
    → Covers cs s.states
    → Covers [] (deliver_all adapters m s cs).1.states
unfolding deliver_all
deliver_all-Covers adapters m s [] w h v = v
deliver_all-Covers adapters m s (c ∷ cs) w h v =
    let (current, found) = has-found c s.states h.0 in
    let one = deliver-Keeps adapters m s c current found in
    rw found (
      deliver_all-Covers adapters m (deliver adapters m s c current) cs w
        (has_all s.states (deliver adapters m s c current).states cs one.same_keys h.1)
        (deliver-Covers adapters m s c cs current w found v))

further :
    (d c : NotificationChannel) (x s : ChannelState) (states : ChannelStates)
    → lookup c states ≡ none
    → lookup d states ≡ some x
    → lookup d ((c, s) ∷ states) ≡ some x
further d c x s states n h = elim (Bool-cases (d == c)) [
  | inl same ↦ absurd (
      none_ne_some (
        sym n
        ∙ subst (λ (e : NotificationChannel). lookup e states ≡ some x) ((same_channel d c).0 same)
            h))
  | inr other ↦ rw other h
]

pub all_delivered :
    (states : ChannelStates)
    → KeyedOnce states
    → Covers [] states
    → all state_delivered (values states) ≡ true
all_delivered [] h v = refl
all_delivered ((c, s) ∷ states) h v = ground (
  arith,
  v c s (ground (arith, same_channel c c)),
  all_delivered states h.1 (λ d x there. v d x (further d c x s states h.0 there)),
)
