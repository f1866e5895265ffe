-- ===== src/Alerting/Tests.antt =====
-- A message whose second channel fails at first.
use aistock.Common.{
  ℕ, ◌+◌, ◌*◌, ◌/◌, ◌≤◌, ◌<◌, ◌≡◌, refl, false, List, [], ◌∷◌, arith, Text, length, ℕ_eq, text_eq,
  pair_eq, none, some, ok, codes,
}
use aistock.Decimal.{Decimal, whole}
use aistock.Domain.Ids.{symbol, matches_symbol, is_symbol_char}
use aistock.Domain.Time.{aware}
use aistock.Dict.{lookup}
use aistock.Alerting.Features.{
  MinuteBar, AnomalyFeatures, features_of, calculate, calculate_sorted, available,
}
use aistock.Alerting.Rules.{
  AlertRule, evaluate_rule, no_severity, AlertIdentity, for_trigger, identity_in,
}
use aistock.Alerting.Rules.Bounds.{evaluate_rule-calculate, for_trigger_bucket}
use aistock.Alerting.Outbox.{
  channel_eq, telegram, email, feishu, sent, timed_out, OutboxMessage, Adapters, create, new_states,
  unique_channels, new_state, pending, retry, delivered, dispatch_due, dispatch_all, deliver_all,
  deliver, due, updated, save_delivery,
}
use aistock.Alerting.Outbox.Accounts.{successes, expected}
use aistock.Alerting.Outbox.Once.{
  Round, new_store, dispatch_rounds, IsCreated, dispatch_rounds_once,
}
use aistock.Alerting.Outbox.Live.{DeliveredIn, dispatch_rounds_live}

abbrev message : OutboxMessage ℕ
message = record {
  id = 3;
  alert_id = 1;
  alert_key = codes "abc";
  payload = 9;
  channels = telegram ∷ email ∷ [];
  channel_states = (email, new_state) ∷ (telegram, new_state) ∷ [];
  status = pending;
  attempts = 0;
  next_attempt_at = 10;
  last_error = none;
  delivered_at = none;
  created_at = 10;
}

created : IsCreated message
unfolding create unique_channels new_states
created = (length, 1, codes "abc", 9, telegram ∷ email ∷ telegram ∷ [], aware 10, refl)

-- Telegram works, and email times out.
abbrev flaky : Adapters ℕ
flaky telegram = some (λ p. sent)
flaky email = some (λ p. timed_out)
flaky feishu = none

abbrev working : Adapters ℕ
working c = some (λ p. sent)

abbrev rounds : List (Round ℕ)
rounds =
    record { adapters = flaky; now = aware 20 } ∷ record { adapters = flaky; now = aware 30 } ∷ []

abbrev afterwards : OutboxMessage ℕ
afterwards = record message {
  channel_states =
      (email, record { status = retry; attempts = 2; last_error = some (codes "TIMEOUT") })
      ∷ (telegram, record { status = delivered; attempts = 1; last_error = none })
      ∷ [];
  status = retry;
  attempts = 2;
  next_attempt_at = 30;
  last_error = some (codes "TIMEOUT");
}

after_rounds :
    lookup 3 (dispatch_rounds (new_store (message ∷ [])) rounds).messages ≡ some afterwards
unfolding dispatch_rounds dispatch_due dispatch_all deliver_all deliver due updated save_delivery
after_rounds = refl

dispatch_rounds_once_example :
    (successes 3 telegram (dispatch_rounds (new_store (message ∷ [])) rounds).sends
      ≡ expected (lookup telegram afterwards.channel_states))
    × (successes 3 telegram (dispatch_rounds (new_store (message ∷ [])) rounds).sends ≤ 1)
dispatch_rounds_once_example =
    dispatch_rounds_once (message ∷ []) rounds 3 afterwards telegram (created, tt) after_rounds

dispatch_rounds_live_example :
    ((dispatch_due working (aware 40) (dispatch_rounds (new_store (message ∷ [])) rounds)).0
      ≡ ok (length (due (dispatch_rounds (new_store (message ∷ [])) rounds) 40)))
    × DeliveredIn
        (dispatch_due working (aware 40) (dispatch_rounds (new_store (message ∷ [])) rounds)).1
        3
dispatch_rounds_live_example =
    dispatch_rounds_live (message ∷ []) rounds working 40 3 afterwards (created, tt)
      (λ c. ((λ p. sent), refl, λ p. refl)) after_rounds (ground arith)

abbrev bar : MinuteBar
bar = record {
  symbol = codes "AAPL";
  event_time = 90;
  available_at = 95;
  ingested_at = 96;
  open_price = whole 10;
  high = whole 12;
  low = whole 9;
  close = whole 11;
  volume = whole 100;
  previous_close = none;
  provider = codes "iex";
  content_hash = codes "h";
  raw_object_key = codes "k";
  conflict = false;
}

abbrev rule : AlertRule
rule = record {
  rule_id = codes "market-anomaly-v1";
  version = codes "alert-policy-v1";
  thresholds = record {
    five_minute_return = whole 1;
    relative_volume = whole 3;
    return_zscore = whole 2;
    volume_zscore = whole 2;
    volatility_zscore = whole 2;
    gap = whole 1;
  };
  minimum_conditions = 3;
}

abbrev unchanged : Decimal → Decimal
unchanged d = d

abbrev alone : AnomalyFeatures
alone = features_of unchanged unchanged 5 100 none bar []

calculated : calculate unchanged unchanged 5 (bar ∷ []) (aware 100) none ≡ ok alone
unfolding calculate calculate_sorted
calculated = refl

evaluate_rule-calculate_example :
    ((evaluate_rule rule alone).triggered ≡ false)
    × ((evaluate_rule rule alone).severity ≡ no_severity)
    × (length (evaluate_rule rule alone).conditions ≤ available alone)
evaluate_rule-calculate_example =
    evaluate_rule-calculate unchanged unchanged 5 bar (aware 100) none alone rule (ground arith)
      (ground arith) calculated

abbrev isoformat : ℕ → Text
isoformat t = codes "T"

abbrev identity : AlertIdentity
identity = record { id = 12; key = codes "AAPL:rule:T"; bucket_start = 120000000 }

-- A trigger 130 seconds after the epoch, with a cooldown of a minute.
triggered_at :
    for_trigger (λ t. 12) isoformat (codes "aapl") (codes "rule") (aware 130000000) 60000000
    ≡ ok identity
unfolding for_trigger identity_in symbol matches_symbol is_symbol_char
triggered_at = refl

for_trigger_bucket_example :
    (120000000 ≤ 130000000)
    × (130000000 < 120000000 + 60000000 / 1000000 * 1000000)
    × (for_trigger (λ t. 12) isoformat (codes "aapl") (codes "rule") (aware 179000000) 60000000
        ≡ ok identity)
for_trigger_bucket_example =
    for_trigger_bucket (λ t. 12) isoformat (codes "aapl") (codes "rule") 130000000 179000000
      60000000 identity triggered_at (ground arith) (ground arith)
