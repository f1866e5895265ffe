-- ===== src/Harness/Controller.antt =====
-- agents/harness/budget.py, trace.py and checkpoint.py: a controller that counts calls against its
-- limits, and writes trace events and checkpoints. A call that raises keeps what it changed before.
-- The clock is a parameter: its value at each read, where the reads by the controller and those by
-- its recorder, which may have a clock of its own, are numbered in one sequence. The recorder is one
-- that was made for the controller's run id. The redaction of payloads is a parameter, which this code
-- only passes on. The metrics sink is not modelled.
use aistock.Common.{
  ℕ, zero, suc, ◌+◌, ◌/◌, ◌%◌, Bool, true, false, ◌||◌, List, [], ◌∷◌, ◌++◌, ltb, if◌then◌else◌,
  Text, length, text_eq, Option, none, some, Result, ok, raise, value_error, budget_exceeded,
  Exception, String, codes, raise_if,
}
use aistock.Domain.Time.{Datetime, naive, aware, Instant}
use aistock.Dict.{Dict, get_or, insert}
use aistock.Int.{ℤ, pos, pos_part, ltb_ℤ, leb_ℤ}

pub record BudgetLimits : Type 0 where
  pub llm_calls : ℕ
  pub tool_calls : ℕ
  pub tokens : ℕ
  pub reflections : ℕ
  pub wall_time : ℕ

-- The constructor with its `__post_init__`; the wall time is in microseconds.
unfoldable pub budget_limits :
    (llm_calls tool_calls tokens reflections wall_time : ℤ) → Result BudgetLimits
budget_limits llm_calls tool_calls tokens reflections wall_time =
    if ltb_ℤ llm_calls (pos 0)
      || (ltb_ℤ tool_calls (pos 0) || (ltb_ℤ tokens (pos 0) || ltb_ℤ reflections (pos 0)))
    then raise (value_error "budget limits cannot be negative")
    else if leb_ℤ wall_time (pos 0)
    then raise (value_error "wall_time must be positive")
    else ok (record {
      llm_calls = pos_part llm_calls;
      tool_calls = pos_part tool_calls;
      tokens = pos_part tokens;
      reflections = pos_part reflections;
      wall_time = pos_part wall_time;
    })

pub record BudgetState : Type 0 where
  pub llm_calls : ℕ
  pub tool_calls : ℕ
  pub tokens : ℕ
  pub reflections : ℕ
  pub consecutive_no_progress : ℕ
  pub last_tool_fingerprint : Option Text

abbrev pub initial_state : BudgetState
initial_state = record {
  llm_calls = 0;
  tool_calls = 0;
  tokens = 0;
  reflections = 0;
  consecutive_no_progress = 0;
  last_tool_fingerprint = none;
}

-- The payloads that the controller records.
pub data Payload : Type 0 where
  tokens_used : ℕ → Payload
  tool_done : (fingerprint : Text) (made_progress : Bool) → Payload
  reflections_done : ℕ → Payload
  exhausted : (reason : Text) → Payload

pub record TraceEvent : Type 0 where
  pub event_id : Text
  pub run_id : Text
  pub sequence : ℕ
  pub event_time : Instant
  pub event_type : Text
  pub payload : Payload

-- `_snapshot`
pub record Snapshot : Type 0 where
  pub status : Text
  pub reason : Option Text
  pub counts : BudgetState

pub record Checkpoint : Type 0 where
  pub run_id : Text
  pub sequence : ℕ
  pub saved_at : Instant
  pub snapshot : Snapshot

-- The controller with the recorder and the store that it writes to; `reads` counts the clock's.
pub record Controller : Type 0 where
  pub run_id : Text
  pub limits : BudgetLimits
  pub started_at : Instant
  pub state : BudgetState
  pub reads : ℕ
  pub events : List TraceEvent
  pub checkpoints : Dict Text (List Checkpoint)

abbrev pub Action {ℓ} : Type ℓ → Type ℓ
Action A = Controller → Result A × Controller

abbrev pub continue {ℓ κ} :
    {A : Type ℓ} {B : Type κ} → Result A × Controller → (A → Action B) → Result B × Controller
continue (ok a, c) f = f a c
continue (raise e, c) f = (raise e, c)

infixl 5 ◌>>=◌
infixr 4 ◌>>◌
abbrev pub ◌>>=◌ {ℓ κ} : {A : Type ℓ} {B : Type κ} → Action A → (A → Action B) → Action B
(m >>= f) c = continue (m c) f

abbrev pub ◌>>◌ {ℓ} : {B : Type ℓ} → Action (Unit {0}) → Action B → Action B
m >> k = m >>= λ _. k

abbrev pub skip : Action (Unit {0})
skip c = (ok tt, c)

abbrev pub throw_if : Bool → Exception → Action (Unit {0})
throw_if b e c = (raise_if b e, c)

-- The decimal text of a number; its value bounds the number of its digits.
abbrev digits : ℕ → ℕ → Text → Text
digits zero n out = out
digits (suc k) n out =
    if ltb n 10 then (b'0' + n) ∷ out else digits k (n / 10) ((b'0' + n % 10) ∷ out)

unfoldable pub decimal_text : ℕ → Text
decimal_text n = digits (suc n) n []

abbrev pub with_state : BudgetState → Controller → Controller
with_state s c = record {
  run_id = c.run_id;
  limits = c.limits;
  started_at = c.started_at;
  state = s;
  reads = c.reads;
  events = c.events;
  checkpoints = c.checkpoints;
}

abbrev pub set_state : BudgetState → Action (Unit {0})
set_state s c = (ok tt, with_state s c)

abbrev pub with_event : TraceEvent → Controller → Controller
with_event e c = record {
  run_id = c.run_id;
  limits = c.limits;
  started_at = c.started_at;
  state = c.state;
  reads = c.reads;
  events = c.events ++ e ∷ [];
  checkpoints = c.checkpoints;
}

abbrev pub with_checkpoints : List Checkpoint → Controller → Controller
with_checkpoints records c = record {
  run_id = c.run_id;
  limits = c.limits;
  started_at = c.started_at;
  state = c.state;
  reads = c.reads;
  events = c.events;
  checkpoints = insert c.run_id records c.checkpoints;
}

abbrev pub saved : Controller → List Checkpoint
saved c = get_or c.run_id [] c.checkpoints

module _ (clock : ℕ → Datetime) (redact : Payload → Payload) where
  -- `self._clock()`
  unfoldable pub read_clock : Action Datetime
  read_clock c = (
    ok (clock c.reads),
    record {
      run_id = c.run_id;
      limits = c.limits;
      started_at = c.started_at;
      state = c.state;
      reads = suc c.reads;
      events = c.events;
      checkpoints = c.checkpoints;
    },
  )

  abbrev pub now_aware : Datetime → Action Instant
  now_aware naive c = (raise (value_error "timestamp must be timezone-aware"), c)
  now_aware (aware t) c = (ok t, c)

  abbrev pub add_event : Text → Payload → Instant → Action (Unit {0})
  add_event event_type payload t c =
      let sequence = suc (length c.events) in
      (
        ok tt,
        with_event
            (record {
              event_id = c.run_id ++ (b':' ∷ decimal_text sequence);
              run_id = c.run_id;
              sequence = sequence;
              event_time = t;
              event_type = event_type;
              payload = redact payload;
            })
            c,
      )

  -- `TraceRecorder.record`
  unfoldable pub record_event : Text → Payload → Action (Unit {0})
  record_event event_type payload = read_clock >>= now_aware >>= add_event event_type payload

  -- `InMemoryCheckpointStore.save`, which makes the list of the run before it reads the time.
  unfoldable pub save_checkpoint : Snapshot → Datetime → Action (Unit {0})
  save_checkpoint snapshot naive c =
      (raise (value_error "timestamp must be timezone-aware"), with_checkpoints (saved c) c)
  save_checkpoint snapshot (aware t) c = (
    ok tt,
    with_checkpoints
        (saved c
          ++ record {
            run_id = c.run_id;
            sequence = suc (length (saved c));
            saved_at = t;
            snapshot = snapshot;
          }
            ∷ [])
        c,
  )

  abbrev pub snapshot_of : Text → Option Text → Controller → Snapshot
  snapshot_of status reason c = record { status = status; reason = reason; counts = c.state }

  -- `self._checkpoints.save(self._run_id, self._snapshot(...), saved_at=self._clock())`
  unfoldable pub checkpoint : Text → Option Text → Action (Unit {0})
  checkpoint status reason c = (read_clock >>= save_checkpoint (snapshot_of status reason c)) c

  -- `_save`
  unfoldable pub save : Text → Payload → Action (Unit {0})
  save event_type payload = record_event event_type payload >> checkpoint (codes "RUNNING") none

  -- `_exhaust`, which always raises.
  unfoldable pub exhaust : String → Action (Unit {0})
  exhaust reason =
      record_event (codes "run.budget_exhausted") (exhausted (codes reason))
      >> checkpoint (codes "BUDGET_EXHAUSTED") (some (codes reason))
      >> throw_if true (budget_exceeded reason)

  abbrev pub exhaust_if : Bool → String → Action (Unit {0})
  exhaust_if true reason = exhaust reason
  exhaust_if false reason = skip

  unfoldable pub check_deadline : Action (Unit {0})
  check_deadline = read_clock >>= now_aware >>= λ t c.
      exhaust_if (ltb (c.started_at + c.limits.wall_time) t) "wall_time" c
