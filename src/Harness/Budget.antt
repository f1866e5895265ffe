-- ===== src/Harness/Budget.antt =====
-- agents/harness/budget.py: the calls of the controller.
pub mod Limits
use aistock.Common.{
  ℕ, zero, suc, ◌+◌, ◌≤◌, ◌≡◌, refl, Bool, true, false, ◌&&◌, ◌||◌, not, List, [], ◌∷◌, ◌++◌, ltb,
  leb, length, if◌then◌else◌, Text, ◌==◌, text_eq, Option, none, some, Result, ok, raise,
  value_error, codes, Bool-cases, inl, inr, arith, Exception, raise_if, String,
}
use aistock.Domain.Time.{Datetime, naive, aware, require_aware, Instant}
use aistock.Dict.{get_or, insert}
use aistock.Int.{ℤ, pos, negsuc, pos_part, ltb_ℤ}
use aistock.Harness.Controller.{
  BudgetLimits, BudgetState, initial_state, Payload, tokens_used, tool_done, reflections_done,
  TraceEvent, Checkpoint, Controller, Action, continue, ◌>>=◌, ◌>>◌, skip, throw_if, with_state,
  set_state, with_event, with_checkpoints, saved, read_clock, now_aware, record_event,
  save_checkpoint, save, exhaust, exhaust_if, check_deadline, Snapshot,
}

-- `fingerprint == self.state.last_tool_fingerprint`
abbrev pub is_last : Text → Option Text → Bool
is_last fingerprint none = false
is_last fingerprint (some last) = fingerprint == last

abbrev pub add_llm_call : ℕ → BudgetState → BudgetState
add_llm_call tokens s = record {
  llm_calls = suc s.llm_calls;
  tool_calls = s.tool_calls;
  tokens = s.tokens + tokens;
  reflections = s.reflections;
  consecutive_no_progress = s.consecutive_no_progress;
  last_tool_fingerprint = s.last_tool_fingerprint;
}

abbrev pub add_tool_call : Text → Bool → BudgetState → BudgetState
add_tool_call fingerprint made_progress s = record {
  llm_calls = s.llm_calls;
  tool_calls = suc s.tool_calls;
  tokens = s.tokens;
  reflections = s.reflections;
  consecutive_no_progress = if made_progress then 0 else suc s.consecutive_no_progress;
  last_tool_fingerprint = some fingerprint;
}

abbrev pub add_reflection : BudgetState → BudgetState
add_reflection s = record {
  llm_calls = s.llm_calls;
  tool_calls = s.tool_calls;
  tokens = s.tokens;
  reflections = suc s.reflections;
  consecutive_no_progress = s.consecutive_no_progress;
  last_tool_fingerprint = s.last_tool_fingerprint;
}

pub data Call : Type 0 where
  llm_call : (tokens : ℤ) → Call
  tool_result : (fingerprint : Text) (made_progress : Bool) → Call
  reflection : Call

abbrev pub controller_at : Text → BudgetLimits → Datetime → Result Controller
controller_at run_id limits naive = raise (value_error "timestamp must be timezone-aware")
controller_at run_id limits (aware t) = ok (record {
  run_id = run_id;
  limits = limits;
  started_at = t;
  state = initial_state;
  reads = 1;
  events = [];
  checkpoints = [];
})

module _ (clock : ℕ → Datetime) (redact : Payload → Payload) where
  -- `ExecutionController(...)`, which reads the clock once.
  unfoldable pub new_controller : Text → BudgetLimits → Result Controller
  new_controller run_id limits = controller_at run_id limits (clock 0)

  abbrev pub finish_llm_call : ℕ → Action (Unit {0})
  finish_llm_call tokens c =
      (set_state (add_llm_call tokens c.state)
          >> save clock redact (codes "llm.completed") (tokens_used tokens))
        c

  unfoldable pub count_llm_call : ℕ → Action (Unit {0})
  count_llm_call tokens c =
      (exhaust_if clock redact (ltb c.limits.llm_calls (suc c.state.llm_calls)) "llm_calls"
          >> exhaust_if clock redact (ltb c.limits.tokens (c.state.tokens + tokens)) "tokens"
          >> finish_llm_call tokens)
        c

  unfoldable pub record_llm_call : ℤ → Action (Unit {0})
  record_llm_call tokens =
      check_deadline clock redact
      >> throw_if (ltb_ℤ tokens (pos 0)) (value_error "tokens cannot be negative")
      >> count_llm_call (pos_part tokens)

  abbrev pub finish_tool_result : Text → Bool → Bool → ℕ → Action (Unit {0})
  finish_tool_result fingerprint made_progress repeated no_progress =
      exhaust_if clock redact repeated "repeated_tool"
      >> exhaust_if clock redact (leb 2 no_progress) "no_progress"
      >> save clock redact (codes "tool.completed") (tool_done fingerprint made_progress)

  unfoldable pub count_tool_result : Text → Bool → Action (Unit {0})
  count_tool_result fingerprint made_progress c =
      let repeated = not made_progress && is_last fingerprint c.state.last_tool_fingerprint in
      let counted = add_tool_call fingerprint made_progress c.state in
      (exhaust_if clock redact (ltb c.limits.tool_calls (suc c.state.tool_calls)) "tool_calls"
          >> set_state counted
          >> finish_tool_result fingerprint made_progress repeated counted.consecutive_no_progress)
        c

  unfoldable pub record_tool_result : Text → Bool → Action (Unit {0})
  record_tool_result fingerprint made_progress =
      check_deadline clock redact >> count_tool_result fingerprint made_progress

  abbrev pub finish_reflection : Action (Unit {0})
  finish_reflection c =
      (set_state (add_reflection c.state)
          >> save clock redact (codes "reflection.completed")
              (reflections_done (suc c.state.reflections)))
        c

  unfoldable pub count_reflection : Action (Unit {0})
  count_reflection c =
      (exhaust_if clock redact (ltb c.limits.reflections (suc c.state.reflections)) "reflections"
          >> finish_reflection)
        c

  unfoldable pub record_reflection : Action (Unit {0})
  record_reflection = check_deadline clock redact >> count_reflection

  unfoldable pub call : Call → Action (Unit {0})
  call (llm_call tokens) = record_llm_call tokens
  call (tool_result fingerprint made_progress) = record_tool_result fingerprint made_progress
  call reflection = record_reflection

  -- The controller after calls of which any may have raised.
  unfoldable pub after_calls : List Call → Controller → Controller
  after_calls [] c = c
  after_calls (k ∷ ks) c = after_calls ks (call k c).1
