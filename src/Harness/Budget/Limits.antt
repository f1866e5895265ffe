-- ===== src/Harness/Budget/Limits.antt =====
-- What holds of the controller after any calls, also those that raise.
use aistock.Common.{
  ℕ, suc, ◌+◌, ◌≤◌, ◌≡◌, refl, Bool, true, false, ◌&&◌, not, List, [], ◌∷◌, ◌++◌, ltb, leb, length,
  Text, text_eq, Option, none, some, Result, ok, raise, value_error, budget_exceeded, codes, arith,
  Exception, String, ok-injective, subst, sym,
}
use aistock.Domain.Time.{Datetime, naive, aware, Instant}
use aistock.Dict.{get_or-insert}
use aistock.Int.{pos, pos_part, ltb_ℤ}
use aistock.Harness.Controller.{
  BudgetLimits, BudgetState, Payload, tokens_used, tool_done, reflections_done, TraceEvent,
  Checkpoint, Controller, Action, Snapshot, exhausted, snapshot_of, continue, ◌>>=◌, ◌>>◌, skip,
  throw_if, with_state, set_state, with_event, with_checkpoints, saved, read_clock, now_aware,
  record_event, save_checkpoint, save, exhaust, exhaust_if, check_deadline, add_event, checkpoint,
}
use aistock.Harness.Budget.{
  Call, llm_call, tool_result, reflection, new_controller, count_llm_call, record_llm_call,
  count_tool_result, record_tool_result, count_reflection, record_reflection, call, after_calls,
  finish_llm_call, finish_tool_result, finish_reflection, is_last, add_llm_call, add_tool_call,
  add_reflection, controller_at,
}

-- No count passes its limit.
pub record IsWithin (limits : BudgetLimits) (s : BudgetState) : Type 0 where
  pub llm : s.llm_calls ≤ limits.llm_calls
  pub tool : s.tool_calls ≤ limits.tool_calls
  pub token : s.tokens ≤ limits.tokens
  pub reflect : s.reflections ≤ limits.reflections

-- The numbers go up by one, from n on.
abbrev pub Numbered : {A : Type 0} → (A → ℕ) → ℕ → List A → Type 0
Numbered number n [] = Unit {0}
Numbered number n (x ∷ xs) = (number x ≡ n) × Numbered number (suc n) xs

Numbered-snoc :
    {A : Type 0} (number : A → ℕ) (n : ℕ) (xs : List A) (x : A)
    → Numbered number n xs
    → number x ≡ n + length xs
    → Numbered number n (xs ++ x ∷ [])
Numbered-snoc number n [] x h e = (ground arith, tt)
Numbered-snoc number n (y ∷ ys) x h e = (h.0, Numbered-snoc number (suc n) ys x h.1 (ground arith))

pub record IsValid (limits : BudgetLimits) (c : Controller) : Type 0 where
  pub limited : c.limits ≡ limits
  pub within : IsWithin limits c.state
  pub events_numbered : Numbered (λ (e : TraceEvent). e.sequence) 1 c.events
  pub checkpoints_numbered : Numbered (λ (k : Checkpoint). k.sequence) 1 (saved c)

saved-with :
    (records : List Checkpoint) (c : Controller) → saved (with_checkpoints records c) ≡ records
saved-with records c = get_or-insert c.run_id [] records c.checkpoints

with_state-IsValid :
    (limits : BudgetLimits) (s : BudgetState) (c : Controller)
    → IsValid limits c
    → IsWithin limits s
    → IsValid limits (with_state s c)
with_state-IsValid limits s c h w = record {
  limited = h.limited;
  within = w;
  events_numbered = h.events_numbered;
  checkpoints_numbered = h.checkpoints_numbered;
}

with_checkpoints-IsValid :
    (limits : BudgetLimits) (records : List Checkpoint) (c : Controller)
    → IsValid limits c
    → Numbered (λ (k : Checkpoint). k.sequence) 1 records
    → IsValid limits (with_checkpoints records c)
with_checkpoints-IsValid limits records c h n = record {
  limited = h.limited;
  within = h.within;
  events_numbered = h.events_numbered;
  checkpoints_numbered =
      subst (Numbered (λ (k : Checkpoint). k.sequence) 1) (sym (saved-with records c)) n;
}

continue_raise :
    {A B : Type 0} (p : Result A × Controller) (f : A → Action B) (e : Exception)
    → p.0 ≡ raise e
    → (continue p f).1 ≡ p.1
continue_raise (ok a, c) f e h = cc
continue_raise (raise x, c) f e h = refl

module _ (clock : ℕ → Datetime) (redact : Payload → Payload) (limits : BudgetLimits) where
  -- An action that keeps the invariant, whatever it returns.
  abbrev Keeps : {A : Type 0} → Action A → Type 0
  Keeps m = (c : Controller) → IsValid limits c → IsValid limits (m c).1

  continue-Keeps :
      {A B : Type 0} (p : Result A × Controller) (f : A → Action B)
      → IsValid limits p.1
      → ((a : A) → Keeps (f a))
      → IsValid limits (continue p f).1
  continue-Keeps (ok a, c) f v k = k a c v
  continue-Keeps (raise e, c) f v k = v

  bind-Keeps :
      {A B : Type 0} (m : Action A) (f : A → Action B)
      → Keeps m
      → ((a : A) → Keeps (f a))
      → Keeps (m >>= f)
  bind-Keeps m f h k c v = continue-Keeps (m c) f (h c v) k

  read_clock-Keeps : Keeps (read_clock clock redact)
  unfolding read_clock
  read_clock-Keeps c v = record {
    limited = v.limited;
    within = v.within;
    events_numbered = v.events_numbered;
    checkpoints_numbered = v.checkpoints_numbered;
  }

  now_aware-Keeps : (t : Datetime) → Keeps (now_aware clock redact t)
  now_aware-Keeps naive c v = v
  now_aware-Keeps (aware t) c v = v

  now_aware_same : (t : Datetime) (c : Controller) → (now_aware clock redact t c).1 ≡ c
  now_aware_same naive c = refl
  now_aware_same (aware t) c = refl

  with_event-IsValid :
      (e : TraceEvent) (c : Controller)
      → IsValid limits c
      → e.sequence ≡ suc (length c.events)
      → IsValid limits (with_event e c)
  with_event-IsValid e c v s = record {
    limited = v.limited;
    within = v.within;
    events_numbered =
        Numbered-snoc (λ (x : TraceEvent). x.sequence) 1 c.events e v.events_numbered
          (ground arith);
    checkpoints_numbered = v.checkpoints_numbered;
  }

  add_event-Keeps : (t : Text) (p : Payload) (u : Instant) → Keeps (add_event clock redact t p u)
  add_event-Keeps t p u c v = with_event-IsValid _ c v refl

  record_event-Keeps : (t : Text) (p : Payload) → Keeps (record_event clock redact t p)
  unfolding record_event
  record_event-Keeps t p =
      bind-Keeps (read_clock clock redact >>= now_aware clock redact) (add_event clock redact t p)
        (bind-Keeps (read_clock clock redact) (now_aware clock redact) read_clock-Keeps
          now_aware-Keeps)
        (add_event-Keeps t p)

  saved-append :
      (k : Checkpoint) (c : Controller)
      → IsValid limits c
      → k.sequence ≡ suc (length (saved c))
      → IsValid limits (with_checkpoints (saved c ++ k ∷ []) c)
  saved-append k c v e = with_checkpoints-IsValid limits (saved c ++ k ∷ []) c v (
      Numbered-snoc (λ (x : Checkpoint). x.sequence) 1 (saved c) k v.checkpoints_numbered
        (ground arith))

  save_checkpoint-Keeps : (s : Snapshot) (t : Datetime) → Keeps (save_checkpoint clock redact s t)
  unfolding save_checkpoint
  save_checkpoint-Keeps s naive c v =
      with_checkpoints-IsValid limits (saved c) c v v.checkpoints_numbered
  save_checkpoint-Keeps s (aware t) c v = saved-append _ c v refl

  checkpoint-Keeps :
      (status : Text) (reason : Option Text) → Keeps (checkpoint clock redact status reason)
  unfolding checkpoint
  checkpoint-Keeps status reason c =
      bind-Keeps (read_clock clock redact)
        (save_checkpoint clock redact (snapshot_of clock redact status reason c)) read_clock-Keeps
        (save_checkpoint-Keeps (snapshot_of clock redact status reason c)) c

  save-Keeps : (t : Text) (p : Payload) → Keeps (save clock redact t p)
  unfolding save
  save-Keeps t p =
      bind-Keeps (record_event clock redact t p)
        (λ _. checkpoint clock redact (codes "RUNNING") none) (record_event-Keeps t p)
        (λ _. checkpoint-Keeps (codes "RUNNING") none)

  throw_if-Keeps : (b : Bool) (e : Exception) → Keeps (throw_if b e)
  throw_if-Keeps b e c v = v

  exhaust-Keeps : (reason : String) → Keeps (exhaust clock redact reason)
  unfolding exhaust
  exhaust-Keeps reason =
      bind-Keeps
        (record_event clock redact (codes "run.budget_exhausted") (exhausted (codes reason))) _
        (record_event-Keeps _ _)
        (λ _.
          bind-Keeps (checkpoint clock redact (codes "BUDGET_EXHAUSTED") (some (codes reason))) _
            (checkpoint-Keeps _ _) (λ _. throw_if-Keeps true (budget_exceeded reason)))

  IsRaise : {A : Type 0} → Result A → Type 0
  IsRaise r = (e : Exception) × (r ≡ raise e)

  continue-IsRaise :
      {A B : Type 0} (p : Result A × Controller) (f : A → Action B)
      → ((a : A) (c : Controller) → IsRaise (f a c).0)
      → IsRaise (continue p f).0
  unfolding IsRaise
  continue-IsRaise (ok a, c) f h = h a c
  continue-IsRaise (raise e, c) f h = (e, refl)

  exhaust-IsRaise : (reason : String) (c : Controller) → IsRaise (exhaust clock redact reason c).0
  unfolding exhaust IsRaise
  exhaust-IsRaise reason c =
      continue-IsRaise
        (record_event clock redact (codes "run.budget_exhausted") (exhausted (codes reason)) c) _
        (λ _ d.
          continue-IsRaise
            (checkpoint clock redact (codes "BUDGET_EXHAUSTED") (some (codes reason)) d) _
            (λ _ u. (_, refl)))

  -- After a guard, its test is known to have failed.
  guard-Keeps :
      (b : Bool) (reason : String) (k : Action (Unit {0})) (c : Controller)
      → IsValid limits c
      → (b ≡ false → IsValid limits (k c).1)
      → IsValid limits ((exhaust_if clock redact b reason >> k) c).1
  unfolding IsRaise
  guard-Keeps true reason k c v h =
      let (e, raised) = exhaust-IsRaise reason c in
      subst (IsValid limits)
        (sym (continue_raise (exhaust clock redact reason c) (λ _. k) e raised))
        (exhaust-Keeps reason c v)
  guard-Keeps false reason k c v h = h refl

  skip-Keeps : Keeps skip
  skip-Keeps c v = v

  exhaust_if-Keeps : (b : Bool) (reason : String) → Keeps (exhaust_if clock redact b reason)
  exhaust_if-Keeps true reason = exhaust-Keeps reason
  exhaust_if-Keeps false reason = skip-Keeps

  check_deadline-Keeps : Keeps (check_deadline clock redact)
  unfolding check_deadline
  check_deadline-Keeps =
      bind-Keeps (read_clock clock redact >>= now_aware clock redact) _
        (bind-Keeps (read_clock clock redact) (now_aware clock redact) read_clock-Keeps
          now_aware-Keeps)
        (λ t c v. exhaust_if-Keeps _ "wall_time" c v)

  add_llm_call-IsWithin :
      (tokens : ℕ) (c : Controller)
      → IsValid limits c
      → ltb c.limits.llm_calls (suc c.state.llm_calls) ≡ false
      → ltb c.limits.tokens (c.state.tokens + tokens) ≡ false
      → IsWithin limits (add_llm_call tokens c.state)
  add_llm_call-IsWithin tokens c v calls used = record {
    llm = ground (arith, v.limited);
    tool = v.within.tool;
    token = ground (arith, v.limited);
    reflect = v.within.reflect;
  }

  add_reflection-IsWithin :
      (c : Controller)
      → IsValid limits c
      → ltb c.limits.reflections (suc c.state.reflections) ≡ false
      → IsWithin limits (add_reflection c.state)
  add_reflection-IsWithin c v calls = record {
    llm = v.within.llm;
    tool = v.within.tool;
    token = v.within.token;
    reflect = ground (arith, v.limited);
  }

  add_tool_call-IsWithin :
      (fingerprint : Text) (made_progress : Bool) (c : Controller)
      → IsValid limits c
      → ltb c.limits.tool_calls (suc c.state.tool_calls) ≡ false
      → IsWithin limits (add_tool_call fingerprint made_progress c.state)
  add_tool_call-IsWithin fingerprint made_progress c v calls = record {
    llm = v.within.llm;
    tool = ground (arith, v.limited);
    token = v.within.token;
    reflect = v.within.reflect;
  }

  count_llm_call-Keeps : (tokens : ℕ) → Keeps (count_llm_call clock redact tokens)
  unfolding count_llm_call
  count_llm_call-Keeps tokens c v =
      let over_tokens = ltb c.limits.tokens (c.state.tokens + tokens) in
      let finish = finish_llm_call clock redact tokens in
      guard-Keeps (ltb c.limits.llm_calls (suc c.state.llm_calls)) "llm_calls"
        (exhaust_if clock redact over_tokens "tokens" >> finish) c v
        (λ calls. guard-Keeps over_tokens "tokens" finish c v (λ used.
          save-Keeps (codes "llm.completed") (tokens_used tokens)
            (with_state (add_llm_call tokens c.state) c)
            (with_state-IsValid limits (add_llm_call tokens c.state) c v
              (add_llm_call-IsWithin tokens c v calls used))))

  count_reflection-Keeps : Keeps (count_reflection clock redact)
  unfolding count_reflection
  count_reflection-Keeps c v =
      guard-Keeps (ltb c.limits.reflections (suc c.state.reflections)) "reflections"
        (finish_reflection clock redact) c v
        (λ calls.
          save-Keeps (codes "reflection.completed") (reflections_done (suc c.state.reflections))
            (with_state (add_reflection c.state) c)
            (with_state-IsValid limits (add_reflection c.state) c v
              (add_reflection-IsWithin c v calls)))

  finish_tool_result-Keeps :
      (fingerprint : Text) (made_progress repeated : Bool) (n : ℕ)
      → Keeps (finish_tool_result clock redact fingerprint made_progress repeated n)
  finish_tool_result-Keeps fingerprint made_progress repeated n =
      bind-Keeps (exhaust_if clock redact repeated "repeated_tool") _
        (exhaust_if-Keeps repeated "repeated_tool")
        (λ _.
          bind-Keeps (exhaust_if clock redact (leb 2 n) "no_progress") _
            (exhaust_if-Keeps (leb 2 n) "no_progress")
            (λ _. save-Keeps (codes "tool.completed") (tool_done fingerprint made_progress)))

  count_tool_result-Keeps :
      (fingerprint : Text) (made_progress : Bool)
      → Keeps (count_tool_result clock redact fingerprint made_progress)
  unfolding count_tool_result
  count_tool_result-Keeps fingerprint made_progress c v =
      let counted = add_tool_call fingerprint made_progress c.state in
      let repeated = not made_progress && is_last fingerprint c.state.last_tool_fingerprint in
      let finish =
        finish_tool_result clock redact fingerprint made_progress repeated
          counted.consecutive_no_progress in
      guard-Keeps (ltb c.limits.tool_calls (suc c.state.tool_calls)) "tool_calls"
        (set_state counted >> finish) c v
        (λ calls.
          finish_tool_result-Keeps fingerprint made_progress repeated
            counted.consecutive_no_progress (with_state counted c)
            (with_state-IsValid limits counted c v
              (add_tool_call-IsWithin fingerprint made_progress c v calls)))

  call-Keeps : (k : Call) → Keeps (call clock redact k)
  unfolding call record_llm_call record_tool_result record_reflection
  call-Keeps (llm_call tokens) =
      let negative = ltb_ℤ tokens (pos 0) in
      let error = value_error "tokens cannot be negative" in
      bind-Keeps (check_deadline clock redact) _ check_deadline-Keeps (λ _.
        bind-Keeps (throw_if negative error) _ (throw_if-Keeps negative error)
          (λ _. count_llm_call-Keeps (pos_part tokens)))
  call-Keeps (tool_result fingerprint made_progress) =
      bind-Keeps (check_deadline clock redact) _ check_deadline-Keeps
        (λ _. count_tool_result-Keeps fingerprint made_progress)
  call-Keeps reflection =
      bind-Keeps (check_deadline clock redact) _ check_deadline-Keeps (λ _. count_reflection-Keeps)

  after_calls-Keeps :
      (calls : List Call) (c : Controller)
      → IsValid limits c
      → IsValid limits (after_calls clock redact calls c)
  unfolding after_calls
  after_calls-Keeps [] c v = v
  after_calls-Keeps (k ∷ calls) c v = after_calls-Keeps calls _ (call-Keeps k c v)

new_controller-IsValid :
    (clock : ℕ → Datetime) (redact : Payload → Payload) (run_id : Text) (limits : BudgetLimits)
    (c : Controller)
    → new_controller clock redact run_id limits ≡ ok c
    → IsValid limits c
unfolding new_controller
new_controller-IsValid clock redact run_id limits c h = started (clock 0) h
  where
    started : (t : Datetime) → controller_at run_id limits t ≡ ok c → IsValid limits c
    started naive e = cc
    started (aware t) e = subst (IsValid limits) (ok-injective e) (record {
      limited = refl;
      within = record {
        llm = ground arith;
        tool = ground arith;
        token = ground arith;
        reflect = ground arith;
      };
      events_numbered = tt;
      checkpoints_numbered = tt;
    })

-- After any sequence of calls on a new controller, of which any may have raised, no count passes its
-- limit, the limits are those it was made with, and the trace events and the run's checkpoints are
-- numbered 1, 2, 3 and so on.
pub after_calls-IsValid :
    (clock : ℕ → Datetime) (redact : Payload → Payload) (run_id : Text) (limits : BudgetLimits)
    (c : Controller) (calls : List Call)
    → new_controller clock redact run_id limits ≡ ok c
    → IsValid limits (after_calls clock redact calls c)
after_calls-IsValid clock redact run_id limits c calls h =
    after_calls-Keeps clock redact limits calls c
      (new_controller-IsValid clock redact run_id limits c h)
