-- ===== src/Harness/Task.antt =====
-- agents/harness/policy.py, completion.py and task_spec.py: what a run is given, which tools it may
-- call, and when it is complete. A frozenset of texts is a list of its elements, in some order.
pub mod Names
use aistock.Common.{
  Exception, ◌≢◌, ◌⊎◌, inl, inr, ◌+◌, ◌&&◌, ◌||◌, leb, nat_eq, all, ap₂, Bool-cases, String, raise,
  ℕ, ◌≤◌, ◌≡◌, ◌↔◌, refl, sym, ◌∙◌, Bool, true, false, not, List, [], ◌∷◌, map, any, filter,
  is_empty, ltb, Text, text_lt, ◌==◌, text_eq, Result, ok, value_error, tool_policy_denied, ◌>>=◌,
  ◌>>◌, raise_if, codes, arith, All, sort_by, sort_by-All, insert_by, sort_from, >>=-eq-ok,
  >>-eq-ok, ok-injective, subst,
}
use text.Mathlib.TextEquality.{eq_iff}
use mathlib.Core.List.{head-eq_of_cons-eq, tail-eq_of_cons-eq, nil≢cons}
use aistock.Domain.Ids.{lower, lower_char, is_blank, symbol, symbol_idem}
use aistock.Domain.Time.{Datetime, Instant, require_aware}
use aistock.Harness.Controller.{BudgetLimits}

abbrev pub member : List Text → Text → Bool
member texts t = any (λ (x : Text). x == t) texts

abbrev pub forbidden_arguments : List Text
forbidden_arguments =
    codes "url"
    ∷ codes "sql"
    ∷ codes "python"
    ∷ codes "shell"
    ∷ codes "api_key"
    ∷ codes "command"
    ∷ []

-- `key.lower()` is a forbidden argument.
abbrev pub is_forbidden : Text → Bool
is_forbidden key = member forbidden_arguments (lower key)

-- `ToolPolicyGateway.authorize`, of the names of the arguments.
unfoldable pub authorize : List Text → Text → List Text → Result (Unit {0})
authorize allowed_tools tool_name arguments = do
  raise_if (not (member allowed_tools tool_name)) (tool_policy_denied "tool not allowed")
  raise_if (any is_forbidden arguments) (tool_policy_denied "forbidden tool arguments")
  ok tt

pub record CompletionResult : Type 0 where
  pub complete : Bool
  pub missing : List Text

abbrev pub is_missing : List Text → Text → Bool
is_missing completed t = not (member completed t)

-- `CompletionVerifier.verify`
unfoldable pub verify : (completed required : List Text) → CompletionResult
verify completed required =
    let missing = sort_by text_lt (filter (is_missing completed) required) in
    record { complete = is_empty missing; missing = missing }

pub record PolicyVersions : Type 0 where
  pub research_scoring : Text
  pub risk : Text
  pub execution : Text
  pub confidence : Text
  pub prompt : Text
  pub model : Text

unfoldable pub as_tuple : PolicyVersions → List Text
as_tuple v = v.research_scoring ∷ v.risk ∷ v.execution ∷ v.confidence ∷ v.prompt ∷ v.model ∷ []

-- The constructor with its `__post_init__`.
unfoldable pub policy_versions : PolicyVersions → Result PolicyVersions
policy_versions v = do
  raise_if (any is_blank (as_tuple v))
      (value_error "all policy, prompt, and model versions are required")
  ok v

pub record TaskSpecification : Type 0 where
  pub objective : Text
  pub symbols : List Text
  pub decision_time : Datetime
  pub data_cutoff : Datetime
  pub allowed_tools : List Text
  pub budgets : BudgetLimits
  pub output_schema : Text
  pub completion_rules : List Text
  pub versions : PolicyVersions

unfoldable pub all_symbols : List Text → Result (List Text)
all_symbols [] = ok []
all_symbols (s ∷ ss) = do t ← symbol s; ts ← all_symbols ss; ok (t ∷ ts)

-- The constructor with its `__post_init__`, which replaces only the symbols.
unfoldable pub task_specification : TaskSpecification → Result TaskSpecification
task_specification s = do
  decision_time ← require_aware s.decision_time
  data_cutoff ← require_aware s.data_cutoff
  raise_if (ltb decision_time data_cutoff) (value_error "data_cutoff cannot be after decision_time")
  raise_if (is_blank s.objective) (value_error "objective is required")
  raise_if (is_empty s.symbols) (value_error "at least one symbol is required")
  raise_if (is_blank s.output_schema) (value_error "output_schema is required")
  raise_if (is_empty s.completion_rules) (value_error "at least one completion rule is required")
  symbols ← all_symbols s.symbols
  ok (record s { symbols = symbols })

insert_by-nonempty : (t : Text) (ts : List Text) → is_empty (insert_by text_lt t ts) ≡ false
insert_by-nonempty t [] = refl
insert_by-nonempty t (u ∷ ts) = ground arith

sort_from-nonempty :
    (out ts : List Text) → is_empty out ≡ false → is_empty (sort_from text_lt out ts) ≡ false
sort_from-nonempty out [] h = h
sort_from-nonempty out (t ∷ ts) h =
    sort_from-nonempty (insert_by text_lt t out) ts (insert_by-nonempty t out)

sorted_empty : (ts : List Text) → is_empty (sort_by text_lt ts) ≡ is_empty ts
sorted_empty [] = refl
sorted_empty (t ∷ ts) = sort_from-nonempty (t ∷ []) ts refl

none_missing :
    (completed required : List Text)
    → is_empty (filter (is_missing completed) required) ≡ true
    → All (λ (r : Text). member completed r ≡ true) required
none_missing completed [] h = tt
none_missing completed (r ∷ rs) h = (ground arith, none_missing completed rs (ground arith))

all_there :
    (completed required : List Text)
    → All (λ (r : Text). member completed r ≡ true) required
    → is_empty (filter (is_missing completed) required) ≡ true
all_there completed [] h = refl
all_there completed (r ∷ rs) h = ground (arith, h.0, all_there completed rs h.1)

missing-All :
    (completed required : List Text)
    → All (λ (m : Text). member completed m ≡ false) (filter (is_missing completed) required)
missing-All completed [] = tt
missing-All completed (r ∷ rs) = ground (arith, missing-All completed rs)

-- A run is complete exactly when each required name is among the completed ones, and the names that
-- are reported as missing are all not completed.
pub verify_lem :
    (completed required : List Text)
    → ((verify completed required).complete ≡ true
        ↔ All (λ (r : Text). member completed r ≡ true) required)
      × All (λ (m : Text). member completed m ≡ false) (verify completed required).missing
unfolding verify
verify_lem completed required =
    let missing = filter (is_missing completed) required in
    (
      (
        λ h. none_missing completed required (sym (sorted_empty missing) ∙ h),
        λ h. sorted_empty missing ∙ all_there completed required h,
      ),
      sort_by-All (λ (m : Text). member completed m ≡ false) text_lt missing
          (missing-All completed required),
    )

all_symbols-All :
    (ss ts : List Text)
    → all_symbols ss ≡ ok ts
    → All (λ (t : Text). symbol t ≡ ok t) ts × (is_empty ts ≡ is_empty ss)
unfolding all_symbols
all_symbols-All [] ts h =
    subst (λ (x : List Text). All (λ (t : Text). symbol t ≡ ok t) x × (is_empty x ≡ true))
      (ok-injective h) (tt, refl)
all_symbols-All (s ∷ ss) ts h =
    let (t, one, more) = >>=-eq-ok (symbol s) _ h in
    let (rest, others, last) = >>=-eq-ok (all_symbols ss) _ more in
    subst (λ (x : List Text). All (λ (u : Text). symbol u ≡ ok u) x × (is_empty x ≡ false))
      (ok-injective last) ((symbol_idem s t one, (all_symbols-All ss rest others).0), refl)

-- A task that was constructed uses data up to its decision time at most, and names at least one
-- symbol, all of which are normalised.
pub task_specification_sound :
    (args task : TaskSpecification)
    → task_specification args ≡ ok task
    → ((decision cutoff : Instant) × (require_aware task.decision_time ≡ ok decision)
        × (require_aware task.data_cutoff ≡ ok cutoff)
        × (cutoff ≤ decision))
      × (is_empty task.symbols ≡ false)
      × All (λ (t : Text). symbol t ≡ ok t) task.symbols
unfolding task_specification
task_specification_sound args task h =
    let (decision, at, h1) = >>=-eq-ok (require_aware args.decision_time) _ h in
    let (cutoff, until, h2) = >>=-eq-ok (require_aware args.data_cutoff) _ h1 in
    let (ordered, h3) = >>-eq-ok (raise_if (ltb decision cutoff) _) _ h2 in
    let (_, h4) = >>-eq-ok (raise_if (is_blank args.objective) _) _ h3 in
    let (some_symbol, h5) = >>-eq-ok (raise_if (is_empty args.symbols) _) _ h4 in
    let (_, h6) = >>-eq-ok (raise_if (is_blank args.output_schema) _) _ h5 in
    let (_, h7) = >>-eq-ok (raise_if (is_empty args.completion_rules) _) _ h6 in
    let (symbols, made, last) = >>=-eq-ok (all_symbols args.symbols) _ h7 in
    let (normal, count) = all_symbols-All args.symbols symbols made in
    subst
      (λ (x : TaskSpecification).
        ((d c : Instant) × (require_aware x.decision_time ≡ ok d)
          × (require_aware x.data_cutoff ≡ ok c)
          × (c ≤ d))
        × (is_empty x.symbols ≡ false)
        × All (λ (t : Text). symbol t ≡ ok t) x.symbols)
      (ok-injective last) ((decision, cutoff, at, until, ground arith), ground arith, normal)
