-- ===== src/Harness/Tests.antt =====
-- A controller that runs out of calls, and a gateway that is asked twice.
use aistock.Common.{
  ◌++◌, ℕ, ◌+◌, ◌≡◌, refl, true, false, List, [], ◌∷◌, codes, ok, All, ◌↔◌, ◌≤◌, is_empty, Text,
}
use aistock.Int.{pos}
use aistock.Domain.Time.{Datetime, aware, Instant, require_aware}
use aistock.Harness.Controller.{BudgetLimits, Payload, Controller, initial_state}
use aistock.Harness.Budget.{Call, llm_call, tool_result, reflection, new_controller, after_calls}
use aistock.Harness.Budget.Limits.{IsValid, after_calls-IsValid}
use aistock.Domain.Ids.{symbol, is_blank, strip, matches_symbol, is_symbol_char}
use aistock.Harness.Task.{
  authorize, verify, member, verify_lem, TaskSpecification, task_specification, all_symbols,
  task_specification_sound,
}
use aistock.Harness.Task.Names.{IsHarmless, denied, authorize_lem}
use aistock.Harness.Approval.{
  Operation, ask, answer, operate_all, empty_gateway, operate_all-IsValid,
}
use aistock.Harness.Approval

abbrev limits : BudgetLimits
limits = record { llm_calls = 1; tool_calls = 2; tokens = 100; reflections = 0; wall_time = 50 }

abbrev clock : ℕ → Datetime
clock n = aware (100 + n)

abbrev unredacted : Payload → Payload
unredacted p = p

abbrev controller : Controller
controller = record {
  run_id = codes "run";
  limits = limits;
  started_at = 100;
  state = initial_state;
  reads = 1;
  events = [];
  checkpoints = [];
}

abbrev calls : List Call
calls = llm_call (pos 60) ∷ llm_call (pos 10) ∷ tool_result (codes "quote") true ∷ reflection ∷ []

started : new_controller clock unredacted (codes "run") limits ≡ ok controller
unfolding new_controller
started = refl

after_calls-IsValid_example : IsValid limits (after_calls clock unredacted calls controller)
after_calls-IsValid_example =
    after_calls-IsValid clock unredacted (codes "run") limits controller calls started

abbrev operations : List Operation
operations =
    ask (codes "r1") (codes "run") (codes "trade") (codes "size") (aware 1)
    ∷ answer (codes "r1") true (codes "human:ada") (aware 2)
    ∷ answer (codes "r1") false (codes "human:bob") (aware 3)
    ∷ []

operate_all-IsValid_example : Approval.IsValid (operate_all empty_gateway operations)
operate_all-IsValid_example = operate_all-IsValid operations

abbrev quotes : List Text
quotes = codes "quote" ∷ []

-- "symbol", and "api_key" in capitals with the sign of the kelvin.
abbrev kelvin_key : List Text
kelvin_key = codes "symbol" ∷ (codes "API_" ++ 8490 ∷ codes "EY") ∷ []

authorize_lem_example :
    ((authorize quotes (codes "quote") kelvin_key ≡ ok tt)
      ↔ ((member quotes (codes "quote") ≡ true) × All IsHarmless kelvin_key))
    × ((authorize quotes (codes "quote") kelvin_key ≡ denied "tool not allowed")
        ↔ (member quotes (codes "quote") ≡ false))
    × ((authorize quotes (codes "quote") kelvin_key ≡ denied "forbidden tool arguments")
        ↔ ((member quotes (codes "quote") ≡ true) × (¬ All IsHarmless kelvin_key)))
authorize_lem_example = authorize_lem quotes (codes "quote") kelvin_key

refused_key : authorize quotes (codes "quote") kelvin_key ≡ denied "forbidden tool arguments"
unfolding authorize
refused_key = refl

abbrev completed : List Text
completed = codes "thesis" ∷ codes "claims" ∷ []

abbrev required : List Text
required = codes "claims" ∷ codes "scores" ∷ []

verify_lem_example :
    ((verify completed required).complete ≡ true
      ↔ All (λ (r : Text). member completed r ≡ true) required)
    × All (λ (m : Text). member completed m ≡ false) (verify completed required).missing
verify_lem_example = verify_lem completed required

abbrev task : Text → TaskSpecification
task s = record {
  objective = codes "research";
  symbols = s ∷ [];
  decision_time = aware 100;
  data_cutoff = aware 90;
  allowed_tools = codes "quote" ∷ [];
  budgets = limits;
  output_schema = codes "schema";
  completion_rules = codes "thesis" ∷ [];
  versions = record {
    research_scoring = codes "v1";
    risk = codes "v1";
    execution = codes "v1";
    confidence = codes "v1";
    prompt = codes "v1";
    model = codes "v1";
  };
}

task_constructed : task_specification (task (codes "mu")) ≡ ok (task (codes "MU"))
unfolding task_specification all_symbols symbol is_blank strip matches_symbol is_symbol_char
task_constructed = refl

task_specification_sound_example :
    ((decision cutoff : Instant) × (require_aware (aware 100) ≡ ok decision)
      × (require_aware (aware 90) ≡ ok cutoff)
      × (cutoff ≤ decision))
    × (is_empty (task (codes "MU")).symbols ≡ false)
    × All (λ (t : Text). symbol t ≡ ok t) (task (codes "MU")).symbols
task_specification_sound_example =
    task_specification_sound (task (codes "mu")) (task (codes "MU")) task_constructed
