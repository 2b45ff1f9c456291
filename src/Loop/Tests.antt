-- ===== src/Loop/Tests.antt =====
-- A model that calls one tool and then answers, one whose output crashes the parser, and the
-- theorems at the first. The world is the number of clock readings.
use pan_agent.Base.{
  ℕ, suc, ◌≡◌, refl, String, Option, none, some, List, [], ◌∷◌, str_eq, if◌then◌else◌, arith,
}
use pan_agent.Base.Int.{pos}
use pan_agent.Base.Result.{Result, ok, err}
use pan_agent.Base.Json.{Json, str, arr, nil, obj, Fields, end, field, get, equals_text}
use pan_agent.Limits.{RunLimits}
use pan_agent.Trace.{succeeded, write, new_writer, TraceWriter}
use pan_agent.Loop.{
  Message, ToolOutcome, observed, Env, Task, RunResult, Ended, completed, crashed, run, rounds,
  round, timed_out, calls_spent, after_response, take_action, use_tool, after_tool, finish,
}
use pan_agent.Loop.Budget.{EndsWell, run_total}
use pan_agent.Loop.Recorded.{IsFiled, run-load_trace}
use pan_agent.Loop.Parsing.{Asks, parse_action_iff, parse_action-crashes_iff}
use pan_agent.Loop.Actions.{
  final, type_error, parse_action, parse_object, tool_action, final_action,
}

abbrev answer : Json
answer = obj (field "type" (str "final") (field "output" (str "42") end))

abbrev call : Json
call = obj (field "type" (str "tool") (field "tool" (str "calc") (field "arguments" (obj end) end)))

abbrev odd : Json
odd = obj (field "type" (arr nil) end)

abbrev loads : String → Option Json
loads raw =
    if str_eq raw "answer"
    then some answer
    else if str_eq raw "call"
    then some call
    else if str_eq raw "odd"
    then some odd
    else none

-- Asks for the tool while the context is only the prompt.
abbrev respond : List Message → ℕ → Result String String × ℕ
respond (prompt ∷ []) n = (ok "call", n)
respond _ n = (ok "answer", n)

abbrev tools : String → Option (Fields → ℕ → ToolOutcome × ℕ)
tools name = if str_eq name "calc" then some (λ arguments n. (observed "6 * 7", n)) else none

abbrev env : Env ℕ
env = record {
  monotonic = λ n. (pos n, suc n);
  respond = respond;
  loads = loads;
  repr = λ value. "?";
  tools = tools;
}

abbrev limits : RunLimits
limits = record { max_steps = pos 3; max_model_calls = pos 4; timeout_seconds = pos 100 }

abbrev task : Task
task = record { task_id = "t"; prompt = "What is 6 * 7?" }

abbrev result : RunResult
result = record {
  run_id = "r";
  task_id = "t";
  status = succeeded;
  output = some "42";
  steps = 1;
  model_calls = 2;
  error = none;
}

run_answers :
    (trace : TraceWriter) × (world : ℕ) × (run env "r" task limits 0
      ≡ some (completed result trace world))
unfolding run rounds round timed_out calls_spent after_response take_action parse_action
    parse_object get equals_text tool_action use_tool after_tool final_action finish write
    new_writer
run_answers = (_, _, refl)

-- The type of the action is a list: `run` ends by an exception, with no final event.
run_crashes :
    (trace : TraceWriter) × (world : ℕ) × (run
        (record env { respond = λ context n. (ok "odd", n) })
        "r"
        task
        limits
        0
      ≡ some (crashed trace world))
unfolding run rounds round timed_out calls_spent after_response take_action parse_action
    parse_object get equals_text
run_crashes = (_, _, refl)

run_total_example :
    (ended : Ended ℕ) × (run env "r" task limits 0 ≡ some ended) × EndsWell env limits ended
run_total_example = run_total env limits "r" task 0 (omega arith)

run-load_trace_example :
    (result.run_id ≡ "r") × (result.task_id ≡ "t") × IsFiled result run_answers.0
run-load_trace_example = run-load_trace env "r" task limits 0 run_answers.2

parse_action_iff_example :
    (value : Fields) × (some answer ≡ some (obj value)) × Asks value (final "42")
unfolding parse_action parse_object get equals_text final_action
parse_action_iff_example = (parse_action_iff (λ v. "?") (some answer) (final "42")).0 refl

parse_action-crashes_iff_example : parse_action (λ v. "?") (some odd) ≡ err type_error
unfolding get
parse_action-crashes_iff_example =
    (parse_action-crashes_iff (λ v. "?") (some odd)).1 (field "type" (arr nil) end, refl, refl)
