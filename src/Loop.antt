-- ===== src/Loop.antt =====
-- workspace_agent_harness/__init__.py: `AgentLoop.run`, the bounded loop of model calls and tool
-- calls, and `_parse_action`. The model, the tools, the clock and `json.loads` are the fields of an
-- environment over a world `W`, which each of them may change; `repr` gives Python's text of a value.
pub mod Actions
pub mod Parsing
pub mod Accounting
pub mod Budget
pub mod Recording
pub mod Recorded
pub mod Tests
use Prim.Native.String.{◌++◌ as ◌<>◌}
use pan_agent.Base.{
  ℕ, zero, suc, ◌+◌, String, Bool, true, false, Option, none, some, List, [], ◌∷◌, ◌++◌,
  if◌then◌else◌,
}
use pan_agent.Base.Int.{ℤ, pos, leb_ℤ, ◌-ℤ◌, pos_part}
use pan_agent.Base.Result.{Result, ok, err}
use pan_agent.Base.Json.{Json, int, str, obj, Fields, end, field, text_or_null}
use pan_agent.Limits.{RunLimits}
use pan_agent.Trace.{
  RunStatus, succeeded, model_error, parse_error, tool_error, step_limit, timeout, budget_exceeded,
  policy_blocked, status_value, TraceWriter, new_writer, write,
}
use pan_agent.Loop.Actions.{
  Action, final, tool_call, ParseFailure, value_error, type_error, parse_action,
}

pub record Task : Type 0 where
  pub task_id : String
  pub prompt : String

pub record RunResult : Type 0 where
  pub run_id : String
  pub task_id : String
  pub status : RunStatus
  pub output : Option String
  pub steps : ℕ
  pub model_calls : ℕ
  pub error : Option String

-- An entry of the context that the model is given.
pub data Message : Type 0 where
  user_message assistant_message : String → Message
  tool_message : String → String → Message

-- How `Tool.execute` ends: by a text, by `_PolicyViolation`, or by another exception.
pub data ToolOutcome : Type 0 where
  observed policy_violation raised : String → ToolOutcome

pub record Env (W : Type 0) : Type 0 where
  pub monotonic : W → ℤ × W
  pub respond : List Message → W → Result String String × W
  pub loads : String → Option Json
  pub repr : Option Json → String
  pub tools : String → Option (Fields → W → ToolOutcome × W)

-- The local variables of `run`.
pub record State (W : Type 0) : Type 0 where
  pub steps : ℕ
  pub model_calls : ℕ
  pub context : List Message
  pub trace : TraceWriter
  pub world : W

-- How `run` ends: by its result, or by an exception that it does not catch.
pub data Ended (W : Type 0) : Type 0 where
  completed : RunResult → TraceWriter → W → Ended W
  crashed : TraceWriter → W → Ended W

-- A round of the loop ends `run`, or goes on.
pub data Round (W : Type 0) : Type 0 where
  stopped : Ended W → Round W
  again : State W → Round W

-- _result_payload
abbrev pub result_payload : RunResult → Fields
result_payload result = field "error" (text_or_null result.error) (
    field "model_calls" (int (pos result.model_calls)) (
      field "output" (text_or_null result.output) (
        field "run_id" (str result.run_id) (
          field "status" (str (status_value result.status))
            (field "steps" (int (pos result.steps)) (field "task_id" (str result.task_id) end))))))

abbrev limits_payload : RunLimits → Fields
limits_payload limits = field "max_model_calls" (int limits.max_model_calls) (
    field "max_steps" (int limits.max_steps)
      (field "timeout_seconds" (int limits.timeout_seconds) end))

abbrev pub observation_payload : String → ℕ → String → Fields
observation_payload observation step tool =
    field "observation" (str observation)
      (field "step" (int (pos step)) (field "tool" (str tool) end))

abbrev failure_payload : String → String → Fields
failure_payload error tool = field "error" (str error) (field "tool" (str tool) end)

-- self._monotonic() - started_at >= limits.timeout_seconds
unfoldable pub timed_out : RunLimits → ℤ → ℤ → Bool
timed_out limits started_at now = leb_ℤ limits.timeout_seconds (now -ℤ started_at)

-- model_calls >= limits.max_model_calls
unfoldable pub calls_spent : RunLimits → ℕ → Bool
calls_spent limits model_calls = leb_ℤ limits.max_model_calls (pos model_calls)

module _ {W : Type 0} where
  abbrev result_of : State W → RunStatus → Option String → Option String → RunResult
  result_of s status output error = record {
    run_id = s.trace.run_id;
    task_id = s.trace.task_id;
    status = status;
    output = output;
    steps = s.steps;
    model_calls = s.model_calls;
    error = error;
  }

  -- `finish`
  unfoldable pub finish : State W → RunStatus → Option String → Option String → Round W
  finish s status output error =
      let result = result_of s status output error in
      stopped (
        completed result
          (write s.trace "run_completed" (field "result" (obj (result_payload result)) end))
          s.world)

  -- trace.record(event_type, payload)
  abbrev noted : State W → String → Fields → State W
  noted s event_type payload = record s { trace = write s.trace event_type payload }

  -- After the tool has run.
  unfoldable pub after_tool : RunLimits → String → String → ToolOutcome → State W → Round W
  after_tool limits raw_response tool (policy_violation message) s =
      finish (noted s "tool_failed" (failure_payload message tool)) policy_blocked none
        (some message)
  after_tool limits raw_response tool (raised message) s =
      finish (noted s "tool_failed" (failure_payload message tool)) tool_error none (some message)
  after_tool limits raw_response tool (observed observation) s =
      let done = record s {
        steps = s.steps + 1;
        trace = write s.trace "tool_completed" (observation_payload observation (s.steps + 1) tool);
        context = s.context ++ assistant_message raw_response ∷ tool_message tool observation ∷ [];
      } in
      if leb_ℤ limits.max_steps (pos done.steps)
      then finish done step_limit none (some "maximum tool steps reached")
      else again done

  -- What `self._tools.get` found is the fifth argument.
  unfoldable pub use_tool :
      RunLimits
      → String
      → String
      → Fields
      → Option (Fields → W → ToolOutcome × W)
      → State W
      → Round W
  use_tool limits raw_response tool arguments none s =
      let message = "unknown tool: " <> tool in
      finish (noted s "tool_failed" (failure_payload message tool)) tool_error none (some message)
  use_tool limits raw_response tool arguments (some execute) s =
      let (outcome, world) = execute arguments s.world in
      after_tool limits raw_response tool outcome (record s { world = world })

  unfoldable pub take_action :
      Env W → RunLimits → String → Result ParseFailure Action → State W → Round W
  take_action env limits raw_response (err type_error) s = stopped (crashed s.trace s.world)
  take_action env limits raw_response (err (value_error message)) s =
      finish s parse_error none (some message)
  take_action env limits raw_response (ok (final output)) s = finish s succeeded (some output) none
  take_action env limits raw_response (ok (tool_call tool arguments)) s =
      use_tool limits raw_response tool arguments (env.tools tool) s

  unfoldable pub after_response : Env W → RunLimits → Result String String → State W → Round W
  after_response env limits (err message) s = finish s model_error none (some message)
  after_response env limits (ok raw_response) s =
      take_action env limits raw_response (parse_action env.repr (env.loads raw_response))
        (noted s "model_output" (field "content" (str raw_response) end))

  -- The body of `while True`.
  unfoldable pub round : Env W → RunLimits → ℤ → State W → Round W
  round env limits started_at s =
      let (now, world) = env.monotonic s.world in
      let timed = record s { world = world } in
      let called = record timed { model_calls = s.model_calls + 1 } in
      let (response, world') = env.respond s.context world in
      if timed_out limits started_at now
      then finish timed timeout none (some "run timeout reached")
      else if calls_spent limits s.model_calls
      then finish timed budget_exceeded none (some "maximum model call budget reached")
      else after_response env limits response (record called { world = world' })

  -- The loop, for as many rounds as there is fuel; `none` means that the fuel ran out.
  unfoldable pub rounds : ℕ → Env W → RunLimits → ℤ → State W → Option (Ended W)
  rounds zero env limits started_at s = none
  rounds (suc fuel) env limits started_at s = elim (round env limits started_at s) [
    | stopped ended ↦ some ended
    | again next ↦ rounds fuel env limits started_at next
  ]

  -- `run`. One round more than there may be model calls is enough.
  unfoldable pub run : Env W → String → Task → RunLimits → W → Option (Ended W)
  run env run_id task limits world =
      let (started_at, world') = env.monotonic world in
      let trace = new_writer run_id task.task_id in
      rounds (suc (pos_part limits.max_model_calls)) env limits started_at (record {
        steps = 0;
        model_calls = 0;
        context = user_message task.prompt ∷ [];
        trace =
            write trace "run_started"
              (field "limits" (obj (limits_payload limits)) (field "prompt" (str task.prompt) end));
        world = world';
      })
