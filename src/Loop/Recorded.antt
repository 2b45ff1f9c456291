-- ===== src/Loop/Recorded.antt =====
-- Proofs on the trace that a run of `AgentLoop` leaves behind.
use mathlib.Core.Path.{ap₂, subst}
use pan_agent.Base.{
  ℕ, zero, suc, ◌+◌, ◌≡◌, refl, sym, ap, ◌∙◌, String, Option, none, some, List, [], ◌∷◌, ◌++◌, inl,
  inr, Bool-cases, count_if,
}
use pan_agent.Base.Int.{ℤ, pos, leb_ℤ}
use pan_agent.Base.Result.{Result, ok, err}
use pan_agent.Base.Json.{Fields, get, obj, field, end}
use pan_agent.Limits.{RunLimits}
use pan_agent.Trace.{
  RunStatus, succeeded, model_error, parse_error, policy_blocked, tool_error, step_limit, timeout,
  budget_exceeded, TraceWriter, load_trace,
}
use pan_agent.Trace.Written.{Entry, events_of, IsFramed, load_trace-render}
use pan_agent.Loop.Actions.{Action, final, tool_call, ParseFailure, value_error, type_error}
use pan_agent.Loop.{
  Task, RunResult, ToolOutcome, observed, policy_violation, raised, Env, State, Ended, completed,
  crashed, Round, stopped, again, result_payload, observation_payload, result_of, timed_out,
  calls_spent, finish, after_tool, use_tool, take_action, after_response, round, rounds, run,
}
use pan_agent.Loop.Recording.{
  is_tool_completed, IsRecording, lines-write, write-IsRecording, start-IsRecording, write-other,
}

-- The file of a run that has returned: the loader reads it, and it has a start event, as many
-- completed tool calls as the result has steps, and at last the result itself.
pub record IsFiled (result : RunResult) (trace : TraceWriter) : Type 0 where
  pub start : Fields
  pub middle : List Entry
  pub counted : count_if is_tool_completed middle ≡ result.steps
  pub loads :
      load_trace trace.lines
      ≡ ok (
          events_of result.run_id result.task_id 0 (
            record { event_type = "run_started"; payload = start }
            ∷ (middle
                ++ record {
                  event_type = "run_completed";
                  payload = field "result" (obj (result_payload result)) end;
                }
                  ∷ [])))

module _ {W : Type 0} (run_id task_id : String) where
  abbrev IsLogged : State W → Type 0
  IsLogged s = IsRecording run_id task_id s.steps s.trace

  abbrev pub EndsFiled : Ended W → Type 0
  EndsFiled (completed result trace world) =
      (result.run_id ≡ run_id) × (result.task_id ≡ task_id) × IsFiled result trace
  EndsFiled (crashed trace world) = Unit

  abbrev Files : Round W → Type 0
  Files (stopped ended) = EndsFiled ended
  Files (again s) = IsLogged s

  finish-Files :
      (s : State W) (status : RunStatus) (output error : Option String)
      → IsLogged s
      → Files (finish s status output error)
  unfolding finish
  finish-Files s status output error r =
      let result = result_of s status output error in
      let payload = field "result" (obj (result_payload result)) end in
      let first : Entry = record { event_type = "run_started"; payload = r.start } in
      let last : Entry = record { event_type = "run_completed"; payload = payload } in
      let framed : IsFramed first last status = record {
        result = result_payload result;
        starts = refl;
        ends = refl;
        carries = refl;
        known = unfold get in refl;
      } in
      (
        r.same_run,
        r.same_task,
        record {
          start = r.start;
          middle = r.middle;
          counted = r.counted;
          loads =
              ap load_trace (lines-write run_id task_id s.steps s.trace "run_completed" payload r)
              ∙ load_trace-render run_id task_id framed r.middle r.all_known
              ∙ ap₂ (λ a b. ok (events_of a b 0 (first ∷ (r.middle ++ last ∷ [])))) (sym r.same_run)
                  (sym r.same_task);
        },
      )

  after_tool-Files :
      (limits : RunLimits) (raw_response tool : String) (outcome : ToolOutcome) (s : State W)
      → IsLogged s
      → Files (after_tool limits raw_response tool outcome s)
  unfolding after_tool count_if
  after_tool-Files limits raw_response tool (policy_violation message) s r =
      finish-Files _ policy_blocked none (some message) (write-other run_id task_id _ refl refl r)
  after_tool-Files limits raw_response tool (raised message) s r =
      finish-Files _ tool_error none (some message) (write-other run_id task_id _ refl refl r)
  after_tool-Files limits raw_response tool (observed observation) s r =
      let entry : Entry = record {
        event_type = "tool_completed";
        payload = observation_payload observation (s.steps + 1) tool;
      } in
      let logged = write-IsRecording run_id task_id entry refl r in
      elim (Bool-cases (leb_ℤ limits.max_steps (pos (s.steps + 1)))) [
        | inl last ↦ rw last (finish-Files _ step_limit none _ logged)
        | inr more ↦ rw more logged
      ]

  use_tool-Files :
      (limits : RunLimits) (raw_response tool : String) (arguments : Fields)
      (found : Option (Fields → W → ToolOutcome × W)) (s : State W)
      → IsLogged s
      → Files (use_tool limits raw_response tool arguments found s)
  unfolding use_tool
  use_tool-Files limits raw_response tool arguments none s r =
      finish-Files _ tool_error none _ (write-other run_id task_id _ refl refl r)
  use_tool-Files limits raw_response tool arguments (some execute) s r =
      after_tool-Files limits raw_response tool (execute arguments s.world).0 _ r

  take_action-Files :
      (env : Env W) (limits : RunLimits) (raw_response : String)
      (action : Result ParseFailure Action) (s : State W)
      → IsLogged s
      → Files (take_action env limits raw_response action s)
  unfolding take_action
  take_action-Files env limits raw_response (err type_error) s r = tt
  take_action-Files env limits raw_response (err (value_error message)) s r =
      finish-Files s parse_error none (some message) r
  take_action-Files env limits raw_response (ok (final output)) s r =
      finish-Files s succeeded (some output) none r
  take_action-Files env limits raw_response (ok (tool_call tool arguments)) s r =
      use_tool-Files limits raw_response tool arguments (env.tools tool) s r

  after_response-Files :
      (env : Env W) (limits : RunLimits) (response : Result String String) (s : State W)
      → IsLogged s
      → Files (after_response env limits response s)
  unfolding after_response
  after_response-Files env limits (err message) s r =
      finish-Files s model_error none (some message) r
  after_response-Files env limits (ok raw_response) s r =
      take_action-Files env limits raw_response _ _ (write-other run_id task_id _ refl refl r)

  round-Files :
      (env : Env W) (limits : RunLimits) (started_at : ℤ) (s : State W)
      → IsLogged s
      → Files (round env limits started_at s)
  unfolding round
  round-Files env limits started_at s r =
      let (now, world) = env.monotonic s.world in
      elim (Bool-cases (timed_out limits started_at now)) [
        | inl late ↦ rw late (finish-Files _ timeout none _ r)
        | inr early ↦ elim (Bool-cases (calls_spent limits s.model_calls)) [
          | inl spent ↦ rw (early, spent) (finish-Files _ budget_exceeded none _ r)
          | inr left ↦
              rw (early, left) (after_response-Files env limits (env.respond s.context world).0 _ r)
        ]
      ]

  rounds-Files :
      (env : Env W) (limits : RunLimits) (fuel : ℕ) (started_at : ℤ) (s : State W) {ended : Ended W}
      → IsLogged s
      → rounds fuel env limits started_at s ≡ some ended
      → EndsFiled ended
  unfolding rounds
  rounds-Files env limits zero started_at s r h = cc
  rounds-Files env limits (suc fuel) started_at s {ended} r h =
      go (round env limits started_at s) refl (round-Files env limits started_at s r)
        (λ n files k. rounds-Files env limits fuel started_at n files k)
    where
      go :
          (found : Round W)
          → round env limits started_at s ≡ found
          → Files found
          → ((n : State W)
              → IsLogged n
              → rounds fuel env limits started_at n ≡ some ended
              → EndsFiled ended)
          → EndsFiled ended
      go (stopped other) e files ih =
          let k : some other ≡ some ended = rw (e, rounds) at h in
          let same : other ≡ ended = cc in subst EndsFiled same files
      go (again next) e files ih = ih next files (rw (e, rounds) at h)

-- Whatever the model and the tools do, when a run returns a result, the trace file that it leaves
-- is accepted by the loader, which reads back every event as it was written, in order: the start
-- of the run, then events among which as many are completed tool calls as the result has steps,
-- then the end of the run with the result itself.
pub run-load_trace :
    {W : Type 0} (env : Env W) (run_id : String) (task : Task) (limits : RunLimits) (world : W)
    {result : RunResult} {trace : TraceWriter} {world' : W}
    → run env run_id task limits world ≡ some (completed result trace world')
    → (result.run_id ≡ run_id) × (result.task_id ≡ task.task_id) × IsFiled result trace
unfolding run
run-load_trace env run_id task limits world h =
    rounds-Files run_id task.task_id env limits _ _ _ (start-IsRecording run_id task.task_id _) h
