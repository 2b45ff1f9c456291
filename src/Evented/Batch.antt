-- ===== src/Evented/Batch.antt =====
-- workspace_agent_harness/evented.py: how `AgentLoop.run` executes the calls of an accepted turn.
use pan_agent.Base.{
  ℕ, ◌+◌, String, Bool, true, false, Option, none, some, List, [], ◌∷◌, ◌++◌, map, length,
  if◌then◌else◌,
}
use pan_agent.Base.Int.{pos, ltb_ℤ}
use pan_agent.Base.Json.{str, obj, dict, merge, texts, field}
use pan_agent.Limits.{RunLimits}
use pan_agent.EventLog.Drafts.{Draft}
use pan_agent.Evented.Types.{
  EventedRunStatus, ToolCall, Candidate, CanonicalMessage, assistant_calls, tool_result, ToolEnd,
  observed, untyped, interrupted, Activity, ended, observes, EventTool,
}
use pan_agent.Evented.Machine.{
  Agent, Exit, value, returned, raised, key_error, Part, plain, pure, ◌>>=◌, ◌>>◌, the, update,
  emit, fail, cancelled, check_signal,
}
use pan_agent.Evented.Admission.{
  candidate_tool_calls, candidate_material, candidate_reasoning, find_tool,
}

-- The ids that the events of one accepted candidate share.
pub record Place : Type 0 where
  pub turn_id : String
  pub exchange_id : String
  pub candidate_id : Option String

abbrev pub at_place : Place → Draft → Draft
at_place place draft = record draft {
  turn_id = some place.turn_id;
  exchange_id = some place.exchange_id;
  candidate_id = place.candidate_id;
}

abbrev pub at_call : Place → String → Draft → Draft
at_call place call_id draft = record (at_place place draft) { tool_call_id = some call_id }

-- What one executed call adds to the history group of its turn.
pub record CallRecord : Type 0 where
  pub message : CanonicalMessage
  pub event_id : String
  pub facts : List String
  pub failures : List String

-- tool_calls[0].call_id if len(tool_calls) == 1
abbrev only_id : List ToolCall → Option String
only_id (c ∷ []) = some c.call_id
only_id _ = none

abbrev message_type : List ToolCall → String
message_type (c ∷ []) = "assistant_tool_call"
message_type _ = "assistant_tool_call_batch"

module _ {W : Type 0} (agent : Agent W) (run_id task_id : String) (limits : RunLimits) where
  -- What follows a call of the observer: the event was written, or an error was raised.
  abbrev pub resumed : {A : Type 0} → Exit W String → (String → Part W A) → Part W A → Exit W A
  resumed (value event_id s) heard refused = heard event_id s
  resumed (raised e s) heard refused = refused s
  resumed (returned result s) heard refused = returned result s
  resumed (key_error s) heard refused = key_error s

  -- `observe_tool_lifecycle`, as the tool calls it: the tool learns whether it raised. The result is
  -- the end of the tool and the lifecycle cause.
  unfoldable pub run_activity : Place → String → Activity W → String → Part W (ToolEnd × String)
  run_activity place call_id (ended tool_end world) cause s =
      value (tool_end, cause) (record s { world = world })
  run_activity place call_id (observes event world resume) cause s =
      resumed
        (emit agent run_id
          (at_call place call_id
            (record (plain event.event_type event.phase (some cause) event.payload) {
              visibility = event.visibility;
            }))
          (record s { world = world }))
        (λ event_id s'. run_activity place call_id (resume false s'.world) event_id s')
        (λ s'. run_activity place call_id (resume true s'.world) cause s')

  -- "tool.execution_failed"
  unfoldable pub tool_failed : {A : Type 0} → Place → ToolCall → String → String → Part W A
  tool_failed place c message cause = do
    event ← emit agent run_id (
        at_call place c.call_id (
          plain "tool.execution_failed" "failed" (some cause)
            (dict (("tool_name", str c.tool_name) ∷ ("error", str message) ∷ []))))
    fail agent run_id task_id EventedRunStatus.tool_error message event

  -- An observation: a step, and the result in the history.
  unfoldable pub complete_call :
      Place → ToolCall → String → String → List String → List String → Part W CallRecord
  complete_call place c cause observation facts failures = do
    update (λ s. record s { steps = s.steps + 1 })
    completed ← emit agent run_id (
        at_call place c.call_id (
          plain "tool.execution_completed" "accepted" (some cause) (
            dict (
              ("tool_name", str c.tool_name)
              ∷ ("observation", str observation)
              ∷ ("semantic_facts", texts facts)
              ∷ ("semantic_failures", texts failures)
              ∷ []))))
    let message = tool_result c.call_id c.tool_name observation
    update (λ s. record s { conversation = s.conversation ++ message ∷ [] })
    identity ← the (λ s. agent.history_identity s.conversation)
    event ← emit agent run_id (
        at_call place c.call_id (
          plain "history.advanced" "accepted" (some completed) (
            dict (
              ("message_type", str "tool_result")
              ∷ ("call_id", str c.call_id)
              ∷ ("tool_name", str c.tool_name)
              ∷ ("content", str observation)
              ∷ ("semantic_facts", texts facts)
              ∷ ("semantic_failures", texts failures)
              ∷ ("history_identity", str identity)
              ∷ []))))
    update (λ s. record s { last_event = some event })
    pure (record { message = message; event_id = event; facts = facts; failures = failures })

  -- How the tool has ended, with the event of its start and the lifecycle cause.
  unfoldable pub settle_call : Place → ToolCall → String → ToolEnd → String → Part W CallRecord
  settle_call place c started interrupted cause = cancelled agent run_id task_id (some cause)
  settle_call place c started (ToolEnd.raised message) cause = tool_failed place c message cause
  settle_call place c started (observed observation facts failures) cause = do
    check_signal agent run_id task_id (some cause)
    complete_call place c cause observation facts failures
  settle_call place c started untyped cause = do
    check_signal agent run_id task_id (some cause)
    tool_failed place c "tool observation must be text" started

  -- self._tools[call.tool_name]
  unfoldable pub tool_of : Option (EventTool W) → Part W (EventTool W)
  tool_of none s = key_error s
  tool_of (some tool) s = value tool s

  unfoldable pub execute_call : Place → ToolCall → String → Part W CallRecord
  execute_call place c cause = do
    started ← emit agent run_id (
        at_call place c.call_id (
          plain "tool.execution_started" "candidate" (some cause)
            (dict (("tool_name", str c.tool_name) ∷ ("arguments", obj c.arguments) ∷ []))))
    tool ← tool_of (find_tool agent agent.tools c.tool_name)
    activity ← the (λ s. tool.execute c.arguments s.world)
    (tool_end, lifecycle_cause) ← run_activity place c.call_id activity started
    settle_call place c started tool_end lifecycle_cause

  -- The loop over the calls of the turn.
  unfoldable pub execute_calls : Place → List ToolCall → String → Part W (List CallRecord)
  execute_calls place [] cause = pure []
  execute_calls place (c ∷ calls) cause = do
    made ← execute_call place c cause
    more ← execute_calls place calls made.event_id
    pure (made ∷ more)

  -- What stays of a turn with tool calls once it is accepted.
  unfoldable pub run_calls : Place → Candidate → String → Part W (Unit {0})
  run_calls place candidate accepted = do
    let calls = candidate_tool_calls candidate
    let message = assistant_calls calls (candidate_reasoning candidate)
    update (λ s. record s {
      used_call_ids = map (λ (c : ToolCall). c.call_id) calls ++ s.used_call_ids;
      conversation = s.conversation ++ message ∷ [];
    })
    identity ← the (λ s. agent.history_identity s.conversation)
    event ←
        emit agent run_id
          (record (at_place place (
            plain "history.advanced" "accepted" (some accepted) (
              merge (field "message_type" (str (message_type calls)) (candidate_material candidate))
                (dict (("history_identity", str identity) ∷ []))))) {
                  tool_call_id = only_id calls;
                })
    made ← execute_calls place calls event
    update (λ s. record s {
      history_groups =
          s.history_groups
          ++ record {
            call = message;
            results = map (λ (m : CallRecord). m.message) made;
            call_event_id = event;
            result_event_ids = map (λ (m : CallRecord). m.event_id) made;
            facts = map (λ (m : CallRecord). m.facts) made;
            failures = map (λ (m : CallRecord). m.failures) made;
          }
            ∷ [];
    })

  -- steps + len(tool_calls) > limits.max_steps
  unfoldable pub exceeds_steps : ℕ → List ToolCall → Bool
  exceeds_steps steps calls = ltb_ℤ limits.max_steps (pos (steps + length calls))

  unfoldable pub take_calls : Place → Candidate → String → Part W (Unit {0})
  take_calls place candidate accepted = do
    steps ← the (λ s. s.steps)
    if exceeds_steps steps (candidate_tool_calls candidate)
        then fail agent run_id task_id EventedRunStatus.step_limit
            "tool-call turn exceeds the remaining step budget" accepted
        else run_calls place candidate accepted
