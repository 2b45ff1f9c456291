-- ===== src/Evented/Executing.antt =====
-- Lemmas on the tests on a candidate and the execution of its calls by `AgentLoop.run`, against the
-- tests of the log.
use pan_agent.Base.{◌≡◌, refl, String, Option, none, some, List, [], ◌∷◌, inl}
use pan_agent.Limits.{RunLimits}
use pan_agent.EventLog.Journal.{IsIn}
use pan_agent.Evented.Types.{
  ToolCall, Candidate, tool_call, tool_batch, final, malformed, ToolEnd, observed, untyped,
  interrupted, EventTool,
}
use pan_agent.Evented.Machine.{Agent, Part, ◌>>=◌}
use pan_agent.Evented.Admission.{find_tool, tool_error, stop_or, calls_error, admission_error}
use pan_agent.Evented.Batch.{
  Place, CallRecord, tool_failed, complete_call, settle_call, tool_of, execute_call, execute_calls,
  run_calls, take_calls,
}
use pan_agent.Evented.Tame.{IsTame}
use pan_agent.Evented.Serves.{Serves, nothing, >>=-Serves}
use pan_agent.Evented.Steps.{the-Serves, named-Serves}
use pan_agent.Evented.Emits.{emit-Serves, serves_rules}
use pan_agent.Evented.Serving.{cancelled-Serves, check_signal-Serves}
use pan_agent.Evented.Hearing.{run_activity-Serves}

-- The last event of an executed call
abbrev pub event_of : CallRecord → List String
event_of made = made.event_id ∷ []

module _ {W : Type 0} (agent : Agent W) (run_id : String) where
  tool_error-Serves :
      {known : List String} (c : ToolCall) (tool : Option (EventTool W))
      → Serves run_id known nothing (tool_error agent c tool)
  unfolding tool_error
  tool_error-Serves c none = search serves_rules
  tool_error-Serves c (some tool) = search serves_rules depth 8

  stop-Serves :
      {known : List String} (error : Option String) (more : Part W (Option String))
      → Serves run_id known nothing more
      → Serves run_id known nothing (stop_or agent error more)
  stop-Serves none more serves = serves
  stop-Serves (some message) more serves = search serves_rules

  calls_error-Serves :
      {known : List String} (calls : List ToolCall) (used : List String)
      → Serves run_id known nothing (calls_error agent calls used)
  unfolding calls_error
  calls_error-Serves [] used = search serves_rules
  calls_error-Serves {known = known} (c ∷ calls) used =
      search
        (serves_rules, tool_error-Serves, stop-Serves, calls_error-Serves {known = known} calls)
        depth 8

  pub admission_error-Serves :
      {known : List String} (candidate : Candidate) (used : List String)
      → Serves run_id known nothing (admission_error agent candidate used)
  unfolding admission_error
  admission_error-Serves (malformed message) used = search serves_rules
  admission_error-Serves (final content disposition reason_code _) used = search serves_rules
  admission_error-Serves (tool_call c _) used = search calls_error-Serves
  admission_error-Serves (tool_batch c d rest _) used = search calls_error-Serves

module _ {W : Type 0} (agent : Agent W) (run_id task_id : String) (limits : RunLimits)
    (tame : IsTame agent) where
  tool_failed-Serves :
      {A : Type 0} {known : List String} {names : A → List String} (place : Place) (c : ToolCall)
      (message cause : String)
      → IsIn cause known
      → Serves run_id known names (tool_failed agent run_id task_id limits place c message cause)
  unfolding tool_failed
  tool_failed-Serves place c message cause caused = search serves_rules depth 8

  complete_call-Serves :
      {known : List String} (place : Place) (c : ToolCall) (cause observation : String)
      (facts failures : List String)
      → IsIn cause known
      → Serves run_id known event_of
          (complete_call agent run_id task_id limits place c cause observation facts failures)
  unfolding complete_call
  complete_call-Serves place c cause observation facts failures caused =
      search serves_rules depth 14 fits 4000

  settle_call-Serves :
      {known : List String} (place : Place) (c : ToolCall) (started : String) (tool_end : ToolEnd)
      (cause : String)
      → IsIn started known
      → IsIn cause known
      → Serves run_id known event_of
          (settle_call agent run_id task_id limits place c started tool_end cause)
  unfolding settle_call
  settle_call-Serves place c started interrupted cause first caused = search cancelled-Serves
  settle_call-Serves place c started (ToolEnd.raised message) cause first caused =
      search tool_failed-Serves
  settle_call-Serves place c started (observed observation facts failures) cause first caused =
      search (serves_rules, check_signal-Serves, complete_call-Serves)
  settle_call-Serves place c started untyped cause first caused =
      search (serves_rules, check_signal-Serves, tool_failed-Serves)

  -- A tool that was found, and what follows with it
  found-Serves :
      {B : Type 0} {known : List String} {names : B → List String} (found : Option (EventTool W))
      (k : EventTool W → Part W B)
      → ((tool : EventTool W) → found ≡ some tool → Serves run_id known names (k tool))
      → Serves run_id known names (tool_of agent run_id task_id limits found >>= k)
  unfolding tool_of ◌>>=◌
  found-Serves none k rest = record { served = λ s live knows. tt }
  found-Serves (some tool) k rest = record {
    served = λ s live knows. (rest tool refl).served s live knows;
  }

  execute_call-Serves :
      {known : List String} (place : Place) (c : ToolCall) (cause : String)
      → IsIn cause known
      → Serves run_id known event_of (execute_call agent run_id task_id limits place c cause)
  unfolding execute_call
  execute_call-Serves place c cause caused =
      named-Serves run_id _ _ (emit-Serves agent run_id _ refl caused) (λ started.
        found-Serves (find_tool agent agent.tools c.tool_name) _ (λ tool found.
          the-Serves run_id _ _ (λ s.
            search
              (
                serves_rules,
                run_activity-Serves,
                settle_call-Serves,
                tame.quiet c.tool_name tool found c.arguments s.world,
              )
              depth 8)))

  execute_calls-Serves :
      {known : List String} (place : Place) (calls : List ToolCall) (cause : String)
      → IsIn cause known
      → Serves run_id known nothing (execute_calls agent run_id task_id limits place calls cause)
  unfolding execute_calls
  execute_calls-Serves place [] cause caused = search serves_rules
  execute_calls-Serves place (c ∷ calls) cause caused =
      >>=-Serves run_id event_of (execute_call-Serves place c cause caused) (λ made.
        >>=-Serves run_id nothing (execute_calls-Serves place calls made.event_id (inl refl))
          (λ more. search serves_rules))

  run_calls-Serves :
      {known : List String} (place : Place) (candidate : Candidate) (accepted : String)
      → IsIn accepted known
      → Serves run_id known nothing (run_calls agent run_id task_id limits place candidate accepted)
  unfolding run_calls
  run_calls-Serves place candidate accepted caused =
      search (serves_rules, execute_calls-Serves) depth 12

  pub take_calls-Serves :
      {known : List String} (place : Place) (candidate : Candidate) (accepted : String)
      → IsIn accepted known
      → Serves run_id known nothing
          (take_calls agent run_id task_id limits place candidate accepted)
  unfolding take_calls
  take_calls-Serves place candidate accepted caused =
      search (serves_rules, run_calls-Serves) depth 8
