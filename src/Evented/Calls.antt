-- ===== src/Evented/Calls.antt =====
-- Lemmas on the log and on the `KeyError` in the tests on candidates and the execution of calls of
-- `AgentLoop.run`.
use pan_agent.Base.{String, true, false, Option, none, some, List, [], ◌∷◌}
use pan_agent.Limits.{RunLimits}
use pan_agent.Evented.Types.{
  ToolCall, Candidate, tool_call, tool_batch, final, malformed, ToolEnd, observed, untyped,
  interrupted, Activity, ended, observes, EventTool,
}
use pan_agent.Evented.Machine.{Agent, RunState, Exit, value, returned, raised, key_error, Part}
use pan_agent.Evented.Admission.{
  candidate_tool_calls, tool_error, stop_or, calls_error, admission_error,
}
use pan_agent.Evented.Batch.{
  exceeds_steps, Place, resumed, run_activity, tool_failed, complete_call, settle_call, tool_of,
  execute_call, execute_calls, run_calls, take_calls,
}
use pan_agent.Evented.Admitted.{IsCallable, AreAdmitted}
use pan_agent.Evented.Keeps.{
  the-Keeps, if-Keeps, terminal-Keeps, >>=-Keeps, Keeps, keeps_rules, keep-Keeps, Grows-refl, Good,
  Good-later, at_world, emit-Keeps,
}
use pan_agent.Evented.Parts.{cancelled-Keeps, check_signal-Keeps}

module _ {W : Type 0} (agent : Agent W) (run_id task_id : String) where
  tool_error-Keeps :
      (c : ToolCall) (tool : Option (EventTool W))
      → Keeps agent run_id task_id (tool_error agent c tool)
  unfolding tool_error
  tool_error-Keeps c none = search keeps_rules
  tool_error-Keeps c (some tool) = search keeps_rules depth 8

  stop-Keeps :
      (error : Option String) (more : Part W (Option String))
      → Keeps agent run_id task_id more
      → Keeps agent run_id task_id (stop_or agent error more)
  stop-Keeps none more keeps = keeps
  stop-Keeps (some message) more keeps = search keeps_rules

  calls_error-Keeps :
      (calls : List ToolCall) (used : List String)
      → Keeps agent run_id task_id (calls_error agent calls used)
  unfolding calls_error
  calls_error-Keeps [] used = search keeps_rules
  calls_error-Keeps (c ∷ calls) used =
      search (keeps_rules, tool_error-Keeps, stop-Keeps, calls_error-Keeps calls) depth 8

  pub admission_error-Keeps :
      (candidate : Candidate) (used : List String)
      → Keeps agent run_id task_id (admission_error agent candidate used)
  unfolding admission_error
  admission_error-Keeps (malformed message) used = search keeps_rules
  admission_error-Keeps (final content disposition reason_code _) used = search keeps_rules
  admission_error-Keeps (tool_call c _) used = search calls_error-Keeps
  admission_error-Keeps (tool_batch c d rest _) used = search calls_error-Keeps

module _ {W : Type 0} (agent : Agent W) (run_id task_id : String) (limits : RunLimits) where
  tool_failed-Keeps :
      {A : Type 0} (place : Place) (c : ToolCall) (message cause : String)
      → Keeps agent run_id task_id {A = A}
          (tool_failed agent run_id task_id limits place c message cause)
  unfolding tool_failed
  tool_failed-Keeps place c message cause = search keeps_rules

  complete_call-Keeps :
      (place : Place) (c : ToolCall) (cause observation : String) (facts failures : List String)
      → Keeps agent run_id task_id
          (complete_call agent run_id task_id limits place c cause observation facts failures)
  unfolding complete_call
  complete_call-Keeps place c cause observation facts failures =
      search (keeps_rules, keep-Keeps) depth 12

  settle_call-Keeps :
      (place : Place) (c : ToolCall) (started : String) (tool_end : ToolEnd) (cause : String)
      → Keeps agent run_id task_id
          (settle_call agent run_id task_id limits place c started tool_end cause)
  unfolding settle_call
  settle_call-Keeps place c started interrupted cause = search cancelled-Keeps
  settle_call-Keeps place c started (ToolEnd.raised message) cause = search tool_failed-Keeps
  settle_call-Keeps place c started (observed observation facts failures) cause =
      search (keeps_rules, check_signal-Keeps, complete_call-Keeps)
  settle_call-Keeps place c started untyped cause =
      search (keeps_rules, check_signal-Keeps, tool_failed-Keeps)

  tool_of-Keeps :
      (tool : EventTool W)
      → Keeps agent run_id task_id (tool_of agent run_id task_id limits (some tool))
  unfolding tool_of
  tool_of-Keeps tool = record { good = λ s. Grows-refl agent run_id task_id s }

  resumed-Good :
      {A : Type 0} (s : RunState W) (exit : Exit W String) (heard : String → Part W A)
      (refused : Part W A)
      → Good agent run_id task_id s exit
      → ((event_id : String) (s' : RunState W) → Good agent run_id task_id s' (heard event_id s'))
      → ((s' : RunState W) → Good agent run_id task_id s' (refused s'))
      → Good agent run_id task_id s (resumed agent run_id task_id limits exit heard refused)
  resumed-Good s (value event_id s') heard refused g h k =
      Good-later agent run_id task_id s s' (heard event_id s') g (h event_id s')
  resumed-Good s (raised e s') heard refused g h k =
      Good-later agent run_id task_id s s' (refused s') g (k s')
  resumed-Good s (returned result s') heard refused g h k = g
  resumed-Good s (key_error s') heard refused g h k = g

  run_activity-Keeps :
      (place : Place) (call_id : String) (activity : Activity W) (cause : String)
      → Keeps agent run_id task_id
          (run_activity agent run_id task_id limits place call_id activity cause)
  unfolding run_activity
  run_activity-Keeps place call_id (ended tool_end world) cause = record {
    good = λ s. at_world agent run_id task_id s world;
  }
  run_activity-Keeps place call_id (observes event world resume) cause = record {
    good = λ s.
        Good-later agent run_id task_id s (record s { world = world }) _
          (at_world agent run_id task_id s world)
          (resumed-Good (record s { world = world }) _ _ _
            ((emit-Keeps agent run_id task_id _).good (record s { world = world }))
            (λ event_id s'.
              (run_activity-Keeps place call_id (resume false s'.world) event_id).good s')
            (λ s'. (run_activity-Keeps place call_id (resume true s'.world) cause).good s'));
  }

  execute_call-Keeps :
      (place : Place) (c : ToolCall) (cause : String)
      → IsCallable agent c
      → Keeps agent run_id task_id (execute_call agent run_id task_id limits place c cause)
  unfolding execute_call
  execute_call-Keeps place c cause callable =
      rw (callable.found)
        (search (keeps_rules, tool_of-Keeps, run_activity-Keeps, settle_call-Keeps) depth 10)

  execute_calls-Keeps :
      (place : Place) (calls : List ToolCall) (used : List String) (cause : String)
      → AreAdmitted agent calls used
      → Keeps agent run_id task_id (execute_calls agent run_id task_id limits place calls cause)
  unfolding execute_calls
  execute_calls-Keeps place [] used cause admitted = search keeps_rules
  execute_calls-Keeps place (c ∷ calls) used cause admitted =
      >>=-Keeps agent run_id task_id (execute_call-Keeps place c cause admitted.2) (λ made.
        >>=-Keeps agent run_id task_id
          (execute_calls-Keeps place calls (c.call_id ∷ used) made.event_id admitted.3)
          (λ more. search keeps_rules))

  run_calls-Keeps :
      (place : Place) (candidate : Candidate) (used : List String) (accepted : String)
      → AreAdmitted agent (candidate_tool_calls candidate) used
      → Keeps agent run_id task_id (run_calls agent run_id task_id limits place candidate accepted)
  unfolding run_calls
  run_calls-Keeps place candidate used accepted admitted =
      let calls-Keeps : (event : String)
          → Keeps agent run_id task_id (
              execute_calls agent run_id task_id limits place (candidate_tool_calls candidate)
                event) =
        λ event. execute_calls-Keeps place (candidate_tool_calls candidate) used event admitted in
      search (keeps_rules, keep-Keeps, calls-Keeps) depth 10

  pub take_calls-Keeps :
      (place : Place) (candidate : Candidate) (used : List String) (accepted : String)
      → AreAdmitted agent (candidate_tool_calls candidate) used
      → Keeps agent run_id task_id (take_calls agent run_id task_id limits place candidate accepted)
  unfolding take_calls
  take_calls-Keeps place candidate used accepted admitted =
      >>=-Keeps agent run_id task_id (the-Keeps agent run_id task_id _) (λ steps.
        if-Keeps agent run_id task_id
          (exceeds_steps agent run_id task_id limits steps (candidate_tool_calls candidate))
          (terminal-Keeps agent run_id task_id _ _ _ _)
          (run_calls-Keeps place candidate used accepted admitted))
