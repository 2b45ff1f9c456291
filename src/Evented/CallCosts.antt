-- ===== src/Evented/CallCosts.antt =====
-- Lemmas on the steps that the tests on candidates and the calls of an accepted turn may add.
use mathlib.Core.Path.{subst₂}
use pan_agent.Base.{
  ℕ, suc, ◌+◌, ◌≡◌, String, true, false, Option, none, some, List, [], ◌∷◌, length, arith,
}
use pan_agent.Limits.{RunLimits}
use pan_agent.Evented.Types.{
  interrupted, ToolCall, Candidate, tool_call, tool_batch, final, malformed, ToolEnd, observed,
  untyped, Activity, ended, observes, EventTool,
}
use pan_agent.Evented.Machine.{Agent, RunState, Exit, value, returned, raised, key_error, Part}
use pan_agent.Evented.Admission.{
  candidate_tool_calls, tool_error, stop_or, calls_error, admission_error,
}
use pan_agent.Evented.Batch.{
  Place, resumed, run_activity, tool_failed, complete_call, settle_call, tool_of, execute_call,
  execute_calls, run_calls,
}
use pan_agent.Evented.Costs.{
  Costs, Spent, Spent-still, Costs-add, Costs-rest, Costs-first, costs_rules, step-Costs,
  emit-Costs, pure-Costs,
}
use pan_agent.Evented.PartCosts.{cancelled-Costs, check_signal-Costs}

one_more : (n : ℕ) → 1 + n ≡ suc n
one_more n = omega arith

no_more : 0 + 0 ≡ 0
no_more = omega arith

module _ {W : Type 0} (agent : Agent W) where
  tool_error-Costs :
      (c : ToolCall) (tool : Option (EventTool W)) → Costs 0 0 (tool_error agent c tool)
  unfolding tool_error
  tool_error-Costs c none = search costs_rules
  tool_error-Costs c (some tool) = search costs_rules depth 8

  stop_or-Costs :
      (error : Option String) (more : Part W (Option String))
      → Costs 0 0 more
      → Costs 0 0 (stop_or agent error more)
  stop_or-Costs none more costs = costs
  stop_or-Costs (some message) more costs = pure-Costs (some message)

  calls_error-Costs :
      (calls : List ToolCall) (used : List String) → Costs 0 0 (calls_error agent calls used)
  unfolding calls_error
  calls_error-Costs [] used = search costs_rules
  calls_error-Costs (c ∷ calls) used =
      search (costs_rules, tool_error-Costs, stop_or-Costs, calls_error-Costs calls) depth 8

  pub admission_error-Costs :
      (candidate : Candidate) (used : List String)
      → Costs 0 0 (admission_error agent candidate used)
  unfolding admission_error
  admission_error-Costs (malformed message) used = search costs_rules
  admission_error-Costs (final content disposition reason_code _) used = search costs_rules
  admission_error-Costs (tool_call c _) used = calls_error-Costs (c ∷ []) used
  admission_error-Costs (tool_batch c d rest _) used = calls_error-Costs (c ∷ d ∷ rest) used

module _ {W : Type 0} (agent : Agent W) (run_id task_id : String) (limits : RunLimits) where
  tool_failed-Costs :
      {A : Type 0} {i j : ℕ} (place : Place) (c : ToolCall) (message cause : String)
      → Costs i j (tool_failed agent run_id task_id limits {A = A} place c message cause)
  unfolding tool_failed
  tool_failed-Costs place c message cause = search costs_rules

  complete_call-Costs :
      (place : Place) (c : ToolCall) (cause observation : String) (facts failures : List String)
      → Costs 1 0
          (complete_call agent run_id task_id limits place c cause observation facts failures)
  unfolding complete_call
  complete_call-Costs place c cause observation facts failures =
      Costs-first step-Costs (λ _. search costs_rules depth 12)

  settle_call-Costs :
      (place : Place) (c : ToolCall) (started : String) (tool_end : ToolEnd) (cause : String)
      → Costs 1 0 (settle_call agent run_id task_id limits place c started tool_end cause)
  unfolding settle_call
  settle_call-Costs place c started interrupted cause = search cancelled-Costs
  settle_call-Costs place c started (ToolEnd.raised message) cause = search tool_failed-Costs
  settle_call-Costs place c started (observed observation facts failures) cause =
      Costs-rest (check_signal-Costs agent run_id task_id (some cause))
        (λ _. complete_call-Costs place c cause observation facts failures)
  settle_call-Costs place c started untyped cause =
      Costs-rest (check_signal-Costs agent run_id task_id (some cause))
        (λ _. tool_failed-Costs place c "tool observation must be text" started)

  tool_of-Costs :
      (found : Option (EventTool W)) → Costs 0 0 (tool_of agent run_id task_id limits found)
  unfolding tool_of
  tool_of-Costs none = record { spent = λ s. tt }
  tool_of-Costs (some tool) = record { spent = λ s. (omega arith, omega arith) }

  resumed-Spent :
      {A : Type 0} (s : RunState W) (exit : Exit W String) (heard : String → Part W A)
      (unheard : Part W A)
      → Spent 0 0 s exit
      → ((event_id : String) (s' : RunState W) → Spent 0 0 s' (heard event_id s'))
      → ((s' : RunState W) → Spent 0 0 s' (unheard s'))
      → Spent 0 0 s (resumed agent run_id task_id limits exit heard unheard)
  resumed-Spent s (value event_id s') heard unheard g h k =
      Spent-still s s' (heard event_id s') g (h event_id s')
  resumed-Spent s (raised e s') heard unheard g h k = Spent-still s s' (unheard s') g (k s')
  resumed-Spent s (returned r s') heard unheard g h k = g
  resumed-Spent s (key_error s') heard unheard g h k = tt

  run_activity-Costs :
      (place : Place) (call_id : String) (activity : Activity W) (cause : String)
      → Costs 0 0 (run_activity agent run_id task_id limits place call_id activity cause)
  unfolding run_activity
  run_activity-Costs place call_id (ended tool_end world) cause = record {
    spent = λ s. (omega arith, omega arith);
  }
  run_activity-Costs place call_id (observes event world resume) cause = record {
    spent = λ s.
        Spent-still s (record s { world = world }) _ (omega arith, omega arith)
          (resumed-Spent (record s { world = world }) _ _ _
            ((emit-Costs agent run_id _).spent (record s { world = world }))
            (λ event_id s'.
              (run_activity-Costs place call_id (resume false s'.world) event_id).spent s')
            (λ s'. (run_activity-Costs place call_id (resume true s'.world) cause).spent s'));
  }

  execute_call-Costs :
      (place : Place) (c : ToolCall) (cause : String)
      → Costs 1 0 (execute_call agent run_id task_id limits place c cause)
  unfolding execute_call
  execute_call-Costs place c cause =
      search (costs_rules, tool_of-Costs, run_activity-Costs, settle_call-Costs) depth 10

  execute_calls-Costs :
      (place : Place) (calls : List ToolCall) (cause : String)
      → Costs (length calls) 0 (execute_calls agent run_id task_id limits place calls cause)
  unfolding execute_calls
  execute_calls-Costs place [] cause = pure-Costs []
  execute_calls-Costs place (c ∷ calls) cause =
      subst₂ (λ i j. Costs i j (execute_calls agent run_id task_id limits place (c ∷ calls) cause))
        (one_more (length calls)) no_more
        (Costs-add (execute_call-Costs place c cause) (λ made.
          Costs-first (execute_calls-Costs place calls made.event_id) (λ more. search costs_rules)))

  pub run_calls-Costs :
      (place : Place) (candidate : Candidate) (accepted : String)
      → Costs
          (length (candidate_tool_calls candidate))
          0
          (run_calls agent run_id task_id limits place candidate accepted)
  unfolding run_calls
  run_calls-Costs place candidate accepted = search (costs_rules, execute_calls-Costs) depth 10
