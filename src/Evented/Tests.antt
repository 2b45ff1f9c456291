-- ===== src/Evented/Tests.antt =====
-- A run whose gateway asks for the tool "echo", once with an event of the tool's own, and then
-- answers. The world is the number of things that happened.
use pan_agent.Base.{ℕ, ◌≡◌, refl, Option, none, some, []}
use pan_agent.Base.Int.{max_ℤ}
use pan_agent.Base.Json.{str, end, field, get, equals_text}
use pan_agent.EventLog.{
  empty, is_caused, check_append, check_place, next_offset, add_event, place_event, append_checked,
  append_after, append,
}
use pan_agent.EventLog.Drafts.{
  is_one_of, option_eq, compaction_phase_of, check_compaction, is_compaction_end, is_linked,
  check_draft, check_status, check_terminal,
}
use pan_agent.Evented.Types.{EventedRunStatus, Candidate, tool_call, EventedRunResult}
use pan_agent.Evented.Machine.{
  pure, ◌>>=◌, the, update, call, written, emit, terminal, cancelled, check_signal, value, RunState,
}
use pan_agent.Evented.{RunEnd, result, run, turn, turns, start, first_state}
use pan_agent.Evented.Taking.{
  check_budgets, take_final, take_candidate, admit, note_retry, take_settled, take_exchange,
}
use pan_agent.Evented.Admission.{
  is_in, has_only, tool_error, calls_error, admission_error, candidate_tool_calls,
}
use pan_agent.Evented.Turn.{projection_failed, emit_planned, exhausted, settle_projection}
use pan_agent.Evented.Exchange.{
  project_context, start_exchange, settle_exchange, attempt, record_failed_exchange, after_retry,
  recover, after_exchange, obtain,
}
use pan_agent.Evented.Batch.{
  run_activity, tool_failed, complete_call, settle_call, tool_of, execute_call, execute_calls,
  run_calls, exceeds_steps, take_calls,
}
use pan_agent.Evented.Admitted.{AreAdmitted, admission_error-none}
use pan_agent.Evented.Fits.{IsWithin}
use pan_agent.Evented.Budget.{evented_run-IsWithin}
use pan_agent.Evented.Ending.{evented_run_total}
use pan_agent.Evented.Examples.{no_reasoning, agent, task, limits, summary}

evented_run_total_example :
    (run_end : RunEnd ℕ) × (run agent "r" task limits empty 0 ≡ some run_end)
evented_run_total_example = evented_run_total agent "r" task limits empty 0

-- The run completes after one step and three model calls, and its log has 23 events.
run_completes :
    summary (run agent "r" task limits empty 0) ≡ some (EventedRunStatus.completed, 1, 3, 23)
unfolding is_one_of option_eq compaction_phase_of check_compaction is_compaction_end is_linked
    check_draft check_status check_terminal is_caused check_append check_place next_offset add_event
    place_event append_checked append_after append get equals_text max_ℤ check_budgets take_final
    take_candidate admit note_retry take_settled take_exchange turn turns start run pure ◌>>=◌ the
    update call written emit terminal cancelled check_signal is_in has_only tool_error calls_error
    admission_error projection_failed emit_planned exhausted settle_projection project_context
    start_exchange settle_exchange attempt record_failed_exchange after_retry recover after_exchange
    obtain run_activity tool_failed complete_call settle_call tool_of execute_call execute_calls
    run_calls exceeds_steps take_calls
run_completes = refl

abbrev echo_call : Candidate
echo_call =
    tool_call
      (record { call_id = "1"; tool_name = "echo"; arguments = field "text" (str "hello") end })
      no_reasoning

echo_call_admitted :
    admission_error agent echo_call [] (first_state agent "r" task limits empty 0)
    ≡ value none (first_state agent "r" task limits empty 0)
unfolding admission_error calls_error tool_error pure ◌>>=◌ call has_only is_in get
echo_call_admitted = refl

admission_error-none_example : AreAdmitted agent (candidate_tool_calls echo_call) []
admission_error-none_example =
    admission_error-none agent echo_call [] (first_state agent "r" task limits empty 0)
      (first_state agent "r" task limits empty 0) echo_call_admitted

-- The result of a run and its last state; those of no run are the first state's.
abbrev the_result : Option (RunEnd ℕ) → EventedRunResult
the_result (some (result r s)) = r
the_result _ = record {
  run_id = "";
  task_id = "";
  status = EventedRunStatus.cancelled;
  output = none;
  steps = 9;
  model_calls = 9;
  error = none;
}

abbrev the_state : Option (RunEnd ℕ) → RunState ℕ
the_state (some (result r s)) = s
the_state _ = first_state agent "r" task limits empty 0

abbrev outcome : Option (RunEnd ℕ)
outcome = run agent "r" task limits empty 0

run_returns :
    run agent "r" task limits empty 0 ≡ some (result (the_result outcome) (the_state outcome))
unfolding is_one_of option_eq compaction_phase_of check_compaction is_compaction_end is_linked
    check_draft check_status check_terminal is_caused check_append check_place next_offset add_event
    place_event append_checked append_after append get equals_text max_ℤ check_budgets take_final
    take_candidate admit note_retry take_settled take_exchange turn turns start run pure ◌>>=◌ the
    update call written emit terminal cancelled check_signal is_in has_only tool_error calls_error
    admission_error projection_failed emit_planned exhausted settle_projection project_context
    start_exchange settle_exchange attempt record_failed_exchange after_retry recover after_exchange
    obtain run_activity tool_failed complete_call settle_call tool_of execute_call execute_calls
    run_calls exceeds_steps take_calls
run_returns = refl

evented_run-IsWithin_example :
    IsWithin limits (the_result outcome).steps (the_result outcome).model_calls
evented_run-IsWithin_example =
    evented_run-IsWithin agent "r" task limits empty 0 {r = the_result outcome}
      {s = the_state outcome} run_returns
