-- ===== src/Runtime/Tests.antt =====
-- A runtime with one pack, whose model answers at once, and the theorems at its run. The world is the
-- number of clock readings.
use pan_agent.Base.{ℕ, Bool, ◌≡◌, refl, String, true, false, Option, none, some, [], ◌∷◌, keep}
use pan_agent.Base.Int.{min_ℤ}
use pan_agent.Base.Result.{ok, err}
use pan_agent.Base.Text.{codes, has_char, split, starts_with, text_eq}
use pan_agent.Base.Json.{str, obj, end, get, equals_text}
use pan_agent.Limits.{resolve_limits, validate_limits, effective_values}
use pan_agent.Paths.{validate_relative_workspace_path, parts}
use pan_agent.Loop.{
  run as loop_run, rounds, round, after_response, calls_spent, finish, take_action, timed_out,
}
use pan_agent.Snapshots.{
  symbolic_link, freeze_entries, freeze_entry, freeze_workspace, freeze_valid,
}
use pan_agent.Campaign.Types.{component_eq, pack_eq, evaluator_eq}
use pan_agent.Campaign.Summary.{attempt_failure_attribution, is_error_attribution}
use pan_agent.Runtime.{
  Outcome, run, run_prepared, start, stage_workspace, collect_tools, run_loop, after_loop, complete,
  complete_frozen, loop_env,
}
use pan_agent.Runtime.Judged.{evaluate_run, evaluation_of, settle_artifacts, check_verdict}
use pan_agent.Runtime.Types.{
  RunReport, report_passed, task_not_object, missing_fields, passed, not_run, error,
}
use pan_agent.Runtime.Evaluator.{
  returned, raised, evaluator_process_entry, answer, receive_answer, receive_ready, run_evaluator,
}
use pan_agent.Runtime.Checks.{
  validate_task_schema, check_task, check_required, required_names, item_names, absent,
  revalidate_runtime_adapters, revalidate_registered_pack, validate_compiled_spec, is_subset,
}
use pan_agent.Runtime.Hosting.{Host}
use pan_agent.Runtime.Passed.{IsEarned, run-IsEarned}
use pan_agent.Runtime.Attributed.{
  view, cause, is_evaluation_fault, attempt_failure_attribution-view,
}
use pan_agent.Runtime.Prepare.{prepare, find_pack, prepare_pack}
use pan_agent.Authority.{resolve_authority, settle_all, has_duplicates}
use pan_agent.Loop.Actions.{final_action, parse_action, parse_object}
use pan_agent.Runtime.Termination.{
  Signal, sigterm, sigkill, Killed, not_permitted, Child, terminate_evaluator_process,
}
use pan_agent.Runtime.Stopped.{IsMortal, terminate_evaluator_process-ends}
use pan_agent.Runtime.Examples.{
  provenance, schema, runtime, judgement, host_with, host, request, summary,
}

-- The run, with all that it calls
ran : Host ℕ String → Option (Outcome ℕ)
unfolding run loop_run prepare revalidate_runtime_adapters component_eq find_pack pack_eq
    prepare_pack revalidate_registered_pack validate_task_schema get equals_text check_task
    check_required required_names item_names absent keep validate_compiled_spec evaluator_eq
    is_subset resolve_limits validate_limits effective_values min_ℤ resolve_authority settle_all
    has_duplicates run_prepared start stage_workspace collect_tools run_loop rounds round
    final_action parse_action parse_object after_response calls_spent finish take_action timed_out
    validate_relative_workspace_path after_loop complete complete_frozen evaluate_run evaluation_of
    loop_env settle_artifacts freeze_entries freeze_entry freeze_workspace report_passed
    evaluator_process_entry has_char split starts_with text_eq parts answer receive_answer
    receive_ready run_evaluator check_verdict freeze_valid
ran h = run h runtime request 0

passes : summary (ran host) ≡ some (true, passed, 4)
unfolding ran
passes = refl

-- A workspace with a symbolic link is not frozen, and then not evaluated.
unfrozen :
    summary (ran (host_with ((codes "out.txt", symbolic_link) ∷ []) (returned judgement)))
    ≡ some (false, not_run, 5)
unfolding ran
unfrozen = refl

evaluator_fails : summary (ran (host_with [] (raised "KeyError" "x"))) ≡ some (false, error, 4)
unfolding ran
evaluator_fails = refl

bad_task : validate_task_schema (str "task") schema ≡ err task_not_object
unfolding validate_task_schema get equals_text check_task
bad_task = refl

no_question : validate_task_schema (obj end) schema ≡ err (missing_fields ("question" ∷ []))
unfolding validate_task_schema get equals_text check_task check_required required_names item_names
    absent keep
no_question = refl

abbrev first_of : Option (Outcome ℕ) → Option RunReport
first_of none = none
first_of (some outcome) = elim (outcome.result) [ err reason ↦ none | ok report ↦ some report ]

has_report :
    (outcome : Outcome ℕ) × (report : RunReport) × (run host runtime request 0 ≡ some outcome)
    × (outcome.result ≡ ok report)
    × (report_passed report ≡ true)
unfolding ran
has_report = (_, _, refl, refl, refl)

run-IsEarned_example : IsEarned host runtime has_report.1
run-IsEarned_example =
    run-IsEarned host runtime request 0 has_report.0 has_report.2 has_report.3 has_report.4

attempt_failure_attribution-view_example :
    (attempt_failure_attribution (view provenance has_report.1)
      ≡ cause has_report.1.result.status has_report.1.evaluation.status)
    × (is_error_attribution (attempt_failure_attribution (view provenance has_report.1))
        ≡ is_evaluation_fault has_report.1.result.status has_report.1.evaluation.status)
attempt_failure_attribution-view_example = attempt_failure_attribution-view provenance has_report.1

-- A child that ignores SIGTERM and whose group may not be signalled. The world is whether it lives.
abbrev stubborn : Child Bool
stubborn = record {
  is_alive = λ lives. lives;
  killpg = λ signal lives. (not_permitted, lives);
  send = λ signal lives. elim signal [ sigterm ↦ lives | sigkill ↦ false ];
  join = λ lives. lives;
}

stubborn-IsMortal : IsMortal stubborn
stubborn-IsMortal = record {
  by_group = λ world world' e. cc;
  not_found = λ world world' e. cc;
  by_itself = λ world. refl;
}

terminate_evaluator_process-ends_example :
    (terminate_evaluator_process stubborn true true true ≡ false)
    × ((other : Signal → Bool → Killed × Bool) (is_started : Bool)
        → terminate_evaluator_process (record stubborn { killpg = other }) is_started false true
          ≡ terminate_evaluator_process stubborn is_started false true)
terminate_evaluator_process-ends_example =
    terminate_evaluator_process-ends stubborn true true stubborn-IsMortal
