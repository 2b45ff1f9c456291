-- ===== src/Runtime/Attributed.antt =====
-- workspace_agent_harness/__init__.py: what an `EvaluationCampaign` reads of a `RunReport`, with the usage that
-- `GeneralAgentRuntime.run` reports, and to what it attributes a failure.
use Prim.Native.String.{◌++◌ as ◌<>◌}
use pan_agent.Base.{
  String, ◌≡◌, refl, Bool, true, false, ◌&&◌, Option, none, some, str_eq, if◌then◌else◌,
}
use pan_agent.Trace.{
  RunStatus, status_value, succeeded, model_error, parse_error, tool_error, step_limit, timeout,
  budget_exceeded, policy_blocked, runtime_error,
}
use pan_agent.Campaign.Types.{Report, RunUsage, run_usage, RuntimeProvenance}
use pan_agent.Campaign.Summary.{
  attempt_failure_attribution, failed_attribution, evaluation_attribution, is_error_attribution,
}
use pan_agent.Runtime.Types.{
  RunReport, report_passed, is_succeeded, is_passed_status, EvaluationStatus, evaluation_value,
  passed, failed, error, not_run,
}

-- The `RunUsage` of a report: tokens and costs are not observed.
abbrev pub usage_of : RunReport → RunUsage
usage_of report = record {
  wall_time_seconds = report.wall_time_seconds;
  model_requests = report.result.model_calls;
  input_tokens = none;
  output_tokens = none;
  cache_read_tokens = none;
  cache_write_tokens = none;
  tool_calls = report.result.steps;
  cost_usd = none;
  cost_source = none;
}

-- A `RunReport` as the campaign reads it
unfoldable pub view : RuntimeProvenance → RunReport → Report
view provenance report = record {
  passed = report_passed report;
  result_status = some (status_value report.result.status);
  evaluation_status = some (evaluation_value report.evaluation.status);
  usage = run_usage (usage_of report);
  provenance = some provenance;
  evaluator = some report.evaluation.evaluator;
}

-- The cause of a failure by the two statuses of a run
abbrev pub cause : RunStatus → EvaluationStatus → Option String
cause succeeded passed = none
cause succeeded failed = some "evaluation.failed"
cause succeeded error = some "evaluation.error"
cause succeeded not_run = some "evaluation.not_run"
cause model_error evaluation = some "execution.model_error"
cause parse_error evaluation = some "execution.parse_error"
cause tool_error evaluation = some "execution.tool_error"
cause step_limit evaluation = some "execution.step_limit"
cause timeout evaluation = some "execution.timeout"
cause budget_exceeded evaluation = some "execution.budget_exceeded"
cause policy_blocked evaluation = some "execution.policy_blocked"
cause runtime_error evaluation = some "execution.runtime_error"

-- The run was executed, and its evaluation is at fault.
abbrev pub is_evaluation_fault : RunStatus → EvaluationStatus → Bool
is_evaluation_fault succeeded error = true
is_evaluation_fault succeeded not_run = true
is_evaluation_fault _ _ = false

-- What `attempt_failure_attribution` computes from the two statuses
abbrev attribution : RunStatus → EvaluationStatus → Option String
attribution status evaluation =
    if is_succeeded status && is_passed_status evaluation
    then none
    else some (
        if str_eq (status_value status) "succeeded"
        then "evaluation." <> evaluation_value evaluation
        else "execution." <> status_value status)

attribution_cases :
    (status : RunStatus) (evaluation : EvaluationStatus)
    → (attribution status evaluation ≡ cause status evaluation)
      × (is_error_attribution (attribution status evaluation)
          ≡ is_evaluation_fault status evaluation)
unfolding is_error_attribution
attribution_cases succeeded passed = (refl, refl)
attribution_cases succeeded failed = (refl, refl)
attribution_cases succeeded error = (refl, refl)
attribution_cases succeeded not_run = (refl, refl)
attribution_cases model_error evaluation = (refl, refl)
attribution_cases parse_error evaluation = (refl, refl)
attribution_cases tool_error evaluation = (refl, refl)
attribution_cases step_limit evaluation = (refl, refl)
attribution_cases timeout evaluation = (refl, refl)
attribution_cases budget_exceeded evaluation = (refl, refl)
attribution_cases policy_blocked evaluation = (refl, refl)
attribution_cases runtime_error evaluation = (refl, refl)

-- A campaign attributes the failure of a run to its execution, by status, unless that succeeded, and
-- then to its evaluation; a passed run has no attribution. It counts a run as an error exactly
-- where the execution succeeded, and the evaluation ended by an error or was not run.
pub attempt_failure_attribution-view :
    (provenance : RuntimeProvenance) (report : RunReport)
    → (attempt_failure_attribution (view provenance report)
        ≡ cause report.result.status report.evaluation.status)
      × (is_error_attribution (attempt_failure_attribution (view provenance report))
          ≡ is_evaluation_fault report.result.status report.evaluation.status)
unfolding view attempt_failure_attribution failed_attribution evaluation_attribution
    is_error_attribution report_passed
attempt_failure_attribution-view provenance report =
    attribution_cases report.result.status report.evaluation.status
