-- ===== src/Runtime/Types.antt =====
-- workspace_agent_harness/__init__.py: what a pack declares, what a task compiles to, and what a run of the
-- runtime reports. The projection for the agent is its prompt and the names that it asks for; a
-- verdict's checks and measurements are JSON values.
use pan_agent.Base.{ℕ, String, Bool, true, false, ◌&&◌, Option, List}
use pan_agent.Base.Int.{ℤ}
use pan_agent.Base.Json.{Json, Fields}
use pan_agent.Limits.{RunLimits, RunLimitOverrides, LimitError}
use pan_agent.Authority.{CapabilityGrant, CapabilityRequirement, AuthorityError}
use pan_agent.Trace.{RunStatus, succeeded}
use pan_agent.Loop.{RunResult}
use pan_agent.Snapshots.{FileError, ProtectedFixtureRef}
use pan_agent.Campaign.Types.{PackSelector, EvaluatorIdentity}

pub record PackManifest : Type 0 where
  pub interface_version : ℤ
  pub identity : PackSelector
  pub task_schema : Json
  pub required_runtime_features : List String
  pub requested_capabilities : List CapabilityRequirement
  pub authority_ceiling : List CapabilityRequirement
  pub evaluator : EvaluatorIdentity

-- `DomainRunSpec`: `prompt` is `_agent_prompt(spec)`, and `has_visible_inputs` the truth of the tuple.
pub record DomainRunSpec : Type 0 where
  pub task_id : String
  pub prompt : String
  pub agent_capabilities : List String
  pub has_visible_inputs : Bool
  pub fixture : ProtectedFixtureRef
  pub evaluator : EvaluatorIdentity
  pub authority_request : List CapabilityRequirement
  pub limit_defaults : Option RunLimits

pub record RunRequest : Type 0 where
  pub pack : PackSelector
  pub task : Json
  pub authority : List CapabilityGrant
  pub limits : RunLimitOverrides

pub data EvaluationStatus : Type 0 where
  passed failed error not_run : EvaluationStatus

-- EvaluationStatus.value
abbrev pub evaluation_value : EvaluationStatus → String
evaluation_value passed = "passed"
evaluation_value failed = "failed"
evaluation_value error = "error"
evaluation_value not_run = "not_run"

pub record EvaluationVerdict : Type 0 where
  pub is_passed : Bool
  pub checks : List Json
  pub measurements : Fields

pub record EvaluationRecord : Type 0 where
  pub status : EvaluationStatus
  pub evaluator : EvaluatorIdentity
  pub checks : List Json
  pub measurements : Fields
  pub error_text : Option String

-- `ArtifactSnapshotRef`, under the id of its run
pub record ArtifactSnapshotRef : Type 0 where
  pub run_id : String
  pub content_hash : Option String
  pub error_text : Option String

-- `EvaluationEvidence`; the trace has the id of the run.
pub record EvaluationEvidence : Type 0 where
  pub task_id : String
  pub pack : PackSelector
  pub execution : RunResult
  pub initial_fixture : ProtectedFixtureRef
  pub final_artifacts : ArtifactSnapshotRef

pub record RunReport : Type 0 where
  pub pack : PackSelector
  pub initial_fixture : ProtectedFixtureRef
  pub result : RunResult
  pub evaluation : EvaluationRecord
  pub artifacts : ArtifactSnapshotRef
  pub wall_time_seconds : ℕ

abbrev pub is_succeeded : RunStatus → Bool
is_succeeded succeeded = true
is_succeeded _ = false

abbrev pub is_passed_status : EvaluationStatus → Bool
is_passed_status passed = true
is_passed_status _ = false

-- `RunReport.passed`
unfoldable pub report_passed : RunReport → Bool
report_passed report =
    is_succeeded report.result.status && is_passed_status report.evaluation.status

pub data RuntimeError : Type 0 where
  unsupported_interface : ℤ → RuntimeError
  features_not_implemented : List String → RuntimeError
  duplicate_pack : PackSelector → RuntimeError
  pack_hash_mismatch : RuntimeError
  no_pack : RuntimeError
  adapters_drifted : RuntimeError
  pack_not_registered : PackSelector → RuntimeError
  pack_drifted : RuntimeError
  bad_schema : RuntimeError
  task_not_object : RuntimeError
  missing_fields : List String → RuntimeError
  compile_raised : String → RuntimeError
  evaluator_mismatch : RuntimeError
  undeclared_capability : RuntimeError
  undeclared_projection : RuntimeError
  limit_error : LimitError → RuntimeError
  authority_error : AuthorityError → RuntimeError
  stage_failed : FileError → RuntimeError
  inputs_without_workspace : RuntimeError
  missing_tool : String → RuntimeError
  loop_crashed : RuntimeError

-- The events of the runtime's own trace, with what they record
pub data RuntimeEvent : Type 0 where
  run_started : RunLimits → RuntimeEvent
  execution_completed : RunResult → RuntimeEvent
  artifact_freeze_failed : String → RuntimeEvent
  evaluation_completed : EvaluationStatus → Option String → RuntimeEvent
  report_completed : Bool → RuntimeEvent
