-- ===== src/Runtime.antt =====
-- workspace_agent_harness/__init__.py: `GeneralAgentRuntime.run`, from the prepared request to the report.
-- A world that is not used after an error is given back as it was then.
pub mod Judged
pub mod Types
pub mod Evaluator
pub mod Termination
pub mod Stopped
pub mod Checks
pub mod Hosting
pub mod Prepare
pub mod Packs
pub mod Accepted
pub mod Reported
pub mod Lifecycle
pub mod Passed
pub mod Attributed
pub mod Examples
pub mod Tests
use Prim.Native.String.{◌++◌ as ◌<>◌}
use pan_agent.Base.{
  ℕ, ◌+◌, String, Bool, true, false, not, ◌&&◌, ◌||◌, Option, none, some, List, [], ◌∷◌, ◌++◌, map,
  str_eq, if◌then◌else◌, length, any,
}
use pan_agent.Base.Int.{ℤ, pos, pos_part, ◌-ℤ◌, int_eq}
use pan_agent.Base.Result.{Result, ok, err, ◌>>=◌, ◌>>◌, raise_if}
use pan_agent.Base.Text.{Text}
use pan_agent.Base.Json.{Json, Fields, end}
use pan_agent.Limits.{RunLimits, RuntimeConfig, LimitError, resolve_limits}
use pan_agent.Paths.{FilePath}
use pan_agent.Authority.{
  CapabilityGrant, AuthorityError, Parties, resolve_authority, by_id, grant_id,
}
use pan_agent.Tools.{Arguments, from_action, Denial, Call, denied, delegated, execute}
use pan_agent.Loop
use pan_agent.Loop.{
  Message, ToolOutcome, policy_violation, Task, RunResult, Ended, completed, crashed,
}
use pan_agent.Snapshots.{Bytes, FileError, ProtectedFixtureRef, Kind, Snapshot, freeze_workspace}
use pan_agent.Campaign.Types.{
  PackSelector, pack_eq, EvaluatorIdentity, ComponentIdentity, RuntimeProvenance,
}
use pan_agent.Runtime.Types.{
  PackManifest, DomainRunSpec, RunRequest, EvaluationStatus, passed, failed, error, not_run,
  EvaluationVerdict, EvaluationRecord, ArtifactSnapshotRef, EvaluationEvidence, RunReport,
  report_passed, RuntimeError, pack_not_registered, compile_raised, limit_error, authority_error,
  stage_failed, inputs_without_workspace, missing_tool, loop_crashed, RuntimeEvent, run_started,
  execution_completed, artifact_freeze_failed, evaluation_completed, report_completed,
}
use pan_agent.Runtime.Evaluator.{
  Poll, EvaluatorError, output_too_large, error_message, run_evaluator, is_too_large,
}
use pan_agent.Runtime.Checks.{
  validate_compiled_spec, validate_task_schema, AdapterIdentities, revalidate_runtime_adapters,
  PackState, revalidate_registered_pack,
}
use pan_agent.Runtime.Hosting.{Runtime, Host}
use pan_agent.Runtime.Prepare.{Prepared, or_error, prepare}
use pan_agent.Runtime.Judged.{Entries, record_event, Executed, snapshot_ref, settle_artifacts}

-- How `run` ends: by its report or by an error, with the trace that it leaves
pub record Outcome (W : Type 0) : Type 0 where
  pub result : Result RuntimeError RunReport
  pub trace : Entries
  pub world : W

-- _AuthorizedTool(...).execute(arguments), as the loop calls it
abbrev pub tool_result :
    {W : Type 0} → (Denial → String) → W → Call (ToolOutcome × W) → ToolOutcome × W
tool_result denial_text world (denied reason) = (policy_violation (denial_text reason), world)
tool_result denial_text world (delegated outcome) = outcome

module _ {W Tool : Type 0} (host : Host W Tool) (runtime : Runtime Tool) where
  -- self._adapters.capabilities[grant.capability_id], of every grant
  unfoldable pub collect_tools :
      List CapabilityGrant → Result RuntimeError (List (CapabilityGrant × Tool))
  collect_tools [] = ok []
  collect_tools (grant ∷ grants) = elim (runtime.capabilities grant.capability_id) [
    | none ↦ err (missing_tool grant.capability_id)
    | some tool ↦ do rest ← collect_tools grants; ok ((grant, tool) ∷ rest)
  ]

  abbrev pub tool_id : CapabilityGrant × Tool → String
  tool_id entry = grant_id entry.0

  unfoldable pub authorized :
      FilePath → Option (CapabilityGrant × Tool) → Option (Fields → W → ToolOutcome × W)
  authorized workspace none = none
  authorized workspace (some (grant, tool)) = some (λ arguments world.
      tool_result host.denial_text world (
        execute host.resolve workspace grant (λ resolved. host.delegate tool resolved world)
          (from_action arguments)))

  -- The environment of the loop
  unfoldable pub loop_env : FilePath → List (CapabilityGrant × Tool) → Loop.Env W
  loop_env workspace tools = record {
    monotonic = host.monotonic;
    respond = host.respond;
    loads = host.loads;
    repr = host.repr;
    tools = λ name. authorized workspace (by_id tool_id name tools);
  }

  abbrev report_of : Executed → ArtifactSnapshotRef → EvaluationRecord → RunReport
  report_of run artifacts evaluation = record {
    pack = run.prepared.manifest.identity;
    initial_fixture = run.prepared.spec.fixture;
    result = run.result;
    evaluation = evaluation;
    artifacts = artifacts;
    wall_time_seconds = run.wall_time;
  }

  -- The evaluation, and the report with its event
  unfoldable pub complete_frozen :
      Executed → Result FileError (String × Snapshot) → Entries → W → Outcome W
  complete_frozen run frozen trace world =
      let (evaluation, trace', world') = settle_artifacts host runtime run frozen trace world in
      let report = report_of run (snapshot_ref host runtime run.run_id frozen) evaluation in
      record {
        result = ok report;
        trace =
            record_event (report_completed (report_passed report))
              (record_event (evaluation_completed evaluation.status evaluation.error_text) trace');
        world = world';
      }

  -- From `runtime.execution_completed` on
  unfoldable pub complete : Executed → FilePath → Entries → W → Outcome W
  complete run workspace trace world =
      complete_frozen run
        (freeze_workspace host.hexdigest host.encode (host.entries workspace world))
        (record_event (execution_completed run.result) trace) world

  -- After the loop: its exception goes on to the caller.
  unfoldable pub after_loop : Prepared → String → FilePath → ℤ → Entries → Loop.Ended W → Outcome W
  after_loop prepared run_id workspace started_at trace (crashed _ world) = record {
    result = err loop_crashed;
    trace = trace;
    world = world;
  }
  after_loop prepared run_id workspace started_at trace (completed result _ world) =
      let (finished_at, world') = host.monotonic world in
      complete
        (record {
          prepared = prepared;
          run_id = run_id;
          result = result;
          wall_time = pos_part (finished_at -ℤ started_at);
        })
        workspace trace world'

  abbrev pub task_of : DomainRunSpec → Task
  task_of spec = record { task_id = spec.task_id; prompt = spec.prompt }

  -- The loop over the tools; none means that the fuel of the loop ran out.
  unfoldable pub run_loop :
      Prepared → String → FilePath → W → List (CapabilityGrant × Tool) → Option (Outcome W)
  run_loop prepared run_id workspace world tools =
      let (started_at, world1) = host.monotonic world in
      let ended =
        Loop.run (loop_env workspace tools) run_id (task_of prepared.spec) prepared.limits world1 in
      elim ended [
        | none ↦ none
        | some end_of_loop ↦ some (
            after_loop prepared run_id workspace started_at
              (record_event (run_started prepared.limits) []) end_of_loop)
      ]

  -- stage(spec.control.fixture, run_workspace), where there is a workspace adapter
  unfoldable pub stage_workspace : DomainRunSpec → FilePath → W → Result RuntimeError (Unit {0}) × W
  stage_workspace spec workspace world = elim (host.stage) [
    | none ↦ (raise_if spec.has_visible_inputs inputs_without_workspace, world)
    | some stage ↦
        let (staged, world') = stage spec.fixture workspace world in
        (or_error stage_failed staged, world')
  ]

  abbrev raised : RuntimeError → W → Outcome W
  raised reason world = record { result = err reason; trace = []; world = world }

  unfoldable pub start :
      Prepared → String → FilePath → Result RuntimeError (Unit {0}) × W → Option (Outcome W)
  start prepared run_id workspace (err reason, world) = some (raised reason world)
  start prepared run_id workspace (ok _, world) = elim (collect_tools prepared.authority) [
    | err reason ↦ some (raised reason world)
    | ok tools ↦ run_loop prepared run_id workspace world tools
  ]

  unfoldable pub run_prepared : Prepared → W → Option (Outcome W)
  run_prepared prepared world =
      let (run_id, world1) = host.uuid world in
      let workspace = host.directory runtime.config.workspace_root run_id in
      start prepared run_id workspace (stage_workspace prepared.spec workspace world1)

  unfoldable pub run : RunRequest → W → Option (Outcome W)
  run request world = elim (prepare host runtime request world) [
    | err reason ↦ some (raised reason world)
    | ok prepared ↦ run_prepared prepared world
  ]
