-- ===== src/Runtime/Judged.antt =====
-- workspace_agent_harness/__init__.py: the trace of the runtime, and the evaluation in
-- `GeneralAgentRuntime.run`.
use Prim.Native.String.{◌++◌ as ◌<>◌}
use pan_agent.Base.{ℕ, String, none, some, List, [], ◌∷◌, ◌++◌, if◌then◌else◌, length}
use pan_agent.Base.Result.{Result, ok, err, ◌>>=◌, ◌>>◌, raise_if}
use pan_agent.Base.Json.{end}
use pan_agent.Loop.{RunResult}
use pan_agent.Snapshots.{FileError, Snapshot}
use pan_agent.Campaign.Types.{EvaluatorIdentity}
use pan_agent.Runtime.Types.{
  EvaluationStatus, passed, failed, error, not_run, EvaluationVerdict, EvaluationRecord,
  ArtifactSnapshotRef, EvaluationEvidence, RuntimeEvent, artifact_freeze_failed,
}
use pan_agent.Runtime.Evaluator.{
  EvaluatorError, output_too_large, error_message, run_evaluator, is_too_large,
}
use pan_agent.Runtime.Hosting.{Runtime, Host}
use pan_agent.Runtime.Prepare.{Prepared}

-- The entry of the runtime's trace: its number and its event
pub record Entry : Type 0 where
  pub sequence : ℕ
  pub event : RuntimeEvent

abbrev pub Entries : Type 0
Entries = List Entry

-- runtime_trace.record(...)
abbrev pub record_event : RuntimeEvent → Entries → Entries
record_event event trace = trace ++ record { sequence = length trace; event = event } ∷ []

-- What is known of a run once its loop is over
pub record Executed : Type 0 where
  pub prepared : Prepared
  pub run_id : String
  pub result : RunResult
  pub wall_time : ℕ

module _ {W Tool : Type 0} (host : Host W Tool) (runtime : Runtime Tool) where
  abbrev pub snapshot_ref : String → Result FileError (String × Snapshot) → ArtifactSnapshotRef
  snapshot_ref run_id (ok (digest, snapshot)) = record {
    run_id = run_id;
    content_hash = some digest;
    error_text = none;
  }
  snapshot_ref run_id (err reason) = record {
    run_id = run_id;
    content_hash = none;
    error_text = some (host.file_error_text reason);
  }

  abbrev pub evidence : Executed → ArtifactSnapshotRef → EvaluationEvidence
  evidence run artifacts = record {
    task_id = run.prepared.spec.task_id;
    pack = run.prepared.manifest.identity;
    execution = run.result;
    initial_fixture = run.prepared.spec.fixture;
    final_artifacts = artifacts;
  }

  -- The test of the size in `run`, after the child's own
  unfoldable pub check_verdict : EvaluationVerdict → Result EvaluatorError EvaluationVerdict
  check_verdict verdict = do
    raise_if
        (is_too_large host.verdict_size runtime.config.evaluator_limits.max_output_bytes verdict)
        output_too_large
    ok verdict

  abbrev pub verdict_status : EvaluationVerdict → EvaluationStatus
  verdict_status verdict = if verdict.is_passed then passed else failed

  -- The `EvaluationRecord` of a verdict, or of what was raised
  unfoldable pub evaluation_of :
      EvaluatorIdentity → Result EvaluatorError EvaluationVerdict → EvaluationRecord
  evaluation_of evaluator (ok verdict) = record {
    status = verdict_status verdict;
    evaluator = evaluator;
    checks = verdict.checks;
    measurements = verdict.measurements;
    error_text = none;
  }
  evaluation_of evaluator (err reason) = record {
    status = error;
    evaluator = evaluator;
    checks = [];
    measurements = end;
    error_text = some (error_message reason);
  }

  unfoldable pub evaluate_run : Executed → ArtifactSnapshotRef → W → EvaluationRecord × W
  evaluate_run run artifacts world =
      let ((first, second), world') = host.evaluate (evidence run artifacts) world in
      (
        evaluation_of run.prepared.manifest.evaluator
            (run_evaluator host.fork_supported first second >>= check_verdict),
        world',
      )

  -- The evaluation, and the trace with the event of a failed snapshot
  unfoldable pub settle_artifacts :
      Executed → Result FileError (String × Snapshot) → Entries → W → EvaluationRecord × Entries × W
  settle_artifacts run (err reason) trace world =
      let text = host.file_error_text reason in
      (
        record {
          status = not_run;
          evaluator = run.prepared.manifest.evaluator;
          checks = [];
          measurements = end;
          error_text = some ("artifact snapshot unavailable: " <> text);
        },
        record_event (artifact_freeze_failed text) trace,
        world,
      )
  settle_artifacts run (ok frozen) trace world =
      let (evaluation, world') = evaluate_run run (snapshot_ref run.run_id (ok frozen)) world in
      (evaluation, trace, world')
