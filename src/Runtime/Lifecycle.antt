-- ===== src/Runtime/Lifecycle.antt =====
-- Proofs on the end of `GeneralAgentRuntime.run`, and on the order of the events in its trace.
use Prim.Native.String.{◌++◌ as ◌<>◌}
use mathlib.Core.Path.{subst}
use pan_agent.Base.{String, ◌≡◌, ◌⊎◌, refl, sym, ap, some, List, [], ◌∷◌, inl, inr}
use pan_agent.Base.Int.{ℤ, pos_part, ◌-ℤ◌}
use pan_agent.Base.Result.{Result, ok, err}
use pan_agent.Paths.{FilePath}
use pan_agent.Authority.{CapabilityGrant}
use pan_agent.Loop.{Ended, completed, crashed}
use pan_agent.Loop.Accounting
use pan_agent.Loop.Budget
use pan_agent.Loop.Budget.{EndsWell}
use pan_agent.Snapshots.{FileError, Snapshot, freeze_workspace}
use pan_agent.Runtime.{
  Outcome, complete_frozen, complete, after_loop, run_loop, loop_env, start, stage_workspace,
  run_prepared, run, task_of,
}
use pan_agent.Runtime.Judged.{
  Entries, Executed, snapshot_ref, evaluate_run, settle_artifacts, evidence,
}
use pan_agent.Runtime.Types.{
  RunRequest, RuntimeError, loop_crashed, is_succeeded, RunReport, report_passed, not_run,
  run_started, execution_completed, artifact_freeze_failed, evaluation_completed, report_completed,
}
use pan_agent.Runtime.Hosting.{Host, Runtime}
use pan_agent.Runtime.Prepare.{Prepared, prepare}
use pan_agent.Runtime.Accepted.{IsAccepted, prepare-IsAccepted, collect_tools_total}
use pan_agent.Runtime.Reported.{
  entries_of, and-false, IsSettled, started, executed_entries, Settles,
}

module _ {W Tool : Type 0} (host : Host W Tool) (runtime : Runtime Tool) where
  complete_frozen-Settles :
      (executed : Executed) (workspace : FilePath) (world : W)
      (frozen : Result FileError (String × Snapshot))
      → freeze_workspace host.hexdigest host.encode (host.entries workspace world) ≡ frozen
      → Settles host runtime executed (
          complete_frozen host runtime executed frozen
            (executed_entries host runtime executed)
            world)
  unfolding complete_frozen settle_artifacts evaluate_run entries_of report_passed
  complete_frozen-Settles executed workspace world (err reason) e = (
    _,
    refl,
    refl,
    inl (record {
      entries = host.entries workspace world;
      reason = reason;
      refused = e;
      no_hash = refl;
      status = refl;
      traced =
          ap
            (λ is_passed. entries_of 0 (
              run_started executed.prepared.limits
              ∷ execution_completed executed.result
              ∷ artifact_freeze_failed (host.file_error_text reason)
              ∷ evaluation_completed not_run
                  (some ("artifact snapshot unavailable: " <> host.file_error_text reason))
              ∷ report_completed is_passed
              ∷ []))
            (and-false (is_succeeded executed.result.status));
    }),
  )
  complete_frozen-Settles executed workspace world (ok (digest, snapshot)) e = (
    _,
    refl,
    refl,
    inr (record {
      entries = host.entries workspace world;
      digest = digest;
      snapshot = snapshot;
      frozen = e;
      hash = refl;
      workspace = workspace;
      world = world;
      listed = refl;
      evidence =
          evidence host runtime executed
            (snapshot_ref host runtime executed.run_id (ok (digest, snapshot)));
      about = refl;
      executed = refl;
      first = _;
      second = _;
      polled = refl;
      evaluated = refl;
      traced = refl;
    }),
  )

  -- A report of a prepared request: its result keeps the limits, and it went through the lifecycle.
  pub record IsReport (prepared : Prepared) (report : RunReport) (trace : Entries) : Type 0 where
    pub accounted : Accounting.IsAccounted prepared.limits report.result
    pub settled : IsSettled host runtime prepared report trace

  -- How a run of a prepared request ends. Before the loop there is no trace, and a crash of the loop
  -- leaves a trace with the start alone.
  abbrev pub EndsWith : Prepared → Result RuntimeError RunReport → Entries → Type 0
  EndsWith prepared (ok report) trace = IsReport prepared report trace
  EndsWith prepared (err reason) trace =
      (trace ≡ [])
      ⊎ ((reason ≡ loop_crashed) × (trace ≡ entries_of 0 (run_started prepared.limits ∷ [])))

  abbrev Ends : Prepared → Outcome W → Type 0
  Ends prepared outcome = EndsWith prepared outcome.result outcome.trace

  after_loop-Ends :
      (prepared : Prepared) (run_id : String) (workspace : FilePath) (started_at : ℤ)
      (tools : List (CapabilityGrant × Tool)) (ended : Ended W)
      → EndsWell (loop_env host runtime workspace tools) prepared.limits ended
      → Ends prepared (
          after_loop host runtime prepared run_id workspace started_at
            (started host runtime prepared)
            ended)
  unfolding after_loop entries_of complete
  after_loop-Ends prepared run_id workspace started_at tools (crashed trace world) well =
      inr (refl, refl)
  after_loop-Ends prepared run_id workspace started_at tools (completed result trace world) well =
      let executed : Executed = record {
        prepared = prepared;
        run_id = run_id;
        result = result;
        wall_time = pos_part ((host.monotonic world).0 -ℤ started_at);
      } in
      let world' = (host.monotonic world).1 in
      let entries = host.entries workspace world' in
      let frozen = freeze_workspace host.hexdigest host.encode entries in
      let (report, reported, same, settled) =
        complete_frozen-Settles executed workspace world' frozen refl in
      subst
        (λ r.
          EndsWith prepared r
            (complete_frozen host runtime executed frozen (executed_entries host runtime executed)
              world').trace)
        (sym reported)
        (record {
          accounted = subst (Accounting.IsAccounted prepared.limits) (sym same) well;
          settled = settled;
        })

  run_loop-Ends :
      (request : RunRequest) (prepared : Prepared) (run_id : String) (workspace : FilePath)
      (world : W) (tools : List (CapabilityGrant × Tool))
      → IsAccepted host runtime request prepared
      → (outcome : Outcome W) × (run_loop host runtime prepared run_id workspace world tools
          ≡ some outcome)
        × Ends prepared outcome
  unfolding run_loop
  run_loop-Ends request prepared run_id workspace world tools accepted =
      let (ended, looped, well) =
        Budget.run_total (loop_env host runtime workspace tools) prepared.limits run_id
          (task_of host runtime prepared.spec) (host.monotonic world).1 accepted.positive in
      (
        after_loop host runtime prepared run_id workspace (host.monotonic world).0
            (started host runtime prepared) ended,
        rw (looped, run_loop) refl,
        after_loop-Ends prepared run_id workspace (host.monotonic world).0 tools ended well,
      )

  start-Ends :
      (request : RunRequest) (prepared : Prepared) (run_id : String) (workspace : FilePath)
      (staged : Result RuntimeError (Unit {0}) × W)
      → IsAccepted host runtime request prepared
      → (outcome : Outcome W) × (start host runtime prepared run_id workspace staged ≡ some outcome)
        × Ends prepared outcome
  unfolding start
  start-Ends request prepared run_id workspace (err reason, world) accepted = (_, refl, inl refl)
  start-Ends request prepared run_id workspace (ok _, world) accepted =
      let (tools, collected) =
        collect_tools_total host runtime request prepared accepted.authorized in
      let (outcome, ran, ends) =
        run_loop-Ends request prepared run_id workspace world tools accepted in
      (outcome, rw (collected, start) ran, ends)

  -- How a run ends: a refused request leaves no trace, and any other ends as it was prepared.
  pub data EndsRequest (request : RunRequest) (world : W) (outcome : Outcome W) : Type 0 where
    refused :
        (reason : RuntimeError)
        → prepare host runtime request world ≡ err reason
        → outcome.result ≡ err reason
        → outcome.trace ≡ []
        → EndsRequest request world outcome
    accepted :
        (prepared : Prepared)
        → prepare host runtime request world ≡ ok prepared
        → IsAccepted host runtime request prepared
        → EndsWith prepared outcome.result outcome.trace
        → EndsRequest request world outcome

  pub runtime_run_total :
      (request : RunRequest) (world : W)
      → (outcome : Outcome W) × (run host runtime request world ≡ some outcome)
        × EndsRequest request world outcome
  unfolding run run_prepared
  runtime_run_total request world = prepared_or_not (prepare host runtime request world) refl
    where
      prepared_or_not :
          (checked : Result RuntimeError Prepared)
          → prepare host runtime request world ≡ checked
          → (outcome : Outcome W) × (run host runtime request world ≡ some outcome)
            × EndsRequest request world outcome
      prepared_or_not (err reason) e = (
        record { result = err reason; trace = []; world = world },
        rw (e, run) refl,
        refused reason e refl refl,
      )
      prepared_or_not (ok prepared) e =
          let facts = prepare-IsAccepted host runtime request world e in
          let run_id = (host.uuid world).0 in
          let workspace = host.directory runtime.config.workspace_root run_id in
          let (outcome, started', ends) =
            start-Ends request prepared run_id workspace
              (stage_workspace host runtime prepared.spec workspace (host.uuid world).1) facts in
          (outcome, rw (e, run) started', accepted prepared e facts ends)
