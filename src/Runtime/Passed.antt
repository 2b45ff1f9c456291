-- ===== src/Runtime/Passed.antt =====
-- What a passed report rests on.
use mathlib.Core.Path.{subst}
use pan_agent.Base.{
  ◌≤◌, String, ◌≡◌, refl, sym, ap, ◌∙◌, Bool, true, false, some, List, inl, inr, Bool-cases,
  and-eq-true, arith, length, All,
}
use pan_agent.Base.Int.{pos, ◌≤ℤ◌}
use pan_agent.Base.Result.{
  Result, ok, err, ◌>>=◌, raise_if, >>=-eq-ok, >>-eq-ok, raise_if-eq-ok, ok-injective,
}
use pan_agent.Base.Text.{Text}
use pan_agent.Paths.{FilePath}
use pan_agent.Trace.{
  RunStatus, succeeded, model_error, parse_error, tool_error, step_limit, timeout, budget_exceeded,
  policy_blocked, runtime_error,
}
use pan_agent.Snapshots.{Kind, Snapshot, freeze_workspace, file_limit, byte_limit}
use pan_agent.Snapshots.Frozen.{IsTakable, regular_files, total_length, freeze_workspace-IsLimited}
use pan_agent.Campaign.Types.{EvaluatorIdentity}
use pan_agent.Runtime.{Outcome, run}
use pan_agent.Runtime.Judged.{Entries, check_verdict, evaluation_of}
use pan_agent.Runtime.Types.{
  RunRequest, RuntimeError, RunReport, report_passed, is_succeeded, is_passed_status,
  EvaluationStatus, passed, failed, error, not_run, EvaluationVerdict, EvaluationEvidence,
}
use pan_agent.Runtime.Evaluator.{
  Poll, nothing, message, closed, ready, verdict, failure, EvaluatorError, receive_ready,
  receive_answer, run_evaluator, is_too_large,
}
use pan_agent.Runtime.Hosting.{Host, Runtime}
use pan_agent.Runtime.Prepare.{Prepared}
use pan_agent.Runtime.Lifecycle.{EndsWith, EndsRequest, refused, accepted, runtime_run_total}
use pan_agent.Runtime.Reported.{IsSettled}

succeeded_of : (status : RunStatus) → is_succeeded status ≡ true → status ≡ succeeded
succeeded_of succeeded e = refl
succeeded_of model_error e = cc
succeeded_of parse_error e = cc
succeeded_of tool_error e = cc
succeeded_of step_limit e = cc
succeeded_of timeout e = cc
succeeded_of budget_exceeded e = cc
succeeded_of policy_blocked e = cc
succeeded_of runtime_error e = cc

passed_of : (status : EvaluationStatus) → is_passed_status status ≡ true → status ≡ passed
passed_of passed e = refl
passed_of failed e = cc
passed_of error e = cc
passed_of not_run e = cc

-- A verdict comes from a child that was ready and then sent it.
run_evaluator-eq-ok :
    (fork_supported : Bool) (first second : Poll) {v : EvaluationVerdict}
    → run_evaluator fork_supported first second ≡ ok v
    → (fork_supported ≡ true) × (first ≡ message ready) × (second ≡ message (verdict v))
unfolding run_evaluator receive_ready receive_answer
run_evaluator-eq-ok true (message ready) (message (verdict v)) e =
    (refl, refl, ap (λ w. message (verdict w)) (ok-injective e))
run_evaluator-eq-ok true (message ready) (message (failure kind text)) e = cc
run_evaluator-eq-ok true (message ready) (message ready) e = cc
run_evaluator-eq-ok true (message ready) nothing e = cc
run_evaluator-eq-ok true (message ready) closed e = cc
run_evaluator-eq-ok true (message (verdict v)) second e = cc
run_evaluator-eq-ok true (message (failure kind text)) second e = cc
run_evaluator-eq-ok true nothing second e = cc
run_evaluator-eq-ok true closed second e = cc
run_evaluator-eq-ok false first second e = cc

module _ {W Tool : Type 0} (host : Host W Tool) (runtime : Runtime Tool) where
  evaluation-passed :
      (evaluator : EvaluatorIdentity) (checked : Result EvaluatorError EvaluationVerdict)
      → (evaluation_of host runtime evaluator checked).status ≡ passed
      → (v : EvaluationVerdict) × (checked ≡ ok v) × (v.is_passed ≡ true)
  unfolding evaluation_of
  evaluation-passed evaluator (err reason) e = cc
  evaluation-passed evaluator (ok v) e = elim (Bool-cases v.is_passed) [
    | inl is_passed ↦ (v, refl, is_passed)
    | inr is_failed ↦ let e' = rw is_failed at e in cc
  ]

  within_size :
      (v : EvaluationVerdict)
      → is_too_large host.verdict_size runtime.config.evaluator_limits.max_output_bytes v ≡ false
      → pos (host.verdict_size v) ≤ℤ runtime.config.evaluator_limits.max_output_bytes
  within_size v e = ground arith

  -- What a passed report rests on
  pub record IsEarned (report : RunReport) : Type 0 where
    pub status : report.result.status ≡ succeeded
    pub workspace : FilePath
    pub world : W
    pub entries : List (Text × Kind)
    pub digest : String
    pub snapshot : Snapshot
    pub frozen : freeze_workspace host.hexdigest host.encode entries ≡ ok (digest, snapshot)
    pub hash : report.artifacts.content_hash ≡ some digest
    pub listed : entries ≡ host.entries workspace world
    pub takable : All IsTakable entries
    pub files : snapshot.files ≡ regular_files entries
    pub few : length snapshot.files ≤ file_limit
    pub small : total_length snapshot.files ≤ byte_limit
    pub evidence : EvaluationEvidence
    pub about : evidence.final_artifacts ≡ report.artifacts
    pub executed : evidence.execution ≡ report.result
    pub first : Poll
    pub second : Poll
    pub polled : (host.evaluate evidence world).0 ≡ (first, second)
    pub judgement : EvaluationVerdict
    pub is_ready : first ≡ message ready
    pub is_sent : second ≡ message (verdict judgement)
    pub is_passed : judgement.is_passed ≡ true
    pub in_size :
        pos (host.verdict_size judgement) ≤ℤ runtime.config.evaluator_limits.max_output_bytes
    pub checks : report.evaluation.checks ≡ judgement.checks

  settled-IsEarned :
      (prepared : Prepared) (report : RunReport) (trace : Entries)
      → IsSettled host runtime prepared report trace
      → report_passed report ≡ true
      → IsEarned report
  unfolding report_passed check_verdict evaluation_of
  settled-IsEarned prepared report trace (inl unfrozen) is_passed =
      let (_, evaluated) = and-eq-true (is_succeeded report.result.status) _ is_passed in
      let e = sym unfrozen.status ∙ passed_of report.evaluation.status evaluated in cc
  settled-IsEarned prepared report trace (inr frozen) is_passed =
      let (success, evaluated) = and-eq-true (is_succeeded report.result.status) _ is_passed in
      let evaluator = prepared.manifest.evaluator in
      let raw = run_evaluator host.fork_supported frozen.first frozen.second in
      let (v, checked, positive) =
        evaluation-passed evaluator (raw >>= check_verdict host runtime) (
          ap (λ r. r.status) (sym frozen.evaluated)
          ∙ passed_of report.evaluation.status evaluated) in
      let (v', sent, tested) = >>=-eq-ok raw _ checked in
      let (e1, same) = >>-eq-ok (raise_if _ _) _ tested in
      let same' : v' ≡ v = ok-injective same in
      let (_, is_ready, is_sent) =
        run_evaluator-eq-ok host.fork_supported frozen.first frozen.second sent in
      let (takable, files, few, small, _) =
        freeze_workspace-IsLimited host.hexdigest host.encode frozen.entries frozen.frozen in
      record {
        status = succeeded_of report.result.status success;
        workspace = frozen.workspace;
        world = frozen.world;
        entries = frozen.entries;
        digest = frozen.digest;
        snapshot = frozen.snapshot;
        frozen = frozen.frozen;
        hash = frozen.hash;
        listed = frozen.listed;
        takable = takable;
        files = files;
        few = few;
        small = small;
        evidence = frozen.evidence;
        about = frozen.about;
        executed = frozen.executed;
        first = frozen.first;
        second = frozen.second;
        polled = frozen.polled;
        judgement = v;
        is_ready = is_ready;
        is_sent = is_sent ∙ ap (λ w. message (verdict w)) same';
        is_passed = positive;
        in_size =
            subst
              (λ w. pos (host.verdict_size w) ≤ℤ runtime.config.evaluator_limits.max_output_bytes)
              same' (within_size v' (raise_if-eq-ok _ _ e1));
        checks =
            ap (λ r. r.checks) frozen.evaluated
            ∙ ap (λ r. (evaluation_of host runtime evaluator r).checks) checked;
      }

  report-IsEarned :
      (prepared : Prepared) (result : Result RuntimeError RunReport) (trace : Entries)
      {report : RunReport}
      → EndsWith host runtime prepared result trace
      → result ≡ ok report
      → report_passed report ≡ true
      → IsEarned report
  report-IsEarned prepared (err reason) trace ends e is_passed = cc
  report-IsEarned prepared (ok report') trace ends e is_passed =
      let same = ok-injective e in
      subst (λ r. report_passed r ≡ true → IsEarned r) same
        (settled-IsEarned prepared report' trace ends.settled) is_passed

  -- A report counts as passed only where the loop has succeeded and the workspace was frozen: its
  -- entries were directories and regular files under well-formed paths, and the artifacts that the
  -- report names are exactly its files, within the limits on their number and size. The evaluator's
  -- process was given these artifacts and this result, was ready, and sent a verdict that is passed
  -- and no longer than the configured limit.
  pub run-IsEarned :
      (request : RunRequest) (world : W) (outcome : Outcome W) {report : RunReport}
      → run host runtime request world ≡ some outcome
      → outcome.result ≡ ok report
      → report_passed report ≡ true
      → IsEarned report
  run-IsEarned request world outcome ran reported is_passed =
      let (outcome', ran', ends) = runtime_run_total host runtime request world in
      let both : some outcome' ≡ some outcome = sym ran' ∙ ran in
      let same : outcome' ≡ outcome = cc in
      by_end outcome' ends (ap (λ o. o.result) same ∙ reported) is_passed
    where
      by_end :
          (o : Outcome W)
          → EndsRequest host runtime request world o
          → {report : RunReport} → o.result ≡ ok report
          → report_passed report ≡ true
          → IsEarned report
      by_end o (refused reason _ e _) reported' is_passed' = let clash = sym e ∙ reported' in cc
      by_end o (accepted prepared _ _ ends) reported' is_passed' =
          report-IsEarned prepared o.result o.trace ends reported' is_passed'
