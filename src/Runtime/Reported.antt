-- ===== src/Runtime/Reported.antt =====
-- What a report of `GeneralAgentRuntime.run` and its trace say of each other.
use pan_agent.Base.{
  ℕ, ◌+◌, String, ◌≡◌, ◌⊎◌, refl, Bool, true, false, ◌&&◌, none, some, List, [], ◌∷◌,
}
use pan_agent.Base.Result.{ok, err, ◌>>=◌}
use pan_agent.Base.Text.{Text}
use pan_agent.Paths.{FilePath}
use pan_agent.Snapshots.{FileError, Kind, Snapshot, freeze_workspace}
use pan_agent.Runtime.{Outcome}
use pan_agent.Runtime.Judged.{Entries, record_event, Executed, check_verdict, evaluation_of}
use pan_agent.Runtime.Types.{
  RunReport, report_passed, not_run, EvaluationEvidence, RuntimeEvent, run_started,
  execution_completed, artifact_freeze_failed, evaluation_completed, report_completed,
}
use pan_agent.Runtime.Evaluator.{Poll, run_evaluator}
use pan_agent.Runtime.Hosting.{Host, Runtime}
use pan_agent.Runtime.Prepare.{Prepared}

-- Events under their numbers, from 0
unfoldable pub entries_of : ℕ → List RuntimeEvent → Entries
entries_of first [] = []
entries_of first (event ∷ events) =
    record { sequence = first; event = event } ∷ entries_of (first + 1) events

pub and-false : (b : Bool) → (b && false) ≡ false
and-false true = refl
and-false false = refl

module _ {W Tool : Type 0} (host : Host W Tool) (runtime : Runtime Tool) where
  -- The workspace could not be frozen: there is no evaluation.
  pub record IsUnfrozen (prepared : Prepared) (report : RunReport) (trace : Entries) : Type 0 where
    pub entries : List (Text × Kind)
    pub reason : FileError
    pub refused : freeze_workspace host.hexdigest host.encode entries ≡ err reason
    pub no_hash : report.artifacts.content_hash ≡ none
    pub status : report.evaluation.status ≡ not_run
    pub traced :
        trace
        ≡ entries_of 0 (
            run_started prepared.limits
            ∷ execution_completed report.result
            ∷ artifact_freeze_failed (host.file_error_text reason)
            ∷ evaluation_completed not_run report.evaluation.error_text
            ∷ report_completed false
            ∷ [])

  -- It was frozen, and the evaluation is what the evaluator's process made of it.
  pub record IsFrozen (prepared : Prepared) (report : RunReport) (trace : Entries) : Type 0 where
    pub entries : List (Text × Kind)
    pub digest : String
    pub snapshot : Snapshot
    pub frozen : freeze_workspace host.hexdigest host.encode entries ≡ ok (digest, snapshot)
    pub hash : report.artifacts.content_hash ≡ some digest
    pub workspace : FilePath
    pub world : W
    pub listed : entries ≡ host.entries workspace world
    pub evidence : EvaluationEvidence
    pub about : evidence.final_artifacts ≡ report.artifacts
    pub executed : evidence.execution ≡ report.result
    pub first : Poll
    pub second : Poll
    pub polled : (host.evaluate evidence world).0 ≡ (first, second)
    pub evaluated :
        report.evaluation
        ≡ evaluation_of host runtime prepared.manifest.evaluator
            (run_evaluator host.fork_supported first second >>= check_verdict host runtime)
    pub traced :
        trace
        ≡ entries_of 0 (
            run_started prepared.limits
            ∷ execution_completed report.result
            ∷ evaluation_completed report.evaluation.status report.evaluation.error_text
            ∷ report_completed (report_passed report)
            ∷ [])

  abbrev pub IsSettled : Prepared → RunReport → Entries → Type 0
  IsSettled prepared report trace =
      IsUnfrozen prepared report trace ⊎ IsFrozen prepared report trace

  abbrev pub started : Prepared → Entries
  started prepared = record_event (run_started prepared.limits) []

  abbrev pub executed_entries : Executed → Entries
  executed_entries executed =
      record_event (execution_completed executed.result) (started executed.prepared)

  abbrev pub Settles : Executed → Outcome W → Type 0
  Settles executed outcome =
      (report : RunReport) × (outcome.result ≡ ok report)
      × (report.result ≡ executed.result)
      × IsSettled executed.prepared report outcome.trace
