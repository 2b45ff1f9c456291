-- ===== src/Campaign/Attempts.antt =====
-- workspace_agent_harness/__init__.py: one attempt of `EvaluationCampaign.run`, from the start of its
-- clock to the `CampaignAttempt`. The runtime, the clocks and `uuid4` are the fields of an environment
-- over a world `W`, which each of them may change.
use pan_agent.Base.{ℕ, String, false, Option, none, some}
use pan_agent.Base.Int.{ℤ, ◌-ℤ◌, pos_part}
use pan_agent.Base.Result.{Result, ok, err}
use pan_agent.Campaign.Types.{
  SuiteSelector, RunUsage, no_usage, run_usage, other_usage, Report, BenchmarkCase, FrozenSuite,
  CampaignAttempt,
}
use pan_agent.Campaign.Summary.{attempt_failure_attribution}

pub record Env (W Request : Type 0) : Type 0 where
  pub now : W → String × W
  pub monotonic : W → ℤ × W
  pub uuid : W → String × W
  pub run : Request → W → Result String Report × W

-- What the loop reads of the campaign: identity of the suite, transform hash, configuration digest
pub record Setting : Type 0 where
  pub suite : SuiteSelector
  pub transform_hash : String
  pub configuration_digest : String

-- usage = getattr(run_report, "usage", None), which must be None or a `RunUsage`
unfoldable pub checked_report : Result String Report → Result String (Report × Option RunUsage)
checked_report (err message) = err message
checked_report (ok report) = elim (report.usage) [
  | no_usage ↦ ok (report, none)
  | run_usage usage ↦ ok (report, some usage)
  | other_usage ↦ err "Runtime report usage must be RunUsage"
]

module _ {Request : Type 0} where
  -- The `CampaignAttempt` of the `try` block, and the one of its handler
  unfoldable pub attempt_of :
      Setting
      → BenchmarkCase Request
      → ℕ
      → String
      → String
      → ℕ
      → Result String (Report × Option RunUsage)
      → CampaignAttempt Request
  attempt_of setting case repetition started_at finished_at duration (ok (report, usage)) = record {
    suite = setting.suite;
    case_id = case.case_id;
    source_case_id = case.source_case_id;
    repetition = repetition;
    request = case.request;
    transform_hash = setting.transform_hash;
    passed = report.passed;
    usage = usage;
    report = some report;
    configuration_digest = setting.configuration_digest;
    started_at = started_at;
    finished_at = finished_at;
    duration_seconds = duration;
    failure_attribution = attempt_failure_attribution report;
    error = none;
  }
  attempt_of setting case repetition started_at finished_at duration (err message) = record {
    suite = setting.suite;
    case_id = case.case_id;
    source_case_id = case.source_case_id;
    repetition = repetition;
    request = case.request;
    transform_hash = setting.transform_hash;
    passed = false;
    usage = none;
    report = none;
    configuration_digest = setting.configuration_digest;
    started_at = started_at;
    finished_at = finished_at;
    duration_seconds = duration;
    failure_attribution = some "runtime.exception";
    error = some message;
  }

  abbrev pub setting_of : FrozenSuite Request → String → Setting
  setting_of suite configuration_digest = record {
    suite = suite.manifest.identity;
    transform_hash = suite.manifest.transform_hash;
    configuration_digest = configuration_digest;
  }

module _ {W Request : Type 0} where
  -- One repetition, up to the attempt
  unfoldable pub run_attempt :
      Env W Request → Setting → BenchmarkCase Request → ℕ → W → CampaignAttempt Request × W
  run_attempt env setting case repetition world =
      let (started_at, world1) = env.now world in
      let (started_monotonic, world2) = env.monotonic world1 in
      let (outcome, world3) = env.run case.request world2 in
      let (finished_at, world4) = env.now world3 in
      let (finished_monotonic, world5) = env.monotonic world4 in
      (
        attempt_of setting case repetition started_at finished_at
            (pos_part (finished_monotonic -ℤ started_monotonic)) (checked_report outcome),
        world5,
      )
