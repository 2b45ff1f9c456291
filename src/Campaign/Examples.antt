-- ===== src/Campaign/Examples.antt =====
-- A campaign over a suite of three cases, for the tests.
use pan_agent.Base.{
  ℕ, ◌+◌, String, Bool, true, false, Option, none, some, List, [], ◌∷◌, str_eq, if◌then◌else◌,
  length,
}
use pan_agent.Base.Int.{pos}
use pan_agent.Base.Result.{Result, ok, err}
use pan_agent.Campaign.{State, run}
use pan_agent.Campaign.Types.{
  ComponentIdentity, SuiteSelector, RuntimeProvenance, RunUsage, run_usage, Report, eligible,
  ineligible, BenchmarkCase, SuiteManifest, FrozenSuite, CampaignRequest, CampaignReport,
}
use pan_agent.Campaign.Selection.{CampaignError}
use pan_agent.Campaign.Attempts.{Env}

abbrev component : String → ComponentIdentity
component role = record { role = role; implementation = "demo"; content_hash = "sha256:1" }

abbrev pub baseline : RuntimeProvenance
baseline = record {
  runtime = component "runtime";
  configuration_digest = "sha256:2";
  model = component "model";
  tools = component "tool:read" ∷ component "tool:write" ∷ [];
  workspace = none;
  registered_packs = [];
  evaluators = [];
  protected_roots = ((b'c' ∷ []) ∷ []) ∷ [];
}

abbrev usage : RunUsage
usage = record {
  wall_time_seconds = 3;
  model_requests = 2;
  input_tokens = some 10;
  output_tokens = some 4;
  cache_read_tokens = some 0;
  cache_write_tokens = some 0;
  tool_calls = 1;
  cost_usd = some 7;
  cost_source = some "list";
}

abbrev pub report_with : Bool → Option String → Option String → Report
report_with passed result_status evaluation_status = record {
  passed = passed;
  result_status = result_status;
  evaluation_status = evaluation_status;
  usage = run_usage usage;
  provenance = some baseline;
  evaluator = none;
}

-- The request "good" passes, "bad" fails its evaluation, and "broken" raises.
abbrev answer : String → Result String Report
answer request =
    if str_eq request "good"
    then ok (report_with true (some "succeeded") (some "passed"))
    else if str_eq request "bad"
    then ok (report_with false (some "succeeded") (some "failed"))
    else err "broken"

-- The world counts the readings of the clock.
abbrev pub env : Env ℕ String
env = record {
  now = λ world. ("now", world);
  monotonic = λ world. (pos world, world + 1);
  uuid = λ world. ("0f", world);
  run = λ request world. (answer request, world);
}

abbrev case_of : String → BenchmarkCase String
case_of request = record {
  case_id = request;
  source_case_id = request;
  request = request;
  eligibility = eligible;
  ineligibility_reason = none;
}

abbrev pub unfit : BenchmarkCase String
unfit = record {
  case_id = "unfit";
  source_case_id = "unfit";
  request = "good";
  eligibility = ineligible;
  ineligibility_reason = some "no pack";
}

abbrev pub selector : SuiteSelector
selector = record { suite_id = "demo"; version = "1"; content_hash = "sha256:3" }

abbrev pub manifest : SuiteManifest
manifest = record {
  identity = selector;
  lane = "local";
  source_revision = "r1";
  source_digest = "sha256:4";
  cases_hash = "sha256:5";
  transform_hash = "sha256:6";
  metric_schema_version = pos 1;
  required_packs = [];
}

abbrev pub cases : List (BenchmarkCase String)
cases = case_of "good" ∷ unfit ∷ case_of "bad" ∷ case_of "broken" ∷ []

abbrev pub suite : FrozenSuite String
suite = record { manifest = manifest; cases = cases }

abbrev pub request : CampaignRequest
request = record {
  suite = selector;
  repetitions = pos 2;
  case_ids = some ("bad" ∷ "good" ∷ "unfit" ∷ []);
}

abbrev pub digest : List String → String
digest ids = "sha256:7"

abbrev pub result : Result CampaignError (CampaignReport String × State ℕ String)
result = run env digest baseline (suite ∷ []) request 0

-- The parts of a report that the tests look at
abbrev pub counts : Result CampaignError (CampaignReport String × State ℕ String) → List ℕ
counts (err error) = []
counts (ok (report, s)) =
    report.summary.attempted
    ∷ report.summary.passed
    ∷ report.summary.errors
    ∷ report.summary.ineligible
    ∷ length s.files
    ∷ []
