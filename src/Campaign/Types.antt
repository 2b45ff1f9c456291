-- ===== src/Campaign/Types.antt =====
-- workspace_agent_harness/__init__.py: the identities, provenance and usage that a report carries, and
-- the records of an evaluation campaign. Durations and costs are whole numbers of one unit. A report
-- is what the campaign reads of it by `getattr`; a request is opaque.
use pan_agent.Base.{ℕ, String, Bool, true, false, ◌&&◌, Option, List, str_eq}
use pan_agent.Base.Int.{ℤ}
use pan_agent.Paths.{FilePath}

pub record ComponentIdentity : Type 0 where
  pub role : String
  pub implementation : String
  pub content_hash : String

pub record EvaluatorIdentity : Type 0 where
  pub evaluator_id : String
  pub version : String
  pub content_hash : String

pub record PackSelector : Type 0 where
  pub pack_id : String
  pub version : String
  pub content_hash : String

pub record SuiteSelector : Type 0 where
  pub suite_id : String
  pub version : String
  pub content_hash : String

-- left == right, of two frozen dataclasses with three texts
unfoldable pub component_eq : ComponentIdentity → ComponentIdentity → Bool
component_eq left right =
    str_eq left.role right.role
    && (str_eq left.implementation right.implementation
        && str_eq left.content_hash right.content_hash)

unfoldable pub evaluator_eq : EvaluatorIdentity → EvaluatorIdentity → Bool
evaluator_eq left right =
    str_eq left.evaluator_id right.evaluator_id
    && (str_eq left.version right.version && str_eq left.content_hash right.content_hash)

unfoldable pub pack_eq : PackSelector → PackSelector → Bool
pack_eq left right =
    str_eq left.pack_id right.pack_id
    && (str_eq left.version right.version && str_eq left.content_hash right.content_hash)

unfoldable pub suite_eq : SuiteSelector → SuiteSelector → Bool
suite_eq left right =
    str_eq left.suite_id right.suite_id
    && (str_eq left.version right.version && str_eq left.content_hash right.content_hash)

pub record RuntimeProvenance : Type 0 where
  pub runtime : ComponentIdentity
  pub configuration_digest : String
  pub model : ComponentIdentity
  pub tools : List ComponentIdentity
  pub workspace : Option ComponentIdentity
  pub registered_packs : List PackSelector
  pub evaluators : List EvaluatorIdentity
  pub protected_roots : List FilePath

pub record RunUsage : Type 0 where
  pub wall_time_seconds : ℕ
  pub model_requests : ℕ
  pub input_tokens : Option ℕ
  pub output_tokens : Option ℕ
  pub cache_read_tokens : Option ℕ
  pub cache_write_tokens : Option ℕ
  pub tool_calls : ℕ
  pub cost_usd : Option ℕ
  pub cost_source : Option String

-- getattr(report, "usage", None): None, a `RunUsage`, or a value of another type
pub data UsageAttribute : Type 0 where
  no_usage : UsageAttribute
  run_usage : RunUsage → UsageAttribute
  other_usage : UsageAttribute

-- A status is the text of its `value`; a provenance or an evaluator of another type is none.
pub record Report : Type 0 where
  pub passed : Bool
  pub result_status : Option String
  pub evaluation_status : Option String
  pub usage : UsageAttribute
  pub provenance : Option RuntimeProvenance
  pub evaluator : Option EvaluatorIdentity

pub data CaseEligibility : Type 0 where
  eligible ineligible : CaseEligibility

abbrev pub is_eligible : CaseEligibility → Bool
is_eligible eligible = true
is_eligible ineligible = false

pub record BenchmarkCase (Request : Type 0) : Type 0 where
  pub case_id : String
  pub source_case_id : String
  pub request : Request
  pub eligibility : CaseEligibility
  pub ineligibility_reason : Option String

pub record SuiteManifest : Type 0 where
  pub identity : SuiteSelector
  pub lane : String
  pub source_revision : String
  pub source_digest : String
  pub cases_hash : String
  pub transform_hash : String
  pub metric_schema_version : ℤ
  pub required_packs : List PackSelector

-- `_FrozenSuite`
pub record FrozenSuite (Request : Type 0) : Type 0 where
  pub manifest : SuiteManifest
  pub cases : List (BenchmarkCase Request)

pub record CampaignRequest : Type 0 where
  pub suite : SuiteSelector
  pub repetitions : ℤ
  pub case_ids : Option (List String)

pub record CampaignAttempt (Request : Type 0) : Type 0 where
  pub suite : SuiteSelector
  pub case_id : String
  pub source_case_id : String
  pub repetition : ℕ
  pub request : Request
  pub transform_hash : String
  pub passed : Bool
  pub usage : Option RunUsage
  pub report : Option Report
  pub configuration_digest : String
  pub started_at : String
  pub finished_at : String
  pub duration_seconds : ℕ
  pub failure_attribution : Option String
  pub error : Option String

pub record CampaignCaseRecord (Request : Type 0) : Type 0 where
  pub case_id : String
  pub source_case_id : String
  pub eligibility : CaseEligibility
  pub ineligibility_reason : Option String
  pub attempts : List (CampaignAttempt Request)

-- A quotient of two whole numbers, before Python rounds it to a float.
pub record Ratio : Type 0 where
  pub numerator : ℕ
  pub denominator : ℕ

pub record CampaignSummary : Type 0 where
  pub attempted : ℕ
  pub passed : ℕ
  pub failed : ℤ
  pub errors : ℕ
  pub ineligible : ℕ
  pub pass_rate : Option Ratio
  pub cost_per_task_usd : Option Ratio
  pub cost_per_success_usd : Option Ratio
  pub cost_observed_attempts : ℕ
  pub cost_measurement_coverage : Option Ratio
  pub usage_observed_attempts : ℕ
  pub usage_measurement_coverage : Option Ratio
  pub wall_time_seconds : ℕ
  pub model_requests : ℕ
  pub input_tokens : Option ℕ
  pub output_tokens : Option ℕ
  pub cache_read_tokens : Option ℕ
  pub cache_write_tokens : Option ℕ
  pub tool_calls : ℕ
  pub token_measurement_coverage : Option Ratio
  pub failure_attribution : List (String × ℕ)

pub record CampaignProvenance : Type 0 where
  pub runtime_configurations : List String
  pub runtimes : List ComponentIdentity
  pub models : List ComponentIdentity
  pub tools : List ComponentIdentity
  pub workspaces : List ComponentIdentity
  pub evaluators : List EvaluatorIdentity
  pub pricing_sources : List String

pub record CampaignReport (Request : Type 0) : Type 0 where
  pub request : CampaignRequest
  pub configuration_digest : String
  pub suite : SuiteManifest
  pub provenance : CampaignProvenance
  pub cases : List (CampaignCaseRecord Request)
  pub attempts : List (CampaignAttempt Request)
  pub summary : CampaignSummary
  pub campaign_id : String
