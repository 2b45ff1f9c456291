-- ===== src/Campaign/Summary.antt =====
-- workspace_agent_harness/__init__.py: `_attempt_failure_attribution`, `_is_error_attribution`, and the
-- part of `EvaluationCampaign.run` that makes the summary of the attempts.
use Prim.Native.String.{◌++◌ as ◌<>◌}
use pan_agent.Base.{
  ℕ, ◌+◌, String, Bool, true, false, ◌&&◌, ◌||◌, Option, none, some, List, [], ◌∷◌, str_eq,
  if◌then◌else◌, length, count_if, ltb, ◌==◌,
}
use pan_agent.Base.Int.{pos, ◌-ℤ◌}
use pan_agent.Campaign.Types.{
  RunUsage, Report, BenchmarkCase, is_eligible, CampaignAttempt, Ratio, CampaignSummary,
}

-- The evaluation's part of `_attempt_failure_attribution`
unfoldable pub evaluation_attribution : Report → String
evaluation_attribution report = elim (report.evaluation_status) [
  | some status ↦ "evaluation." <> status
  | none ↦ "evaluation.failed"
]

-- The part after the test of `passed`
unfoldable pub failed_attribution : Report → String
failed_attribution report = elim (report.result_status) [
  | some status ↦
      if str_eq status "succeeded" then evaluation_attribution report else "execution." <> status
  | none ↦ evaluation_attribution report
]

unfoldable pub attempt_failure_attribution : Report → Option String
attempt_failure_attribution report =
    if report.passed then none else some (failed_attribution report)

unfoldable pub is_error_attribution : Option String → Bool
is_error_attribution none = false
is_error_attribution (some attribution) =
    str_eq attribution "runtime.exception"
    || (str_eq attribution "evaluation.error" || str_eq attribution "evaluation.not_run")

-- failure_counts[key] = failure_counts.get(key, 0) + 1
unfoldable pub count_failure : String → List (String × ℕ) → List (String × ℕ)
count_failure key [] = (key, 1) ∷ []
count_failure key ((name, count) ∷ rest) =
    if str_eq name key then (name, count + 1) ∷ rest else (name, count) ∷ count_failure key rest

-- sum(value(item) for item in items)
unfoldable pub total : {A : Type 0} → (A → ℕ) → List A → ℕ
total value [] = 0
total value (item ∷ items) = value item + total value items

-- [value(item) for item in items if value(item) is not None]
unfoldable pub observed : {A B : Type 0} → (A → Option B) → List A → List B
observed value [] = []
observed value (item ∷ items) = elim (value item) [
  | none ↦ observed value items
  | some found ↦ found ∷ observed value items
]

abbrev pub identity : ℕ → ℕ
identity n = n

abbrev pub is_some : {A : Type 0} → Option A → Bool
is_some none = false
is_some (some _) = true

-- All four token counts are there.
abbrev pub has_tokens : RunUsage → Bool
has_tokens usage =
    is_some usage.input_tokens
    && (is_some usage.output_tokens
        && (is_some usage.cache_read_tokens && is_some usage.cache_write_tokens))

abbrev pub complete : RunUsage → Option RunUsage
complete usage = if has_tokens usage then some usage else none

-- cast(int, tokens), of a count that is there
abbrev pub count_of : Option ℕ → ℕ
count_of none = 0
count_of (some tokens) = tokens

-- numerator / denominator if denominator else None
abbrev pub ratio : ℕ → ℕ → Option Ratio
ratio numerator denominator =
    if denominator == 0
    then none
    else some (record { numerator = numerator; denominator = denominator })

abbrev pub over : Option ℕ → ℕ → Option Ratio
over none denominator = none
over (some numerator) denominator = ratio numerator denominator

abbrev pub note_failure : Option String → List (String × ℕ) → List (String × ℕ)
note_failure none counts = counts
note_failure (some attribution) counts = count_failure attribution counts

module _ {Request : Type 0} where
  abbrev pub has_passed : CampaignAttempt Request → Bool
  has_passed attempt = attempt.passed

  abbrev pub is_error : CampaignAttempt Request → Bool
  is_error attempt = is_error_attribution attempt.failure_attribution

  abbrev pub is_ineligible : BenchmarkCase Request → Bool
  is_ineligible case = if is_eligible case.eligibility then false else true

  abbrev pub usage_of : CampaignAttempt Request → Option RunUsage
  usage_of attempt = attempt.usage

  abbrev pub cost_of : CampaignAttempt Request → Option ℕ
  cost_of attempt = elim (attempt.usage) [ none ↦ none | some usage ↦ usage.cost_usd ]

  unfoldable pub failure_counts :
      List (String × ℕ) → List (CampaignAttempt Request) → List (String × ℕ)
  failure_counts counts [] = counts
  failure_counts counts (attempt ∷ attempts) =
      failure_counts (note_failure attempt.failure_attribution counts) attempts

  -- The local variables of `run` from `attempted` on, and the `CampaignSummary` made of them
  unfoldable pub summarize :
      List (BenchmarkCase Request) → List (CampaignAttempt Request) → CampaignSummary
  summarize selected attempts =
      let attempted : ℕ = length attempts in
      let passed : ℕ = count_if has_passed attempts in
      let errors : ℕ = count_if is_error attempts in
      let observed_costs = observed cost_of attempts in
      let cost_observed : ℕ = length observed_costs in
      let complete_cost = ltb 0 attempted && cost_observed == attempted in
      let total_cost : Option ℕ =
        if complete_cost then some (total identity observed_costs) else none in
      let observed_usage = observed usage_of attempts in
      let usage_observed : ℕ = length observed_usage in
      let complete_tokens = observed complete observed_usage in
      let token_observed : ℕ = length complete_tokens in
      let all_tokens_observed = ltb 0 attempted && token_observed == attempted in
      let sum_tokens : (RunUsage → Option ℕ) → Option ℕ = λ tokens.
        if all_tokens_observed
        then some (total (λ usage. count_of (tokens usage)) complete_tokens)
        else none in
      record {
        attempted = attempted;
        passed = passed;
        failed = (pos attempted -ℤ pos passed) -ℤ pos errors;
        errors = errors;
        ineligible = count_if is_ineligible selected;
        pass_rate = ratio passed attempted;
        cost_per_task_usd = over total_cost attempted;
        cost_per_success_usd = over total_cost passed;
        cost_observed_attempts = cost_observed;
        cost_measurement_coverage = ratio cost_observed attempted;
        usage_observed_attempts = usage_observed;
        usage_measurement_coverage = ratio usage_observed attempted;
        wall_time_seconds = total (λ attempt. attempt.duration_seconds) attempts;
        model_requests = total (λ usage. usage.model_requests) observed_usage;
        input_tokens = sum_tokens (λ usage. usage.input_tokens);
        output_tokens = sum_tokens (λ usage. usage.output_tokens);
        cache_read_tokens = sum_tokens (λ usage. usage.cache_read_tokens);
        cache_write_tokens = sum_tokens (λ usage. usage.cache_write_tokens);
        tool_calls = total (λ usage. usage.tool_calls) observed_usage;
        token_measurement_coverage = ratio token_observed attempted;
        failure_attribution = failure_counts [] attempts;
      }
