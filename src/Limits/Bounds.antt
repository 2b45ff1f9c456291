-- ===== src/Limits/Bounds.antt =====
-- What the resolved limits of a run guarantee, whoever asked for what.
use pan_agent.Base.{◌≡◌, sym, Bool, false, Option, none, some, arith}
use pan_agent.Base.Int.{ℤ, pos, ◌≤ℤ◌, ◌<ℤ◌, min_ℤ, min_ℤ-le_left, min_ℤ-le_right}
use pan_agent.Base.Result.{ok, >>=-eq-ok}
use pan_agent.Limits.{
  RunLimits, RunLimitOverrides, RuntimeConfig, Field, effective_limits, validate_limits,
  effective_values, resolve_limits, value_or,
}

pub record IsPositive (limits : RunLimits) : Type 0 where
  pub steps : pos 0 <ℤ limits.max_steps
  pub model_calls : pos 0 <ℤ limits.max_model_calls
  pub timeout : pos 0 <ℤ limits.timeout_seconds

pub record IsWithin (hard limits : RunLimits) : Type 0 where
  pub steps : limits.max_steps ≤ℤ hard.max_steps
  pub model_calls : limits.max_model_calls ≤ℤ hard.max_model_calls
  pub timeout : limits.timeout_seconds ≤ℤ hard.timeout_seconds

-- No limit asks for more than `asked`.
pub record IsAtMostAsked (overrides : RunLimitOverrides) (limits : RunLimits) : Type 0 where
  pub steps : (n : ℤ) → overrides.max_steps ≡ some n → limits.max_steps ≤ℤ n
  pub model_calls : (n : ℤ) → overrides.max_model_calls ≡ some n → limits.max_model_calls ≤ℤ n
  pub timeout : (n : ℤ) → overrides.timeout_seconds ≡ some n → limits.timeout_seconds ≤ℤ n

validate_limits-IsPositive :
    (limits : RunLimits) (field : Field) → validate_limits limits field ≡ ok tt → IsPositive limits
unfolding validate_limits
validate_limits-IsPositive limits field h = ground arith

resolve_limits_inv :
    (overrides : RunLimitOverrides) (pack : Option RunLimits) (defaults hard : RunLimits)
    {limits : RunLimits}
    → resolve_limits overrides pack defaults hard ≡ ok limits
    → (limits ≡ effective_values overrides (value_or pack defaults) hard) × IsPositive limits
unfolding resolve_limits
resolve_limits_inv overrides pack defaults hard {limits} h =
    let values = effective_values overrides (value_or pack defaults) hard in
    let (_, valid, same) = >>=-eq-ok (validate_limits values effective_limits) _ h in
    let e : values ≡ limits = cc in
    (sym e, rw (← e) (validate_limits-IsPositive values effective_limits valid))

effective_values-IsWithin :
    (overrides : RunLimitOverrides) (base hard : RunLimits)
    → IsWithin hard (effective_values overrides base hard)
unfolding effective_values
effective_values-IsWithin overrides base hard = record {
  steps = min_ℤ-le_right _ _;
  model_calls = min_ℤ-le_right _ _;
  timeout = min_ℤ-le_right _ _;
}

min_ℤ-le_asked :
    (asked : Option ℤ) (base hard n : ℤ) → asked ≡ some n → min_ℤ (value_or asked base) hard ≤ℤ n
min_ℤ-le_asked asked base hard n e = rw e (min_ℤ-le_left n hard)

effective_values-IsAtMostAsked :
    (overrides : RunLimitOverrides) (base hard : RunLimits)
    → IsAtMostAsked overrides (effective_values overrides base hard)
unfolding effective_values
effective_values-IsAtMostAsked overrides base hard = record {
  steps = min_ℤ-le_asked _ _ _;
  model_calls = min_ℤ-le_asked _ _ _;
  timeout = min_ℤ-le_asked _ _ _;
}

pub resolve_limits_bounds :
    (overrides : RunLimitOverrides) (pack : Option RunLimits) (defaults hard : RunLimits)
    {limits : RunLimits}
    → resolve_limits overrides pack defaults hard ≡ ok limits
    → IsPositive limits × IsWithin hard limits × IsAtMostAsked overrides limits
resolve_limits_bounds overrides pack defaults hard h =
    let (e, positive) = resolve_limits_inv overrides pack defaults hard h in
    let base = value_or pack defaults in
    (
      positive,
      rw e (effective_values-IsWithin overrides base hard),
      rw e (effective_values-IsAtMostAsked overrides base hard),
    )

-- What `validate_runtime_config` tests
pub record IsValid {Root : Type 0} (overlap : Root → Root → Bool) (config : RuntimeConfig Root)
    : Type 0 where
  pub interface_version : pos 0 <ℤ config.interface_version
  pub trace_schema_version : pos 0 <ℤ config.trace_schema_version
  pub default_positive : IsPositive config.default
  pub hard_positive : IsPositive config.hard
  pub default_within : IsWithin config.hard config.default
  pub evaluator_timeout : pos 0 <ℤ config.evaluator_limits.timeout_seconds
  pub evaluator_output : pos 0 <ℤ config.evaluator_limits.max_output_bytes
  pub disjoint : overlap config.control_root config.workspace_root ≡ false

-- Positive wherever it is given.
abbrev pub IsPositiveIfGiven : Option ℤ → Type 0
IsPositiveIfGiven none = Unit
IsPositiveIfGiven (some n) = pos 0 <ℤ n
