-- ===== src/Limits.antt =====
-- workspace_agent_harness/__init__.py: `RunLimits`, `RunLimitOverrides`, `RuntimeConfig` and the
-- functions that validate and resolve the limits of a run. A duration is an integer number of one
-- unit of time; `Path.resolve` and the comparison of paths are the argument `overlap`.
pub mod Bounds
pub mod Tests
use pan_agent.Base.{ℕ, Bool, ◌||◌, Option, none, some}
use pan_agent.Base.Int.{ℤ, pos, leb_ℤ, ltb_ℤ, min_ℤ}
use pan_agent.Base.Result.{Result, ok, err, ◌>>=◌, ◌>>◌, raise_if}

pub record RunLimits : Type 0 where
  pub max_steps : ℤ
  pub max_model_calls : ℤ
  pub timeout_seconds : ℤ

pub record RunLimitOverrides : Type 0 where
  pub max_steps : Option ℤ
  pub max_model_calls : Option ℤ
  pub timeout_seconds : Option ℤ

pub record EvaluatorLimits : Type 0 where
  pub timeout_seconds : ℤ
  pub max_output_bytes : ℤ

-- Which set of limits a message is about: `field_name`.
pub data Field : Type 0 where
  default_limits hard_limits effective_limits : Field

pub data LimitError : Type 0 where
  counts_not_positive : Field → LimitError
  timeout_not_positive : Field → LimitError
  versions_not_positive : LimitError
  default_exceeds_hard : LimitError
  evaluator_not_positive : LimitError
  roots_overlap : LimitError

pub record RuntimeConfig (Root : Type 0) : Type 0 where
  pub interface_version : ℤ
  pub trace_schema_version : ℤ
  pub default : RunLimits
  pub hard : RunLimits
  pub evaluator_limits : EvaluatorLimits
  pub control_root : Root
  pub workspace_root : Root

abbrev not_positive : ℤ → Bool
not_positive n = leb_ℤ n (pos 0)

unfoldable pub validate_limits : RunLimits → Field → Result LimitError (Unit {0})
validate_limits limits field = do
  raise_if (not_positive limits.max_steps || not_positive limits.max_model_calls)
      (counts_not_positive field)
  raise_if (not_positive limits.timeout_seconds) (timeout_not_positive field)

unfoldable pub validate_runtime_config :
    {Root : Type 0} → (Root → Root → Bool) → RuntimeConfig Root → Result LimitError (Unit {0})
validate_runtime_config overlap config = do
  raise_if (not_positive config.interface_version || not_positive config.trace_schema_version)
      versions_not_positive
  validate_limits config.default default_limits
  validate_limits config.hard hard_limits
  raise_if
      (ltb_ℤ config.hard.max_steps config.default.max_steps
        || ltb_ℤ config.hard.max_model_calls config.default.max_model_calls
        || ltb_ℤ config.hard.timeout_seconds config.default.timeout_seconds)
      default_exceeds_hard
  raise_if
      (not_positive config.evaluator_limits.timeout_seconds
        || not_positive config.evaluator_limits.max_output_bytes)
      evaluator_not_positive
  raise_if (overlap config.control_root config.workspace_root) roots_overlap

-- `value if value is not None else fallback`
abbrev pub value_or {ℓ} : {A : Type ℓ} → Option A → A → A
value_or (some value) fallback = value
value_or none fallback = fallback

-- The `values` of `_resolve_limits`.
unfoldable pub effective_values : RunLimitOverrides → RunLimits → RunLimits → RunLimits
effective_values overrides base hard = record {
  max_steps = min_ℤ (value_or overrides.max_steps base.max_steps) hard.max_steps;
  max_model_calls =
      min_ℤ (value_or overrides.max_model_calls base.max_model_calls) hard.max_model_calls;
  timeout_seconds =
      min_ℤ (value_or overrides.timeout_seconds base.timeout_seconds) hard.timeout_seconds;
}

unfoldable pub resolve_limits :
    RunLimitOverrides → Option RunLimits → RunLimits → RunLimits → Result LimitError RunLimits
resolve_limits overrides pack_defaults defaults hard = do
  let values = effective_values overrides (value_or pack_defaults defaults) hard
  validate_limits values effective_limits
  ok values
