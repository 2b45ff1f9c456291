-- ===== src/Limits/Tests.antt =====
-- Runs of the limit functions, and their theorems at concrete limits.
use pan_agent.Base.{ℕ, ◌≡◌, refl, none, some, ◌==◌}
use pan_agent.Base.Int.{pos, negsuc, min_ℤ}
use pan_agent.Base.Result.{err}
use pan_agent.Limits.{
  RunLimits, RunLimitOverrides, RuntimeConfig, effective_limits, counts_not_positive, roots_overlap,
  validate_limits, validate_runtime_config, effective_values, resolve_limits,
}

abbrev small : RunLimits
small = record { max_steps = pos 5; max_model_calls = pos 6; timeout_seconds = pos 30 }

abbrev large : RunLimits
large = record { max_steps = pos 50; max_model_calls = pos 60; timeout_seconds = pos 300 }

abbrev config : RuntimeConfig ℕ
config = record {
  interface_version = pos 1;
  trace_schema_version = pos 2;
  default = small;
  hard = large;
  evaluator_limits = record { timeout_seconds = pos 10; max_output_bytes = pos 1000 };
  control_root = 1;
  workspace_root = 2;
}

abbrev asked : RunLimitOverrides
asked = record { max_steps = some (pos 70); max_model_calls = none; timeout_seconds = some (pos 9) }

abbrev granted : RunLimits
granted = record { max_steps = pos 50; max_model_calls = pos 6; timeout_seconds = pos 9 }

negative_refused :
    resolve_limits (record asked { max_steps = some (negsuc 0) }) none small large
    ≡ err (counts_not_positive effective_limits)
unfolding resolve_limits effective_values validate_limits min_ℤ
negative_refused = refl

overlap_refused :
    validate_runtime_config ◌==◌ (record config { workspace_root = 1 }) ≡ err roots_overlap
unfolding validate_runtime_config validate_limits
overlap_refused = refl
