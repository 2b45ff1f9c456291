-- ===== src/Loop/Accounting.antt =====
-- What the result of a run of `AgentLoop` says of its limits, by its status.
use pan_agent.Base.{ℕ, ◌+◌, ◌<◌, ◌≡◌, String, true, false, none, some, arith}
use pan_agent.Base.Int.{pos, ◌≤ℤ◌, pos_part}
use pan_agent.Limits.{RunLimits}
use pan_agent.Trace.{
  RunStatus, succeeded, model_error, parse_error, tool_error, step_limit, timeout, budget_exceeded,
  policy_blocked, runtime_error,
}
use pan_agent.Loop.{RunResult, calls_spent}

-- A run that ended in the call of the model or of a tool: one call more than there were steps.
abbrev pub IsFailed : RunResult → Type 0
IsFailed r =
    (r.model_calls ≡ r.steps + 1)
    × (r.output ≡ none)
    × ((message : String) × (r.error ≡ some message))

-- What the status of a result says of its other fields.
abbrev pub Explains : RunLimits → RunResult → RunStatus → Type 0
Explains limits r succeeded =
    (r.model_calls ≡ r.steps + 1)
    × (r.error ≡ none)
    × ((output : String) × (r.output ≡ some output))
Explains limits r budget_exceeded =
    (pos r.model_calls ≡ limits.max_model_calls) × (r.steps ≡ r.model_calls) × (r.output ≡ none)
Explains limits r step_limit =
    (pos r.steps ≡ limits.max_steps) × (r.steps ≡ r.model_calls) × (r.output ≡ none)
Explains limits r timeout = (r.steps ≡ r.model_calls) × (r.output ≡ none)
Explains limits r runtime_error = ⊥
Explains limits r _ = IsFailed r

abbrev pub IsFailure : RunStatus → Type 0
IsFailure model_error = Unit
IsFailure parse_error = Unit
IsFailure tool_error = Unit
IsFailure policy_blocked = Unit
IsFailure _ = ⊥

pub record IsAccounted (limits : RunLimits) (r : RunResult) : Type 0 where
  pub steps_bound : pos r.steps ≤ℤ limits.max_steps
  pub calls_bound : pos r.model_calls ≤ℤ limits.max_model_calls
  pub explained : Explains limits r r.status

pub calls_spent-eq :
    (limits : RunLimits) (n : ℕ)
    → pos n ≤ℤ limits.max_model_calls
    → calls_spent limits n ≡ true
    → pos n ≡ limits.max_model_calls
unfolding calls_spent
calls_spent-eq limits n h k = ground arith

pub calls_left :
    (limits : RunLimits) (n : ℕ)
    → calls_spent limits n ≡ false
    → pos (n + 1) ≤ℤ limits.max_model_calls
unfolding calls_spent
calls_left limits n h = ground arith

pub out_of_fuel :
    (limits : RunLimits) (n : ℕ)
    → pos n ≤ℤ limits.max_model_calls
    → pos_part limits.max_model_calls < n + 0
    → ⊥
out_of_fuel limits n h k = ground arith
