-- ===== src/Runtime/Evaluator.antt =====
-- workspace_agent_harness/__init__.py: `_evaluator_process_entry` and `_run_evaluator`. The child process
-- sends messages through a pipe; the parent polls it twice, with a timeout. What a poll finds is a
-- value: nothing in time, a message, or the closed pipe. `size` is the number of bytes of a verdict's
-- JSON form.
use Prim.Native.String.{◌++◌ as ◌<>◌}
use pan_agent.Base.{ℕ, String, Bool, List, [], ◌∷◌, if◌then◌else◌}
use pan_agent.Base.Int.{ℤ, pos, ltb_ℤ}
use pan_agent.Base.Result.{Result, ok, err}
use pan_agent.Runtime.Types.{EvaluationVerdict}

-- How the pack's evaluator ends: by a verdict, by another value, or by an exception with its type
pub data EvaluatorOutcome : Type 0 where
  returned : EvaluationVerdict → EvaluatorOutcome
  other_value : EvaluatorOutcome
  raised : String → String → EvaluatorOutcome

pub data Message : Type 0 where
  ready : Message
  verdict : EvaluationVerdict → Message
  failure : String → String → Message

pub data Poll : Type 0 where
  nothing : Poll
  message : Message → Poll
  closed : Poll

pub data EvaluatorError : Type 0 where
  no_fork : EvaluatorError
  not_ready : EvaluatorError
  readiness_failed : EvaluatorError
  timeout_reached : EvaluatorError
  ended_without_verdict : EvaluatorError
  evaluator_raised : String → String → EvaluatorError
  invalid_payload : EvaluatorError
  output_too_large : EvaluatorError

-- str(error)
unfoldable pub error_message : EvaluatorError → String
error_message no_fork = "evaluator isolation requires multiprocessing fork support"
error_message not_ready = "evaluator process did not become ready"
error_message readiness_failed = "evaluator process readiness protocol failed"
error_message timeout_reached = "evaluator timeout reached"
error_message ended_without_verdict = "evaluator ended without a verdict"
error_message (evaluator_raised kind text) = kind <> ": " <> text
error_message invalid_payload = "evaluator returned an invalid process payload"
error_message output_too_large = "evaluator output exceeded max_output_bytes"

module _ (size : EvaluationVerdict → ℕ) (max_output_bytes : ℤ) where
  abbrev pub is_too_large : EvaluationVerdict → Bool
  is_too_large v = ltb_ℤ max_output_bytes (pos (size v))

  -- The message after "ready"
  unfoldable pub answer : EvaluatorOutcome → Message
  answer (raised kind text) = failure kind text
  answer other_value = failure "TypeError" "pack evaluate must return EvaluationVerdict"
  answer (returned v) =
      if is_too_large v
      then failure "ValueError" "evaluator output exceeded max_output_bytes"
      else verdict v

  -- `_evaluator_process_entry`: what it sends
  unfoldable pub evaluator_process_entry : EvaluatorOutcome → List Message
  evaluator_process_entry outcome = ready ∷ answer outcome ∷ []

-- The second poll
unfoldable pub receive_answer : Poll → Result EvaluatorError EvaluationVerdict
receive_answer nothing = err timeout_reached
receive_answer closed = err ended_without_verdict
receive_answer (message (failure kind text)) = err (evaluator_raised kind text)
receive_answer (message (verdict v)) = ok v
receive_answer (message ready) = err invalid_payload

-- The first poll
unfoldable pub receive_ready : Poll → Poll → Result EvaluatorError EvaluationVerdict
receive_ready nothing second = err not_ready
receive_ready closed second = err ended_without_verdict
receive_ready (message ready) second = receive_answer second
receive_ready (message _) second = err readiness_failed

-- `_run_evaluator`
unfoldable pub run_evaluator : Bool → Poll → Poll → Result EvaluatorError EvaluationVerdict
run_evaluator fork_supported first second =
    if fork_supported then receive_ready first second else err no_fork

-- The polls of a child whose messages come in time; the pipe is closed behind them.
abbrev pub poll_of : List Message → Poll × Poll
poll_of [] = (closed, closed)
poll_of (m ∷ []) = (message m, closed)
poll_of (m ∷ n ∷ rest) = (message m, message n)
