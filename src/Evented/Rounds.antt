-- ===== src/Evented/Rounds.antt =====
-- Lemmas on the log and on the `KeyError` over the turns of `AgentLoop.run`.
use pan_agent.Base.{◌≡◌, refl, ◌∙◌, ap, String, Bool, true, false, Option, none, some, List}
use pan_agent.Base.Int.{ℤ}
use pan_agent.Limits.{RunLimits}
use pan_agent.Loop.{Task}
use pan_agent.Evented.Types.{
  Candidate, final, FinalDisposition, Reasoning, ExchangeSettled, Exchanged, settled,
  PreparedModelTurn,
}
use pan_agent.Evented.Machine.{◌>>=◌, Agent, value}
use pan_agent.Evented.Admission.{candidate_tool_calls, admission_error}
use pan_agent.Evented.Exchange.{Attempt}
use pan_agent.Evented.Batch.{Place}
use pan_agent.Evented.{turn, start}
use pan_agent.Evented.Taking.{
  check_budgets, take_final, take_candidate, admit, note_retry, take_settled, take_exchange,
}
use pan_agent.Evented.Admitted.{AreAdmitted, admission_error-none}
use pan_agent.Evented.Keeps.{>>=-Keeps, >>=-Keeps-value, Keeps, keeps_rules, keep-Keeps, emit-Keeps}
use pan_agent.Evented.Parts.{check_signal-Keeps, obtain-Keeps}
use pan_agent.Evented.Calls.{admission_error-Keeps, take_calls-Keeps}

module _ {W : Type 0} (agent : Agent W) (run_id : String) (task : Task) (limits : RunLimits) where
  pub check_budgets-Keeps :
      (started_at : ℤ)
      → Keeps agent run_id task.task_id (check_budgets agent run_id task limits started_at)
  unfolding check_budgets
  check_budgets-Keeps started_at = search (keeps_rules, check_signal-Keeps) depth 10

  take_final-Keeps :
      (place : Place) (content : String) (disposition : FinalDisposition)
      (reason_code : Option String) (reasoning : Reasoning) (accepted : String)
      → Keeps agent run_id task.task_id (
          take_final agent run_id task limits place content disposition reason_code reasoning
            accepted)
  unfolding take_final
  take_final-Keeps place content disposition reason_code reasoning accepted =
      search (keeps_rules, keep-Keeps) depth 10

  take_candidate-Keeps :
      (place : Place) (candidate : Candidate) (used : List String) (accepted : String)
      → AreAdmitted agent (candidate_tool_calls candidate) used
      → Keeps agent run_id task.task_id
          (take_candidate agent run_id task limits place candidate accepted)
  unfolding take_candidate
  take_candidate-Keeps place (final content disposition reason_code reasoning) used accepted
        admitted =
      search take_final-Keeps
  take_candidate-Keeps place candidate used accepted admitted =
      >>=-Keeps agent run_id task.task_id
        (take_calls-Keeps agent run_id task.task_id limits place candidate used accepted admitted)
        (λ _. search keeps_rules)

  admit-Keeps :
      (place : Place) (candidate : Candidate) (used : List String) (cause : String)
      (error : Option String)
      → (error ≡ none → AreAdmitted agent (candidate_tool_calls candidate) used)
      → Keeps agent run_id task.task_id (admit agent run_id task limits place candidate cause error)
  unfolding admit
  admit-Keeps place candidate used cause none admitted =
      >>=-Keeps agent run_id task.task_id (emit-Keeps agent run_id task.task_id _)
        (λ accepted. take_candidate-Keeps place candidate used accepted (admitted refl))
  admit-Keeps place candidate used cause (some message) admitted = search keeps_rules

  -- The tests on a candidate, and what follows them.
  tested-Keeps :
      (place : Place) (candidate : Candidate) (used : List String) (cause : String)
      → Keeps agent run_id task.task_id (
          admission_error agent candidate used >>= λ error.
          admit agent run_id task limits place candidate cause error)
  tested-Keeps place candidate used cause =
      >>=-Keeps-value agent run_id task.task_id
        (admission_error-Keeps agent run_id task.task_id candidate used)
        (λ error s s' h. admit-Keeps place candidate used cause error (λ passed.
          admission_error-none agent candidate used s s' (h ∙ ap (λ e. value e s') passed)))

  note_retry-Keeps :
      (answer : ExchangeSettled) (prepared : PreparedModelTurn) (is_retry : Bool) (cause : String)
      → Keeps agent run_id task.task_id
          (note_retry agent run_id task limits answer prepared is_retry cause)
  unfolding note_retry
  note_retry-Keeps answer prepared true cause = search keeps_rules
  note_retry-Keeps answer prepared false cause = search keeps_rules

  take_settled-Keeps :
      (answer : ExchangeSettled) (made : Attempt) (is_retry : Bool)
      → Keeps agent run_id task.task_id (take_settled agent run_id task limits answer made is_retry)
  unfolding take_settled
  take_settled-Keeps answer made is_retry =
      search (keeps_rules, note_retry-Keeps, tested-Keeps) depth 10

  pub take_exchange-Keeps :
      (exchange : Exchanged) (made : Attempt) (is_retry : Bool)
      → Keeps agent run_id task.task_id
          (take_exchange agent run_id task limits exchange made is_retry)
  unfolding take_exchange
  take_exchange-Keeps (settled answer) made is_retry = search take_settled-Keeps
  take_exchange-Keeps _ made is_retry = search keeps_rules

  pub turn-Keeps :
      (started_at : ℤ) (request_id : String)
      → Keeps agent run_id task.task_id (turn agent run_id task limits started_at request_id)
  unfolding turn
  turn-Keeps started_at request_id =
      search (keeps_rules, check_budgets-Keeps, obtain-Keeps, take_exchange-Keeps) depth 8

  pub start-Keeps : Keeps agent run_id task.task_id (start agent run_id task limits)
  unfolding start
  start-Keeps = search (keeps_rules, keep-Keeps)
