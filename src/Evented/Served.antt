-- ===== src/Evented/Served.antt =====
-- Lemmas on what `AgentLoop.run` does with an answer of the gateway, against the tests of the log.
use pan_agent.Base.{refl, String, Bool, true, false, Option, none, some, List, inl}
use pan_agent.Base.Int.{ℤ}
use pan_agent.Limits.{RunLimits}
use pan_agent.Loop.{Task}
use pan_agent.EventLog.Journal.{IsIn}
use pan_agent.Evented.Types.{
  Candidate, final, FinalDisposition, Reasoning, ExchangeSettled, Exchanged, settled,
  PreparedModelTurn,
}
use pan_agent.Evented.Machine.{Agent}
use pan_agent.Evented.Exchange.{Attempt}
use pan_agent.Evented.Batch.{Place}
use pan_agent.Evented.{turn}
use pan_agent.Evented.Taking.{
  check_budgets, take_final, take_candidate, admit, note_retry, take_settled, take_exchange,
}
use pan_agent.Evented.Tame.{IsTame}
use pan_agent.Evented.Serves.{Serves, nothing, itself, >>=-Serves}
use pan_agent.Evented.Steps.{the-Serves}
use pan_agent.Evented.Emits.{serves_rules}
use pan_agent.Evented.Serving.{check_signal-Serves}
use pan_agent.Evented.Asking.{started_first, obtain-Serves}
use pan_agent.Evented.Executing.{admission_error-Serves, take_calls-Serves}

module _ {W : Type 0} (agent : Agent W) (run_id : String) (task : Task) (limits : RunLimits)
    (tame : IsTame agent) where
  check_budgets-Serves :
      {known : List String} (started_at : ℤ)
      → Serves run_id known nothing (check_budgets agent run_id task limits started_at)
  unfolding check_budgets
  check_budgets-Serves started_at = search (serves_rules, check_signal-Serves) depth 12

  take_final-Serves :
      {known : List String} (place : Place) (content : String) (disposition : FinalDisposition)
      (reason_code : Option String) (reasoning : Reasoning) (accepted : String)
      → IsIn accepted known
      → Serves run_id known nothing (
          take_final agent run_id task limits place content disposition reason_code reasoning
            accepted)
  unfolding take_final
  take_final-Serves place content disposition reason_code reasoning accepted caused =
      search serves_rules depth 12

  take_candidate-Serves :
      {known : List String} (place : Place) (candidate : Candidate) (accepted : String)
      → IsIn accepted known
      → Serves run_id known nothing
          (take_candidate agent run_id task limits place candidate accepted)
  unfolding take_candidate
  take_candidate-Serves place (final content disposition reason_code reasoning) accepted caused =
      search take_final-Serves
  take_candidate-Serves place candidate accepted caused =
      search (serves_rules, take_calls-Serves, tame) depth 8

  admit-Serves :
      {known : List String} (place : Place) (candidate : Candidate) (cause : String)
      (error : Option String)
      → IsIn cause known
      → Serves run_id known nothing (admit agent run_id task limits place candidate cause error)
  unfolding admit
  admit-Serves place candidate cause none caused = search (serves_rules, take_candidate-Serves)
  admit-Serves place candidate cause (some message) caused = search serves_rules depth 8

  note_retry-Serves :
      {known : List String} (answer : ExchangeSettled) (prepared : PreparedModelTurn)
      (is_retry : Bool) (cause : String)
      → IsIn cause known
      → Serves run_id known itself
          (note_retry agent run_id task limits answer prepared is_retry cause)
  unfolding note_retry
  note_retry-Serves answer prepared true cause caused = search serves_rules
  note_retry-Serves answer prepared false cause caused = search serves_rules

  take_settled-Serves :
      {known : List String} (answer : ExchangeSettled) (made : Attempt) (is_retry : Bool)
      → IsIn made.exchange_started known
      → Serves run_id known nothing (take_settled agent run_id task limits answer made is_retry)
  unfolding take_settled
  take_settled-Serves answer made is_retry caused =
      search (serves_rules, note_retry-Serves, admission_error-Serves, admit-Serves) depth 10

  take_exchange-Serves :
      {known : List String} (exchange : Exchanged) (made : Attempt) (is_retry : Bool)
      → IsIn made.exchange_started known
      → Serves run_id known nothing (take_exchange agent run_id task limits exchange made is_retry)
  unfolding take_exchange
  take_exchange-Serves (settled answer) made is_retry caused = search take_settled-Serves
  take_exchange-Serves _ made is_retry caused = search serves_rules depth 8

  pub turn-Serves :
      {known : List String} (started_at : ℤ) (request_id : String)
      → Serves run_id known nothing (turn agent run_id task limits started_at request_id)
  unfolding turn
  turn-Serves started_at request_id =
      >>=-Serves run_id nothing (check_budgets-Serves started_at) (λ _. the-Serves run_id _ _ (λ s.
        >>=-Serves run_id started_first
          (obtain-Serves agent run_id task.task_id request_id limits tame _)
          (λ made. take_exchange-Serves made.0.exchange made.0 made.1 (inl refl))))
