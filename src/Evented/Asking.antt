-- ===== src/Evented/Asking.antt =====
-- Lemmas on the projection and the exchange of a turn of `AgentLoop.run`, against the tests of the
-- log.
use pan_agent.Base.{String, Bool, Option, List, ◌∷◌}
use pan_agent.Limits.{RunLimits}
use pan_agent.EventLog.Journal.{IsIn}
use pan_agent.Evented.Types.{ExchangeFailed, Exchanged, failed}
use pan_agent.Evented.Machine.{Agent, Part, ◌>>=◌}
use pan_agent.Evented.Turn.{Overflow}
use pan_agent.Evented.Exchange.{
  Attempt, project_context, attempt, record_failed_exchange, after_retry, recover, after_exchange,
  obtain,
}
use pan_agent.Evented.Accepting.{IsCause}
use pan_agent.Evented.Tame.{IsTame}
use pan_agent.Evented.Serves.{Serves, itself, second, >>=-Serves}
use pan_agent.Evented.Emits.{serves_rules}
use pan_agent.Evented.Serving.{
  exhausted-Serves, start_exchange-Serves, settle_exchange-Serves, started_of,
}
use pan_agent.Evented.Planning.{settle_projection-Serves}

-- The event that started the exchange, with whether it is a retry
abbrev pub started_first : Attempt × Bool → List String
started_first made = started_of made.0

module _ {W : Type 0} (agent : Agent W) (run_id task_id request_id : String) (limits : RunLimits)
    (tame : IsTame agent) where
  project_context-Serves :
      {known : List String} (turn_id : String) (overflow : Option Overflow) (cause : Option String)
      → IsCause known cause
      → Serves run_id known second
          (project_context agent run_id task_id request_id limits turn_id overflow cause)
  unfolding project_context
  project_context-Serves turn_id overflow cause caused =
      search (serves_rules, settle_projection-Serves, tame.names, tame.plans) depth 12

  attempt-Serves :
      {known : List String} (turn_id : String) (overflow : Option Overflow) (cause : Option String)
      → IsCause known cause
      → Serves run_id known started_of
          (attempt agent run_id task_id request_id limits turn_id overflow cause)
  unfolding attempt
  attempt-Serves turn_id overflow cause caused =
      search (serves_rules, project_context-Serves, start_exchange-Serves, settle_exchange-Serves)
        depth 12

  record_failed_exchange-Serves :
      {known : List String} (failure : ExchangeFailed) (made : Attempt)
      → IsIn made.exchange_started known
      → Serves run_id known itself
          (record_failed_exchange agent run_id task_id request_id limits failure made)
  unfolding record_failed_exchange
  record_failed_exchange-Serves failure made caused = search serves_rules

  attempted-Serves :
      {B : Type 0} {known : List String} {names : B → List String} (m : Part W Attempt)
      (f : Attempt → Part W B)
      → Serves run_id known started_of m
      → ((made : Attempt) → Serves run_id (made.exchange_started ∷ known) names (f made))
      → Serves run_id known names (m >>= f)
  attempted-Serves m f first rest = >>=-Serves run_id started_of first rest

  after_retry-Serves :
      {known : List String} (turn_id : String) (overflow : Overflow) (made : Attempt)
      (exchange : Exchanged)
      → IsIn made.exchange_started known
      → Serves run_id known started_first
          (after_retry agent run_id task_id request_id limits turn_id overflow made exchange)
  unfolding after_retry
  after_retry-Serves turn_id overflow made (failed failure) caused =
      search (serves_rules, record_failed_exchange-Serves, exhausted-Serves) depth 8
  after_retry-Serves turn_id overflow made _ caused = search serves_rules

  recover-Serves :
      {known : List String} (turn_id : String) (overflow : Overflow)
      → IsIn overflow.failure_event_id known
      → Serves run_id known started_first
          (recover agent run_id task_id request_id limits turn_id overflow)
  unfolding recover
  recover-Serves turn_id overflow caused =
      search (attempted-Serves, attempt-Serves, serves_rules, exhausted-Serves, after_retry-Serves)
        depth 8

  after_exchange-Serves :
      {known : List String} (turn_id : String) (made : Attempt) (exchange : Exchanged)
      → IsIn made.exchange_started known
      → Serves run_id known started_first
          (after_exchange agent run_id task_id request_id limits turn_id made exchange)
  unfolding after_exchange
  after_exchange-Serves turn_id made (failed failure) caused =
      search (serves_rules, record_failed_exchange-Serves, recover-Serves) depth 8
  after_exchange-Serves turn_id made _ caused = search serves_rules

  pub obtain-Serves :
      {known : List String} (turn_id : String)
      → Serves run_id known started_first (obtain agent run_id task_id request_id limits turn_id)
  unfolding obtain
  obtain-Serves turn_id =
      search (attempted-Serves, serves_rules, attempt-Serves, after_exchange-Serves) depth 8
