-- ===== src/Evented/Serving.antt =====
-- Lemmas on the smaller parts of a turn of `AgentLoop.run`, against the tests of the log.
use pan_agent.Base.{ℕ, String, Option, List, [], ◌∷◌}
use pan_agent.Base.Json.{Fields}
use pan_agent.Limits.{RunLimits}
use pan_agent.EventLog.Journal.{IsIn}
use pan_agent.Evented.Types.{PreparedModelTurn, Exchanged, interrupted}
use pan_agent.Evented.Machine.{Agent, cancelled, check_signal}
use pan_agent.Evented.Turn.{Overflow, exhausted}
use pan_agent.Evented.Exchange.{Attempt, start_exchange, settle_exchange}
use pan_agent.Evented.Accepting.{IsCause}
use pan_agent.Evented.Serves.{Serves, nothing, itself}
use pan_agent.Evented.Emits.{serves_rules}

abbrev pub started_of : Attempt → List String
started_of made = made.exchange_started ∷ []

module _ {W : Type 0} (agent : Agent W) (run_id task_id : String) where
  pub cancelled-Serves :
      {A : Type 0} {known : List String} {names : A → List String} (cause : Option String)
      → IsCause known cause
      → Serves run_id known names (cancelled agent run_id task_id cause)
  unfolding cancelled
  cancelled-Serves cause caused = search serves_rules depth 12

  pub check_signal-Serves :
      {known : List String} (cause : Option String)
      → IsCause known cause
      → Serves run_id known nothing (check_signal agent run_id task_id cause)
  unfolding check_signal
  check_signal-Serves cause caused = search (serves_rules, cancelled-Serves) depth 12

  pub exhausted-Serves :
      {A : Type 0} {known : List String} {names : A → List String} (turn_id : String)
      (overflow : Overflow) (cause reason : String) (completed_retries : ℕ) (more : Fields)
      (message : String)
      → IsIn cause known
      → Serves run_id known names (
          exhausted agent run_id task_id turn_id overflow cause reason completed_retries more
            message)
  unfolding exhausted
  exhausted-Serves turn_id overflow cause reason completed_retries more message caused =
      search serves_rules depth 12

module _ {W : Type 0} (agent : Agent W) (run_id task_id request_id : String)
    (limits : RunLimits) where
  pub start_exchange-Serves :
      {known : List String} (prepared : PreparedModelTurn) (overflow : Option Overflow)
      (cause : String)
      → IsIn cause known
      → Serves run_id known itself
          (start_exchange agent run_id task_id request_id limits prepared overflow cause)
  unfolding start_exchange
  start_exchange-Serves prepared overflow cause caused = search serves_rules depth 12

  pub settle_exchange-Serves :
      {known : List String} (started : String) (prepared : PreparedModelTurn) (exchange : Exchanged)
      → IsIn started known
      → Serves run_id known started_of
          (settle_exchange agent run_id task_id request_id limits started prepared exchange)
  unfolding settle_exchange
  settle_exchange-Serves started prepared interrupted caused = search cancelled-Serves
  settle_exchange-Serves started prepared (Exchanged.raised message) caused = search serves_rules
  settle_exchange-Serves started prepared _ caused = search (serves_rules, check_signal-Serves)
