-- ===== src/Evented/Parts.antt =====
-- Lemmas on the log over the parts of `AgentLoop.run` that make up a turn.
use pan_agent.Base.{ℕ, String, Option, none, some, List, [], ◌∷◌}
use pan_agent.Base.Json.{Fields}
use pan_agent.Limits.{RunLimits}
use pan_agent.Evented.Types.{
  PlannedEvent, projected, refused, Projected, unavailable, PreparedModelTurn, ExchangeFailed,
  Exchanged, failed, interrupted,
}
use pan_agent.Evented.Machine.{Agent, cancelled, check_signal}
use pan_agent.Evented.Turn.{Overflow, projection_failed, emit_planned, exhausted, settle_projection}
use pan_agent.Evented.Exchange.{
  Attempt, project_context, start_exchange, settle_exchange, attempt, record_failed_exchange,
  after_retry, recover, after_exchange, obtain,
}
use pan_agent.Evented.Keeps.{Keeps, keeps_rules, keep-Keeps, count-Keeps}

module _ {W : Type 0} (agent : Agent W) (run_id task_id : String) where
  pub cancelled-Keeps :
      {A : Type 0} (cause : Option String)
      → Keeps agent run_id task_id {A = A} (cancelled agent run_id task_id cause)
  unfolding cancelled
  cancelled-Keeps cause = search (keeps_rules, keep-Keeps)

  pub check_signal-Keeps :
      (cause : Option String) → Keeps agent run_id task_id (check_signal agent run_id task_id cause)
  unfolding check_signal
  check_signal-Keeps cause = search (keeps_rules, cancelled-Keeps)

  pub projection_failed-Keeps :
      {A : Type 0} (turn_id : String) (overflow : Option Overflow) (cause message : String)
      → Keeps agent run_id task_id {A = A}
          (projection_failed agent run_id task_id turn_id overflow cause message)
  unfolding projection_failed
  projection_failed-Keeps turn_id overflow cause message = search keeps_rules

  pub emit_planned-Keeps :
      (turn_id : String) (events : List PlannedEvent) (cause : String)
      → Keeps agent run_id task_id (emit_planned agent run_id task_id turn_id events cause)
  unfolding emit_planned
  emit_planned-Keeps turn_id [] cause = search keeps_rules
  emit_planned-Keeps turn_id (planned ∷ events) cause =
      search (keeps_rules, emit_planned-Keeps turn_id events)

  pub exhausted-Keeps :
      {A : Type 0} (turn_id : String) (overflow : Overflow) (cause reason : String)
      (completed_retries : ℕ) (more : Fields) (message : String)
      → Keeps agent run_id task_id {A = A} (
          exhausted agent run_id task_id turn_id overflow cause reason completed_retries more
            message)
  unfolding exhausted
  exhausted-Keeps turn_id overflow cause reason completed_retries more message = search keeps_rules

  pub settle_projection-Keeps :
      (turn_id : String) (overflow : Option Overflow) (started : String) (outcome : Projected)
      → Keeps agent run_id task_id
          (settle_projection agent run_id task_id turn_id overflow started outcome)
  unfolding settle_projection
  settle_projection-Keeps turn_id overflow started (Projected.returned (projected events context)) =
      search (keeps_rules, emit_planned-Keeps)
  settle_projection-Keeps turn_id overflow started (Projected.returned (refused events message)) =
      search (keeps_rules, emit_planned-Keeps)
  settle_projection-Keeps turn_id overflow started (Projected.raised message) =
      search projection_failed-Keeps
  settle_projection-Keeps turn_id none started (unavailable message) =
      search projection_failed-Keeps
  settle_projection-Keeps turn_id (some overflow) started (unavailable message) =
      search exhausted-Keeps

module _ {W : Type 0} (agent : Agent W) (run_id task_id request_id : String)
    (limits : RunLimits) where
  pub project_context-Keeps :
      (turn_id : String) (overflow : Option Overflow) (cause : Option String)
      → Keeps agent run_id task_id
          (project_context agent run_id task_id request_id limits turn_id overflow cause)
  unfolding project_context
  project_context-Keeps turn_id overflow cause =
      search (keeps_rules, settle_projection-Keeps) depth 10

  pub start_exchange-Keeps :
      (prepared : PreparedModelTurn) (overflow : Option Overflow) (cause : String)
      → Keeps agent run_id task_id
          (start_exchange agent run_id task_id request_id limits prepared overflow cause)
  unfolding start_exchange
  start_exchange-Keeps prepared overflow cause = search keeps_rules

  pub settle_exchange-Keeps :
      (started : String) (prepared : PreparedModelTurn) (exchange : Exchanged)
      → Keeps agent run_id task_id
          (settle_exchange agent run_id task_id request_id limits started prepared exchange)
  unfolding settle_exchange
  settle_exchange-Keeps started prepared interrupted = search cancelled-Keeps
  settle_exchange-Keeps started prepared (Exchanged.raised message) = search keeps_rules
  settle_exchange-Keeps started prepared _ = search (keeps_rules, check_signal-Keeps)

  pub attempt-Keeps :
      (turn_id : String) (overflow : Option Overflow) (cause : Option String)
      → Keeps agent run_id task_id
          (attempt agent run_id task_id request_id limits turn_id overflow cause)
  unfolding attempt
  attempt-Keeps turn_id overflow cause =
      search
        (
          keeps_rules, project_context-Keeps, start_exchange-Keeps, settle_exchange-Keeps,
          keep-Keeps, count-Keeps,
        )
        depth 12

  record_failed_exchange-Keeps :
      (failure : ExchangeFailed) (made : Attempt)
      → Keeps agent run_id task_id
          (record_failed_exchange agent run_id task_id request_id limits failure made)
  unfolding record_failed_exchange
  record_failed_exchange-Keeps failure made = search keeps_rules

  after_retry-Keeps :
      (turn_id : String) (overflow : Overflow) (made : Attempt) (exchange : Exchanged)
      → Keeps agent run_id task_id
          (after_retry agent run_id task_id request_id limits turn_id overflow made exchange)
  unfolding after_retry
  after_retry-Keeps turn_id overflow made (failed failure) =
      search (keeps_rules, record_failed_exchange-Keeps, exhausted-Keeps)
  after_retry-Keeps turn_id overflow made _ = search keeps_rules

  pub recover-Keeps :
      (turn_id : String) (overflow : Overflow)
      → Keeps agent run_id task_id (recover agent run_id task_id request_id limits turn_id overflow)
  unfolding recover
  recover-Keeps turn_id overflow =
      search (keeps_rules, exhausted-Keeps, attempt-Keeps, after_retry-Keeps)

  pub after_exchange-Keeps :
      (turn_id : String) (made : Attempt) (exchange : Exchanged)
      → Keeps agent run_id task_id
          (after_exchange agent run_id task_id request_id limits turn_id made exchange)
  unfolding after_exchange
  after_exchange-Keeps turn_id made (failed failure) =
      search (keeps_rules, record_failed_exchange-Keeps, recover-Keeps)
  after_exchange-Keeps turn_id made _ = search keeps_rules

  pub obtain-Keeps :
      (turn_id : String)
      → Keeps agent run_id task_id (obtain agent run_id task_id request_id limits turn_id)
  unfolding obtain
  obtain-Keeps turn_id = search (keeps_rules, attempt-Keeps, after_exchange-Keeps)
