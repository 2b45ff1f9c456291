-- ===== src/Evented/PartCosts.antt =====
-- Lemmas on the steps and model calls that each part of `AgentLoop.run` may add.
use pan_agent.Base.{ℕ, String, Option, none, some, List, [], ◌∷◌}
use pan_agent.Base.Json.{Fields}
use pan_agent.Limits.{RunLimits}
use pan_agent.Evented.Types.{
  PlannedEvent, projected, refused, Projected, unavailable, PreparedModelTurn, ExchangeFailed,
  Exchanged, failed, interrupted,
}
use pan_agent.Evented.Machine.{Agent, cancelled, check_signal}
use pan_agent.Evented.Turn.{Overflow, projection_failed, emit_planned, exhausted, settle_projection}
use pan_agent.Evented.Exchange.{
  Attempt, project_context, start_exchange, settle_exchange, attempt, record_failed_exchange,
  after_retry,
}
use pan_agent.Evented.Costs.{Costs, costs_rules, count-Costs}

module _ {W : Type 0} (agent : Agent W) (run_id task_id : String) where
  pub cancelled-Costs :
      {A : Type 0} {i j : ℕ} (cause : Option String)
      → Costs i j (cancelled agent run_id task_id {A = A} cause)
  unfolding cancelled
  cancelled-Costs cause = search costs_rules depth 8

  pub check_signal-Costs :
      {i j : ℕ} (cause : Option String) → Costs i j (check_signal agent run_id task_id cause)
  unfolding check_signal
  check_signal-Costs cause = search (costs_rules, cancelled-Costs)

  projection_failed-Costs :
      {A : Type 0} (turn_id : String) (overflow : Option Overflow) (cause message : String)
      → Costs 0 0 (projection_failed agent run_id task_id {A = A} turn_id overflow cause message)
  unfolding projection_failed
  projection_failed-Costs turn_id overflow cause message = search costs_rules depth 8

  emit_planned-Costs :
      (turn_id : String) (events : List PlannedEvent) (cause : String)
      → Costs 0 0 (emit_planned agent run_id task_id turn_id events cause)
  unfolding emit_planned
  emit_planned-Costs turn_id [] cause = search costs_rules
  emit_planned-Costs turn_id (planned ∷ events) cause =
      search (costs_rules, emit_planned-Costs turn_id events)

  pub exhausted-Costs :
      {A : Type 0} (turn_id : String) (overflow : Overflow) (cause reason : String)
      (completed_retries : ℕ) (more : Fields) (message : String)
      → Costs 0 0 (
          exhausted agent run_id task_id {A = A} turn_id overflow cause reason completed_retries
            more message)
  unfolding exhausted
  exhausted-Costs turn_id overflow cause reason completed_retries more message = search costs_rules

  settle_projection-Costs :
      (turn_id : String) (overflow : Option Overflow) (started : String) (outcome : Projected)
      → Costs 0 0 (settle_projection agent run_id task_id turn_id overflow started outcome)
  unfolding settle_projection
  settle_projection-Costs turn_id overflow started (Projected.returned (projected events context)) =
      search (costs_rules, emit_planned-Costs)
  settle_projection-Costs turn_id overflow started (Projected.returned (refused events message)) =
      search (costs_rules, emit_planned-Costs)
  settle_projection-Costs turn_id overflow started (Projected.raised message) =
      search projection_failed-Costs
  settle_projection-Costs turn_id none started (unavailable message) =
      search projection_failed-Costs
  settle_projection-Costs turn_id (some overflow) started (unavailable message) =
      search exhausted-Costs

module _ {W : Type 0} (agent : Agent W) (run_id task_id request_id : String)
    (limits : RunLimits) where
  project_context-Costs :
      (turn_id : String) (overflow : Option Overflow) (cause : Option String)
      → Costs 0 0 (project_context agent run_id task_id request_id limits turn_id overflow cause)
  unfolding project_context
  project_context-Costs turn_id overflow cause =
      search (costs_rules, settle_projection-Costs) depth 10

  start_exchange-Costs :
      (prepared : PreparedModelTurn) (overflow : Option Overflow) (cause : String)
      → Costs 0 0 (start_exchange agent run_id task_id request_id limits prepared overflow cause)
  unfolding start_exchange
  start_exchange-Costs prepared overflow cause = search costs_rules depth 8

  settle_exchange-Costs :
      (started : String) (prepared : PreparedModelTurn) (exchange : Exchanged)
      → Costs 0 0 (settle_exchange agent run_id task_id request_id limits started prepared exchange)
  unfolding settle_exchange
  settle_exchange-Costs started prepared interrupted = search cancelled-Costs
  settle_exchange-Costs started prepared (Exchanged.raised message) = search costs_rules
  settle_exchange-Costs started prepared _ = search (costs_rules, check_signal-Costs)

  pub attempt-Costs :
      (turn_id : String) (overflow : Option Overflow) (cause : Option String)
      → Costs 0 1 (attempt agent run_id task_id request_id limits turn_id overflow cause)
  unfolding attempt
  attempt-Costs turn_id overflow cause =
      search
        (
          costs_rules, project_context-Costs, start_exchange-Costs, settle_exchange-Costs,
          count-Costs,
        )
        depth 14

  pub record_failed_exchange-Costs :
      (failure : ExchangeFailed) (made : Attempt)
      → Costs 0 0 (record_failed_exchange agent run_id task_id request_id limits failure made)
  unfolding record_failed_exchange
  record_failed_exchange-Costs failure made = search costs_rules

  pub after_retry-Costs :
      (turn_id : String) (overflow : Overflow) (made : Attempt) (exchange : Exchanged)
      → Costs 0 0
          (after_retry agent run_id task_id request_id limits turn_id overflow made exchange)
  unfolding after_retry
  after_retry-Costs turn_id overflow made (failed failure) =
      search (costs_rules, record_failed_exchange-Costs, exhausted-Costs)
  after_retry-Costs turn_id overflow made _ = search costs_rules
