-- ===== src/Evented/Budget.antt =====
-- Proofs on the budgets of steps and of model calls of `AgentLoop.run`.
use mathlib.Core.Path.{subst}
use pan_agent.Base.{
  ℕ, zero, suc, ◌≡◌, String, Bool, true, false, Option, none, some, Bool-cases, inl, inr, arith,
}
use pan_agent.Base.Int.{ℤ, pos_part}
use pan_agent.Limits.{RunLimits}
use pan_agent.Loop.{Task}
use pan_agent.EventLog.{EventLog}
use pan_agent.Evented.Types.{
  EventedRunResult, Candidate, final, ExchangeSettled, Exchanged, settled, failed,
  PreparedModelTurn,
}
use pan_agent.Evented.Machine.{Agent, RunState, Exit, value, returned, raised, key_error}
use pan_agent.Evented.Admission.{candidate_tool_calls}
use pan_agent.Evented.Exchange.{Attempt, recover, after_exchange, obtain}
use pan_agent.Evented.Turn.{Overflow}
use pan_agent.Evented.Batch.{Place, take_calls}
use pan_agent.Evented.{
  RunEnd, result, turn, after_turn, turns, start, after_start, first_state, run,
}
use pan_agent.Evented.Taking.{
  check_budgets, take_final, take_candidate, admit, note_retry, take_settled, take_exchange,
}
use pan_agent.Evented.Ending.{check_budgets-Stops}
use pan_agent.Evented.Costs.{Costs, costs_rules, terminal-Costs}
use pan_agent.Evented.PartCosts.{
  check_signal-Costs, exhausted-Costs, attempt-Costs, record_failed_exchange-Costs,
  after_retry-Costs,
}
use pan_agent.Evented.CallCosts.{admission_error-Costs, run_calls-Costs}
use pan_agent.Evented.Fits.{
  IsWithin, Ok, Fits, Fits-Costs, Fits-then, Fits-test, Fits-calls, Fits-rest, Fits-if, Fits-Stops,
}

module _ {W : Type 0} (agent : Agent W) (run_id : String) (task : Task) (limits : RunLimits) where
  recover-Fits :
      (request_id turn_id : String) (overflow : Overflow)
      → Fits limits 0 (recover agent run_id task.task_id request_id limits turn_id overflow)
  unfolding recover
  recover-Fits request_id turn_id overflow =
      Fits-test limits (Fits-Costs limits (exhausted-Costs agent run_id task.task_id _ _ _ _ _ _ _))
        (Fits-then limits
          (Fits-Costs limits (attempt-Costs agent run_id task.task_id request_id limits _ _ _))
          (λ made.
            Fits-Costs limits
              (after_retry-Costs agent run_id task.task_id request_id limits _ _ _ _)))

  after_exchange-Fits :
      (request_id turn_id : String) (made : Attempt) (exchange : Exchanged)
      → Fits limits 0
          (after_exchange agent run_id task.task_id request_id limits turn_id made exchange)
  unfolding after_exchange
  after_exchange-Fits request_id turn_id made (failed failure) =
      Fits-rest limits
        (record_failed_exchange-Costs agent run_id task.task_id request_id limits failure made)
        (λ event.
          Fits-if limits _ (recover-Fits request_id turn_id _)
            (Fits-Costs limits (terminal-Costs agent run_id task.task_id _ _ _ _)))
  after_exchange-Fits request_id turn_id made _ = Fits-Costs limits (search costs_rules)

  obtain-Fits :
      (request_id turn_id : String)
      → Fits limits 1 (obtain agent run_id task.task_id request_id limits turn_id)
  unfolding obtain
  obtain-Fits request_id turn_id = Fits-rest limits (search costs_rules) (λ last_event.
      Fits-then limits
        (Fits-Costs limits
          (attempt-Costs agent run_id task.task_id request_id limits turn_id none last_event))
        (λ made. after_exchange-Fits request_id turn_id made made.exchange))

  take_candidate-Fits :
      (place : Place) (candidate : Candidate) (accepted : String)
      → Fits limits 0 (take_candidate agent run_id task limits place candidate accepted)
  unfolding take_candidate take_final take_calls
  take_candidate-Fits place (final content disposition reason_code reasoning) accepted =
      Fits-Costs limits (search costs_rules depth 10)
  take_candidate-Fits place candidate accepted =
      Fits-then limits
        (Fits-calls limits agent run_id task.task_id (candidate_tool_calls candidate)
          (Fits-Costs limits (search costs_rules))
          (run_calls-Costs agent run_id task.task_id limits place candidate accepted))
        (λ _. Fits-Costs limits (search costs_rules depth 8))

  admit-Fits :
      (place : Place) (candidate : Candidate) (cause : String) (error : Option String)
      → Fits limits 0 (admit agent run_id task limits place candidate cause error)
  unfolding admit
  admit-Fits place candidate cause (some message) = Fits-Costs limits (search costs_rules)
  admit-Fits place candidate cause none =
      Fits-rest limits (search costs_rules)
        (λ accepted. take_candidate-Fits place candidate accepted)

  note_retry-Costs :
      (answer : ExchangeSettled) (prepared : PreparedModelTurn) (is_retry : Bool) (cause : String)
      → Costs 0 0 (note_retry agent run_id task limits answer prepared is_retry cause)
  unfolding note_retry
  note_retry-Costs answer prepared true cause = search costs_rules
  note_retry-Costs answer prepared false cause = search costs_rules

  take_exchange-Fits :
      (exchange : Exchanged) (made : Attempt) (is_retry : Bool)
      → Fits limits 0 (take_exchange agent run_id task limits exchange made is_retry)
  unfolding take_exchange take_settled
  take_exchange-Fits (settled answer) made is_retry =
      Fits-rest limits (search costs_rules) (λ event.
        Fits-rest limits (note_retry-Costs answer made.prepared is_retry event) (λ cause.
          Fits-rest limits (search costs_rules) (λ used.
            Fits-rest limits (admission_error-Costs agent answer.candidate used)
              (λ error. admit-Fits _ answer.candidate cause error))))
  take_exchange-Fits _ made is_retry = Fits-Costs limits (search costs_rules)

  check_budgets-Costs :
      (started_at : ℤ) → Costs 0 0 (check_budgets agent run_id task limits started_at)
  unfolding check_budgets
  check_budgets-Costs started_at = search (costs_rules, check_signal-Costs) depth 10

  pub turn-Fits :
      (started_at : ℤ) (request_id : String)
      → Fits limits 0 (turn agent run_id task limits started_at request_id)
  unfolding turn
  turn-Fits started_at request_id =
      Fits-Stops agent run_id task limits (check_budgets-Costs started_at)
        (check_budgets-Stops agent run_id task limits started_at)
        (λ _. Fits-rest limits (search costs_rules) (λ turn_id.
          Fits-then limits (obtain-Fits request_id turn_id)
            (λ made. take_exchange-Fits made.0.exchange made.0 made.1)))

  start-Costs : Costs 0 0 (start agent run_id task limits)
  unfolding start
  start-Costs = search costs_rules

  -- The counters of a result are within the limits.
  abbrev AllWithin : Option (RunEnd W) → Type 0
  AllWithin (some (result r s)) = IsWithin limits r.steps r.model_calls
  AllWithin _ = Unit

  after_turn-AllWithin :
      (more : RunState W → Option (RunEnd W)) (exit : Exit W (Unit {0}))
      → Ok limits exit
      → ((s : RunState W) → IsWithin limits s.steps s.model_calls → AllWithin (more s))
      → AllWithin (after_turn agent run_id task limits more exit)
  after_turn-AllWithin more (value a s) good goes_on = goes_on s good
  after_turn-AllWithin more (returned r s) good goes_on = good
  after_turn-AllWithin more (raised e s) good goes_on = tt
  after_turn-AllWithin more (key_error s) good goes_on = tt

  turns-AllWithin :
      (fuel : ℕ) (started_at : ℤ) (request_id : String) (s : RunState W)
      → IsWithin limits s.steps s.model_calls
      → AllWithin (turns agent run_id task limits fuel started_at request_id s)
  unfolding turns
  turns-AllWithin zero started_at request_id s within = tt
  turns-AllWithin (suc fuel) started_at request_id s within =
      after_turn-AllWithin _ (turn agent run_id task limits started_at request_id s)
        ((turn-Fits started_at request_id).fits s (within.0, omega (arith, within.1)))
        (λ s' within'. turns-AllWithin fuel started_at request_id s' within')

  after_start-AllWithin :
      (started_at : ℤ) (exit : Exit W String)
      → Ok limits exit
      → AllWithin (after_start agent run_id task limits started_at exit)
  after_start-AllWithin started_at (value request_id s) good =
      turns-AllWithin (suc (pos_part limits.max_model_calls)) started_at request_id s good
  after_start-AllWithin started_at (returned r s) good = good
  after_start-AllWithin started_at (raised e s) good = tt
  after_start-AllWithin started_at (key_error s) good = tt

  run-AllWithin : (log : EventLog) (world : W) → AllWithin (run agent run_id task limits log world)
  unfolding run
  run-AllWithin log world = elim (Bool-cases (agent.is_blank task.prompt)) [
    | inl blank ↦ rw blank tt
    | inr full ↦
        let first = first_state agent run_id task limits log (agent.monotonic world).1 in
        rw full (
          after_start-AllWithin (agent.monotonic world).0 (start agent run_id task limits first)
            ((Fits-Costs limits start-Costs).fits first (omega arith, omega arith)))
  ]

  -- Whatever the gateway and the tools do, a result that the evented loop returns has no more steps
  -- and no more model calls than the limits allow, where a negative limit counts as 0. Retries after
  -- a context overflow and batches of calls are counted.
  pub evented_run-IsWithin :
      (log : EventLog) (world : W) {r : EventedRunResult} {s : RunState W}
      → run agent run_id task limits log world ≡ some (result r s)
      → IsWithin limits r.steps r.model_calls
  evented_run-IsWithin log world ended = subst AllWithin ended (run-AllWithin log world)
