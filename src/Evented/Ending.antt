-- ===== src/Evented/Ending.antt =====
-- Proofs on the end of `AgentLoop.run`, by the number of model calls.
use pan_agent.Base.{
  ℕ, zero, suc, ◌+◌, ◌≤◌, ◌≡◌, refl, String, Bool, true, false, Option, some, if◌then◌else◌, arith,
  Bool-cases, inl, inr,
}
use pan_agent.Base.Int.{ℤ, pos, pos_part, leb_ℤ, ◌≤ℤ◌}
use pan_agent.Limits.{RunLimits}
use pan_agent.Loop.{Task}
use pan_agent.EventLog.{EventLog}
use pan_agent.Evented.Types.{EventedRunStatus, EventedRunResult}
use pan_agent.Evented.Machine.{
  Agent, RunState, Exit, value, returned, raised, key_error, Part, and_then, ◌>>=◌, the, terminal,
  emit,
}
use pan_agent.Evented.{
  RunEnd, result, log_error, missing_tool, invalid_prompt, turn, after_turn, turns, after_start,
  first_state, start, run,
}
use pan_agent.Evented.Taking.{check_budgets}
use pan_agent.Evented.Values.{>>=-value}
use pan_agent.Evented.Keeps.{Keeps, keeps_rules}
use pan_agent.Evented.Parts.{check_signal-Keeps}
use pan_agent.Evented.Counted.{Keeps-value, turn-Counts}

spent-ℤ : (limit : ℤ) (n : ℕ) → pos_part limit ≤ n + 0 → limit ≤ℤ pos n
spent-ℤ limit n h = omega arith

module _ {W : Type 0} where
  returned-stops :
      {A B : Type 0} (exit : Exit W B) (r : B → RunState W → EventedRunResult)
      (g : B → RunState W → RunState W) {a : A} {s' : RunState W}
      → and_then exit (λ b s. returned (r b s) (g b s)) ≡ value a s'
      → ⊥
  returned-stops (value b s) r g h = cc
  returned-stops (returned _ s) r g h = cc
  returned-stops (raised e s) r g h = cc
  returned-stops (key_error s) r g h = cc

module _ {W : Type 0} (agent : Agent W) (run_id task_id : String) (limits : RunLimits) where
  -- With no model call left, the part does not go on.
  pub record Stops {A : Type 0} (part : Part W A) : Type 0 where
    pub stops :
        (s : RunState W) (a : A) (s' : RunState W)
        → limits.max_model_calls ≤ℤ pos s.model_calls
        → part s ≡ value a s'
        → ⊥

  pub terminal-Stops :
      {A : Type 0} (status : EventedRunStatus) (output error cause : Option String)
      → Stops {A = A} (terminal agent run_id task_id status output error cause)
  unfolding terminal
  terminal-Stops status output error cause = record {
    stops = λ s a s' spent h. returned-stops (emit agent run_id _ s) _ _ h;
  }

  Stops-rest :
      {A B : Type 0} {m : Part W A} {f : A → Part W B}
      → Keeps agent run_id task_id m
      → ((a : A) → Stops (f a))
      → Stops (m >>= f)
  Stops-rest {m = m} {f = f} keeps rest = record {
    stops = λ s b s' spent h. do
      let (a, s'', first, h) = >>=-value m f s h
      (rest a).stops s'' b s'
          (omega (arith, spent, Keeps-value agent run_id task_id keeps s a s'' first)) h;
  }

  Stops-first : {A B : Type 0} {m : Part W A} (f : A → Part W B) → Stops m → Stops (m >>= f)
  Stops-first {m = m} f first = record {
    stops = λ s b s' spent h. do
      let (a, s'', h, _) = >>=-value m f s h
      first.stops s a s'' spent h;
  }

  Stops-the :
      {B : Type 0} {f : ℕ → Part W B}
      → ((n : ℕ) → limits.max_model_calls ≤ℤ pos n → Stops (f n))
      → Stops (the (λ s. s.model_calls) >>= f)
  unfolding the ◌>>=◌
  Stops-the rest = record {
    stops = λ s b s' spent h. (rest s.model_calls spent).stops s b s' spent h;
  }

  Stops-if :
      {A : Type 0} (b : Bool) {m k : Part W A}
      → Stops m
      → (b ≡ false → Stops k)
      → Stops (if b then m else k)
  Stops-if true h g = h
  Stops-if false h g = g refl

  spent-Stops :
      {A : Type 0} {k : Part W A} (n : ℕ)
      → limits.max_model_calls ≤ℤ pos n
      → leb_ℤ limits.max_model_calls (pos n) ≡ false
      → Stops k
  spent-Stops n spent left = record { stops = λ s a s' _ _. ground (arith, spent, left) }

module _ {W : Type 0} (agent : Agent W) (run_id : String) (task : Task) (limits : RunLimits) where
  pub check_budgets-Stops :
      (started_at : ℤ)
      → Stops agent run_id task.task_id limits (check_budgets agent run_id task limits started_at)
  unfolding check_budgets
  check_budgets-Stops started_at =
      search
        (
          Stops-rest, Stops-the, Stops-if, terminal-Stops, spent-Stops, keeps_rules,
          check_signal-Keeps,
        )
        depth 12

  turn-Stops :
      (started_at : ℤ) (request_id : String)
      → Stops agent run_id task.task_id limits (turn agent run_id task limits started_at request_id)
  unfolding turn
  turn-Stops started_at request_id = search (Stops-first, check_budgets-Stops)

  -- How the loop goes on after a turn.
  abbrev Ends : Option (RunEnd W) → Type 0
  Ends answer = (run_end : RunEnd W) × (answer ≡ some run_end)

  after_turn-Ends :
      (more : RunState W → Option (RunEnd W)) (exit : Exit W (Unit {0}))
      → ((s : RunState W) → exit ≡ value tt s → Ends (more s))
      → Ends (after_turn agent run_id task limits more exit)
  after_turn-Ends more (value a s) goes_on = goes_on s refl
  after_turn-Ends more (returned r s) goes_on = (result r s, refl)
  after_turn-Ends more (raised e s) goes_on = (log_error e s, refl)
  after_turn-Ends more (key_error s) goes_on = (missing_tool s, refl)

  turns-total :
      (fuel : ℕ) (started_at : ℤ) (request_id : String) (s : RunState W)
      → pos_part limits.max_model_calls ≤ s.model_calls + fuel
      → Ends (turns agent run_id task limits (suc fuel) started_at request_id s)
  unfolding turns
  turns-total zero started_at request_id s enough =
      after_turn-Ends _ (turn agent run_id task limits started_at request_id s) (λ s' h.
        elim ((turn-Stops started_at request_id).stops s tt s'
          (spent-ℤ limits.max_model_calls s.model_calls enough) h) [ ])
  turns-total (suc fuel) started_at request_id s enough =
      after_turn-Ends _ (turn agent run_id task limits started_at request_id s) (λ s' h.
        turns-total fuel started_at request_id s' (
          omega (
            arith,
            enough,
            (turn-Counts agent run_id task limits request_id started_at).counted s tt s' h,
          )))

  start-Ends :
      (log : EventLog) (world : W) (started_at : ℤ) (exit : Exit W String)
      → Ends (after_start agent run_id task limits started_at exit)
  start-Ends log world started_at (value request_id s) =
      turns-total (pos_part limits.max_model_calls) started_at request_id s (omega arith)
  start-Ends log world started_at (returned r s) = (result r s, refl)
  start-Ends log world started_at (raised e s) = (log_error e s, refl)
  start-Ends log world started_at (key_error s) = (missing_tool s, refl)

  -- A run of the evented loop always ends, whatever the gateway, the projector and the tools do and
  -- whatever the limits are: the turns that its fuel allows are enough.
  pub evented_run_total :
      (log : EventLog) (world : W)
      → (run_end : RunEnd W) × (run agent run_id task limits log world ≡ some run_end)
  unfolding run
  evented_run_total log world = elim (Bool-cases (agent.is_blank task.prompt)) [
    | inl blank ↦ rw blank (invalid_prompt, refl)
    | inr full ↦ rw full (
        start-Ends log world (agent.monotonic world).0 (
          start agent run_id task limits
            (first_state agent run_id task limits log (agent.monotonic world).1)))
  ]
