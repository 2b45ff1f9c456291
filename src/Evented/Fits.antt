-- ===== src/Evented/Fits.antt =====
-- Parts of `AgentLoop.run` that stay within the limits of the run.
use pan_agent.Base.{
  ℕ, ◌+◌, ◌≤◌, ◌≡◌, refl, String, Bool, true, false, List, length, Bool-cases, inl, inr, arith,
  if◌then◌else◌,
}
use pan_agent.Base.Int.{pos, pos_part, leb_ℤ, ltb_ℤ}
use pan_agent.Limits.{RunLimits}
use pan_agent.Loop.{Task}
use pan_agent.Evented.Types.{ToolCall}
use pan_agent.Evented.Machine.{
  Agent, RunState, Exit, value, returned, raised, key_error, Part, and_then, ◌>>=◌, the,
}
use pan_agent.Evented.Batch.{exceeds_steps}
use pan_agent.Evented.Ending.{Stops}
use pan_agent.Evented.Costs.{Costs, Spent}

-- The counters are within the limits; a negative limit counts as 0.
abbrev pub IsWithin : RunLimits → ℕ → ℕ → Type 0
IsWithin limits steps model_calls =
    (steps ≤ pos_part limits.max_steps) × (model_calls ≤ pos_part limits.max_model_calls)

module _ {W : Type 0} (limits : RunLimits) where
  abbrev pub Ok : {A : Type 0} → Exit W A → Type 0
  Ok (value a s) = IsWithin limits s.steps s.model_calls
  Ok (returned r s) = IsWithin limits r.steps r.model_calls
  Ok (raised e s) = Unit
  Ok (key_error s) = Unit

  -- Started within the limits, with so many model calls left, the part stays within them.
  pub record Fits (left : ℕ) {A : Type 0} (part : Part W A) : Type 0 where
    pub fits : (s : RunState W) → IsWithin limits s.steps (s.model_calls + left) → Ok (part s)

  Spent-Ok :
      {A : Type 0} (left : ℕ) (s : RunState W) (exit : Exit W A)
      → IsWithin limits s.steps (s.model_calls + left)
      → Spent 0 left s exit
      → Ok exit
  Spent-Ok left s (value a s') within h =
      (omega (arith, within.0, h.0), omega (arith, within.1, h.1))
  Spent-Ok left s (returned r s') within h =
      (omega (arith, within.0, h.0), omega (arith, within.1, h.1))
  Spent-Ok left s (raised e s') within h = tt
  Spent-Ok left s (key_error s') within h = tt

  pub Fits-Costs : {A : Type 0} {left : ℕ} {m : Part W A} → Costs 0 left m → Fits left m
  Fits-Costs {left = left} {m = m} costs = record {
    fits = λ s within. Spent-Ok left s (m s) within (costs.spent s);
  }

  and_then-Ok :
      {A B : Type 0} (exit : Exit W A) (f : A → Part W B)
      → Ok exit
      → ((a : A) → Fits 0 (f a))
      → Ok (and_then exit f)
  and_then-Ok (value a s) f h g = (g a).fits s (h.0, omega (arith, h.1))
  and_then-Ok (returned r s) f h g = h
  and_then-Ok (raised e s) f h g = tt
  and_then-Ok (key_error s) f h g = tt

  pub Fits-then :
      {A B : Type 0} {left : ℕ} {m : Part W A} {f : A → Part W B}
      → Fits left m
      → ((a : A) → Fits 0 (f a))
      → Fits left (m >>= f)
  unfolding ◌>>=◌
  Fits-then {m = m} {f = f} first rest = record {
    fits = λ s within. and_then-Ok (m s) f (first.fits s within) rest;
  }

  -- A test of the budget of model calls leaves one.
  pub Fits-test :
      {A : Type 0} {m k : Part W A}
      → Fits 0 m
      → Fits 1 k
      → Fits 0
          (the (λ s. s.model_calls) >>= λ n. if leb_ℤ limits.max_model_calls (pos n) then m else k)
  unfolding the ◌>>=◌
  Fits-test {m = m} {k = k} spent left = record {
    fits = λ s within. elim (Bool-cases (leb_ℤ limits.max_model_calls (pos s.model_calls))) [
      | inl spent_all ↦ rw spent_all (spent.fits s within)
      | inr left_over ↦ rw left_over (left.fits s (within.0, ground (arith, left_over)))
    ];
  }

  calls-Ok :
      {A : Type 0} (n : ℕ) (s : RunState W) (exit : Exit W A)
      → s.steps + n ≤ pos_part limits.max_steps
      → s.model_calls ≤ pos_part limits.max_model_calls
      → Spent n 0 s exit
      → Ok exit
  calls-Ok n s (value a s') room within h = (omega (arith, room, h.0), omega (arith, within, h.1))
  calls-Ok n s (returned r s') room within h =
      (omega (arith, room, h.0), omega (arith, within, h.1))
  calls-Ok n s (raised e s') room within h = tt
  calls-Ok n s (key_error s') room within h = tt

  -- A test of the budget of steps leaves room for the calls.
  pub Fits-calls :
      {A : Type 0} {m : Part W A} (agent : Agent W) (run_id task_id : String)
      (calls : List ToolCall) {k : Part W A}
      → Fits 0 m
      → Costs (length calls) 0 k
      → Fits 0 (
          the (λ s. s.steps) >>= λ n.
          if exceeds_steps agent run_id task_id limits n calls then m else k)
  unfolding the ◌>>=◌ exceeds_steps
  Fits-calls {m = m} agent run_id task_id calls {k = k} over costs = record {
    fits = λ s within. elim (Bool-cases (ltb_ℤ limits.max_steps (pos (s.steps + length calls)))) [
      | inl spent_all ↦ rw spent_all (over.fits s within)
      | inr left_over ↦ rw left_over (
          calls-Ok (length calls) s (k s) (ground (arith, left_over)) (omega (arith, within.1))
            (costs.spent s))
    ];
  }

  rest-Ok :
      {A B : Type 0} (left : ℕ) (s : RunState W) (exit : Exit W A) (f : A → Part W B)
      → IsWithin limits s.steps (s.model_calls + left)
      → Spent 0 0 s exit
      → ((a : A) → Fits left (f a))
      → Ok (and_then exit f)
  rest-Ok left s (value a s') f within h g =
      (g a).fits s' (omega (arith, within.0, h.0), omega (arith, within.1, h.1))
  rest-Ok left s (returned r s') f within h g =
      (omega (arith, within.0, h.0), omega (arith, within.1, h.1))
  rest-Ok left s (raised e s') f within h g = tt
  rest-Ok left s (key_error s') f within h g = tt

  gate-Ok :
      {A B : Type 0} (s : RunState W) (exit : Exit W A) (f : A → Part W B)
      → IsWithin limits s.steps (s.model_calls + 0)
      → Spent 0 0 s exit
      → ((a : A) (s' : RunState W)
          → exit ≡ value a s'
          → s.model_calls + 1 ≤ pos_part limits.max_model_calls)
      → ((a : A) → Fits 1 (f a))
      → Ok (and_then exit f)
  gate-Ok s (value a s') f within h gate g =
      (g a).fits s' (omega (arith, within.0, h.0), omega (arith, gate a s' refl, h.1))
  gate-Ok s (returned r s') f within h gate g =
      (omega (arith, within.0, h.0), omega (arith, within.1, h.1))
  gate-Ok s (raised e s') f within h gate g = tt
  gate-Ok s (key_error s') f within h gate g = tt

  pub Fits-rest :
      {A B : Type 0} {left : ℕ} {m : Part W A} {f : A → Part W B}
      → Costs 0 0 m
      → ((a : A) → Fits left (f a))
      → Fits left (m >>= f)
  unfolding ◌>>=◌
  Fits-rest {left = left} {m = m} {f = f} first rest = record {
    fits = λ s within. rest-Ok left s (m s) f within (first.spent s) rest;
  }

  pub Fits-if :
      {A : Type 0} {left : ℕ} (b : Bool) {m k : Part W A}
      → Fits left m
      → Fits left k
      → Fits left (if b then m else k)
  Fits-if true h g = h
  Fits-if false h g = g

module _ {W : Type 0} (agent : Agent W) (run_id : String) (task : Task) (limits : RunLimits) where
  -- Where a part that stops a spent run has gone on, a model call is left.
  one_left :
      {A : Type 0} {m : Part W A}
      → Stops agent run_id task.task_id limits m
      → (s : RunState W) (a : A) (s' : RunState W) → m s ≡ value a s'
      → s.model_calls + 1 ≤ pos_part limits.max_model_calls
  one_left stops s a s' h = elim (Bool-cases (leb_ℤ limits.max_model_calls (pos s.model_calls))) [
    | inl spent_all ↦ elim (stops.stops s a s' (ground (arith, spent_all)) h) [ ]
    | inr left_over ↦ ground (arith, left_over)
  ]

  pub Fits-Stops :
      {A B : Type 0} {m : Part W A} {f : A → Part W B}
      → Costs 0 0 m
      → Stops agent run_id task.task_id limits m
      → ((a : A) → Fits limits 1 (f a))
      → Fits limits 0 (m >>= f)
  unfolding ◌>>=◌
  Fits-Stops {m = m} {f = f} first stops rest = record {
    fits = λ s within. gate-Ok limits s (m s) f within (first.spent s) (one_left stops s) rest;
  }
