-- ===== src/Evented/Costs.antt =====
-- How many steps and model calls the parts of `AgentLoop.run` may add.
use mathlib.Core.Path.{subst₂}
use pan_agent.Base.{ℕ, ◌+◌, ◌≤◌, ◌≡◌, refl, String, Bool, true, false, Option, arith, if◌then◌else◌}
use pan_agent.Base.Result.{Result, ok, err}
use pan_agent.EventLog.{EventLog, append}
use pan_agent.EventLog.Drafts.{Draft, RunEvent, LogError}
use pan_agent.Evented.Types.{EventedRunStatus, EventedRunResult}
use pan_agent.Evented.Machine.{
  Agent, RunState, Exit, value, returned, raised, key_error, Part, pure, and_then, ◌>>=◌, the,
  update, call, written, emit, terminal,
}

add_zero : (i : ℕ) → i + 0 ≡ i
add_zero i = omega arith

zero_add : (i : ℕ) → 0 + i ≡ i
zero_add i = omega arith

module _ {W : Type 0} where
  abbrev pub Spent : {A : Type 0} → ℕ → ℕ → RunState W → Exit W A → Type 0
  Spent i j s (value a s') = (s'.steps ≤ s.steps + i) × (s'.model_calls ≤ s.model_calls + j)
  Spent i j s (returned r s') = (r.steps ≤ s.steps + i) × (r.model_calls ≤ s.model_calls + j)
  Spent i j s (raised e s') = (s'.steps ≤ s.steps + i) × (s'.model_calls ≤ s.model_calls + j)
  Spent i j s (key_error s') = Unit

  -- The part adds at most `i` steps and `j` model calls.
  pub record Costs (i j : ℕ) {A : Type 0} (part : Part W A) : Type 0 where
    pub spent : (s : RunState W) → Spent i j s (part s)

  pub Spent-later :
      {A : Type 0} (i j i' j' : ℕ) (s s' : RunState W) (exit : Exit W A)
      → (s'.steps ≤ s.steps + i) × (s'.model_calls ≤ s.model_calls + j)
      → Spent i' j' s' exit
      → Spent (i + i') (j + j') s exit
  Spent-later i j i' j' s s' (value a s'') g h = (omega (arith, g.0, h.0), omega (arith, g.1, h.1))
  Spent-later i j i' j' s s' (returned r s'') g h =
      (omega (arith, g.0, h.0), omega (arith, g.1, h.1))
  Spent-later i j i' j' s s' (raised e s'') g h = (omega (arith, g.0, h.0), omega (arith, g.1, h.1))
  Spent-later i j i' j' s s' (key_error s'') g h = tt

  pub Spent-still :
      {A : Type 0} (s s' : RunState W) (exit : Exit W A)
      → (s'.steps ≤ s.steps + 0) × (s'.model_calls ≤ s.model_calls + 0)
      → Spent 0 0 s' exit
      → Spent 0 0 s exit
  Spent-still s s' exit g h =
      subst₂ (λ a b. Spent a b s exit) (zero_add 0) (zero_add 0) (Spent-later 0 0 0 0 s s' exit g h)

  and_then-Spent :
      {A B : Type 0} (i j i' j' : ℕ) (s : RunState W) (exit : Exit W A) (f : A → Part W B)
      → Spent i j s exit
      → ((a : A) (s' : RunState W) → Spent i' j' s' (f a s'))
      → Spent (i + i') (j + j') s (and_then exit f)
  and_then-Spent i j i' j' s (value a s') f g h = Spent-later i j i' j' s s' (f a s') g (h a s')
  and_then-Spent i j i' j' s (returned r s') f g h = (omega (arith, g.0), omega (arith, g.1))
  and_then-Spent i j i' j' s (raised e s') f g h = (omega (arith, g.0), omega (arith, g.1))
  and_then-Spent i j i' j' s (key_error s') f g h = tt

  pub Costs-add :
      {A B : Type 0} {i j i' j' : ℕ} {m : Part W A} {f : A → Part W B}
      → Costs i j m
      → ((a : A) → Costs i' j' (f a))
      → Costs (i + i') (j + j') (m >>= f)
  unfolding ◌>>=◌
  Costs-add {i = i} {j = j} {i' = i'} {j' = j'} {m = m} {f = f} first rest = record {
    spent = λ s. and_then-Spent i j i' j' s (m s) f (first.spent s) (λ a s'. (rest a).spent s');
  }

  pub Costs-first :
      {A B : Type 0} {i j : ℕ} {m : Part W A} {f : A → Part W B}
      → Costs i j m
      → ((a : A) → Costs 0 0 (f a))
      → Costs i j (m >>= f)
  Costs-first {i = i} {j = j} {m = m} {f = f} first rest =
      subst₂ (λ a b. Costs a b (m >>= f)) (add_zero i) (add_zero j) (Costs-add first rest)

  pub Costs-rest :
      {A B : Type 0} {i j : ℕ} {m : Part W A} {f : A → Part W B}
      → Costs 0 0 m
      → ((a : A) → Costs i j (f a))
      → Costs i j (m >>= f)
  Costs-rest {i = i} {j = j} {m = m} {f = f} first rest =
      subst₂ (λ a b. Costs a b (m >>= f)) (zero_add i) (zero_add j) (Costs-add first rest)

  pub pure-Costs : {A : Type 0} {i j : ℕ} (a : A) → Costs i j (pure a)
  unfolding pure
  pure-Costs a = record { spent = λ s. (omega arith, omega arith) }

  pub the-Costs : {A : Type 0} {i j : ℕ} (f : RunState W → A) → Costs i j (the f)
  unfolding the
  the-Costs f = record { spent = λ s. (omega arith, omega arith) }

  pub call-Costs : {A : Type 0} {i j : ℕ} (f : W → A × W) → Costs i j (call f)
  unfolding call
  call-Costs f = record { spent = λ s. (omega arith, omega arith) }

  -- An assignment of neither counter.
  pub keep-Costs :
      {i j : ℕ} (f : RunState W → RunState W)
      → ((s : RunState W) → (f s).steps ≡ s.steps)
      → ((s : RunState W) → (f s).model_calls ≡ s.model_calls)
      → Costs i j (update f)
  unfolding update
  keep-Costs f same_steps same_calls = record {
    spent = λ s. (omega (arith, same_steps s), omega (arith, same_calls s));
  }

  pub count-Costs : Costs 0 1 (update (λ s. record s { model_calls = s.model_calls + 1 }))
  unfolding update
  count-Costs = record { spent = λ s. (omega arith, omega arith) }

  pub step-Costs : Costs 1 0 (update (λ s. record s { steps = s.steps + 1 }))
  unfolding update
  step-Costs = record { spent = λ s. (omega arith, omega arith) }

  pub if-Costs :
      {A : Type 0} {i j : ℕ} (b : Bool) {m k : Part W A}
      → Costs i j m
      → Costs i j k
      → Costs i j (if b then m else k)
  if-Costs true h g = h
  if-Costs false h g = g

  module _ (agent : Agent W) (run_id : String) where
    written-Spent :
        (i j : ℕ) (s : RunState W) (world : W) (appended : Result LogError RunEvent × EventLog)
        → Spent i j s (written agent run_id world appended s)
    unfolding written
    written-Spent i j s world (err e, log) = (omega arith, omega arith)
    written-Spent i j s world (ok event, log) = (omega arith, omega arith)

    pub emit-Costs : {i j : ℕ} (draft : Draft) → Costs i j (emit agent run_id draft)
    unfolding emit
    emit-Costs {i = i} {j = j} draft = record {
      spent = λ s.
          let (now, world) = agent.monotonic_ns s.world in
          written-Spent i j s world (append agent.digest s.event_log run_id draft now);
    }

    returned-Spent :
        (A : Type 0) (i j : ℕ) (s : RunState W) (exit : Exit W String) (r : EventedRunResult)
        (g : String → RunState W → RunState W)
        → (r.steps ≡ s.steps) × (r.model_calls ≡ s.model_calls)
        → Spent 0 0 s exit
        → Spent {A = A} i j s (and_then exit (λ event s'. returned r (g event s')))
    returned-Spent A i j s (value event s') r g same h =
        (omega (arith, same.0), omega (arith, same.1))
    returned-Spent A i j s (returned r' s') r g same h = (omega (arith, h.0), omega (arith, h.1))
    returned-Spent A i j s (raised e s') r g same h = (omega (arith, h.0), omega (arith, h.1))
    returned-Spent A i j s (key_error s') r g same h = tt

    pub terminal-Costs :
        {A : Type 0} {i j : ℕ} (task_id : String) (status : EventedRunStatus)
        (output error cause : Option String)
        → Costs i j (terminal agent run_id task_id {A = A} status output error cause)
    unfolding terminal
    terminal-Costs {A = A} {i = i} {j = j} task_id status output error cause = record {
      spent = λ s. returned-Spent A i j s _ _ _ (refl, refl) ((emit-Costs _).spent s);
    }

pub ruleset costs_rules = (
  Costs-rest, Costs-first, pure-Costs, the-Costs, call-Costs, keep-Costs, if-Costs, emit-Costs,
  terminal-Costs,
)
