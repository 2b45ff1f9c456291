-- ===== src/Evented/Counted.antt =====
-- Lemmas on the number of model calls over a turn of `AgentLoop.run` that goes on.
use mathlib.Core.Path.{subst}
use pan_agent.Base.{◌+◌, ◌≤◌, ◌≡◌, ap, String, Option, none, arith}
use pan_agent.Base.Int.{ℤ}
use pan_agent.Limits.{RunLimits}
use pan_agent.Loop.{Task}
use pan_agent.Evented.Machine.{Agent, RunState, value, Part, ◌>>=◌, update}
use pan_agent.Evented.Exchange.{attempt, obtain}
use pan_agent.Evented.{turn}
use pan_agent.Evented.Values.{value-state, >>=-value}
use pan_agent.Evented.Keeps.{Keeps, keeps_rules, keep-Keeps, Good}
use pan_agent.Evented.Parts.{
  project_context-Keeps, start_exchange-Keeps, settle_exchange-Keeps, after_exchange-Keeps,
}
use pan_agent.Evented.Rounds.{take_exchange-Keeps, check_budgets-Keeps}

module _ {W : Type 0} (agent : Agent W) (run_id task_id : String) where
  -- A part that goes on has added a model call at least.
  pub record Counts {A : Type 0} (part : Part W A) : Type 0 where
    pub counted :
        (s : RunState W) (a : A) (s' : RunState W)
        → part s ≡ value a s'
        → s.model_calls + 1 ≤ s'.model_calls

  pub Keeps-value :
      {A : Type 0} {m : Part W A}
      → Keeps agent run_id task_id m
      → (s : RunState W) (a : A) (s' : RunState W) → m s ≡ value a s'
      → s.model_calls ≤ s'.model_calls
  Keeps-value keeps s a s' h = (subst (Good agent run_id task_id s) h (keeps.good s)).calls

  Counts-first :
      {A B : Type 0} {m : Part W A} {f : A → Part W B}
      → Counts m
      → ((a : A) → Keeps agent run_id task_id (f a))
      → Counts (m >>= f)
  Counts-first {m = m} {f = f} counts keeps = record {
    counted = λ s b s' h. do
      let (a, s'', first, rest) = >>=-value m f s h
      omega (arith, counts.counted s a s'' first, Keeps-value (keeps a) s'' b s' rest);
  }

  Counts-rest :
      {A B : Type 0} {m : Part W A} {f : A → Part W B}
      → Keeps agent run_id task_id m
      → ((a : A) → Counts (f a))
      → Counts (m >>= f)
  Counts-rest {m = m} {f = f} keeps counts = record {
    counted = λ s b s' h. do
      let (a, s'', first, rest) = >>=-value m f s h
      omega (arith, Keeps-value keeps s a s'' first, (counts a).counted s'' b s' rest);
  }

  count-Counts : Counts (update (λ s. record s { model_calls = s.model_calls + 1 }))
  unfolding update
  count-Counts = record {
    counted = λ s a s' h. omega (arith, ap (λ (u : RunState W). u.model_calls) (value-state h));
  }

module _ {W : Type 0} (agent : Agent W) (run_id : String) (task : Task) (limits : RunLimits)
    (request_id : String) where
  attempt-Counts :
      (turn_id : String) (cause : Option String)
      → Counts agent run_id task.task_id
          (attempt agent run_id task.task_id request_id limits turn_id none cause)
  unfolding attempt
  attempt-Counts turn_id cause =
      search
        (
          Counts-rest, Counts-first, count-Counts, keeps_rules, keep-Keeps, project_context-Keeps,
          start_exchange-Keeps, settle_exchange-Keeps,
        )
        depth 14

  obtain-Counts :
      (turn_id : String)
      → Counts agent run_id task.task_id
          (obtain agent run_id task.task_id request_id limits turn_id)
  unfolding obtain
  obtain-Counts turn_id =
      search (Counts-rest, Counts-first, keeps_rules, attempt-Counts, after_exchange-Keeps) depth 8

  pub turn-Counts :
      (started_at : ℤ)
      → Counts agent run_id task.task_id (turn agent run_id task limits started_at request_id)
  unfolding turn
  turn-Counts started_at =
      search
        (
          Counts-rest, Counts-first, keeps_rules, check_budgets-Keeps, obtain-Counts,
          take_exchange-Keeps,
        )
        depth 8
