-- ===== src/Loop/Budget.antt =====
-- Proofs on the counters of a run of `AgentLoop`, its status and its end.
use pan_agent.Base.{
  ℕ, zero, suc, ◌+◌, ◌<◌, ◌≡◌, refl, sym, ap, String, Option, none, some, inl, inr, Bool-cases,
  arith,
}
use pan_agent.Base.Int.{ℤ, pos, leb_ℤ, ◌≤ℤ◌, ◌<ℤ◌, pos_part}
use pan_agent.Base.Result.{Result, ok, err}
use pan_agent.Base.Json.{Fields}
use pan_agent.Limits.{RunLimits}
use pan_agent.Limits.Bounds.{IsPositive}
use pan_agent.Trace.{RunStatus, model_error, parse_error, tool_error, policy_blocked}
use pan_agent.Loop.Actions.{
  Action, final, tool_call, ParseFailure, value_error, type_error, parse_action,
}
use pan_agent.Loop.{
  Task, ToolOutcome, observed, policy_violation, raised, Env, State, Ended, completed, crashed,
  Round, stopped, again, timed_out, calls_spent, finish, after_tool, use_tool, take_action,
  after_response, round, rounds, run,
}
use pan_agent.Loop.Accounting.{IsFailure, IsAccounted, calls_spent-eq, calls_left, out_of_fuel}

module _ {W : Type 0} (env : Env W) (limits : RunLimits) where
  -- Between two rounds there was one tool step for each model call, and room for another of each.
  record IsOpen (s : State W) : Type 0 where
    paired : s.steps ≡ s.model_calls
    room : pos s.steps <ℤ limits.max_steps
    calls : pos s.model_calls ≤ℤ limits.max_model_calls

  -- After the model was called in a round.
  record IsCalled (s : State W) : Type 0 where
    paired : s.model_calls ≡ s.steps + 1
    room : pos s.steps <ℤ limits.max_steps
    calls : pos s.model_calls ≤ℤ limits.max_model_calls

  -- Some output of the model makes `_parse_action` raise `TypeError`.
  abbrev pub HasCrashingOutput : Type 0
  HasCrashingOutput =
      (raw_response : String) × (parse_action env.repr (env.loads raw_response) ≡ err type_error)

  abbrev pub EndsWell : Ended W → Type 0
  EndsWell (completed r trace world) = IsAccounted limits r
  EndsWell (crashed trace world) = HasCrashingOutput

  -- What holds when the round is over.
  abbrev Keeps : ℕ → Round W → Type 0
  Keeps calls (stopped ended) = EndsWell ended
  Keeps calls (again s) = IsOpen s × (s.model_calls ≡ calls)

  finish-failed :
      (s : State W) (status : RunStatus) (message : String)
      → IsCalled s
      → IsFailure status
      → Keeps s.model_calls (finish s status none (some message))
  unfolding finish
  finish-failed s model_error message c f = record {
    steps_bound = omega arith;
    calls_bound = c.calls;
    explained = (c.paired, refl, (message, refl));
  }
  finish-failed s parse_error message c f = record {
    steps_bound = omega arith;
    calls_bound = c.calls;
    explained = (c.paired, refl, (message, refl));
  }
  finish-failed s tool_error message c f = record {
    steps_bound = omega arith;
    calls_bound = c.calls;
    explained = (c.paired, refl, (message, refl));
  }
  finish-failed s policy_blocked message c f = record {
    steps_bound = omega arith;
    calls_bound = c.calls;
    explained = (c.paired, refl, (message, refl));
  }
  finish-failed s _ message c f = absurd f

  after_tool-Keeps :
      (raw_response tool : String) (outcome : ToolOutcome) (s : State W)
      → IsCalled s
      → Keeps s.model_calls (after_tool limits raw_response tool outcome s)
  unfolding after_tool
  after_tool-Keeps raw_response tool (policy_violation message) s c =
      finish-failed _ policy_blocked message
        (record { paired = c.paired; room = c.room; calls = c.calls }) tt
  after_tool-Keeps raw_response tool (raised message) s c =
      finish-failed _ tool_error message
        (record { paired = c.paired; room = c.room; calls = c.calls }) tt
  after_tool-Keeps raw_response tool (observed observation) s c =
      elim (Bool-cases (leb_ℤ limits.max_steps (pos (s.steps + 1)))) [
        | inl last ↦ rw last (
            unfold finish in
            record {
              steps_bound = omega arith;
              calls_bound = c.calls;
              explained = (ground arith, sym c.paired, refl);
            })
        | inr more ↦
            rw more (record { paired = sym c.paired; room = ground arith; calls = c.calls }, refl)
      ]

  use_tool-Keeps :
      (raw_response tool : String) (arguments : Fields)
      (found : Option (Fields → W → ToolOutcome × W)) (s : State W)
      → IsCalled s
      → Keeps s.model_calls (use_tool limits raw_response tool arguments found s)
  unfolding use_tool
  use_tool-Keeps raw_response tool arguments none s c =
      finish-failed _ tool_error _ (record { paired = c.paired; room = c.room; calls = c.calls }) tt
  use_tool-Keeps raw_response tool arguments (some execute) s c =
      after_tool-Keeps raw_response tool (execute arguments s.world).0 _
        (record { paired = c.paired; room = c.room; calls = c.calls })

  take_action-Keeps :
      (raw_response : String) (action : Result ParseFailure Action) (s : State W)
      → parse_action env.repr (env.loads raw_response) ≡ action
      → IsCalled s
      → Keeps s.model_calls (take_action env limits raw_response action s)
  unfolding take_action
  take_action-Keeps raw_response (err type_error) s e c = (raw_response, e)
  take_action-Keeps raw_response (err (value_error message)) s e c =
      finish-failed s parse_error message c tt
  take_action-Keeps raw_response (ok (final output)) s e c =
      unfold finish in
      record {
        steps_bound = omega arith;
        calls_bound = c.calls;
        explained = (c.paired, refl, (output, refl));
      }
  take_action-Keeps raw_response (ok (tool_call tool arguments)) s e c =
      use_tool-Keeps raw_response tool arguments (env.tools tool) s c

  after_response-Keeps :
      (response : Result String String) (s : State W)
      → IsCalled s
      → Keeps s.model_calls (after_response env limits response s)
  unfolding after_response
  after_response-Keeps (err message) s c = finish-failed s model_error message c tt
  after_response-Keeps (ok raw_response) s c =
      take_action-Keeps raw_response (parse_action env.repr (env.loads raw_response)) _ refl
        (record { paired = c.paired; room = c.room; calls = c.calls })

  round-Keeps :
      (started_at : ℤ) (s : State W)
      → IsOpen s
      → Keeps (s.model_calls + 1) (round env limits started_at s)
  unfolding round
  round-Keeps started_at s o =
      let (now, world) = env.monotonic s.world in
      elim (Bool-cases (timed_out limits started_at now)) [
        | inl late ↦ rw late (
            unfold finish in
            record {
              steps_bound = omega arith;
              calls_bound = o.calls;
              explained = (o.paired, refl);
            })
        | inr early ↦ elim (Bool-cases (calls_spent limits s.model_calls)) [
          | inl spent ↦
              rw (early, spent)
                (unfold finish in
                  record {
                    steps_bound = omega arith;
                    calls_bound = o.calls;
                    explained = (calls_spent-eq limits s.model_calls o.calls spent, o.paired, refl);
                  })
          | inr left ↦
              rw (early, left)
                (after_response-Keeps (env.respond s.context world).0 _ (record {
                  paired = ap (λ n. n + 1) (sym o.paired);
                  room = o.room;
                  calls = calls_left limits s.model_calls left;
                }))
        ]
      ]

  rounds_total :
      (fuel : ℕ) (started_at : ℤ) (s : State W)
      → IsOpen s
      → pos_part limits.max_model_calls < s.model_calls + fuel
      → (ended : Ended W) × (rounds fuel env limits started_at s ≡ some ended) × EndsWell ended
  unfolding rounds
  rounds_total zero started_at s o enough = absurd (out_of_fuel limits s.model_calls o.calls enough)
  rounds_total (suc fuel) started_at s o enough =
      go (round env limits started_at s) refl (round-Keeps started_at s o)
        (rounds_total fuel started_at)
    where
      go :
          (r : Round W)
          → round env limits started_at s ≡ r
          → Keeps (s.model_calls + 1) r
          → ((n : State W)
              → IsOpen n
              → pos_part limits.max_model_calls < n.model_calls + fuel
              → (ended : Ended W) × (rounds fuel env limits started_at n ≡ some ended)
                × EndsWell ended)
          → (ended : Ended W) × (rounds (suc fuel) env limits started_at s ≡ some ended)
            × EndsWell ended
      go (stopped ended) e keeps ih = (ended, rw (e, rounds), keeps)
      go (again next) e keeps ih =
          let (ended, h, well) = ih next keeps.0 (omega (arith, keeps.1)) in
          (ended, rw (e, rounds) h, well)

  -- With positive limits (as the runtime resolves them) a run always ends. It ends by a result
  -- that keeps both budgets and whose status agrees with its counters, output and error, or by the
  -- `TypeError` of `_parse_action`, and then some text makes `_parse_action` raise it.
  pub run_total :
      (run_id : String) (task : Task) (world : W)
      → IsPositive limits
      → (ended : Ended W) × (run env run_id task limits world ≡ some ended) × EndsWell ended
  unfolding run
  run_total run_id task world positive =
      rounds_total (suc (pos_part limits.max_model_calls)) _ _
        (record {
          paired = refl;
          room = positive.steps;
          calls = omega (arith, positive.model_calls);
        })
        (omega arith)
