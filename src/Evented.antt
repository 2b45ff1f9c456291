-- ===== src/Evented.antt =====
-- workspace_agent_harness/evented.py: `AgentLoop.run`, which lets a model act through tools and
-- writes every step to the run event log. The children model its parts: Types what it exchanges
-- with the outside, Machine its state, Admission the tests on candidates, Turn and Exchange the
-- projection and the exchange of a turn, Batch the calls of tools, Taking what is done with an
-- answer.
pub mod Taking
pub mod Types
pub mod Machine
pub mod Admission
pub mod Turn
pub mod Exchange
pub mod Batch
pub mod Values
pub mod Admitted
pub mod Keeps
pub mod Parts
pub mod Calls
pub mod Rounds
pub mod Counted
pub mod Ending
pub mod Recorded
pub mod Costs
pub mod PartCosts
pub mod CallCosts
pub mod Ordinary
pub mod Accepting
pub mod Serves
pub mod Steps
pub mod Emits
pub mod Tame
pub mod Serving
pub mod Compacting
pub mod Planning
pub mod Asking
pub mod Hearing
pub mod Executing
pub mod Served
pub mod Answered
pub mod TameTests
pub mod Fits
pub mod Budget
pub mod Examples
pub mod Tests
use Prim.Native.String.{◌++◌ as ◌<>◌}
use pan_agent.Base.{
  ℕ, zero, suc, ◌+◌, String, Bool, true, false, Option, none, some, List, [], ◌∷◌, ◌++◌, str_eq,
  if◌then◌else◌,
}
use pan_agent.Base.Int.{ℤ, pos, pos_part, leb_ℤ, ◌-ℤ◌}
use pan_agent.Base.Json.{Json, null, int, str, obj, Fields, end, dict, merge, get, text_or_null}
use pan_agent.Limits.{RunLimits}
use pan_agent.Loop.{Task}
use pan_agent.EventLog.{EventLog, empty}
use pan_agent.EventLog.Drafts.{LogError}
use pan_agent.Evented.Types.{
  EventedRunStatus, EventedRunResult, FinalDisposition, Reasoning, Candidate, tool_call, tool_batch,
  final, malformed, user_message, assistant_final, PreparedModelTurn, ExchangeSettled, Exchanged,
  settled,
}
use pan_agent.Evented.Machine.{
  Agent, RunState, Exit, value, returned, raised, key_error, Part, plain, pure, ◌>>=◌, ◌>>◌, the,
  update, call, emit, terminal, fail, check_signal,
}
use pan_agent.Evented.Admission.{
  disposition_value, candidate_kind, candidate_identity, candidate_material, candidate_call_id,
  admission_error,
}
use pan_agent.Evented.Exchange.{Attempt, obtain}
use pan_agent.Evented.Batch.{Place, at_place, take_calls}
use pan_agent.Evented.Taking.{policy_items, check_budgets, take_exchange}

-- How `run` ends: it returns, or an error of the event log or a `KeyError` leaves it.
pub data RunEnd (W : Type 0) : Type 0 where
  result : EventedRunResult → RunState W → RunEnd W
  log_error : LogError → RunState W → RunEnd W
  missing_tool : RunState W → RunEnd W
  invalid_prompt : RunEnd W

module _ {W : Type 0} (agent : Agent W) (run_id : String) (task : Task) (limits : RunLimits) where
  -- One round of the loop, from the id of the "run.started" event.
  unfoldable pub turn : ℤ → String → Part W (Unit {0})
  turn started_at request_id = do
    check_budgets agent run_id task limits started_at
    turn_id ← the (λ s. run_id <> ":turn:" <> agent.show (s.model_calls + 1))
    (made, is_retry) ← obtain agent run_id task.task_id request_id limits turn_id
    take_exchange agent run_id task limits made.exchange made is_retry

  -- The loop goes on if the turn did not return and no exception left it.
  abbrev pub after_turn : (RunState W → Option (RunEnd W)) → Exit W (Unit {0}) → Option (RunEnd W)
  after_turn more (value _ s) = more s
  after_turn more (returned r s) = some (result r s)
  after_turn more (raised e s) = some (log_error e s)
  after_turn more (key_error s) = some (missing_tool s)

  -- The loop, on fuel.
  unfoldable pub turns : ℕ → ℤ → String → RunState W → Option (RunEnd W)
  turns zero started_at request_id s = none
  turns (suc fuel) started_at request_id s =
      after_turn (λ s'. turns fuel started_at request_id s') (turn started_at request_id s)

  -- The event "run.started".
  unfoldable pub start : Part W String
  start = do
    event ← emit agent run_id (
        plain "run.started" "accepted" none (
          merge
            (dict (
              ("agent_id", str agent.agent_id)
              ∷ ("system_policy_identity", str agent.system_policy_identity)
              ∷ ("task_id", str task.task_id)
              ∷ (
                "task_identity",
                str (
                    agent.sha256_json
                      (dict (("task_id", str task.task_id) ∷ ("prompt", str task.prompt) ∷ []))),
              )
              ∷ ("prompt", str task.prompt)
              ∷ (
                "limits",
                obj (
                    dict (
                      ("max_steps", int limits.max_steps)
                      ∷ ("max_model_calls", int limits.max_model_calls)
                      ∷ ("timeout_seconds", int limits.timeout_seconds)
                      ∷ [])),
              )
              ∷ []))
            (dict (policy_items agent.loop_policy_id))))
    update (λ s. record s { last_event = some event })
    pure event

  abbrev pub first_state : EventLog → W → RunState W
  first_state log world = record {
    steps = 0;
    model_calls = 0;
    last_event = none;
    conversation = user_message task.prompt ∷ [];
    used_call_ids = [];
    history_groups = [];
    prior_summary_identity = none;
    event_log = log;
    world = world;
  }

  -- The loop, once "run.started" is written. One turn more than there may be model calls is enough.
  abbrev pub after_start : ℤ → Exit W String → Option (RunEnd W)
  after_start started_at (value request_id s) =
      turns (suc (pos_part limits.max_model_calls)) started_at request_id s
  after_start started_at (returned r s) = some (result r s)
  after_start started_at (raised e s) = some (log_error e s)
  after_start started_at (key_error s) = some (missing_tool s)

  -- `run`, with the event log that the loop was given.
  unfoldable pub run : EventLog → W → Option (RunEnd W)
  run log world =
      if agent.is_blank task.prompt
      then some invalid_prompt
      else let (started_at, world') = agent.monotonic world in
        after_start started_at (start (first_state log world'))
