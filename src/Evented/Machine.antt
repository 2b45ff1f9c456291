-- ===== src/Evented/Machine.antt =====
-- workspace_agent_harness/evented.py: the state of `AgentLoop.run` and the ways in which a part of
-- it ends: with a value, with the result of the run (`return`), with an error of the event log,
-- which `run` does not catch, or with a `KeyError`.
use pan_agent.Base.{ℕ, String, Bool, Option, none, some, List, [], ◌∷◌, if◌then◌else◌}
use pan_agent.Base.Int.{ℤ, pos}
use pan_agent.Base.Result.{Result, ok, err}
use pan_agent.Base.Json.{int, str, Fields, dict, text_or_null}
use pan_agent.EventLog.{EventLog, append}
use pan_agent.EventLog.Drafts.{Draft, Material, RunEvent, LogError}
use pan_agent.Evented.Types.{
  EventedRunStatus, evented_status_value, EventedRunResult, CanonicalMessage, HistoryGroup,
  ProjectionRequest, Projected, PreparedModelTurn, Exchanged, EventTool,
}

-- What `AgentLoop` is built from, and the functions that it takes from elsewhere.
pub record Agent (W : Type 0) : Type 0 where
  pub monotonic : W → ℤ × W
  pub monotonic_ns : W → ℤ × W
  pub is_set : W → Bool × W
  pub set : W → W
  pub project : ProjectionRequest → W → Projected × W
  pub exchange : PreparedModelTurn → W → Exchanged × W
  pub tools : List (EventTool W)
  pub agent_id : String
  pub system_policy_identity : String
  pub loop_policy_id : Option String
  pub digest : Material → String
  pub sha256_json : Fields → String
  pub history_identity : List CanonicalMessage → String
  pub turn_identity : PreparedModelTurn → String
  pub show : ℕ → String
  pub is_blank : String → Bool
  pub repr : String → String

-- The variables of `run`; an event is known by its id.
pub record RunState (W : Type 0) : Type 0 where
  pub steps : ℕ
  pub model_calls : ℕ
  pub last_event : Option String
  pub conversation : List CanonicalMessage
  pub used_call_ids : List String
  pub history_groups : List HistoryGroup
  pub prior_summary_identity : Option String
  pub event_log : EventLog
  pub world : W

pub data Exit (W : Type 0) (A : Type 0) : Type 0 where
  value : A → RunState W → Exit W A
  returned : EventedRunResult → RunState W → Exit W A
  raised : LogError → RunState W → Exit W A
  key_error : RunState W → Exit W A

abbrev pub Part : Type 0 → Type 0 → Type 0
Part W A = RunState W → Exit W A

-- An event with the fields that every call of `_append` gives.
abbrev pub plain : String → String → Option String → Fields → Draft
plain event_type phase cause payload = record {
  event_type = event_type;
  phase = phase;
  caused_by_event_id = cause;
  payload = payload;
  turn_id = none;
  exchange_id = none;
  candidate_id = none;
  tool_call_id = none;
  compaction_id = none;
  visibility = "public";
}

-- The payload of the terminal event.
abbrev pub terminal_payload : EventedRunStatus → Option String → Option String → ℕ → ℕ → Fields
terminal_payload status output error steps model_calls = dict (
    ("status", str (evented_status_value status))
    ∷ ("output", text_or_null output)
    ∷ ("error", text_or_null error)
    ∷ ("steps", int (pos steps))
    ∷ ("model_calls", int (pos model_calls))
    ∷ [])

module _ {W : Type 0} where
  unfoldable pub pure : {A : Type 0} → A → Part W A
  pure a s = value a s

  abbrev pub and_then : {A B : Type 0} → Exit W A → (A → Part W B) → Exit W B
  and_then (value a s) f = f a s
  and_then (returned result s) f = returned result s
  and_then (raised e s) f = raised e s
  and_then (key_error s) f = key_error s

  infixl 5 ◌>>=◌ ◌>>◌
  unfoldable pub ◌>>=◌ : {A B : Type 0} → Part W A → (A → Part W B) → Part W B
  (m >>= f) s = and_then (m s) f

  abbrev pub ◌>>◌ : {B : Type 0} → Part W (Unit {0}) → Part W B → Part W B
  m >> k = m >>= λ _. k

  -- A read of a variable.
  unfoldable pub the : {A : Type 0} → (RunState W → A) → Part W A
  the f s = value (f s) s

  -- An assignment.
  unfoldable pub update : (RunState W → RunState W) → Part W (Unit {0})
  update f s = value tt (f s)

  -- A call of something outside, which may change the world.
  unfoldable pub call : {A : Type 0} → (W → A × W) → Part W A
  call f s = let (a, world) = f s.world in value a (record s { world = world })

  module _ (agent : Agent W) (run_id : String) where
    -- The id of the event that is written, or the error. The clock is read once the tests passed.
    unfoldable pub written : W → Result LogError RunEvent × EventLog → Part W String
    written world (err e, log) s = raised e (record s { event_log = log })
    written world (ok event, log) s =
        value event.event_id (record s { event_log = log; world = world })

    -- `_append`
    unfoldable pub emit : Draft → Part W String
    emit draft s =
        let (now, world) = agent.monotonic_ns s.world in
        written world (append agent.digest s.event_log run_id draft now) s

    module _ (task_id : String) where
      -- `terminal`, which every call of it returns from `run`; the cause is `cause or last_event`.
      unfoldable pub terminal :
          {A : Type 0} → EventedRunStatus → Option String → Option String → Option String → Part W A
      terminal status output error cause s =
          and_then
            (emit
              (plain "run.terminal" "terminal" cause
                (terminal_payload status output error s.steps s.model_calls))
              s)
            (λ event s'.
              returned
                (record {
                  run_id = run_id;
                  task_id = task_id;
                  status = status;
                  output = output;
                  steps = s.steps;
                  model_calls = s.model_calls;
                  error = error;
                })
                (record s' { last_event = some event }))

      -- return terminal(status, error=error, cause=cause)
      abbrev pub fail : {A : Type 0} → EventedRunStatus → String → String → Part W A
      fail status error cause = terminal status none (some error) (some cause)

      -- `cancelled`
      unfoldable pub cancelled : {A : Type 0} → Option String → Part W A
      cancelled cause = do
        call (λ world. (tt, agent.set world))
        requested ← emit (
            plain "control.cancel_requested" "accepted" cause
              (dict (("source", str "interrupt_or_signal") ∷ [])))
        update (λ s. record s { last_event = some requested })
        fail EventedRunStatus.cancelled "run cancelled" requested

      -- if signal.is_set(): return cancelled(cause)
      unfoldable pub check_signal : Option String → Part W (Unit {0})
      check_signal cause = do
        is_set ← call agent.is_set
        if is_set then cancelled cause else pure tt
