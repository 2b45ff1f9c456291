-- ===== src/Evented/Turn.antt =====
-- workspace_agent_harness/evented.py: how a turn of `AgentLoop.run` gets its context from the
-- projector and its answer from the gateway, up to the one retry after a context overflow.
use Prim.Native.String.{◌++◌ as ◌<>◌}
use pan_agent.Base.{ℕ, String, Option, none, some, List, [], ◌∷◌, map, str_eq}
use pan_agent.Base.Int.{ℤ, pos}
use pan_agent.Base.Json.{Json, null, bool, int, str, Fields, end, dict, merge}
use pan_agent.Evented.Types.{
  EventedRunStatus, SemanticSummary, ActionTool, ModelContext, ProjectionAttempt, proactive,
  overflow_recovery, PlannedEvent, projected, refused, Projected, unavailable, EventTool,
}
use pan_agent.Evented.Machine.{Agent, Part, plain, pure, ◌>>=◌, the, emit, fail}

abbrev pub attempt_value : ProjectionAttempt → String
attempt_value proactive = "proactive"
attempt_value overflow_recovery = "overflow-recovery"

abbrev int_or_null : Option ℤ → Json
int_or_null none = null
int_or_null (some n) = int n

-- `_model_context_window_payload`
abbrev pub context_window_payload : ModelContext → Fields
context_window_payload context = dict (
    ("tokens", int_or_null context.context_window_tokens)
    ∷ ("provenance", str context.context_window_provenance)
    ∷ ("source", str context.context_window_source)
    ∷ ("confidence", str context.context_window_confidence)
    ∷ ("used_for_proactive_fit", bool (str_eq context.context_window_provenance "verified"))
    ∷ [])

abbrev pub summary_schema : Option SemanticSummary → Json
summary_schema none = null
summary_schema (some summary) = str summary.schema_version

-- The failed exchange that an overflow recovery answers: the id of its event and its own id.
pub record Overflow : Type 0 where
  pub failure_event_id : String
  pub exchange_id : String

abbrev pub overflow_event : Option Overflow → Option String
overflow_event none = none
overflow_event (some overflow) = some overflow.failure_event_id

abbrev pub overflow_exchange : Option Overflow → Option String
overflow_exchange none = none
overflow_exchange (some overflow) = some overflow.exchange_id

abbrev pub attempt_of : Option Overflow → ProjectionAttempt
attempt_of none = proactive
attempt_of (some _) = overflow_recovery

-- The items that only an overflow recovery adds to a payload.
abbrev pub recovery_items : Option Overflow → (Overflow → List (String × Json)) → Fields
recovery_items none items = end
recovery_items (some overflow) items = dict (items overflow)

module _ {W : Type 0} (agent : Agent W) where
  abbrev pub definitions : List ActionTool
  definitions = map (λ (tool : EventTool W). tool.definition) agent.tools

  -- conversation.identity
  abbrev pub history : Part W String
  history = the (λ s. agent.history_identity s.conversation)

module _ {W : Type 0} (agent : Agent W) (run_id task_id : String) where
  -- The `except Exception` of a projection.
  unfoldable pub projection_failed :
      {A : Type 0} → String → Option Overflow → String → String → Part W A
  projection_failed turn_id overflow cause message = do
    let name = attempt_value (attempt_of overflow)
    source ← history agent
    let compaction_id = agent.sha256_json (
        dict (
          ("attempt", str name)
          ∷ ("run_id", str run_id)
          ∷ ("turn_id", str turn_id)
          ∷ ("source_history_identity", str source)
          ∷ ("failure", str "context_projector_failed")
          ∷ []))
    started ←
        emit agent run_id
          (record (plain "context.compaction_started" "candidate" (some cause) (
            merge
              (dict (
                ("attempt", str name)
                ∷ ("trigger", str "projector-unavailable-or-invalid")
                ∷ ("source_history_identity", str source)
                ∷ []))
              (recovery_items overflow
                (λ o. ("overflow_failure_event_id", str o.failure_event_id) ∷ [])))) {
                  turn_id = some turn_id;
                  compaction_id = some compaction_id;
                })
    failed ←
        emit agent run_id
          (record (plain "context.compaction_failed" "failed" (some started) (
            dict (
              ("attempt", str name)
              ∷ ("error_code", str "context_projector_failed")
              ∷ ("error", str message)
              ∷ ("source_history_identity", str source)
              ∷ []))) { turn_id = some turn_id; compaction_id = some compaction_id })
    fail agent run_id task_id EventedRunStatus.context_compaction_error
        ("context_projector_failed: " <> message) failed

  -- The loop over the planned events; the result is the id of the last one, or the cause.
  unfoldable pub emit_planned : String → List PlannedEvent → String → Part W String
  emit_planned turn_id [] cause = pure cause
  emit_planned turn_id (planned ∷ events) cause = do
    event ←
        emit agent run_id
          (record (plain planned.event_type planned.phase (some cause) planned.payload) {
            turn_id = some turn_id;
            compaction_id = planned.compaction_id;
            visibility = planned.visibility;
          })
    emit_planned turn_id events event

  -- "context.overflow_retry_exhausted", with the items of its payload after the first ones.
  unfoldable pub exhausted :
      {A : Type 0} → String → Overflow → String → String → ℕ → Fields → String → Part W A
  exhausted turn_id overflow cause reason completed_retries more message = do
    event ←
        emit agent run_id
          (record (plain "context.overflow_retry_exhausted" "failed" (some cause) (
            merge
              (dict (
                ("reason", str reason)
                ∷ ("allowed_retries", int (pos 1))
                ∷ ("completed_retries", int (pos completed_retries))
                ∷ []))
              more)) { turn_id = some turn_id; exchange_id = some overflow.exchange_id })
    fail agent run_id task_id EventedRunStatus.context_overflow message event

  -- What `project` has ended with, after the event of its start.
  unfoldable pub settle_projection :
      String → Option Overflow → String → Projected → Part W (ModelContext × String)
  settle_projection turn_id overflow started (Projected.returned (projected events context)) = do
    cause ← emit_planned turn_id events started
    pure (context, cause)
  settle_projection turn_id overflow started (Projected.returned (refused events message)) = do
    cause ← emit_planned turn_id events started
    fail agent run_id task_id EventedRunStatus.context_compaction_error message cause
  settle_projection turn_id overflow started (Projected.raised message) =
      projection_failed turn_id overflow started message
  settle_projection turn_id none started (unavailable message) =
      projection_failed turn_id none started message
  settle_projection turn_id (some overflow) started (unavailable message) =
      exhausted turn_id overflow started "semantic_projector_unavailable" 0
        (dict (("error", str message) ∷ [])) message
