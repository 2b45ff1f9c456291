-- ===== src/Evented/Exchange.antt =====
-- workspace_agent_harness/evented.py: the projection and the exchange of a turn of `AgentLoop.run`,
-- and the one retry after a context overflow.
use Prim.Native.String.{◌++◌ as ◌<>◌}
use pan_agent.Base.{ℕ, ◌+◌, String, Bool, true, false, Option, none, some, [], ◌∷◌, if◌then◌else◌}
use pan_agent.Base.Int.{pos, leb_ℤ, ◌-ℤ◌}
use pan_agent.Base.Json.{int, str, obj, end, dict, merge, text_or_null}
use pan_agent.Limits.{RunLimits}
use pan_agent.Evented.Types.{
  EventedRunStatus, SemanticSummary, ModelContext, PreparedModelTurn, ProviderFailureKind,
  failure_kind_value, ProviderFailure, ExchangeFailed, Exchanged, failed, interrupted,
}
use pan_agent.Evented.Machine.{
  Agent, Part, plain, pure, ◌>>=◌, ◌>>◌, the, update, call, emit, fail, cancelled, check_signal,
}
use pan_agent.Evented.Turn.{
  attempt_value, context_window_payload, summary_schema, Overflow, overflow_event,
  overflow_exchange, attempt_of, recovery_items, definitions, history, exhausted, settle_projection,
}

-- What an attempt leaves: what the gateway returned, the event of its start, and the turn sent.
pub record Attempt : Type 0 where
  pub exchange : Exchanged
  pub exchange_started : String
  pub prepared : PreparedModelTurn

abbrev retry_number : Option Overflow → ℕ
retry_number none = 1
retry_number (some _) = 2

abbrev newer_summary : Option SemanticSummary → Option String → Option String
newer_summary none prior = prior
newer_summary (some summary) prior = some summary.identity

module _ {W : Type 0} (agent : Agent W) (run_id task_id request_id : String)
    (limits : RunLimits) where
  -- From "context.projection_started" to the context and the cause of what follows.
  unfoldable pub project_context :
      String → Option Overflow → Option String → Part W (ModelContext × String)
  project_context turn_id overflow cause = do
    source ← history agent
    model_calls ← the (λ s. s.model_calls)
    steps ← the (λ s. s.steps)
    started ←
        emit agent run_id
          (record (plain "context.projection_started" "candidate" cause (
            merge
              (dict (
                ("projection_attempt", str (attempt_value (attempt_of overflow)))
                ∷ ("history_identity", str source)
                ∷ ("history_schema", str "canonical-conversation/v1")
                ∷ ("remaining_model_calls", int (limits.max_model_calls -ℤ pos model_calls))
                ∷ ("remaining_tool_steps", int (limits.max_steps -ℤ pos steps))
                ∷ []))
              (recovery_items overflow (λ o.
                ("overflow_failure_event_id", str o.failure_event_id)
                ∷ ("retry_of_exchange_id", str o.exchange_id)
                ∷ [])))) { turn_id = some turn_id })
    request ← the (λ s. record {
      turn_id = turn_id;
      active_request_event_id = request_id;
      canonical_history = s.conversation;
      history_groups = s.history_groups;
      tools = definitions agent;
      prior_summary_identity = s.prior_summary_identity;
      attempt = attempt_of overflow;
      overflow_failure_event_id = overflow_event overflow;
    })
    outcome ← call (agent.project request)
    settle_projection agent run_id task_id turn_id overflow started outcome

  -- From "context.projected" to "model.exchange_started".
  unfoldable pub start_exchange : PreparedModelTurn → Option Overflow → String → Part W String
  start_exchange prepared overflow cause = do
    let context = prepared.model_context
    source ← history agent
    projected ←
        emit agent run_id
          (record (plain "context.projected" "accepted" (some cause) (
            merge
              (dict (
                ("projection_attempt", str (attempt_value (attempt_of overflow)))
                ∷ ("prepared_turn_identity", str (agent.turn_identity prepared))
                ∷ ("source_history_identity", str source)
                ∷ ("model_context_identity", str context.identity)
                ∷ ("semantic_context_identity", str context.semantic_identity)
                ∷ ("model_context_schema", str context.schema_version)
                ∷ ("summary_schema", summary_schema context.summary)
                ∷ ("context_policy_identity", str context.context_policy_identity)
                ∷ ("input_estimate_tokens", int context.input_estimate_tokens)
                ∷ ("context_window", obj (context_window_payload context))
                ∷ []))
              (recovery_items overflow (λ o. ("retry_of_exchange_id", str o.exchange_id) ∷ [])))) {
                turn_id = some prepared.turn_id;
              })
    emit agent run_id
        (record (plain "model.exchange_started" "candidate" (some projected) (
          dict (
            ("prepared_turn_identity", str (agent.turn_identity prepared))
            ∷ ("exchange_attempt", int (pos prepared.exchange_attempt))
            ∷ ("retry_of_exchange_id", text_or_null prepared.retry_of_exchange_id)
            ∷ []))) { turn_id = some prepared.turn_id })

  -- What the call of `exchange` has ended with: an exception, an interrupt, or a value.
  unfoldable pub settle_exchange : String → PreparedModelTurn → Exchanged → Part W Attempt
  settle_exchange started prepared interrupted = cancelled agent run_id task_id (some started)
  settle_exchange started prepared (Exchanged.raised message) =
      fail agent run_id task_id EventedRunStatus.model_error message started
  settle_exchange started prepared exchange = do
    check_signal agent run_id task_id (some started)
    pure (record { exchange = exchange; exchange_started = started; prepared = prepared })

  -- One attempt: a projection, and the exchange that counts as a model call.
  unfoldable pub attempt : String → Option Overflow → Option String → Part W Attempt
  attempt turn_id overflow cause = do
    (context, projected) ← project_context turn_id overflow cause
    update (λ s. record s {
      prior_summary_identity = newer_summary context.summary s.prior_summary_identity;
    })
    let prepared : PreparedModelTurn = record {
      turn_id = turn_id;
      model_context = context;
      tools = definitions agent;
      exchange_attempt = retry_number overflow;
      retry_of_exchange_id = overflow_exchange overflow;
    }
    started ← start_exchange prepared overflow projected
    update (λ s. record s { model_calls = s.model_calls + 1 })
    exchange ← call (agent.exchange prepared)
    settle_exchange started prepared exchange

  -- `record_failed_exchange`
  unfoldable pub record_failed_exchange : ExchangeFailed → Attempt → Part W String
  record_failed_exchange failure made =
      emit agent run_id
        (record (plain "model.exchange_failed" "failed" (some made.exchange_started) (
          merge
            (dict (
              ("exchange_attempt", int (pos made.prepared.exchange_attempt))
              ∷ ("retry_of_exchange_id", text_or_null made.prepared.retry_of_exchange_id)
              ∷ ("prepared_turn_identity", str (agent.turn_identity made.prepared))
              ∷ ("model_context_identity", str made.prepared.model_context.identity)
              ∷ ("failure_kind", str (failure_kind_value failure.failure.kind))
              ∷ ("failure_code", str failure.failure.code)
              ∷ ("failure_message", str failure.failure.message)
              ∷ []))
            failure.evidence)) {
              turn_id = some made.prepared.turn_id;
              exchange_id = some failure.exchange_id;
            })

  abbrev failure_text : ProviderFailure → String
  failure_text failure =
      failure_kind_value failure.kind <> ": " <> failure.code <> ": " <> failure.message

  abbrev pub is_overflow : ProviderFailureKind → Bool
  is_overflow ProviderFailureKind.context_overflow = true
  is_overflow _ = false

  -- What the retry has returned; the answer says whether a retry was made.
  unfoldable pub after_retry : String → Overflow → Attempt → Exchanged → Part W (Attempt × Bool)
  after_retry turn_id overflow made (failed failure) = do
    event ← record_failed_exchange failure made
    if is_overflow failure.failure.kind
        then exhausted agent run_id task_id turn_id
            (record { failure_event_id = event; exchange_id = failure.exchange_id }) event
            "retry_context_overflow" 1
            (dict (("retry_of_exchange_id", str overflow.exchange_id) ∷ []))
            "Context overflow recovery retry was exhausted"
        else fail agent run_id task_id EventedRunStatus.model_error (failure_text failure.failure)
            event
  after_retry turn_id overflow made _ = pure (made, true)

  -- The one retry, once the first exchange has failed by an overflow.
  unfoldable pub recover : String → Overflow → Part W (Attempt × Bool)
  recover turn_id overflow = do
    model_calls ← the (λ s. s.model_calls)
    if leb_ℤ limits.max_model_calls (pos model_calls)
        then exhausted agent run_id task_id turn_id overflow overflow.failure_event_id
            "model_call_budget_unavailable" 0 end
            "Context overflow recovery unavailable within model-call limit"
        else do
          made ← attempt turn_id (some overflow) (some overflow.failure_event_id)
          after_retry turn_id overflow made made.exchange

  -- What the first exchange has returned.
  unfoldable pub after_exchange : String → Attempt → Exchanged → Part W (Attempt × Bool)
  after_exchange turn_id made (failed failure) = do
    event ← record_failed_exchange failure made
    if is_overflow failure.failure.kind
        then recover turn_id
            (record { failure_event_id = event; exchange_id = failure.exchange_id })
        else fail agent run_id task_id EventedRunStatus.model_error (failure_text failure.failure)
            event
  after_exchange turn_id made _ = pure (made, false)

  -- The exchange that a turn settles on, with whether it is a retry.
  unfoldable pub obtain : String → Part W (Attempt × Bool)
  obtain turn_id = do
    last_event ← the (λ s. s.last_event)
    made ← attempt turn_id none last_event
    after_exchange turn_id made made.exchange
