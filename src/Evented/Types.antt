-- ===== src/Evented/Types.antt =====
-- workspace_agent_harness/evented.py: what the evented `AgentLoop` exchanges with its gateway, its
-- context projector and its tools. Values of the wrong Python type are not modelled, save for a
-- candidate that `_candidate_schema_error` refuses, which is `malformed`.
use pan_agent.Base.{ℕ, String, Bool, Option, List}
use pan_agent.Base.Int.{ℤ}
use pan_agent.Base.Json.{Fields}

-- `EventedRunStatus`
pub data EventedRunStatus : Type 0 where
  completed abstained loop_policy_stop cancelled model_error protocol_error : EventedRunStatus
  tool_error step_limit model_call_limit time_limit context_compaction_error : EventedRunStatus
  context_overflow : EventedRunStatus

abbrev pub evented_status_value : EventedRunStatus → String
evented_status_value completed = "completed"
evented_status_value abstained = "abstained"
evented_status_value loop_policy_stop = "loop_policy_stop"
evented_status_value cancelled = "cancelled"
evented_status_value model_error = "model_error"
evented_status_value protocol_error = "protocol_error"
evented_status_value tool_error = "tool_error"
evented_status_value step_limit = "step_limit"
evented_status_value model_call_limit = "model_call_limit"
evented_status_value time_limit = "time_limit"
evented_status_value context_compaction_error = "context_compaction_error"
evented_status_value context_overflow = "context_overflow"

pub record EventedRunResult : Type 0 where
  pub run_id : String
  pub task_id : String
  pub status : EventedRunStatus
  pub output : Option String
  pub steps : ℕ
  pub model_calls : ℕ
  pub error : Option String

pub data FinalDisposition : Type 0 where
  completed abstained : FinalDisposition

-- What an assistant turn carries besides its calls or its content.
pub record Reasoning : Type 0 where
  pub reasoning : Option String
  pub provider_metadata : List (String × String)

-- `CandidateToolCall`, and `CanonicalToolCall`, which has the same parts.
pub record ToolCall : Type 0 where
  pub call_id : String
  pub tool_name : String
  pub arguments : Fields

-- `CandidateAction`; a batch has two calls at least. A malformed one carries its schema error.
pub data Candidate : Type 0 where
  tool_call : ToolCall → Reasoning → Candidate
  tool_batch : ToolCall → ToolCall → List ToolCall → Reasoning → Candidate
  final : String → FinalDisposition → Option String → Reasoning → Candidate
  malformed : String → Candidate

-- `CanonicalMessage`
pub data CanonicalMessage : Type 0 where
  user_message : String → CanonicalMessage
  assistant_final : String → Reasoning → CanonicalMessage
  assistant_calls : List ToolCall → Reasoning → CanonicalMessage
  tool_result : String → String → String → CanonicalMessage

-- `ProjectionHistoryGroup`
pub record HistoryGroup : Type 0 where
  pub call : CanonicalMessage
  pub results : List CanonicalMessage
  pub call_event_id : String
  pub result_event_ids : List String
  pub facts : List (List String)
  pub failures : List (List String)

pub record ActionTool : Type 0 where
  pub name : String
  pub description : String
  pub argument_name : String
  pub argument_description : String

pub record SemanticSummary : Type 0 where
  pub identity : String
  pub schema_version : String

-- `ModelContext`, as far as the loop reads it.
pub record ModelContext : Type 0 where
  pub identity : String
  pub semantic_identity : String
  pub schema_version : String
  pub summary : Option SemanticSummary
  pub context_policy_identity : String
  pub input_estimate_tokens : ℤ
  pub context_window_tokens : Option ℤ
  pub context_window_provenance : String
  pub context_window_source : String
  pub context_window_confidence : String

pub data ProjectionAttempt : Type 0 where
  proactive overflow_recovery : ProjectionAttempt

pub record ProjectionRequest : Type 0 where
  pub turn_id : String
  pub active_request_event_id : String
  pub canonical_history : List CanonicalMessage
  pub history_groups : List HistoryGroup
  pub tools : List ActionTool
  pub prior_summary_identity : Option String
  pub attempt : ProjectionAttempt
  pub overflow_failure_event_id : Option String

-- `ProjectionEvent`
pub record PlannedEvent : Type 0 where
  pub event_type : String
  pub phase : String
  pub payload : Fields
  pub compaction_id : Option String
  pub visibility : String

-- `ContextProjection`: one of a context and an error.
pub data ContextProjection : Type 0 where
  projected : List PlannedEvent → ModelContext → ContextProjection
  refused : List PlannedEvent → String → ContextProjection

-- How `project` ends; `unavailable` is `OverflowRecoveryUnavailableError`.
pub data Projected : Type 0 where
  returned : ContextProjection → Projected
  unavailable raised : String → Projected

pub record PreparedModelTurn : Type 0 where
  pub turn_id : String
  pub model_context : ModelContext
  pub tools : List ActionTool
  pub exchange_attempt : ℕ
  pub retry_of_exchange_id : Option String

-- `ProviderFailureKind`
pub data ProviderFailureKind : Type 0 where
  context_overflow authentication authorization balance budget rate_limit : ProviderFailureKind
  transport protocol unknown : ProviderFailureKind

abbrev pub failure_kind_value : ProviderFailureKind → String
failure_kind_value context_overflow = "context_overflow"
failure_kind_value authentication = "authentication"
failure_kind_value authorization = "authorization"
failure_kind_value balance = "balance"
failure_kind_value budget = "budget"
failure_kind_value rate_limit = "rate_limit"
failure_kind_value transport = "transport"
failure_kind_value protocol = "protocol"
failure_kind_value unknown = "unknown"

pub record ProviderFailure : Type 0 where
  pub kind : ProviderFailureKind
  pub code : String
  pub message : String

-- The evidence is what `ExchangeEvidence.as_event_payload` gives.
pub record ExchangeFailed : Type 0 where
  pub exchange_id : String
  pub failure : ProviderFailure
  pub evidence : Fields

pub record ExchangeSettled : Type 0 where
  pub exchange_id : String
  pub candidate : Candidate
  pub stop_reason : String
  pub evidence : Fields

-- How `exchange` ends; `untyped` is a value of another type, `interrupted` a `KeyboardInterrupt`.
pub data Exchanged : Type 0 where
  settled : ExchangeSettled → Exchanged
  failed : ExchangeFailed → Exchanged
  untyped interrupted : Exchanged
  raised : String → Exchanged

pub record ToolLifecycleEvent : Type 0 where
  pub event_type : String
  pub phase : String
  pub payload : Fields
  pub visibility : String

-- How a tool ends; a plain text is an observation with no facts and no failures.
pub data ToolEnd : Type 0 where
  observed : String → List String → List String → ToolEnd
  untyped interrupted : ToolEnd
  raised : String → ToolEnd

-- A tool at work: it ends, or it calls the observer and goes on with whether that raised.
pub data Activity (W : Type 0) : Type 0 where
  ended : ToolEnd → W → Activity W
  observes : ToolLifecycleEvent → W → (Bool → W → Activity W) → Activity W

pub record EventTool (W : Type 0) : Type 0 where
  pub definition : ActionTool
  pub validate : Fields → W → Option String × W
  pub execute : Fields → W → Activity W
