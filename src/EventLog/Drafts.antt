-- ===== src/EventLog/Drafts.antt =====
-- workspace_agent_harness/evented.py: `RunEvent`, and the tests on a new event that
-- `JsonlRunEventLog.append` and the loader `load_run_event_log` share.
use pan_agent.Base.{
  String, Bool, true, false, not, ◌&&◌, ◌||◌, Option, none, some, List, [], ◌∷◌, any, str_eq,
  if◌then◌else◌,
}
use pan_agent.Base.Int.{ℤ}
use pan_agent.Base.Result.{Result, ok, err, ◌>>◌, raise_if}
use pan_agent.Base.Json.{Json, Fields, get, equals_text, is_hashable}

-- What the caller of `append` gives, besides the run.
pub record Draft : Type 0 where
  pub event_type : String
  pub phase : String
  pub caused_by_event_id : Option String
  pub payload : Fields
  pub turn_id : Option String
  pub exchange_id : Option String
  pub candidate_id : Option String
  pub tool_call_id : Option String
  pub compaction_id : Option String
  pub visibility : String

-- An event without its id: what its id is the digest of.
pub record Material : Type 0 where
  pub schema_version : String
  pub run_id : String
  pub sequence : ℤ
  pub previous_event_hash : Option String
  pub monotonic_offset_ns : ℤ
  pub draft : Draft
  pub open draft use *

pub record RunEvent : Type 0 where
  pub event_id : String
  pub material : Material
  pub open material use *

pub data LogError : Type 0 where
  after_terminal invalid_phase invalid_visibility no_compaction_id compaction_phase : LogError
  compaction_linkage terminal_phase unknown_status only_terminal many_run_ids : LogError
  bad_first bad_cause second_start unhashable identity_mismatch unsupported_schema : LogError
  negative_offset bad_sequence broken_chain first_offset decreasing_offset : LogError
  empty_log bad_end : LogError

abbrev pub event_schema : String
event_schema = "run-event/v1"

abbrev pub statuses : List String
statuses =
    "completed" ∷ "abstained" ∷ "loop_policy_stop" ∷ "cancelled" ∷ "model_error" ∷ "protocol_error"
    ∷ "tool_error" ∷ "step_limit" ∷ "model_call_limit" ∷ "time_limit" ∷ "context_compaction_error"
    ∷ "context_overflow" ∷ []

abbrev phases : List String
phases = "candidate" ∷ "accepted" ∷ "failed" ∷ "terminal" ∷ []

abbrev visibilities : List String
visibilities = "public" ∷ "expanded" ∷ "restricted" ∷ "secret-ref" ∷ []

-- s in texts
unfoldable pub is_one_of : List String → String → Bool
is_one_of texts s = any (λ text. str_eq s text) texts

-- a == b, where either may be None
unfoldable pub option_eq : Option String → Option String → Bool
option_eq none none = true
option_eq (some s) (some t) = str_eq s t
option_eq none (some _) = false
option_eq (some _) none = false

abbrev pub is_type : String → Draft → Bool
is_type event_type draft = str_eq draft.event_type event_type

-- bool(compaction_id)
abbrev pub has_text : Option String → Bool
has_text none = false
has_text (some s) = not (str_eq s "")

-- _COMPACTION_EVENT_PHASES.get(event_type)
unfoldable pub compaction_phase_of : String → Option String
compaction_phase_of event_type =
    if str_eq event_type "artifact.externalized"
    then some "accepted"
    else if str_eq event_type "context.compaction_started"
    then some "candidate"
    else if str_eq event_type "context.compaction_completed"
    then some "accepted"
    else if str_eq event_type "context.compaction_failed"
    then some "failed"
    else none

-- The event type is one of the compaction types, and the phase or the id does not fit.
unfoldable pub check_compaction : Draft → Option String → Result LogError (Unit {0})
check_compaction draft none = ok tt
check_compaction draft (some expected) = do
  raise_if (not (has_text draft.compaction_id)) no_compaction_id
  raise_if (not (str_eq draft.phase expected)) compaction_phase

unfoldable pub is_compaction_end : Draft → Bool
is_compaction_end draft =
    is_type "context.compaction_completed" draft || is_type "context.compaction_failed" draft

-- The newest event is the start that the draft, the end of a compaction, belongs to.
unfoldable pub is_linked : Option RunEvent → Draft → Bool
is_linked none draft = false
is_linked (some start) draft =
    is_type "context.compaction_started" start.draft
    && (option_eq start.compaction_id draft.compaction_id
        && option_eq draft.caused_by_event_id (some start.event_id))

-- The tests that `append` and the loader make in the same order.
unfoldable pub check_draft : Option RunEvent → Draft → Result LogError (Unit {0})
check_draft newest draft = do
  raise_if (not (is_one_of phases draft.phase)) invalid_phase
  raise_if (not (is_one_of visibilities draft.visibility)) invalid_visibility
  check_compaction draft (compaction_phase_of draft.event_type)
  raise_if (is_compaction_end draft && not (is_linked newest draft)) compaction_linkage

-- payload.get("status") in {status.value for status in EventedRunStatus}
unfoldable pub check_status : Option Json → Result LogError (Unit {0})
check_status none = err unknown_status
check_status (some value) = do
  raise_if (not (is_hashable value)) unhashable
  raise_if (not (any (λ status. equals_text status value) statuses)) unknown_status

unfoldable pub check_terminal : Draft → Result LogError (Unit {0})
check_terminal draft =
    if is_type "run.terminal" draft
    then (do
      raise_if (not (str_eq draft.phase "terminal")) terminal_phase
      check_status (get "status" draft.payload))
    else raise_if (str_eq draft.phase "terminal") only_terminal
