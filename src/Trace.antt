-- ===== src/Trace.antt =====
-- workspace_agent_harness/__init__.py: the JSONL trace of a run, its writer and its loader.
-- A line of the file is the value that `json.loads` reads from it, or none where that fails.
pub mod Written
pub mod Tests
use pan_agent.Base.{
  ℕ, zero, suc, ◌+◌, String, Bool, true, false, not, ◌&&◌, ◌||◌, Option, none, some, List, [], ◌∷◌,
  ◌++◌, any, str_eq, if◌then◌else◌,
}
use pan_agent.Base.Int.{ℤ, pos}
use pan_agent.Base.Result.{Result, ok, err, ◌>>=◌, ◌>>◌, raise_if}
use pan_agent.Base.Json.{
  Json, int, str, obj, Fields, end, field, get, equals_int, equals_text, is_hashable, py_eq,
}

pub data RunStatus : Type 0 where
  succeeded model_error parse_error tool_error step_limit timeout : RunStatus
  budget_exceeded policy_blocked runtime_error : RunStatus

-- RunStatus.value
abbrev pub status_value : RunStatus → String
status_value succeeded = "succeeded"
status_value model_error = "model_error"
status_value parse_error = "parse_error"
status_value tool_error = "tool_error"
status_value step_limit = "step_limit"
status_value timeout = "timeout"
status_value budget_exceeded = "budget_exceeded"
status_value policy_blocked = "policy_blocked"
status_value runtime_error = "runtime_error"

abbrev pub all_statuses : List RunStatus
all_statuses =
    succeeded ∷ model_error ∷ parse_error ∷ tool_error ∷ step_limit ∷ timeout ∷ budget_exceeded
    ∷ policy_blocked ∷ runtime_error ∷ []

abbrev pub Line : Type 0
Line = Option Json

-- `_TraceWriter`; `lines` is what stands in its file.
pub record TraceWriter : Type 0 where
  pub run_id : String
  pub task_id : String
  pub sequence : ℕ
  pub lines : List Line

unfoldable pub new_writer : String → String → TraceWriter
new_writer run_id task_id = record { run_id = run_id; task_id = task_id; sequence = 0; lines = [] }

-- The event that `record` writes; the keys stand in the order of `sort_keys=True`.
abbrev pub event_json : String → String → ℕ → String → Fields → Json
event_json run_id task_id sequence event_type payload = obj (
    field "event_type" (str event_type) (
      field "payload" (obj payload) (
        field "run_id" (str run_id) (
          field "schema_version" (int (pos 1))
            (field "sequence" (int (pos sequence)) (field "task_id" (str task_id) end))))))

unfoldable pub write : TraceWriter → String → Fields → TraceWriter
write trace event_type payload = record trace {
  lines =
      trace.lines
      ++ some (event_json trace.run_id trace.task_id trace.sequence event_type payload) ∷ [];
  sequence = trace.sequence + 1;
}

-- `TraceEvent`, once the loader has seen that its payload is an object.
pub record TraceEvent : Type 0 where
  pub schema_version : Json
  pub run_id : Json
  pub task_id : Json
  pub sequence : Json
  pub event_type : Json
  pub payload : Fields

-- The numbers are line numbers. `unhashable` is the `TypeError` of a test in a set.
pub data TraceError : Type 0 where
  invalid_json not_object unsupported_schema unknown_event_type payload_not_object : ℕ → TraceError
  missing_field : ℕ → String → TraceError
  empty_trace not_contiguous bad_ends no_result unknown_status : TraceError
  many_run_ids many_task_ids unhashable : TraceError

abbrev pub allowed_event_types : List String
allowed_event_types =
    "run_started" ∷ "model_output" ∷ "tool_completed" ∷ "tool_failed" ∷ "run_completed" ∷ []

-- value[key]
unfoldable pub item : ℕ → Fields → String → Result TraceError Json
item line_number value key = elim (get key value) [
  | none ↦ err (missing_field line_number key)
  | some v ↦ ok v
]

-- isinstance(payload, dict)
unfoldable pub as_object : ℕ → Json → Result TraceError Fields
as_object line_number (obj fields) = ok fields
as_object line_number _ = err (payload_not_object line_number)

unfoldable pub read_event : ℕ → Line → Result TraceError TraceEvent
read_event line_number (some (obj value)) = do
  schema_version ← item line_number value "schema_version"
  run_id ← item line_number value "run_id"
  task_id ← item line_number value "task_id"
  sequence ← item line_number value "sequence"
  event_type ← item line_number value "event_type"
  payload ← item line_number value "payload"
  raise_if (not (equals_int (pos 1) schema_version)) (unsupported_schema line_number)
  raise_if (not (is_hashable event_type)) unhashable
  raise_if (not (any (λ allowed. equals_text allowed event_type) allowed_event_types))
      (unknown_event_type line_number)
  fields ← as_object line_number payload
  ok (record {
    schema_version = schema_version;
    run_id = run_id;
    task_id = task_id;
    sequence = sequence;
    event_type = event_type;
    payload = fields;
  })
read_event line_number none = err (invalid_json line_number)
read_event line_number (some _) = err (not_object line_number)

unfoldable pub read_events : ℕ → List Line → Result TraceError (List TraceEvent)
read_events line_number [] = ok []
read_events line_number (line ∷ lines) = do
  event ← read_event line_number line
  events ← read_events (line_number + 1) lines
  ok (event ∷ events)

-- [event.sequence for event in events] == list(range(start, start + len(events)))
unfoldable pub is_contiguous : ℕ → List TraceEvent → Bool
is_contiguous start [] = true
is_contiguous start (event ∷ events) =
    equals_int (pos start) event.sequence && is_contiguous (start + 1) events

-- events[-1], where `event` stands before `events`
abbrev pub last_event : TraceEvent → List TraceEvent → TraceEvent
last_event event [] = event
last_event event (next ∷ events) = last_event next events

-- isinstance(payload.get("result"), dict)
unfoldable pub result_object : Option Json → Result TraceError Fields
result_object (some (obj fields)) = ok fields
result_object _ = err no_result

-- terminal_status in {status.value for status in RunStatus}; `get` gives None for a missing key
unfoldable pub check_status : Option Json → Result TraceError (Unit {0})
check_status none = err unknown_status
check_status (some value) = do
  raise_if (not (is_hashable value)) unhashable
  raise_if (not (any (λ status. equals_text (status_value status) value) all_statuses))
      unknown_status

-- len({f(event) for event in events}) == 1
unfoldable pub check_one :
    (TraceEvent → Json) → TraceError → List TraceEvent → Result TraceError (Unit {0})
check_one f error [] = err error
check_one f error (event ∷ events) = do
  raise_if (any (λ e. not (is_hashable (f e))) (event ∷ events)) unhashable
  raise_if (any (λ e. not (py_eq (f event) (f e))) events) error

-- The checks on a whole trace, whose first event is split off.
unfoldable pub check_events : TraceEvent → List TraceEvent → Result TraceError (Unit {0})
check_events first rest = do
  raise_if (not (is_contiguous 0 (first ∷ rest))) not_contiguous
  let last = last_event first rest
  raise_if
      (not (equals_text "run_started" first.event_type)
        || not (equals_text "run_completed" last.event_type))
      bad_ends
  result ← result_object (get "result" last.payload)
  check_status (get "status" result)
  check_one (λ e. e.run_id) many_run_ids (first ∷ rest)
  check_one (λ e. e.task_id) many_task_ids (first ∷ rest)

unfoldable pub check_trace : List TraceEvent → Result TraceError (List TraceEvent)
check_trace [] = err empty_trace
check_trace (first ∷ rest) = do check_events first rest; ok (first ∷ rest)

unfoldable pub load_trace : List Line → Result TraceError (List TraceEvent)
load_trace lines = do events ← read_events 1 lines; check_trace events
