-- ===== src/EventLog.antt =====
-- workspace_agent_harness/evented.py: `JsonlRunEventLog.append` and `load_run_event_log`. Lists of
-- events are held newest first. A line of the file is the event that it encodes; lines of another
-- shape, which the loader refuses, are not modelled. `_sha256_json` is the argument `digest`. The
-- clock reading is an argument of `append`.
pub mod Drafts
pub mod Made
pub mod Sound
pub mod Replay
pub mod Chain
pub mod Refused
pub mod Journal
pub mod Conditions
pub mod Tested
pub mod Refined
pub mod Entries
pub mod Accepted
pub mod Loaded
pub mod Tests
use mathlib.Core.List.{reverse}
use pan_agent.Base.{
  ℕ, String, Bool, true, false, not, ◌&&◌, ◌||◌, Option, none, some, List, [], ◌∷◌, any, length,
  str_eq, if◌then◌else◌,
}
use pan_agent.Base.Int.{ℤ, pos, ltb_ℤ, int_eq, ◌-ℤ◌, max_ℤ}
use pan_agent.Base.Result.{Result, ok, err, ◌>>=◌, ◌>>◌, raise_if}
use pan_agent.Base.Json.{Json, Fields, get, equals_text, is_hashable}
use pan_agent.EventLog.Drafts.{
  Draft, Material, RunEvent, LogError, event_schema, option_eq, is_type, check_draft,
  check_terminal, after_terminal, many_run_ids, bad_first, bad_cause, second_start,
  identity_mismatch, unsupported_schema, negative_offset, bad_sequence, broken_chain, first_offset,
  decreasing_offset, empty_log, bad_end,
}

-- caused_by_event_id in {event.event_id for event in events}
unfoldable pub is_caused : List RunEvent → Option String → Bool
is_caused events none = false
is_caused events (some id) = any (λ (e : RunEvent). str_eq e.event_id id) events

-- The newest of the events, if there is one.
abbrev pub newest_of : List RunEvent → Option RunEvent
newest_of [] = none
newest_of (newest ∷ older) = some newest

abbrev pub id_of : Option RunEvent → Option String
id_of none = none
id_of (some event) = some event.event_id

-- `JsonlRunEventLog`, with the events in memory, which are also the lines of its file.
pub record EventLog : Type 0 where
  pub events : List RunEvent
  pub run_id : Option String
  pub started_ns : Option ℤ

abbrev pub empty : EventLog
empty = record { events = []; run_id = none; started_ns = none }

-- The first tests of `append`, which change nothing.
unfoldable pub check_append : List RunEvent → Draft → Result LogError (Unit {0})
check_append [] draft = do check_draft none draft; check_terminal draft
check_append (newest ∷ older) draft = do
  raise_if (is_type "run.terminal" newest.draft) after_terminal
  check_draft (some newest) draft
  check_terminal draft

-- The tests on the place of the event.
unfoldable pub check_place : List RunEvent → Draft → Result LogError (Unit {0})
check_place [] draft =
    raise_if (not (is_type "run.started" draft) || not (option_eq draft.caused_by_event_id none))
      bad_first
check_place (newest ∷ older) draft = do
  raise_if (not (is_caused (newest ∷ older) draft.caused_by_event_id)) bad_cause
  raise_if (is_type "run.started" draft) second_start

-- max(max(0, now_ns - started_ns), the newest offset)
unfoldable pub next_offset : List RunEvent → ℤ → ℤ → ℤ
next_offset [] started now = max_ℤ (pos 0) (now -ℤ started)
next_offset (newest ∷ older) started now =
    max_ℤ (max_ℤ (pos 0) (now -ℤ started)) newest.monotonic_offset_ns

abbrev pub started_or : Option ℤ → ℤ → ℤ
started_or none now = now
started_or (some started) now = started

-- events[0]
abbrev pub oldest : RunEvent → List RunEvent → RunEvent
oldest event [] = event
oldest event (older ∷ events) = oldest older events

-- The tests on all events: the newest is the one terminal event.
unfoldable pub check_end : List RunEvent → Result LogError (List RunEvent)
check_end [] = err empty_log
check_end (newest ∷ older) =
    if is_type "run.terminal" newest.draft
      && not (any (λ (e : RunEvent). is_type "run.terminal" e.draft) older)
    then ok (newest ∷ older)
    else err bad_end

module _ (digest : Material → String) where
  abbrev pub make_event : Material → RunEvent
  make_event material = record { event_id = digest material; material = material }

  abbrev next_material : EventLog → String → Draft → ℤ → Material
  next_material log run_id draft now = record {
    schema_version = event_schema;
    run_id = run_id;
    sequence = pos (length log.events);
    previous_event_hash = id_of (newest_of log.events);
    monotonic_offset_ns = next_offset log.events (started_or log.started_ns now) now;
    draft = draft;
  }

  -- Once all tests have passed.
  unfoldable pub add_event : EventLog → String → Draft → ℤ → RunEvent × EventLog
  add_event log run_id draft now =
      let event = make_event (next_material log run_id draft now) in
      (
        event,
        record log {
          events = event ∷ log.events;
          started_ns = some (started_or log.started_ns now);
        },
      )

  -- After the run id is known to fit and is stored.
  unfoldable pub place_event :
      EventLog
      → String
      → Draft
      → ℤ
      → Result LogError (Unit {0})
      → Result LogError RunEvent × EventLog
  place_event log run_id draft now (err e) = (err e, log)
  place_event log run_id draft now (ok u) =
      let (event, log') = add_event log run_id draft now in (ok event, log')

  -- The test on the run id stores the first one before the tests on the place are made.
  unfoldable pub append_checked :
      EventLog → Option String → String → Draft → ℤ → Result LogError RunEvent × EventLog
  append_checked log none run_id draft now =
      place_event (record log { run_id = some run_id }) run_id draft now
        (check_place log.events draft)
  append_checked log (some known) run_id draft now =
      if str_eq known run_id
      then place_event log run_id draft now (check_place log.events draft)
      else (err many_run_ids, log)

  unfoldable pub append_after :
      EventLog
      → String
      → Draft
      → ℤ
      → Result LogError (Unit {0})
      → Result LogError RunEvent × EventLog
  append_after log run_id draft now (err e) = (err e, log)
  append_after log run_id draft now (ok u) = append_checked log log.run_id run_id draft now

  -- `append`: the event or the error, and the log as it is left.
  unfoldable pub append : EventLog → String → Draft → ℤ → Result LogError RunEvent × EventLog
  append log run_id draft now = append_after log run_id draft now (check_append log.events draft)

  -- The tests of the loader on one event, after the events before it.
  unfoldable pub check_line : Option RunEvent → ℕ → RunEvent → Result LogError (Unit {0})
  check_line newest count event = do
    raise_if (not (str_eq event.event_id (digest event.material))) identity_mismatch
    raise_if (not (str_eq event.schema_version event_schema)) unsupported_schema
    check_draft newest event.draft
    raise_if (ltb_ℤ event.monotonic_offset_ns (pos 0)) negative_offset
    raise_if (not (int_eq event.sequence (pos count))) bad_sequence
    raise_if (not (option_eq event.previous_event_hash (id_of newest))) broken_chain

  unfoldable pub check_event : List RunEvent → RunEvent → Result LogError (Unit {0})
  check_event [] event = do
    check_line none 0 event
    raise_if
        (not (is_type "run.started" event.draft) || not (option_eq event.caused_by_event_id none))
        bad_first
    raise_if (not (int_eq event.monotonic_offset_ns (pos 0))) first_offset
    check_terminal event.draft
  check_event (newest ∷ older) event = do
    check_line (some newest) (length (newest ∷ older)) event
    raise_if (not (str_eq event.run_id (oldest newest older).run_id)) many_run_ids
    raise_if (ltb_ℤ event.monotonic_offset_ns newest.monotonic_offset_ns) decreasing_offset
    raise_if (not (is_caused (newest ∷ older) event.caused_by_event_id)) bad_cause
    check_terminal event.draft

  -- The loop over the lines, which stand oldest first; `events` are those read so far.
  unfoldable pub load_events : List RunEvent → List RunEvent → Result LogError (List RunEvent)
  load_events events [] = ok events
  load_events events (line ∷ lines) = do check_event events line; load_events (line ∷ events) lines

  unfoldable pub load_run_event_log : List RunEvent → Result LogError (List RunEvent)
  load_run_event_log lines = do events ← load_events [] lines; check_end events
