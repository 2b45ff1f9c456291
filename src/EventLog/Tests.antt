-- ===== src/EventLog/Tests.antt =====
-- Runs of the event log, and the theorems on it at concrete logs.
use mathlib.Core.List.{reverse}
use pan_agent.Base.{
  ◌≡◌, refl, str_eq, eq_iff, String, Bool, true, false, Option, none, some, List, [], ◌∷◌,
  if◌then◌else◌,
}
use pan_agent.Base.Int.{pos, int_eq, max_ℤ}
use pan_agent.Base.Result.{ok, err}
use pan_agent.Base.Json.{str, arr, nil, Fields, end, field, get, equals_text}
use pan_agent.EventLog.{
  EventLog, empty, append, load_run_event_log, append_after, check_append, append_checked,
  place_event, check_place, load_events, check_event, check_line, is_caused, check_end, add_event,
  next_offset,
}
use pan_agent.EventLog.Drafts.{
  Draft, Material, RunEvent, unhashable, check_draft, is_one_of, check_compaction,
  compaction_phase_of, is_compaction_end, check_terminal, option_eq, check_status, is_linked,
}
use pan_agent.EventLog.Sound.{IsSound, empty-IsSound, append-IsSound}
use pan_agent.EventLog.Replay.{Call, append_all}
use pan_agent.EventLog.Chain.{load_run_event_log-tamper_evident}
use pan_agent.EventLog.Loaded.{IsChained, load_run_event_log-IsChained}
use pan_agent.EventLog.Journal.{journal_of}
use pan_agent.EventLog.Refined.{Answers, append-Answers}
use pan_agent.EventLog.Refused.{Adds, append-Adds, append_all-closed}

-- A digest that tells the events of the runs below apart.
abbrev short_digest : Material → String
short_digest material = if int_eq material.sequence (pos 0) then "e0" else "e1"

abbrev a_draft : String → String → Option String → Fields → Draft
a_draft event_type phase cause payload = record {
  event_type = event_type;
  phase = phase;
  caused_by_event_id = cause;
  payload = payload;
  turn_id = none;
  exchange_id = none;
  candidate_id = none;
  tool_call_id = none;
  compaction_id = none;
  visibility = "public";
}

abbrev start_call : Call
start_call = record { run_id = "r"; draft = a_draft "run.started" "accepted" none end; now = pos 5 }

abbrev bad_call : Call
bad_call = record {
  run_id = "other";
  draft = a_draft "run.started" "accepted" none end;
  now = pos 6;
}

abbrev end_call : Call
end_call = record {
  run_id = "r";
  draft = a_draft "run.terminal" "terminal" (some "e0") (field "status" (str "completed") end);
  now = pos 9;
}

abbrev calls : List Call
calls = start_call ∷ bad_call ∷ end_call ∷ []

abbrev started : EventLog
started = append_all short_digest empty (start_call ∷ [])

abbrev first_event : RunEvent
first_event = record {
  event_id = "e0";
  material = record {
    schema_version = "run-event/v1";
    run_id = "r";
    sequence = pos 0;
    previous_event_hash = none;
    monotonic_offset_ns = pos 0;
    draft = start_call.draft;
  };
}

abbrev last_event : RunEvent
last_event = record {
  event_id = "e1";
  material = record {
    schema_version = "run-event/v1";
    run_id = "r";
    sequence = pos 1;
    previous_event_hash = some "e0";
    monotonic_offset_ns = pos 4;
    draft = end_call.draft;
  };
}

abbrev ended : List RunEvent
ended = last_event ∷ first_event ∷ []

calls_ended : (append_all short_digest empty calls).events ≡ ended
unfolding append append_after check_append check_draft is_one_of check_compaction
    compaction_phase_of is_compaction_end check_terminal append_checked place_event check_place
    option_eq add_event check_status get equals_text max_ℤ is_caused is_linked next_offset
calls_ended = refl

-- A status that is a list is an uncaught TypeError, not a refusal.
status_of_list :
    (append short_digest started "r"
      (a_draft "run.terminal" "terminal" (some "e0") (field "status" (arr nil) end))
      (pos 7)).0
    ≡ err unhashable
unfolding append append_after check_append check_draft is_one_of check_compaction
    compaction_phase_of is_compaction_end check_terminal append_checked place_event check_place
    option_eq add_event check_status get
status_of_list = refl

-- A refused first event leaves its run id behind, so that the run that follows is refused too.
refused_run_id :
    (append_all short_digest empty (
      record { run_id = "a"; draft = a_draft "tool.started" "accepted" none end; now = pos 1 }
      ∷ start_call
      ∷ [])).events
    ≡ []
unfolding append append_after check_append check_draft is_one_of check_compaction
    compaction_phase_of is_compaction_end check_terminal append_checked place_event check_place
refused_run_id = refl

append-IsSound_example :
    IsSound short_digest (append short_digest empty "r" start_call.draft (pos 5)).1
append-IsSound_example =
    append-IsSound short_digest empty "r" start_call.draft (pos 5) (empty-IsSound short_digest)

loaded : load_run_event_log short_digest (first_event ∷ last_event ∷ []) ≡ ok ended
unfolding load_run_event_log load_events check_event check_line check_draft is_one_of
    check_compaction compaction_phase_of is_compaction_end option_eq check_terminal is_caused
    check_status get equals_text check_end
loaded = refl

loaded_ended-IsChained :
    (ended ≡ reverse (first_event ∷ last_event ∷ [])) × IsChained short_digest ended
loaded_ended-IsChained =
    load_run_event_log-IsChained short_digest (first_event ∷ last_event ∷ []) ended loaded

wrong {ℓ} : {A : Type ℓ} {b : Bool} → b ≡ false → b ≡ true → A
wrong h k = cc

apart {ℓ} : {A : Type ℓ} {s t : String} → str_eq s t ≡ false → s ≡ t → A
apart {s = s} {t = t} other same = wrong other ((eq_iff s t).1 same)

load_run_event_log-tamper_evident_example : ended ≡ ended
load_run_event_log-tamper_evident_example =
    load_run_event_log-tamper_evident short_digest (first_event ∷ last_event ∷ [])
      (first_event ∷ last_event ∷ []) ended ended loaded loaded
      ((λ h. refl, (λ h. apart refl h, tt)), ((λ h. apart refl h, (λ h. refl, tt)), tt)) refl

refused_call-Adds :
    Adds "other" bad_call.draft started (append short_digest started "other" bad_call.draft (pos 6))
refused_call-Adds = append-Adds short_digest started "other" bad_call.draft (pos 6)

append-Answers_example :
    Answers
      (journal_of started)
      "r"
      end_call.draft
      (append short_digest started "r" end_call.draft (pos 9)).0
      (journal_of (append short_digest started "r" end_call.draft (pos 9)).1)
append-Answers_example = append-Answers short_digest "r" end_call.draft (pos 9) started

append_all-ended :
    append_all short_digest (append_all short_digest empty calls) calls
    ≡ append_all short_digest empty calls
unfolding append append_after check_append check_draft is_one_of check_compaction
    compaction_phase_of is_compaction_end check_terminal append_checked place_event check_place
    option_eq add_event check_status get equals_text max_ℤ is_caused is_linked next_offset
append_all-ended =
    append_all-closed short_digest calls (append_all short_digest empty calls) last_event
      (first_event ∷ []) refl refl
