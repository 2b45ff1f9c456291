-- ===== src/Trace/Tests.antt =====
-- A trace with one tool call, and a line whose event type is a list.
use pan_agent.Base.{◌≡◌, refl, some, [], ◌∷◌, ◌++◌}
use pan_agent.Base.Int.{pos}
use pan_agent.Base.Result.{ok, err}
use pan_agent.Base.Json.{int, str, arr, nil, obj, Fields, end, field, get, equals_int}
use pan_agent.Trace.{succeeded, unhashable, load_trace, read_events, read_event, item}
use pan_agent.Trace.Written.{Entry, IsFramed, render, events_of, load_trace-render}

abbrev start : Entry
start = record { event_type = "run_started"; payload = end }

abbrev call : Entry
call = record { event_type = "tool_completed"; payload = field "tool" (str "echo") end }

abbrev answer : Fields
answer = field "status" (str "succeeded") end

abbrev finish : Entry
finish = record { event_type = "run_completed"; payload = field "result" (obj answer) end }

answer_status : get "status" answer ≡ some (str "succeeded")
unfolding get
answer_status = refl

abbrev trace-IsFramed : IsFramed start finish succeeded
trace-IsFramed = record {
  result = answer;
  starts = refl;
  ends = refl;
  carries = refl;
  known = answer_status;
}

tool_call_loads :
    load_trace (render "r" "t" 0 (start ∷ (call ∷ [] ++ finish ∷ [])))
    ≡ ok (events_of "r" "t" 0 (start ∷ (call ∷ [] ++ finish ∷ [])))
tool_call_loads = load_trace-render "r" "t" trace-IsFramed (call ∷ []) (refl, tt)

-- The loader raises a TypeError of Python's here, in place of its own error.
abbrev odd_line : Fields
odd_line = field "schema_version" (int (pos 1)) (
    field "run_id" (str "r") (
      field "task_id" (str "t") (
        field "sequence" (int (pos 0))
          (field "event_type" (arr nil) (field "payload" (obj end) end)))))

odd_line_raises : load_trace (some (obj odd_line) ∷ []) ≡ err unhashable
unfolding load_trace read_events read_event item get equals_int
odd_line_raises = refl
