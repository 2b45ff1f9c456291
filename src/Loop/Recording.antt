-- ===== src/Loop/Recording.antt =====
-- Lemmas on the trace of a run of `AgentLoop` that is not over yet, and what a new entry does to
-- it.
use native.Mathlib.Nat.{add-zero}
use pan_agent.Base.{
  ℕ, suc, ◌+◌, ◌≡◌, refl, sym, String, Bool, false, List, [], ◌∷◌, ◌++◌, length, length-append,
  count_if, count_if-append, str_eq, arith,
}
use pan_agent.Base.Json.{Fields}
use pan_agent.Trace.{TraceWriter, new_writer, write}
use pan_agent.Trace.Written.{Entry, IsKnown, AllKnown, render, render-append}

abbrev pub is_tool_completed : Entry → Bool
is_tool_completed entry = str_eq entry.event_type "tool_completed"

-- The writer has put down a start entry and then the entries of `middle`, with no gap.
pub record IsRecording (run_id task_id : String) (steps : ℕ) (trace : TraceWriter) : Type 0 where
  pub start : Fields
  pub middle : List Entry
  pub same_run : trace.run_id ≡ run_id
  pub same_task : trace.task_id ≡ task_id
  pub all_known : AllKnown middle
  pub counted : count_if is_tool_completed middle ≡ steps
  pub next : trace.sequence ≡ 0 + suc (length middle)
  pub put_down :
      trace.lines
      ≡ render run_id task_id 0 (record { event_type = "run_started"; payload = start } ∷ middle)

AllKnown-snoc :
    (entries : List Entry) (entry : Entry)
    → AllKnown entries
    → IsKnown entry
    → AllKnown (entries ++ entry ∷ [])
AllKnown-snoc [] entry known new = (new, tt)
AllKnown-snoc (first ∷ entries) entry known new = (known.0, AllKnown-snoc entries entry known.1 new)

module _ (run_id task_id : String) where
  pub lines-write :
      (steps : ℕ) (trace : TraceWriter) (event_type : String) (payload : Fields)
      (r : IsRecording run_id task_id steps trace)
      → (write trace event_type payload).lines
        ≡ render run_id task_id 0 (
            record { event_type = "run_started"; payload = r.start }
            ∷ (r.middle ++ record { event_type = event_type; payload = payload } ∷ []))
  unfolding write
  lines-write steps trace event_type payload r =
      rw (r.put_down, r.same_run, r.same_task, r.next)
        (sym (
          render-append run_id task_id 0
            (record { event_type = "run_started"; payload = r.start } ∷ r.middle)
            (record { event_type = event_type; payload = payload })))

  pub write-IsRecording :
      {steps : ℕ} {trace : TraceWriter} (entry : Entry)
      → IsKnown entry
      → IsRecording run_id task_id steps trace
      → IsRecording run_id task_id
          (steps + count_if is_tool_completed (entry ∷ []))
          (write trace entry.event_type entry.payload)
  unfolding write
  write-IsRecording {steps} {trace} entry known r = record {
    start = r.start;
    middle = r.middle ++ entry ∷ [];
    same_run = r.same_run;
    same_task = r.same_task;
    all_known = AllKnown-snoc r.middle entry r.all_known known;
    counted = rw (count_if-append is_tool_completed r.middle (entry ∷ []), r.counted);
    next = omega (arith, r.next, length-append r.middle (entry ∷ []));
    put_down = unfold write in lines-write steps trace entry.event_type entry.payload r;
  }

  pub start-IsRecording :
      (payload : Fields)
      → IsRecording run_id task_id 0 (write (new_writer run_id task_id) "run_started" payload)
  unfolding write new_writer render count_if
  start-IsRecording payload = record {
    start = payload;
    middle = [];
    same_run = refl;
    same_task = refl;
    all_known = tt;
    counted = refl;
    next = refl;
    put_down = refl;
  }

  -- The entry is not the completion of a tool.
  pub write-other :
      {steps : ℕ} {trace : TraceWriter} (entry : Entry)
      → IsKnown entry
      → is_tool_completed entry ≡ false
      → IsRecording run_id task_id steps trace
      → IsRecording run_id task_id steps (write trace entry.event_type entry.payload)
  write-other {steps} entry known other r =
      let same : steps + count_if is_tool_completed (entry ∷ []) ≡ steps =
        unfold count_if in rw (other, add-zero) in
      rw same at (write-IsRecording entry known r)
