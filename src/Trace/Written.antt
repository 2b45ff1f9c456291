-- ===== src/Trace/Written.antt =====
-- Proofs on the lines that `_TraceWriter` has written, as `load_trace` reads them.
use native.Mathlib.Nat.{add-zero}
use text.Mathlib.TextPositions.{eq_refl}
use pan_agent.Base.{
  ℕ, suc, ◌+◌, ◌≡◌, refl, ap, String, Bool, true, false, not, some, List, [], ◌∷◌, ◌++◌, any,
  length, str_eq, arith,
}
use pan_agent.Base.Int.{pos}
use pan_agent.Base.Result.{ok}
use pan_agent.Base.Json.{
  int, str, obj, Fields, end, field, get, equals_int, equals_text, is_hashable, py_eq,
}
use pan_agent.Trace.{
  RunStatus, succeeded, model_error, status_value, Line, event_json, TraceEvent, TraceError,
  allowed_event_types, many_run_ids, many_task_ids, item, as_object, read_event, read_events,
  is_contiguous, last_event, result_object, check_status, check_one, check_events, check_trace,
  load_trace,
}

-- The type and the payload of one call of `record`.
pub record Entry : Type 0 where
  pub event_type : String
  pub payload : Fields

abbrev pub IsKnown : Entry → Type 0
IsKnown entry = any (λ allowed. str_eq entry.event_type allowed) allowed_event_types ≡ true

abbrev pub AllKnown : List Entry → Type 0
AllKnown [] = Unit
AllKnown (entry ∷ entries) = IsKnown entry × AllKnown entries

shift : (start n : ℕ) → start + suc n ≡ start + 1 + n
shift start n = omega arith

module _ (run_id task_id : String) where
  -- The lines that a writer puts down, the first with the given sequence number.
  unfoldable pub render : ℕ → List Entry → List Line
  render start [] = []
  render start (entry ∷ entries) =
      some (event_json run_id task_id start entry.event_type entry.payload)
      ∷ render (start + 1) entries

  abbrev pub event_of : ℕ → Entry → TraceEvent
  event_of sequence entry = record {
    schema_version = int (pos 1);
    run_id = str run_id;
    task_id = str task_id;
    sequence = int (pos sequence);
    event_type = str entry.event_type;
    payload = entry.payload;
  }

  unfoldable pub events_of : ℕ → List Entry → List TraceEvent
  events_of start [] = []
  events_of start (entry ∷ entries) = event_of start entry ∷ events_of (start + 1) entries

  pub render-append :
      (start : ℕ) (entries : List Entry) (entry : Entry)
      → render start (entries ++ entry ∷ [])
        ≡ render start entries
          ++ some
              (event_json run_id task_id (start + length entries) entry.event_type entry.payload)
            ∷ []
  unfolding render
  render-append start [] entry = rw add-zero
  render-append start (first ∷ entries) entry = rw (shift start (length entries)) (
      ap (λ t. some (event_json run_id task_id start first.event_type first.payload) ∷ t)
        (render-append (start + 1) entries entry))

  read_event-written :
      (line_number sequence : ℕ) (entry : Entry)
      → IsKnown entry
      → read_event line_number
          (some (event_json run_id task_id sequence entry.event_type entry.payload))
        ≡ ok (event_of sequence entry)
  unfolding read_event item get as_object equals_int equals_text
  read_event-written line_number sequence entry known = rw known

  read_events-written :
      (line_number start : ℕ) (entries : List Entry)
      → AllKnown entries
      → read_events line_number (render start entries) ≡ ok (events_of start entries)
  unfolding read_events render events_of
  read_events-written line_number start [] known = refl
  read_events-written line_number start (entry ∷ entries) known = rw (
    read_event-written line_number start entry known.0,
    read_events-written (line_number + 1) (start + 1) entries known.1,
  )

  is_contiguous-written :
      (start : ℕ) (entries : List Entry) → is_contiguous start (events_of start entries) ≡ true
  unfolding is_contiguous events_of equals_int
  is_contiguous-written start [] = refl
  is_contiguous-written start (entry ∷ entries) =
      ground (arith, is_contiguous-written (start + 1) entries)

  last_event-written :
      (start : ℕ) (event : TraceEvent) (entries : List Entry) (last : Entry)
      → (sequence : ℕ) × (last_event event (events_of start (entries ++ last ∷ []))
          ≡ event_of sequence last)
  unfolding events_of
  last_event-written start event [] last = (start, refl)
  last_event-written start event (next ∷ entries) last =
      last_event-written (start + 1) (event_of start next) entries last

  any-events_of :
      (test : TraceEvent → Bool)
      → ((sequence : ℕ) (entry : Entry) → test (event_of sequence entry) ≡ false)
      → (start : ℕ) (entries : List Entry) → any test (events_of start entries) ≡ false
  unfolding events_of
  any-events_of test h start [] = refl
  any-events_of test h start (entry ∷ entries) =
      rw (h start entry) (any-events_of test h (start + 1) entries)

  check_run_id-written :
      (error : TraceError) (start : ℕ) (entry : Entry) (entries : List Entry)
      → check_one (λ e. e.run_id) error (events_of start (entry ∷ entries)) ≡ ok tt
  unfolding check_one events_of py_eq
  check_run_id-written error start entry entries = rw (
    any-events_of (λ e. not (is_hashable e.run_id)) (λ n e. refl) (start + 1) entries,
    any-events_of (λ e. not (py_eq (str run_id) e.run_id)) (λ n e. rw eq_refl) (start + 1) entries,
  )

  check_task_id-written :
      (error : TraceError) (start : ℕ) (entry : Entry) (entries : List Entry)
      → check_one (λ e. e.task_id) error (events_of start (entry ∷ entries)) ≡ ok tt
  unfolding check_one events_of py_eq
  check_task_id-written error start entry entries = rw (
    any-events_of (λ e. not (is_hashable e.task_id)) (λ n e. refl) (start + 1) entries,
    any-events_of (λ e. not (py_eq (str task_id) e.task_id)) (λ n e. rw eq_refl) (start + 1)
        entries,
  )

check_status-written :
    (status : RunStatus) → check_status (some (str (status_value status))) ≡ ok tt
unfolding check_status equals_text
check_status-written succeeded = refl
check_status-written model_error = refl
check_status-written _ = refl

-- The first and the last entry of a trace that a run leaves behind.
pub record IsFramed (first last : Entry) (status : RunStatus) : Type 0 where
  pub result : Fields
  pub starts : first.event_type ≡ "run_started"
  pub ends : last.event_type ≡ "run_completed"
  pub carries : last.payload ≡ field "result" (obj result) end
  pub known : get "status" result ≡ some (str (status_value status))

module _ (run_id task_id : String) {first last : Entry} {status : RunStatus}
    (framed : IsFramed first last status) where
  check_events-written :
      (middle : List Entry)
      → check_events
          (event_of run_id task_id 0 first)
          (events_of run_id task_id 1 (middle ++ last ∷ []))
        ≡ ok tt
  unfolding check_events equals_text get result_object
  check_events-written middle =
      let rest = events_of run_id task_id 1 (middle ++ last ∷ []) in
      let contiguous : is_contiguous 0 (event_of run_id task_id 0 first ∷ rest) ≡ true =
        unfold events_of in
        is_contiguous-written run_id task_id 0 (first ∷ (middle ++ last ∷ [])) in
      let one_run : check_one (λ e. e.run_id) many_run_ids (event_of run_id task_id 0 first ∷ rest)
          ≡ ok tt =
        unfold events_of in check_run_id-written run_id task_id many_run_ids 0 first _ in
      let one_task : check_one (λ e. e.task_id) many_task_ids
            (event_of run_id task_id 0 first ∷ rest)
          ≡ ok tt =
        unfold events_of in check_task_id-written run_id task_id many_task_ids 0 first _ in
      let (n, at_end) =
        last_event-written run_id task_id 1 (event_of run_id task_id 0 first) middle last in
      rw (contiguous, one_run, one_task)
        (rw at_end (
          rw (framed.starts, framed.ends, framed.carries)
            (rw (framed.known, check_status-written status))))

  first-IsKnown : IsKnown first
  first-IsKnown = rw framed.starts

  AllKnown-append : (middle : List Entry) → AllKnown middle → AllKnown (middle ++ last ∷ [])
  AllKnown-append [] known = (rw framed.ends, tt)
  AllKnown-append (entry ∷ entries) known = (known.0, AllKnown-append entries known.1)

  -- A trace whose entries have allowed types, the first "run_started", the last "run_completed"
  -- with a result of a known status, is read back by the loader, every event as it was written.
  pub load_trace-render :
      (middle : List Entry)
      → AllKnown middle
      → load_trace (render run_id task_id 0 (first ∷ (middle ++ last ∷ [])))
        ≡ ok (events_of run_id task_id 0 (first ∷ (middle ++ last ∷ [])))
  unfolding load_trace
  load_trace-render middle known =
      rw
        (read_events-written run_id task_id 1 0 (first ∷ (middle ++ last ∷ []))
          (first-IsKnown, AllKnown-append middle known))
        (unfold events_of check_trace in rw (check_events-written middle))
