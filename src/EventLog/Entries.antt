-- ===== src/EventLog/Entries.antt =====
-- Lemmas on the tests that `load_run_event_log` makes on one event: against what they ask for.
use pan_agent.Base.{
  ℕ, ◌≡◌, ap, ==_iff, String, ◌↔◌, true, false, none, some, List, [], ◌∷◌, map, length, eq_iff,
  arith,
}
use pan_agent.Base.Int.{ℤ, pos, negsuc, ltb_ℤ, int_eq, ◌≤ℤ◌}
use pan_agent.Base.Iff.{then_iff, when_iff, unless_iff, unless_both_iff}
use pan_agent.Base.Result.{ok}
use pan_agent.EventLog.{newest_of, id_of, oldest, check_line, check_event}
use pan_agent.EventLog.Drafts.{Material, RunEvent, event_schema, check_draft, check_terminal}
use pan_agent.EventLog.Journal.{IsIn, entry_of, id_of_entry, IsProper, EndsCompaction, IsLinkedTo}
use pan_agent.EventLog.Conditions.{option_eq_iff, is_caused_iff, is_type_iff}
use pan_agent.EventLog.Tested.{IsProper-iff}

-- Where an event stands, after the events before it
abbrev pub IsPlaced : List RunEvent → RunEvent → Type 0
IsPlaced [] event =
    ((event.event_type ≡ "run.started") × (event.caused_by_event_id ≡ none))
    × (event.monotonic_offset_ns ≡ pos 0)
IsPlaced (newest ∷ older) event =
    (event.run_id ≡ (oldest newest older).run_id)
    × ((newest.monotonic_offset_ns ≤ℤ event.monotonic_offset_ns)
        × ((cause : String) × (event.caused_by_event_id ≡ some cause)
            × IsIn cause (map id_of_entry (map entry_of (newest ∷ older)))))

int_eq_iff : (i : ℤ) (n : ℕ) → (int_eq i (pos n) ≡ true) ↔ (i ≡ pos n)
int_eq_iff (pos m) n = (λ h. ap pos ((==_iff m n).0 h), λ e. (==_iff m n).1 cc)
int_eq_iff (negsuc m) n = (λ h. cc, λ e. cc)

not_below_iff : (a b : ℤ) → (ltb_ℤ a b ≡ false) ↔ (b ≤ℤ a)
not_below_iff a b = (λ h. ground arith, λ h. ground arith)

module _ (digest : Material → String) where
  pub record IsEntry (older : List RunEvent) (event : RunEvent) : Type 0 where
    pub id : event.event_id ≡ digest event.material
    pub schema : event.schema_version ≡ event_schema
    pub proper : IsProper event.draft
    pub linked : EndsCompaction event.draft → IsLinkedTo (map entry_of older) event.draft
    pub not_negative : pos 0 ≤ℤ event.monotonic_offset_ns
    pub numbered : event.sequence ≡ pos (length older)
    pub chained : event.previous_event_hash ≡ id_of (newest_of older)
    pub placed : IsPlaced older event

  check_line_iff :
      (older : List RunEvent) (event : RunEvent)
      → (check_line digest (newest_of older) (length older) event ≡ ok tt) ↔ (
          (event.event_id ≡ digest event.material)
          × ((event.schema_version ≡ event_schema)
              × ((check_draft (newest_of older) event.draft ≡ ok tt)
                  × ((pos 0 ≤ℤ event.monotonic_offset_ns)
                      × ((event.sequence ≡ pos (length older))
                          × (event.previous_event_hash ≡ id_of (newest_of older)))))))
  unfolding check_line
  check_line_iff older event =
      then_iff _ _ (unless_iff _ _ (eq_iff event.event_id (digest event.material))) (
        then_iff _ _ (unless_iff _ _ (eq_iff event.schema_version event_schema)) (
          then_iff _ _ (λ h. h, λ h. h)
            (then_iff _ _ (when_iff _ _ (not_below_iff event.monotonic_offset_ns (pos 0))) (
              then_iff _ _ (unless_iff _ _ (int_eq_iff event.sequence (length older))) (
                unless_iff _ _
                  (option_eq_iff event.previous_event_hash (id_of (newest_of older))))))))

  check_event_tests :
      (older : List RunEvent) (event : RunEvent)
      → (check_event digest older event ≡ ok tt) ↔ (
          (check_line digest (newest_of older) (length older) event ≡ ok tt)
          × (IsPlaced older event × (check_terminal event.draft ≡ ok tt)))
  unfolding check_event
  check_event_tests [] event =
      let tests =
        then_iff (check_line digest none 0 event) _ (λ h. h, λ h. h)
          (then_iff _ _
            (unless_both_iff _ _ _ (is_type_iff "run.started" event.draft)
              (option_eq_iff event.caused_by_event_id none))
            (then_iff _ _ (unless_iff _ _ (int_eq_iff event.monotonic_offset_ns 0))
              (λ h. h, λ h. h))) in
      (
        λ h. let (line, (first, (start, ends))) = tests.0 h in (line, ((first, start), ends)),
        λ asked. tests.1 (asked.0, (asked.1.0.0, (asked.1.0.1, asked.1.1))),
      )
  check_event_tests (newest ∷ older) event =
      let tests =
        then_iff (check_line digest (some newest) (length (newest ∷ older)) event) _
          (λ h. h, λ h. h)
          (then_iff _ _ (unless_iff _ _ (eq_iff event.run_id (oldest newest older).run_id)) (
            then_iff _ _
              (when_iff _ _ (not_below_iff event.monotonic_offset_ns newest.monotonic_offset_ns))
              (then_iff _ _
                (unless_iff _ _ (is_caused_iff (newest ∷ older) event.caused_by_event_id))
                (λ h. h, λ h. h)))) in
      (
        λ h.
            let (line, (run, (later, (caused, ends)))) = tests.0 h in
            (line, ((run, (later, caused)), ends)),
        λ asked.
            let (line, ((run, (later, caused)), ends)) = asked in
            tests.1 (line, (run, (later, (caused, ends)))),
      )

  pub check_event_iff :
      (older : List RunEvent) (event : RunEvent)
      → (check_event digest older event ≡ ok tt) ↔ IsEntry older event
  check_event_iff older event = (
    λ h.
        let (line, (placed, ends)) = (check_event_tests older event).0 h in
        let (id, (schema, (drafted, (not_negative, (numbered, chained))))) =
          (check_line_iff older event).0 line in
        let (proper, linked) = (IsProper-iff older event.draft).0 (drafted, ends) in
        record {
          id = id;
          schema = schema;
          proper = proper;
          linked = linked;
          not_negative = not_negative;
          numbered = numbered;
          chained = chained;
          placed = placed;
        },
    λ entry.
        let (drafted, ends) = (IsProper-iff older event.draft).1 (entry.proper, entry.linked) in
        (check_event_tests older event).1 (
          (check_line_iff older event).1 (
            entry.id,
            (entry.schema, (drafted, (entry.not_negative, (entry.numbered, entry.chained)))),
          ),
          (entry.placed, ends),
        ),
  )
