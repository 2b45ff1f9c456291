-- ===== src/EventLog/Made.antt =====
-- Lemmas on an event that `JsonlRunEventLog.append` makes, against the tests of the loader.
use text.Mathlib.TextPositions.{eq_refl}
use pan_agent.Base.{
  ℕ, ◌≡◌, refl, String, true, false, not, Option, none, some, List, [], ◌∷◌, length, str_eq, arith,
}
use pan_agent.Base.Int.{
  ℤ, pos, negsuc, ltb_ℤ, int_eq, ◌-ℤ◌, ◌≤ℤ◌, max_ℤ, max_ℤ-le_left, max_ℤ-le_right,
}
use pan_agent.Base.Result.{ok, raise_if, >>-eq-ok}
use pan_agent.EventLog.{
  is_caused, id_of, EventLog, check_append, check_place, next_offset, started_or, make_event,
  next_material, check_line, oldest, check_event,
}
use pan_agent.EventLog.Drafts.{
  Draft, Material, RunEvent, event_schema, option_eq, is_type, check_draft, check_terminal,
}

pub option_eq_refl : (o : Option String) → option_eq o o ≡ true
unfolding option_eq
option_eq_refl none = refl
option_eq_refl (some s) = eq_refl s

int_eq_refl : (i : ℤ) → int_eq i i ≡ true
int_eq_refl (pos n) = ground arith
int_eq_refl (negsuc n) = ground arith

not_below : (a b : ℤ) → b ≤ℤ a → ltb_ℤ a b ≡ false
not_below a b h = ground arith

≤ℤ-trans : (a b c : ℤ) → a ≤ℤ b → b ≤ℤ c → a ≤ℤ c
≤ℤ-trans a b c h k = omega arith

sub_self : (now : ℤ) → now -ℤ now ≡ pos 0
sub_self (pos n) = ground arith
sub_self (negsuc n) = ground arith

offset-start : (now : ℤ) → max_ℤ (pos 0) (now -ℤ now) ≡ pos 0
unfolding max_ℤ
offset-start now = rw (sub_self now)

module _ (digest : Material → String) where
  check_line-made :
      (newest : Option RunEvent) (count : ℕ) (m : Material)
      → m.schema_version ≡ event_schema
      → check_draft newest m.draft ≡ ok tt
      → pos 0 ≤ℤ m.monotonic_offset_ns
      → m.sequence ≡ pos count
      → m.previous_event_hash ≡ id_of newest
      → check_line digest newest count (make_event digest m) ≡ ok tt
  unfolding check_line
  check_line-made newest count m schema fits later place chained =
      rw
        (
          eq_refl (digest m),
          schema,
          fits,
          not_below m.monotonic_offset_ns (pos 0) later,
          place,
          int_eq_refl (pos count),
          chained,
          option_eq_refl (id_of newest),
        )
        refl

  next_offset-Later :
      (events : List RunEvent) (started now : ℤ) → pos 0 ≤ℤ next_offset events started now
  unfolding next_offset
  next_offset-Later [] started now = max_ℤ-le_left (pos 0) (now -ℤ started)
  next_offset-Later (newest ∷ older) started now =
      ≤ℤ-trans (pos 0) (max_ℤ (pos 0) (now -ℤ started)) _ (max_ℤ-le_left (pos 0) (now -ℤ started))
        (max_ℤ-le_left (max_ℤ (pos 0) (now -ℤ started)) newest.monotonic_offset_ns)

  next_offset-not_decreasing :
      (newest : RunEvent) (older : List RunEvent) (started now : ℤ)
      → newest.monotonic_offset_ns ≤ℤ next_offset (newest ∷ older) started now
  unfolding next_offset
  next_offset-not_decreasing newest older started now =
      max_ℤ-le_right (max_ℤ (pos 0) (now -ℤ started)) newest.monotonic_offset_ns

  pub check_event-made_first :
      (known : Option String) (run_id : String) (draft : Draft) (now : ℤ)
      → check_append [] draft ≡ ok tt
      → check_place [] draft ≡ ok tt
      → check_event digest [] (
          make_event digest (
            next_material digest
              (record { events = []; run_id = known; started_ns = none })
              run_id
              draft
              now))
        ≡ ok tt
  unfolding check_event check_append check_place next_offset
  check_event-made_first known run_id draft now fits first =
      let (fits, ends) = >>-eq-ok (check_draft none draft) (check_terminal draft) fits in
      let log : EventLog = record { events = []; run_id = known; started_ns = none } in
      let made = next_material digest log run_id draft now in
      let start = offset-start now in
      rw
        (
          check_line-made none 0 made refl fits (next_offset-Later [] now now) refl refl,
          first,
          start,
          ends,
        )
        refl

  pub check_event-made_next :
      (newest : RunEvent) (older : List RunEvent) (known : Option String) (started : Option ℤ)
      (run_id : String) (draft : Draft) (now : ℤ)
      → run_id ≡ (oldest newest older).run_id
      → check_append (newest ∷ older) draft ≡ ok tt
      → check_place (newest ∷ older) draft ≡ ok tt
      → check_event digest (newest ∷ older) (
          make_event digest (
            next_material digest
              (record { events = newest ∷ older; run_id = known; started_ns = started })
              run_id
              draft
              now))
        ≡ ok tt
  unfolding check_event check_append check_place
  check_event-made_next newest older known started run_id draft now runs fits placed =
      let log : EventLog = record {
        events = newest ∷ older;
        run_id = known;
        started_ns = started;
      } in
      let (_, fits) = >>-eq-ok (raise_if (is_type "run.terminal" newest.draft) _) _ fits in
      let (fits, ends) = >>-eq-ok (check_draft (some newest) draft) (check_terminal draft) fits in
      let (caused, _) =
        >>-eq-ok (raise_if (not (is_caused (newest ∷ older) draft.caused_by_event_id)) _) _
          placed in
      let same_run : str_eq run_id (oldest newest older).run_id ≡ true = rw runs (eq_refl _) in
      let later =
        not_below (next_offset (newest ∷ older) (started_or started now) now)
          newest.monotonic_offset_ns
          (next_offset-not_decreasing newest older (started_or started now) now) in
      rw
        (
          check_line-made (some newest) (length (newest ∷ older))
              (next_material digest log run_id draft now) refl fits
              (next_offset-Later (newest ∷ older) (started_or started now) now) refl refl,
          same_run,
          later,
          caused,
          ends,
        )
        refl
