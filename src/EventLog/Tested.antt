-- ===== src/EventLog/Tested.antt =====
-- Lemmas on the tests of `JsonlRunEventLog.append`: each against what the journal asks for.
use pan_agent.Base.{
  ◌≡◌, refl, String, ◌↔◌, inl, inr, not, none, some, List, [], ◌∷◌, map, eq_iff, Bool-cases,
}
use pan_agent.Base.Iff.{
  str_eq-false_iff, then_iff, when_iff, unless_iff, unless_both_iff, implies_iff, >>-iff,
}
use pan_agent.Base.Result.{ok, raise_if, >>-eq-ok, raise_if-eq-ok}
use pan_agent.Base.Json.{str, get}
use pan_agent.EventLog.{newest_of, check_append, check_place}
use pan_agent.EventLog.Drafts.{
  Draft, RunEvent, is_type, is_one_of, compaction_phase_of, check_draft, check_terminal, statuses,
}
use pan_agent.EventLog.Journal.{
  IsIn, phases, visibilities, HasCompaction, entry_of, IsProper, EndsCompaction, IsLinkedTo,
  Follows, Fits,
}
use pan_agent.EventLog.Conditions.{
  option_eq_iff, is_one_of_iff, is_caused_iff, is_type_iff, check_compaction_iff, is_linked_iff,
  is_compaction_end_iff, status_iff,
}

pub check_terminal_iff :
    (draft : Draft)
    → (check_terminal draft ≡ ok tt) ↔ (
        ((draft.event_type ≡ "run.terminal") ↔ (draft.phase ≡ "terminal"))
        × (draft.event_type ≡ "run.terminal"
            → (status : String) × (get "status" draft.payload ≡ some (str status))
              × IsIn status statuses))
unfolding check_terminal
check_terminal_iff draft = elim (Bool-cases (is_type "run.terminal" draft)) [
  | inl ends ↦
      let is_end = (is_type_iff "run.terminal" draft).0 ends in
      rw ends (
        λ h.
            let (first, second) = (>>-iff _ _).0 h in
            let in_phase = (unless_iff _ _ (eq_iff draft.phase "terminal")).0 first in
            ((λ _. in_phase, λ _. is_end), λ _. (status_iff (get "status" draft.payload)).0 second),
        λ asked. (>>-iff _ _).1 (
          (unless_iff _ _ (eq_iff draft.phase "terminal")).1 (asked.0.0 is_end),
          (status_iff (get "status" draft.payload)).1 (asked.1 is_end),
        ),
      )
  | inr goes_on ↦
      let no_end = (str_eq-false_iff draft.event_type "run.terminal").0 goes_on in
      rw goes_on (
        λ h.
            let off = (str_eq-false_iff draft.phase "terminal").0 (raise_if-eq-ok _ _ h) in
            ((λ e. absurd (no_end e), λ e. absurd (off e)), λ e. absurd (no_end e)),
        λ asked. rw ((str_eq-false_iff draft.phase "terminal").1 (λ e. no_end (asked.0.1 e))) refl,
      )
]

is_one_of_test :
    {E : Type 0} (texts : List String) (s : String) (e : E)
    → (raise_if (not (is_one_of texts s)) e ≡ ok tt) ↔ IsIn s texts
is_one_of_test texts s e = unless_iff _ e (is_one_of_iff texts s)

check_draft_iff :
    (events : List RunEvent) (draft : Draft)
    → (check_draft (newest_of events) draft ≡ ok tt) ↔ (
        IsIn draft.phase phases
        × (IsIn draft.visibility visibilities
            × (HasCompaction draft
                × (EndsCompaction draft → IsLinkedTo (map entry_of events) draft))))
unfolding check_draft
check_draft_iff events draft = then_iff _ _ (is_one_of_test _ draft.phase _) (
    then_iff _ _ (is_one_of_test _ draft.visibility _) (
      then_iff _ _ (check_compaction_iff draft (compaction_phase_of draft.event_type))
        (implies_iff _ _ _ (is_compaction_end_iff draft) (is_linked_iff events draft))))

-- The tests that `append` and the loader share
pub IsProper-iff :
    (events : List RunEvent) (draft : Draft)
    → ((check_draft (newest_of events) draft ≡ ok tt) × (check_terminal draft ≡ ok tt))
      ↔ (IsProper draft × (EndsCompaction draft → IsLinkedTo (map entry_of events) draft))
IsProper-iff events draft = (
  λ h.
      let (phase, (visibility, (compaction, linked))) = (check_draft_iff events draft).0 h.0 in
      let (terminal, status) = (check_terminal_iff draft).0 h.1 in
      (
        record {
          phase = phase;
          visibility = visibility;
          compaction = compaction;
          terminal = terminal;
          status = status;
        },
        linked,
      ),
  λ asked.
      let (proper, linked) = asked in
      (
        (check_draft_iff events draft).1
            (proper.phase, (proper.visibility, (proper.compaction, linked))),
        (check_terminal_iff draft).1 (proper.terminal, proper.status),
      ),
)

-- The tests of `append` that change nothing
pub check_append_iff :
    (events : List RunEvent) (draft : Draft)
    → (check_append events draft ≡ ok tt) ↔ Fits (map entry_of events) draft
unfolding check_append
check_append_iff [] draft = (
  λ h.
      let (proper, linked) = (IsProper-iff [] draft).0 (>>-eq-ok _ _ h) in
      record { is_open = tt; proper = proper; linked = linked },
  λ fits.
      let (drafted, ended) = (IsProper-iff [] draft).1 (fits.proper, fits.linked) in
      rw drafted ended,
)
check_append_iff (newest ∷ older) draft =
    let is_open_iff = str_eq-false_iff newest.event_type "run.terminal" in
    (
      λ h.
          let (opened, rest) = >>-eq-ok _ _ h in
          let (proper, linked) = (IsProper-iff (newest ∷ older) draft).0 (>>-eq-ok _ _ rest) in
          record {
            is_open = is_open_iff.0 (raise_if-eq-ok _ _ opened);
            proper = proper;
            linked = linked;
          },
      λ fits.
          let (drafted, ended) =
            (IsProper-iff (newest ∷ older) draft).1 (fits.proper, fits.linked) in
          rw (is_open_iff.1 fits.is_open, drafted) ended,
    )

pub check_place_iff :
    (events : List RunEvent) (draft : Draft)
    → (check_place events draft ≡ ok tt) ↔ Follows (map entry_of events) draft
unfolding check_place
check_place_iff [] draft =
    unless_both_iff _ _ _ (is_type_iff "run.started" draft)
      (option_eq_iff draft.caused_by_event_id none)
check_place_iff (newest ∷ older) draft =
    then_iff _ _ (unless_iff _ _ (is_caused_iff (newest ∷ older) draft.caused_by_event_id))
      (when_iff _ _ (str_eq-false_iff draft.event_type "run.started"))
