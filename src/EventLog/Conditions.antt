-- ===== src/EventLog/Conditions.antt =====
-- Lemmas on the conditions that `JsonlRunEventLog.append` and `load_run_event_log` test: each against
-- what the journal asks for.
use pan_agent.Base.{
  ◌≡◌, ◌≢◌, refl, sym, ◌∙◌, String, ◌↔◌, inl, inr, Bool, true, false, not, Option, none, some, List,
  [], ◌∷◌, map, any, str_eq, eq_iff, Bool-cases, or-eq-true,
}
use pan_agent.Base.Iff.{str_eq-false_iff, then_iff, unless_iff, or_iff, and_iff, >>-iff}
use pan_agent.Base.Result.{ok, raise_if-eq-ok, not-eq-false}
use pan_agent.Base.Json.{Json, str, equals_text}
use mathlib.Core.Path.{subst}
use pan_agent.EventLog.{newest_of, is_caused}
use pan_agent.EventLog.Drafts.{
  Draft, RunEvent, option_eq, is_type, is_one_of, has_text, check_compaction, is_compaction_end,
  is_linked, no_compaction_id, compaction_phase, check_status, statuses,
}
use pan_agent.EventLog.Chain.{option_eq_sound}
use pan_agent.EventLog.Made.{option_eq_refl}
use pan_agent.EventLog.Journal.{IsIn, entry_of, id_of_entry, EndsCompaction, IsLinkedTo}

pub option_eq_iff : (o p : Option String) → (option_eq o p ≡ true) ↔ (o ≡ p)
option_eq_iff o p = (λ h. option_eq_sound o p h, λ e. rw e (option_eq_refl p))

pub is_one_of_iff : (texts : List String) (s : String) → (is_one_of texts s ≡ true) ↔ IsIn s texts
unfolding is_one_of
is_one_of_iff [] s = (λ h. cc, λ h. absurd h)
is_one_of_iff (t ∷ texts) s = (
  λ h. elim (or-eq-true (str_eq s t) _ h) [
    | inl here ↦ inl ((eq_iff s t).0 here)
    | inr later ↦ inr ((is_one_of_iff texts s).0 later)
  ],
  λ found. elim found [
    | inl e ↦ rw ((eq_iff s t).1 e) refl
    | inr later ↦ elim (Bool-cases (str_eq s t)) [
      | inl here ↦ rw here refl
      | inr other ↦ rw (other, (is_one_of_iff texts s).1 later) refl
    ]
  ],
)

pub is_caused_iff :
    (events : List RunEvent) (cause : Option String)
    → (is_caused events cause ≡ true)
      ↔ ((id : String) × (cause ≡ some id) × IsIn id (map id_of_entry (map entry_of events)))
unfolding is_caused
is_caused_iff events none = (λ h. cc, λ found. cc)
is_caused_iff events (some id) = (
  λ h. (id, refl, (named_iff events).0 h),
  λ found.
      let (other, e, in_events) = found in
      let same : other ≡ id = cc in
      (named_iff events).1
        (subst (λ t. IsIn t (map id_of_entry (map entry_of events))) same in_events),
)
  where
    named_iff :
        (events : List RunEvent)
        → (any (λ (e : RunEvent). str_eq e.event_id id) events ≡ true)
          ↔ IsIn id (map id_of_entry (map entry_of events))
    named_iff [] = (λ h. cc, λ h. absurd h)
    named_iff (event ∷ events) =
        or_iff _ _
          (λ h. sym ((eq_iff event.event_id id).0 h), λ e. (eq_iff event.event_id id).1 (sym e))
          (named_iff events)

has_text_iff :
    (o : Option String) → (has_text o ≡ true) ↔ ((id : String) × (o ≡ some id) × (id ≢ ""))
has_text_iff none = (λ h. cc, λ found. cc)
has_text_iff (some id) = (
  λ h. (id, refl, (str_eq-false_iff id "").0 (unnot h)),
  λ found.
      let (other, e, full) = found in
      let same : other ≡ id = cc in
      rw ((str_eq-false_iff id "").1 (subst (λ t. t ≢ "") same full)) refl,
)
  where
    unnot : {b : Bool} → not b ≡ true → b ≡ false
    unnot {b} h = elim (Bool-cases b) [ inl e ↦ let h' = rw e at h in cc | inr e ↦ e ]

pub is_type_iff :
    (event_type : String) (draft : Draft)
    → (is_type event_type draft ≡ true) ↔ (draft.event_type ≡ event_type)
is_type_iff event_type draft = eq_iff draft.event_type event_type

pub check_compaction_iff :
    (draft : Draft) (found : Option String)
    → (check_compaction draft found ≡ ok tt) ↔ (
        (expected : String)
        → found ≡ some expected
        → (id : String) × (draft.compaction_id ≡ some id) × (id ≢ "") × (draft.phase ≡ expected))
unfolding check_compaction
check_compaction_iff draft none = (λ h expected e. cc, λ _. refl)
check_compaction_iff draft (some phase) =
    let tests =
      then_iff _ _ (unless_iff _ no_compaction_id (has_text_iff draft.compaction_id))
        (unless_iff _ compaction_phase (eq_iff draft.phase phase)) in
    (
      λ h expected e.
          let ((id, given, full), in_phase) = tests.0 h in
          let same : phase ≡ expected = cc in (id, given, full, in_phase ∙ same),
      λ proper.
          let (id, given, full, in_phase) = proper phase refl in
          tests.1 ((id, given, full), in_phase),
    )

pub is_linked_iff :
    (events : List RunEvent) (draft : Draft)
    → (is_linked (newest_of events) draft ≡ true) ↔ IsLinkedTo (map entry_of events) draft
unfolding is_linked
is_linked_iff [] draft = (λ h. cc, λ h. absurd h)
is_linked_iff (start ∷ older) draft =
    and_iff _ _ (is_type_iff "context.compaction_started" start.draft) (
      and_iff _ _ (option_eq_iff start.compaction_id draft.compaction_id)
        (option_eq_iff draft.caused_by_event_id (some start.event_id)))

pub is_compaction_end_iff :
    (draft : Draft) → (is_compaction_end draft ≡ true) ↔ EndsCompaction draft
unfolding is_compaction_end
is_compaction_end_iff draft =
    or_iff _ _ (is_type_iff "context.compaction_completed" draft)
      (is_type_iff "context.compaction_failed" draft)

pub status_iff :
    (found : Option Json)
    → (check_status found ≡ ok tt)
      ↔ ((status : String) × (found ≡ some (str status)) × IsIn status statuses)
unfolding check_status equals_text is_one_of
status_iff none = (λ h. cc, λ known. cc)
status_iff (some value) = (
  λ h.
      let (_, second) = (>>-iff _ _).0 h in
      known_text value (not-eq-false _ (raise_if-eq-ok _ _ second)),
  λ known.
      let (status, e, is_known) = known in
      let same : str status ≡ value = cc in
      subst (λ v. check_status (some v) ≡ ok tt) same (rw (text_known status is_known) refl),
)
  where
    known_text :
        (value : Json)
        → any (λ status. equals_text status value) statuses ≡ true
        → (status : String) × (some value ≡ some (str status)) × IsIn status statuses
    known_text (str status) h = (status, refl, (is_one_of_iff statuses status).0 (h))
    known_text _ h = cc

    text_known :
        (status : String)
        → IsIn status statuses
        → any (λ known. equals_text known (str status)) statuses ≡ true
    text_known status is_known = ((is_one_of_iff statuses status).1 is_known)
