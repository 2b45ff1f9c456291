-- ===== src/EventLog/Refined.antt =====
-- Proofs on `JsonlRunEventLog.append` against the journal that the log stands for.
use pan_agent.Base.{
  some-injective, ◌≡◌, refl, sym, ◌∙◌, ap, String, ◌⊎◌, inl, inr, Option, none, some, ◌∷◌, map,
  str_eq, eq_iff, Bool-cases,
}
use pan_agent.Base.Int.{ℤ}
use pan_agent.Base.Iff.{str_eq-false_iff}
use pan_agent.Base.Result.{Result, ok, err}
use pan_agent.EventLog.{
  EventLog, append, append_after, append_checked, place_event, add_event, check_append, check_place,
}
use pan_agent.EventLog.Drafts.{Draft, Material, RunEvent, LogError, many_run_ids}
use pan_agent.EventLog.Journal.{Journal, entry_of, journal_of, Admits, Fits}
use pan_agent.EventLog.Tested.{check_append_iff, check_place_iff}

-- How a journal answers to a call: it takes what it admits, under the id of the event, and nothing
-- else. A call that it does not take may still tell it what its run is.
pub data Answers (journal : Journal) (run_id : String) (draft : Draft)
    : Result LogError RunEvent → Journal → Type 0 where
  accepts :
      (event : RunEvent) (run : Option String)
      → Admits journal run_id draft
      → event.draft ≡ draft
      → run ≡ some run_id
      → Answers journal run_id draft
          (ok event)
          (record { run = run; entries = (event.event_id, draft) ∷ journal.entries })
  refuses :
      (reason : LogError) (run : Option String)
      → (Admits journal run_id draft → ⊥)
      → (run ≡ journal.run) ⊎ ((journal.run ≡ none) × (run ≡ some run_id))
      → Answers journal run_id draft (err reason) (record journal { run = run })

module _ (digest : Material → String) (run_id : String) (draft : Draft) (now : ℤ) where
  -- The last tests, once the run id is stored; `known` is what was stored before.
  place_event-Answers :
      (log : EventLog) (known : Option String) (placed : Result LogError (Unit {0}))
      → Fits (map entry_of log.events) draft
      → log.run_id ≡ some run_id
      → (known ≡ none) ⊎ (known ≡ some run_id)
      → check_place log.events draft ≡ placed
      → let (result, after) = place_event digest log run_id draft now placed in
        Answers
          (record { run = known; entries = map entry_of log.events })
          run_id
          draft
          result
          (journal_of after)
  unfolding place_event add_event
  place_event-Answers log known (ok u) fits stored before e =
      accepts _ log.run_id
        (record {
          fits = fits;
          same_run = before;
          follows = (check_place_iff log.events draft).0 e;
        })
        refl stored
  place_event-Answers log known (err reason) fits stored before e =
      refuses reason log.run_id
        (λ admitted.
          let passed = (check_place_iff log.events draft).1 admitted.follows in
          let clash : err reason ≡ ok (tt {0}) = sym e ∙ passed in cc)
        (elim before [ inl unknown ↦ inr (unknown, stored) | inr same ↦ inl (stored ∙ sym same) ])

  append_checked-Answers :
      (log : EventLog) (known : Option String)
      → Fits (map entry_of log.events) draft
      → let (result, after) =
          append_checked digest (record log { run_id = known }) known run_id draft now in
        Answers
          (record { run = known; entries = map entry_of log.events })
          run_id
          draft
          result
          (journal_of after)
  unfolding append_checked
  append_checked-Answers log none fits =
      place_event-Answers (record log { run_id = some run_id }) none (check_place log.events draft)
        fits refl (inl refl) refl
  append_checked-Answers log (some known) fits = elim (Bool-cases (str_eq known run_id)) [
    | inl same ↦
        let e : some known ≡ some run_id = ap some ((eq_iff known run_id).0 same) in
        rw same (
          place_event-Answers (record log { run_id = some known }) (some known)
            (check_place log.events draft) fits e (inr e) refl)
    | inr differ ↦
        let other = (str_eq-false_iff known run_id).0 differ in
        rw differ (
          refuses many_run_ids (some known)
            (λ admitted. elim (admitted.same_run) [
              | inl unknown ↦ cc
              | inr same ↦ other (some-injective _ _ same)
            ])
            (inl refl))
  ]

  append_after-Answers :
      (log : EventLog) (tested : Result LogError (Unit {0}))
      → check_append log.events draft ≡ tested
      → let (result, after) = append_after digest log run_id draft now tested in
        Answers (journal_of log) run_id draft result (journal_of after)
  unfolding append_after
  append_after-Answers log (ok u) e =
      append_checked-Answers log log.run_id ((check_append_iff log.events draft).0 e)
  append_after-Answers log (err reason) e =
      refuses reason log.run_id
        (λ admitted.
          let passed = (check_append_iff log.events draft).1 admitted.fits in
          let clash : err reason ≡ ok (tt {0}) = sym e ∙ passed in cc)
        (inl refl)

  -- Every call of `append` answers as the journal of the log does: it accepts the draft exactly when
  -- the journal admits it, and then the journal has it as its newest entry, under the id of the
  -- event that is returned. A refused call leaves the entries as they are, and at most stores the
  -- run id of the call where none was known.
  pub append-Answers :
      (log : EventLog)
      → let (result, after) = append digest log run_id draft now in
        Answers (journal_of log) run_id draft result (journal_of after)
  unfolding append
  append-Answers log = append_after-Answers log (check_append log.events draft) refl
