-- ===== src/EventLog/Sound.antt =====
-- Proofs on the state of the log over calls of `JsonlRunEventLog.append`: the tests of the loader,
-- the run id and the place of a terminal event.
use pan_agent.Base.{
  some-injective, ◌≡◌, refl, sym, ◌∙◌, ap, String, Bool, false, Option, none, some, List, [], ◌∷◌,
  any, str_eq, eq_iff, inl, inr, Bool-cases,
}
use pan_agent.Base.Int.{ℤ}
use pan_agent.Base.Result.{Result, ok, err, raise_if, >>-eq-ok, raise_if-eq-ok}
use pan_agent.EventLog.{
  EventLog, empty, check_append, check_place, add_event, place_event, append_checked, append_after,
  append, oldest, check_event,
}
use pan_agent.EventLog.Drafts.{Draft, Material, RunEvent, LogError, is_type, after_terminal}
use pan_agent.EventLog.Made.{check_event-made_first, check_event-made_next}

abbrev pub is_terminal : RunEvent → Bool
is_terminal event = is_type "run.terminal" event.draft

-- Only the newest event may be a terminal one.
abbrev pub OlderOpen : List RunEvent → Type 0
OlderOpen [] = Unit
OlderOpen (newest ∷ older) = any is_terminal older ≡ false

-- The stored run id is that of the first event.
abbrev pub RunKnown : List RunEvent → Option String → Type 0
RunKnown [] known = Unit
RunKnown (newest ∷ older) known = known ≡ some (oldest newest older).run_id

-- The clock is started by the first event.
abbrev pub ClockFits : List RunEvent → Option ℤ → Type 0
ClockFits [] started = started ≡ none
ClockFits (newest ∷ older) started = Unit

module _ (digest : Material → String) where
  -- Every event passes the loader's tests after the events before it.
  abbrev pub AllChecked : List RunEvent → Type 0
  AllChecked [] = Unit
  AllChecked (event ∷ older) = (check_event digest older event ≡ ok tt) × AllChecked older

  pub record IsSound (log : EventLog) : Type 0 where
    pub checked : AllChecked log.events
    pub older_open : OlderOpen log.events
    pub run_known : RunKnown log.events log.run_id
    pub clock_fits : ClockFits log.events log.started_ns

  pub empty-IsSound : IsSound empty
  empty-IsSound = record { checked = tt; older_open = tt; run_known = tt; clock_fits = refl }

  check_append-open :
      (newest : RunEvent) (older : List RunEvent) (draft : Draft)
      → check_append (newest ∷ older) draft ≡ ok tt
      → is_terminal newest ≡ false
  unfolding check_append
  check_append-open newest older draft fits =
      raise_if-eq-ok (is_terminal newest) after_terminal
        (>>-eq-ok (raise_if (is_terminal newest) _) _ fits).0

  none-absurd {ℓ} : {s : String} {A : Type ℓ} → none ≡ some s → A
  none-absurd h = cc

  -- A sound log whose next event passes the tests, and has the stored run id, stays sound.
  add_event-IsSound :
      (events : List RunEvent) (known : Option String) (started : Option ℤ) (run_id : String)
      (draft : Draft) (now : ℤ)
      → known ≡ some run_id
      → IsSound (record { events = events; run_id = known; started_ns = started })
      → check_append events draft ≡ ok tt
      → check_place events draft ≡ ok tt
      → IsSound
          (add_event digest
            (record { events = events; run_id = known; started_ns = started })
            run_id
            draft
            now).1
  unfolding add_event
  add_event-IsSound [] known started run_id draft now runs sound fits placed = record {
    checked =
        rw sound.clock_fits (check_event-made_first digest known run_id draft now fits placed, tt);
    older_open = refl;
    run_known = runs;
    clock_fits = tt;
  }
  add_event-IsSound (newest ∷ older) known started run_id draft now runs sound fits placed =
      record {
        checked = (
          check_event-made_next digest newest older known started run_id draft now
              (some-injective _ _ (sym runs ∙ sound.run_known)) fits placed,
          sound.checked,
        );
        older_open = rw (check_append-open newest older draft fits, sound.older_open) refl;
        run_known = sound.run_known;
        clock_fits = tt;
      }

  place_event-IsSound :
      (log : EventLog) (run_id : String) (draft : Draft) (now : ℤ)
      (placed : Result LogError (Unit {0}))
      → log.run_id ≡ some run_id
      → check_place log.events draft ≡ placed
      → IsSound log
      → check_append log.events draft ≡ ok tt
      → IsSound (place_event digest log run_id draft now placed).1
  unfolding place_event
  place_event-IsSound log run_id draft now (err e) known placed sound fits = sound
  place_event-IsSound log run_id draft now (ok u) known placed sound fits =
      add_event-IsSound log.events log.run_id log.started_ns run_id draft now known sound fits
        placed

  -- The first run id is stored before any event is.
  pinned-IsSound :
      (events : List RunEvent) (known : Option String) (started : Option ℤ) (run_id : String)
      → known ≡ none
      → IsSound (record { events = events; run_id = known; started_ns = started })
      → IsSound (record { events = events; run_id = some run_id; started_ns = started })
  pinned-IsSound [] known started run_id unknown sound = record {
    checked = tt;
    older_open = tt;
    run_known = tt;
    clock_fits = sound.clock_fits;
  }
  pinned-IsSound (newest ∷ older) known started run_id unknown sound =
      none-absurd (sym unknown ∙ sound.run_known)

  append_checked-IsSound :
      (log : EventLog) (known : Option String) (run_id : String) (draft : Draft) (now : ℤ)
      → log.run_id ≡ known
      → IsSound log
      → check_append log.events draft ≡ ok tt
      → IsSound (append_checked digest log known run_id draft now).1
  unfolding append_checked
  append_checked-IsSound log none run_id draft now is_known sound fits =
      place_event-IsSound (record log { run_id = some run_id }) run_id draft now
        (check_place log.events draft) refl refl
        (pinned-IsSound log.events log.run_id log.started_ns run_id is_known sound) fits
  append_checked-IsSound log (some known) run_id draft now is_known sound fits =
      elim (Bool-cases (str_eq known run_id)) [
        | inl same ↦ rw same (
            place_event-IsSound log run_id draft now (check_place log.events draft)
              (is_known ∙ ap some ((eq_iff known run_id).0 same)) refl sound fits)
        | inr other ↦ rw other sound
      ]

  append_after-IsSound :
      (log : EventLog) (run_id : String) (draft : Draft) (now : ℤ)
      (tested : Result LogError (Unit {0}))
      → check_append log.events draft ≡ tested
      → IsSound log
      → IsSound (append_after digest log run_id draft now tested).1
  unfolding append_after
  append_after-IsSound log run_id draft now (err e) fits sound = sound
  append_after-IsSound log run_id draft now (ok u) fits sound =
      append_checked-IsSound log log.run_id run_id draft now refl sound fits

  -- Whatever is appended to a sound log, whether it is accepted or refused, the log stays sound.
  pub append-IsSound :
      (log : EventLog) (run_id : String) (draft : Draft) (now : ℤ)
      → IsSound log
      → IsSound (append digest log run_id draft now).1
  unfolding append
  append-IsSound log run_id draft now sound =
      append_after-IsSound log run_id draft now (check_append log.events draft) refl sound
