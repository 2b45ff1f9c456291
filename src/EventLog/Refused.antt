-- ===== src/EventLog/Refused.antt =====
-- What a call of `append` changes when it is accepted and when it is refused.
use pan_agent.Base.{
  ◌≡◌, refl, String, true, Option, none, some, List, [], ◌∷◌, str_eq, Bool-cases, inl, inr,
}
use pan_agent.Base.Int.{ℤ}
use pan_agent.Base.Result.{Result, ok, err}
use pan_agent.EventLog.{
  EventLog, add_event, check_append, check_place, place_event, append_checked, append_after, append,
}
use pan_agent.EventLog.Drafts.{Draft, Material, RunEvent, LogError, after_terminal}
use pan_agent.EventLog.Sound.{is_terminal}
use pan_agent.EventLog.Replay.{Call, append_all}

-- An accepted call adds an event of its run with its draft as the newest; a refused one adds none
-- and starts no clock.
abbrev pub Adds : String → Draft → EventLog → Result LogError RunEvent × EventLog → Type 0
Adds run_id draft log (ok event, log') =
    (log'.events ≡ event ∷ log.events) × (event.run_id ≡ run_id) × (event.draft ≡ draft)
Adds run_id draft log (err e, log') =
    (log'.events ≡ log.events) × (log'.started_ns ≡ log.started_ns)

module _ (digest : Material → String) where
  place_event-Adds :
      (log : EventLog) (run_id : String) (draft : Draft) (now : ℤ)
      (placed : Result LogError (Unit {0}))
      → Adds run_id draft log (place_event digest log run_id draft now placed)
  unfolding place_event add_event
  place_event-Adds log run_id draft now (err e) = (refl, refl)
  place_event-Adds log run_id draft now (ok u) = (refl, refl, refl)

  append_checked-Adds :
      (log : EventLog) (known : Option String) (run_id : String) (draft : Draft) (now : ℤ)
      → Adds run_id draft log (append_checked digest log known run_id draft now)
  unfolding append_checked
  append_checked-Adds log none run_id draft now =
      place_event-Adds (record log { run_id = some run_id }) run_id draft now
        (check_place log.events draft)
  append_checked-Adds log (some known) run_id draft now = elim (Bool-cases (str_eq known run_id)) [
    | inl same ↦ rw same (place_event-Adds log run_id draft now (check_place log.events draft))
    | inr other ↦ rw other (refl, refl)
  ]

  append_after-Adds :
      (log : EventLog) (run_id : String) (draft : Draft) (now : ℤ)
      (tested : Result LogError (Unit {0}))
      → Adds run_id draft log (append_after digest log run_id draft now tested)
  unfolding append_after
  append_after-Adds log run_id draft now (err e) = (refl, refl)
  append_after-Adds log run_id draft now (ok u) =
      append_checked-Adds log log.run_id run_id draft now

  -- An accepted call of `append` adds the event that it returns, which has the run id and the draft
  -- of the call, in front of the events of the log. A refused one leaves the events and the clock
  -- as they are.
  pub append-Adds :
      (log : EventLog) (run_id : String) (draft : Draft) (now : ℤ)
      → Adds run_id draft log (append digest log run_id draft now)
  unfolding append
  append-Adds log run_id draft now =
      append_after-Adds log run_id draft now (check_append log.events draft)

  append-closed :
      (log : EventLog) (newest : RunEvent) (older : List RunEvent) (run_id : String) (draft : Draft)
      (now : ℤ)
      → log.events ≡ newest ∷ older
      → is_terminal newest ≡ true
      → append digest log run_id draft now ≡ (err after_terminal, log)
  unfolding append check_append append_after
  append-closed log newest older run_id draft now written ends = rw (written, ends) refl

  -- Once the newest event is a terminal one, no calls of `append` change the log.
  pub append_all-closed :
      (calls : List Call) (log : EventLog) (newest : RunEvent) (older : List RunEvent)
      → log.events ≡ newest ∷ older
      → is_terminal newest ≡ true
      → append_all digest log calls ≡ log
  append_all-closed [] log newest older written ends = refl
  append_all-closed (call ∷ calls) log newest older written ends =
      rw (append-closed log newest older call.run_id call.draft call.now written ends)
        (append_all-closed calls log newest older written ends)
