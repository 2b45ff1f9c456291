-- ===== src/EventLog/Replay.antt =====
-- Proofs on the lines that `JsonlRunEventLog.append` has written, as `load_run_event_log` reads
-- them.
use mathlib.Core.List.{reverse, reverse-cons}
use mathlib.Core.Path.{subst}
use pan_agent.Base.{◌≡◌, refl, sym, ◌∙◌, ap, String, true, List, [], ◌∷◌, ◌++◌}
use pan_agent.Base.Int.{ℤ}
use pan_agent.Base.Result.{ok, ◌>>=◌, ◌>>◌, >>=-assoc}
use pan_agent.EventLog.{EventLog, append, check_event, load_events, check_end, load_run_event_log}
use pan_agent.EventLog.Drafts.{Draft, Material, RunEvent}
use pan_agent.EventLog.Sound.{is_terminal, AllChecked, OlderOpen, IsSound}

-- One call of `append`: its arguments and the clock reading that it takes.
pub record Call : Type 0 where
  pub run_id : String
  pub draft : Draft
  pub now : ℤ

module _ (digest : Material → String) where
  -- The log after the calls, accepted or refused.
  abbrev pub append_all : EventLog → List Call → EventLog
  append_all log [] = log
  append_all log (call ∷ calls) =
      append_all (append digest log call.run_id call.draft call.now).1 calls

  load_events-append :
      (lines events more : List RunEvent)
      → load_events digest events (lines ++ more)
        ≡ (load_events digest events lines >>= λ read. load_events digest read more)
  unfolding load_events
  load_events-append [] events more = refl
  load_events-append (line ∷ lines) events more =
      ap (λ rest. check_event digest events line >> rest)
        (load_events-append lines (line ∷ events) more)
      ∙ sym (>>=-assoc (check_event digest events line) _ _)

  pub load_events-reverse :
      (events : List RunEvent)
      → AllChecked digest events
      → load_events digest [] (reverse events) ≡ ok events
  load_events-reverse [] checked = unfold load_events in refl
  load_events-reverse (event ∷ older) checked =
      rw
        (
          reverse-cons event older,
          load_events-append (reverse older) [] (event ∷ []),
          load_events-reverse older checked.1,
        )
        (unfold load_events in rw checked.0 refl)

  -- The lines of a sound log that ends in a terminal event are read back.
  pub load_run_event_log-IsSound :
      (log : EventLog) (newest : RunEvent) (older : List RunEvent)
      → IsSound digest log
      → log.events ≡ newest ∷ older
      → is_terminal newest ≡ true
      → load_run_event_log digest (reverse log.events) ≡ ok (newest ∷ older)
  unfolding load_run_event_log check_end
  load_run_event_log-IsSound log newest older sound written ends =
      let checked : AllChecked digest (newest ∷ older) =
        subst (AllChecked digest) written sound.checked in
      let open_before : OlderOpen (newest ∷ older) = subst OlderOpen written sound.older_open in
      rw (written, load_events-reverse (newest ∷ older) checked, ends, open_before) refl
