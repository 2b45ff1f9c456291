-- ===== src/Evented/Recorded.antt =====
-- Proofs on the event log that `AgentLoop.run` leaves, and on the result in it.
use mathlib.Core.List.{reverse}
use pan_agent.Base.{◌≡◌, String, Option, none, some}
use pan_agent.Base.Result.{ok}
use pan_agent.Loop.{Task}
use pan_agent.EventLog.{load_run_event_log}
use pan_agent.EventLog.Sound.{IsSound}
use pan_agent.Evented.Machine.{Agent}
use pan_agent.Evented.{RunEnd, result, log_error, missing_tool, invalid_prompt}
use pan_agent.Evented.Keeps.{IsFiled}

module _ {W : Type 0} (agent : Agent W) (run_id : String) (task : Task) where
  -- What is known of the log when the run has ended.
  abbrev pub IsRecorded : RunEnd W → Type 0
  IsRecorded (result r s) =
      IsFiled agent run_id task.task_id r s
      × (load_run_event_log agent.digest (reverse s.event_log.events) ≡ ok s.event_log.events)
  IsRecorded (log_error e s) = IsSound agent.digest s.event_log
  IsRecorded (missing_tool s) = ⊥
  IsRecorded invalid_prompt = Unit

  -- The end of a run, if it has one, is recorded.
  abbrev AllRecorded : Option (RunEnd W) → Type 0
  AllRecorded none = Unit
  AllRecorded (some run_end) = IsRecorded run_end
