-- ===== src/Evented/Answered.antt =====
-- Proofs on the runs of `AgentLoop.run` on an event log of their own.
use pan_agent.Base.{String, Option, some}
use pan_agent.Base.Result.{Result}
use pan_agent.EventLog.{EventLog}
use pan_agent.Evented.Machine.{Exit, value}
use pan_agent.Evented.{RunEnd, log_error, invalid_prompt}
use pan_agent.Evented.Serves.{Served, IsLive}

module _ {W : Type 0} (run_id : String) where
  -- The run has started.
  abbrev Started : Exit W String → Type 0
  Started (value id s) = IsLive run_id s
  Started _ = ⊥

  -- The run has ended by a result or a `KeyError`, if it has ended.
  abbrev IsServed : Option (RunEnd W) → Type 0
  IsServed (some (log_error e s)) = ⊥
  IsServed (some invalid_prompt) = ⊥
  IsServed _ = Unit
