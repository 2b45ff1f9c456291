-- ===== src/Evented/TameTests.antt =====
-- A run whose projector plans a compaction before each turn and whose tool reports an event.
use pan_agent.Base.{ℕ, String, some, List, [], ◌∷◌}
use pan_agent.Base.Json.{end}
use pan_agent.Evented.Types.{PlannedEvent, projected, Projected}
use pan_agent.Evented.Machine.{Agent}
use pan_agent.Evented.Examples.{agent, context}

abbrev planned : String → String → PlannedEvent
planned event_type phase = record {
  event_type = event_type;
  phase = phase;
  payload = end;
  compaction_id = some "compaction";
  visibility = "public";
}

abbrev plan : List PlannedEvent
plan =
    planned "context.compaction_started" "candidate"
    ∷ planned "context.compaction_completed" "accepted"
    ∷ []

abbrev compacting_agent : Agent ℕ
compacting_agent = record agent {
  project = λ request n. (Projected.returned (projected plan context), n);
}
