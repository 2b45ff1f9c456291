-- ===== src/Evented/Tame.antt =====
-- What `AgentLoop.run` relies on in what it is given: the events that a projector plans and the
-- events that a tool reports.
use pan_agent.Base.{◌≡◌, ◌≢◌, String, Bool, Option, none, some, List, [], ◌∷◌}
use pan_agent.Base.Json.{Fields}
use pan_agent.EventLog.Drafts.{Draft}
use pan_agent.EventLog.Journal.{IsProper, EndsCompaction}
use pan_agent.Evented.Types.{
  PlannedEvent, projected, refused, Projected, ProjectionRequest, Activity, ended, observes,
  EventTool,
}
use pan_agent.Evented.Machine.{Agent, plain}
use pan_agent.Evented.Admission.{find_tool}

-- The event of a planned event, in a turn and with its cause
abbrev pub planned_draft : String → String → PlannedEvent → Draft
planned_draft turn_id cause planned =
    record (plain planned.event_type planned.phase (some cause) planned.payload) {
      turn_id = some turn_id;
      compaction_id = planned.compaction_id;
      visibility = planned.visibility;
    }

-- The planned event just before is the start of the same compaction.
abbrev pub StartsIt : Option PlannedEvent → PlannedEvent → Type 0
StartsIt none planned = ⊥
StartsIt (some start) planned =
    (start.event_type ≡ "context.compaction_started")
    × (start.compaction_id ≡ planned.compaction_id)

pub record IsPlanned (before : Option PlannedEvent) (planned : PlannedEvent) : Type 0 where
  pub proper : (turn_id cause : String) → IsProper (planned_draft turn_id cause planned)
  pub no_start : planned.event_type ≢ "run.started"
  pub no_end : planned.event_type ≢ "run.terminal"
  pub linked :
      (turn_id cause : String)
      → EndsCompaction (planned_draft turn_id cause planned)
      → StartsIt before planned

-- Proper events, in which the end of a compaction directly follows its start
abbrev pub ArePlanned : Option PlannedEvent → List PlannedEvent → Type 0
ArePlanned before [] = Unit
ArePlanned before (planned ∷ events) = IsPlanned before planned × ArePlanned (some planned) events

abbrev pub IsPlan : Projected → Type 0
IsPlan (Projected.returned (projected events context)) = ArePlanned none events
IsPlan (Projected.returned (refused events message)) = ArePlanned none events
IsPlan _ = Unit

-- A tool never reports the end of the run: the constructor of `ToolLifecycleEvent` refuses an event
-- type that does not start with "tool.".
abbrev pub IsQuiet : {W : Type 0} → Activity W → Type 0
IsQuiet (ended tool_end world) = Unit
IsQuiet {W = W} (observes event world resume) =
    (event.event_type ≢ "run.terminal")
    × ((raises : Bool) (world' : W) → IsQuiet (resume raises world'))

-- What holds of the projector, the tools and `_sha256_json`
pub record IsTame {W : Type 0} (agent : Agent W) : Type 0 where
  pub plans : (request : ProjectionRequest) (world : W) → IsPlan (agent.project request world).0
  pub quiet :
      (name : String) (tool : EventTool W)
      → find_tool agent agent.tools name ≡ some tool
      → (arguments : Fields) (world : W) → IsQuiet (tool.execute arguments world)
  pub names : (material : Fields) → agent.sha256_json material ≢ ""
