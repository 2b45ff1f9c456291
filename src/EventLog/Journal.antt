-- ===== src/EventLog/Journal.antt =====
-- What `RunEventLog` of workspace_agent_harness/evented.py promises of the events of one run, with no
-- hashes, numbers and clocks: a journal of drafts under their ids, newest first, and when it
-- admits one more.
use pan_agent.Base.{String, ◌≡◌, ◌≢◌, ◌⊎◌, ◌↔◌, Option, none, some, List, [], ◌∷◌, map}
use pan_agent.Base.Json.{str, get}
use pan_agent.EventLog.{EventLog}
use pan_agent.EventLog.Drafts.{Draft, RunEvent, compaction_phase_of, statuses}

abbrev pub IsIn : String → List String → Type 0
IsIn text [] = ⊥
IsIn text (first ∷ texts) = (text ≡ first) ⊎ IsIn text texts

abbrev pub Entries : Type 0
Entries = List (String × Draft)

pub record Journal : Type 0 where
  pub run : Option String
  pub entries : Entries

abbrev pub entry_of : RunEvent → String × Draft
entry_of event = (event.event_id, event.draft)

abbrev pub id_of_entry : String × Draft → String
id_of_entry entry = entry.0

-- The journal that a log stands for
abbrev pub journal_of : EventLog → Journal
journal_of log = record { run = log.run_id; entries = map entry_of log.events }

abbrev pub phases : List String
phases = "candidate" ∷ "accepted" ∷ "failed" ∷ "terminal" ∷ []

abbrev pub visibilities : List String
visibilities = "public" ∷ "expanded" ∷ "restricted" ∷ "secret-ref" ∷ []

-- An event of a compaction has the id of one, and the phase of its type.
abbrev pub HasCompaction : Draft → Type 0
HasCompaction draft =
    (expected : String)
    → compaction_phase_of draft.event_type ≡ some expected
    → (id : String) × (draft.compaction_id ≡ some id) × (id ≢ "") × (draft.phase ≡ expected)

-- A draft that may stand in some journal
pub record IsProper (draft : Draft) : Type 0 where
  pub phase : IsIn draft.phase phases
  pub visibility : IsIn draft.visibility visibilities
  pub compaction : HasCompaction draft
  pub terminal : (draft.event_type ≡ "run.terminal") ↔ (draft.phase ≡ "terminal")
  pub status :
      draft.event_type ≡ "run.terminal"
      → (status : String) × (get "status" draft.payload ≡ some (str status)) × IsIn status statuses

abbrev pub EndsCompaction : Draft → Type 0
EndsCompaction draft =
    (draft.event_type ≡ "context.compaction_completed")
    ⊎ (draft.event_type ≡ "context.compaction_failed")

-- The newest entry is the start of the compaction that the draft ends.
abbrev pub IsLinkedTo : Entries → Draft → Type 0
IsLinkedTo [] draft = ⊥
IsLinkedTo ((id, start) ∷ older) draft =
    (start.event_type ≡ "context.compaction_started")
    × ((start.compaction_id ≡ draft.compaction_id) × (draft.caused_by_event_id ≡ some id))

-- The draft is the uncaused start of the run, or a later event with a cause among the entries.
abbrev pub Follows : Entries → Draft → Type 0
Follows [] draft = (draft.event_type ≡ "run.started") × (draft.caused_by_event_id ≡ none)
Follows (newest ∷ older) draft =
    ((cause : String) × (draft.caused_by_event_id ≡ some cause)
      × IsIn cause (map id_of_entry (newest ∷ older)))
    × (draft.event_type ≢ "run.started")

abbrev pub IsOpen : Entries → Type 0
IsOpen [] = Unit
IsOpen ((id, newest) ∷ older) = newest.event_type ≢ "run.terminal"

pub record Fits (entries : Entries) (draft : Draft) : Type 0 where
  pub is_open : IsOpen entries
  pub proper : IsProper draft
  pub linked : EndsCompaction draft → IsLinkedTo entries draft

pub record Admits (journal : Journal) (run_id : String) (draft : Draft) : Type 0 where
  pub fits : Fits journal.entries draft
  pub same_run : (journal.run ≡ none) ⊎ (journal.run ≡ some run_id)
  pub follows : Follows journal.entries draft
