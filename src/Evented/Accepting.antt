-- ===== src/Evented/Accepting.antt =====
-- Lemmas on the events that the journal of a running log admits, and on what a call of `append`
-- leaves of it.
use pan_agent.Base.{◌≡◌, ◌≢◌, refl, String, ◌⊎◌, inl, inr, Option, none, some, List, [], ◌∷◌, map}
use pan_agent.Base.Int.{ℤ}
use pan_agent.Base.Result.{Result, ok, err}
use pan_agent.EventLog.{EventLog, append}
use pan_agent.EventLog.Drafts.{Draft, RunEvent, LogError, Material}
use pan_agent.EventLog.Journal.{
  IsIn, Entries, Journal, journal_of, id_of_entry, IsProper, EndsCompaction, IsLinkedTo, Admits,
}
use pan_agent.EventLog.Refined.{Answers, accepts, refuses, append-Answers}

-- A journal with an entry that is not terminal
abbrev pub IsRunning : Entries → Type 0
IsRunning [] = ⊥
IsRunning ((id, newest) ∷ older) = newest.event_type ≢ "run.terminal"

-- A cause that is one of the ids
abbrev pub IsCause : List String → Option String → Type 0
IsCause ids none = ⊥
IsCause ids (some id) = IsIn id ids

-- A running journal admits a later event with a cause in it.
pub running-Admits :
    (entries : Entries) (run_id : String) (draft : Draft)
    → IsRunning entries
    → IsProper draft
    → (EndsCompaction draft → IsLinkedTo entries draft)
    → draft.event_type ≢ "run.started"
    → IsCause (map id_of_entry entries) draft.caused_by_event_id
    → Admits (record { run = some run_id; entries = entries }) run_id draft
running-Admits [] run_id draft running proper linked no_start caused = absurd running
running-Admits ((id, newest) ∷ older) run_id draft running proper linked no_start caused = record {
  fits = record { is_open = running; proper = proper; linked = linked };
  same_run = inr refl;
  follows =
      (cause_of (map id_of_entry ((id, newest) ∷ older)) draft.caused_by_event_id caused, no_start);
}
  where
    cause_of :
        (ids : List String) (cause : Option String)
        → IsCause ids cause
        → (name : String) × (cause ≡ some name) × IsIn name ids
    cause_of ids none found = absurd found
    cause_of ids (some name) found = (name, refl, found)

-- What an accepted call leaves
pub record IsAccepted (journal : Journal) (run_id : String) (draft : Draft)
    (answer : Result LogError RunEvent) (after : Journal) : Type 0 where
  pub event : RunEvent
  pub accepted : answer ≡ ok event
  pub run : after.run ≡ some run_id
  pub entries : after.entries ≡ (event.event_id, draft) ∷ journal.entries

admitted-IsAccepted :
    {journal : Journal} {run_id : String} {draft : Draft} {answer : Result LogError RunEvent}
    {after : Journal}
    → Answers journal run_id draft answer after
    → Admits journal run_id draft
    → IsAccepted journal run_id draft answer after
admitted-IsAccepted (accepts event run _ _ same) admits = record {
  event = event;
  accepted = refl;
  run = same;
  entries = refl;
}
admitted-IsAccepted (refuses _ _ refused _) admits = absurd (refused admits)

pub append-IsAccepted :
    (digest : Material → String) (run_id : String) (draft : Draft) (now : ℤ) (log : EventLog)
    → Admits (journal_of log) run_id draft
    → let (answer, after) = append digest log run_id draft now in
      IsAccepted (journal_of log) run_id draft answer (journal_of after)
append-IsAccepted digest run_id draft now log =
    admitted-IsAccepted (append-Answers digest run_id draft now log)

-- What a refused call leaves of the journal of a known run
pub record IsRefused (journal : Journal) (answer : Result LogError RunEvent) (after : Journal)
    : Type 0 where
  pub reason : LogError
  pub refused : answer ≡ err reason
  pub run : after.run ≡ journal.run
  pub entries : after.entries ≡ journal.entries

answered :
    {journal : Journal} {run_id : String} {draft : Draft} {answer : Result LogError RunEvent}
    {after : Journal}
    → Answers journal run_id draft answer after
    → journal.run ≡ some run_id
    → IsAccepted journal run_id draft answer after ⊎ IsRefused journal answer after
answered (accepts event run _ _ same) known =
    inl (record { event = event; accepted = refl; run = same; entries = refl })
answered (refuses reason run _ (inl same)) known =
    inr (record { reason = reason; refused = refl; run = same; entries = refl })
answered (refuses reason run _ (inr unknown)) known = let h = unknown.0 in cc

pub append-answered :
    (digest : Material → String) (run_id : String) (draft : Draft) (now : ℤ) (log : EventLog)
    → log.run_id ≡ some run_id
    → let (answer, after) = append digest log run_id draft now in
      IsAccepted (journal_of log) run_id draft answer (journal_of after)
      ⊎ IsRefused (journal_of log) answer (journal_of after)
append-answered digest run_id draft now log = answered (append-Answers digest run_id draft now log)
