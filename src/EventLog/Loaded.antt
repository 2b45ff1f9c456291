-- ===== src/EventLog/Loaded.antt =====
-- What the loader of the event log has established of the events that it returns.
use mathlib.Core.List.{reverse}
use pan_agent.Base.{◌≡◌, sym, String, ◌⊎◌, inl, inr, none, some, List, [], ◌∷◌, map, length}
use pan_agent.Base.Int.{pos, ◌≤ℤ◌}
use pan_agent.Base.Result.{ok}
use pan_agent.EventLog.{newest_of, id_of, oldest, load_run_event_log}
use pan_agent.EventLog.Drafts.{Material, RunEvent}
use pan_agent.EventLog.Journal.{IsIn, entry_of, id_of_entry}
use pan_agent.EventLog.Entries.{IsPlaced}
use pan_agent.EventLog.Accepted.{AreEntries, load_run_event_log_iff}

-- An event with this id is among the events.
abbrev pub Occurs : String → List RunEvent → Type 0
Occurs id [] = ⊥
Occurs id (event ∷ events) = (event.event_id ≡ id) ⊎ Occurs id events

-- Where an event stands, after the events before it.
abbrev pub Placed : RunEvent → List RunEvent → Type 0
Placed event [] =
    (event.event_type ≡ "run.started")
    × (event.caused_by_event_id ≡ none)
    × (event.monotonic_offset_ns ≡ pos 0)
Placed event (newest ∷ older) =
    (event.run_id ≡ (oldest newest older).run_id)
    × (newest.monotonic_offset_ns ≤ℤ event.monotonic_offset_ns)
    × ((cause : String) × (event.caused_by_event_id ≡ some cause) × Occurs cause (newest ∷ older))

module _ (digest : Material → String) where
  -- Each event has the digest of its content as its id, its position as its number, the id of the
  -- event before it as its previous hash, and its place.
  abbrev pub IsChained : List RunEvent → Type 0
  IsChained [] = Unit
  IsChained (event ∷ older) =
      (event.event_id ≡ digest event.material)
      × (event.sequence ≡ pos (length older))
      × (event.previous_event_hash ≡ id_of (newest_of older))
      × Placed event older
      × IsChained older

IsIn-Occurs :
    (id : String) (events : List RunEvent)
    → IsIn id (map id_of_entry (map entry_of events))
    → Occurs id events
IsIn-Occurs id [] found = found
IsIn-Occurs id (event ∷ events) found = elim found [
  | inl here ↦ inl (sym here)
  | inr there ↦ inr (IsIn-Occurs id events there)
]

IsPlaced-Placed :
    (event : RunEvent) (older : List RunEvent) → IsPlaced older event → Placed event older
IsPlaced-Placed event [] placed = (placed.0.0, placed.0.1, placed.1)
IsPlaced-Placed event (newest ∷ older) placed =
    let (run, (later, (cause, caused, found))) = placed in
    (run, later, (cause, caused, IsIn-Occurs cause (newest ∷ older) found))

module _ (digest : Material → String) where
  AreEntries-IsChained :
      (events : List RunEvent) → AreEntries digest events → IsChained digest events
  AreEntries-IsChained [] entries = tt
  AreEntries-IsChained (event ∷ older) entries =
      let (entry, rest) = entries in
      (
        entry.id,
        entry.numbered,
        entry.chained,
        IsPlaced-Placed event older entry.placed,
        AreEntries-IsChained older rest,
      )

  -- The events that the loader returns are the lines of the file, and they form a chain: ids are
  -- digests, numbers count up from 0, each previous hash is the id of the event before, the first
  -- event is an uncaused start at offset 0, and every later one has the same run, a cause among
  -- the events before it and an offset that does not decrease.
  pub load_run_event_log-IsChained :
      (lines read : List RunEvent)
      → load_run_event_log digest lines ≡ ok read
      → (read ≡ reverse lines) × IsChained digest read
  load_run_event_log-IsChained lines read h =
      let (order, (entries, ends)) = (load_run_event_log_iff digest lines read).0 h in
      (order, AreEntries-IsChained read entries)
