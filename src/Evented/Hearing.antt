-- ===== src/Evented/Hearing.antt =====
-- Lemmas on the events that a tool reports while `AgentLoop.run` executes it, against the tests of
-- the log.
use mathlib.Core.Path.{subst}
use pan_agent.Base.{◌≡◌, ◌≢◌, refl, sym, ◌∙◌, ap, String, true, false, List, ◌∷◌, inl, inr, map}
use pan_agent.Base.Result.{Result, ok, err}
use pan_agent.Limits.{RunLimits}
use pan_agent.EventLog.{EventLog, append}
use pan_agent.EventLog.Drafts.{Draft, RunEvent, LogError}
use pan_agent.EventLog.Journal.{IsIn, journal_of, entry_of, id_of_entry}
use pan_agent.Evented.Types.{ToolEnd, Activity, ended, observes}
use pan_agent.Evented.Machine.{
  Agent, RunState, Exit, value, returned, raised, key_error, Part, emit, written,
}
use pan_agent.Evented.Batch.{Place, resumed, run_activity}
use pan_agent.Evented.Accepting.{IsRefused, append-answered}
use pan_agent.Evented.Tame.{IsQuiet}
use pan_agent.Evented.Serves.{
  entries_of, ids_of, second, IsLive, IsKept, Served, Serves, Served-later, one_known,
}
use pan_agent.Evented.Emits.{written-Emitted, Emitted, later_ids}

module _ {W : Type 0} (agent : Agent W) (run_id : String) where
  -- The draft is written, or the entries stay as they are.
  abbrev Tried : Draft → RunState W → Exit W String → Type 0
  Tried draft s (value id s') = IsLive run_id s' × (entries_of s' ≡ (id, draft) ∷ entries_of s)
  Tried draft s (raised e s') = IsLive run_id s' × (entries_of s' ≡ entries_of s)
  Tried draft s (returned result s') = ⊥
  Tried draft s (key_error s') = ⊥

  Emitted-Tried :
      (draft : Draft) (s : RunState W) (exit : Exit W String)
      → Emitted agent run_id draft s exit
      → Tried draft s exit
  Emitted-Tried draft s (value id s') h = h
  Emitted-Tried draft s (raised e s') h = absurd h
  Emitted-Tried draft s (returned result s') h = h
  Emitted-Tried draft s (key_error s') h = h

  written-Tried :
      (s : RunState W) (world : W) (answer : Result LogError RunEvent) (log : EventLog)
      → IsRefused (journal_of s.event_log) answer (journal_of log)
      → (draft : Draft) → IsLive run_id s
      → Tried draft s (written agent run_id world (answer, log) s)
  unfolding written
  written-Tried s world (ok event) log refusal draft live = let h = refusal.refused in cc
  written-Tried s world (err e) log refusal draft live =
      let ids : map id_of_entry (map entry_of log.events) ≡ ids_of s =
        ap (map id_of_entry) refusal.entries in
      (
        record {
          running = rw refusal.entries (live.running);
          same_run = refusal.run ∙ live.same_run;
          last = rw ids (live.last);
        },
        refusal.entries,
      )

  emit-Tried :
      (draft : Draft) (s : RunState W)
      → draft.event_type ≢ "run.terminal"
      → IsLive run_id s
      → Tried draft s (emit agent run_id draft s)
  unfolding emit
  emit-Tried draft s no_end live =
      let (now, world) = agent.monotonic_ns s.world in
      let (answer, log) = append agent.digest s.event_log run_id draft now in
      elim (append-answered agent.digest run_id draft now s.event_log live.same_run) [
        | inl taken ↦
            Emitted-Tried draft s _
              (written-Emitted agent run_id s world (answer, log) draft taken no_end live)
        | inr refusal ↦ written-Tried s world answer log refusal draft live
      ]

module _ {W : Type 0} (agent : Agent W) (run_id task_id : String) (limits : RunLimits) where
  resumed-Served :
      (draft : Draft) (s : RunState W) (exit : Exit W String)
      (heard : String → Part W (ToolEnd × String)) (refused : Part W (ToolEnd × String))
      → Tried agent run_id draft s exit
      → ((id : String) (s' : RunState W)
          → IsLive run_id s'
          → IsKept run_id s s'
          → IsIn id (ids_of s')
          → Served run_id second s' (heard id s'))
      → ((s' : RunState W)
          → IsLive run_id s'
          → IsKept run_id s s'
          → Served run_id second s' (refused s'))
      → Served run_id second s (resumed agent run_id task_id limits exit heard refused)
  resumed-Served draft s (value id s') heard refused tried h k =
      let (kept, named) = later_ids agent run_id s s' id draft tried.1 in
      Served-later run_id second s s' (heard id s') kept
        (h id s' tried.0 kept (named id (inl refl)))
  resumed-Served draft s (raised e s') heard refused tried h k =
      let kept : IsKept run_id s s' =
        λ id found. subst (IsIn id) (sym (ap (map id_of_entry) tried.1)) found in
      Served-later run_id second s s' (refused s') kept (k s' tried.0 kept)
  resumed-Served draft s (returned result s') heard refused tried h k = absurd tried
  resumed-Served draft s (key_error s') heard refused tried h k = absurd tried

  run_activity-Served :
      (place : Place) (call_id : String) (activity : Activity W) (cause : String) (s : RunState W)
      → IsQuiet activity
      → IsLive run_id s
      → IsIn cause (ids_of s)
      → Served run_id second s
          (run_activity agent run_id task_id limits place call_id activity cause s)
  unfolding run_activity
  run_activity-Served place call_id (ended tool_end world) cause s quiet live caused = (
    record { running = live.running; same_run = live.same_run; last = live.last },
    (λ id found. found, one_known run_id cause s caused),
  )
  run_activity-Served place call_id (observes event world resume) cause s quiet live caused =
      let there : RunState W = record s { world = world } in
      let live_there : IsLive run_id there = record {
        running = live.running;
        same_run = live.same_run;
        last = live.last;
      } in
      resumed-Served _ there _ _ _ (emit-Tried agent run_id _ there quiet.0 live_there)
        (λ id s' live' kept found.
          run_activity-Served place call_id (resume false s'.world) id s' (quiet.1 false s'.world)
            live' found)
        (λ s' live' kept.
          run_activity-Served place call_id (resume true s'.world) cause s' (quiet.1 true s'.world)
            live' (kept cause caused))

  pub run_activity-Serves :
      {known : List String} (place : Place) (call_id : String) (activity : Activity W)
      (cause : String)
      → IsQuiet activity
      → IsIn cause known
      → Serves run_id known second
          (run_activity agent run_id task_id limits place call_id activity cause)
  run_activity-Serves place call_id activity cause quiet caused = record {
    served = λ s live knows.
        run_activity-Served place call_id activity cause s quiet live (knows cause caused);
  }
