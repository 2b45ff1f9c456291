-- ===== src/Evented/Emits.antt =====
-- Lemmas on the events that a part of `AgentLoop.run` writes, against the tests of the log.
use mathlib.Core.Path.{subst}
use pan_agent.Base.{
  ℕ, ◌≡◌, ◌≢◌, refl, sym, ◌∙◌, ap, String, ◌⊎◌, inl, inr, Bool, true, false, Option, none, some,
  List, [], ◌∷◌, ◌++◌, map, if◌then◌else◌,
}
use pan_agent.Base.Iff.{differ}
use pan_agent.Base.Result.{Result, ok, err, ok-injective}
use pan_agent.EventLog.{EventLog, append}
use pan_agent.EventLog.Drafts.{Draft, RunEvent, LogError}
use pan_agent.EventLog.Journal.{
  IsIn, journal_of, entry_of, id_of_entry, Admits, IsProper, EndsCompaction, IsLinkedTo,
}
use pan_agent.Evented.Types.{EventedRunStatus, EventedRunResult}
use pan_agent.Evented.Machine.{
  Agent, RunState, Exit, value, returned, raised, key_error, and_then, written, emit, terminal,
}
use pan_agent.Evented.Ordinary.{
  is_ordinary, ordinary-IsPlain, terminal_draft, terminal_draft-IsProper, end_no_link,
}
use pan_agent.Evented.Accepting.{IsRunning, IsCause, running-Admits, IsAccepted, append-IsAccepted}
use pan_agent.Evented.Serves.{
  entries_of, ids_of, nothing, itself, second, IsLive, IsKept, AreKnown, Served, Serves, lift_known,
  pure-Serves,
}
use pan_agent.Evented.Steps.{
  named-Serves, paired-Serves, then-Serves, the-Serves, last-Serves, call-Serves, keep-Serves,
  mark-Serves, if-Serves,
}

-- A cause that was known before
pub IsCause-later :
    (known : List String) (id : String) (cause : Option String)
    → IsCause known cause
    → IsCause (id ∷ known) cause
IsCause-later known id none caused = caused
IsCause-later known id (some name) caused = inr caused

module _ {W : Type 0} (agent : Agent W) (run_id : String) where
  -- The part has written the draft.
  abbrev pub Emitted : Draft → RunState W → Exit W String → Type 0
  Emitted draft s (value id s') = IsLive run_id s' × (entries_of s' ≡ (id, draft) ∷ entries_of s)
  Emitted draft s (returned result s') = ⊥
  Emitted draft s (raised e s') = ⊥
  Emitted draft s (key_error s') = ⊥

  pub later_ids :
      (s s' : RunState W) (id : String) (draft : Draft)
      → entries_of s' ≡ (id, draft) ∷ entries_of s
      → IsKept run_id s s' × AreKnown run_id (id ∷ []) s'
  later_ids s s' id draft grown =
      let ids : ids_of s' ≡ id ∷ ids_of s = ap (map id_of_entry) grown in
      (
        λ other found. subst (IsIn other) (sym ids) (inr found),
        λ other found. elim found [
          | inl e ↦ subst (IsIn other) (sym ids) (inl e)
          | inr missing ↦ absurd missing
        ],
      )

  pub written-Emitted :
      (s : RunState W) (world : W) (appended : Result LogError RunEvent × EventLog) (draft : Draft)
      → IsAccepted (journal_of s.event_log) run_id draft appended.0 (journal_of appended.1)
      → draft.event_type ≢ "run.terminal"
      → IsLive run_id s
      → Emitted draft s (written agent run_id world appended s)
  unfolding written
  written-Emitted s world (err e, log) draft taken no_end live = let h = taken.accepted in cc
  written-Emitted s world (ok event, log) draft taken no_end live =
      let same : event ≡ taken.event = ok-injective taken.accepted in
      let grown : map entry_of log.events ≡ (event.event_id, draft) ∷ entries_of s =
        rw same (taken.entries) in
      let s' : RunState W = record s { event_log = log; world = world } in
      (
        record {
          running = subst IsRunning (sym grown) no_end;
          same_run = taken.run;
          last =
              lift_known run_id (ids_of s) s' s.last_event live.last
                (later_ids s s' event.event_id draft grown).0;
        },
        grown,
      )

  -- A draft that the journal of the log admits is written.
  pub emit-Emitted :
      (draft : Draft) (s : RunState W)
      → Admits (journal_of s.event_log) run_id draft
      → draft.event_type ≢ "run.terminal"
      → IsLive run_id s
      → Emitted draft s (emit agent run_id draft s)
  unfolding emit
  emit-Emitted draft s admits no_end live =
      let (now, world) = agent.monotonic_ns s.world in
      written-Emitted s world (append agent.digest s.event_log run_id draft now) draft
        (append-IsAccepted agent.digest run_id draft now s.event_log admits) no_end live

  pub Emitted-Served :
      (draft : Draft) (s : RunState W) (exit : Exit W String)
      → Emitted draft s exit
      → Served run_id itself s exit
  Emitted-Served draft s (value id s') h = (h.0, later_ids s s' id draft h.1)
  Emitted-Served draft s (returned result s') h = tt
  Emitted-Served draft s (raised e s') h = h
  Emitted-Served draft s (key_error s') h = tt

  -- The journal of a live run, as the run is known
  pub live-Admits :
      (draft : Draft) (s : RunState W)
      → IsLive run_id s
      → IsProper draft
      → (EndsCompaction draft → IsLinkedTo (entries_of s) draft)
      → draft.event_type ≢ "run.started"
      → IsCause (ids_of s) draft.caused_by_event_id
      → Admits (journal_of s.event_log) run_id draft
  live-Admits draft s live proper linked no_start caused =
      subst (λ run. Admits (record { run = run; entries = entries_of s }) run_id draft)
        (sym live.same_run)
        (running-Admits (entries_of s) run_id draft live.running proper linked no_start caused)

  pub emit-Serves :
      {known : List String} (draft : Draft)
      → is_ordinary draft ≡ true
      → IsCause known draft.caused_by_event_id
      → Serves run_id known itself (emit agent run_id draft)
  emit-Serves {known = known} draft ordinary caused = record {
    served = λ s live knows.
        let plain = ordinary-IsPlain draft ordinary in
        Emitted-Served draft s _ (
          emit-Emitted draft s
            (live-Admits draft s live plain.proper (λ ends. absurd (plain.no_link ends))
              plain.no_start (lift_known run_id known s draft.caused_by_event_id caused knows))
            plain.no_end live);
  }

  returned-Served :
      {A : Type 0} (names : A → List String) (s : RunState W) (world : W)
      (appended : Result LogError RunEvent × EventLog) (draft : Draft) (result : EventedRunResult)
      → IsAccepted (journal_of s.event_log) run_id draft appended.0 (journal_of appended.1)
      → Served run_id names s (
          and_then
            (written agent run_id world appended s)
            (λ event s'. returned result (record s' { last_event = some event })))
  unfolding written
  returned-Served names s world (err e, log) draft result taken = let h = taken.accepted in cc
  returned-Served names s world (ok event, log) draft result taken = tt

module _ {W : Type 0} (agent : Agent W) (run_id task_id : String) where
  pub terminal-Serves :
      {A : Type 0} {known : List String} {names : A → List String} (status : EventedRunStatus)
      (output error cause : Option String)
      → IsCause known cause
      → Serves run_id known names (terminal agent run_id task_id status output error cause)
  unfolding terminal emit
  terminal-Serves {known = known} {names = names} status output error cause caused = record {
    served = λ s live knows.
        let (now, world) = agent.monotonic_ns s.world in
        let draft = terminal_draft status output error cause s.steps s.model_calls in
        let no_start = differ draft.event_type "run.started" refl in
        returned-Served agent run_id names s world
          (append agent.digest s.event_log run_id draft now) draft _
          (append-IsAccepted agent.digest run_id draft now s.event_log (
            live-Admits agent run_id draft s live
              (terminal_draft-IsProper status output error cause s.steps s.model_calls)
              (λ ends. absurd (end_no_link status output error cause s.steps s.model_calls ends))
              no_start (lift_known run_id known s cause caused knows)));
  }

pub ruleset serves_rules = (
  emit-Serves, terminal-Serves, last-Serves, the-Serves, call-Serves, named-Serves, paired-Serves,
  then-Serves, pure-Serves, keep-Serves, mark-Serves, if-Serves, IsCause-later, inl, inr,
)
