-- ===== src/Evented/Keeps.antt =====
-- What a part of `AgentLoop.run` keeps of the event log, of the number of model calls and of the
-- result.
use pan_agent.Base.{
  ◌+◌, ◌≤◌, ◌≡◌, refl, ◌∙◌, ap, String, Bool, true, false, Option, some, List, ◌∷◌, if◌then◌else◌,
  arith,
}
use pan_agent.Base.Result.{Result, ok, err}
use pan_agent.EventLog.{EventLog, append}
use pan_agent.EventLog.Drafts.{Draft, RunEvent, LogError, is_type}
use pan_agent.EventLog.Sound.{IsSound, append-IsSound, is_terminal}
use pan_agent.EventLog.Refused.{Adds, append-Adds}
use pan_agent.Evented.Types.{EventedRunStatus, EventedRunResult}
use pan_agent.Evented.Machine.{
  Agent, RunState, Exit, value, returned, raised, key_error, Part, plain, pure, and_then, ◌>>=◌,
  the, update, call, terminal_payload, written, emit, terminal,
}

module _ {W : Type 0} (agent : Agent W) (run_id task_id : String) where
  -- From one state to a later one of the same run.
  pub record Grows (s s' : RunState W) : Type 0 where
    pub sound : IsSound agent.digest s.event_log → IsSound agent.digest s'.event_log
    pub calls : s.model_calls ≤ s'.model_calls

  pub Grows-refl : (s : RunState W) → Grows s s
  Grows-refl s = record { sound = λ h. h; calls = omega arith }

  -- The world does not matter.
  pub at_world : (s : RunState W) (world : W) → Grows s (record s { world = world })
  at_world s world = record { sound = λ h. h; calls = omega arith }

  pub Grows-trans : (s s' s'' : RunState W) → Grows s s' → Grows s' s'' → Grows s s''
  Grows-trans s s' s'' g h = record {
    sound = λ sound. h.sound (g.sound sound);
    calls = omega (arith, g.calls, h.calls);
  }

  -- The newest event is the terminal event of the result.
  pub record IsFiled (result : EventedRunResult) (s : RunState W) : Type 0 where
    pub newest : RunEvent
    pub older : List RunEvent
    pub events : s.event_log.events ≡ newest ∷ older
    pub ends : is_terminal newest ≡ true
    pub same_run : (result.run_id ≡ run_id) × (result.task_id ≡ task_id)
    pub carries :
        newest.payload
        ≡ terminal_payload result.status result.output result.error result.steps result.model_calls

  -- What holds of an end of a part that began in the state `s`.
  abbrev pub Good : {A : Type 0} → RunState W → Exit W A → Type 0
  Good s (value a s') = Grows s s'
  Good s (returned result s') = Grows s s' × IsFiled result s'
  Good s (raised e s') = Grows s s'
  Good s (key_error s') = ⊥

  -- Every end of the part is a good one.
  pub record Keeps {A : Type 0} (part : Part W A) : Type 0 where
    pub good : (s : RunState W) → Good s (part s)

  pub Good-later :
      {A : Type 0} (s s' : RunState W) (exit : Exit W A) → Grows s s' → Good s' exit → Good s exit
  Good-later s s' (value a s'') g h = Grows-trans s s' s'' g h
  Good-later s s' (returned result s'') g h = (Grows-trans s s' s'' g h.0, h.1)
  Good-later s s' (raised e s'') g h = Grows-trans s s' s'' g h
  Good-later s s' (key_error s'') g h = h

  and_then-Good :
      {A B : Type 0} (s : RunState W) (exit : Exit W A) (f : A → Part W B)
      → Good s exit
      → ((a : A) (s' : RunState W) → Good s' (f a s'))
      → Good s (and_then exit f)
  and_then-Good s (value a s') f g h = Good-later s s' (f a s') g (h a s')
  and_then-Good s (returned result s') f g h = g
  and_then-Good s (raised e s') f g h = g
  and_then-Good s (key_error s') f g h = g

  and_then-Good-value :
      {A B : Type 0} (s : RunState W) (exit : Exit W A) (f : A → Part W B)
      → Good s exit
      → ((a : A) (s' : RunState W) → exit ≡ value a s' → Good s' (f a s'))
      → Good s (and_then exit f)
  and_then-Good-value s (value a s') f g h = Good-later s s' (f a s') g (h a s' refl)
  and_then-Good-value s (returned result s') f g h = g
  and_then-Good-value s (raised e s') f g h = g
  and_then-Good-value s (key_error s') f g h = g

  pub pure-Keeps : {A : Type 0} (a : A) → Keeps (pure a)
  unfolding pure
  pure-Keeps a = record { good = λ s. Grows-refl s }

  pub >>=-Keeps :
      {A B : Type 0} {m : Part W A} {f : A → Part W B}
      → Keeps m
      → ((a : A) → Keeps (f a))
      → Keeps (m >>= f)
  unfolding ◌>>=◌
  >>=-Keeps {m = m} {f = f} k h = record {
    good = λ s. and_then-Good s (m s) f (k.good s) (λ a s'. (h a).good s');
  }

  -- The rest need only keep what follows what the first part gave.
  pub >>=-Keeps-value :
      {A B : Type 0} {m : Part W A} {f : A → Part W B}
      → Keeps m
      → ((a : A) (s s' : RunState W) → m s ≡ value a s' → Keeps (f a))
      → Keeps (m >>= f)
  unfolding ◌>>=◌
  >>=-Keeps-value {m = m} {f = f} keeps rest = record {
    good = λ s. and_then-Good-value s (m s) f (keeps.good s) (λ a s' h. (rest a s s' h).good s');
  }

  pub the-Keeps : {A : Type 0} (f : RunState W → A) → Keeps (the f)
  unfolding the
  the-Keeps f = record { good = λ s. Grows-refl s }

  pub update-Keeps :
      (f : RunState W → RunState W) → ((s : RunState W) → Grows s (f s)) → Keeps (update f)
  unfolding update
  update-Keeps f g = record { good = λ s. g s }

  -- An assignment of neither the log nor the count of model calls.
  pub keep-Keeps :
      (f : RunState W → RunState W)
      → ((s : RunState W) → (f s).event_log ≡ s.event_log)
      → ((s : RunState W) → (f s).model_calls ≡ s.model_calls)
      → Keeps (update f)
  keep-Keeps f same_log same_calls =
      update-Keeps f
        (λ s. record { sound = λ h. rw (same_log s) h; calls = omega (arith, same_calls s) })

  -- model_calls += 1
  pub count-Keeps : Keeps (update (λ s. record s { model_calls = s.model_calls + 1 }))
  count-Keeps = update-Keeps _ (λ s. record { sound = λ h. h; calls = omega arith })

  pub call-Keeps : {A : Type 0} (f : W → A × W) → Keeps (call f)
  unfolding call
  call-Keeps f = record { good = λ s. record { sound = λ h. h; calls = omega arith } }

  pub if-Keeps :
      {A : Type 0} (b : Bool) {m k : Part W A} → Keeps m → Keeps k → Keeps (if b then m else k)
  if-Keeps true h g = h
  if-Keeps false h g = g

  written-Good :
      (s : RunState W) (world : W) (appended : Result LogError RunEvent × EventLog)
      → (IsSound agent.digest s.event_log → IsSound agent.digest appended.1)
      → Good s (written agent run_id world appended s)
  unfolding written
  written-Good s world (err e, log) h = record { sound = h; calls = omega arith }
  written-Good s world (ok event, log) h = record { sound = h; calls = omega arith }

  pub emit-Keeps : (draft : Draft) → Keeps (emit agent run_id draft)
  unfolding emit
  emit-Keeps draft = record {
    good = λ s.
        let (now, world) = agent.monotonic_ns s.world in
        written-Good s world (append agent.digest s.event_log run_id draft now)
          (append-IsSound agent.digest s.event_log run_id draft now);
  }

  written-terminal :
      (A : Type 0) (s : RunState W) (world : W) (draft : Draft)
      (appended : Result LogError RunEvent × EventLog) (result : EventedRunResult)
      → Adds run_id draft s.event_log appended
      → (result.run_id ≡ run_id) × (result.task_id ≡ task_id)
      → is_type "run.terminal" draft ≡ true
      → draft.payload
        ≡ terminal_payload result.status result.output result.error result.steps result.model_calls
      → (IsSound agent.digest s.event_log → IsSound agent.digest appended.1)
      → Good {A = A} s (
          and_then
            (written agent run_id world appended s)
            (λ event s'. returned result (record s' { last_event = some event })))
  unfolding written
  written-terminal A s world draft (err e, log) result adds same ends carries sound = record {
    sound = sound;
    calls = omega arith;
  }
  written-terminal A s world draft (ok event, log) result adds same ends carries sound = (
    record { sound = sound; calls = omega arith },
    record {
      newest = event;
      older = s.event_log.events;
      events = adds.0;
      ends = ap (is_type "run.terminal") adds.2 ∙ ends;
      same_run = same;
      carries = ap (λ (d : Draft). d.payload) adds.2 ∙ carries;
    },
  )

  pub terminal-Keeps :
      {A : Type 0} (status : EventedRunStatus) (output error cause : Option String)
      → Keeps {A = A} (terminal agent run_id task_id status output error cause)
  unfolding emit terminal
  terminal-Keeps {A = A} status output error cause = record {
    good = λ s. do
      let (now, world) = agent.monotonic_ns s.world
      let draft =
          plain "run.terminal" "terminal" cause
            (terminal_payload status output error s.steps s.model_calls)
      let appended = append agent.digest s.event_log run_id draft now
      written-terminal A s world draft appended _
          (append-Adds agent.digest s.event_log run_id draft now) (refl, refl) refl refl
          (append-IsSound agent.digest s.event_log run_id draft now);
  }

pub ruleset keeps_rules =
    (pure-Keeps, >>=-Keeps, the-Keeps, call-Keeps, if-Keeps, emit-Keeps, terminal-Keeps)
