-- ===== src/Evented/Steps.antt =====
-- Lemmas on the first steps of a part of `AgentLoop.run`: reads, assignments, calls and parts.
use pan_agent.Base.{
  ◌≡◌, refl, String, Bool, true, false, Option, none, some, List, [], ◌∷◌, if◌then◌else◌,
}
use pan_agent.Evented.Machine.{RunState, value, Part, ◌>>=◌, the, update, call}
use pan_agent.Evented.Accepting.{IsCause}
use pan_agent.Evented.Serves.{
  ids_of, nothing, second, itself, IsLive, AreKnown, Served, Serves, join_known, >>=-Serves,
  one_known, lift_known,
}

module _ {W : Type 0} (run_id : String) where
  the-then :
      {A B : Type 0} (f : RunState W → A) (k : A → Part W B) (s : RunState W)
      → (the f >>= k) s ≡ k (f s) s
  unfolding the ◌>>=◌
  the-then f k s = refl

  pub the-Serves :
      {A B : Type 0} {known : List String} {names : B → List String} (f : RunState W → A)
      (k : A → Part W B)
      → ((s : RunState W) → Serves run_id known names (k (f s)))
      → Serves run_id known names (the f >>= k)
  the-Serves f k rest = record {
    served = λ s live knows. rw (the-then f k s) ((rest s).served s live knows);
  }

  -- A read of the last event, whose id is known
  pub last-Serves :
      {B : Type 0} {known : List String} {names : B → List String} (k : Option String → Part W B)
      → ((id : String) → Serves run_id (id ∷ known) names (k (some id)))
      → Serves run_id known names (the (λ s. s.last_event) >>= k)
  last-Serves {known = known} {names = names} k rest = record {
    served = λ s live knows.
        rw (the-then (λ s. s.last_event) k s) (from_last s s.last_event live.last live knows);
  }
    where
      from_last :
          (s : RunState W) (last : Option String)
          → IsCause (ids_of s) last
          → IsLive run_id s
          → AreKnown run_id known s
          → Served run_id names s (k last s)
      from_last s none caused live knows = absurd caused
      from_last s (some id) caused live knows =
          (rest id).served s live
            (join_known run_id (id ∷ []) known s (one_known run_id id s caused) knows)

  call-then :
      {A B : Type 0} (f : W → A × W) (k : A → Part W B) (s : RunState W)
      → (call f >>= k) s ≡ k (f s.world).0 (record s { world = (f s.world).1 })
  unfolding call ◌>>=◌
  call-then f k s = refl

  pub call-Serves :
      {A B : Type 0} {known : List String} {names : B → List String} (f : W → A × W)
      (k : A → Part W B)
      → ((world : W) → Serves run_id known names (k (f world).0))
      → Serves run_id known names (call f >>= k)
  call-Serves f k rest = record {
    served = λ s live knows. rw (call-then f k s) (
        (rest s.world).served (record s { world = (f s.world).1 })
          (record { running = live.running; same_run = live.same_run; last = live.last }) knows);
  }

  moved-Served :
      (s s' : RunState W)
      → s'.event_log ≡ s.event_log
      → IsCause (ids_of s) s'.last_event
      → IsLive run_id s
      → Served run_id {A = Unit {0}} nothing s (value tt s')
  moved-Served s s' same caused live = (
    record {
      running = rw same (live.running);
      same_run = rw same (live.same_run);
      last = rw same caused;
    },
    (λ id found. rw same found, λ id found. absurd found),
  )

  -- An assignment of neither the log nor the last event, at the end of a part
  pub keep-Serves :
      {known : List String} (f : RunState W → RunState W)
      → ((s : RunState W) → (f s).event_log ≡ s.event_log)
      → ((s : RunState W) → (f s).last_event ≡ s.last_event)
      → Serves run_id known nothing (update f)
  unfolding update
  keep-Serves {known = known} f same_log same_last = record {
    served = λ s live knows. moved-Served s (f s) (same_log s) (rw (same_last s) (live.last)) live;
  }

  -- An assignment of the last event
  pub mark-Serves :
      {known : List String} (f : RunState W → RunState W)
      → ((s : RunState W) → (f s).event_log ≡ s.event_log)
      → ((s : RunState W) → IsCause known (f s).last_event)
      → Serves run_id known nothing (update f)
  unfolding update
  mark-Serves {known = known} f same_log caused = record {
    served = λ s live knows.
        moved-Served s (f s) (same_log s)
          (lift_known run_id known s (f s).last_event (caused s) knows) live;
  }

  pub if-Serves :
      {A : Type 0} {known : List String} {names : A → List String} (b : Bool) {m k : Part W A}
      → Serves run_id known names m
      → Serves run_id known names k
      → Serves run_id known names (if b then m else k)
  if-Serves true h g = h
  if-Serves false h g = g

  -- A part that yields the id of an event
  pub named-Serves :
      {B : Type 0} {known : List String} {names : B → List String} (m : Part W String)
      (f : String → Part W B)
      → Serves run_id known itself m
      → ((id : String) → Serves run_id (id ∷ known) names (f id))
      → Serves run_id known names (m >>= f)
  named-Serves m f first rest = >>=-Serves run_id itself first rest

  -- A part that yields a value and the id of an event
  pub paired-Serves :
      {A B : Type 0} {known : List String} {names : B → List String} (m : Part W (A × String))
      (f : A × String → Part W B)
      → Serves run_id known second m
      → ((a : A × String) → Serves run_id (a.1 ∷ known) names (f a))
      → Serves run_id known names (m >>= f)
  paired-Serves m f first rest = >>=-Serves run_id second first rest

  pub then-Serves :
      {A B : Type 0} {known : List String} {names : B → List String} (m : Part W A)
      (f : A → Part W B)
      → Serves run_id known nothing m
      → ((a : A) → Serves run_id known names (f a))
      → Serves run_id known names (m >>= f)
  then-Serves m f first rest = >>=-Serves run_id nothing first rest
