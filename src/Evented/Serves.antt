-- ===== src/Evented/Serves.antt =====
-- What the tests of the log ask of a part of `AgentLoop.run`: the ids that it may give as causes,
-- and the ids that it yields.
use mathlib.Core.Path.{subst}
use pan_agent.Base.{◌≡◌, sym, String, inl, inr, Option, none, some, List, [], ◌∷◌, ◌++◌, map}
use pan_agent.EventLog.Journal.{IsIn, Entries, entry_of, id_of_entry}
use pan_agent.Evented.Machine.{
  RunState, Exit, value, returned, raised, key_error, Part, pure, and_then, ◌>>=◌,
}
use pan_agent.Evented.Accepting.{IsRunning, IsCause}

abbrev pub entries_of : {W : Type 0} → RunState W → Entries
entries_of s = map entry_of s.event_log.events

abbrev pub ids_of : {W : Type 0} → RunState W → List String
ids_of s = map id_of_entry (entries_of s)

-- The ids are among the known ones.
abbrev pub Within : List String → List String → Type 0
Within [] known = Unit
Within (id ∷ ids) known = IsIn id known × Within ids known

abbrev pub nothing : {A : Type 0} → A → List String
nothing a = []

abbrev pub second : {A : Type 0} → A × String → List String
second a = a.1 ∷ []

abbrev pub itself : String → List String
itself id = id ∷ []

module _ {W : Type 0} (run_id : String) where
  -- A run that has started and has not ended
  pub record IsLive (s : RunState W) : Type 0 where
    pub running : IsRunning (entries_of s)
    pub same_run : s.event_log.run_id ≡ some run_id
    pub last : IsCause (ids_of s) s.last_event

  -- What is in the one log is in the other.
  abbrev pub IsKept : RunState W → RunState W → Type 0
  IsKept s s' = (id : String) → IsIn id (ids_of s) → IsIn id (ids_of s')

  abbrev pub AreKnown : List String → RunState W → Type 0
  AreKnown known s = (id : String) → IsIn id known → IsIn id (ids_of s)

  -- What holds of an end of a part that began in the state `s` and yields the ids `names`
  abbrev pub Served : {A : Type 0} → (A → List String) → RunState W → Exit W A → Type 0
  Served names s (value a s') = IsLive s' × (IsKept s s' × AreKnown (names a) s')
  Served names s (returned result s') = Unit
  Served names s (raised e s') = ⊥
  Served names s (key_error s') = Unit

  pub record Serves {A : Type 0} (known : List String) (names : A → List String) (part : Part W A)
      : Type 0 where
    pub served : (s : RunState W) → IsLive s → AreKnown known s → Served names s (part s)

  pub Served-later :
      {A : Type 0} (names : A → List String) (s s' : RunState W) (exit : Exit W A)
      → IsKept s s'
      → Served names s' exit
      → Served names s exit
  Served-later names s s' (value a s'') kept h =
      (h.0, (λ id found. h.1.0 id (kept id found), h.1.1))
  Served-later names s s' (returned result s'') kept h = tt
  Served-later names s s' (raised e s'') kept h = h
  Served-later names s s' (key_error s'') kept h = tt

  and_then-Served :
      {A B : Type 0} (names : A → List String) (names' : B → List String) (s : RunState W)
      (exit : Exit W A) (f : A → Part W B)
      → Served names s exit
      → ((a : A) (s' : RunState W)
          → IsLive s'
          → IsKept s s'
          → AreKnown (names a) s'
          → Served names' s' (f a s'))
      → Served names' s (and_then exit f)
  and_then-Served names names' s (value a s') f h k =
      Served-later names' s s' (f a s') h.1.0 (k a s' h.0 h.1.0 h.1.1)
  and_then-Served names names' s (returned result s') f h k = tt
  and_then-Served names names' s (raised e s') f h k = h
  and_then-Served names names' s (key_error s') f h k = tt

  pub >>=-Served :
      {A B : Type 0} (m : Part W A) (f : A → Part W B) (names : A → List String)
      (names' : B → List String) (s : RunState W)
      → Served names s (m s)
      → ((a : A) (s' : RunState W)
          → IsLive s'
          → IsKept s s'
          → AreKnown (names a) s'
          → Served names' s' (f a s'))
      → Served names' s ((m >>= f) s)
  unfolding ◌>>=◌
  >>=-Served m f names names' s h k = and_then-Served names names' s (m s) f h k

  pub join_known :
      (ids known : List String) (s : RunState W)
      → AreKnown ids s
      → AreKnown known s
      → AreKnown (ids ++ known) s
  join_known [] known s h k id found = k id found
  join_known (first ∷ ids) known s h k id (inl e) = h id (inl e)
  join_known (first ∷ ids) known s h k id (inr found) =
      join_known ids known s (λ other at. h other (inr at)) k id found

  -- A part, and what follows it with the ids that it yields
  pub >>=-Serves :
      {A B : Type 0} {known : List String} {names' : B → List String} {m : Part W A}
      {f : A → Part W B} (names : A → List String)
      → Serves known names m
      → ((a : A) → Serves (names a ++ known) names' (f a))
      → Serves known names' (m >>= f)
  >>=-Serves {known = known} {names' = names'} {m = m} {f = f} names first rest = record {
    served = λ s live knows.
        >>=-Served m f names names' s (first.served s live knows) (λ a s' live' kept named.
          (rest a).served s' live'
            (join_known (names a) known s' named (λ id found. kept id (knows id found))));
  }

  Within-known :
      (ids known : List String) (s : RunState W)
      → Within ids known
      → AreKnown known s
      → AreKnown ids s
  Within-known [] known s within knows id found = absurd found
  Within-known (first ∷ ids) known s within knows id (inl e) =
      subst (λ name. IsIn name (ids_of s)) (sym e) (knows first within.0)
  Within-known (first ∷ ids) known s within knows id (inr found) =
      Within-known ids known s within.1 knows id found

  pub pure-Serves :
      {A : Type 0} {known : List String} {names : A → List String} (a : A)
      → Within (names a) known
      → Serves known names (pure a)
  unfolding pure
  pure-Serves {known = known} {names = names} a within = record {
    served =
        λ s live knows. (live, (λ id found. found, Within-known (names a) known s within knows));
  }

  pub one_known : (id : String) (s : RunState W) → IsIn id (ids_of s) → AreKnown (id ∷ []) s
  one_known id s found other (inl e) = subst (λ name. IsIn name (ids_of s)) (sym e) found
  one_known id s found other (inr missing) = absurd missing

  pub lift_known :
      (known : List String) (s : RunState W) (cause : Option String)
      → IsCause known cause
      → AreKnown known s
      → IsCause (ids_of s) cause
  lift_known known s none caused knows = caused
  lift_known known s (some id) caused knows = knows id caused
