-- ===== src/EventLog/Accepted.antt =====
-- Proofs on `load_run_event_log`: the files that it accepts.
use mathlib.Core.List.{reverse, reverse_aux, reverse-reverse}
use mathlib.Core.Path.{subst}
use pan_agent.Base.{
  ◌≡◌, ◌≢◌, refl, ap, sym, ◌∙◌, String, ◌↔◌, inl, inr, Bool, true, false, not, List, [], ◌∷◌, any,
  All, if◌then◌else◌, Bool-cases, or-eq-false,
}
use pan_agent.Base.Iff.{str_eq-false_iff, and_iff}
use pan_agent.Base.Result.{ok, err, >>-eq-ok, >>=-eq-ok, ok-injective}
use pan_agent.EventLog.{check_event, load_events, check_end, load_run_event_log}
use pan_agent.EventLog.Drafts.{Material, RunEvent, bad_end, is_type}
use pan_agent.EventLog.Conditions.{is_type_iff}
use pan_agent.EventLog.Sound.{AllChecked}
use pan_agent.EventLog.Chain.{loaded-AllChecked, check_end-same}
use pan_agent.EventLog.Replay.{load_events-reverse}
use pan_agent.EventLog.Entries.{IsEntry, check_event_iff}

-- The newest event, and no other, is terminal.
abbrev pub EndsOnce : List RunEvent → Type 0
EndsOnce [] = ⊥
EndsOnce (newest ∷ older) =
    (newest.event_type ≡ "run.terminal")
    × All (λ (event : RunEvent). event.event_type ≢ "run.terminal") older

any-false_iff :
    (events : List RunEvent)
    → (any (λ (e : RunEvent). is_type "run.terminal" e.draft) events ≡ false)
      ↔ All (λ (event : RunEvent). event.event_type ≢ "run.terminal") events
any-false_iff [] = (λ _. tt, λ _. refl)
any-false_iff (event ∷ events) = (
  λ h.
      let (first, rest) = or-eq-false (is_type "run.terminal" event.draft) _ h in
      ((str_eq-false_iff event.event_type "run.terminal").0 first, (any-false_iff events).0 rest),
  λ all.
      rw
        ((str_eq-false_iff event.event_type "run.terminal").1 all.0, (any-false_iff events).1 all.1)
        refl,
)

not_iff : {P : Type 0} (b : Bool) → (b ≡ false) ↔ P → (not b ≡ true) ↔ P
not_iff true iff = (λ h. cc, λ p. let e = iff.1 p in cc)
not_iff false iff = (λ _. iff.0 refl, λ _. refl)

if-ok_iff :
    {E A P : Type 0} (b : Bool) (value : A) (e : E)
    → (b ≡ true) ↔ P
    → ((if b then ok value else err e) ≡ ok value) ↔ P
if-ok_iff b value e iff = (
  λ h. elim (Bool-cases b) [ inl on ↦ iff.0 on | inr off ↦ let h' = rw off at h in cc ],
  λ p. rw (iff.1 p) refl,
)

check_end_iff : (events : List RunEvent) → (check_end events ≡ ok events) ↔ EndsOnce events
unfolding check_end
check_end_iff [] = (λ h. cc, λ h. absurd h)
check_end_iff (newest ∷ older) =
    if-ok_iff _ _ bad_end
      (and_iff _ _ (is_type_iff "run.terminal" newest.draft) (not_iff _ (any-false_iff older)))

module _ (digest : Material → String) where
  -- Every event is an entry after those before it.
  abbrev pub AreEntries : List RunEvent → Type 0
  AreEntries [] = Unit
  AreEntries (event ∷ older) = IsEntry digest older event × AreEntries older

  AllChecked-iff : (events : List RunEvent) → AllChecked digest events ↔ AreEntries events
  AllChecked-iff [] = (λ h. h, λ h. h)
  AllChecked-iff (event ∷ older) = (
    λ h. ((check_event_iff digest older event).0 h.0, (AllChecked-iff older).0 h.1),
    λ h. ((check_event_iff digest older event).1 h.0, (AllChecked-iff older).1 h.1),
  )

  load_events-order :
      (lines events read : List RunEvent)
      → load_events digest events lines ≡ ok read
      → reverse_aux lines events ≡ read
  unfolding load_events
  load_events-order [] events read h = ok-injective h
  load_events-order (line ∷ lines) events read h =
      load_events-order lines (line ∷ events) read (>>-eq-ok (check_event digest events line) _ h).1

  loaded-order :
      (lines read : List RunEvent)
      → load_run_event_log digest lines ≡ ok read
      → read ≡ reverse lines
  unfolding load_run_event_log
  loaded-order lines read h =
      let (events, loaded, ends) = >>=-eq-ok (load_events digest [] lines) check_end h in
      sym (load_events-order lines [] events loaded ∙ check_end-same digest events read ends)

  loaded-EndsOnce :
      (lines read : List RunEvent) → load_run_event_log digest lines ≡ ok read → EndsOnce read
  unfolding load_run_event_log
  loaded-EndsOnce lines read h =
      let (events, _, ends) = >>=-eq-ok (load_events digest [] lines) check_end h in
      let same = check_end-same digest events read ends in
      (check_end_iff read).0 (subst (λ es. check_end es ≡ ok read) same ends)

  load_entries :
      (read : List RunEvent)
      → AreEntries read
      → EndsOnce read
      → load_run_event_log digest (reverse read) ≡ ok read
  unfolding load_run_event_log
  load_entries read entries ends =
      rw (load_events-reverse digest read ((AllChecked-iff read).1 entries))
        ((check_end_iff read).1 ends)

  pub load_run_event_log_iff :
      (lines read : List RunEvent)
      → (load_run_event_log digest lines ≡ ok read)
        ↔ ((read ≡ reverse lines) × (AreEntries read × EndsOnce read))
  load_run_event_log_iff lines read = (
    λ h. (
      loaded-order lines read h,
      (
        (AllChecked-iff read).0 (loaded-AllChecked digest lines read h),
        loaded-EndsOnce lines read h,
      ),
    ),
    λ asked.
        let (order, (entries, ends)) = asked in
        let lines_of : lines ≡ reverse read =
          sym (reverse-reverse lines) ∙ ap reverse (sym order) in
        rw lines_of (load_entries read entries ends),
  )
