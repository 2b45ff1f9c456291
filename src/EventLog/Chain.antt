-- ===== src/EventLog/Chain.antt =====
-- Proofs on the hash chain that `load_run_event_log` tests.
use mathlib.Core.Path.{subst, ap₂}
use pan_agent.Base.{
  ℕ, ◌≡◌, refl, sym, ◌∙◌, ap, String, true, not, Option, none, some, List, [], ◌∷◌, length, str_eq,
  eq_iff, All, arith,
}
use pan_agent.Base.Int.{pos, ltb_ℤ, int_eq}
use pan_agent.Base.Result.{
  ok, raise_if, >>-eq-ok, >>=-eq-ok, raise_if-eq-ok, not-eq-false, ok-injective,
}
use pan_agent.EventLog.{
  newest_of, id_of, check_line, check_event, load_events, check_end, load_run_event_log,
}
use pan_agent.EventLog.Drafts.{
  Material, RunEvent, event_schema, option_eq, check_draft, identity_mismatch,
}
use pan_agent.EventLog.Sound.{AllChecked}

pub option_eq_sound : (a b : Option String) → option_eq a b ≡ true → a ≡ b
unfolding option_eq
option_eq_sound none none h = refl
option_eq_sound (some s) (some t) h = ap some ((eq_iff s t).0 h)
option_eq_sound none (some t) h = cc
option_eq_sound (some s) none h = cc

module _ (digest : Material → String) where
  pub check_event-line :
      (events : List RunEvent) (event : RunEvent)
      → check_event digest events event ≡ ok tt
      → check_line digest (newest_of events) (length events) event ≡ ok tt
  unfolding check_event
  check_event-line [] event h = (>>-eq-ok (check_line digest none 0 event) _ h).0
  check_event-line (newest ∷ older) event h =
      (>>-eq-ok (check_line digest (some newest) (length (newest ∷ older)) event) _ h).0

  pub check_line-id :
      (newest : Option RunEvent) (count : ℕ) (event : RunEvent)
      → check_line digest newest count event ≡ ok tt
      → event.event_id ≡ digest event.material
  unfolding check_line
  check_line-id newest count event h =
      let (same, _) =
        >>-eq-ok (raise_if (not (str_eq event.event_id (digest event.material))) identity_mismatch)
          _ h in
      (eq_iff event.event_id (digest event.material)).0
        (not-eq-false _ (raise_if-eq-ok _ identity_mismatch same))

  pub check_line-previous :
      (newest : Option RunEvent) (count : ℕ) (event : RunEvent)
      → check_line digest newest count event ≡ ok tt
      → event.previous_event_hash ≡ id_of newest
  unfolding check_line
  check_line-previous newest count event h = do
    let (_, h) = >>-eq-ok (raise_if (not (str_eq event.event_id (digest event.material))) _) _ h
    let (_, h) = >>-eq-ok (raise_if (not (str_eq event.schema_version event_schema)) _) _ h
    let (_, h) = >>-eq-ok (check_draft newest event.draft) _ h
    let (_, h) = >>-eq-ok (raise_if (ltb_ℤ event.monotonic_offset_ns (pos 0)) _) _ h
    let (_, h) = >>-eq-ok (raise_if (not (int_eq event.sequence (pos count))) _) _ h
    option_eq_sound event.previous_event_hash (id_of newest) (not-eq-false _ (raise_if-eq-ok _ _ h))

  -- No material of the one log collides with one of the other.
  abbrev pub NoCollision : List RunEvent → List RunEvent → Type 0
  NoCollision events others =
      All
        (λ (e : RunEvent).
          All (λ (f : RunEvent). digest e.material ≡ digest f.material → e.material ≡ f.material)
            others)
        events

  load_events-AllChecked :
      (lines events read : List RunEvent)
      → AllChecked digest events
      → load_events digest events lines ≡ ok read
      → AllChecked digest read
  unfolding load_events
  load_events-AllChecked [] events read checked h =
      subst (AllChecked digest) (ok-injective h) checked
  load_events-AllChecked (line ∷ lines) events read checked h =
      let (fits, h) = >>-eq-ok (check_event digest events line) _ h in
      load_events-AllChecked lines (line ∷ events) read (fits, checked) h

  NoCollision-older :
      (events : List RunEvent) (other : RunEvent) (others : List RunEvent)
      → NoCollision events (other ∷ others)
      → NoCollision events others
  NoCollision-older [] other others free = tt
  NoCollision-older (event ∷ events) other others free =
      (free.0.1, NoCollision-older events other others free.1)

  same_event :
      (event other : RunEvent)
      → event.event_id ≡ other.event_id
      → event.material ≡ other.material
      → event ≡ other
  same_event event other h k = ap₂ (λ id m. record { event_id = id; material = m }) h k

  AllChecked-same :
      (events others : List RunEvent)
      → AllChecked digest events
      → AllChecked digest others
      → NoCollision events others
      → id_of (newest_of events) ≡ id_of (newest_of others)
      → events ≡ others
  AllChecked-same [] [] checked also free same = refl
  AllChecked-same [] (other ∷ others) checked also free same = cc
  AllChecked-same (event ∷ events) [] checked also free same = cc
  AllChecked-same (event ∷ events) (other ∷ others) checked also free same =
      let line = check_event-line events event checked.0 in
      let line' = check_event-line others other also.0 in
      let ids : event.event_id ≡ other.event_id = cc in
      let material : event.material ≡ other.material = free.0.0 (
        sym (check_line-id (newest_of events) (length events) event line)
        ∙ ids
        ∙ check_line-id (newest_of others) (length others) other line') in
      let previous : id_of (newest_of events) ≡ id_of (newest_of others) =
        sym (check_line-previous (newest_of events) (length events) event line)
        ∙ ap (λ (m : Material). m.previous_event_hash) material
        ∙ check_line-previous (newest_of others) (length others) other line' in
      ap₂ (λ e es. e ∷ es) (same_event event other ids material)
        (AllChecked-same events others checked.1 also.1
          (NoCollision-older events other others free.1) previous)

  pub check_end-same : (events read : List RunEvent) → check_end events ≡ ok read → events ≡ read
  unfolding check_end
  check_end-same [] read h = cc
  check_end-same (newest ∷ older) read h = ground arith

  pub loaded-AllChecked :
      (lines read : List RunEvent)
      → load_run_event_log digest lines ≡ ok read
      → AllChecked digest read
  unfolding load_run_event_log
  loaded-AllChecked lines read h =
      let (events, loaded, ends) = >>=-eq-ok (load_events digest [] lines) check_end h in
      subst (AllChecked digest) (check_end-same events read ends)
        (load_events-AllChecked lines [] events tt loaded)

  -- Two files that the loader accepts, and whose newest events have the same id, hold the same
  -- events, as long as no event of the one collides with an event of the other under the digest.
  pub load_run_event_log-tamper_evident :
      (lines others read also : List RunEvent)
      → load_run_event_log digest lines ≡ ok read
      → load_run_event_log digest others ≡ ok also
      → NoCollision read also
      → id_of (newest_of read) ≡ id_of (newest_of also)
      → read ≡ also
  load_run_event_log-tamper_evident lines others read also h k free same =
      AllChecked-same read also (loaded-AllChecked lines read h) (loaded-AllChecked others also k)
        free same
