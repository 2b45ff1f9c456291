-- ===== src/Evented/Ordinary.antt =====
-- Lemmas on the events that `AgentLoop.run` writes: which of them the journal of its log admits.
use pan_agent.Base.{
  ℕ, ◌≡◌, ◌≢◌, refl, sym, ◌∙◌, String, ◌↔◌, inl, inr, Bool, true, false, not, ◌&&◌, Option, some,
  List, [], ◌∷◌, any, str_eq, eq_iff, Bool-cases, and-eq-true,
}
use pan_agent.Base.Iff.{differ}
use pan_agent.Base.Json.{get}
use pan_agent.EventLog.Drafts.{Draft, is_one_of, compaction_phase_of, statuses}
use pan_agent.EventLog.Journal.{IsIn, phases, visibilities, IsProper, EndsCompaction}
use pan_agent.EventLog.Conditions.{is_one_of_iff}
use pan_agent.Evented.Types.{EventedRunStatus, evented_status_value}
use pan_agent.Evented.Machine.{plain, terminal_payload}

abbrev special_types : List String
special_types =
    "run.started" ∷ "run.terminal" ∷ "artifact.externalized" ∷ "context.compaction_started"
    ∷ "context.compaction_completed" ∷ "context.compaction_failed" ∷ []

abbrev open_phases : List String
open_phases = "candidate" ∷ "accepted" ∷ "failed" ∷ []

abbrev among : List String → String → Bool
among texts s = any (λ text. str_eq s text) texts

-- An event that is neither the start nor the end of a run, nor part of a compaction
abbrev pub is_ordinary : Draft → Bool
is_ordinary draft =
    among open_phases draft.phase
    && (among visibilities draft.visibility && not (among special_types draft.event_type))

among_iff : (texts : List String) (s : String) → (among texts s ≡ true) ↔ IsIn s texts
unfolding is_one_of
among_iff texts s = is_one_of_iff texts s

compaction_phase_of-IsIn :
    (t expected : String) → compaction_phase_of t ≡ some expected → IsIn t special_types
unfolding compaction_phase_of
compaction_phase_of-IsIn t expected h = elim (Bool-cases (str_eq t "artifact.externalized")) [
  | inl e ↦ inr (inr (inl ((eq_iff t _).0 e)))
  | inr n1 ↦ elim (Bool-cases (str_eq t "context.compaction_started")) [
    | inl e ↦ inr (inr (inr (inl ((eq_iff t _).0 e))))
    | inr n2 ↦ elim (Bool-cases (str_eq t "context.compaction_completed")) [
      | inl e ↦ inr (inr (inr (inr (inl ((eq_iff t _).0 e)))))
      | inr n3 ↦ elim (Bool-cases (str_eq t "context.compaction_failed")) [
        | inl e ↦ inr (inr (inr (inr (inr (inl ((eq_iff t _).0 e))))))
        | inr n4 ↦ let h' = rw (n1, n2, n3, n4) at h in cc
      ]
    ]
  ]
]

apart : {s t u : String} → str_eq t u ≡ false → s ≡ t → s ≢ u
apart {t = t} {u = u} other e e' = differ t u other (sym e ∙ e')

open_phase : (phase : String) → IsIn phase open_phases → IsIn phase phases × (phase ≢ "terminal")
open_phase phase (inl e) = (inl e, apart refl e)
open_phase phase (inr (inl e)) = (inr (inl e), apart refl e)
open_phase phase (inr (inr (inl e))) = (inr (inr (inl e)), apart refl e)
open_phase phase (inr (inr (inr found))) = absurd found

-- What an ordinary event is not, and that it is proper
pub record IsPlain (draft : Draft) : Type 0 where
  pub proper : IsProper draft
  pub no_start : draft.event_type ≢ "run.started"
  pub no_end : draft.event_type ≢ "run.terminal"
  pub no_link : EndsCompaction draft → ⊥

pub ordinary-IsPlain : (draft : Draft) → is_ordinary draft ≡ true → IsPlain draft
ordinary-IsPlain draft h =
    let (phase, rest) = and-eq-true (among open_phases draft.phase) _ h in
    let (visible, other) = and-eq-true (among visibilities draft.visibility) _ rest in
    let (in_phase, not_ended) =
      open_phase draft.phase ((among_iff open_phases draft.phase).0 phase) in
    let no_special : IsIn draft.event_type special_types → ⊥ = λ found.
      let is_special = (among_iff special_types draft.event_type).1 found in
      let clash = rw is_special at other in cc in
    let no_end : draft.event_type ≢ "run.terminal" = λ e. no_special (inr (inl e)) in
    record {
      proper = record {
        phase = in_phase;
        visibility = (among_iff visibilities draft.visibility).0 visible;
        compaction = λ expected e.
            absurd (no_special (compaction_phase_of-IsIn draft.event_type expected e));
        terminal = (λ e. absurd (no_end e), λ e. absurd (not_ended e));
        status = λ e. absurd (no_end e);
      };
      no_start = λ e. no_special (inl e);
      no_end = no_end;
      no_link = λ ends. elim ends [
        | inl e ↦ no_special (inr (inr (inr (inr (inl e)))))
        | inr e ↦ no_special (inr (inr (inr (inr (inr (inl e))))))
      ];
    }

status_known : (status : EventedRunStatus) → is_one_of statuses (evented_status_value status) ≡ true
unfolding is_one_of
status_known EventedRunStatus.completed = refl
status_known EventedRunStatus.abstained = refl
status_known EventedRunStatus.loop_policy_stop = refl
status_known EventedRunStatus.cancelled = refl
status_known EventedRunStatus.model_error = refl
status_known EventedRunStatus.protocol_error = refl
status_known EventedRunStatus.tool_error = refl
status_known EventedRunStatus.step_limit = refl
status_known EventedRunStatus.model_call_limit = refl
status_known EventedRunStatus.time_limit = refl
status_known EventedRunStatus.context_compaction_error = refl
status_known EventedRunStatus.context_overflow = refl

abbrev pub terminal_draft :
    EventedRunStatus → Option String → Option String → Option String → ℕ → ℕ → Draft
terminal_draft status output error cause steps model_calls =
    plain "run.terminal" "terminal" cause (terminal_payload status output error steps model_calls)

pub terminal_draft-IsProper :
    (status : EventedRunStatus) (output error cause : Option String) (steps model_calls : ℕ)
    → IsProper (terminal_draft status output error cause steps model_calls)
unfolding get compaction_phase_of
terminal_draft-IsProper status output error cause steps model_calls = record {
  phase = inr (inr (inr (inl refl)));
  visibility = inl refl;
  compaction = λ expected e. cc;
  terminal = (λ _. refl, λ _. refl);
  status = λ _. (
    evented_status_value status,
    refl,
    (is_one_of_iff statuses (evented_status_value status)).0 (status_known status),
  );
}

pub end_no_link :
    (status : EventedRunStatus) (output error cause : Option String) (steps model_calls : ℕ)
    → EndsCompaction (terminal_draft status output error cause steps model_calls)
    → ⊥
end_no_link status output error cause steps model_calls (inl e) = apart refl refl e
end_no_link status output error cause steps model_calls (inr e) = apart refl refl e
