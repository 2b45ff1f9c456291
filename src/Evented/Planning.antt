-- ===== src/Evented/Planning.antt =====
-- Lemmas on the events of a compaction that `AgentLoop.run` writes, its own and those of a plan.
use mathlib.Core.Path.{subst}
use pan_agent.Base.{
  ◌≡◌, ◌≢◌, refl, sym, ◌∙◌, ap, String, Option, none, some, List, [], ◌∷◌, inl, inr,
}
use pan_agent.Base.Iff.{differ}
use pan_agent.Base.Json.{Fields}
use pan_agent.EventLog.Drafts.{compaction_phase_of}
use pan_agent.EventLog.Journal.{IsIn, Entries, IsLinkedTo}
use pan_agent.Evented.Types.{PlannedEvent, projected, refused, Projected, unavailable}
use pan_agent.Evented.Machine.{Agent, RunState, Part, ◌>>=◌, emit}
use pan_agent.Evented.Turn.{Overflow, projection_failed, emit_planned, settle_projection}
use pan_agent.Evented.Tame.{planned_draft, StartsIt, ArePlanned, IsPlan}
use pan_agent.Evented.Serves.{
  entries_of, ids_of, itself, second, IsLive, Served, Serves, one_known, join_known, pure-Serves,
}
use pan_agent.Evented.Steps.{the-Serves}
use pan_agent.Evented.Emits.{emit-Emitted, live-Admits, later_ids, serves_rules}
use pan_agent.Evented.Serving.{exhausted-Serves}
use pan_agent.Evented.Compacting.{
  compaction_draft, start_no_end, compaction_draft-IsProper, write_first,
}

module _ {W : Type 0} (agent : Agent W) (run_id : String) where
  -- The newest entry is the planned event, under the id.
  abbrev Stands : String → String → Option PlannedEvent → Entries → Type 0
  Stands turn_id id none entries = Unit
  Stands turn_id id (some planned) [] = ⊥
  Stands turn_id id (some planned) (newest ∷ older) =
      (newest.0 ≡ id)
      × ((newest.1.event_type ≡ planned.event_type)
          × (newest.1.compaction_id ≡ planned.compaction_id))

  Stands-IsLinkedTo :
      (turn_id cause : String) (before : Option PlannedEvent) (planned : PlannedEvent)
      (entries : Entries)
      → Stands turn_id cause before entries
      → StartsIt before planned
      → IsLinkedTo entries (planned_draft turn_id cause planned)
  Stands-IsLinkedTo turn_id cause none planned entries stands starts = absurd starts
  Stands-IsLinkedTo turn_id cause (some start) planned [] stands starts = absurd stands
  Stands-IsLinkedTo turn_id cause (some start) planned (newest ∷ older) stands starts =
      (stands.1.0 ∙ starts.0, (stands.1.1 ∙ starts.1, ap some (sym stands.0)))

module _ {W : Type 0} (agent : Agent W) (run_id task_id : String) where
  emit_planned-Served :
      (turn_id : String) (events : List PlannedEvent) (cause : String)
      (before : Option PlannedEvent) (s : RunState W)
      → IsLive run_id s
      → IsIn cause (ids_of s)
      → Stands agent run_id turn_id cause before (entries_of s)
      → ArePlanned before events
      → Served run_id itself s (emit_planned agent run_id task_id turn_id events cause s)
  unfolding emit_planned
  emit_planned-Served turn_id [] cause before s live caused stands plan =
      (pure-Serves run_id {known = itself cause} {names = itself} cause (inl refl, tt)).served s
        live (one_known run_id cause s caused)
  emit_planned-Served turn_id (planned ∷ events) cause before s live caused stands plan =
      let draft = planned_draft turn_id cause planned in
      write_first agent run_id draft _ itself s
        (emit-Emitted agent run_id draft s
          (live-Admits agent run_id draft s live (plan.0.proper turn_id cause)
            (λ ends.
              Stands-IsLinkedTo agent run_id turn_id cause before planned (entries_of s) stands
                (plan.0.linked turn_id cause ends))
            plan.0.no_start caused)
          plan.0.no_end live)
        (λ id s' live' grown.
          emit_planned-Served turn_id events id (some planned) s' live'
            ((later_ids agent run_id s s' id draft grown).1 id (inl refl))
            (subst (Stands agent run_id turn_id id (some planned)) (sym grown) (refl, (refl, refl)))
            plan.1)

  pub emit_planned-Serves :
      {known : List String} (turn_id : String) (events : List PlannedEvent) (cause : String)
      → ArePlanned none events
      → IsIn cause known
      → Serves run_id known itself (emit_planned agent run_id task_id turn_id events cause)
  emit_planned-Serves turn_id events cause plan caused = record {
    served = λ s live knows.
        emit_planned-Served turn_id events cause none s live (knows cause caused) tt plan;
  }

  -- The start of a compaction and its failure, with one id that is not empty
  compaction-Serves :
      {A : Type 0} {known : List String} {names : A → List String} (turn_id compaction_id : String)
      (cause : String) (started failed : Fields) (k : String → Part W A)
      → compaction_id ≢ ""
      → IsIn cause known
      → ((id : String) → Serves run_id (id ∷ known) names (k id))
      → Serves run_id known names (
          emit agent run_id (
            compaction_draft "context.compaction_started" "candidate" cause turn_id compaction_id
              started)
          >>= λ start.
              emit agent run_id (
                compaction_draft "context.compaction_failed" "failed" start turn_id compaction_id
                  failed)
              >>= k)
  unfolding compaction_phase_of
  compaction-Serves {known = known} {names = names} turn_id compaction_id cause started failed k
        full caused rest =
      record {
        served = λ s live knows.
            let draft =
              compaction_draft "context.compaction_started" "candidate" cause turn_id compaction_id
                started in
            write_first agent run_id draft _ names s
              (emit-Emitted agent run_id draft s
                (live-Admits agent run_id draft s live
                  (compaction_draft-IsProper "context.compaction_started" "candidate" cause turn_id
                    compaction_id started full (inl refl) refl refl refl)
                  (λ ends. absurd (start_no_end draft refl ends))
                  (differ draft.event_type "run.started" refl) (knows cause caused))
                (differ draft.event_type "run.terminal" refl) live)
              (λ start s' live' grown.
                let draft' =
                  compaction_draft "context.compaction_failed" "failed" start turn_id compaction_id
                    failed in
                let (kept, named) = later_ids agent run_id s s' start draft grown in
                write_first agent run_id draft' k names s'
                  (emit-Emitted agent run_id draft' s'
                    (live-Admits agent run_id draft' s' live'
                      (compaction_draft-IsProper "context.compaction_failed" "failed" start turn_id
                        compaction_id failed full (inr (inr (inl refl))) refl refl refl)
                      (λ _. subst (λ es. IsLinkedTo es draft') (sym grown) (refl, (refl, refl)))
                      (differ draft'.event_type "run.started" refl) (named start (inl refl)))
                    (differ draft'.event_type "run.terminal" refl) live')
                  (λ id s'' live'' grown'.
                    let (kept', named') = later_ids agent run_id s' s'' id draft' grown' in
                    (rest id).served s'' live'' (
                      join_known run_id (id ∷ []) known s'' named'
                        (λ other found. kept' other (kept other (knows other found))))));
      }

  pub projection_failed-Serves :
      {A : Type 0} {known : List String} {names : A → List String} (turn_id : String)
      (overflow : Option Overflow) (cause message : String)
      → ((material : Fields) → agent.sha256_json material ≢ "")
      → IsIn cause known
      → Serves run_id known names
          (projection_failed agent run_id task_id turn_id overflow cause message)
  unfolding projection_failed
  projection_failed-Serves turn_id overflow cause message full caused =
      the-Serves run_id _ _
        (λ s. compaction-Serves turn_id _ cause _ _ _ (full _) caused (λ id. search serves_rules))

  pub settle_projection-Serves :
      {known : List String} (turn_id : String) (overflow : Option Overflow) (started : String)
      (outcome : Projected)
      → ((material : Fields) → agent.sha256_json material ≢ "")
      → IsPlan outcome
      → IsIn started known
      → Serves run_id known second
          (settle_projection agent run_id task_id turn_id overflow started outcome)
  unfolding settle_projection
  settle_projection-Serves turn_id overflow started (Projected.returned (projected events context))
        full plan caused =
      search (serves_rules, emit_planned-Serves)
  settle_projection-Serves turn_id overflow started (Projected.returned (refused events message))
        full plan caused =
      search (serves_rules, emit_planned-Serves)
  settle_projection-Serves turn_id overflow started (Projected.raised message) full plan caused =
      search (projection_failed-Serves)
  settle_projection-Serves turn_id none started (unavailable message) full plan caused =
      search (projection_failed-Serves)
  settle_projection-Serves turn_id (some overflow) started (unavailable message) full plan caused =
      search exhausted-Serves
