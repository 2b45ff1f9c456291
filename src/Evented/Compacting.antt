-- ===== src/Evented/Compacting.antt =====
-- Lemmas on the events of a compaction that `AgentLoop.run` writes itself.
use pan_agent.Base.{
  some-injective, ◌≡◌, ◌≢◌, str_eq, refl, sym, ◌∙◌, String, false, some, List, ◌∷◌, inl, inr,
}
use pan_agent.Base.Iff.{differ}
use pan_agent.Base.Json.{Fields}
use pan_agent.EventLog.Drafts.{Draft, compaction_phase_of}
use pan_agent.EventLog.Journal.{IsIn, IsProper, EndsCompaction, phases}
use pan_agent.Evented.Machine.{
  Agent, RunState, Exit, value, returned, raised, key_error, Part, plain, and_then, ◌>>=◌, emit,
}
use pan_agent.Evented.Serves.{entries_of, IsLive, Served, Served-later}
use pan_agent.Evented.Emits.{Emitted, later_ids}

-- An event of a compaction that `run` writes itself
abbrev pub compaction_draft : String → String → String → String → String → Fields → Draft
compaction_draft event_type phase cause turn_id compaction_id payload =
    record (plain event_type phase (some cause) payload) {
      turn_id = some turn_id;
      compaction_id = some compaction_id;
    }

pub start_no_end :
    (draft : Draft) → draft.event_type ≡ "context.compaction_started" → EndsCompaction draft → ⊥
start_no_end draft start (inl e) = differ _ _ refl (sym start ∙ e)
start_no_end draft start (inr e) = differ _ _ refl (sym start ∙ e)

pub compaction_draft-IsProper :
    (event_type phase cause turn_id compaction_id : String) (payload : Fields)
    → compaction_id ≢ ""
    → IsIn phase phases
    → compaction_phase_of event_type ≡ some phase
    → str_eq event_type "run.terminal" ≡ false
    → str_eq phase "terminal" ≡ false
    → IsProper (compaction_draft event_type phase cause turn_id compaction_id payload)
compaction_draft-IsProper event_type phase cause turn_id compaction_id payload full known same
      no_end not_ended =
    record {
      phase = known;
      visibility = inl refl;
      compaction = λ expected e. (compaction_id, refl, full, some-injective _ _ (sym same ∙ e));
      terminal = (
        λ e. absurd (differ event_type "run.terminal" no_end e),
        λ e. absurd (differ phase "terminal" not_ended e),
      );
      status = λ e. absurd (differ event_type "run.terminal" no_end e);
    }

module _ {W : Type 0} (agent : Agent W) (run_id : String) where
  after_write :
      {B : Type 0} (draft : Draft) (k : String → Part W B) (names : B → List String)
      (s : RunState W) (exit : Exit W String)
      → Emitted agent run_id draft s exit
      → ((id : String) (s' : RunState W)
          → IsLive run_id s'
          → entries_of s' ≡ (id, draft) ∷ entries_of s
          → Served run_id names s' (k id s'))
      → Served run_id names s (and_then exit k)
  after_write draft k names s (value id s') written rest =
      Served-later run_id names s s' (k id s') (later_ids agent run_id s s' id draft written.1).0
        (rest id s' written.0 written.1)
  after_write draft k names s (returned result s') written rest = absurd written
  after_write draft k names s (raised e s') written rest = absurd written
  after_write draft k names s (key_error s') written rest = absurd written

  -- What follows a written event may go by the entries.
  pub write_first :
      {B : Type 0} (draft : Draft) (k : String → Part W B) (names : B → List String)
      (s : RunState W)
      → Emitted agent run_id draft s (emit agent run_id draft s)
      → ((id : String) (s' : RunState W)
          → IsLive run_id s'
          → entries_of s' ≡ (id, draft) ∷ entries_of s
          → Served run_id names s' (k id s'))
      → Served run_id names s ((emit agent run_id draft >>= k) s)
  unfolding ◌>>=◌
  write_first draft k names s written rest =
      after_write draft k names s (emit agent run_id draft s) written rest
