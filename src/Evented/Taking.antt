-- ===== src/Evented/Taking.antt =====
-- workspace_agent_harness/evented.py: the tests of `AgentLoop.run` before a turn, and what it does
-- with what the gateway has returned.
use pan_agent.Base.{
  String, Bool, true, false, Option, none, some, List, [], ◌∷◌, ◌++◌, str_eq, if◌then◌else◌,
}
use pan_agent.Base.Int.{ℤ, pos, leb_ℤ, ◌-ℤ◌}
use pan_agent.Base.Json.{Json, null, int, str, Fields, dict, merge, get, text_or_null}
use pan_agent.Limits.{RunLimits}
use pan_agent.Loop.{Task}
use pan_agent.Evented.Types.{
  EventedRunStatus, FinalDisposition, Reasoning, Candidate, final, assistant_final,
  PreparedModelTurn, ExchangeSettled, Exchanged, settled,
}
use pan_agent.Evented.Machine.{
  Agent, Part, plain, pure, ◌>>=◌, ◌>>◌, the, update, call, emit, terminal, fail, check_signal,
}
use pan_agent.Evented.Admission.{
  disposition_value, candidate_kind, candidate_identity, candidate_material, candidate_call_id,
  admission_error,
}
use pan_agent.Evented.Exchange.{Attempt}
use pan_agent.Evented.Batch.{Place, at_place, take_calls}

-- EventedRunStatus(disposition.value)
abbrev pub disposition_status : FinalDisposition → EventedRunStatus
disposition_status FinalDisposition.completed = EventedRunStatus.completed
disposition_status FinalDisposition.abstained = EventedRunStatus.abstained

-- `self._loop_policy_id`
abbrev pub selected_policy : Option String → String
selected_policy none = "observation-feedback-v0"
selected_policy (some policy) = if str_eq policy "" then "observation-feedback-v0" else policy

-- d.get(key), as a value
abbrev get_or_null : String → Fields → Json
get_or_null key d = elim (get key d) [ none ↦ null | some found ↦ found ]

abbrev pub policy_items : Option String → List (String × Json)
policy_items none = []
policy_items (some policy) = ("loop_policy_id", str (selected_policy (some policy))) ∷ []

module _ {W : Type 0} (agent : Agent W) (run_id : String) (task : Task) (limits : RunLimits) where
  -- The first three tests of a turn.
  unfoldable pub check_budgets : ℤ → Part W (Unit {0})
  check_budgets started_at = do
    last_event ← the (λ s. s.last_event)
    check_signal agent run_id task.task_id last_event
    now ← call agent.monotonic
    model_calls ← the (λ s. s.model_calls)
    if leb_ℤ limits.timeout_seconds (now -ℤ started_at)
        then terminal agent run_id task.task_id EventedRunStatus.time_limit none
            (some "run timeout reached") last_event
        else if leb_ℤ limits.max_model_calls (pos model_calls)
        then terminal agent run_id task.task_id EventedRunStatus.model_call_limit none
            (some "maximum model call budget reached") last_event
        else pure tt

  -- An accepted final answer.
  unfoldable pub take_final :
      Place → String → FinalDisposition → Option String → Reasoning → String → Part W (Unit {0})
  take_final place content disposition reason_code reasoning accepted = do
    update
        (λ s. record s { conversation = s.conversation ++ assistant_final content reasoning ∷ [] })
    identity ← the (λ s. agent.history_identity s.conversation)
    event ← emit agent run_id (
        at_place place (
          plain "history.advanced" "accepted" (some accepted) (
            dict (
              ("message_type", str "assistant_final")
              ∷ ("content", str content)
              ∷ ("disposition", str (disposition_value disposition))
              ∷ ("reason_code", text_or_null reason_code)
              ∷ ("history_identity", str identity)
              ∷ []))))
    update (λ s. record s { last_event = some event })
    terminal agent run_id task.task_id (disposition_status disposition) (some content) none
        (some event)

  -- An accepted candidate; the "act-once" policy ends the run after one turn with calls.
  unfoldable pub take_candidate : Place → Candidate → String → Part W (Unit {0})
  take_candidate place (final content disposition reason_code reasoning) accepted =
      take_final place content disposition reason_code reasoning accepted
  take_candidate place candidate accepted = do
    take_calls agent run_id task.task_id limits place candidate accepted
    last_event ← the (λ s. s.last_event)
    if str_eq (selected_policy agent.loop_policy_id) "act-once-v0"
        then terminal agent run_id task.task_id EventedRunStatus.loop_policy_stop none
            (some "act-once Loop Policy stopped after one retained tool-call turn") last_event
        else pure tt

  -- What the tests on the candidate have found.
  unfoldable pub admit : Place → Candidate → String → Option String → Part W (Unit {0})
  admit place candidate cause (some message) = do
    rejected ← emit agent run_id (
        at_place place
          (plain "candidate.rejected" "failed" (some cause) (dict (("error", str message) ∷ []))))
    fail agent run_id task.task_id EventedRunStatus.protocol_error message rejected
  admit place candidate cause none = do
    accepted ←
        emit agent run_id
          (record (at_place place
            (plain "candidate.accepted" "accepted" (some cause) (candidate_material candidate))) {
              tool_call_id = candidate_call_id candidate;
            })
    take_candidate place candidate accepted

  -- "context.overflow_retry_succeeded", if the exchange was a retry.
  unfoldable pub note_retry : ExchangeSettled → PreparedModelTurn → Bool → String → Part W String
  note_retry answer prepared false cause = pure cause
  note_retry answer prepared true cause =
      emit agent run_id
        (record (plain "context.overflow_retry_succeeded" "accepted" (some cause) (
          dict (
            ("exchange_attempt", int (pos prepared.exchange_attempt))
            ∷ ("retry_of_exchange_id", text_or_null prepared.retry_of_exchange_id)
            ∷ ("response_identity", get_or_null "response_identity" answer.evidence)
            ∷ []))) { turn_id = some prepared.turn_id; exchange_id = some answer.exchange_id })

  -- A settled exchange.
  unfoldable pub take_settled : ExchangeSettled → Attempt → Bool → Part W (Unit {0})
  take_settled answer made is_retry = do
    let candidate_id = candidate_identity agent.sha256_json answer.candidate
    let place : Place = record {
      turn_id = made.prepared.turn_id;
      exchange_id = answer.exchange_id;
      candidate_id = candidate_id;
    }
    event ← emit agent run_id (
        at_place place (
          plain "model.exchange_settled" "candidate" (some made.exchange_started) (
            merge
              (dict (
                ("exchange_attempt", int (pos made.prepared.exchange_attempt))
                ∷ ("retry_of_exchange_id", text_or_null made.prepared.retry_of_exchange_id)
                ∷ ("candidate_kind", str (candidate_kind answer.candidate))
                ∷ ("stop_reason", str answer.stop_reason)
                ∷ []))
              answer.evidence)))
    cause ← note_retry answer made.prepared is_retry event
    used ← the (λ s. s.used_call_ids)
    error ← admission_error agent answer.candidate used
    admit place answer.candidate cause error

  -- What the gateway has returned in the end; an `ExchangeFailed` has ended the run before.
  unfoldable pub take_exchange : Exchanged → Attempt → Bool → Part W (Unit {0})
  take_exchange (settled answer) made is_retry = take_settled answer made is_retry
  take_exchange _ made is_retry = do
    event ←
        emit agent run_id
          (record (plain "model.exchange_failed" "failed" (some made.exchange_started) (
            dict (
              ("error", str "gateway did not return ExchangeSettled or ExchangeFailed")
              ∷ ("exchange_attempt", int (pos made.prepared.exchange_attempt))
              ∷ []))) { turn_id = some made.prepared.turn_id })
    fail agent run_id task.task_id EventedRunStatus.model_error
        "gateway did not return ExchangeSettled or ExchangeFailed" event
