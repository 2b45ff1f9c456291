-- ===== src/Evented/Examples.antt =====
-- An agent with one tool, and what its gateway answers, for the tests.
use pan_agent.Base.{
  ℕ, zero, suc, String, false, Option, none, some, List, [], ◌∷◌, ◌==◌, length, if◌then◌else◌,
}
use pan_agent.Base.Int.{pos, pos_part}
use pan_agent.Base.Json.{str, end, field}
use pan_agent.Limits.{RunLimits}
use pan_agent.Loop.{Task}
use pan_agent.Evented.Types.{
  EventedRunStatus, FinalDisposition, Reasoning, Candidate, tool_call, final, ModelContext,
  projected, Projected, PreparedModelTurn, Exchanged, settled, failed, ProviderFailureKind,
  observed, ended, observes, EventTool,
}
use pan_agent.Evented.Machine.{Agent}
use pan_agent.Evented.{RunEnd, result}

abbrev pub no_reasoning : Reasoning
no_reasoning = record { reasoning = none; provider_metadata = [] }

abbrev pub echo : EventTool ℕ
echo = record {
  definition = record {
    name = "echo";
    description = "Return the text.";
    argument_name = "text";
    argument_description = "The text.";
  };
  validate = λ arguments n. (none, n);
  execute = λ arguments n.
      observes
        (record {
          event_type = "tool.noted";
          phase = "accepted";
          payload = end;
          visibility = "public";
        })
        (suc n) (λ refused n'. ended (observed "hello" [] []) n');
}

abbrev pub context : ModelContext
context = record {
  identity = "context";
  semantic_identity = "semantic";
  schema_version = "model-context/v1";
  summary = none;
  context_policy_identity = "exact";
  input_estimate_tokens = pos 9;
  context_window_tokens = none;
  context_window_provenance = "unknown";
  context_window_source = "not supplied";
  context_window_confidence = "unknown";
}

abbrev answer : Candidate → Exchanged
answer candidate =
    settled (record {
      exchange_id = "x";
      candidate = candidate;
      stop_reason = "completed";
      evidence = end;
    })

abbrev overflow : Exchanged
overflow = failed (record {
  exchange_id = "x0";
  failure = record {
    kind = ProviderFailureKind.context_overflow;
    code = "too_long";
    message = "too long";
  };
  evidence = end;
})

-- The first exchange fails by an overflow, the retry calls the tool, the next turn answers.
abbrev exchange : PreparedModelTurn → ℕ → Exchanged × ℕ
exchange prepared n = (
  if prepared.exchange_attempt == 2
      then answer (
          tool_call
            (record {
              call_id = "1";
              tool_name = "echo";
              arguments = field "text" (str "hello") end;
            })
            no_reasoning)
      else if n == 0
      then overflow
      else answer (final "done" FinalDisposition.completed none no_reasoning),
  suc n,
)

-- Each event has a digest of its own, as far as the runs below go.
abbrev names : List String
names =
    "a" ∷ "b" ∷ "c" ∷ "d" ∷ "e" ∷ "f" ∷ "g" ∷ "h" ∷ "i" ∷ "j" ∷ "k" ∷ "l" ∷ "m" ∷ "n" ∷ "o" ∷ "p"
    ∷ "q" ∷ "r" ∷ "s" ∷ "t" ∷ "u" ∷ "v" ∷ "w" ∷ "x" ∷ "y" ∷ "z" ∷ []

abbrev nth : ℕ → List String → String
nth n [] = "more"
nth zero (first ∷ rest) = first
nth (suc n) (first ∷ rest) = nth n rest

abbrev pub agent : Agent ℕ
agent = record {
  monotonic = λ n. (pos 0, n);
  monotonic_ns = λ n. (pos n, n);
  is_set = λ n. (false, n);
  set = λ n. n;
  project = λ request n. (Projected.returned (projected [] context), n);
  exchange = exchange;
  tools = echo ∷ [];
  agent_id = "agent";
  system_policy_identity = "policy";
  loop_policy_id = none;
  digest = λ material. nth (pos_part material.sequence) names;
  sha256_json = λ fields. "candidate";
  history_identity = λ messages. "history";
  turn_identity = λ prepared. "turn";
  show = λ n. "n";
  is_blank = λ prompt. false;
  repr = λ text. text;
}

abbrev pub task : Task
task = record { task_id = "t"; prompt = "Say hello." }

abbrev pub limits : RunLimits
limits = record { max_steps = pos 2; max_model_calls = pos 3; timeout_seconds = pos 60 }

-- The status, the steps, the model calls and the number of events.
abbrev pub summary : Option (RunEnd ℕ) → Option (EventedRunStatus × ℕ × ℕ × ℕ)
summary (some (result r s)) = some (r.status, r.steps, r.model_calls, length s.event_log.events)
summary _ = none
