-- ===== src/Runtime/Examples.antt =====
-- A runtime with one pack, its host and a request, for the tests.
use pan_agent.Base.{
  ℕ, suc, String, Bool, true, false, Option, none, some, List, [], ◌∷◌, ◌++◌, length,
}
use pan_agent.Base.Int.{pos}
use pan_agent.Base.Result.{ok, err}
use pan_agent.Base.Text.{Text, codes}
use pan_agent.Base.Json.{Json, str, obj, arr, nil, cons, end, field}
use pan_agent.Limits.{RunLimits}
use pan_agent.Loop.{observed}
use pan_agent.Snapshots.{Kind, regular_file}
use pan_agent.Campaign.Types.{ComponentIdentity, EvaluatorIdentity, PackSelector, RuntimeProvenance}
use pan_agent.Runtime.{Outcome}
use pan_agent.Runtime.Types.{
  PackManifest, DomainRunSpec, RunRequest, report_passed, EvaluationVerdict, EvaluationStatus,
}
use pan_agent.Runtime.Evaluator.{returned, poll_of, evaluator_process_entry, EvaluatorOutcome}
use pan_agent.Runtime.Hosting.{Host, Runtime}

abbrev component : String → ComponentIdentity
component role = record { role = role; implementation = "demo"; content_hash = "sha256:1" }

abbrev pub provenance : RuntimeProvenance
provenance = record {
  runtime = component "runtime";
  configuration_digest = "sha256:2";
  model = component "model";
  tools = [];
  workspace = none;
  registered_packs = [];
  evaluators = [];
  protected_roots = [];
}

abbrev evaluator : EvaluatorIdentity
evaluator = record { evaluator_id = "exact"; version = "1"; content_hash = "sha256:3" }

abbrev selector : PackSelector
selector = record { pack_id = "demo"; version = "1"; content_hash = "sha256:4" }

abbrev pub schema : Json
schema = obj (field "type" (str "object") (field "required" (arr (cons (str "question") nil)) end))

abbrev manifest : PackManifest
manifest = record {
  interface_version = pos 1;
  identity = selector;
  task_schema = schema;
  required_runtime_features = [];
  requested_capabilities = [];
  authority_ceiling = [];
  evaluator = evaluator;
}

abbrev spec : DomainRunSpec
spec = record {
  task_id = "t1";
  prompt = "6 * 7?";
  agent_capabilities = [];
  has_visible_inputs = false;
  fixture = record { fixture_id = "none"; content_hash = "sha256:5" };
  evaluator = evaluator;
  authority_request = [];
  limit_defaults = none;
}

abbrev limits : RunLimits
limits = record { max_steps = pos 3; max_model_calls = pos 4; timeout_seconds = pos 100 }

abbrev pub runtime : Runtime String
runtime = record {
  config = record {
    interface_version = pos 1;
    trace_schema_version = pos 2;
    default = limits;
    hard = limits;
    evaluator_limits = record { timeout_seconds = pos 5; max_output_bytes = pos 100 };
    control_root = codes "c" ∷ [];
    workspace_root = codes "w" ∷ [];
  };
  authority_ceiling = [];
  packs =
      record { manifest = manifest; manifest_digest = "sha256:6"; compile_task = λ task. ok spec }
      ∷ [];
  provenance = provenance;
  capabilities = λ id. none;
}

abbrev pub judgement : EvaluationVerdict
judgement = record { is_passed = true; checks = []; measurements = end }

abbrev final_answer : Json
final_answer = obj (field "type" (str "final") (field "output" (str "42") end))

abbrev pub host_with : List (Text × Kind) → EvaluatorOutcome → Host ℕ String
host_with entries outcome = record {
  adapters = λ world. record { model = component "model"; tools = []; workspace = none };
  pack_state = λ pack world. record {
    same_manifest = true;
    manifest_digest = "sha256:6";
    same_bindings = true;
    content_hash = "sha256:4";
  };
  tool_name = λ tool. some tool;
  delegate = λ tool arguments world. (observed "done", world);
  monotonic = λ world. (pos world, suc world);
  respond = λ context world. (ok "answer", world);
  loads = λ raw. some final_answer;
  repr = λ value. "?";
  uuid = λ world. ("0f", world);
  resolve = λ path. path;
  stage = none;
  entries = λ directory world. entries;
  evaluate =
      λ evidence world. (poll_of (evaluator_process_entry (λ v. 7) (pos 100) outcome), world);
  fork_supported = true;
  verdict_size = λ v. 7;
  hexdigest = λ input. "00";
  encode = λ t. t;
  directory = λ root id. root ++ codes id ∷ [];
  denial_text = λ reason. "denied";
  file_error_text = λ reason. "not frozen";
}

abbrev pub host : Host ℕ String
host = host_with ((codes "out.txt", regular_file (4 ∷ 2 ∷ [])) ∷ []) (returned judgement)

abbrev pub request : RunRequest
request = record {
  pack = selector;
  task = obj (field "question" (str "6 * 7?") end);
  authority = [];
  limits = record { max_steps = none; max_model_calls = some (pos 2); timeout_seconds = none };
}

-- Whether the report has passed, the status of its evaluation, and the length of the trace
abbrev pub summary : Option (Outcome ℕ) → Option (Bool × EvaluationStatus × ℕ)
summary none = none
summary (some outcome) = elim (outcome.result) [
  | err reason ↦ none
  | ok report ↦ some (report_passed report, report.evaluation.status, length outcome.trace)
]
