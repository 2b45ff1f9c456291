-- ===== src/Campaign/Origins.antt =====
-- workspace_agent_harness/__init__.py: `_append_unique` and `_campaign_provenance`.
use pan_agent.Base.{
  String, Bool, Option, none, some, List, [], ◌∷◌, ◌++◌, str_eq, if◌then◌else◌, any,
}
use pan_agent.Campaign.Types.{
  EvaluatorIdentity, component_eq, evaluator_eq, RuntimeProvenance, RunUsage, Report,
  CampaignAttempt, CampaignProvenance,
}

unfoldable pub append_unique : {A : Type 0} → (A → A → Bool) → List A → A → List A
append_unique eq values value =
    if any (λ known. eq known value) values then values else values ++ value ∷ []

-- for value in new: _append_unique(values, value)
unfoldable pub append_each : {A : Type 0} → (A → A → Bool) → List A → List A → List A
append_each eq values [] = values
append_each eq values (value ∷ new) = append_each eq (append_unique eq values value) new

-- [] if value is None else [value]
abbrev pub listed : {A : Type 0} → Option A → List A
listed none = []
listed (some value) = value ∷ []

-- The lists before the loop
unfoldable pub baseline_origins : RuntimeProvenance → CampaignProvenance
baseline_origins baseline = record {
  runtime_configurations = baseline.configuration_digest ∷ [];
  runtimes = baseline.runtime ∷ [];
  models = baseline.model ∷ [];
  tools = baseline.tools;
  workspaces = listed baseline.workspace;
  evaluators = baseline.evaluators;
  pricing_sources = [];
}

-- getattr(getattr(attempt, ...), ..., None), where an attempt without a report has no attributes
abbrev pub report_provenance : Option Report → Option RuntimeProvenance
report_provenance none = none
report_provenance (some report) = report.provenance

abbrev pub report_evaluator : Option Report → Option EvaluatorIdentity
report_evaluator none = none
report_evaluator (some report) = report.evaluator

abbrev pub usage_source : Option RunUsage → Option String
usage_source none = none
usage_source (some usage) = usage.cost_source

-- if isinstance(provenance, RuntimeProvenance): ...
unfoldable pub add_provenance : Option RuntimeProvenance → CampaignProvenance → CampaignProvenance
add_provenance none origins = origins
add_provenance (some provenance) origins = record origins {
  runtime_configurations =
      append_unique str_eq origins.runtime_configurations provenance.configuration_digest;
  runtimes = append_unique component_eq origins.runtimes provenance.runtime;
  models = append_unique component_eq origins.models provenance.model;
  tools = append_each component_eq origins.tools provenance.tools;
  workspaces = append_each component_eq origins.workspaces (listed provenance.workspace);
}

-- if cost_source is not None: _append_unique(pricing_sources, cost_source)
unfoldable pub add_source : Option String → CampaignProvenance → CampaignProvenance
add_source source origins = record origins {
  pricing_sources = append_each str_eq origins.pricing_sources (listed source);
}

-- if isinstance(evaluator, EvaluatorIdentity): _append_unique(evaluators, evaluator)
unfoldable pub add_evaluator : Option EvaluatorIdentity → CampaignProvenance → CampaignProvenance
add_evaluator evaluator origins = record origins {
  evaluators = append_each evaluator_eq origins.evaluators (listed evaluator);
}

-- The body of the loop over the attempts
unfoldable pub add_attempt :
    {Request : Type 0} → CampaignProvenance → CampaignAttempt Request → CampaignProvenance
add_attempt origins attempt = add_evaluator (report_evaluator attempt.report) (
    add_provenance (report_provenance attempt.report)
      (add_source (usage_source attempt.usage) origins))

unfoldable pub add_attempts :
    {Request : Type 0} → CampaignProvenance → List (CampaignAttempt Request) → CampaignProvenance
add_attempts origins [] = origins
add_attempts origins (attempt ∷ attempts) = add_attempts (add_attempt origins attempt) attempts

unfoldable pub campaign_provenance :
    {Request : Type 0} → List (CampaignAttempt Request) → RuntimeProvenance → CampaignProvenance
campaign_provenance attempts baseline = add_attempts (baseline_origins baseline) attempts
