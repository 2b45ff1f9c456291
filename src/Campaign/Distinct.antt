-- ===== src/Campaign/Distinct.antt =====
-- Proofs on `_campaign_provenance`: repetitions in its lists.
use pan_agent.Base.{String, refl, Option, none, some, List, [], ◌∷◌, str_eq}
use pan_agent.Campaign.Types.{
  ComponentIdentity, EvaluatorIdentity, component_eq, evaluator_eq, CampaignAttempt,
  CampaignProvenance, RuntimeProvenance,
}
use pan_agent.Campaign.Origins.{
  listed, baseline_origins, report_provenance, report_evaluator, usage_source, add_provenance,
  add_attempt, add_attempts, add_source, add_evaluator,
}
use pan_agent.Campaign.Provided.{Distinct, Distinct-append_unique, Distinct-append_each}

Distinct-listed : (value : Option ComponentIdentity) → Distinct component_eq (listed value)
Distinct-listed none = tt
Distinct-listed (some value) = (refl, tt)

-- No list names a value twice.
pub record IsDistinct (origins : CampaignProvenance) : Type 0 where
  pub configurations : Distinct str_eq origins.runtime_configurations
  pub runtimes : Distinct component_eq origins.runtimes
  pub models : Distinct component_eq origins.models
  pub tools : Distinct component_eq origins.tools
  pub workspaces : Distinct component_eq origins.workspaces
  pub evaluators : Distinct evaluator_eq origins.evaluators
  pub sources : Distinct str_eq origins.pricing_sources

add_source-IsDistinct :
    (source : Option String) (origins : CampaignProvenance)
    → IsDistinct origins
    → IsDistinct (add_source source origins)
unfolding add_source
add_source-IsDistinct source origins distinct = record {
  configurations = distinct.configurations;
  runtimes = distinct.runtimes;
  models = distinct.models;
  tools = distinct.tools;
  workspaces = distinct.workspaces;
  evaluators = distinct.evaluators;
  sources = Distinct-append_each str_eq (listed source) origins.pricing_sources distinct.sources;
}

add_evaluator-IsDistinct :
    (evaluator : Option EvaluatorIdentity) (origins : CampaignProvenance)
    → IsDistinct origins
    → IsDistinct (add_evaluator evaluator origins)
unfolding add_evaluator
add_evaluator-IsDistinct evaluator origins distinct = record {
  configurations = distinct.configurations;
  runtimes = distinct.runtimes;
  models = distinct.models;
  tools = distinct.tools;
  workspaces = distinct.workspaces;
  evaluators =
      Distinct-append_each evaluator_eq (listed evaluator) origins.evaluators distinct.evaluators;
  sources = distinct.sources;
}

add_provenance-IsDistinct :
    (provenance : Option RuntimeProvenance) (origins : CampaignProvenance)
    → IsDistinct origins
    → IsDistinct (add_provenance provenance origins)
unfolding add_provenance
add_provenance-IsDistinct none origins distinct = distinct
add_provenance-IsDistinct (some provenance) origins distinct = record {
  configurations =
      Distinct-append_unique str_eq origins.runtime_configurations _ distinct.configurations;
  runtimes = Distinct-append_unique component_eq origins.runtimes _ distinct.runtimes;
  models = Distinct-append_unique component_eq origins.models _ distinct.models;
  tools = Distinct-append_each component_eq provenance.tools origins.tools distinct.tools;
  workspaces =
      Distinct-append_each component_eq (listed provenance.workspace) origins.workspaces
        distinct.workspaces;
  evaluators = distinct.evaluators;
  sources = distinct.sources;
}

module _ {Request : Type 0} where
  pub add_attempts-IsDistinct :
      (attempts : List (CampaignAttempt Request)) (origins : CampaignProvenance)
      → IsDistinct origins
      → IsDistinct (add_attempts origins attempts)
  unfolding add_attempts add_attempt
  add_attempts-IsDistinct [] origins distinct = distinct
  add_attempts-IsDistinct (attempt ∷ attempts) origins distinct =
      add_attempts-IsDistinct attempts (add_attempt origins attempt) (
        add_evaluator-IsDistinct (report_evaluator attempt.report) _ (
          add_provenance-IsDistinct (report_provenance attempt.report) _
            (add_source-IsDistinct (usage_source attempt.usage) origins distinct)))

-- What the runtime declares itself
pub baseline-IsDistinct :
    (baseline : RuntimeProvenance)
    → Distinct component_eq baseline.tools
    → Distinct evaluator_eq baseline.evaluators
    → IsDistinct (baseline_origins baseline)
unfolding baseline_origins
baseline-IsDistinct baseline tools evaluators = record {
  configurations = (refl, tt);
  runtimes = (refl, tt);
  models = (refl, tt);
  tools = tools;
  workspaces = Distinct-listed baseline.workspace;
  evaluators = evaluators;
  sources = tt;
}
