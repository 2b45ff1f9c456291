-- ===== src/Campaign/Provided.antt =====
-- Proofs on `_append_unique`, and when lists of origins cover an attempt.
use text.Mathlib.TextPositions.{eq_refl}
use pan_agent.Base.{
  String, ◌≡◌, refl, Bool, true, false, ◌||◌, List, [], ◌∷◌, ◌++◌, arith, str_eq, any, All,
  Bool-cases, inl, inr, or-eq-false,
}
use pan_agent.Campaign.Types.{
  ComponentIdentity, component_eq, EvaluatorIdentity, evaluator_eq, CampaignAttempt,
  CampaignProvenance, RuntimeProvenance,
}
use pan_agent.Campaign.Origins.{
  append_unique, append_each, listed, report_provenance, report_evaluator, usage_source,
}

module _ {A : Type 0} (eq : A → A → Bool) where
  -- value in values
  abbrev pub Has : List A → A → Type 0
  Has values value = any (λ known. eq known value) values ≡ true

  -- No value equals a later one.
  abbrev pub Distinct : List A → Type 0
  Distinct [] = Unit {0}
  Distinct (value ∷ values) = (any (λ later. eq value later) values ≡ false) × Distinct values

  any-append_last :
      (test : A → Bool) (values : List A) (value : A)
      → any test (values ++ value ∷ []) ≡ (any test values || test value)
  any-append_last test [] value = ground arith
  any-append_last test (first ∷ values) value = ground (arith, any-append_last test values value)

  pub append_unique-keeps :
      (values : List A) (value w : A) → Has values w → Has (append_unique eq values value) w
  unfolding append_unique
  append_unique-keeps values value w has =
      elim (Bool-cases (any (λ known. eq known value) values)) [
        | inl old ↦ rw old has
        | inr new ↦ rw new (rw (any-append_last (λ known. eq known w) values value, has) refl)
      ]

  pub append_each-keeps :
      (new values : List A) (w : A) → Has values w → Has (append_each eq values new) w
  unfolding append_each
  append_each-keeps [] values w has = has
  append_each-keeps (value ∷ new) values w has =
      append_each-keeps new (append_unique eq values value) w
        (append_unique-keeps values value w has)

  pub Distinct-append_last :
      (values : List A) (value : A)
      → Distinct values
      → any (λ known. eq known value) values ≡ false
      → Distinct (values ++ value ∷ [])
  Distinct-append_last [] value distinct new = (refl, tt)
  Distinct-append_last (first ∷ values) value (apart, distinct) new =
      let (differs, rest) = or-eq-false (eq first value) _ new in
      (
        rw (any-append_last (λ later. eq first later) values value, apart, differs) refl,
        Distinct-append_last values value distinct rest,
      )

  pub Distinct-append_unique :
      (values : List A) (value : A) → Distinct values → Distinct (append_unique eq values value)
  unfolding append_unique
  Distinct-append_unique values value distinct =
      elim (Bool-cases (any (λ known. eq known value) values)) [
        | inl old ↦ rw old distinct
        | inr new ↦ rw new (Distinct-append_last values value distinct new)
      ]

  pub Distinct-append_each :
      (new values : List A) → Distinct values → Distinct (append_each eq values new)
  unfolding append_each
  Distinct-append_each [] values distinct = distinct
  Distinct-append_each (value ∷ new) values distinct =
      Distinct-append_each new (append_unique eq values value)
        (Distinct-append_unique values value distinct)

  module _ (reflexive : (value : A) → eq value value ≡ true) where
    pub append_unique-adds :
        (values : List A) (value : A) → Has (append_unique eq values value) value
    unfolding append_unique
    append_unique-adds values value = elim (Bool-cases (any (λ known. eq known value) values)) [
      | inl old ↦ rw old old
      | inr new ↦
          rw new
            (rw (any-append_last (λ known. eq known value) values value, new) (reflexive value))
    ]

    pub append_each-adds : (new values : List A) → All (Has (append_each eq values new)) new
    unfolding append_each
    append_each-adds [] values = tt
    append_each-adds (value ∷ new) values = (
      append_each-keeps new (append_unique eq values value) value (append_unique-adds values value),
      append_each-adds new (append_unique eq values value),
    )

pub component_eq_refl : (identity : ComponentIdentity) → component_eq identity identity ≡ true
unfolding component_eq
component_eq_refl identity =
    rw (eq_refl identity.role, eq_refl identity.implementation, eq_refl identity.content_hash) refl

pub evaluator_eq_refl : (identity : EvaluatorIdentity) → evaluator_eq identity identity ≡ true
unfolding evaluator_eq
evaluator_eq_refl identity =
    rw (eq_refl identity.evaluator_id, eq_refl identity.version, eq_refl identity.content_hash) refl

-- What the report of an attempt names stands in the lists.
pub record Names (origins : CampaignProvenance) (provenance : RuntimeProvenance) : Type 0 where
  pub configuration : Has str_eq origins.runtime_configurations provenance.configuration_digest
  pub runtime : Has component_eq origins.runtimes provenance.runtime
  pub model : Has component_eq origins.models provenance.model
  pub tools : All (Has component_eq origins.tools) provenance.tools
  pub workspace : All (Has component_eq origins.workspaces) (listed provenance.workspace)

pub record Covers {Request : Type 0} (origins : CampaignProvenance)
    (attempt : CampaignAttempt Request) : Type 0 where
  pub source : All (Has str_eq origins.pricing_sources) (listed (usage_source attempt.usage))
  pub provenance : All (Names origins) (listed (report_provenance attempt.report))
  pub evaluator :
      All (Has evaluator_eq origins.evaluators) (listed (report_evaluator attempt.report))

-- Everything in the first lists is in the second ones.
pub record IsBelow (less more : CampaignProvenance) : Type 0 where
  pub configurations :
      (v : String)
      → Has str_eq less.runtime_configurations v
      → Has str_eq more.runtime_configurations v
  pub runtimes :
      (v : ComponentIdentity) → Has component_eq less.runtimes v → Has component_eq more.runtimes v
  pub models :
      (v : ComponentIdentity) → Has component_eq less.models v → Has component_eq more.models v
  pub tools :
      (v : ComponentIdentity) → Has component_eq less.tools v → Has component_eq more.tools v
  pub workspaces :
      (v : ComponentIdentity)
      → Has component_eq less.workspaces v
      → Has component_eq more.workspaces v
  pub evaluators :
      (v : EvaluatorIdentity)
      → Has evaluator_eq less.evaluators v
      → Has evaluator_eq more.evaluators v
  pub sources : (v : String) → Has str_eq less.pricing_sources v → Has str_eq more.pricing_sources v

pub All-mono :
    {A : Type 0} (P Q : A → Type 0)
    → ((a : A) → P a → Q a)
    → (items : List A) → All P items
    → All Q items
All-mono P Q f [] all = tt
All-mono P Q f (item ∷ items) (first, rest) = (f item first, All-mono P Q f items rest)

pub Names-mono :
    {less more : CampaignProvenance}
    → IsBelow less more
    → (provenance : RuntimeProvenance) → Names less provenance
    → Names more provenance
Names-mono below provenance names = record {
  configuration = below.configurations _ names.configuration;
  runtime = below.runtimes _ names.runtime;
  model = below.models _ names.model;
  tools = All-mono _ _ below.tools provenance.tools names.tools;
  workspace = All-mono _ _ below.workspaces (listed provenance.workspace) names.workspace;
}
