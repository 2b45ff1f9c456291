-- ===== src/Runtime/Checks.antt =====
-- workspace_agent_harness/__init__.py: what the runtime tests before a run: `_validate_compiled_spec`,
-- `_validate_task_schema`, `_revalidate_runtime_adapters` and `_revalidate_registered_pack`. The
-- identities and digests that are computed anew are arguments.
use pan_agent.Base.{
  String, Bool, true, false, not, ◌&&◌, Option, none, some, List, [], ◌∷◌, map, str_eq, any, all,
  keep,
}
use pan_agent.Base.Result.{Result, err, ◌>>◌, raise_if}
use pan_agent.Base.Json.{
  Json, null, bool, int, whole, real, str, arr, obj, Items, nil, cons, Fields, get, equals_text,
}
use pan_agent.Authority.{CapabilityRequirement, requirement_id}
use pan_agent.Campaign.Types.{ComponentIdentity, component_eq, evaluator_eq, RuntimeProvenance}
use pan_agent.Runtime.Types.{
  PackManifest, DomainRunSpec, RuntimeError, adapters_drifted, pack_drifted, bad_schema,
  task_not_object, missing_fields, evaluator_mismatch, undeclared_capability, undeclared_projection,
}

-- name in names
abbrev pub is_among : List String → String → Bool
is_among names name = any (λ known. str_eq known name) names

-- set(names).issubset(others)
unfoldable pub is_subset : List String → List String → Bool
is_subset names others = all (is_among others) names

abbrev pub ids : List CapabilityRequirement → List String
ids = map requirement_id

unfoldable pub validate_compiled_spec :
    DomainRunSpec → PackManifest → Result RuntimeError (Unit {0})
validate_compiled_spec spec manifest = do
  raise_if (not (evaluator_eq spec.evaluator manifest.evaluator)) evaluator_mismatch
  raise_if (not (is_subset (ids spec.authority_request) (ids manifest.requested_capabilities)))
      undeclared_capability
  raise_if (not (is_subset spec.agent_capabilities (ids spec.authority_request)))
      undeclared_projection

-- The names of a list of texts, or none where an item is no text
unfoldable pub item_names : Items → Option (List String)
item_names nil = some []
item_names (cons (str name) rest) = elim (item_names rest) [
  | none ↦ none
  | some names ↦ some (name ∷ names)
]
item_names (cons null rest) = none
item_names (cons (bool _) rest) = none
item_names (cons (int _) rest) = none
item_names (cons (whole _) rest) = none
item_names (cons (real _) rest) = none
item_names (cons (arr _) rest) = none
item_names (cons (obj _) rest) = none

-- schema.get("required", ()), as a list of names
unfoldable pub required_names : Option Json → Option (List String)
required_names none = some []
required_names (some (arr items)) = item_names items
required_names (some _) = none

abbrev has_field : Fields → String → Bool
has_field d name = elim (get name d) [ none ↦ false | some _ ↦ true ]

-- [name for name in required if name not in task]
unfoldable pub absent : List String → Fields → List String
absent names task = keep (λ name. not (has_field task name)) names

abbrev some_name : List String → Bool
some_name [] = false
some_name (_ ∷ _) = true

unfoldable pub check_required : Option (List String) → Fields → Result RuntimeError (Unit {0})
check_required none task = err bad_schema
check_required (some names) task =
    raise_if (some_name (absent names task)) (missing_fields (absent names task))

abbrev is_object_type : Option Json → Bool
is_object_type none = false
is_object_type (some type_name) = equals_text "object" type_name

unfoldable pub check_task : Fields → Json → Result RuntimeError (Unit {0})
check_task schema (obj task) = check_required (required_names (get "required" schema)) task
check_task schema _ = err task_not_object

unfoldable pub validate_task_schema : Json → Json → Result RuntimeError (Unit {0})
validate_task_schema task (obj schema) = do
  raise_if (not (is_object_type (get "type" schema))) bad_schema
  check_task schema task
validate_task_schema task _ = err bad_schema

-- left == right, of tuples and of optional identities
abbrev pub identities_eq : List ComponentIdentity → List ComponentIdentity → Bool
identities_eq [] [] = true
identities_eq [] (_ ∷ _) = false
identities_eq (_ ∷ _) [] = false
identities_eq (a ∷ rest) (b ∷ others) = component_eq a b && identities_eq rest others

abbrev pub identity_eq : Option ComponentIdentity → Option ComponentIdentity → Bool
identity_eq none none = true
identity_eq none (some _) = false
identity_eq (some _) none = false
identity_eq (some a) (some b) = component_eq a b

-- The identities that the adapters have now; the tools in the order of their capability ids
pub record AdapterIdentities : Type 0 where
  pub model : ComponentIdentity
  pub tools : List ComponentIdentity
  pub workspace : Option ComponentIdentity

unfoldable pub revalidate_runtime_adapters :
    AdapterIdentities → RuntimeProvenance → Result RuntimeError (Unit {0})
revalidate_runtime_adapters current provenance = do
  raise_if (not (component_eq current.model provenance.model)) adapters_drifted
  raise_if (not (identities_eq current.tools provenance.tools)) adapters_drifted
  raise_if (not (identity_eq current.workspace provenance.workspace)) adapters_drifted

-- What is found of a registered pack: whether its manifest is still the same object, the manifest's
-- digest, whether its three bindings are unchanged, and its content hash
pub record PackState : Type 0 where
  pub same_manifest : Bool
  pub manifest_digest : String
  pub same_bindings : Bool
  pub content_hash : String

unfoldable pub revalidate_registered_pack :
    PackState → String → String → Result RuntimeError (Unit {0})
revalidate_registered_pack state manifest_digest content_hash = do
  raise_if (not state.same_manifest) pack_drifted
  raise_if (not (str_eq state.manifest_digest manifest_digest)) pack_drifted
  raise_if (not state.same_bindings) pack_drifted
  raise_if (not (str_eq state.content_hash content_hash)) pack_drifted
