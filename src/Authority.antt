-- ===== src/Authority.antt =====
-- workspace_agent_harness/__init__.py: capability grants and requirements, and the authority of a
-- run as what the runtime, the caller, the pack and the task have in common. A tool is an opaque
-- value with the `name` that `tool_name` reads; `available` is the adapters' mapping.
pub mod Sets
pub mod Ceiling
pub mod Granting
pub mod Tests
use pan_agent.Base.{
  String, Bool, true, false, not, ◌||◌, ◌&&◌, Option, none, some, List, [], ◌∷◌, any, map, str_eq,
  if◌then◌else◌,
}
use pan_agent.Base.Result.{Result, ok, err, ◌>>=◌, ◌>>◌, raise_if}
use pan_agent.Base.Text.{Text, is_empty}
use pan_agent.Base.Json.{Fields, end, has_fields}
use pan_agent.Authority.Sets.{has_text, sorted_set, common}

pub record CapabilityGrant : Type 0 where
  pub capability_id : String
  pub resources : List Text
  pub constraints : Fields

pub record CapabilityRequirement : Type 0 where
  pub capability_id : String
  pub required : Bool
  pub resources : List Text
  pub constraints : Fields

pub data AuthorityError : Type 0 where
  empty_capability_id : AuthorityError
  duplicate_capability : AuthorityError
  not_authorized : String → AuthorityError
  constraints_not_implemented : String → AuthorityError
  no_common_scope : String → AuthorityError
  unavailable : String → AuthorityError
  name_mismatch : String → AuthorityError

-- `CapabilityGrant(capability_id, resources)` with its `__post_init__`.
unfoldable pub make_grant : String → List Text → Result AuthorityError CapabilityGrant
make_grant capability_id resources =
    if str_eq capability_id ""
    then err empty_capability_id
    else ok (record { capability_id = capability_id; resources = resources; constraints = end })

-- len(ids) != len(set(ids))
unfoldable pub has_duplicates : List String → Bool
has_duplicates [] = false
has_duplicates (id ∷ ids) = any (λ other. str_eq other id) ids || has_duplicates ids

module _ {A : Type 0} (key : A → String) where
  -- {key(item): item for item in items}.get(id): a later item replaces an earlier one.
  unfoldable pub by_id : String → List A → Option A
  by_id id [] = none
  by_id id (item ∷ items) = elim (by_id id items) [
    | some later ↦ some later
    | none ↦ if str_eq (key item) id then some item else none
  ]

abbrev pub grant_id : CapabilityGrant → String
grant_id grant = grant.capability_id

abbrev pub requirement_id : CapabilityRequirement → String
requirement_id requirement = requirement.capability_id

-- The parties to an authority decision, as `_resolve_authority` indexes them.
pub record Parties (Tool : Type 0) : Type 0 where
  pub runtime : List CapabilityGrant
  pub caller : List CapabilityGrant
  pub pack : List CapabilityRequirement
  pub available : String → Option Tool

-- The resources that the three parties and the task have in common.
abbrev pub shared :
    CapabilityGrant → CapabilityGrant → CapabilityRequirement → CapabilityRequirement → List Text
shared runtime_grant caller_grant pack_requirement requirement =
    common runtime_grant.resources caller_grant.resources pack_requirement.resources
      requirement.resources

-- any(all_constraints)
abbrev pub any_constraints :
    CapabilityGrant → CapabilityGrant → CapabilityRequirement → CapabilityRequirement → Bool
any_constraints runtime_grant caller_grant pack_requirement requirement =
    has_fields runtime_grant.constraints
    || (has_fields caller_grant.constraints
        || (has_fields pack_requirement.constraints || has_fields requirement.constraints))

-- `raise` where the requirement is required, else `continue`
abbrev raise_if_required :
    CapabilityRequirement → AuthorityError → Result AuthorityError (Option CapabilityGrant)
raise_if_required requirement error = if requirement.required then err error else ok none

-- effective.append(grant), if the loop body came so far
abbrev pub add_if : Option CapabilityGrant → List CapabilityGrant → List CapabilityGrant
add_if none grants = grants
add_if (some grant) grants = grant ∷ grants

module _ {Tool : Type 0} (tool_name : Tool → Option String) where
  -- The last steps of the loop body: the tool must be there, and be called as the capability is.
  unfoldable pub settle_tool :
      CapabilityRequirement
      → List Text
      → Option Tool
      → Result AuthorityError (Option CapabilityGrant)
  settle_tool requirement resources none =
      raise_if_required requirement (unavailable requirement.capability_id)
  settle_tool requirement resources (some tool) = elim (tool_name tool) [
    | none ↦ err (name_mismatch requirement.capability_id)
    | some name ↦
        if str_eq name requirement.capability_id
        then (do grant ← make_grant requirement.capability_id resources; ok (some grant))
        else err (name_mismatch requirement.capability_id)
  ]

  -- The loop body once the three parties have answered; an absent answer ends it at once.
  unfoldable pub settle_found :
      CapabilityRequirement
      → Option Tool
      → Option CapabilityGrant
      → Option CapabilityGrant
      → Option CapabilityRequirement
      → Result AuthorityError (Option CapabilityGrant)
  settle_found requirement tool (some runtime_grant) (some caller_grant) (some pack_requirement) =
      if any_constraints runtime_grant caller_grant pack_requirement requirement
      then err (constraints_not_implemented requirement.capability_id)
      else let resources = shared runtime_grant caller_grant pack_requirement requirement in
        if is_empty resources
        then raise_if_required requirement (no_common_scope requirement.capability_id)
        else settle_tool requirement resources tool
  settle_found requirement tool _ _ _ =
      raise_if_required requirement (not_authorized requirement.capability_id)

  -- The loop body of `_resolve_authority`: raise, skip the requirement, or grant.
  unfoldable pub settle :
      Parties Tool → CapabilityRequirement → Result AuthorityError (Option CapabilityGrant)
  settle parties requirement =
      settle_found requirement (parties.available requirement.capability_id)
        (by_id grant_id requirement.capability_id parties.runtime)
        (by_id grant_id requirement.capability_id parties.caller)
        (by_id requirement_id requirement.capability_id parties.pack)

  unfoldable pub settle_all :
      Parties Tool → List CapabilityRequirement → Result AuthorityError (List CapabilityGrant)
  settle_all parties [] = ok []
  settle_all parties (requirement ∷ requirements) = do
    grant ← settle parties requirement
    grants ← settle_all parties requirements
    ok (add_if grant grants)

  -- `AuthorityGrant(tuple(effective))`, whose `__post_init__` refuses duplicates
  unfoldable pub resolve_authority :
      Parties Tool → List CapabilityRequirement → Result AuthorityError (List CapabilityGrant)
  resolve_authority parties requirements = do
    grants ← settle_all parties requirements
    raise_if (has_duplicates (map grant_id grants)) duplicate_capability
    ok grants
