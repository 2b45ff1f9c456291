-- ===== src/Authority/Ceiling.antt =====
-- Proofs on `_resolve_authority` of workspace_agent_harness/__init__.py: the grants that it
-- returns against what the four parties give.
use pan_agent.Base.{
  inl, inr, ◌≡◌, refl, String, false, ◌&&◌, Option, none, some, List, [], ◌∷◌, map, eq_iff,
  Option-cases, arith,
}
use pan_agent.Base.Result.{ok, raise_if, >>=-eq-ok, >>-eq-ok, ok-injective}
use pan_agent.Base.Text.{Text, is_empty}
use pan_agent.Authority.Sets.{has_text, IsAscending, has_text-common, common-IsAscending}
use pan_agent.Authority.{
  CapabilityGrant, CapabilityRequirement, duplicate_capability, Parties, grant_id, requirement_id,
  has_duplicates, add_if, by_id, make_grant, shared, any_constraints, settle_tool, settle_found,
  settle, settle_all, resolve_authority,
}

module _ {Tool : Type 0} (tool_name : Tool → Option String) (parties : Parties Tool) where
  -- All four parties stand behind a grant, which has exactly the resources that they share.
  pub record IsBacked (requirement : CapabilityRequirement) (grant : CapabilityGrant) : Type 0 where
    pub runtime_grant : CapabilityGrant
    pub caller_grant : CapabilityGrant
    pub pack_requirement : CapabilityRequirement
    pub tool : Tool
    pub in_runtime : by_id grant_id requirement.capability_id parties.runtime ≡ some runtime_grant
    pub in_caller : by_id grant_id requirement.capability_id parties.caller ≡ some caller_grant
    pub in_pack :
        by_id requirement_id requirement.capability_id parties.pack ≡ some pack_requirement
    pub is_available : parties.available requirement.capability_id ≡ some tool
    pub is_named : tool_name tool ≡ some requirement.capability_id
    pub same_id : grant.capability_id ≡ requirement.capability_id
    pub unconstrained :
        any_constraints runtime_grant caller_grant pack_requirement requirement ≡ false
    pub not_empty : is_empty grant.resources ≡ false
    pub is_ascending : IsAscending grant.resources
    pub exact :
        (z : Text)
        → has_text z grant.resources ≡ (
            has_text z runtime_grant.resources
            && (has_text z caller_grant.resources
                && (has_text z pack_requirement.resources && has_text z requirement.resources)))

  -- The grants follow the task's requirements in order: each requirement is granted with the
  -- backing of all parties, or is optional and left out.
  pub data IsAuthorized : List CapabilityRequirement → List CapabilityGrant → Type 0 where
    done : IsAuthorized [] []
    skip :
        {requirement : CapabilityRequirement} {requirements : List CapabilityRequirement}
        {grants : List CapabilityGrant}
        → requirement.required ≡ false
        → IsAuthorized requirements grants
        → IsAuthorized (requirement ∷ requirements) grants
    give :
        {requirement : CapabilityRequirement} {requirements : List CapabilityRequirement}
        {grant : CapabilityGrant} {grants : List CapabilityGrant}
        → IsBacked requirement grant
        → IsAuthorized requirements grants
        → IsAuthorized (requirement ∷ requirements) (grant ∷ grants)

  -- What a tool settles: it has the capability's name and the grant has the given resources.
  settle_tool-some :
      (requirement : CapabilityRequirement) (resources : List Text) (found : Option Tool)
      {grant : CapabilityGrant}
      → settle_tool tool_name requirement resources found ≡ ok (some grant)
      → (tool : Tool) × (found ≡ some tool)
        × (tool_name tool ≡ some requirement.capability_id)
        × (grant.capability_id ≡ requirement.capability_id)
        × (grant.resources ≡ resources)
  unfolding settle_tool make_grant
  settle_tool-some requirement resources none h = ground arith
  settle_tool-some requirement resources (some tool) h = elim (Option-cases (tool_name tool)) [
    | inl unnamed ↦ ground arith
    | inr (name, e) ↦
        let same : (name ≡ requirement.capability_id) =
          ground (arith, eq_iff name requirement.capability_id) in
        (
          tool,
          refl,
          cc,
          ground (arith, eq_iff name requirement.capability_id),
          ground (arith, eq_iff name requirement.capability_id),
        )
  ]

  settle_found-some :
      (requirement : CapabilityRequirement) (found : Option Tool)
      (runtime_grant caller_grant : CapabilityGrant) (pack_requirement : CapabilityRequirement)
      {grant : CapabilityGrant}
      → settle_found tool_name requirement found
          (some runtime_grant)
          (some caller_grant)
          (some pack_requirement)
        ≡ ok (some grant)
      → (any_constraints runtime_grant caller_grant pack_requirement requirement ≡ false)
        × (is_empty (shared runtime_grant caller_grant pack_requirement requirement) ≡ false)
        × (settle_tool tool_name requirement
              (shared runtime_grant caller_grant pack_requirement requirement)
              found
            ≡ ok (some grant))
  unfolding settle_found
  settle_found-some requirement found runtime_grant caller_grant pack_requirement h = ground arith

  found_by_all :
      (requirement : CapabilityRequirement) (found : Option Tool) (r c : Option CapabilityGrant)
      (p : Option CapabilityRequirement) {grant : CapabilityGrant}
      → settle_found tool_name requirement found r c p ≡ ok (some grant)
      → (rg : CapabilityGrant) × (cg : CapabilityGrant) × (pr : CapabilityRequirement) × (r
          ≡ some rg)
        × (c ≡ some cg)
        × (p ≡ some pr)
  unfolding settle_found
  found_by_all requirement found (some rg) (some cg) (some pr) h = (rg, cg, pr, refl, refl, refl)
  found_by_all requirement found r c p h = ground arith

  settle-some :
      (requirement : CapabilityRequirement) {grant : CapabilityGrant}
      → settle tool_name parties requirement ≡ ok (some grant)
      → IsBacked requirement grant
  unfolding settle
  settle-some requirement {grant} h =
      let id = requirement.capability_id in
      let found = parties.available id in
      let (rg, cg, pr, er, ec, ep) = found_by_all requirement found _ _ _ h in
      let h' : settle_found tool_name requirement found (some rg) (some cg) (some pr)
          ≡ ok (some grant) =
        cc in
      let (unconstrained, filled, settled) = settle_found-some requirement found rg cg pr h' in
      let (tool, e, named, same, resources) =
        settle_tool-some requirement (shared rg cg pr requirement) found settled in
      record {
        runtime_grant = rg;
        caller_grant = cg;
        pack_requirement = pr;
        tool = tool;
        in_runtime = er;
        in_caller = ec;
        in_pack = ep;
        is_available = e;
        is_named = named;
        same_id = same;
        unconstrained = unconstrained;
        not_empty = rw resources filled;
        is_ascending = rw resources (common-IsAscending _ _ _ _);
        exact = λ z. rw resources (has_text-common z _ _ _ _);
      }

  settle-none :
      (requirement : CapabilityRequirement)
      → settle tool_name parties requirement ≡ ok none
      → requirement.required ≡ false
  unfolding settle settle_found settle_tool make_grant
  settle-none requirement h = ground arith

  add_settled :
      (requirement : CapabilityRequirement) {requirements : List CapabilityRequirement}
      {grants : List CapabilityGrant} (settled : Option CapabilityGrant)
      → settle tool_name parties requirement ≡ ok settled
      → IsAuthorized requirements grants
      → IsAuthorized (requirement ∷ requirements) (add_if settled grants)
  add_settled requirement none e rest = skip (settle-none requirement e) rest
  add_settled requirement (some grant) e rest = give (settle-some requirement e) rest

  pub settle_all-IsAuthorized :
      (requirements : List CapabilityRequirement) {grants : List CapabilityGrant}
      → settle_all tool_name parties requirements ≡ ok grants
      → IsAuthorized requirements grants
  unfolding settle_all
  settle_all-IsAuthorized [] h = rw (← ok-injective h) done
  settle_all-IsAuthorized (requirement ∷ requirements) h =
      let (first, settled, h1) = >>=-eq-ok (settle tool_name parties requirement) _ h in
      let (rest, settled_rest, h2) = >>=-eq-ok (settle_all tool_name parties requirements) _ h1 in
      rw (← ok-injective h2)
        (add_settled requirement first settled (settle_all-IsAuthorized requirements settled_rest))

  -- When the authority of a run is resolved, its grants follow the task's requirements in order.
  -- Each requirement is granted, with exactly the resources that the runtime, the caller, the pack
  -- and the task all list, in ascending order and at least one, with no constraints on any side,
  -- and with a tool of the same name; or it is not a required one and is left out.
  pub resolve_authority-IsAuthorized :
      (requirements : List CapabilityRequirement) {grants : List CapabilityGrant}
      → resolve_authority tool_name parties requirements ≡ ok grants
      → IsAuthorized requirements grants
  unfolding resolve_authority
  resolve_authority-IsAuthorized requirements h =
      let (grants, settled, h1) = >>=-eq-ok (settle_all tool_name parties requirements) _ h in
      let (_, h2) =
        >>-eq-ok (raise_if (has_duplicates (map grant_id grants)) duplicate_capability) _ h1 in
      rw (← ok-injective h2) (settle_all-IsAuthorized requirements settled)
