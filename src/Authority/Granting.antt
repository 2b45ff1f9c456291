-- ===== src/Authority/Granting.antt =====
-- Proofs on `_resolve_authority` of workspace_agent_harness/__init__.py: the requirements that are
-- granted, and the test on duplicate grants.
use pan_agent.Base.{◌≡◌, refl, String, Bool, false, Option, List, map, any, str_eq, or-eq-false}
use pan_agent.Base.Result.{Result, ok, err, ◌>>=◌, ◌>>◌, raise_if}
use pan_agent.Base.Text.{Text}
use pan_agent.Authority.{
  CapabilityGrant, CapabilityRequirement, AuthorityError, duplicate_capability, Parties, grant_id,
  requirement_id, has_duplicates, settle_all, resolve_authority,
}
use pan_agent.Authority.Ceiling.{IsAuthorized, done, skip, give, settle_all-IsAuthorized}

abbrev has_id : String → List String → Bool
has_id id ids = any (λ other. str_eq other id) ids

module _ {Tool : Type 0} (tool_name : Tool → Option String) (parties : Parties Tool) where
  has_id-grants :
      (id : String) {requirements : List CapabilityRequirement} {grants : List CapabilityGrant}
      → IsAuthorized tool_name parties requirements grants
      → has_id id (map requirement_id requirements) ≡ false
      → has_id id (map grant_id grants) ≡ false
  has_id-grants id done h = refl
  has_id-grants id (skip optional rest) h = has_id-grants id rest (or-eq-false _ _ h).1
  has_id-grants id (give {requirement = r} {requirements = rs} backed rest) h =
      let (other, none_left) =
        or-eq-false (str_eq (requirement_id r) id) (has_id id (map requirement_id rs)) h in
      rw (backed.same_id, other) (has_id-grants id rest none_left)

  has_duplicates-grants :
      {requirements : List CapabilityRequirement} {grants : List CapabilityGrant}
      → IsAuthorized tool_name parties requirements grants
      → has_duplicates (map requirement_id requirements) ≡ false
      → has_duplicates (map grant_id grants) ≡ false
  unfolding has_duplicates
  has_duplicates-grants done h = refl
  has_duplicates-grants (skip optional rest) h = has_duplicates-grants rest (or-eq-false _ _ h).1
  has_duplicates-grants (give {requirement = r} {grants = gs} backed rest) h =
      let (fresh, unique) = or-eq-false _ _ h in
      let fresh' = has_id-grants (requirement_id r) rest fresh in
      rw backed.same_id (rw fresh' (has_duplicates-grants rest unique))

  -- For a task whose requirements have distinct ids (as `AuthorityRequest` demands), the test on
  -- duplicate grants never fires: the result is the settled requirements, or their first error.
  pub resolve_authority-settle_all :
      (requirements : List CapabilityRequirement)
      → has_duplicates (map requirement_id requirements) ≡ false
      → resolve_authority tool_name parties requirements ≡ settle_all tool_name parties requirements
  unfolding resolve_authority
  resolve_authority-settle_all requirements unique =
      go (settle_all tool_name parties requirements) refl
    where
      go :
          (r : Result AuthorityError (List CapabilityGrant))
          → settle_all tool_name parties requirements ≡ r
          → (r >>= λ grants.
              raise_if (has_duplicates (map grant_id grants)) duplicate_capability >> ok grants)
            ≡ r
      go (err e) h = refl
      go (ok grants) h =
          rw (
            has_duplicates-grants (settle_all-IsAuthorized tool_name parties requirements h) unique)
