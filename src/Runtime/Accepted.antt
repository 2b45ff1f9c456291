-- ===== src/Runtime/Accepted.antt =====
-- What holds of a request that the runtime has prepared.
use mathlib.Core.Path.{subst}
use pan_agent.Base.{◌≡◌, refl, ap, ◌∙◌, true, some, List, [], ◌∷◌}
use pan_agent.Base.Result.{
  Result, ok, err, raise_if, >>=-eq-ok, >>-eq-ok, raise_if-eq-ok, ok-injective, not-eq-false,
}
use pan_agent.Limits.{resolve_limits}
use pan_agent.Limits.Bounds.{IsPositive, IsWithin, IsAtMostAsked, resolve_limits_bounds}
use pan_agent.Authority.{CapabilityGrant, CapabilityRequirement, Parties, resolve_authority}
use pan_agent.Authority.Ceiling.{IsAuthorized, done, skip, give, resolve_authority-IsAuthorized}
use pan_agent.Campaign.Types.{evaluator_eq}
use pan_agent.Runtime.{collect_tools}
use pan_agent.Runtime.Types.{RunRequest, RuntimeError, limit_error, authority_error, compile_raised}
use pan_agent.Runtime.Checks.{
  validate_compiled_spec, validate_task_schema, is_subset, ids, revalidate_runtime_adapters,
  revalidate_registered_pack,
}
use pan_agent.Runtime.Hosting.{Host, Runtime, RegisteredPack}
use pan_agent.Runtime.Prepare.{Prepared, or_error, or_missing, find_pack, prepare_pack, prepare}

or_error-eq-ok :
    {E A : Type 0} (tag : E → RuntimeError) (checked : Result E A) {a : A}
    → or_error tag checked ≡ ok a
    → checked ≡ ok a
or_error-eq-ok tag (ok b) e = let same = ok-injective e in ap ok same
or_error-eq-ok tag (err reason) e = cc

module _ {W Tool : Type 0} (host : Host W Tool) (runtime : Runtime Tool) where
  abbrev pub parties : RunRequest → Prepared → Parties Tool
  parties request prepared = record {
    runtime = runtime.authority_ceiling;
    caller = request.authority;
    pack = prepared.manifest.authority_ceiling;
    available = runtime.capabilities;
  }

  -- The limits are positive, at most the hard ones and at most those asked for; the authority is what
  -- runtime, caller, pack and task have in common; the task asks for declared capabilities, and is
  -- evaluated by the pack's evaluator.
  pub record IsAccepted (request : RunRequest) (prepared : Prepared) : Type 0 where
    pub positive : IsPositive prepared.limits
    pub within : IsWithin runtime.config.hard prepared.limits
    pub asked : IsAtMostAsked request.limits prepared.limits
    pub authorized :
        IsAuthorized host.tool_name
          (parties request prepared)
          prepared.spec.authority_request
          prepared.authority
    pub evaluator : evaluator_eq prepared.spec.evaluator prepared.manifest.evaluator ≡ true
    pub declared :
        is_subset
          (ids prepared.spec.authority_request)
          (ids prepared.manifest.requested_capabilities)
        ≡ true
    pub projected :
        is_subset prepared.spec.agent_capabilities (ids prepared.spec.authority_request) ≡ true

  prepare_pack-IsAccepted :
      (request : RunRequest) (pack : RegisteredPack) (world : W) {prepared : Prepared}
      → prepare_pack host runtime request pack world ≡ ok prepared
      → IsAccepted request prepared
  unfolding prepare_pack validate_compiled_spec
  prepare_pack-IsAccepted request pack world returned =
      let (_, rest1) = >>-eq-ok (revalidate_registered_pack _ _ _) _ returned in
      let (_, rest2) = >>-eq-ok (validate_task_schema _ _) _ rest1 in
      let (spec, _, rest3) =
        >>=-eq-ok (or_error compile_raised (pack.compile_task request.task)) _ rest2 in
      let (checked, rest4) = >>-eq-ok (validate_compiled_spec spec pack.manifest) _ rest3 in
      let (limits, resolved, rest5) =
        >>=-eq-ok
          (or_error limit_error (
            resolve_limits request.limits spec.limit_defaults runtime.config.default
              runtime.config.hard))
          _ rest4 in
      let (authority, granted, rest6) =
        >>=-eq-ok
          (or_error authority_error (
            resolve_authority host.tool_name
              (record {
                runtime = runtime.authority_ceiling;
                caller = request.authority;
                pack = pack.manifest.authority_ceiling;
                available = runtime.capabilities;
              })
              spec.authority_request))
          _ rest5 in
      let (e1, checked1) = >>-eq-ok (raise_if _ _) _ checked in
      let (e2, e3) = >>-eq-ok (raise_if _ _) _ checked1 in
      let (positive, within, asked) =
        resolve_limits_bounds request.limits spec.limit_defaults runtime.config.default
          runtime.config.hard (or_error-eq-ok limit_error _ resolved) in
      subst (IsAccepted request) (ok-injective rest6) (record {
        positive = positive;
        within = within;
        asked = asked;
        authorized =
            resolve_authority-IsAuthorized host.tool_name _ spec.authority_request
              (or_error-eq-ok authority_error _ granted);
        evaluator = not-eq-false _ (raise_if-eq-ok _ _ e1);
        declared = not-eq-false _ (raise_if-eq-ok _ _ e2);
        projected = not-eq-false _ (raise_if-eq-ok _ _ e3);
      })

  pub prepare-IsAccepted :
      (request : RunRequest) (world : W) {prepared : Prepared}
      → prepare host runtime request world ≡ ok prepared
      → IsAccepted request prepared
  unfolding prepare
  prepare-IsAccepted request world returned =
      let (_, rest1) = >>-eq-ok (revalidate_runtime_adapters _ _) _ returned in
      let (pack, _, rest2) =
        >>=-eq-ok (or_missing request.pack (find_pack request.pack runtime.packs)) _ rest1 in
      prepare_pack-IsAccepted request pack world rest2

  -- The tool of a granted capability is always there.
  pub collect_tools_total :
      (request : RunRequest) (prepared : Prepared)
      → {requirements : List CapabilityRequirement} {grants : List CapabilityGrant}
      → IsAuthorized host.tool_name (parties request prepared) requirements grants
      → (tools : List (CapabilityGrant × Tool)) × (collect_tools host runtime grants ≡ ok tools)
  unfolding collect_tools
  collect_tools_total request prepared done = ([], refl)
  collect_tools_total request prepared (skip _ rest) = collect_tools_total request prepared rest
  collect_tools_total request prepared (give {grant = grant} backed rest) =
      let (tools, collected) = collect_tools_total request prepared rest in
      let found : runtime.capabilities grant.capability_id ≡ some backed.tool =
        ap runtime.capabilities backed.same_id ∙ backed.is_available in
      ((grant, backed.tool) ∷ tools, rw (found, collect_tools) (rw collected refl))
