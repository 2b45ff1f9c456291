-- ===== src/Runtime/Prepare.antt =====
-- workspace_agent_harness/__init__.py: the first part of `GeneralAgentRuntime.run`, which tests the request
-- and resolves its limits and its authority, before anything is written.
use pan_agent.Base.{Option, none, some, List, [], ◌∷◌, if◌then◌else◌}
use pan_agent.Base.Result.{Result, ok, err, ◌>>=◌, ◌>>◌}
use pan_agent.Limits.{RunLimits, resolve_limits}
use pan_agent.Authority.{CapabilityGrant, resolve_authority}
use pan_agent.Campaign.Types.{PackSelector, pack_eq}
use pan_agent.Runtime.Types.{
  PackManifest, DomainRunSpec, RunRequest, RuntimeError, pack_not_registered, compile_raised,
  limit_error, authority_error,
}
use pan_agent.Runtime.Checks.{
  validate_compiled_spec, validate_task_schema, revalidate_runtime_adapters,
  revalidate_registered_pack,
}
use pan_agent.Runtime.Hosting.{RegisteredPack, Runtime, Host}

abbrev pub or_error : {E A : Type 0} → (E → RuntimeError) → Result E A → Result RuntimeError A
or_error tag (ok a) = ok a
or_error tag (err e) = err (tag e)

-- self._packs.get(selector)
unfoldable pub find_pack : PackSelector → List RegisteredPack → Option RegisteredPack
find_pack selector [] = none
find_pack selector (pack ∷ packs) =
    if pack_eq pack.manifest.identity selector then some pack else find_pack selector packs

abbrev pub or_missing : PackSelector → Option RegisteredPack → Result RuntimeError RegisteredPack
or_missing selector none = err (pack_not_registered selector)
or_missing selector (some pack) = ok pack

-- What is known before the run has an id
pub record Prepared : Type 0 where
  pub manifest : PackManifest
  pub spec : DomainRunSpec
  pub limits : RunLimits
  pub authority : List CapabilityGrant

module _ {W Tool : Type 0} (host : Host W Tool) (runtime : Runtime Tool) where
  unfoldable pub prepare_pack : RunRequest → RegisteredPack → W → Result RuntimeError Prepared
  prepare_pack request pack world = do
    revalidate_registered_pack (host.pack_state request.pack world) pack.manifest_digest
        request.pack.content_hash
    validate_task_schema request.task pack.manifest.task_schema
    spec ← or_error compile_raised (pack.compile_task request.task)
    validate_compiled_spec spec pack.manifest
    limits ← or_error limit_error (
        resolve_limits request.limits spec.limit_defaults runtime.config.default
          runtime.config.hard)
    authority ← or_error authority_error (
        resolve_authority host.tool_name
          (record {
            runtime = runtime.authority_ceiling;
            caller = request.authority;
            pack = pack.manifest.authority_ceiling;
            available = runtime.capabilities;
          })
          spec.authority_request)
    ok (record { manifest = pack.manifest; spec = spec; limits = limits; authority = authority })

  -- The part of `run` before the run has an id
  unfoldable pub prepare : RunRequest → W → Result RuntimeError Prepared
  prepare request world = do
    revalidate_runtime_adapters (host.adapters world) runtime.provenance
    pack ← or_missing request.pack (find_pack request.pack runtime.packs)
    prepare_pack request pack world
