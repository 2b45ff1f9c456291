-- ===== src/Runtime/Packs.antt =====
-- workspace_agent_harness/__init__.py: `GeneralAgentRuntime.create`, which registers the packs. The hash that is
-- computed anew from a pack's source and material is given with the pack; the tests by `isinstance`
-- and `callable` hold by the types.
use pan_agent.Base.{String, Bool, true, false, not, List, [], ◌∷◌, ◌++◌, str_eq, any}
use pan_agent.Base.Int.{ℤ, int_eq}
use pan_agent.Base.Result.{Result, ok, ◌>>=◌, ◌>>◌, raise_if}
use pan_agent.Base.Json.{Json}
use pan_agent.Limits.{RuntimeConfig, validate_runtime_config}
use pan_agent.Paths.{FilePath, paths_overlap}
use pan_agent.Campaign.Types.{pack_eq}
use pan_agent.Runtime.Types.{
  PackManifest, DomainRunSpec, RuntimeError, unsupported_interface, features_not_implemented,
  duplicate_pack, pack_hash_mismatch, no_pack, limit_error,
}
use pan_agent.Runtime.Hosting.{RegisteredPack}
use pan_agent.Runtime.Prepare.{or_error}

-- A `VerticalDomainPack`: its manifest, the digest of the manifest, and pack_content_hash(...)
pub record VerticalDomainPack : Type 0 where
  pub manifest : PackManifest
  pub manifest_digest : String
  pub computed_hash : String
  pub compile_task : Json → Result String DomainRunSpec

abbrev has_features : List String → Bool
has_features [] = false
has_features (_ ∷ _) = true

-- The body of the loop over the packs
unfoldable pub register_pack :
    ℤ → List RegisteredPack → VerticalDomainPack → Result RuntimeError RegisteredPack
register_pack interface_version registry pack = do
  let manifest = pack.manifest
  raise_if (not (int_eq manifest.interface_version interface_version))
      (unsupported_interface manifest.interface_version)
  raise_if (has_features manifest.required_runtime_features)
      (features_not_implemented manifest.required_runtime_features)
  raise_if (any (λ known. pack_eq known.manifest.identity manifest.identity) registry)
      (duplicate_pack manifest.identity)
  raise_if (not (str_eq manifest.identity.content_hash pack.computed_hash)) pack_hash_mismatch
  ok (record {
    manifest = manifest;
    manifest_digest = pack.manifest_digest;
    compile_task = pack.compile_task;
  })

unfoldable pub register_packs :
    ℤ → List RegisteredPack → List VerticalDomainPack → Result RuntimeError (List RegisteredPack)
register_packs interface_version registry [] = ok registry
register_packs interface_version registry (pack ∷ packs) = do
  registered ← register_pack interface_version registry pack
  register_packs interface_version (registry ++ registered ∷ []) packs

abbrev is_registered : List RegisteredPack → Bool
is_registered [] = false
is_registered (_ ∷ _) = true

-- The registry of a new runtime, up to the provenance; the two roots are resolved by the caller.
unfoldable pub create :
    RuntimeConfig FilePath → List VerticalDomainPack → Result RuntimeError (List RegisteredPack)
create config packs = do
  or_error limit_error (validate_runtime_config paths_overlap config)
  registry ← register_packs config.interface_version [] packs
  raise_if (not (is_registered registry)) no_pack
  ok registry
