-- ===== src/Campaign/Registry.antt =====
-- workspace_agent_harness/__init__.py: `BenchmarkCase`, and `EvaluationCampaign.create`, which checks the
-- suites against their digests. The digests of content are the fields of an argument. The tests by
-- `isinstance` and `callable` hold by the types. A suite that the sources hand over is a manifest,
-- its cases and its source material `M`.
use pan_agent.Base.{
  String, Bool, true, false, not, ◌||◌, Option, none, some, List, [], ◌∷◌, ◌++◌, map, str_eq, any,
  keep,
}
use pan_agent.Base.Result.{Result, ok, ◌>>=◌, ◌>>◌, raise_if}
use pan_agent.Authority.{has_duplicates}
use pan_agent.Paths.{FilePath, paths_overlap}
use pan_agent.Campaign.Types.{
  SuiteSelector, suite_eq, PackSelector, pack_eq, CaseEligibility, eligible, ineligible,
  BenchmarkCase, SuiteManifest, FrozenSuite, RuntimeProvenance,
}
use pan_agent.Campaign.Selection.{case_id_of}

pub data CreateError : Type 0 where
  empty_case_identity : CreateError
  eligible_with_reason : CreateError
  ineligible_without_reason : CreateError
  duplicate_case_id : CreateError
  source_mismatch : CreateError
  cases_mismatch : CreateError
  transform_mismatch : CreateError
  identity_mismatch : CreateError
  duplicate_suite : SuiteSelector → CreateError
  missing_packs : List PackSelector → CreateError
  no_suite : CreateError
  protected_root_overlap : CreateError

abbrev has_text : Option String → Bool
has_text none = false
has_text (some text) = not (str_eq text "")

abbrev is_given : Option String → Bool
is_given none = false
is_given (some _) = true

abbrev reason_error : CaseEligibility → Option String → Result CreateError (Unit {0})
reason_error eligible reason = raise_if (is_given reason) eligible_with_reason
reason_error ineligible reason = raise_if (not (has_text reason)) ineligible_without_reason

-- `BenchmarkCase(...)` with its `__post_init__`
unfoldable pub make_case :
    {Request : Type 0} → BenchmarkCase Request → Result CreateError (BenchmarkCase Request)
make_case case = do
  raise_if (str_eq case.case_id "" || str_eq case.source_case_id "") empty_case_identity
  reason_error case.eligibility case.ineligibility_reason
  ok case

pub record Suite (Request M : Type 0) : Type 0 where
  pub manifest : SuiteManifest
  pub cases : List (BenchmarkCase Request)
  pub source_material : M

-- benchmark_source_hash, benchmark_cases_hash, benchmark_transform_hash of the manifest's descriptor,
-- and suite_content_hash of the manifest's other fields
pub record Digests (Request M : Type 0) : Type 0 where
  pub source : M → String
  pub cases : List (BenchmarkCase Request) → String
  pub transform : SuiteManifest → String
  pub suite : SuiteManifest → String

abbrev pub has_pack : List PackSelector → PackSelector → Bool
has_pack packs pack = any (λ known. pack_eq known pack) packs

-- missing_packs: empty where no pack is required
abbrev pub missing : List PackSelector → SuiteManifest → List PackSelector
missing registered manifest = keep (λ pack. not (has_pack registered pack)) manifest.required_packs

abbrev pub is_nonempty_list {ℓ} : {A : Type ℓ} → List A → Bool
is_nonempty_list [] = false
is_nonempty_list (_ ∷ _) = true

module _ {Request M : Type 0} where
  -- The body of the loop over the suites, up to the entry in the registry
  unfoldable pub check_suite :
      Digests Request M
      → List PackSelector
      → List (FrozenSuite Request)
      → Suite Request M
      → Result CreateError (FrozenSuite Request)
  check_suite digests registered registry suite = do
    let manifest = suite.manifest
    raise_if (has_duplicates (map case_id_of suite.cases)) duplicate_case_id
    raise_if (not (str_eq (digests.source suite.source_material) manifest.source_digest))
        source_mismatch
    raise_if (not (str_eq (digests.cases suite.cases) manifest.cases_hash)) cases_mismatch
    raise_if (not (str_eq (digests.transform manifest) manifest.transform_hash)) transform_mismatch
    raise_if (not (str_eq (digests.suite manifest) manifest.identity.content_hash))
        identity_mismatch
    raise_if (any (λ known. suite_eq known.manifest.identity manifest.identity) registry)
        (duplicate_suite manifest.identity)
    raise_if (is_nonempty_list (missing registered manifest))
        (missing_packs (missing registered manifest))
    ok (record { manifest = manifest; cases = suite.cases })

  -- The loop over the suites; a dict keeps its entries in order.
  unfoldable pub register :
      Digests Request M
      → List PackSelector
      → List (FrozenSuite Request)
      → List (Suite Request M)
      → Result CreateError (List (FrozenSuite Request))
  register digests registered registry [] = ok registry
  register digests registered registry (suite ∷ suites) = do
    frozen ← check_suite digests registered registry suite
    register digests registered (registry ++ frozen ∷ []) suites

  -- The registry of the campaign. The root directory is resolved by the caller.
  unfoldable pub create :
      Digests Request M
      → RuntimeProvenance
      → FilePath
      → List (Suite Request M)
      → Result CreateError (List (FrozenSuite Request))
  create digests provenance root suites = do
    registry ← register digests provenance.registered_packs [] suites
    raise_if (not (is_nonempty_list registry)) no_suite
    raise_if (any (paths_overlap root) provenance.protected_roots) protected_root_overlap
    ok registry
