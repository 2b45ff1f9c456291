-- ===== src/Campaign/Selection.antt =====
-- workspace_agent_harness/__init__.py: `CampaignRequest`, and the start of `EvaluationCampaign.run`, which
-- finds the suite and selects its cases.
use pan_agent.Base.{
  String, Bool, true, false, not, Option, none, some, List, [], ◌∷◌, map, str_eq, if◌then◌else◌,
  any, keep,
}
use pan_agent.Base.Int.{ℤ, pos, leb_ℤ}
use pan_agent.Base.Result.{Result, ok, ◌>>◌, raise_if}
use pan_agent.Authority.{has_duplicates}
use pan_agent.Campaign.Types.{SuiteSelector, suite_eq, BenchmarkCase, FrozenSuite, CampaignRequest}

pub data CampaignError : Type 0 where
  repetitions_not_positive : CampaignError
  duplicate_case_ids : CampaignError
  suite_not_registered : SuiteSelector → CampaignError
  unknown_case_ids : List String → CampaignError
  file_exists : CampaignError

-- `CampaignRequest(suite, repetitions, case_ids)` with its `__post_init__`
unfoldable pub make_request :
    SuiteSelector → ℤ → Option (List String) → Result CampaignError CampaignRequest
make_request suite repetitions case_ids = do
  raise_if (leb_ℤ repetitions (pos 0)) repetitions_not_positive
  raise_if (elim case_ids [ none ↦ false | some ids ↦ has_duplicates ids ]) duplicate_case_ids
  ok (record { suite = suite; repetitions = repetitions; case_ids = case_ids })

-- suites.get(selector)
unfoldable pub find_suite :
    {Request : Type 0} → SuiteSelector → List (FrozenSuite Request) → Option (FrozenSuite Request)
find_suite selector [] = none
find_suite selector (suite ∷ suites) =
    if suite_eq suite.manifest.identity selector then some suite else find_suite selector suites

abbrev pub has_id : List String → String → Bool
has_id ids id = any (λ known. str_eq known id) ids

abbrev pub is_nonempty : List String → Bool
is_nonempty [] = false
is_nonempty (_ ∷ _) = true

module _ {Request : Type 0} where
  abbrev pub case_id_of : BenchmarkCase Request → String
  case_id_of case = case.case_id

  -- selected_ids - known_ids, in the order of the request
  unfoldable pub unknown_ids : Option (List String) → List (BenchmarkCase Request) → List String
  unknown_ids none cases = []
  unknown_ids (some ids) cases = keep (λ id. not (has_id (map case_id_of cases) id)) ids

  abbrev pub is_selected : Option (List String) → BenchmarkCase Request → Bool
  is_selected none case = true
  is_selected (some ids) case = has_id ids case.case_id
