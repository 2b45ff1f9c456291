-- ===== src/Campaign/Tests.antt =====
-- A campaign at a concrete suite: three cases, of which one is not eligible, with two repetitions.
use pan_agent.Base.{
  ℕ, String, ◌≡◌, refl, true, false, none, some, [], ◌∷◌, map, All, keep, count_if,
}
use pan_agent.Base.Int.{pos, negsuc}
use pan_agent.Base.Result.{ok, err}
use pan_agent.Paths.{FilePath, paths_overlap, path_eq, is_relative_to}
use pan_agent.Campaign.{
  State, run, attempt_files, run_suite, run_cases, repeat, note_attempt, write_json_exclusive,
  close_campaign,
}
use pan_agent.Campaign.Types.{eligible, CampaignReport, component_eq, evaluator_eq, suite_eq}
use pan_agent.Campaign.Summary.{
  attempt_failure_attribution, failed_attribution, evaluation_attribution, summarize,
  is_error_attribution, count_failure, failure_counts, observed, total,
}
use pan_agent.Campaign.Origins.{
  baseline_origins, add_attempt, add_attempts, add_evaluator, add_provenance, add_source,
  append_each, append_unique, campaign_provenance,
}
use pan_agent.Campaign.Selection.{
  make_request, repetitions_not_positive, duplicate_case_ids, find_suite, unknown_ids,
  suite_not_registered, unknown_case_ids,
}
use pan_agent.Campaign.Attempts.{run_attempt, attempt_of, checked_report}
use pan_agent.Campaign.Registry.{
  Suite, Digests, create, make_case, eligible_with_reason, is_nonempty_list, source_mismatch,
  register, check_suite,
}
use pan_agent.Campaign.Registered.{IsIntact, frozen_of, same_identity, create-IsIntact}
use pan_agent.Campaign.Provided.{Distinct}
use pan_agent.Campaign.Enumerated.{IsExhaustive, run-IsExhaustive}
use pan_agent.Campaign.Accounted.{IsAccounted, run-IsAccounted}
use pan_agent.Authority.{has_duplicates}
use pan_agent.Base.Text.{text_eq}
use pan_agent.Campaign.Examples.{
  baseline, report_with, env, unfit, selector, manifest, cases, suite, request, digest, result,
  counts,
}

counts_test : counts result ≡ 4 ∷ 2 ∷ 0 ∷ 1 ∷ 5 ∷ []
unfolding run find_suite suite_eq run_suite unknown_ids keep run_cases repeat note_attempt
    write_json_exclusive close_campaign summarize count_if run_attempt is_error_attribution
    attempt_of checked_report attempt_failure_attribution failed_attribution add_attempt
    add_attempts add_evaluator add_provenance add_source append_each append_unique baseline_origins
    campaign_provenance count_failure evaluation_attribution failure_counts observed total
    component_eq evaluator_eq attempt_files
counts_test = refl

-- Numbers of repetitions below 1, and case ids named twice, are refused.
no_repetitions : make_request selector (negsuc 0) none ≡ err repetitions_not_positive
unfolding make_request
no_repetitions = refl

named_twice : make_request selector (pos 1) (some ("a" ∷ "a" ∷ [])) ≡ err duplicate_case_ids
unfolding make_request has_duplicates
named_twice = refl

unknown_case :
    run env digest baseline (suite ∷ []) (record request { case_ids = some ("x" ∷ []) }) 0
    ≡ err (unknown_case_ids ("x" ∷ []))
unfolding run find_suite suite_eq run_suite unknown_ids keep
unknown_case = refl

not_registered : run env digest baseline [] request 0 ≡ err (suite_not_registered selector)
unfolding run find_suite
not_registered = refl

reason_of_eligible : make_case (record unfit { eligibility = eligible }) ≡ err eligible_with_reason
unfolding make_case
reason_of_eligible = refl

-- A status other than "succeeded" is named as such, and a missing evaluation as failed.
attributions :
    map attempt_failure_attribution (
      report_with false (some "timeout") (some "failed")
      ∷ report_with false (some "succeeded") (some "not_run")
      ∷ report_with false none none
      ∷ report_with true none none
      ∷ [])
    ≡ some "execution.timeout" ∷ some "evaluation.not_run" ∷ some "evaluation.failed" ∷ none ∷ []
unfolding attempt_failure_attribution failed_attribution evaluation_attribution
attributions = refl

suite_found : find_suite selector (suite ∷ []) ≡ some suite
unfolding find_suite suite_eq
suite_found = refl

cases_known : unknown_ids request.case_ids cases ≡ []
unfolding unknown_ids keep
cases_known = refl

run-IsExhaustive_example :
    (report : CampaignReport String) × (s : State ℕ String) × (run env digest baseline
        (suite ∷ [])
        request
        0
      ≡ ok (report, s))
    × (report.request ≡ request)
    × IsExhaustive suite report s
run-IsExhaustive_example =
    run-IsExhaustive env digest baseline (suite ∷ []) request 0 suite suite_found cases_known

completed :
    (report : CampaignReport String) × (s : State ℕ String) × (run env digest baseline
        (suite ∷ [])
        request
        0
      ≡ ok (report, s))
completed =
    let (report, s, returned, _, _) =
      run-IsExhaustive env digest baseline (suite ∷ []) request 0 suite suite_found cases_known in
    (report, s, returned)

run-IsAccounted_example : IsAccounted completed.0
run-IsAccounted_example = run-IsAccounted env digest baseline (suite ∷ []) request 0 completed.2

abbrev source : Suite String String
source = record { manifest = manifest; cases = cases; source_material = "cases.json" }

abbrev digests : Digests String String
digests = record {
  source = λ material. "sha256:4";
  cases = λ cases. "sha256:5";
  transform = λ manifest. "sha256:6";
  suite = λ manifest. "sha256:3";
}

abbrev root : FilePath
root = (b'a' ∷ []) ∷ []

created : create digests baseline root (source ∷ []) ≡ ok (suite ∷ [])
unfolding create register check_suite has_duplicates keep paths_overlap path_eq text_eq
    is_relative_to
created = refl

changed_source :
    create (record digests { source = λ material. "sha256:0" }) baseline root (source ∷ [])
    ≡ err source_mismatch
unfolding create register check_suite has_duplicates
changed_source = refl

create-IsIntact_example :
    (suite ∷ [] ≡ map frozen_of (source ∷ []))
    × (is_nonempty_list (suite ∷ []) ≡ true)
    × Distinct same_identity (suite ∷ [])
    × All (IsIntact digests baseline.registered_packs) (source ∷ [])
    × All (λ protected. paths_overlap root protected ≡ false) baseline.protected_roots
create-IsIntact_example = create-IsIntact digests baseline root (source ∷ []) created
