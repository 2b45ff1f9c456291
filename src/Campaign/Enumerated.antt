-- ===== src/Campaign/Enumerated.antt =====
-- Proofs on `EvaluationCampaign.run`: the attempts and records of a report against the cases of
-- the suite, and the files of the directory.
use mathlib.Core.Path.{subst}
use pan_agent.Base.{
  String, ◌≡◌, refl, sym, ap, ◌∙◌, some, List, [], ◌∷◌, ◌++◌, map, ◌⊎◌, inl, inr, true, length, All,
  keep, Option-cases,
}
use pan_agent.Base.Int.{pos_part}
use pan_agent.Base.Result.{ok, ok-injective}
use pan_agent.Campaign.{
  State, close_campaign, run_suite, run, Payload, write_json_exclusive, report_file, report_payload,
  attempt_files,
}
use pan_agent.Campaign.Types.{FrozenSuite, CampaignRequest, CampaignReport, RuntimeProvenance}
use pan_agent.Campaign.Summary.{summarize}
use pan_agent.Campaign.Origins.{campaign_provenance}
use pan_agent.Campaign.Selection.{find_suite, unknown_ids, is_selected, case_id_of, is_nonempty}
use pan_agent.Campaign.Attempts.{Env, setting_of}
use pan_agent.Campaign.Counting.{IsAttributed}
use pan_agent.Campaign.Planned.{slot_of, planned, numbered, write_report_lem}
use pan_agent.Campaign.Records.{heading, heading_of, attempts_of, run_cases_lem}

-- What a campaign promises: each selected case that is eligible is attempted as often as asked, each
-- attempt under the identities of the campaign, and the directory holds every attempt and the report.
pub record IsExhaustive {W Request : Type 0} (suite : FrozenSuite Request)
    (report : CampaignReport Request) (s : State W Request) : Type 0 where
  pub attempts_kept : report.attempts ≡ attempts_of report.cases
  pub slots_planned :
      map slot_of report.attempts
      ≡ planned
          (setting_of suite report.configuration_digest)
          (pos_part report.request.repetitions)
          (keep (is_selected report.request.case_ids) suite.cases)
  pub headings :
      map heading_of report.cases
      ≡ map heading (keep (is_selected report.request.case_ids) suite.cases)
  pub files_written :
      s.files
      ≡ numbered 1 report.attempts
        ++ (report_file, report_payload report (attempt_files 1 (length report.attempts))) ∷ []

-- All that is known of a report
pub record IsReported {W Request : Type 0} (baseline : RuntimeProvenance)
    (suite : FrozenSuite Request) (report : CampaignReport Request) (s : State W Request)
    : Type 0 where
  pub exhaustive : IsExhaustive suite report s
  pub attributed : All IsAttributed report.attempts
  pub summarized :
      report.summary
      ≡ summarize (keep (is_selected report.request.case_ids) suite.cases) report.attempts
  pub provided : report.provenance ≡ campaign_provenance report.attempts baseline

List-cases : (texts : List String) → (texts ≡ []) ⊎ (is_nonempty texts ≡ true)
List-cases [] = inl refl
List-cases (_ ∷ _) = inr refl

module _ {W Request : Type 0} (env : Env W Request) (digest : List String → String)
    (baseline : RuntimeProvenance) where
  -- A campaign over known cases runs to its end; its attempts are attributed.
  run_suite_lem :
      (request : CampaignRequest) (world : W) (suite : FrozenSuite Request)
      → unknown_ids request.case_ids suite.cases ≡ []
      → (report : CampaignReport Request) × (s : State W Request) × (run_suite env digest baseline
            request world suite
          ≡ ok (report, s))
        × (report.request ≡ request)
        × IsReported baseline suite report s
  unfolding run_suite close_campaign numbered
  run_suite_lem request world suite known =
      let selected = keep (is_selected request.case_ids) suite.cases in
      let configuration_digest = digest (map case_id_of selected) in
      let setting = setting_of suite configuration_digest in
      let start : State W Request = record {
        attempts = [];
        files = [];
        world = (env.uuid world).1;
      } in
      let (records, last, ran, facts) =
        run_cases_lem env setting (pos_part request.repetitions) selected start refl in
      let report : CampaignReport Request = record {
        request = request;
        configuration_digest = configuration_digest;
        suite = suite.manifest;
        provenance = campaign_provenance last.attempts baseline;
        cases = records;
        attempts = last.attempts;
        summary = summarize selected last.attempts;
        campaign_id = (env.uuid world).0;
      } in
      let payload : Payload Request =
        report_payload report (attempt_files 1 (length last.attempts)) in
      let written : write_json_exclusive report_file payload last.files
          ≡ ok (numbered 1 last.attempts ++ (report_file, payload) ∷ []) =
        ap (write_json_exclusive report_file payload) facts.filed
        ∙ write_report_lem payload last.attempts in
      (
        report,
        record last { files = numbered 1 last.attempts ++ (report_file, payload) ∷ [] },
        rw (known, ran, written) refl,
        refl,
        record {
          exhaustive = record {
            attempts_kept = facts.grown;
            slots_planned = ap (map slot_of) facts.grown ∙ facts.slots_planned;
            headings = facts.headings;
            files_written = refl;
          };
          attributed = subst (All IsAttributed) (sym facts.grown) facts.attributed;
          summarized = refl;
          provided = refl;
        },
      )

  -- A request for a registered suite, with no case that the suite does not know, always returns a
  -- report. Its attempts are, in the order of the suite and counted from 1, as many of each
  -- selected eligible case as the request asks for and none of any other, each with the request,
  -- the identities and the digest of the campaign. The records have the selected cases in order,
  -- and hold these attempts. The directory holds one file for each attempt under its number, then
  -- the report, which lists them.
  pub run-IsExhaustive :
      (suites : List (FrozenSuite Request)) (request : CampaignRequest) (world : W)
      (suite : FrozenSuite Request)
      → find_suite request.suite suites ≡ some suite
      → unknown_ids request.case_ids suite.cases ≡ []
      → (report : CampaignReport Request) × (s : State W Request) × (run env digest baseline suites
            request world
          ≡ ok (report, s))
        × (report.request ≡ request)
        × IsExhaustive suite report s
  unfolding run
  run-IsExhaustive suites request world suite found known =
      let (report, s, ran, asked, reported) = run_suite_lem request world suite known in
      (report, s, rw (found, run) ran, asked, reported.exhaustive)

  known_of_ok :
      (request : CampaignRequest) (world : W) (suite : FrozenSuite Request)
      {result : CampaignReport Request × State W Request}
      → run_suite env digest baseline request world suite ≡ ok result
      → unknown_ids request.case_ids suite.cases ≡ []
  unfolding run_suite
  known_of_ok request world suite returned =
      elim (List-cases (unknown_ids request.case_ids suite.cases)) [
        | inl known ↦ known
        | inr unknown ↦ let e = rw unknown at returned in cc
      ]

  -- A report comes from a registered suite whose cases are known.
  pub run-eq-ok :
      (suites : List (FrozenSuite Request)) (request : CampaignRequest) (world : W)
      {report : CampaignReport Request} {s : State W Request}
      → run env digest baseline suites request world ≡ ok (report, s)
      → (suite : FrozenSuite Request) × (find_suite request.suite suites ≡ some suite)
        × (report.request ≡ request)
        × IsReported baseline suite report s
  unfolding run
  run-eq-ok suites request world returned = elim (Option-cases (find_suite request.suite suites)) [
    | inl missing ↦ let e = rw (missing, run) at returned in cc
    | inr (suite, found) ↦
        let ran = rw (found, run) at returned in
        let (report', s', ran', asked, reported) =
          run_suite_lem request world suite (known_of_ok request world suite ran) in
        let same : ◌≡◌ {A = CampaignReport Request × State W Request} (report', s') (_, _) =
          ok-injective (sym ran' ∙ ran) in
        let (asked', reported') =
          subst
            (λ result. (result.0.request ≡ request) × IsReported baseline suite result.0 result.1)
            same (asked, reported) in
        (suite, found, asked', reported')
  ]
