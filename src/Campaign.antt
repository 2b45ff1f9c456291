-- ===== src/Campaign.antt =====
-- workspace_agent_harness/__init__.py: the loops of `EvaluationCampaign.run` over cases and repetitions,
-- and the report. `_content_digest` of the configuration is the argument `digest`. A campaign's
-- directory is new and holds the files that the run writes: one for each attempt, named by its
-- number, and the report.
pub mod Types
pub mod Summary
pub mod Origins
pub mod Selection
pub mod Attempts
pub mod Registry
pub mod Registered
pub mod Counting
pub mod Planned
pub mod Records
pub mod Enumerated
pub mod Observed
pub mod Accounted
pub mod Provided
pub mod Distinct
pub mod Covered
pub mod Examples
pub mod Tests
use pan_agent.Base.{
  ℕ, zero, suc, ◌+◌, String, Bool, true, false, Option, none, some, List, [], ◌∷◌, ◌++◌, map,
  if◌then◌else◌, length, any, keep, ◌==◌,
}
use pan_agent.Base.Int.{pos_part}
use pan_agent.Base.Result.{Result, ok, err, ◌>>=◌, ◌>>◌, raise_if}
use pan_agent.Campaign.Types.{
  RuntimeProvenance, is_eligible, BenchmarkCase, FrozenSuite, CampaignRequest, CampaignAttempt,
  CampaignCaseRecord, CampaignReport,
}
use pan_agent.Campaign.Summary.{summarize}
use pan_agent.Campaign.Origins.{campaign_provenance}
use pan_agent.Campaign.Selection.{
  CampaignError, suite_not_registered, unknown_case_ids, file_exists, find_suite, unknown_ids,
  is_selected, is_nonempty, case_id_of,
}
use pan_agent.Campaign.Attempts.{Env, Setting, setting_of, run_attempt}

-- An artifact of a campaign: `attempts/attempt-{n:06d}.json` or `report.json`
pub data FileName : Type 0 where
  attempt_file : ℕ → FileName
  report_file : FileName

pub data Payload (Request : Type 0) : Type 0 where
  attempt_payload : CampaignAttempt Request → Payload Request
  report_payload : CampaignReport Request → List FileName → Payload Request

abbrev pub Files : Type 0 → Type 0
Files Request = List (FileName × Payload Request)

abbrev pub name_eq : FileName → FileName → Bool
name_eq (attempt_file m) (attempt_file n) = m == n
name_eq report_file report_file = true
name_eq _ _ = false

-- Opening with mode "x" fails where the file is there.
unfoldable pub write_json_exclusive :
    {Request : Type 0}
    → FileName
    → Payload Request
    → Files Request
    → Result CampaignError (Files Request)
write_json_exclusive name payload files = do
  raise_if (any (λ file. name_eq file.0 name) files) file_exists
  ok (files ++ (name, payload) ∷ [])

-- The local variables of the loop, and the files
pub record State (W Request : Type 0) : Type 0 where
  pub attempts : List (CampaignAttempt Request)
  pub files : Files Request
  pub world : W

-- [f"attempts/attempt-{index:06d}.json" for index in range(first, first + count)]
unfoldable pub attempt_files : ℕ → ℕ → List FileName
attempt_files first zero = []
attempt_files first (suc count) = attempt_file first ∷ attempt_files (first + 1) count

module _ {Request : Type 0} where
  abbrev pub case_record :
      BenchmarkCase Request → List (CampaignAttempt Request) → CampaignCaseRecord Request
  case_record case attempts = record {
    case_id = case.case_id;
    source_case_id = case.source_case_id;
    eligibility = case.eligibility;
    ineligibility_reason = case.ineligibility_reason;
    attempts = attempts;
  }

  -- The repetitions of a case: none of an ineligible one
  abbrev pub rounds_of : ℕ → BenchmarkCase Request → ℕ
  rounds_of repetitions case = if is_eligible case.eligibility then repetitions else 0

module _ {W Request : Type 0} where
  -- attempts.append(attempt) and the file of the attempt
  unfoldable pub note_attempt :
      CampaignAttempt Request → W → State W Request → Result CampaignError (State W Request)
  note_attempt attempt world s = do
    let attempts = s.attempts ++ attempt ∷ []
    files ← write_json_exclusive (attempt_file (length attempts)) (attempt_payload attempt) s.files
    ok (record { attempts = attempts; files = files; world = world })

  -- `for repetition in range(...)`, with the repetitions that are left; returns `case_attempts`
  unfoldable pub repeat :
      Env W Request
      → Setting
      → BenchmarkCase Request
      → ℕ
      → ℕ
      → State W Request
      → Result CampaignError (List (CampaignAttempt Request) × State W Request)
  repeat env setting case repetition zero s = ok ([], s)
  repeat env setting case repetition (suc left) s = do
    let attempted = run_attempt env setting case repetition s.world
    next ← note_attempt attempted.0 attempted.1 s
    rest ← repeat env setting case (repetition + 1) left next
    ok (attempted.0 ∷ rest.0, rest.1)

  -- `for case in selected`; returns `records`
  unfoldable pub run_cases :
      Env W Request
      → Setting
      → ℕ
      → List (BenchmarkCase Request)
      → State W Request
      → Result CampaignError (List (CampaignCaseRecord Request) × State W Request)
  run_cases env setting repetitions [] s = ok ([], s)
  run_cases env setting repetitions (case ∷ cases) s = do
    tried ← repeat env setting case 1 (rounds_of repetitions case) s
    rest ← run_cases env setting repetitions cases tried.1
    ok (case_record case tried.0 ∷ rest.0, rest.1)

  -- The report, and the files with the report's own
  unfoldable pub close_campaign :
      CampaignRequest
      → RuntimeProvenance
      → FrozenSuite Request
      → String
      → String
      → List (BenchmarkCase Request)
      → List (CampaignCaseRecord Request) × State W Request
      → Result CampaignError (CampaignReport Request × State W Request)
  close_campaign request baseline suite configuration_digest campaign_id selected (records, s) = do
    let report : CampaignReport Request = record {
      request = request;
      configuration_digest = configuration_digest;
      suite = suite.manifest;
      provenance = campaign_provenance s.attempts baseline;
      cases = records;
      attempts = s.attempts;
      summary = summarize selected s.attempts;
      campaign_id = campaign_id;
    }
    files ←
        write_json_exclusive report_file
          (report_payload report (attempt_files 1 (length s.attempts))) s.files
    ok (report, record s { files = files })

  -- The part of `run` after the suite has been found
  unfoldable pub run_suite :
      Env W Request
      → (List String → String)
      → RuntimeProvenance
      → CampaignRequest
      → W
      → FrozenSuite Request
      → Result CampaignError (CampaignReport Request × State W Request)
  run_suite env digest baseline request world suite = do
    let unknown = unknown_ids request.case_ids suite.cases
    raise_if (is_nonempty unknown) (unknown_case_ids unknown)
    let selected = keep (is_selected request.case_ids) suite.cases
    let configuration_digest = digest (map case_id_of selected)
    let named = env.uuid world
    finished ←
        run_cases env (setting_of suite configuration_digest) (pos_part request.repetitions)
          selected (record { attempts = []; files = []; world = named.1 })
    close_campaign request baseline suite configuration_digest named.0 selected finished

  unfoldable pub run :
      Env W Request
      → (List String → String)
      → RuntimeProvenance
      → List (FrozenSuite Request)
      → CampaignRequest
      → W
      → Result CampaignError (CampaignReport Request × State W Request)
  run env digest baseline suites request world = elim (find_suite request.suite suites) [
    | none ↦ err (suite_not_registered request.suite)
    | some suite ↦ run_suite env digest baseline request world suite
  ]
