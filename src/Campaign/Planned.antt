-- ===== src/Campaign/Planned.antt =====
-- The schedule of a campaign, and lemmas on one attempt and on the numbered files of the attempts.
use native.Mathlib.Nat.{add-zero}
use mathlib.Core.Path.{ap₂}
use pan_agent.Base.{
  ℕ, zero, suc, ◌+◌, ◌≤◌, String, ◌≡◌, refl, sym, ◌∙◌, Bool, true, false, Option, none, some, List,
  [], ◌∷◌, ◌++◌, arith, if◌then◌else◌, length, length-append, any, ◌==◌,
}
use pan_agent.Base.Result.{Result, ok, err}
use pan_agent.Campaign.{
  FileName, attempt_file, report_file, Payload, attempt_payload, Files, name_eq, State,
  write_json_exclusive, note_attempt, rounds_of,
}
use pan_agent.Campaign.Types.{SuiteSelector, Report, RunUsage, BenchmarkCase, CampaignAttempt}
use pan_agent.Campaign.Summary.{attempt_failure_attribution, failed_attribution}
use pan_agent.Campaign.Attempts.{Env, Setting, checked_report, attempt_of, run_attempt}
use pan_agent.Campaign.Counting.{Agrees, IsAttributed}

-- What is known of an attempt before it runs
pub record Slot (Request : Type 0) : Type 0 where
  pub suite : SuiteSelector
  pub case_id : String
  pub source_case_id : String
  pub repetition : ℕ
  pub request : Request
  pub transform_hash : String
  pub configuration_digest : String

Agrees-if : (passed : Bool) (text : String) → Agrees passed (if passed then none else some text)
Agrees-if true text = refl
Agrees-if false text = (text, refl)

module _ {Request : Type 0} where
  abbrev pub slot_of : CampaignAttempt Request → Slot Request
  slot_of attempt = record {
    suite = attempt.suite;
    case_id = attempt.case_id;
    source_case_id = attempt.source_case_id;
    repetition = attempt.repetition;
    request = attempt.request;
    transform_hash = attempt.transform_hash;
    configuration_digest = attempt.configuration_digest;
  }

  abbrev pub slot : Setting → BenchmarkCase Request → ℕ → Slot Request
  slot setting case repetition = record {
    suite = setting.suite;
    case_id = case.case_id;
    source_case_id = case.source_case_id;
    repetition = repetition;
    request = case.request;
    transform_hash = setting.transform_hash;
    configuration_digest = setting.configuration_digest;
  }

  -- The slots of a case from a repetition on
  unfoldable pub slots : Setting → BenchmarkCase Request → ℕ → ℕ → List (Slot Request)
  slots setting case repetition zero = []
  slots setting case repetition (suc left) =
      slot setting case repetition ∷ slots setting case (repetition + 1) left

  -- The slots of all cases, in their order: an eligible one as often as asked, any other never
  unfoldable pub planned : Setting → ℕ → List (BenchmarkCase Request) → List (Slot Request)
  planned setting repetitions [] = []
  planned setting repetitions (case ∷ cases) =
      slots setting case 1 (rounds_of repetitions case) ++ planned setting repetitions cases

  checked-IsAttributed :
      (setting : Setting) (case : BenchmarkCase Request) (repetition : ℕ)
      (started finished : String) (duration : ℕ)
      (outcome : Result String (Report × Option RunUsage))
      → IsAttributed (attempt_of setting case repetition started finished duration outcome)
  unfolding attempt_of attempt_failure_attribution
  checked-IsAttributed setting case repetition started finished duration (err message) =
      ("runtime.exception", refl)
  checked-IsAttributed setting case repetition started finished duration (ok (report, usage)) =
      Agrees-if report.passed (failed_attribution report)

  pub run_attempt-IsAttributed :
      {W : Type 0} (env : Env W Request) (setting : Setting) (case : BenchmarkCase Request)
      (repetition : ℕ) (world : W)
      → IsAttributed (run_attempt env setting case repetition world).0
  unfolding run_attempt
  run_attempt-IsAttributed env setting case repetition world =
      checked-IsAttributed setting case repetition _ _ _ (checked_report _)

  checked_slot :
      (setting : Setting) (case : BenchmarkCase Request) (repetition : ℕ)
      (started finished : String) (duration : ℕ)
      (outcome : Result String (Report × Option RunUsage))
      → slot_of (attempt_of setting case repetition started finished duration outcome)
        ≡ slot setting case repetition
  unfolding attempt_of
  checked_slot setting case repetition started finished duration (err message) = refl
  checked_slot setting case repetition started finished duration (ok (report, usage)) = refl

  pub slot_of-run_attempt :
      {W : Type 0} (env : Env W Request) (setting : Setting) (case : BenchmarkCase Request)
      (repetition : ℕ) (world : W)
      → slot_of (run_attempt env setting case repetition world).0 ≡ slot setting case repetition
  unfolding run_attempt
  slot_of-run_attempt env setting case repetition world =
      checked_slot setting case repetition _ _ _ (checked_report _)

  -- The attempts under their numbers
  unfoldable pub numbered : ℕ → List (CampaignAttempt Request) → Files Request
  numbered first [] = []
  numbered first (attempt ∷ attempts) =
      (attempt_file first, attempt_payload attempt) ∷ numbered (first + 1) attempts

  numbered-append :
      (first : ℕ) (attempts : List (CampaignAttempt Request)) (attempt : CampaignAttempt Request)
      → numbered first (attempts ++ attempt ∷ [])
        ≡ numbered first attempts
          ++ (attempt_file (first + length attempts), attempt_payload attempt) ∷ []
  unfolding numbered
  numbered-append first [] attempt = rw (add-zero first) refl
  numbered-append first (other ∷ attempts) attempt =
      let e : first + 1 + length attempts ≡ first + suc (length attempts) = omega arith in
      rw (numbered-append (first + 1) attempts attempt, e) refl

  -- A number that is not yet reached names no file.
  number_is_free :
      (n first : ℕ) (attempts : List (CampaignAttempt Request))
      → first + length attempts ≤ n
      → any (λ file. name_eq file.0 (attempt_file n)) (numbered first attempts) ≡ false
  unfolding numbered
  number_is_free n first [] below = refl
  number_is_free n first (attempt ∷ attempts) below =
      let rest = number_is_free n (first + 1) attempts (omega arith) in
      let differs : (first == n) ≡ false = ground arith in rw (differs, rest) refl

  report_is_free :
      (first : ℕ) (attempts : List (CampaignAttempt Request))
      → any (λ file. name_eq file.0 report_file) (numbered first attempts) ≡ false
  unfolding numbered
  report_is_free first [] = refl
  report_is_free first (attempt ∷ attempts) = report_is_free (first + 1) attempts

  -- The files are those of the attempts.
  abbrev pub IsFiled : {W : Type 0} → State W Request → Type 0
  IsFiled s = s.files ≡ numbered 1 s.attempts

  -- The file of the next attempt is never there, so that the attempt is noted.
  pub note_attempt_lem :
      {W : Type 0} (attempt : CampaignAttempt Request) (world : W) (s : State W Request)
      → IsFiled s
      → (next : State W Request) × (note_attempt attempt world s ≡ ok next)
        × (next.attempts ≡ s.attempts ++ attempt ∷ [])
        × IsFiled next
  unfolding note_attempt write_json_exclusive
  note_attempt_lem attempt world s filed =
      let attempts = s.attempts ++ attempt ∷ [] in
      let number : length attempts ≡ 1 + length s.attempts =
        omega (arith, length-append s.attempts (attempt ∷ [])) in
      let free : any (λ file. name_eq file.0 (attempt_file (length attempts))) s.files ≡ false =
        rw filed (number_is_free (length attempts) 1 s.attempts (omega (arith, number))) in
      let entry : ℕ → FileName × Payload Request =
        λ (n : ℕ). (attempt_file n, attempt_payload attempt) in
      let filed' : s.files ++ entry (length attempts) ∷ [] ≡ numbered 1 attempts =
        ap₂ (λ files n. files ++ entry n ∷ []) filed number
        ∙ sym (numbered-append 1 s.attempts attempt) in
      (
        record {
          attempts = attempts;
          files = s.files ++ entry (length attempts) ∷ [];
          world = world;
        },
        rw free refl,
        refl,
        filed',
      )

  pub write_report_lem :
      (payload : Payload Request) (attempts : List (CampaignAttempt Request))
      → write_json_exclusive report_file payload (numbered 1 attempts)
        ≡ ok (numbered 1 attempts ++ (report_file, payload) ∷ [])
  unfolding write_json_exclusive
  write_report_lem payload attempts = rw (report_is_free 1 attempts) refl
