-- ===== src/Campaign/Records.antt =====
-- Proofs on the loops of `EvaluationCampaign.run` over the cases and their repetitions.
use mathlib.Core.Path.{ap₂}
use mathlib.Core.List.{append-nil, append_assoc, map-append}
use pan_agent.Base.{
  ℕ, zero, suc, ◌+◌, String, ◌≡◌, refl, sym, ap, ◌∙◌, Option, List, [], ◌∷◌, ◌++◌, map, All,
  All-append,
}
use pan_agent.Base.Result.{ok}
use pan_agent.Campaign.{State, repeat, run_cases, case_record, rounds_of}
use pan_agent.Campaign.Types.{BenchmarkCase, CampaignAttempt, CampaignCaseRecord, CaseEligibility}
use pan_agent.Campaign.Attempts.{Env, Setting, run_attempt}
use pan_agent.Campaign.Counting.{IsAttributed}
use pan_agent.Campaign.Planned.{
  slot_of, slots, planned, run_attempt-IsAttributed, slot_of-run_attempt, IsFiled, note_attempt_lem,
}

-- What a record says of its case
pub record Heading : Type 0 where
  pub case_id : String
  pub source_case_id : String
  pub eligibility : CaseEligibility
  pub ineligibility_reason : Option String

module _ {Request : Type 0} where
  abbrev pub heading : BenchmarkCase Request → Heading
  heading case = record {
    case_id = case.case_id;
    source_case_id = case.source_case_id;
    eligibility = case.eligibility;
    ineligibility_reason = case.ineligibility_reason;
  }

  abbrev pub heading_of : CampaignCaseRecord Request → Heading
  heading_of entry = record {
    case_id = entry.case_id;
    source_case_id = entry.source_case_id;
    eligibility = entry.eligibility;
    ineligibility_reason = entry.ineligibility_reason;
  }

  -- The attempts of all records, one after the other
  unfoldable pub attempts_of : List (CampaignCaseRecord Request) → List (CampaignAttempt Request)
  attempts_of [] = []
  attempts_of (entry ∷ entries) = entry.attempts ++ attempts_of entries

module _ {W Request : Type 0} (env : Env W Request) (setting : Setting) where
  repeat_lem :
      (case : BenchmarkCase Request) (repetition left : ℕ) (s : State W Request)
      → IsFiled s
      → (tried : List (CampaignAttempt Request)) × (next : State W Request) × (repeat env setting
            case repetition left s
          ≡ ok (tried, next))
        × (next.attempts ≡ s.attempts ++ tried)
        × (map slot_of tried ≡ slots setting case repetition left)
        × All IsAttributed tried
        × IsFiled next
  unfolding repeat slots
  repeat_lem case repetition zero s filed =
      ([], s, refl, sym (append-nil s.attempts), refl, tt, filed)
  repeat_lem case repetition (suc left) s filed =
      let (attempt, world) = run_attempt env setting case repetition s.world in
      let (next, noted, added, filed') =
        note_attempt_lem (run_attempt env setting case repetition s.world).0
          (run_attempt env setting case repetition s.world).1 s filed in
      let (tried, last, repeated, grown, planned', attributed, filed'') =
        repeat_lem case (repetition + 1) left next filed' in
      (
        (run_attempt env setting case repetition s.world).0 ∷ tried,
        last,
        rw (noted, repeated) refl,
        grown ∙ rw added (append_assoc s.attempts _ tried),
        ap₂ (λ first rest. first ∷ rest) (slot_of-run_attempt env setting case repetition s.world)
            planned',
        (run_attempt-IsAttributed env setting case repetition s.world, attributed),
        filed'',
      )

  -- What the loop over the cases leaves
  pub record IsEnumerated (repetitions : ℕ) (cases : List (BenchmarkCase Request))
      (before : State W Request) (records : List (CampaignCaseRecord Request))
      (after : State W Request) : Type 0 where
    pub grown : after.attempts ≡ before.attempts ++ attempts_of records
    pub slots_planned : map slot_of (attempts_of records) ≡ planned setting repetitions cases
    pub headings : map heading_of records ≡ map heading cases
    pub attributed : All IsAttributed (attempts_of records)
    pub filed : IsFiled after

  pub run_cases_lem :
      (repetitions : ℕ) (cases : List (BenchmarkCase Request)) (s : State W Request)
      → IsFiled s
      → (records : List (CampaignCaseRecord Request)) × (next : State W Request) × (run_cases env
            setting repetitions cases s
          ≡ ok (records, next))
        × IsEnumerated repetitions cases s records next
  unfolding run_cases attempts_of planned
  run_cases_lem repetitions [] s filed = (
    [],
    s,
    refl,
    record {
      grown = sym (append-nil s.attempts);
      slots_planned = refl;
      headings = refl;
      attributed = tt;
      filed = filed;
    },
  )
  run_cases_lem repetitions (case ∷ cases) s filed =
      let (tried, next, repeated, grown, planned', attributed, filed') =
        repeat_lem case 1 (rounds_of repetitions case) s filed in
      let (records, last, ran, rest) = run_cases_lem repetitions cases next filed' in
      (
        case_record case tried ∷ records,
        last,
        rw (repeated, ran) refl,
        record {
          grown = rest.grown ∙ rw grown (append_assoc s.attempts tried (attempts_of records));
          slots_planned =
              map-append slot_of tried (attempts_of records)
              ∙ ap₂ (λ front back. front ++ back) planned' rest.slots_planned;
          headings = ap (λ back. heading case ∷ back) rest.headings;
          attributed =
              All-append IsAttributed tried (attempts_of records) attributed rest.attributed;
          filed = rest.filed;
        },
      )
