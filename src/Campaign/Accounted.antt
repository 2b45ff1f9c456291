-- ===== src/Campaign/Accounted.antt =====
-- Proofs on the summary that `EvaluationCampaign.run` makes: its counts, costs and tokens against
-- the attempts.
use mathlib.Core.Path.{subst, ap₂}
use pan_agent.Base.{
  ℕ, ◌+◌, String, ◌≡◌, ◌⊎◌, refl, sym, ap, ◌∙◌, Bool, true, false, ◌&&◌, Option, none, some, List,
  [], ◌∷◌, arith, if◌then◌else◌, length, count_if, All, keep, ltb, ◌==◌, inl, inr,
}
use pan_agent.Base.Int.{pos}
use pan_agent.Base.Result.{ok}
use pan_agent.Campaign.{State, run}
use pan_agent.Campaign.Types.{
  RunUsage, is_eligible, FrozenSuite, CampaignRequest, CampaignAttempt, CampaignCaseRecord,
  CampaignReport, RuntimeProvenance,
}
use pan_agent.Campaign.Summary.{
  total, observed, identity, complete, has_passed, usage_of, cost_of, summarize, count_of, over,
}
use pan_agent.Campaign.Selection.{is_selected}
use pan_agent.Campaign.Attempts.{Env}
use pan_agent.Campaign.Counting.{
  count_in, snd, has_key, is_failure, count_in-counts, total-counts, count_three, count_errors,
}
use pan_agent.Campaign.Enumerated.{IsReported, run-eq-ok}
use pan_agent.Campaign.Records.{heading, heading_of}
use pan_agent.Campaign.Observed.{
  Found, IsIncomplete, value_or_zero, ratio-suc, difference, and_then, observed-observed,
  all_or_none, ineligible_heading, count_if-map,
}

module _ {Request : Type 0} where
  -- The usage of an attempt, if it has all four token counts
  abbrev complete_of : CampaignAttempt Request → Option RunUsage
  complete_of attempt = and_then complete attempt.usage

  -- A total over all attempts, which is reported where there are some and each has complete usage
  abbrev pub IsTotal : (RunUsage → Option ℕ) → List (CampaignAttempt Request) → Option ℕ → Type 0
  IsTotal tokens attempts reported =
      ((reported ≡ none) × IsIncomplete complete_of attempts)
      ⊎ (All (Found complete_of) attempts
          × (reported
              ≡ some
                  (total (value_or_zero (λ usage. count_of (tokens usage)) complete_of) attempts)))

  abbrev is_ineligible_record : CampaignCaseRecord Request → Bool
  is_ineligible_record entry = if is_eligible entry.eligibility then false else true

  -- What the summary of a report says of its attempts
  pub record IsAccounted (report : CampaignReport Request) : Type 0 where
    pub attempted : report.summary.attempted ≡ length report.attempts
    pub passed : report.summary.passed ≡ count_if has_passed report.attempts
    pub failed : report.summary.failed ≡ pos (count_if is_failure report.attempts)
    pub divided :
        report.summary.passed + count_if is_failure report.attempts + report.summary.errors
        ≡ report.summary.attempted
    pub causes :
        (key : String)
        → count_in key report.summary.failure_attribution ≡ count_if (has_key key) report.attempts
    pub caused :
        total snd report.summary.failure_attribution + report.summary.passed
        ≡ report.summary.attempted
    pub errors :
        report.summary.errors
        ≡ count_in "runtime.exception" report.summary.failure_attribution
          + count_in "evaluation.error" report.summary.failure_attribution
          + count_in "evaluation.not_run" report.summary.failure_attribution
    pub ineligible : report.summary.ineligible ≡ count_if is_ineligible_record report.cases
    pub cost :
        ((report.summary.cost_per_task_usd ≡ none) × IsIncomplete cost_of report.attempts)
        ⊎ (All (Found cost_of) report.attempts
            × (report.summary.cost_per_task_usd
                ≡ some (record {
                  numerator = total (value_or_zero identity cost_of) report.attempts;
                  denominator = length report.attempts;
                })))
    pub input : IsTotal (λ usage. usage.input_tokens) report.attempts report.summary.input_tokens
    pub output : IsTotal (λ usage. usage.output_tokens) report.attempts report.summary.output_tokens
    pub cache_read :
        IsTotal (λ usage. usage.cache_read_tokens) report.attempts report.summary.cache_read_tokens
    pub cache_write :
        IsTotal
          (λ usage. usage.cache_write_tokens)
          report.attempts
          report.summary.cache_write_tokens

  cost_lem :
      (attempts : List (CampaignAttempt Request))
      → let reported =
          over
            (if ltb 0 (length attempts) && length (observed cost_of attempts) == length attempts
              then some (total identity (observed cost_of attempts))
              else none)
            (length attempts) in
        ((reported ≡ none) × IsIncomplete cost_of attempts)
        ⊎ (All (Found cost_of) attempts
            × (reported
                ≡ some (record {
                  numerator = total (value_or_zero identity cost_of) attempts;
                  denominator = length attempts;
                })))
  cost_lem [] = inl (refl, λ _. refl)
  cost_lem (attempt ∷ attempts) =
      let all_attempts = attempt ∷ attempts in
      elim (all_or_none identity cost_of all_attempts) [
        | inl (e, lacks) ↦ inl (ap (λ cost. over cost (length all_attempts)) e, lacks)
        | inr (found, e) ↦
            inr (
              found,
              ap (λ cost. over cost (length all_attempts)) e ∙ ratio-suc _ (length attempts),
            )
      ]

  tokens_lem :
      (tokens : RunUsage → Option ℕ) (attempts : List (CampaignAttempt Request))
      → let complete_tokens = observed complete (observed usage_of attempts) in
        IsTotal tokens attempts (
          if ltb 0 (length attempts) && length complete_tokens == length attempts
          then some (total (λ usage. count_of (tokens usage)) complete_tokens)
          else none)
  tokens_lem tokens attempts =
      subst
        (λ found. IsTotal tokens attempts (
          if ltb 0 (length attempts) && length found == length attempts
          then some (total (λ usage. count_of (tokens usage)) found)
          else none))
        (sym (observed-observed complete usage_of attempts))
        (all_or_none (λ usage. count_of (tokens usage)) complete_of attempts)

  pub IsReported-IsAccounted :
      {W : Type 0} {baseline : RuntimeProvenance} {suite : FrozenSuite Request}
      (report : CampaignReport Request) (s : State W Request)
      → IsReported baseline suite report s
      → IsAccounted report
  unfolding summarize
  IsReported-IsAccounted {suite = suite} report s reported =
      let attempts = report.attempts in
      let selected = keep (is_selected report.request.case_ids) suite.cases in
      let three = count_three attempts reported.attributed in
      subst (λ summary. IsAccounted (record report { summary = summary })) (sym reported.summarized)
        (record {
          attempted = refl;
          passed = refl;
          failed = difference _ _ _ _ (omega (arith, three));
          divided = omega (arith, three);
          causes = λ key. count_in-counts key attempts;
          caused = total-counts attempts reported.attributed;
          errors =
              count_errors attempts
              ∙ sym (
                  ap₂ (λ m n. m + n)
                    (ap₂ (λ m n. m + n) (count_in-counts "runtime.exception" attempts)
                      (count_in-counts "evaluation.error" attempts))
                    (count_in-counts "evaluation.not_run" attempts));
          ineligible =
              sym (count_if-map ineligible_heading heading selected)
              ∙ ap (count_if ineligible_heading) (sym reported.exhaustive.headings)
              ∙ count_if-map ineligible_heading heading_of report.cases;
          cost = cost_lem attempts;
          input = tokens_lem (λ usage. usage.input_tokens) attempts;
          output = tokens_lem (λ usage. usage.output_tokens) attempts;
          cache_read = tokens_lem (λ usage. usage.cache_read_tokens) attempts;
          cache_write = tokens_lem (λ usage. usage.cache_write_tokens) attempts;
        })

-- When a campaign returns a report, its summary counts the attempts. Each is passed, failed or
-- erroneous, the three numbers add up, and the number of failed ones is not negative. The table of
-- causes counts each attribution as often as it stands among the attempts, covers all that have
-- not passed, and the errors are those of three causes. The ineligible cases are those among the
-- records. The cost per task and the four token totals are given exactly where there are attempts and
-- each of them has the figures, and then they are the sums over all attempts.
pub run-IsAccounted :
    {W Request : Type 0} (env : Env W Request) (digest : List String → String)
    (baseline : RuntimeProvenance) (suites : List (FrozenSuite Request)) (request : CampaignRequest)
    (world : W) {report : CampaignReport Request} {s : State W Request}
    → run env digest baseline suites request world ≡ ok (report, s)
    → IsAccounted report
run-IsAccounted env digest baseline suites request world {report} {s} returned =
    let (suite, found, asked, reported) =
      run-eq-ok env digest baseline suites request world returned in
    IsReported-IsAccounted report s reported
