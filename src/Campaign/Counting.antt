-- ===== src/Campaign/Counting.antt =====
-- Lemmas on the counts of a campaign's summary: how often an attribution is counted, and how the
-- attempts divide into passed, failed and erroneous ones.
use pan_agent.Base.{
  ℕ, suc, ◌+◌, String, ◌≡◌, refl, Bool, true, false, not, ◌&&◌, ◌||◌, Option, none, some, List, [],
  ◌∷◌, arith, str_eq, eq_iff, if◌then◌else◌, length, count_if, All, sym,
}
use mathlib.Core.Path.{subst}
use pan_agent.Campaign.Types.{CampaignAttempt}
use pan_agent.Campaign.Summary.{
  count_failure, note_failure, failure_counts, total, is_error_attribution, has_passed, is_error,
}

-- counts.get(key, 0)
unfoldable pub count_in : String → List (String × ℕ) → ℕ
count_in key [] = 0
count_in key ((name, count) ∷ rest) = if str_eq name key then count else count_in key rest

abbrev pub is_key : String → Option String → Bool
is_key key none = false
is_key key (some attribution) = str_eq attribution key

abbrev pub snd : String × ℕ → ℕ
snd entry = entry.1

count_in-count_failure :
    (key other : String) (counts : List (String × ℕ))
    → count_in other (count_failure key counts)
      ≡ (if str_eq key other then 1 else 0) + count_in other counts
unfolding count_in count_failure
count_in-count_failure key other [] = ground arith
count_in-count_failure key other ((name, count) ∷ rest) = ground (
  arith,
  eq_iff key other,
  eq_iff name key,
  eq_iff name other,
  count_in-count_failure key other rest,
)

total-count_failure :
    (key : String) (counts : List (String × ℕ))
    → total snd (count_failure key counts) ≡ suc (total snd counts)
unfolding total count_failure
total-count_failure key [] = omega arith
total-count_failure key ((name, count) ∷ rest) = ground (arith, total-count_failure key rest)

count_in-note_failure :
    (key : String) (attribution : Option String) (counts : List (String × ℕ))
    → count_in key (note_failure attribution counts)
      ≡ (if is_key key attribution then 1 else 0) + count_in key counts
count_in-note_failure key none counts = omega arith
count_in-note_failure key (some attribution) counts = count_in-count_failure attribution key counts

-- A passed attempt has no attribution, and any other has one.
abbrev pub Agrees : Bool → Option String → Type 0
Agrees true attribution = attribution ≡ none
Agrees false attribution = (text : String) × (attribution ≡ some text)

total-note_failure :
    (passed : Bool) (attribution : Option String) (counts : List (String × ℕ))
    → Agrees passed attribution
    → total snd (note_failure attribution counts) + (if passed then 1 else 0)
      ≡ suc (total snd counts)
total-note_failure true attribution counts agrees = rw agrees (omega arith)
total-note_failure false attribution counts (text, agrees) =
    rw agrees (omega (arith, total-count_failure text counts))

-- Of passed, erroneous and other attempts, each is one.
one_of_three :
    (passed : Bool) (attribution : Option String)
    → Agrees passed attribution
    → (if passed then 1 else 0)
        + (if is_error_attribution attribution then 1 else 0)
        + (if not passed && not (is_error_attribution attribution) then 1 else 0)
      ≡ 1
unfolding is_error_attribution
one_of_three true attribution agrees = rw agrees refl
one_of_three false attribution agrees = ground arith

-- A text that equals one text differs from another.
only_one :
    (attribution text other : String)
    → str_eq text other ≡ false
    → str_eq attribution text ≡ true
    → str_eq attribution other ≡ false
only_one attribution text other differs same =
    subst (λ (t : String). str_eq t other ≡ false) (sym ((eq_iff attribution text).0 same)) differs

one_of_causes :
    (a b c : Bool)
    → (a ≡ true → b ≡ false)
    → (a ≡ true → c ≡ false)
    → (b ≡ true → c ≡ false)
    → (if a || (b || c) then 1 else 0)
      ≡ (if a then 1 else 0) + (if b then 1 else 0) + (if c then 1 else 0)
one_of_causes true b c ab ac bc = rw (ab refl, ac refl) refl
one_of_causes false true c ab ac bc = rw (bc refl) refl
one_of_causes false false true ab ac bc = refl
one_of_causes false false false ab ac bc = refl

-- Of the three causes of an error, an attribution is at most one.
error_causes :
    (attribution : Option String)
    → (if is_error_attribution attribution then 1 else 0)
      ≡ (if is_key "runtime.exception" attribution then 1 else 0)
        + (if is_key "evaluation.error" attribution then 1 else 0)
        + (if is_key "evaluation.not_run" attribution then 1 else 0)
unfolding is_error_attribution
error_causes none = refl
error_causes (some attribution) =
    one_of_causes (str_eq attribution "runtime.exception") (str_eq attribution "evaluation.error")
      (str_eq attribution "evaluation.not_run")
      (only_one attribution "runtime.exception" "evaluation.error" refl)
      (only_one attribution "runtime.exception" "evaluation.not_run" refl)
      (only_one attribution "evaluation.error" "evaluation.not_run" refl)

module _ {Request : Type 0} where
  abbrev pub IsAttributed : CampaignAttempt Request → Type 0
  IsAttributed attempt = Agrees attempt.passed attempt.failure_attribution

  abbrev pub has_key : String → CampaignAttempt Request → Bool
  has_key key attempt = is_key key attempt.failure_attribution

  -- An attempt that has neither passed nor ended by an error
  abbrev pub is_failure : CampaignAttempt Request → Bool
  is_failure attempt = not attempt.passed && not (is_error attempt)

  count_if-cons :
      (test : CampaignAttempt Request → Bool) (attempt : CampaignAttempt Request)
      (attempts : List (CampaignAttempt Request))
      → count_if test (attempt ∷ attempts)
        ≡ (if test attempt then 1 else 0) + count_if test attempts
  unfolding count_if
  count_if-cons test attempt attempts = ground arith

  count_in-failure_counts :
      (key : String) (counts : List (String × ℕ)) (attempts : List (CampaignAttempt Request))
      → count_in key (failure_counts counts attempts)
        ≡ count_in key counts + count_if (has_key key) attempts
  unfolding failure_counts count_if
  count_in-failure_counts key counts [] = omega arith
  count_in-failure_counts key counts (attempt ∷ attempts) = omega (
    arith,
    count_if-cons (has_key key) attempt attempts,
    count_in-failure_counts key (note_failure attempt.failure_attribution counts) attempts,
    count_in-note_failure key attempt.failure_attribution counts,
  )

  total-failure_counts :
      (counts : List (String × ℕ)) (attempts : List (CampaignAttempt Request))
      → All IsAttributed attempts
      → total snd (failure_counts counts attempts) + count_if has_passed attempts
        ≡ total snd counts + length attempts
  unfolding failure_counts count_if
  total-failure_counts counts [] attributed = omega arith
  total-failure_counts counts (attempt ∷ attempts) (first, rest) = omega (
    arith,
    count_if-cons has_passed attempt attempts,
    total-failure_counts (note_failure attempt.failure_attribution counts) attempts rest,
    total-note_failure attempt.passed attempt.failure_attribution counts first,
  )

  pub count_three :
      (attempts : List (CampaignAttempt Request))
      → All IsAttributed attempts
      → count_if has_passed attempts + count_if is_error attempts + count_if is_failure attempts
        ≡ length attempts
  unfolding count_if
  count_three [] attributed = omega arith
  count_three (attempt ∷ attempts) (first, rest) = omega (
    arith,
    count_if-cons has_passed attempt attempts,
    count_if-cons is_error attempt attempts,
    count_if-cons is_failure attempt attempts,
    count_three attempts rest,
    one_of_three attempt.passed attempt.failure_attribution first,
  )

  pub count_errors :
      (attempts : List (CampaignAttempt Request))
      → count_if is_error attempts
        ≡ count_if (has_key "runtime.exception") attempts
          + count_if (has_key "evaluation.error") attempts
          + count_if (has_key "evaluation.not_run") attempts
  unfolding count_if
  count_errors [] = omega arith
  count_errors (attempt ∷ attempts) = omega (
    arith,
    count_if-cons is_error attempt attempts,
    count_if-cons (has_key "runtime.exception") attempt attempts,
    count_if-cons (has_key "evaluation.error") attempt attempts,
    count_if-cons (has_key "evaluation.not_run") attempt attempts,
    count_errors attempts,
    error_causes attempt.failure_attribution,
  )

  pub count_in-counts :
      (key : String) (attempts : List (CampaignAttempt Request))
      → count_in key (failure_counts [] attempts) ≡ count_if (has_key key) attempts
  unfolding count_in
  count_in-counts key attempts = omega (arith, count_in-failure_counts key [] attempts)

  pub total-counts :
      (attempts : List (CampaignAttempt Request))
      → All IsAttributed attempts
      → total snd (failure_counts [] attempts) + count_if has_passed attempts ≡ length attempts
  unfolding total
  total-counts attempts attributed = omega (arith, total-failure_counts [] attempts attributed)
