-- ===== src/Campaign/Observed.antt =====
-- Lemmas on what is observed of the attempts of a campaign, and on the sums and means over it.
use pan_agent.Base.{
  ℕ, suc, ◌+◌, ◌≤◌, ◌≡◌, ◌⊎◌, refl, sym, ap, ◌∙◌, Bool, true, false, ◌&&◌, Option, none, some, List,
  [], ◌∷◌, map, arith, if◌then◌else◌, length, count_if, All, ltb, ◌==◌, Option-cases, Bool-cases,
  inl, inr, and-eq-true, ==_iff,
}
use pan_agent.Base.Int.{pos, ◌-ℤ◌}
use pan_agent.Campaign.Types.{is_eligible}
use pan_agent.Campaign.Summary.{total, observed, ratio}
use pan_agent.Campaign.Records.{Heading}

-- Each item has a value, and these are all that is observed.
length-observed-le :
    {A B : Type 0} (value : A → Option B) (items : List A)
    → length (observed value items) ≤ length items
unfolding observed
length-observed-le value [] = omega arith
length-observed-le value (item ∷ items) = elim (Option-cases (value item)) [
  | inl e ↦ rw (e, observed) (omega (arith, length-observed-le value items))
  | inr (found, e) ↦ rw (e, observed) (omega (arith, length-observed-le value items))
]

abbrev pub Found : {A B : Type 0} → (A → Option B) → A → Type 0
Found {B = B} value item = (found : B) × (value item ≡ some found)

all_observed :
    {A B : Type 0} (value : A → Option B) (items : List A)
    → length (observed value items) ≡ length items
    → All (Found value) items
unfolding observed
all_observed value [] same = tt
all_observed value (item ∷ items) same = elim (Option-cases (value item)) [
  | inl e ↦
      let short = rw (e, observed) at same in
      absurd (omega (arith, short, length-observed-le value items))
  | inr (found, e) ↦
      let tail = rw (e, observed) at same in
      ((found, e), all_observed value items (omega (arith, tail)))
]

-- The sum over what is observed is the sum over the items, where what is missing counts 0.
abbrev pub value_or_zero : {A B : Type 0} → (B → ℕ) → (A → Option B) → A → ℕ
value_or_zero size value item = elim (value item) [ none ↦ 0 | some found ↦ size found ]

total-observed :
    {A B : Type 0} (size : B → ℕ) (value : A → Option B) (items : List A)
    → total size (observed value items) ≡ total (value_or_zero size value) items
unfolding total observed
total-observed size value [] = refl
total-observed size value (item ∷ items) = elim (Option-cases (value item)) [
  | inl e ↦ rw (e, observed, value_or_zero) (omega (arith, total-observed size value items))
  | inr (found, e) ↦
      rw (e, observed, value_or_zero) (omega (arith, total-observed size value items))
]

pub ratio-suc :
    (numerator n : ℕ)
    → ratio numerator (suc n) ≡ some (record { numerator = numerator; denominator = suc n })
ratio-suc numerator n = let positive : (suc n == 0) ≡ false = ground arith in rw positive refl

-- failed = attempted - passed - errors
pub difference : (a b c n : ℕ) → b + c + n ≡ a → (pos a -ℤ pos b) -ℤ pos c ≡ pos n
difference a b c n e = ground arith

module _ {A B : Type 0} (value : A → Option B) (item : A) (items : List A) where
  observed-none : value item ≡ none → observed value (item ∷ items) ≡ observed value items
  unfolding observed
  observed-none e = rw (e, observed) refl

  observed-some :
      {found : B}
      → value item ≡ some found
      → observed value (item ∷ items) ≡ found ∷ observed value items
  unfolding observed
  observed-some e = rw (e, observed) refl

abbrev pub and_then : {A B : Type 0} → (A → Option B) → Option A → Option B
and_then f none = none
and_then f (some a) = f a

observed-nil :
    {A B C : Type 0} (outer : B → Option C) (inner : A → Option B)
    → observed outer (observed inner []) ≡ observed (λ item. and_then outer (inner item)) []
unfolding observed
observed-nil outer inner = refl

pub observed-observed :
    {A B C : Type 0} (outer : B → Option C) (inner : A → Option B) (items : List A)
    → observed outer (observed inner items) ≡ observed (λ item. and_then outer (inner item)) items
observed-observed outer inner [] = observed-nil outer inner
observed-observed {A} {B} {C} outer inner (item ∷ items) =
    let ih = observed-observed outer inner items in
    let both : A → Option C = λ item. and_then outer (inner item) in
    elim (Option-cases (inner item)) [
      | inl e ↦
          ap (observed outer) (observed-none inner item items e)
          ∙ ih
          ∙ sym (observed-none both item items (ap (and_then outer) e))
      | inr (found, e) ↦ elim (Option-cases (outer found)) [
        | inl e' ↦
            ap (observed outer) (observed-some inner item items e)
            ∙ observed-none outer found (observed inner items) e'
            ∙ ih
            ∙ sym (observed-none both item items (ap (and_then outer) e ∙ e'))
        | inr (found', e') ↦
            ap (observed outer) (observed-some inner item items e)
            ∙ observed-some outer found (observed inner items) e'
            ∙ ap (λ rest. found' ∷ rest) ih
            ∙ sym (observed-some both item items (ap (and_then outer) e ∙ e'))
      ]
    ]

observed-full :
    {A B : Type 0} (value : A → Option B) (items : List A)
    → All (Found value) items
    → length (observed value items) ≡ length items
unfolding observed
observed-full value [] found = refl
observed-full value (item ∷ items) ((here, e), found) =
    rw (e, observed) (omega (arith, observed-full value items found))

-- Some item has no value, unless there is none.
abbrev pub IsIncomplete : {A B : Type 0} → (A → Option B) → List A → Type 0
IsIncomplete value items = All (Found value) items → items ≡ []

incomplete :
    {A B : Type 0} (value : A → Option B) (items : List A)
    → (ltb 0 (length items) && length (observed value items) == length items) ≡ false
    → IsIncomplete value items
incomplete value [] e found = refl
incomplete value (item ∷ items) e found =
    let full = observed-full value (item ∷ items) found in absurd (ground (arith, full))

-- A sum that is reported where there are items and every item has a value
pub all_or_none :
    {A B : Type 0} (size : B → ℕ) (value : A → Option B) (items : List A)
    → (((if ltb 0 (length items) && length (observed value items) == length items
            then some (total size (observed value items))
            else none)
          ≡ none)
        × IsIncomplete value items)
      ⊎ (All (Found value) items
          × ((if ltb 0 (length items) && length (observed value items) == length items
                then some (total size (observed value items))
                else none)
              ≡ some (total (value_or_zero size value) items)))
all_or_none size value items =
    elim (Bool-cases (ltb 0 (length items) && length (observed value items) == length items)) [
      | inr e ↦ inl (rw e refl, incomplete value items e)
      | inl e ↦
          let same : length (observed value items) ≡ length items =
            (==_iff _ _).0 (and-eq-true (ltb 0 (length items)) _ e).1 in
          inr (all_observed value items same, rw e (ap some (total-observed size value items)))
    ]

abbrev pub ineligible_heading : Heading → Bool
ineligible_heading entry = if is_eligible entry.eligibility then false else true

pub count_if-map :
    {A B : Type 0} (test : B → Bool) (f : A → B) (items : List A)
    → count_if test (map f items) ≡ count_if (λ item. test (f item)) items
unfolding count_if
count_if-map test f [] = refl
count_if-map test f (item ∷ items) = ground (arith, count_if-map test f items)
