-- ===== src/Authority/Sets.antt =====
-- Python sets of texts: intersection, and the sorted tuple of their members.
use pan_agent.Base.{
  ◌≡◌, refl, ap, inl, inr, Bool, true, false, ◌&&◌, ◌||◌, List, [], ◌∷◌, any, keep, ltb, ◌==◌,
  if◌then◌else◌, Bool-cases, arith,
}
use pan_agent.Base.Text.{Text, text_eq, text_eq_iff}

-- s < t, by code points
unfoldable pub text_ltb : Text → Text → Bool
text_ltb [] [] = false
text_ltb [] (_ ∷ _) = true
text_ltb (_ ∷ _) [] = false
text_ltb (c ∷ s) (d ∷ t) = ltb c d || (c == d && text_ltb s t)

-- x in xs
unfoldable pub has_text : Text → List Text → Bool
has_text x xs = any (text_eq x) xs

-- Adds a member to a sorted tuple of distinct texts.
unfoldable pub insert_text : Text → List Text → List Text
insert_text x [] = x ∷ []
insert_text x (y ∷ ys) =
    let rest = insert_text x ys in
    if text_eq x y then y ∷ ys else if text_ltb x y then x ∷ y ∷ ys else y ∷ rest

-- sorted(set(xs))
unfoldable pub sorted_set : List Text → List Text
sorted_set [] = []
sorted_set (x ∷ xs) = insert_text x (sorted_set xs)

-- sorted(set.intersection(set(a), set(b), set(c), set(d)))
unfoldable pub common : List Text → List Text → List Text → List Text → List Text
common a b c d = sorted_set (keep (λ x. has_text x b && (has_text x c && has_text x d)) a)

has_text-insert_text :
    (z x : Text) (xs : List Text) → has_text z (insert_text x xs) ≡ (text_eq z x || has_text z xs)
unfolding has_text insert_text
has_text-insert_text z x [] = refl
has_text-insert_text z x (y ∷ ys) = ground (arith, has_text-insert_text z x ys, text_eq_iff x y)

pub has_text-sorted_set : (z : Text) (xs : List Text) → has_text z (sorted_set xs) ≡ has_text z xs
unfolding has_text sorted_set
has_text-sorted_set z [] = refl
has_text-sorted_set z (x ∷ xs) =
    rw (has_text-insert_text z x (sorted_set xs))
      (ap (λ b. text_eq z x || b) (has_text-sorted_set z xs))

has_text-keep :
    (z : Text) (test : Text → Bool) (xs : List Text)
    → has_text z (keep test xs) ≡ (has_text z xs && test z)
unfolding has_text keep
has_text-keep z test [] = refl
has_text-keep z test (x ∷ xs) =
    ground (arith, has_text-keep z test xs, text_eq_iff z x, λ (e : z ≡ x). ap test e)

-- The common members are exactly those of all four.
pub has_text-common :
    (z : Text) (a b c d : List Text)
    → has_text z (common a b c d)
      ≡ (has_text z a && (has_text z b && (has_text z c && has_text z d)))
unfolding common
has_text-common z a b c d =
    rw (has_text-sorted_set z (keep (λ x. has_text x b && (has_text x c && has_text x d)) a))
      (has_text-keep z _ a)

text_ltb_total : (x y : Text) → text_eq x y ≡ false → text_ltb x y ≡ false → text_ltb y x ≡ true
unfolding text_ltb text_eq
text_ltb_total [] [] h k = cc
text_ltb_total [] (d ∷ y) h k = cc
text_ltb_total (c ∷ x) [] h k = refl
text_ltb_total (c ∷ x) (d ∷ y) h k = ground (arith, text_ltb_total x y)

-- Every member is below the next one.
abbrev pub Above : Text → List Text → Type 0
Above x [] = Unit
Above x (y ∷ ys) = text_ltb x y ≡ true

abbrev pub IsAscending : List Text → Type 0
IsAscending [] = Unit
IsAscending (x ∷ xs) = Above x xs × IsAscending xs

insert_text-Above :
    (y x : Text) (xs : List Text) → Above y xs → text_ltb y x ≡ true → Above y (insert_text x xs)
unfolding insert_text
insert_text-Above y x [] h k = k
insert_text-Above y x (z ∷ zs) h k = ground arith

insert_text-IsAscending :
    (x : Text) (xs : List Text) → IsAscending xs → IsAscending (insert_text x xs)
unfolding insert_text
insert_text-IsAscending x [] h = (tt, tt)
insert_text-IsAscending x (y ∷ ys) h = elim (Bool-cases (text_eq x y)) [
  | inl same ↦ rw same h
  | inr other ↦ elim (Bool-cases (text_ltb x y)) [
    | inl less ↦ rw (other, less) (less, h)
    | inr more ↦
        rw (other, more)
          (
            insert_text-Above y x ys h.0 (text_ltb_total x y other more),
            insert_text-IsAscending x ys h.1,
          )
  ]
]

sorted_set-IsAscending : (xs : List Text) → IsAscending (sorted_set xs)
unfolding sorted_set
sorted_set-IsAscending [] = tt
sorted_set-IsAscending (x ∷ xs) =
    insert_text-IsAscending x (sorted_set xs) (sorted_set-IsAscending xs)

pub common-IsAscending : (a b c d : List Text) → IsAscending (common a b c d)
unfolding common
common-IsAscending a b c d = sorted_set-IsAscending _
