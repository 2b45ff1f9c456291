-- ===== src/Paths/Scopes.antt =====
-- What `_resource_allowed` lets through.
use mathlib.Core.Bool.{false≢true}
use mathlib.Core.List.{append-nil, append_assoc}
use pan_agent.Base.{
  ◌≡◌, ◌≢◌, sym, ◌∙◌, ap, ◌⊎◌, inl, inr, ◌↔◌, Bool, true, false, ◌||◌, List, [], ◌∷◌, ◌++◌, any,
  Bool-cases, or-eq-true, and-eq-true, or-eq-false,
}
use pan_agent.Base.Text.{
  Text, is_empty, text_eq, text_eq_iff, has_char, or_true, starts_with, starts_with_iff,
  ends_with_iff, drop_last, drop_last-append, rstrip, split, split-append_sep,
}
use pan_agent.Paths.{slash, star, glob, is_dot_dot, scope_covers, resource_allowed}

-- The scope `base/**` covers its own directory and what lies below it.
pub record IsBelow (scope resource : Text) : Type 0 where
  pub base : Text
  pub is_glob : scope ≡ base ++ glob
  pub lies :
      (resource ≡ rstrip b'/' base)
      ⊎ ((rest : Text) × (resource ≡ (rstrip b'/' base ++ slash) ++ rest))

abbrev pub Covers : Text → Text → Type 0
Covers scope resource = (scope ≡ resource) ⊎ ((scope ≡ star) ⊎ IsBelow scope resource)

abbrev pub Exists : (Text → Type 0) → List Text → Type 0
Exists P [] = ⊥
Exists P (x ∷ xs) = P x ⊎ Exists P xs

-- No ".." component and no backslash, and not empty.
pub record IsSafeName (resource : Text) : Type 0 where
  pub not_empty : is_empty resource ≡ false
  pub no_backslash : has_char b'\\' resource ≡ false
  pub no_parent : any is_dot_dot (split b'/' resource) ≡ false

-- Where the scope ends in "/**", what is left of it is its base.
IsBelow-of_test :
    (resource scope base : Text)
    → scope ≡ base ++ glob
    → (text_eq resource (rstrip b'/' (drop_last 3 scope))
        || starts_with (rstrip b'/' (drop_last 3 scope) ++ slash) resource)
      ≡ true
    → IsBelow scope resource
IsBelow-of_test resource scope base e h =
    let trimmed : drop_last 3 scope ≡ base = rw e (drop_last-append base glob) in
    let prefix = rstrip b'/' base in
    let test : (text_eq resource prefix || starts_with (prefix ++ slash) resource) ≡ true =
      rw trimmed at h in
    record {
      base = base;
      is_glob = e;
      lies = elim (or-eq-true _ _ test) [
        | inl same ↦ inl ((text_eq_iff resource prefix).0 same)
        | inr below ↦ inr ((starts_with_iff (prefix ++ slash) resource).0 below)
      ];
    }

scope_covers→Covers :
    (resource scope : Text) → scope_covers resource scope ≡ true → Covers scope resource
unfolding scope_covers
scope_covers→Covers resource scope h = elim (or-eq-true _ _ h) [
  | inl whole ↦ elim (or-eq-true _ _ whole) [
    | inl same ↦ inl ((text_eq_iff scope resource).0 same)
    | inr any_resource ↦ inr (inl ((text_eq_iff scope star).0 any_resource))
  ]
  | inr below ↦
      let (ends, test) = and-eq-true _ _ below in
      let (base, e) = (ends_with_iff glob scope).0 ends in
      inr (inr (IsBelow-of_test resource scope base e test))
]

IsBelow→test :
    (resource scope : Text) (b : IsBelow scope resource)
    → (text_eq resource (rstrip b'/' b.base) || starts_with (rstrip b'/' b.base ++ slash) resource)
      ≡ true
IsBelow→test resource scope b = elim b.lies [
  | inl same ↦ rw ((text_eq_iff resource (rstrip b'/' b.base)).1 same)
  | inr below ↦ rw ((starts_with_iff (rstrip b'/' b.base ++ slash) resource).1 below) (or_true _)
]

Covers→scope-Covers :
    (resource scope : Text) → Covers scope resource → scope_covers resource scope ≡ true
unfolding scope_covers
Covers→scope-Covers resource scope (inl same) = rw ((text_eq_iff scope resource).1 same)
Covers→scope-Covers resource scope (inr (inl any_resource)) =
    rw ((text_eq_iff scope star).1 any_resource, or_true)
Covers→scope-Covers resource scope (inr (inr b)) =
    let trimmed : drop_last 3 scope ≡ b.base = rw b.is_glob (drop_last-append b.base glob) in
    rw ((ends_with_iff glob scope).1 (b.base, b.is_glob), trimmed, IsBelow→test resource scope b)
      (or_true _)

Exists-of_any :
    (resource : Text) (scopes : List Text)
    → any (scope_covers resource) scopes ≡ true
    → Exists (λ scope. Covers scope resource) scopes
Exists-of_any resource [] h = cc
Exists-of_any resource (scope ∷ scopes) h = elim (or-eq-true _ _ h) [
  | inl here ↦ inl (scope_covers→Covers resource scope here)
  | inr there ↦ inr (Exists-of_any resource scopes there)
]

any-of_Exists :
    (resource : Text) (scopes : List Text)
    → Exists (λ scope. Covers scope resource) scopes
    → any (scope_covers resource) scopes ≡ true
any-of_Exists resource [] h = absurd h
any-of_Exists resource (scope ∷ scopes) (inl here) = rw (Covers→scope-Covers resource scope here)
any-of_Exists resource (scope ∷ scopes) (inr there) =
    rw (any-of_Exists resource scopes there) (or_true _)

abbrev unsafe : Text → Bool
unsafe resource =
    is_empty resource || (has_char b'\\' resource || any is_dot_dot (split b'/' resource))

IsSafeName-of_test : (resource : Text) → unsafe resource ≡ false → IsSafeName resource
IsSafeName-of_test resource h =
    let (not_empty, h1) = or-eq-false _ _ h in
    let (no_backslash, no_parent) = or-eq-false _ _ h1 in
    record { not_empty = not_empty; no_backslash = no_backslash; no_parent = no_parent }

test-of_IsSafeName : (resource : Text) → IsSafeName resource → unsafe resource ≡ false
test-of_IsSafeName resource safe = rw (safe.not_empty, safe.no_backslash, safe.no_parent)

-- A resource is allowed exactly when it is a safe name (not empty, no backslash, no ".." between
-- slashes) and one of the scopes names it, is "*", or ends in "/**" and names a directory that is
-- the resource or holds it.
pub resource_allowed_iff :
    (resource : Text) (scopes : List Text)
    → (resource_allowed resource scopes ≡ true)
      ↔ (IsSafeName resource × Exists (λ scope. Covers scope resource) scopes)
unfolding resource_allowed
resource_allowed_iff resource scopes = (
  λ h. elim (Bool-cases (unsafe resource)) [
    | inl bad ↦ absurd (false≢true (rw bad at h))
    | inr good ↦ (IsSafeName-of_test resource good, Exists-of_any resource scopes (rw good at h))
  ],
  λ h. rw (test-of_IsSafeName resource h.0, any-of_Exists resource scopes h.1),
)

any-append {ℓ} :
    {A : Type ℓ} (test : A → Bool) (xs ys : List A)
    → any test (xs ++ ys) ≡ false
    → any test ys ≡ false
any-append test [] ys h = h
any-append test (x ∷ xs) ys h = any-append test xs ys (or-eq-false _ _ h).1

star-ne-glob : (base : Text) → base ++ glob ≢ star
star-ne-glob [] e = cc
star-ne-glob (c ∷ []) e = cc
star-ne-glob (c ∷ d ∷ base) e = cc

IsBelow-words :
    (base resource : Text)
    → IsBelow (base ++ glob) resource
    → (below : List Text) × (split b'/' resource ≡ split b'/' (rstrip b'/' base) ++ below)
IsBelow-words base resource b =
    let same : base ≡ b.base =
      sym (drop_last-append base glob)
      ∙ ap (drop_last 3) b.is_glob
      ∙ drop_last-append b.base glob in
    elim b.lies [
      | inl directory ↦ ([], rw (directory, same) (sym (append-nil _)))
      | inr below ↦ (
        split b'/' below.0,
        rw (below.1, same, append_assoc) (split-append_sep b'/' (rstrip b'/' b.base) below.0),
      )
    ]

-- Under the one scope `base/**`, a resource that is allowed and is not the text of the scope
-- itself has the components of `base` (less its closing slashes) before all its other components,
-- and none of those is "..": a scope for "a" never lets "ab" or "a/../b" through.
pub resource_allowed_below :
    (base resource : Text)
    → base ++ glob ≢ resource
    → resource_allowed resource ((base ++ glob) ∷ []) ≡ true
    → (below : List Text) × (split b'/' resource ≡ split b'/' (rstrip b'/' base) ++ below)
      × (any is_dot_dot below ≡ false)
resource_allowed_below base resource other h =
    let (safe, covered) = (resource_allowed_iff resource _).0 h in
    elim covered [
      | inl (inl same) ↦ absurd (other same)
      | inl (inr (inl any_resource)) ↦ absurd (star-ne-glob base any_resource)
      | inl (inr (inr b)) ↦
          let (below, e) = IsBelow-words base resource b in
          (below, e, any-append _ (split b'/' (rstrip b'/' base)) below (rw e at safe.no_parent))
      | inr none_left ↦ absurd none_left
    ]
