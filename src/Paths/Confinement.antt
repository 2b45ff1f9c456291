-- ===== src/Paths/Confinement.antt =====
-- Where `_workspace_path` may lead, and when two roots share no path.
use mathlib.Core.Bool.{false≢true}
use mathlib.Core.List.{append-nil}
use mathlib.Core.Path.{subst}
use pan_agent.Base.{
  ◌≡◌, ◌≢◌, refl, sym, ◌∙◌, ap, inl, inr, ◌↔◌, Bool, true, false, not, ◌||◌, List, [], ◌∷◌, ◌++◌,
  any, keep, Bool-cases, and-eq-true, or-eq-false, arith, if◌then◌else◌,
}
use pan_agent.Base.Result.{ok, err, >>-eq-ok, raise_if, ◌>>◌, raise_if-eq-ok, ok-injective}
use pan_agent.Base.Text.{
  Text, is_empty, text_eq, text_eq_iff, text_eq_refl, has_char, starts_with, starts_with_iff, split,
}
use pan_agent.Paths.{
  FilePath, slash, dot, namespace, is_dot_dot, is_part, bad_part, parts, PathError,
  not_in_workspace_namespace, escaped_root, validate_relative_workspace_path, is_relative_to,
  path_eq, after, workspace_path, paths_overlap,
}

pub is_relative_to_iff :
    (p q : FilePath) → (is_relative_to p q ≡ true) ↔ ((rest : FilePath) × (q ≡ p ++ rest))
unfolding is_relative_to
is_relative_to_iff [] q = (λ _. (q, refl), λ _. refl)
is_relative_to_iff (c ∷ p) [] = (λ h. cc, λ h. cc h.1)
is_relative_to_iff (c ∷ p) (d ∷ q) = (
  λ h.
      let (same, tail) = and-eq-true _ _ h in
      let (rest, e) = (is_relative_to_iff p q).0 tail in
      let e' : c ≡ d = (text_eq_iff c d).0 same in (rest, cc),
  λ h.
      let (rest, e) = h in
      let same : c ≡ d = cc in
      let tail : q ≡ p ++ rest = cc in
      rw ((text_eq_iff c d).1 same) ((is_relative_to_iff p q).1 (rest, tail)),
)

pub path_eq_iff : (p q : FilePath) → (path_eq p q ≡ true) ↔ (p ≡ q)
unfolding path_eq
path_eq_iff [] [] = (λ _. refl, λ _. refl)
path_eq_iff [] (d ∷ q) = (λ h. cc, λ h. cc)
path_eq_iff (c ∷ p) [] = (λ h. cc, λ h. cc)
path_eq_iff (c ∷ p) (d ∷ q) = (
  λ h.
      let (same, tail) = and-eq-true _ _ h in
      let e : c ≡ d = (text_eq_iff c d).0 same in let e' : p ≡ q = (path_eq_iff p q).0 tail in cc,
  λ h.
      let same : c ≡ d = cc in
      let tail : p ≡ q = cc in rw ((text_eq_iff c d).1 same) ((path_eq_iff p q).1 tail),
)

not-eq-false : (b : Bool) → not b ≡ false → b ≡ true
not-eq-false true h = refl
not-eq-false false h = cc

-- Whatever symbolic links do, a path that a workspace resource is given lies strictly below the
-- resolved workspace directory.
pub workspace_path_confined :
    (resolve : FilePath → FilePath) (workspace : FilePath) (resource : Text) {target : FilePath}
    → workspace_path resolve workspace resource ≡ ok target
    → (below : FilePath) × (target ≡ resolve workspace ++ below) × (below ≢ [])
unfolding workspace_path
workspace_path_confined resolve workspace resource {target} h =
    let root = resolve workspace in
    let relative_path = after namespace resource in
    let (_, h1) =
      >>-eq-ok (raise_if (not (starts_with namespace resource)) not_in_workspace_namespace) _ h in
    let (_, h2) = >>-eq-ok (validate_relative_workspace_path relative_path) _ h1 in
    let (checked, h3) = >>-eq-ok _ _ h2 in
    let reached = resolve (root ++ parts relative_path) in
    let e : reached ≡ target = ok-injective h3 in
    let passed : (not (is_relative_to root reached) || path_eq reached root) ≡ false =
      raise_if-eq-ok _ escaped_root checked in
    let (inside, other) = or-eq-false _ _ (rw e at passed) in
    let (below, split) = (is_relative_to_iff root target).0 (not-eq-false _ inside) in
    (
      below,
      split,
      λ none_left.
          let whole : target ≡ root = rw (split, none_left) (append-nil root) in
          false≢true (sym other ∙ (path_eq_iff target root).1 whole),
    )

bad_part-of_part : (word : Text) → is_part word ≡ true → bad_part word ≡ is_dot_dot word
bad_part-of_part word h = ground arith

dropped-not_parent : (word : Text) → is_part word ≡ false → is_dot_dot word ≡ false
unfolding text_eq
dropped-not_parent [] h = refl
dropped-not_parent (c ∷ word) h =
    let single : dot ≡ c ∷ word = (text_eq_iff dot (c ∷ word)).0 (not-eq-false _ h) in
    subst (λ w. is_dot_dot w ≡ false) single refl

-- Dropping the empty components and "." leaves ".." as the only component that the guard on
-- {"", ".", ".."} can still meet.
bad_part-parts : (words : List Text) → any bad_part (keep is_part words) ≡ any is_dot_dot words
unfolding keep
bad_part-parts [] = refl
bad_part-parts (word ∷ words) = elim (Bool-cases (is_part word)) [
  | inl part ↦
      rw part
        (rw (bad_part-of_part word part) (ap (λ b. is_dot_dot word || b) (bad_part-parts words)))
  | inr dropped ↦ rw dropped (rw (dropped-not_parent word dropped) (bad_part-parts words))
]

-- The two guards of `_validate_relative_workspace_path`, as one.
pub record IsRelativeName (name : Text) : Type 0 where
  pub not_empty : is_empty name ≡ false
  pub not_absolute : starts_with slash name ≡ false
  pub no_backslash : has_char b'\\' name ≡ false
  pub no_colon : has_char b':' name ≡ false
  pub no_parent : any is_dot_dot (split b'/' name) ≡ false

-- The test of a workspace-relative path accepts exactly the names that are not empty, do not start
-- with "/", hold no backslash and no colon, and have no component "..". The name "." passes.
pub validate_relative_workspace_path_iff :
    (name : Text) → (validate_relative_workspace_path name ≡ ok tt) ↔ IsRelativeName name
unfolding validate_relative_workspace_path parts
validate_relative_workspace_path_iff name = (
  λ h.
      let (first, h1) = >>-eq-ok _ _ h in
      let (a, bcd) = or-eq-false _ _ (raise_if-eq-ok _ _ first) in
      let (b, cd) = or-eq-false _ _ bcd in
      let (c, d) = or-eq-false _ _ cd in
      record {
        not_empty = a;
        not_absolute = b;
        no_backslash = c;
        no_colon = d;
        no_parent = sym (bad_part-parts (split b'/' name)) ∙ raise_if-eq-ok _ _ h1;
      },
  λ p. rw (p.not_empty, p.not_absolute, p.no_backslash, p.no_colon, bad_part-parts, p.no_parent),
)

prefixes_comparable :
    (p q r s : FilePath) → p ++ r ≡ q ++ s → (is_relative_to p q || is_relative_to q p) ≡ true
unfolding is_relative_to
prefixes_comparable [] q r s e = refl
prefixes_comparable (c ∷ p) [] r s e = refl
prefixes_comparable (c ∷ p) (d ∷ q) r s e =
    let same : c ≡ d = cc in
    let tails : p ++ r ≡ q ++ s = cc in
    rw ((text_eq_iff c d).1 same, (text_eq_iff d c).1 (sym same))
      (prefixes_comparable p q r s tails)

is_relative_to_refl : (path : FilePath) → is_relative_to path path ≡ true
is_relative_to_refl path = (is_relative_to_iff path path).1 ([], sym (append-nil path))

disjoint_paths :
    (left right : FilePath)
    → paths_overlap left right ≡ false
    → (path : FilePath) → is_relative_to left path ≡ true
    → is_relative_to right path ≡ false
unfolding paths_overlap
disjoint_paths left right h path l = elim (Bool-cases (is_relative_to right path)) [
  | inr outside ↦ outside
  | inl r ↦
      let (below, e) = (is_relative_to_iff left path).0 l in
      let (below', e') = (is_relative_to_iff right path).0 r in
      absurd (
        false≢true
          (sym (or-eq-false _ _ h).1 ∙ prefixes_comparable left right below below' (sym e ∙ e')))
]

-- `_paths_overlap` finds two roots disjoint exactly when no path lies at or below both.
pub paths_overlap_iff :
    (left right : FilePath)
    → (paths_overlap left right ≡ false)
      ↔ ((path : FilePath) → is_relative_to left path ≡ true → is_relative_to right path ≡ false)
unfolding paths_overlap
paths_overlap_iff left right = (
  disjoint_paths left right,
  λ apart.
      let below_left : is_relative_to right left ≡ false = apart left (is_relative_to_refl left) in
      let below_right : is_relative_to left right ≡ false =
        elim (Bool-cases (is_relative_to left right)) [
          | inr outside ↦ outside
          | inl inside ↦ absurd (false≢true (sym (apart right inside) ∙ is_relative_to_refl right))
        ] in
      let different : path_eq left right ≡ false = elim (Bool-cases (path_eq left right)) [
        | inr other ↦ other
        | inl same ↦
            let e : left ≡ right = (path_eq_iff left right).0 same in
            absurd (
              false≢true (
                sym below_left
                ∙ subst (λ p. is_relative_to p left ≡ true) e (is_relative_to_refl left)))
      ] in
      rw (different, below_right, below_left) refl,
)

after-append : (p s : Text) → after p (p ++ s) ≡ s
unfolding after
after-append [] s = refl
after-append (c ∷ p) s = after-append p s

path_eq-append : (root below : FilePath) → path_eq (root ++ below) root ≡ is_empty below
unfolding path_eq
path_eq-append [] [] = refl
path_eq-append [] (c ∷ below) = refl
path_eq-append (c ∷ root) below = rw text_eq_refl (path_eq-append root below)

guard_escape :
    (escaped : Bool) (e : PathError) (path : FilePath)
    → (raise_if escaped e >> ok path) ≡ (if escaped then err e else ok path)
guard_escape true e path = refl
guard_escape false e path = refl

abbrev IsPlain : (FilePath → FilePath) → FilePath → Type 0
IsPlain resolve path = resolve path ≡ path

-- Where no symbolic link is met, a well-formed workspace resource is accepted exactly when some
-- component is left of it, and its path is the workspace directory followed by those components.
pub workspace_path_plain :
    (resolve : FilePath → FilePath) (workspace : FilePath) (name : Text)
    → IsPlain resolve workspace
    → IsPlain resolve (workspace ++ parts name)
    → IsRelativeName name
    → workspace_path resolve workspace (namespace ++ name)
      ≡ (if is_empty (parts name) then err escaped_root else ok (workspace ++ parts name))
unfolding workspace_path
workspace_path_plain resolve workspace name plain plain' valid =
    let in_namespace : starts_with namespace (namespace ++ name) ≡ true =
      (starts_with_iff namespace (namespace ++ name)).1 (name, refl) in
    let named : after namespace (namespace ++ name) ≡ name = after-append namespace name in
    let inside : is_relative_to workspace (workspace ++ parts name) ≡ true =
      (is_relative_to_iff workspace _).1 (parts name, refl) in
    rw (in_namespace, named, (validate_relative_workspace_path_iff name).1 valid, plain, plain')
      (rw (inside, path_eq-append workspace (parts name)) (guard_escape _ _ _))
