-- ===== src/Base/Text.antt =====
-- Python's `str` as the list of its code points, for the code that takes text apart.
use Prim.Native.Nat.{ℕ, zero, suc, ◌-◌}
use Prim.Native.Char.{code}
use Prim.Native.String.{String}
use mathlib.Core.Path.{◌≡◌, refl, ap}
use mathlib.Core.Logic.{◌↔◌, inl, inr}
use mathlib.Core.Bool.{Bool, true, false, ◌&&◌, ◌||◌}
use mathlib.Core.List.{List, [], ◌∷◌, ◌++◌}
use native.Mathlib.Omega.{arith}
use pan_agent.Base.Tests.{◌==◌, Bool-cases, if◌then◌else◌}
use pan_agent.Base.Lists.{length, length-append, any}

abbrev pub Text : Type 0
Text = List ℕ

abbrev pub codes : String → Text
codes String.[] = []
codes (String.◌∷◌ c s) = code c ∷ codes s

abbrev pub is_empty {ℓ} : {A : Type ℓ} → List A → Bool
is_empty [] = true
is_empty (_ ∷ _) = false

-- s == t
unfoldable pub text_eq : Text → Text → Bool
text_eq [] [] = true
text_eq [] (_ ∷ _) = false
text_eq (_ ∷ _) [] = false
text_eq (c ∷ s) (d ∷ t) = c == d && text_eq s t

-- c in s, for one character c
unfoldable pub has_char : ℕ → Text → Bool
has_char c s = any (λ d. d == c) s

-- s.startswith(prefix)
unfoldable pub starts_with : Text → Text → Bool
starts_with [] s = true
starts_with (c ∷ p) [] = false
starts_with (c ∷ p) (d ∷ s) = c == d && starts_with p s

-- s.endswith(suffix)
unfoldable pub ends_with : Text → Text → Bool
unfolding text_eq
ends_with suffix [] = text_eq [] suffix
ends_with suffix (c ∷ s) = text_eq (c ∷ s) suffix || ends_with suffix s

-- s[:n]
unfoldable pub take : ℕ → Text → Text
take zero s = []
take (suc n) [] = []
take (suc n) (c ∷ s) = c ∷ take n s

-- s[:-n]
unfoldable pub drop_last : ℕ → Text → Text
unfolding take
drop_last n s = take (length s - n) s

-- s.rstrip(c)
unfoldable pub rstrip : ℕ → Text → Text
rstrip c [] = []
rstrip c (d ∷ s) = let rest = rstrip c s in if d == c && is_empty rest then [] else d ∷ rest

-- Puts a character before the first word.
abbrev pub onto_first : ℕ → List Text → List Text
onto_first c [] = (c ∷ []) ∷ []
onto_first c (w ∷ ws) = (c ∷ w) ∷ ws

-- s.split(c)
unfoldable pub split : ℕ → Text → List Text
split c [] = [] ∷ []
split c (d ∷ s) = let rest = split c s in if d == c then [] ∷ rest else onto_first d rest

pub or_true : (b : Bool) → (b || true) ≡ true
or_true true = refl
or_true false = refl

pub text_eq_iff : (s t : Text) → (text_eq s t ≡ true) ↔ (s ≡ t)
unfolding text_eq
text_eq_iff [] [] = (λ _. refl, λ _. refl)
text_eq_iff [] (d ∷ t) = (λ h. cc, λ h. cc)
text_eq_iff (c ∷ s) [] = (λ h. cc, λ h. cc)
text_eq_iff (c ∷ s) (d ∷ t) =
    (λ h. ground (arith, (text_eq_iff s t).0), λ h. ground (arith, (text_eq_iff s t).1))

pub text_eq_refl : (s : Text) → text_eq s s ≡ true
text_eq_refl s = (text_eq_iff s s).1 refl

pub starts_with_iff : (p s : Text) → (starts_with p s ≡ true) ↔ ((rest : Text) × (s ≡ p ++ rest))
unfolding starts_with
starts_with_iff [] s = (λ _. (s, refl), λ _. refl)
starts_with_iff (c ∷ p) [] = (λ h. cc, λ h. cc h.1)
starts_with_iff (c ∷ p) (d ∷ s) = (
  λ h. let (rest, e) = (starts_with_iff p s).0 (ground arith) in (rest, ground arith),
  λ h.
      let (rest, e) = h in
      let tail : s ≡ p ++ rest = cc in ground (arith, (starts_with_iff p s).1 (rest, tail)),
)

nil-append : (p suffix : Text) → [] ≡ p ++ suffix → [] ≡ suffix
nil-append [] suffix e = e
nil-append (c ∷ p) suffix e = cc

ends_with_cons :
    (suffix : Text) (c : ℕ) (s p : Text)
    → c ∷ s ≡ p ++ suffix
    → ((p : Text) × (s ≡ p ++ suffix) → ends_with suffix s ≡ true)
    → (text_eq (c ∷ s) suffix || ends_with suffix s) ≡ true
ends_with_cons suffix c s [] e ih = rw ((text_eq_iff (c ∷ s) suffix).1 e)
ends_with_cons suffix c s (d ∷ p) e ih =
    let tail : s ≡ p ++ suffix = cc in rw (ih (p, tail)) (or_true (text_eq (c ∷ s) suffix))

pub ends_with_iff :
    (suffix s : Text) → (ends_with suffix s ≡ true) ↔ ((p : Text) × (s ≡ p ++ suffix))
unfolding ends_with
ends_with_iff suffix [] = (
  λ h. ([], (text_eq_iff [] suffix).0 h),
  λ h. (text_eq_iff [] suffix).1 (nil-append h.0 suffix h.1),
)
ends_with_iff suffix (c ∷ s) = (
  λ h. elim (Bool-cases (text_eq (c ∷ s) suffix)) [
    | inl e ↦ ([], (text_eq_iff (c ∷ s) suffix).0 e)
    | inr e ↦
        let (p, q) = (ends_with_iff suffix s).0 (ground (arith, h)) in (c ∷ p, ap (λ t. c ∷ t) q)
  ],
  λ h. ends_with_cons suffix c s h.0 h.1 (ends_with_iff suffix s).1,
)

pub length-take_append : (p q : Text) → take (length p) (p ++ q) ≡ p
unfolding take
length-take_append [] q = refl
length-take_append (c ∷ p) q = ap (λ t. c ∷ t) (length-take_append p q)

-- Dropping a suffix gives back what stood before it.
pub drop_last-append : (p q : Text) → drop_last (length q) (p ++ q) ≡ p
unfolding drop_last
drop_last-append p q =
    let e : length (p ++ q) - length q ≡ length p = omega (arith, length-append p q) in
    rw e (length-take_append p q)

-- `split` gives at least one word.
pub split-cons : (c : ℕ) (s : Text) → (w : Text) × (ws : List Text) × (split c s ≡ w ∷ ws)
unfolding split
split-cons c [] = ([], [], refl)
split-cons c (d ∷ s) =
    let (w, ws, e) = split-cons c s in
    elim (Bool-cases (d == c)) [ inl h ↦ ([], split c s, rw h) | inr h ↦ (d ∷ w, ws, rw h (rw e)) ]

onto_first-append :
    (c d : ℕ) (p : Text) (rest : List Text)
    → onto_first d (split c p ++ rest) ≡ onto_first d (split c p) ++ rest
onto_first-append c d p rest = let (w, ws, e) = split-cons c p in rw e

-- Splitting at a separator splits the two sides.
pub split-append_sep : (c : ℕ) (p q : Text) → split c (p ++ c ∷ q) ≡ split c p ++ split c q
unfolding split
split-append_sep c [] q = ground arith
split-append_sep c (d ∷ p) q =
    ground (arith, split-append_sep c p q, onto_first-append c d p (split c q))
