-- ===== src/Base/Iff.antt =====
-- What Boolean tests and tests that raise decide, as equivalences.
use mathlib.Core.Path.{◌≡◌, refl}
use mathlib.Core.Logic.{◌≢◌, ◌↔◌, ◌⊎◌, inl, inr}
use mathlib.Core.Bool.{Bool, true, false, not, ◌&&◌, ◌||◌}
use Prim.Native.String.{String}
use text.Mathlib.Text.{◌==◌ as str_eq}
use text.Mathlib.TextEquality.{eq_iff}
use pan_agent.Base.Tests.{Bool-cases, or-eq-true, and-eq-true, or-eq-false}
use pan_agent.Base.Result.{Result, ok, ◌>>◌, raise_if, >>-eq-ok, raise_if-eq-ok, not-eq-false}

pub str_eq-false_iff : (s t : String) → (str_eq s t ≡ false) ↔ (s ≢ t)
str_eq-false_iff s t = (
  λ h e. let h' = (eq_iff s t).1 e in cc,
  λ differ. elim (Bool-cases (str_eq s t)) [
    | inl same ↦ absurd (differ ((eq_iff s t).0 same))
    | inr other ↦ other
  ],
)

pub differ : (s t : String) → str_eq s t ≡ false → s ≢ t
differ s t = (str_eq-false_iff s t).0

pub >>-iff :
    {E : Type 0} (m k : Result E (Unit {0})) → ((m >> k) ≡ ok tt) ↔ ((m ≡ ok tt) × (k ≡ ok tt))
>>-iff m k = (λ h. >>-eq-ok m k h, λ both. rw both.0 both.1)

-- Two tests in turn
pub then_iff :
    {E : Type 0} {P Q : Type 0} (m k : Result E (Unit {0}))
    → (m ≡ ok tt) ↔ P
    → (k ≡ ok tt) ↔ Q
    → ((m >> k) ≡ ok tt) ↔ (P × Q)
then_iff m k first second = (
  λ h. let (e, e') = >>-eq-ok m k h in (first.0 e, second.0 e'),
  λ both. rw (first.1 both.0) (second.1 both.1),
)

-- A test that a property must not hold
pub when_iff :
    {E : Type 0} {P : Type 0} (b : Bool) (e : E) → (b ≡ false) ↔ P → (raise_if b e ≡ ok tt) ↔ P
when_iff b e iff = (λ h. iff.0 (raise_if-eq-ok b e h), λ p. rw (iff.1 p) refl)

-- A test that a property must hold
pub unless_iff :
    {E : Type 0} {P : Type 0} (b : Bool) (e : E) → (b ≡ true) ↔ P → (raise_if (not b) e ≡ ok tt) ↔ P
unless_iff b e iff = (λ h. iff.0 (not-eq-false b (raise_if-eq-ok _ e h)), λ p. rw (iff.1 p) refl)

pub or_iff :
    {P Q : Type 0} (b c : Bool) → (b ≡ true) ↔ P → (c ≡ true) ↔ Q → ((b || c) ≡ true) ↔ (P ⊎ Q)
or_iff b c left right = (
  λ h. elim (or-eq-true b c h) [ inl e ↦ inl (left.0 e) | inr e ↦ inr (right.0 e) ],
  λ found. elim found [
    | inl p ↦ rw (left.1 p) refl
    | inr q ↦ elim (Bool-cases b) [ inl e ↦ rw e refl | inr e ↦ rw e (right.1 q) ]
  ],
)

pub and_iff :
    {P Q : Type 0} (b c : Bool) → (b ≡ true) ↔ P → (c ≡ true) ↔ Q → ((b && c) ≡ true) ↔ (P × Q)
and_iff b c left right = (
  λ h. let (e, e') = and-eq-true b c h in (left.0 e, right.0 e'),
  λ both. rw (left.1 both.0) (right.1 both.1),
)

-- A test that one property must imply another
pub implies_iff :
    {E : Type 0} {P Q : Type 0} (b c : Bool) (e : E)
    → (b ≡ true) ↔ P
    → (c ≡ true) ↔ Q
    → (raise_if (b && not c) e ≡ ok tt) ↔ (P → Q)
implies_iff b c e left right = (
  λ h p.
      let passed = raise_if-eq-ok (b && not c) e h in
      right.0 (not-eq-false c (rw (left.1 p) at passed)),
  λ implies. elim (Bool-cases b) [
    | inl on ↦ rw (on, right.1 (implies (left.0 on))) refl
    | inr off ↦ rw off refl
  ],
)

-- A test that two properties must hold
pub unless_both_iff :
    {E : Type 0} {P Q : Type 0} (b c : Bool) (e : E)
    → (b ≡ true) ↔ P
    → (c ≡ true) ↔ Q
    → (raise_if (not b || not c) e ≡ ok tt) ↔ (P × Q)
unless_both_iff b c e left right = (
  λ h.
      let (first, second) = or-eq-false (not b) (not c) (raise_if-eq-ok _ e h) in
      (left.0 (not-eq-false b first), right.0 (not-eq-false c second)),
  λ both. rw (left.1 both.0, right.1 both.1) refl,
)
