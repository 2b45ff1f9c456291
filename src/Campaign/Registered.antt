-- ===== src/Campaign/Registered.antt =====
-- Proofs on `EvaluationCampaign.create`: the suites that it holds against their digests.
use mathlib.Core.Path.{subst}
use mathlib.Core.List.{append-nil, append_assoc}
use pan_agent.Base.{
  String, ◌≡◌, sym, ap, ◌∙◌, Bool, true, false, not, List, [], ◌∷◌, ◌++◌, map, arith, str_eq,
  eq_iff, any, keep, All, Bool-cases, inl, inr, or-eq-false,
}
use pan_agent.Base.Result.{
  ok, raise_if, >>=-eq-ok, >>-eq-ok, raise_if-eq-ok, ok-injective, not-eq-false,
}
use pan_agent.Authority.{has_duplicates}
use pan_agent.Paths.{FilePath, paths_overlap}
use pan_agent.Campaign.Types.{SuiteSelector, suite_eq, PackSelector, FrozenSuite, RuntimeProvenance}
use pan_agent.Campaign.Selection.{case_id_of}
use pan_agent.Campaign.Provided.{Distinct, Distinct-append_last}
use pan_agent.Campaign.Registry.{
  Suite, Digests, has_pack, is_nonempty_list, check_suite, register, create,
}

abbrev pub frozen_of : {Request M : Type 0} → Suite Request M → FrozenSuite Request
frozen_of suite = record { manifest = suite.manifest; cases = suite.cases }

-- What `create` has tested of a suite
pub record IsIntact {Request M : Type 0} (digests : Digests Request M)
    (registered : List PackSelector) (suite : Suite Request M) : Type 0 where
  pub distinct_ids : has_duplicates (map case_id_of suite.cases) ≡ false
  pub source : digests.source suite.source_material ≡ suite.manifest.source_digest
  pub cases : digests.cases suite.cases ≡ suite.manifest.cases_hash
  pub transform : digests.transform suite.manifest ≡ suite.manifest.transform_hash
  pub identity : digests.suite suite.manifest ≡ suite.manifest.identity.content_hash
  pub packs : All (λ pack. has_pack registered pack ≡ true) suite.manifest.required_packs

same_text : (a b : String) → not (str_eq a b) ≡ false → a ≡ b
same_text a b e = (eq_iff a b).0 (not-eq-false (str_eq a b) e)

-- Nothing is missing where everything is there.
none_missing :
    {A : Type 0} (test : A → Bool) (items : List A)
    → is_nonempty_list (keep (λ item. not (test item)) items) ≡ false
    → All (λ item. test item ≡ true) items
unfolding keep
none_missing test [] e = tt
none_missing test (item ∷ items) e = elim (Bool-cases (test item)) [
  | inl there ↦ (there, none_missing test items (ground (arith, e, there)))
  | inr absent ↦ let e' = rw absent at e in cc
]

abbrev pub same_identity : {Request : Type 0} → FrozenSuite Request → FrozenSuite Request → Bool
same_identity left right = suite_eq left.manifest.identity right.manifest.identity

module _ {Request M : Type 0} (digests : Digests Request M) (registered : List PackSelector) where
  abbrev is_known : List (FrozenSuite Request) → SuiteSelector → Bool
  is_known registry selector = any (λ known. suite_eq known.manifest.identity selector) registry

  check_suite_lem :
      (registry : List (FrozenSuite Request)) (suite : Suite Request M)
      {frozen : FrozenSuite Request}
      → check_suite digests registered registry suite ≡ ok frozen
      → (frozen ≡ frozen_of suite)
        × IsIntact digests registered suite
        × (is_known registry suite.manifest.identity ≡ false)
  unfolding check_suite
  check_suite_lem registry suite checked =
      let (e1, rest1) = >>-eq-ok (raise_if _ _) _ checked in
      let (e2, rest2) = >>-eq-ok (raise_if _ _) _ rest1 in
      let (e3, rest3) = >>-eq-ok (raise_if _ _) _ rest2 in
      let (e4, rest4) = >>-eq-ok (raise_if _ _) _ rest3 in
      let (e5, rest5) = >>-eq-ok (raise_if _ _) _ rest4 in
      let (e6, rest6) = >>-eq-ok (raise_if _ _) _ rest5 in
      let (e7, rest7) = >>-eq-ok (raise_if _ _) _ rest6 in
      (
        sym (ok-injective rest7),
        record {
          distinct_ids = raise_if-eq-ok _ _ e1;
          source = same_text _ _ (raise_if-eq-ok _ _ e2);
          cases = same_text _ _ (raise_if-eq-ok _ _ e3);
          transform = same_text _ _ (raise_if-eq-ok _ _ e4);
          identity = same_text _ _ (raise_if-eq-ok _ _ e5);
          packs =
              none_missing (has_pack registered) suite.manifest.required_packs
                (raise_if-eq-ok _ _ e7);
        },
        raise_if-eq-ok _ _ e6,
      )

  register_lem :
      (suites : List (Suite Request M)) (registry : List (FrozenSuite Request))
      {result : List (FrozenSuite Request)}
      → Distinct same_identity registry
      → register digests registered registry suites ≡ ok result
      → (result ≡ registry ++ map frozen_of suites)
        × All (IsIntact digests registered) suites
        × Distinct same_identity result
  unfolding register
  register_lem [] registry distinct registered' =
      let e = ok-injective registered' in
      (sym e ∙ sym (append-nil registry), tt, subst (Distinct same_identity) e distinct)
  register_lem (suite ∷ suites) registry distinct registered' =
      let (frozen, checked, rest) =
        >>=-eq-ok (check_suite digests registered registry suite) _ registered' in
      let (e, intact, new) = check_suite_lem registry suite checked in
      let new' : is_known registry frozen.manifest.identity ≡ false =
        ap (λ f. is_known registry f.manifest.identity) e ∙ new in
      let (grown, all_intact, distinct') =
        register_lem suites (registry ++ frozen ∷ [])
          (Distinct-append_last same_identity registry frozen distinct new') rest in
      (
        grown
            ∙ append_assoc registry (frozen ∷ []) (map frozen_of suites)
            ∙ ap (λ f. registry ++ f ∷ map frozen_of suites) e,
        (intact, all_intact),
        distinct',
      )

no_overlap :
    (root : FilePath) (roots : List FilePath)
    → any (paths_overlap root) roots ≡ false
    → All (λ protected. paths_overlap root protected ≡ false) roots
no_overlap root [] e = tt
no_overlap root (protected ∷ roots) e =
    let (first, rest) = or-eq-false (paths_overlap root protected) _ e in
    (first, no_overlap root roots rest)

-- When a campaign is created, it holds the given suites in order, at least one, and no two with the
-- same identity. Each suite has distinct case ids, its source material, its cases, its transform
-- and its manifest have the digests that the manifest declares, and the runtime has every pack
-- that it requires. The directory of artifacts overlaps no protected root of the runtime.
pub create-IsIntact :
    {Request M : Type 0} (digests : Digests Request M) (provenance : RuntimeProvenance)
    (root : FilePath) (suites : List (Suite Request M)) {registry : List (FrozenSuite Request)}
    → create digests provenance root suites ≡ ok registry
    → (registry ≡ map frozen_of suites)
      × (is_nonempty_list registry ≡ true)
      × Distinct same_identity registry
      × All (IsIntact digests provenance.registered_packs) suites
      × All (λ protected. paths_overlap root protected ≡ false) provenance.protected_roots
unfolding create
create-IsIntact digests provenance root suites created =
    let (registry, registered, rest1) = >>=-eq-ok (register _ _ _ _) _ created in
    let (e1, rest2) = >>-eq-ok (raise_if _ _) _ rest1 in
    let (e2, rest3) = >>-eq-ok (raise_if _ _) _ rest2 in
    let same = ok-injective rest3 in
    let (grown, intact, distinct) =
      register_lem digests provenance.registered_packs suites [] tt registered in
    (
      sym same ∙ grown,
      subst (λ r. is_nonempty_list r ≡ true) same (not-eq-false _ (raise_if-eq-ok _ _ e1)),
      subst (Distinct same_identity) same distinct,
      intact,
      no_overlap root provenance.protected_roots (raise_if-eq-ok _ _ e2),
    )
