-- ===== src/Snapshots/Staged.antt =====
-- What staging a fixture writes, and where.
use mathlib.Core.Path.{subst}
use mathlib.Core.List.{append-nil, append_assoc}
use pan_agent.Base.{
  String, ◌≡◌, ◌≢◌, refl, sym, ap, ◌∙◌, Bool, false, some, List, [], ◌∷◌, ◌++◌, map, eq_iff, any,
  All, All-append, or-eq-false, Option-cases, inl, inr,
}
use pan_agent.Base.Result.{
  ok, raise_if, >>=-eq-ok, >>-eq-ok, raise_if-eq-ok, ok-injective, not-eq-false,
}
use pan_agent.Base.Text.{Text}
use pan_agent.Paths.{FilePath, namespace, paths_overlap, workspace_path}
use pan_agent.Paths.Confinement.{workspace_path_confined}
use pan_agent.Snapshots.{
  Bytes, Contents, or_bad_path, Fixtures, ProtectedFixtureRef, get_fixture, Disk, create_file,
  stage_files, stage_found, stage, fixture_content_digest,
}
use pan_agent.Snapshots.Frozen.{or_bad_path-eq-ok}

-- The path lies strictly below the resolved directory.
abbrev pub IsBelow : FilePath → FilePath × Bytes → Type 0
IsBelow root file = (below : FilePath) × (file.0 ≡ root ++ below) × (below ≢ [])

abbrev pub content_of : {A : Type 0} → A × Bytes → Bytes
content_of file = file.1

-- No two files collide: none lies at, above or below a later one.
abbrev pub IsApart : Disk → Type 0
IsApart [] = Unit {0}
IsApart (file ∷ files) = All (λ other. paths_overlap other.0 file.0 ≡ false) files × IsApart files

All-of-any :
    {A : Type 0} (test : A → Bool) (items : List A)
    → any test items ≡ false
    → All (λ item. test item ≡ false) items
All-of-any test [] e = tt
All-of-any test (item ∷ items) e =
    let (first, rest) = or-eq-false (test item) _ e in (first, All-of-any test items rest)

IsApart-append_last :
    (disk : Disk) (file : FilePath × Bytes)
    → IsApart disk
    → any (λ old. paths_overlap file.0 old.0) disk ≡ false
    → IsApart (disk ++ file ∷ [])
IsApart-append_last [] file apart free = (tt, tt)
IsApart-append_last (old ∷ disk) file (first, apart) free =
    let (here, later) = or-eq-false (paths_overlap file.0 old.0) _ free in
    (All-append _ disk (file ∷ []) first (here, tt), IsApart-append_last disk file apart later)

module _ (hexdigest : Bytes → String) (encode : Text → Bytes) (resolve : FilePath → FilePath)
    (destination : FilePath) where
  stage_files_lem :
      (files : Contents) (disk : Disk) {last : Disk}
      → IsApart disk
      → stage_files hexdigest encode resolve destination files disk ≡ ok last
      → (new : Disk) × (last ≡ disk ++ new)
        × All (IsBelow (resolve destination)) new
        × (map content_of new ≡ map content_of files)
        × IsApart last
  unfolding stage_files create_file
  stage_files_lem [] disk apart staged =
      let e = ok-injective staged in
      ([], sym e ∙ sym (append-nil disk), tt, refl, subst IsApart e apart)
  stage_files_lem ((path, content) ∷ files) disk apart staged =
      let (target, found, rest1) =
        >>=-eq-ok (or_bad_path (workspace_path resolve destination (namespace ++ path))) _ staged in
      let (disk', created, rest2) = >>=-eq-ok (create_file target content disk) _ rest1 in
      let (e1, created1) = >>-eq-ok (raise_if _ _) _ created in
      let free = raise_if-eq-ok _ _ e1 in
      let e = ok-injective created1 in
      let apart' = subst IsApart e (IsApart-append_last disk (target, content) apart free) in
      let (new, grown, below, contents, apart'') = stage_files_lem files disk' apart' rest2 in
      let confined =
        workspace_path_confined resolve destination (namespace ++ path)
          (or_bad_path-eq-ok (workspace_path resolve destination (namespace ++ path)) found) in
      (
        (target, content) ∷ new,
        grown ∙ ap (λ d. d ++ new) (sym e) ∙ append_assoc disk ((target, content) ∷ []) new,
        (confined, below),
        ap (λ rest. content ∷ rest) contents,
        apart'',
      )

  -- A fixture that is staged into an empty directory is a known one whose files have the digest of
  -- the reference. The files written hold the contents of the fixture's files, one for each and in
  -- order, every one strictly below the resolved directory, whatever symbolic links do, and none
  -- at, above or below the path of another.
  pub stage-IsBelow :
      (fixtures : Fixtures) (fixture : ProtectedFixtureRef) {written : Disk}
      → stage hexdigest encode resolve destination fixtures fixture [] ≡ ok written
      → (files : Contents) × (get_fixture fixture.fixture_id fixtures ≡ some files)
        × (fixture_content_digest hexdigest encode files ≡ fixture.content_hash)
        × All (IsBelow (resolve destination)) written
        × (map content_of written ≡ map content_of files)
        × IsApart written
  unfolding stage stage_found
  stage-IsBelow fixtures fixture staged =
      elim (Option-cases (get_fixture fixture.fixture_id fixtures)) [
        | inl missing ↦ let e = rw missing at staged in cc
        | inr (files, found) ↦
            let staged' = rw found at staged in
            let (e1, rest) = >>-eq-ok (raise_if _ _) _ staged' in
            let same : fixture_content_digest hexdigest encode files ≡ fixture.content_hash =
              (eq_iff _ _).0 (not-eq-false _ (raise_if-eq-ok _ _ e1)) in
            let (new, grown, below, contents, apart) = stage_files_lem files [] tt rest in
            (
              files,
              found,
              same,
              subst (All (IsBelow (resolve destination))) (sym grown) below,
              ap (map content_of) grown ∙ contents,
              apart,
            )
      ]
