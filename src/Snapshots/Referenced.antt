-- ===== src/Snapshots/Referenced.antt =====
-- Proofs on `LocalFixtureWorkspace`: a reference that it gives, when it is staged.
use mathlib.Core.Path.{subst}
use mathlib.Core.List.{append-nil, append_assoc}
use pan_agent.Base.{
  String, ◌≡◌, refl, sym, ap, ◌∙◌, true, false, some, List, [], ◌∷◌, ◌++◌, map, str_eq, eq_iff, any,
  All, Bool-cases, inl, inr,
}
use pan_agent.Base.Result.{ok, raise_if, >>=-eq-ok, >>-eq-ok, ok-injective}
use pan_agent.Base.Text.{Text, is_empty}
use pan_agent.Paths.{FilePath, parts, paths_overlap, validate_relative_workspace_path}
use pan_agent.Paths.Confinement.{
  IsRelativeName, validate_relative_workspace_path_iff, workspace_path_plain,
}
use pan_agent.Snapshots.{
  Bytes, Contents, Content, or_bad_path, Fixtures, ProtectedFixtureRef, get_fixture, Disk,
  create_file, normalize, make_fixtures, fixture_ref, stage_files, stage_found, stage,
  fixture_content_digest,
}
use pan_agent.Snapshots.Frozen.{or_bad_path-eq-ok}
use pan_agent.Snapshots.Staged.{IsApart}

-- Where the files are staged, with no symbolic link on the way
abbrev pub placed : FilePath → Contents → Disk
placed destination files = map (λ file. (destination ++ parts file.0, file.1)) files

abbrev HasValidName : Text × Bytes → Type 0
HasValidName file = IsRelativeName file.0

-- The path has a component, which "." has not.
abbrev pub HasPart : Text × Bytes → Type 0
HasPart file = is_empty (parts file.0) ≡ false

All-middle :
    {A : Type 0} (holds : A → Type 0) (front : List A) (item : A) (rest : List A)
    → All holds (front ++ item ∷ rest)
    → holds item
All-middle holds [] item rest (here, _) = here
All-middle holds (first ∷ front) item rest (_, all) = All-middle holds front item rest all

-- A file that comes after others lies apart from them.
free-later :
    (front : Disk) (file : FilePath × Bytes) (rest : Disk)
    → IsApart (front ++ file ∷ rest)
    → any (λ old. paths_overlap file.0 old.0) front ≡ false
free-later [] file rest apart = refl
free-later (old ∷ front) file rest (first, apart) =
    let here = All-middle (λ other. paths_overlap other.0 old.0 ≡ false) front file rest first in
    rw (here, free-later front file rest apart) refl

module _ (hexdigest : Bytes → String) (encode : Text → Bytes) where
  normalize-HasValidName :
      (given : List (Text × Content)) {files : Contents}
      → normalize hexdigest encode given ≡ ok files
      → All HasValidName files
  unfolding normalize
  normalize-HasValidName [] e = subst (All HasValidName) (ok-injective e) tt
  normalize-HasValidName ((path, content) ∷ given) e =
      let (valid, rest1) = >>-eq-ok (or_bad_path (validate_relative_workspace_path path)) _ e in
      let (files, normalized, rest2) = >>=-eq-ok (normalize hexdigest encode given) _ rest1 in
      subst (All HasValidName) (ok-injective rest2) (
        (validate_relative_workspace_path_iff path).0
            (or_bad_path-eq-ok (validate_relative_workspace_path path) valid),
        normalize-HasValidName given normalized,
      )

  make_fixtures-HasValidName :
      (given : List (String × List (Text × Content))) (id : String) {fixtures : Fixtures}
      {files : Contents}
      → make_fixtures hexdigest encode given ≡ ok fixtures
      → get_fixture id fixtures ≡ some files
      → All HasValidName files
  unfolding make_fixtures get_fixture
  make_fixtures-HasValidName [] id e found =
      let none_found = rw (sym (ok-injective e)) at found in cc
  make_fixtures-HasValidName ((name, entries) ∷ given) id e found =
      let (_, rest1) = >>-eq-ok (raise_if (str_eq name "") _) _ e in
      let (frozen, normalized, rest2) = >>=-eq-ok (normalize hexdigest encode entries) _ rest1 in
      let (others, made, rest3) = >>=-eq-ok (make_fixtures hexdigest encode given) _ rest2 in
      let found' = rw (sym (ok-injective rest3)) at found in
      elim (Bool-cases (str_eq name id)) [
        | inl same ↦
            let here = rw same at found' in
            let e' : frozen ≡ _ = cc in
            subst (All HasValidName) e' (normalize-HasValidName entries normalized)
        | inr other ↦
            let later = rw other at found' in make_fixtures-HasValidName given id made later
      ]

  module _ (resolve : FilePath → FilePath) (plain : (path : FilePath) → resolve path ≡ path)
      (destination : FilePath) where
    stage_files-placed :
        (files : Contents) (disk : Disk)
        → All HasValidName files
        → All HasPart files
        → IsApart (disk ++ placed destination files)
        → stage_files hexdigest encode resolve destination files disk
          ≡ ok (disk ++ placed destination files)
    unfolding stage_files create_file
    stage_files-placed [] disk valid proper apart = ap ok (sym (append-nil disk))
    stage_files-placed ((path, content) ∷ files) disk (name, valid) (part, proper) apart =
        let target = destination ++ parts path in
        let found = workspace_path_plain resolve destination path (plain _) (plain _) name in
        let free = free-later disk (target, content) (placed destination files) apart in
        let shift = append_assoc disk ((target, content) ∷ []) (placed destination files) in
        let rest =
          stage_files-placed files (disk ++ (target, content) ∷ []) valid proper
            (subst IsApart (sym shift) apart) in
        rw (found, part, free) (rest ∙ ap ok shift)

    -- A reference to a fixture of the workspace can be had, and staging it into an empty directory
    -- always succeeds and writes exactly the fixture's files, each under its own path. This takes
    -- that no symbolic link is met, that every path has a component other than ".", and that no
    -- file lies at, above or below the path of another.
    pub stage-fixture_ref :
        (given : List (String × List (Text × Content))) (id : String) {fixtures : Fixtures}
        {files : Contents}
        → make_fixtures hexdigest encode given ≡ ok fixtures
        → get_fixture id fixtures ≡ some files
        → All HasPart files
        → IsApart (placed destination files)
        → (ref : ProtectedFixtureRef) × (fixture_ref hexdigest encode fixtures id ≡ ok ref)
          × (stage hexdigest encode resolve destination fixtures ref []
              ≡ ok (placed destination files))
    unfolding fixture_ref stage stage_found
    stage-fixture_ref given id {files = files} made found proper apart =
        let digest = fixture_content_digest hexdigest encode files in
        let same : str_eq digest digest ≡ true = (eq_iff digest digest).1 refl in
        let valid = make_fixtures-HasValidName given id made found in
        (
          record { fixture_id = id; content_hash = digest },
          rw (found, fixture_ref) refl,
          rw (found, same, stage, stage_found) (stage_files-placed files [] valid proper apart),
        )
