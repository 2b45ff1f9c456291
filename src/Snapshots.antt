-- ===== src/Snapshots.antt =====
-- workspace_agent_harness/__init__.py: `_fixture_content_digest`, `LocalFixtureWorkspace` and
-- `_freeze_workspace`. A directory that is written to is the list of its files with their contents.
-- `Path.resolve`, `str.encode` and the hexadecimal SHA-256 are arguments. A file can be created at a
-- path where no file lies at the path, above it or below it, and no directory at the path.
pub mod Framing
pub mod Referenced
pub mod Frozen
pub mod Staged
pub mod Trees
pub mod Tests
use Prim.Native.Nat.{◌/◌, ◌%◌, ◌^◌}
use Prim.Native.String.{◌++◌ as ◌<>◌}
use pan_agent.Base.{
  ℕ, ◌+◌, String, Bool, true, false, not, ◌||◌, Option, none, some, List, [], ◌∷◌, ◌++◌, str_eq,
  if◌then◌else◌, length, any, ltb, leb,
}
use pan_agent.Base.Result.{Result, ok, err, ◌>>=◌, ◌>>◌, raise_if}
use pan_agent.Base.Text.{Text}
use pan_agent.Authority.Sets.{text_ltb}
use pan_agent.Paths.{
  FilePath, PathError, parts, namespace, is_relative_to, paths_overlap, workspace_path,
  validate_relative_workspace_path,
}

abbrev pub Bytes : Type 0
Bytes = List ℕ

-- A dict from relative paths to contents
abbrev pub Contents : Type 0
Contents = List (Text × Bytes)

-- n.to_bytes(8, "big"), for n below 2 ** 64
unfoldable pub to_bytes : ℕ → Bytes
to_bytes n =
    (n / 2 ^ 56 % 256)
    ∷ (n / 2 ^ 48 % 256)
    ∷ (n / 2 ^ 40 % 256)
    ∷ (n / 2 ^ 32 % 256)
    ∷ (n / 2 ^ 24 % 256)
    ∷ (n / 2 ^ 16 % 256)
    ∷ (n / 2 ^ 8 % 256)
    ∷ (n % 256)
    ∷ []

-- for path in sorted(files): the files in the order of their paths
unfoldable pub insert_file : Text → Bytes → Contents → Contents
insert_file path content [] = (path, content) ∷ []
insert_file path content ((other, old) ∷ files) =
    if text_ltb path other
    then (path, content) ∷ (other, old) ∷ files
    else (other, old) ∷ insert_file path content files

unfoldable pub sort_files : Contents → Contents
sort_files [] = []
sort_files ((path, content) ∷ files) = insert_file path content (sort_files files)

-- What the digest is fed of the sorted files
unfoldable pub framed : (Text → Bytes) → Contents → Bytes
framed encode [] = []
framed encode ((path, content) ∷ files) =
    to_bytes (length (encode path))
    ++ (encode path ++ (to_bytes (length content) ++ (content ++ framed encode files)))

unfoldable pub fixture_content_digest : (Bytes → String) → (Text → Bytes) → Contents → String
fixture_content_digest hexdigest encode files =
    "sha256:" <> hexdigest (framed encode (sort_files files))

-- How making a workspace or a snapshot fails
pub data FileError : Type 0 where
  empty_fixture_id : FileError
  unknown_fixture : String → FileError
  content_mismatch : FileError
  bad_path : PathError → FileError
  symbolic_link_found : FileError
  special_file_found : Text → FileError
  too_many_files : FileError
  too_many_bytes : FileError
  cannot_create : FilePath → FileError

abbrev pub or_bad_path : {A : Type 0} → Result PathError A → Result FileError A
or_bad_path (ok a) = ok a
or_bad_path (err error) = err (bad_path error)

-- The content of a fixture's file: `str | bytes`
pub data Content : Type 0 where
  text : Text → Content
  bytes : Bytes → Content

pub record ProtectedFixtureRef : Type 0 where
  pub fixture_id : String
  pub content_hash : String

abbrev pub Fixtures : Type 0
Fixtures = List (String × Contents)

-- self._fixtures.get(fixture_id)
unfoldable pub get_fixture : String → Fixtures → Option Contents
get_fixture id [] = none
get_fixture id ((name, files) ∷ fixtures) =
    if str_eq name id then some files else get_fixture id fixtures

-- The files of a directory, under their absolute paths
abbrev pub Disk : Type 0
Disk = List (FilePath × Bytes)

-- with target.open("xb") as file: file.write(content)
unfoldable pub create_file : FilePath → Bytes → Disk → Result FileError Disk
create_file target content disk = do
  raise_if (any (λ file. paths_overlap target file.0) disk) (cannot_create target)
  ok (disk ++ (target, content) ∷ [])

module _ (hexdigest : Bytes → String) (encode : Text → Bytes) where
  to_content : Content → Bytes
  to_content (text t) = encode t
  to_content (bytes b) = b

  -- `normalized`
  unfoldable pub normalize : List (Text × Content) → Result FileError Contents
  unfolding to_content
  normalize [] = ok []
  normalize ((path, content) ∷ files) = do
    or_bad_path (validate_relative_workspace_path path)
    rest ← normalize files
    ok ((path, to_content content) ∷ rest)

  -- `LocalFixtureWorkspace.__init__`
  unfoldable pub make_fixtures : List (String × List (Text × Content)) → Result FileError Fixtures
  make_fixtures [] = ok []
  make_fixtures ((id, files) ∷ fixtures) = do
    raise_if (str_eq id "") empty_fixture_id
    frozen ← normalize files
    rest ← make_fixtures fixtures
    ok ((id, frozen) ∷ rest)

  unfoldable pub fixture_ref : Fixtures → String → Result FileError ProtectedFixtureRef
  fixture_ref fixtures id = elim (get_fixture id fixtures) [
    | none ↦ err (unknown_fixture id)
    | some files ↦
        ok
          (record { fixture_id = id; content_hash = fixture_content_digest hexdigest encode files })
  ]

  module _ (resolve : FilePath → FilePath) (destination : FilePath) where
    -- The loop of `stage` over the files
    unfoldable pub stage_files : Contents → Disk → Result FileError Disk
    stage_files [] disk = ok disk
    stage_files ((path, content) ∷ files) disk = do
      target ← or_bad_path (workspace_path resolve destination (namespace ++ path))
      disk' ← create_file target content disk
      stage_files files disk'

    unfoldable pub stage_found :
        ProtectedFixtureRef → Disk → Option Contents → Result FileError Disk
    stage_found fixture disk none = err (unknown_fixture fixture.fixture_id)
    stage_found fixture disk (some files) = do
      raise_if (not (str_eq (fixture_content_digest hexdigest encode files) fixture.content_hash))
          content_mismatch
      stage_files files disk

    -- `LocalFixtureWorkspace.stage`, with the files that lie there before
    unfoldable pub stage : Fixtures → ProtectedFixtureRef → Disk → Result FileError Disk
    stage fixtures fixture disk = stage_found fixture disk (get_fixture fixture.fixture_id fixtures)

-- An entry of `source.rglob("*")`, under its path below `source`
pub data Kind : Type 0 where
  symbolic_link : Kind
  directory : Kind
  regular_file : Bytes → Kind
  special_file : Kind

-- The local variables of `_freeze_workspace`, and the directories made below `destination`
pub record Snapshot : Type 0 where
  pub files : Contents
  pub directories : List FilePath
  pub total_bytes : ℕ

abbrev pub file_limit : ℕ
file_limit = 1000

-- 10 * 1024 * 1024
abbrev pub byte_limit : ℕ
byte_limit = 10485760

abbrev pub below_file : FilePath → Contents → Bool
below_file target files = any (λ file. is_relative_to (parts file.0) target) files

-- A file at, above or below the target, or a directory at it
abbrev pub is_blocked : FilePath → Snapshot → Bool
is_blocked target s =
    any (λ file. paths_overlap target (parts file.0)) s.files
    || any (is_relative_to target) s.directories

-- The body of the loop after the tests for a symbolic link and of the path
unfoldable pub freeze_valid : Snapshot → Text → Kind → Result FileError Snapshot
freeze_valid s relative symbolic_link = err symbolic_link_found
freeze_valid s relative directory = do
  let target = parts relative
  raise_if (below_file target s.files) (cannot_create target)
  ok (record s { directories = target ∷ s.directories })
freeze_valid s relative special_file = err (special_file_found relative)
freeze_valid s relative (regular_file content) = do
  raise_if (leb file_limit (length s.files)) too_many_files
  let total_bytes = s.total_bytes + length content
  raise_if (ltb byte_limit total_bytes) too_many_bytes
  raise_if (is_blocked (parts relative) s) (cannot_create (parts relative))
  ok (record s { files = s.files ++ (relative, content) ∷ []; total_bytes = total_bytes })

abbrev pub is_link : Kind → Bool
is_link symbolic_link = true
is_link _ = false

unfoldable pub freeze_entry : Snapshot → Text → Kind → Result FileError Snapshot
freeze_entry s relative kind = do
  raise_if (is_link kind) symbolic_link_found
  or_bad_path (validate_relative_workspace_path relative)
  freeze_valid s relative kind

-- The loop, over the entries in the order of their paths
unfoldable pub freeze_entries : Snapshot → List (Text × Kind) → Result FileError Snapshot
freeze_entries s [] = ok s
freeze_entries s ((relative, kind) ∷ entries) = do
  next ← freeze_entry s relative kind
  freeze_entries next entries

abbrev pub nothing_frozen : Snapshot
nothing_frozen = record { files = []; directories = []; total_bytes = 0 }

-- `_freeze_workspace`: the digest, and the snapshot that it is of
unfoldable pub freeze_workspace :
    (Bytes → String) → (Text → Bytes) → List (Text × Kind) → Result FileError (String × Snapshot)
freeze_workspace hexdigest encode entries = do
  s ← freeze_entries nothing_frozen entries
  ok (fixture_content_digest hexdigest encode s.files, s)
