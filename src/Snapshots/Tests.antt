-- ===== src/Snapshots/Tests.antt =====
-- Fixtures and snapshots at concrete inputs. Texts are encoded as their code points.
use pan_agent.Base.{
  ◌≤◌, String, ◌≡◌, refl, sym, ap, ◌∙◌, some, List, [], ◌∷◌, ◌++◌, map, arith, length, All, keep,
}
use pan_agent.Base.Result.{ok, err}
use pan_agent.Base.Text.{Text, starts_with, has_char, split, text_eq}
use pan_agent.Paths.{
  FilePath, validate_relative_workspace_path, invalid_relative_path, parts, is_relative_to,
  paths_overlap, path_eq, workspace_path, after,
}
use pan_agent.Snapshots.{
  Bytes, Contents, bad_path, symbolic_link_found, special_file_found, too_many_bytes,
  content_mismatch, Kind, symbolic_link, directory, regular_file, special_file, Snapshot,
  file_limit, byte_limit, freeze_workspace, freeze_entry, Fixtures, ProtectedFixtureRef,
  get_fixture, Disk, stage, make_fixtures, text, bytes, fixture_content_digest, fixture_ref,
  sort_files, framed, to_bytes, insert_file, freeze_entries, freeze_valid, normalize, stage_found,
  stage_files, create_file,
}
use pan_agent.Snapshots.Framing.{IsFramable, fixture_content_digest-injective}
use pan_agent.Snapshots.Frozen.{IsTakable, regular_files, total_length, freeze_workspace-IsLimited}
use pan_agent.Snapshots.Trees.{IsTree, freeze_workspace_iff}
use pan_agent.Snapshots.Referenced.{placed, stage-fixture_ref}
use pan_agent.Snapshots.Staged.{IsBelow, content_of, IsApart, stage-IsBelow}
use pan_agent.Authority.Sets.{text_ltb}

abbrev encode : Text → Bytes
encode t = t

abbrev hexdigest : Bytes → String
hexdigest input = "00"

abbrev path_a : Text
path_a = b'a' ∷ []

-- "b/c"
abbrev path_b : Text
path_b = b'b' ∷ b'/' ∷ b'c' ∷ []

abbrev files : Contents
files = (path_b, 1 ∷ 2 ∷ []) ∷ (path_a, 3 ∷ []) ∷ []

abbrev sorted : Contents
sorted = (path_a, 3 ∷ []) ∷ (path_b, 1 ∷ 2 ∷ []) ∷ []

to_bytes_test : to_bytes 258 ≡ 0 ∷ 0 ∷ 0 ∷ 0 ∷ 0 ∷ 0 ∷ 1 ∷ 2 ∷ []
unfolding to_bytes
to_bytes_test = refl

sort_files_test : sort_files files ≡ sorted
unfolding sort_files insert_file text_ltb
sort_files_test = refl

sort_files-sorted : sort_files sorted ≡ sorted
unfolding sort_files insert_file text_ltb
sort_files-sorted = refl

same_sorted : sort_files files ≡ sort_files sorted
same_sorted = sort_files_test ∙ sym sort_files-sorted

same_input :
    hexdigest (framed encode (sort_files files)) ≡ hexdigest (framed encode (sort_files sorted))
    → framed encode (sort_files files) ≡ framed encode (sort_files sorted)
same_input e = ap (framed encode) same_sorted

same_digest :
    fixture_content_digest hexdigest encode files ≡ fixture_content_digest hexdigest encode sorted
unfolding fixture_content_digest
same_digest = refl

framable : IsFramable encode (sort_files files)
framable = rw sort_files_test (omega arith)

IsFramable-sorted : IsFramable encode (sort_files sorted)
IsFramable-sorted = rw sort_files-sorted (omega arith)

-- Two dicts with the same items in another order have one digest, and the same sorted files.
fixture_content_digest-injective_example : sort_files files ≡ sort_files sorted
fixture_content_digest-injective_example =
    fixture_content_digest-injective hexdigest encode files sorted (λ s t e. e) same_input framable
      IsFramable-sorted same_digest

abbrev entries : List (Text × Kind)
entries =
    (path_a, regular_file (3 ∷ []))
    ∷ (b'b' ∷ [], directory)
    ∷ (path_b, regular_file (1 ∷ 2 ∷ []))
    ∷ []

abbrev frozen : Snapshot
frozen = record { files = sorted; directories = ((b'b' ∷ []) ∷ []) ∷ []; total_bytes = 3 }

frozen_test : freeze_workspace hexdigest encode entries ≡ ok ("sha256:00", frozen)
unfolding freeze_workspace freeze_entries freeze_entry validate_relative_workspace_path starts_with
    has_char parts keep split text_eq freeze_valid is_relative_to paths_overlap path_eq
    fixture_content_digest
frozen_test = refl

link_refused :
    freeze_workspace hexdigest encode ((path_a, symbolic_link) ∷ []) ≡ err symbolic_link_found
unfolding freeze_workspace freeze_entries freeze_entry
link_refused = refl

special_refused :
    freeze_workspace hexdigest encode ((path_a, special_file) ∷ [])
    ≡ err (special_file_found path_a)
unfolding freeze_workspace freeze_entries freeze_entry validate_relative_workspace_path starts_with
    has_char parts keep split text_eq freeze_valid
special_refused = refl

-- The byte limit is reached exactly, and then passed by one.
at_limit :
    freeze_entry (record frozen { total_bytes = 10485759 }) (b'x' ∷ []) (regular_file (1 ∷ 2 ∷ []))
    ≡ err too_many_bytes
unfolding freeze_entry validate_relative_workspace_path starts_with has_char parts keep split
    text_eq freeze_valid
at_limit = refl

frozen_within_limits :
    All IsTakable entries
    × (frozen.files ≡ regular_files entries)
    × (length frozen.files ≤ file_limit)
    × (total_length frozen.files ≤ byte_limit)
    × ("sha256:00" ≡ fixture_content_digest hexdigest encode (regular_files entries))
frozen_within_limits = freeze_workspace-IsLimited hexdigest encode entries frozen_test

entries-IsTree : IsTree entries
unfolding is_relative_to paths_overlap path_eq text_eq parts keep split
entries-IsTree = ((refl, (refl, tt)), ((refl, tt), (tt, tt)))

entries-few : length (regular_files entries) ≤ file_limit
unfolding regular_files
entries-few = omega arith

entries-small : total_length (regular_files entries) ≤ byte_limit
unfolding regular_files total_length
entries-small = omega arith

freeze_workspace_iff_example :
    (s : Snapshot) × (s.files ≡ regular_files entries)
    × (freeze_workspace hexdigest encode entries
        ≡ ok (fixture_content_digest hexdigest encode (regular_files entries), s))
freeze_workspace_iff_example =
    (freeze_workspace_iff hexdigest encode entries entries-IsTree).1
      (frozen_within_limits.0, entries-few, entries-small)

abbrev fixtures : Fixtures
fixtures = ("demo", files) ∷ []

made :
    make_fixtures hexdigest encode
      (("demo", (path_b, bytes (1 ∷ 2 ∷ [])) ∷ (path_a, bytes (3 ∷ [])) ∷ []) ∷ [])
    ≡ ok fixtures
unfolding make_fixtures normalize validate_relative_workspace_path starts_with has_char parts keep
    split text_eq
made = refl

bad_name :
    make_fixtures hexdigest encode (("demo", (b'/' ∷ path_a, text path_a) ∷ []) ∷ [])
    ≡ err (bad_path invalid_relative_path)
unfolding make_fixtures normalize validate_relative_workspace_path starts_with
bad_name = refl

abbrev fixture : ProtectedFixtureRef
fixture = record { fixture_id = "demo"; content_hash = "sha256:00" }

-- "/w"
abbrev workspace : FilePath
workspace = (b'w' ∷ []) ∷ []

abbrev resolve : FilePath → FilePath
resolve path = path

abbrev staged_disk : Disk
staged_disk =
    (workspace ++ (b'b' ∷ []) ∷ (b'c' ∷ []) ∷ [], 1 ∷ 2 ∷ [])
    ∷ (workspace ++ path_a ∷ [], 3 ∷ [])
    ∷ []

staged : stage hexdigest encode resolve workspace fixtures fixture [] ≡ ok staged_disk
unfolding stage stage_found get_fixture fixture_content_digest stage_files workspace_path
    starts_with validate_relative_workspace_path after has_char parts keep split text_eq
    is_relative_to path_eq create_file paths_overlap text_ltb framed insert_file sort_files to_bytes
staged = refl

drifted :
    stage hexdigest encode resolve workspace fixtures
      (record fixture { content_hash = "sha256:01" })
      []
    ≡ err content_mismatch
unfolding stage stage_found get_fixture fixture_content_digest
drifted = refl

stage-IsBelow_example :
    (files : Contents) × (get_fixture "demo" fixtures ≡ some files)
    × (fixture_content_digest hexdigest encode files ≡ "sha256:00")
    × All (IsBelow (resolve workspace)) staged_disk
    × (map content_of staged_disk ≡ map content_of files)
    × IsApart staged_disk
stage-IsBelow_example = stage-IsBelow hexdigest encode resolve workspace fixtures fixture staged

stage-fixture_ref_example :
    (ref : ProtectedFixtureRef) × (fixture_ref hexdigest encode fixtures "demo" ≡ ok ref)
    × (stage hexdigest encode resolve workspace fixtures ref [] ≡ ok (placed workspace files))
unfolding get_fixture paths_overlap is_relative_to path_eq text_eq parts keep split
stage-fixture_ref_example =
    stage-fixture_ref hexdigest encode resolve (λ path. refl) workspace
      (("demo", (path_b, bytes (1 ∷ 2 ∷ [])) ∷ (path_a, bytes (3 ∷ [])) ∷ []) ∷ []) "demo" made refl
      (refl, (refl, tt)) ((refl, tt), (tt, tt))
