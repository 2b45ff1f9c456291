-- ===== src/Snapshots/Trees.antt =====
-- Proofs on `_freeze_workspace`: the directories that it can freeze. The entries of a directory are
-- taken as they can be: no file lies at or below another one.
use mathlib.Core.Path.{subst}
use pan_agent.Base.{
  ◌+◌, ◌≤◌, ◌≡◌, refl, String, ◌↔◌, Bool, false, List, [], ◌∷◌, ◌++◌, any, length, length-append,
  All, arith, leb, ltb, or-eq-false,
}
use pan_agent.Base.Result.{ok}
use pan_agent.Base.Text.{Text}
use pan_agent.Paths.{parts, is_relative_to, paths_overlap}
use pan_agent.Snapshots.{
  Bytes, Contents, Kind, symbolic_link, directory, regular_file, special_file, Snapshot, file_limit,
  byte_limit, below_file, is_blocked, freeze_valid, freeze_entry, freeze_entries, freeze_workspace,
  nothing_frozen, fixture_content_digest,
}
use pan_agent.Snapshots.Frozen.{IsTakable, regular_files, total_length, freeze_workspace-IsLimited}

-- Two entries of one directory: a file has nothing at its path or below it.
abbrev pub Apart : Text × Kind → Text × Kind → Type 0
Apart (p, regular_file _) (q, regular_file _) = paths_overlap (parts q) (parts p) ≡ false
Apart (p, directory) (q, regular_file _) = is_relative_to (parts q) (parts p) ≡ false
Apart (p, regular_file _) (q, directory) = is_relative_to (parts p) (parts q) ≡ false
Apart _ _ = Unit {0}

abbrev pub IsTree : List (Text × Kind) → Type 0
IsTree [] = Unit {0}
IsTree (entry ∷ entries) = All (Apart entry) entries × IsTree entries

-- The entry can be added to what was frozen before.
abbrev Clear : Snapshot → Text × Kind → Type 0
Clear s (relative, regular_file _) = is_blocked (parts relative) s ≡ false
Clear s (relative, directory) = below_file (parts relative) s.files ≡ false
Clear s _ = Unit {0}

abbrev add : Snapshot → Text × Kind → Snapshot
add s (relative, regular_file content) = record s {
  files = s.files ++ (relative, content) ∷ [];
  total_bytes = s.total_bytes + length content;
}
add s (relative, directory) = record s { directories = parts relative ∷ s.directories }
add s _ = s

any-snoc :
    {A : Type 0} (test : A → Bool) (items : List A) (item : A)
    → any test items ≡ false
    → test item ≡ false
    → any test (items ++ item ∷ []) ≡ false
any-snoc test [] item none_before off = rw off refl
any-snoc test (first ∷ items) item none_before off =
    let (here, later) = or-eq-false (test first) _ none_before in
    rw here (any-snoc test items item later off)

Clear-add :
    (s : Snapshot) (entry later : Text × Kind)
    → Clear s later
    → Apart entry later
    → Clear (add s entry) later
Clear-add s (p, regular_file content) (q, regular_file _) clear apart =
    let (files, directories) = or-eq-false (any _ s.files) _ clear in
    rw
      (
        any-snoc (λ (file : Text × Bytes). paths_overlap (parts q) (parts file.0)) s.files
            (p, content) files apart,
        directories,
      )
      refl
Clear-add s (p, directory) (q, regular_file _) clear apart =
    let (files, directories) = or-eq-false (any _ s.files) _ clear in
    rw (files, apart, directories) refl
Clear-add s (p, regular_file content) (q, directory) clear apart =
    any-snoc (λ (file : Text × Bytes). is_relative_to (parts file.0) (parts q)) s.files (p, content)
      clear apart
Clear-add s (p, directory) (q, directory) clear apart = clear
Clear-add s (p, symbolic_link) later clear apart = clear
Clear-add s (p, special_file) later clear apart = clear
Clear-add s entry (q, symbolic_link) clear apart = tt
Clear-add s entry (q, special_file) clear apart = tt

Clear-add_all :
    (s : Snapshot) (entry : Text × Kind) (entries : List (Text × Kind))
    → All (Clear s) entries
    → All (Apart entry) entries
    → All (Clear (add s entry)) entries
Clear-add_all s entry [] clear apart = tt
Clear-add_all s entry (later ∷ entries) clear apart =
    (Clear-add s entry later clear.0 apart.0, Clear-add_all s entry entries clear.1 apart.1)

-- There is room for the files of the entries.
pub record HasRoom (s : Snapshot) (entries : List (Text × Kind)) : Type 0 where
  pub files : length s.files + length (regular_files entries) ≤ file_limit
  pub bytes : s.total_bytes + total_length (regular_files entries) ≤ byte_limit

freeze_entry-add :
    (s : Snapshot) (entry : Text × Kind)
    → IsTakable entry
    → Clear s entry
    → HasRoom s (entry ∷ [])
    → freeze_entry s entry.0 entry.1 ≡ ok (add s entry)
unfolding freeze_entry freeze_valid regular_files total_length
freeze_entry-add s (relative, directory) (_, valid) clear room = rw (valid, clear) refl
freeze_entry-add s (relative, regular_file content) (_, valid) clear room =
    let few : leb file_limit (length s.files) ≡ false = ground (arith, room.files) in
    let small : ltb byte_limit (s.total_bytes + length content) ≡ false =
      ground (arith, room.bytes) in
    rw (valid, few, small, clear) refl
freeze_entry-add s (relative, symbolic_link) takable clear room = absurd takable.0
freeze_entry-add s (relative, special_file) takable clear room = absurd takable.0

HasRoom-first :
    (s : Snapshot) (entry : Text × Kind) (entries : List (Text × Kind))
    → HasRoom s (entry ∷ entries)
    → HasRoom s (entry ∷ [])
unfolding regular_files total_length
HasRoom-first s (relative, directory) entries room = record {
  files = omega (arith, room.files);
  bytes = omega (arith, room.bytes);
}
HasRoom-first s (relative, regular_file content) entries room = record {
  files = omega (arith, room.files);
  bytes = omega (arith, room.bytes);
}
HasRoom-first s (relative, symbolic_link) entries room = record {
  files = omega (arith, room.files);
  bytes = omega (arith, room.bytes);
}
HasRoom-first s (relative, special_file) entries room = record {
  files = omega (arith, room.files);
  bytes = omega (arith, room.bytes);
}

HasRoom-rest :
    (s : Snapshot) (entry : Text × Kind) (entries : List (Text × Kind))
    → HasRoom s (entry ∷ entries)
    → HasRoom (add s entry) entries
unfolding regular_files total_length
HasRoom-rest s (relative, directory) entries room = record {
  files = room.files;
  bytes = room.bytes;
}
HasRoom-rest s (relative, regular_file content) entries room = record {
  files = omega (arith, room.files, length-append s.files ((relative, content) ∷ []));
  bytes = omega (arith, room.bytes);
}
HasRoom-rest s (relative, symbolic_link) entries room = record {
  files = room.files;
  bytes = room.bytes;
}
HasRoom-rest s (relative, special_file) entries room = record {
  files = room.files;
  bytes = room.bytes;
}

freeze_entries-free :
    (entries : List (Text × Kind)) (s : Snapshot)
    → All IsTakable entries
    → IsTree entries
    → All (Clear s) entries
    → HasRoom s entries
    → (last : Snapshot) × (freeze_entries s entries ≡ ok last)
unfolding freeze_entries
freeze_entries-free [] s takable tree clear room = (s, refl)
freeze_entries-free ((relative, kind) ∷ entries) s takable tree clear room =
    let entry : Text × Kind = (relative, kind) in
    let first = freeze_entry-add s entry takable.0 clear.0 (HasRoom-first s entry entries room) in
    let (last, rest) =
      freeze_entries-free entries (add s entry) takable.1 tree.1
        (Clear-add_all s entry entries clear.1 tree.0) (HasRoom-rest s entry entries room) in
    (last, rw first rest)

nothing-Clear : (entries : List (Text × Kind)) → All (Clear nothing_frozen) entries
nothing-Clear [] = tt
nothing-Clear ((relative, regular_file content) ∷ entries) = (refl, nothing-Clear entries)
nothing-Clear ((relative, directory) ∷ entries) = (refl, nothing-Clear entries)
nothing-Clear ((relative, symbolic_link) ∷ entries) = (tt, nothing-Clear entries)
nothing-Clear ((relative, special_file) ∷ entries) = (tt, nothing-Clear entries)

-- The entries of a directory, where no file lies at or below another one, are frozen exactly when
-- each is a directory or a regular file under a well-formed relative path, and there are at most
-- 1000 regular files with at most 10 MiB in all. The snapshot then holds exactly the regular files,
-- in order and with their contents, and the digest is that of these files.
pub freeze_workspace_iff :
    (hexdigest : Bytes → String) (encode : Text → Bytes) (entries : List (Text × Kind))
    → IsTree entries
    → ((s : Snapshot) × (s.files ≡ regular_files entries)
        × (freeze_workspace hexdigest encode entries
            ≡ ok (fixture_content_digest hexdigest encode (regular_files entries), s)))
      ↔ (All IsTakable entries
          × (length (regular_files entries) ≤ file_limit)
          × (total_length (regular_files entries) ≤ byte_limit))
unfolding freeze_workspace
freeze_workspace_iff hexdigest encode entries tree = (
  λ frozen.
      let (s, files, e) = frozen in
      let (takable, _, few, small, _) = freeze_workspace-IsLimited hexdigest encode entries e in
      (
        takable,
        subst (λ (held : Contents). length held ≤ file_limit) files few,
        subst (λ held. total_length held ≤ byte_limit) files small,
      ),
  λ given.
      let (takable, few, small) = given in
      let (s, taken) =
        freeze_entries-free entries nothing_frozen takable tree (nothing-Clear entries)
          (record { files = omega (arith, few); bytes = omega (arith, small) }) in
      let e : freeze_workspace hexdigest encode entries
          ≡ ok (fixture_content_digest hexdigest encode s.files, s) =
        rw taken refl in
      let (_, files, _, _, _) = freeze_workspace-IsLimited hexdigest encode entries e in
      (
        s,
        files,
        subst
            (λ held.
              freeze_workspace hexdigest encode entries
              ≡ ok (fixture_content_digest hexdigest encode held, s))
            files e,
      ),
)
