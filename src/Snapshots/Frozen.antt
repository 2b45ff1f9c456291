-- ===== src/Snapshots/Frozen.antt =====
-- What a snapshot of a workspace holds, and the limits that it keeps.
use mathlib.Core.Path.{subst}
use mathlib.Core.List.{append-nil, append_assoc}
use pan_agent.Base.{
  ℕ, ◌+◌, ◌≤◌, String, ◌≡◌, refl, sym, ap, ◌∙◌, false, List, [], ◌∷◌, ◌++◌, arith, length,
  length-append, All, leb, ltb,
}
use pan_agent.Base.Result.{
  Result, ok, err, raise_if, >>=-eq-ok, >>-eq-ok, raise_if-eq-ok, ok-injective,
}
use pan_agent.Base.Text.{Text}
use pan_agent.Paths.{PathError, validate_relative_workspace_path}
use pan_agent.Snapshots.{
  Bytes, Contents, or_bad_path, Kind, symbolic_link, directory, regular_file, special_file,
  Snapshot, file_limit, byte_limit, freeze_valid, freeze_entry, freeze_entries, nothing_frozen,
  freeze_workspace, fixture_content_digest,
}

-- The regular files among the entries, in order
unfoldable pub regular_files : List (Text × Kind) → Contents
regular_files [] = []
regular_files ((relative, regular_file content) ∷ entries) =
    (relative, content) ∷ regular_files entries
regular_files ((relative, symbolic_link) ∷ entries) = regular_files entries
regular_files ((relative, directory) ∷ entries) = regular_files entries
regular_files ((relative, special_file) ∷ entries) = regular_files entries

-- The bytes of all contents
unfoldable pub total_length : Contents → ℕ
total_length [] = 0
total_length ((path, content) ∷ files) = length content + total_length files

abbrev pub IsPlain : Kind → Type 0
IsPlain symbolic_link = ⊥
IsPlain special_file = ⊥
IsPlain directory = Unit {0}
IsPlain (regular_file content) = Unit {0}

-- An entry that may be taken: a directory or a regular file, under a well-formed relative path
abbrev pub IsTakable : Text × Kind → Type 0
IsTakable entry = IsPlain entry.1 × (validate_relative_workspace_path entry.0 ≡ ok tt)

pub record IsLimited (s : Snapshot) : Type 0 where
  pub counted : s.total_bytes ≡ total_length s.files
  pub files : length s.files ≤ file_limit
  pub bytes : s.total_bytes ≤ byte_limit

total_length-append :
    (files others : Contents)
    → total_length (files ++ others) ≡ total_length files + total_length others
unfolding total_length
total_length-append [] others = omega arith
total_length-append ((path, content) ∷ files) others =
    omega (arith, total_length-append files others)

pub or_bad_path-eq-ok :
    {A : Type 0} (checked : Result PathError A) {a : A}
    → or_bad_path checked ≡ ok a
    → checked ≡ ok a
or_bad_path-eq-ok (ok b) e = let same = ok-injective e in ap ok same
or_bad_path-eq-ok (err error) e = cc

one_file : (path : Text) (content : Bytes) → total_length ((path, content) ∷ []) ≡ length content
unfolding total_length
one_file path content = omega arith

regular_files-cons :
    (relative : Text) (kind : Kind) (entries : List (Text × Kind))
    → regular_files ((relative, kind) ∷ entries)
      ≡ regular_files ((relative, kind) ∷ []) ++ regular_files entries
unfolding regular_files
regular_files-cons relative symbolic_link entries = refl
regular_files-cons relative directory entries = refl
regular_files-cons relative (regular_file content) entries = refl
regular_files-cons relative special_file entries = refl

-- What one entry adds
freeze_valid_lem :
    (s : Snapshot) (relative : Text) (kind : Kind) {next : Snapshot}
    → IsLimited s
    → freeze_valid s relative kind ≡ ok next
    → IsPlain kind
      × (next.files ≡ s.files ++ regular_files ((relative, kind) ∷ []))
      × IsLimited next
unfolding freeze_valid regular_files
freeze_valid_lem s relative symbolic_link limited taken = cc
freeze_valid_lem s relative special_file limited taken = cc
freeze_valid_lem s relative directory limited taken =
    let (_, rest) = >>-eq-ok (raise_if _ _) _ taken in
    let e = ok-injective rest in
    (
      tt,
      ap (λ r. r.files) (sym e) ∙ sym (append-nil s.files),
      subst IsLimited e
          (record { counted = limited.counted; files = limited.files; bytes = limited.bytes }),
    )
freeze_valid_lem s relative (regular_file content) limited taken =
    let (e1, rest1) = >>-eq-ok (raise_if _ _) _ taken in
    let (e2, rest2) = >>-eq-ok (raise_if _ _) _ rest1 in
    let (_, rest3) = >>-eq-ok (raise_if _ _) _ rest2 in
    let e = ok-injective rest3 in
    let few : leb file_limit (length s.files) ≡ false = raise_if-eq-ok _ _ e1 in
    let small : ltb byte_limit (s.total_bytes + length content) ≡ false = raise_if-eq-ok _ _ e2 in
    let file : Contents = (relative, content) ∷ [] in
    (
      tt,
      ap (λ r. r.files) (sym e),
      subst IsLimited e (record {
        counted =
            omega
              (arith, limited.counted, total_length-append s.files file, one_file relative content);
        files = ground (arith, few, length-append s.files file);
        bytes = ground (arith, small);
      }),
    )

freeze_entries_lem :
    (entries : List (Text × Kind)) (s : Snapshot) {last : Snapshot}
    → IsLimited s
    → freeze_entries s entries ≡ ok last
    → All IsTakable entries × (last.files ≡ s.files ++ regular_files entries) × IsLimited last
unfolding freeze_entries freeze_entry regular_files
freeze_entries_lem [] s limited taken =
    let e = ok-injective taken in
    (tt, ap (λ r. r.files) (sym e) ∙ sym (append-nil s.files), subst IsLimited e limited)
freeze_entries_lem ((relative, kind) ∷ entries) s limited taken =
    let (next, first, rest) = >>=-eq-ok (freeze_entry s relative kind) _ taken in
    let (_, first1) = >>-eq-ok (raise_if _ _) _ first in
    let (valid, first2) = >>-eq-ok (or_bad_path _) _ first1 in
    let (plain, added, limited') = freeze_valid_lem s relative kind limited first2 in
    let (takable, grown, limited'') = freeze_entries_lem entries next limited' rest in
    (
      ((plain, or_bad_path-eq-ok (validate_relative_workspace_path relative) valid), takable),
      grown
          ∙ ap (λ files. files ++ regular_files entries) added
          ∙ append_assoc s.files (regular_files ((relative, kind) ∷ [])) (regular_files entries)
          ∙ ap (λ files. s.files ++ files) (sym (regular_files-cons relative kind entries)),
      limited'',
    )

none-IsLimited : IsLimited nothing_frozen
unfolding total_length
none-IsLimited = record { counted = refl; files = omega arith; bytes = omega arith }

-- A workspace that is frozen holds only directories and regular files, each under a well-formed
-- relative path. The snapshot holds exactly its regular files, in order and with their contents, at
-- most 1000 of them with at most 10 MiB in all, and the digest is that of these files.
pub freeze_workspace-IsLimited :
    (hexdigest : Bytes → String) (encode : Text → Bytes) (entries : List (Text × Kind))
    {digest : String} {s : Snapshot}
    → freeze_workspace hexdigest encode entries ≡ ok (digest, s)
    → All IsTakable entries
      × (s.files ≡ regular_files entries)
      × (length s.files ≤ file_limit)
      × (total_length s.files ≤ byte_limit)
      × (digest ≡ fixture_content_digest hexdigest encode (regular_files entries))
unfolding freeze_workspace
freeze_workspace-IsLimited hexdigest encode entries {digest} {s} frozen =
    let (last, taken, rest) = >>=-eq-ok (freeze_entries nothing_frozen entries) _ frozen in
    let e = ok-injective rest in
    let same : last ≡ s = ap (λ pair. pair.1) e in
    let (takable, files, limited) =
      freeze_entries_lem entries nothing_frozen none-IsLimited taken in
    let limited' = subst IsLimited same limited in
    let files' : s.files ≡ regular_files entries = ap (λ r. r.files) (sym same) ∙ files in
    (
      takable,
      files',
      limited'.files,
      omega (arith, limited'.counted, limited'.bytes),
      ap (λ pair. pair.0) (sym e) ∙ ap (fixture_content_digest hexdigest encode) files,
    )
