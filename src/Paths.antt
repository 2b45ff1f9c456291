-- ===== src/Paths.antt =====
-- workspace_agent_harness/__init__.py: which resources a scope allows, and where a workspace
-- resource lies. A `Path` is the list of its components below the root directory (POSIX).
-- `Path.resolve`, which follows symbolic links, is the argument `resolve`.
pub mod Scopes
pub mod Confinement
pub mod Tests
use pan_agent.Base.{
  Bool, true, false, not, ◌&&◌, ◌||◌, List, [], ◌∷◌, ◌++◌, any, keep, if◌then◌else◌,
}
use pan_agent.Base.Result.{Result, ok, err, ◌>>=◌, ◌>>◌, raise_if}
use pan_agent.Base.Text.{
  Text, codes, is_empty, text_eq, has_char, starts_with, ends_with, drop_last, rstrip, split,
}

abbrev pub slash : Text
slash = b'/' ∷ []

abbrev pub dot : Text
dot = b'.' ∷ []

abbrev pub dot_dot : Text
dot_dot = b'.' ∷ b'.' ∷ []

abbrev pub star : Text
star = b'*' ∷ []

-- "/**"
abbrev pub glob : Text
glob = b'/' ∷ b'*' ∷ b'*' ∷ []

abbrev pub is_dot_dot : Text → Bool
is_dot_dot = text_eq dot_dot

-- The body of the loop over `scopes` in `_resource_allowed`.
unfoldable pub scope_covers : Text → Text → Bool
scope_covers resource scope =
    let prefix = rstrip b'/' (drop_last 3 scope) in
    (text_eq scope resource || text_eq scope star)
    || (ends_with glob scope && (text_eq resource prefix || starts_with (prefix ++ slash) resource))

unfoldable pub resource_allowed : Text → List Text → Bool
resource_allowed resource scopes =
    if is_empty resource || (has_char b'\\' resource || any is_dot_dot (split b'/' resource))
    then false
    else any (scope_covers resource) scopes

abbrev pub FilePath : Type 0
FilePath = List Text

abbrev is_part : Text → Bool
is_part word = not (is_empty word || text_eq dot word)

-- Path(relative_path).parts: empty components and "." are dropped.
unfoldable pub parts : Text → FilePath
parts relative_path = keep is_part (split b'/' relative_path)

abbrev bad_part : Text → Bool
bad_part part = is_empty part || (text_eq dot part || text_eq dot_dot part)

pub data PathError : Type 0 where
  invalid_relative_path : PathError
  not_in_workspace_namespace : PathError
  escaped_root : PathError

unfoldable pub validate_relative_workspace_path : Text → Result PathError (Unit {0})
validate_relative_workspace_path relative_path = do
  raise_if
      (is_empty relative_path
        || (starts_with slash relative_path
            || (has_char b'\\' relative_path || has_char b':' relative_path)))
      invalid_relative_path
  raise_if (any bad_part (parts relative_path)) invalid_relative_path

-- "workspace:"
abbrev pub namespace : Text
namespace = codes "workspace:"

-- p is a prefix of q, component by component: q.is_relative_to(p)
unfoldable pub is_relative_to : FilePath → FilePath → Bool
is_relative_to [] q = true
is_relative_to (c ∷ p) [] = false
is_relative_to (c ∷ p) (d ∷ q) = text_eq c d && is_relative_to p q

unfoldable pub path_eq : FilePath → FilePath → Bool
path_eq [] [] = true
path_eq [] (_ ∷ _) = false
path_eq (_ ∷ _) [] = false
path_eq (c ∷ p) (d ∷ q) = text_eq c d && path_eq p q

-- resource[len("workspace:"):], where `resource` starts with it
unfoldable pub after : Text → Text → Text
after [] s = s
after (_ ∷ p) [] = []
after (_ ∷ p) (_ ∷ s) = after p s

unfoldable pub workspace_path : (FilePath → FilePath) → FilePath → Text → Result PathError FilePath
workspace_path resolve workspace resource = do
  raise_if (not (starts_with namespace resource)) not_in_workspace_namespace
  let relative_path = after namespace resource
  validate_relative_workspace_path relative_path
  let root = resolve workspace
  let target = resolve (root ++ parts relative_path)
  raise_if (not (is_relative_to root target) || path_eq target root) escaped_root
  ok target

-- left == right or left in right.parents or right in left.parents, of two resolved paths
unfoldable pub paths_overlap : FilePath → FilePath → Bool
paths_overlap left right =
    path_eq left right || (is_relative_to left right || is_relative_to right left)
