-- ===== src/Paths/Tests.antt =====
-- Runs of the path functions, and their theorems at concrete resources.
use pan_agent.Base.{◌≡◌, ◌≢◌, refl, true, false, List, [], ◌∷◌, ◌++◌, any, keep}
use pan_agent.Base.Result.{ok, err}
use pan_agent.Base.Text.{
  Text, codes, split, rstrip, has_char, text_eq, ends_with, drop_last, starts_with,
}
use pan_agent.Paths.{
  FilePath, glob, is_dot_dot, resource_allowed, parts, escaped_root,
  validate_relative_workspace_path, is_relative_to, workspace_path, paths_overlap, scope_covers,
  after, path_eq,
}
use pan_agent.Paths.Scopes.{
  Exists, Covers, IsSafeName, resource_allowed_iff, resource_allowed_below,
}
use pan_agent.Paths.Confinement.{
  IsRelativeName, workspace_path_confined, validate_relative_workspace_path_iff, paths_overlap_iff,
  workspace_path_plain,
}

abbrev base : Text
base = codes "workspace:out"

abbrev scopes : List Text
scopes = (base ++ glob) ∷ []

abbrev report : Text
report = codes "workspace:out/report.csv"

report_allowed : resource_allowed report scopes ≡ true
unfolding resource_allowed has_char split text_eq scope_covers ends_with rstrip drop_last
    starts_with
report_allowed = refl

sibling_denied : resource_allowed (codes "workspace:output") scopes ≡ false
unfolding resource_allowed has_char split text_eq scope_covers ends_with rstrip drop_last
    starts_with
sibling_denied = refl

parent_denied : resource_allowed (codes "workspace:out/../x") scopes ≡ false
unfolding resource_allowed has_char split text_eq
parent_denied = refl

abbrev workspace : FilePath
workspace = codes "srv" ∷ codes "run" ∷ []

abbrev unlinked : FilePath → FilePath
unlinked path = path

abbrev report_path : FilePath
report_path = codes "srv" ∷ codes "run" ∷ codes "out" ∷ codes "report.csv" ∷ []

report_resolves : workspace_path unlinked workspace report ≡ ok report_path
unfolding workspace_path starts_with validate_relative_workspace_path after has_char parts keep
    split text_eq is_relative_to path_eq
report_resolves = refl

-- "." passes the validation, and is stopped by the test on the root.
dot_passes : validate_relative_workspace_path (codes ".") ≡ ok tt
unfolding validate_relative_workspace_path starts_with has_char parts keep split text_eq
dot_passes = refl

dot_is_root : workspace_path unlinked workspace (codes "workspace:.") ≡ err escaped_root
unfolding workspace_path starts_with validate_relative_workspace_path after has_char parts keep
    split text_eq is_relative_to path_eq
dot_is_root = refl

resource_allowed_iff_example : IsSafeName report × Exists (λ scope. Covers scope report) scopes
resource_allowed_iff_example = (resource_allowed_iff report scopes).0 report_allowed

resource_allowed_below_example :
    (below : List Text) × (split b'/' report ≡ split b'/' (rstrip b'/' base) ++ below)
    × (any is_dot_dot below ≡ false)
resource_allowed_below_example = resource_allowed_below base report (λ e. cc) report_allowed

workspace_path_confined_example :
    (below : FilePath) × (report_path ≡ workspace ++ below) × (below ≢ [])
workspace_path_confined_example = workspace_path_confined unlinked workspace report report_resolves

abbrev name : Text
name = codes "out/report.csv"

name-IsRelativeName : IsRelativeName name
unfolding starts_with has_char parts keep split text_eq
name-IsRelativeName =
    (validate_relative_workspace_path_iff name).0 (unfold validate_relative_workspace_path in refl)

validate_relative_workspace_path_iff_example : IsRelativeName (codes ".")
validate_relative_workspace_path_iff_example =
    (validate_relative_workspace_path_iff (codes ".")).0 dot_passes

workspace_path_plain_example : workspace_path unlinked workspace report ≡ ok report_path
unfolding parts keep split text_eq
workspace_path_plain_example =
    workspace_path_plain unlinked workspace name refl refl name-IsRelativeName

paths_overlap_iff_example : is_relative_to (codes "ctl" ∷ []) report_path ≡ false
unfolding paths_overlap is_relative_to path_eq text_eq
paths_overlap_iff_example = (paths_overlap_iff workspace (codes "ctl" ∷ [])).0 refl report_path refl
