-- ===== src/Tools/Tests.antt =====
-- A write behind its guard, and two that the guard stops.
use pan_agent.Base.{◌≡◌, refl, String, [], ◌∷◌, ◌++◌, keep}
use pan_agent.Base.Result.{ok}
use pan_agent.Base.Text.{
  codes, has_char, split, text_eq, ends_with, rstrip, drop_last, starts_with, take,
}
use pan_agent.Base.Json.{str, Fields, end, field}
use pan_agent.Paths.{
  FilePath, glob, escaped_root, resource_allowed, scope_covers, workspace_path, after,
  is_relative_to, parts, path_eq, validate_relative_workspace_path,
}
use pan_agent.Authority.{CapabilityGrant}
use pan_agent.Tools.{
  Arguments, from_action, denied_resource, bad_path, authorize, denied, delegated, execute,
  write_tool, call_delegate, check_argument, get_argument, check_resource, add_path, set_argument,
  write_request,
}
use pan_agent.Tools.Guarded.{
  IsConfined, IsCleared, authorize-IsCleared, execute-write_tool-IsConfined,
}

abbrev grant : CapabilityGrant
grant = record {
  capability_id = "write";
  resources = (codes "workspace:out" ++ glob) ∷ codes "workspace:." ∷ [];
  constraints = end;
}

abbrev workspace : FilePath
workspace = codes "run" ∷ []

abbrev unlinked : FilePath → FilePath
unlinked path = path

abbrev asks : String → Fields
asks resource = field "resource" (str resource) (field "content" (str "x") end)

abbrev target : FilePath
target = codes "run" ∷ codes "out" ∷ codes "a" ∷ []

write_passes :
    execute unlinked workspace grant write_tool (from_action (asks "workspace:out/a"))
    ≡ delegated (ok (target, "x"))
unfolding execute call_delegate authorize check_argument get_argument from_action check_resource
    resource_allowed has_char split text_eq scope_covers ends_with rstrip drop_last starts_with
    add_path workspace_path keep take after is_relative_to parts path_eq
    validate_relative_workspace_path set_argument write_tool write_request
write_passes = refl

other_denied :
    execute unlinked workspace grant write_tool (from_action (asks "workspace:b"))
    ≡ denied (denied_resource (codes "workspace:b"))
unfolding execute call_delegate authorize check_argument get_argument from_action check_resource
    resource_allowed has_char split text_eq scope_covers ends_with rstrip drop_last starts_with
other_denied = refl

root_denied :
    execute unlinked workspace grant write_tool (from_action (asks "workspace:."))
    ≡ denied (bad_path escaped_root)
unfolding execute call_delegate authorize check_argument get_argument from_action check_resource
    resource_allowed has_char split text_eq scope_covers ends_with rstrip drop_last starts_with
    add_path workspace_path keep take after is_relative_to parts path_eq
    validate_relative_workspace_path set_argument
root_denied = refl

execute-write_tool-IsConfined_example : IsConfined unlinked workspace target
execute-write_tool-IsConfined_example =
    execute-write_tool-IsConfined unlinked workspace grant (asks "workspace:out/a") write_passes

authorize_passes :
    (passed : Arguments) × (authorize unlinked workspace grant
        (from_action (asks "workspace:out/a"))
      ≡ ok passed)
unfolding authorize check_argument get_argument from_action check_resource resource_allowed has_char
    split text_eq scope_covers ends_with rstrip drop_last starts_with add_path workspace_path
    validate_relative_workspace_path after keep take is_relative_to parts path_eq set_argument
authorize_passes = (_, refl)

authorize-IsCleared_example :
    IsCleared unlinked workspace grant (from_action (asks "workspace:out/a")) authorize_passes.0
authorize-IsCleared_example =
    authorize-IsCleared unlinked workspace grant (from_action (asks "workspace:out/a"))
      authorize_passes.1
