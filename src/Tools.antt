-- ===== src/Tools.antt =====
-- workspace_agent_harness/__init__.py: `_AuthorizedTool`, which stands between the loop and a tool,
-- and `LocalWorkspaceWriteTool`. The write itself is what `write_tool` returns: a path and a text.
pub mod Guarded
pub mod Tests
use pan_agent.Base.{
  String, Bool, true, false, Option, none, some, List, [], ◌∷◌, str_eq, if◌then◌else◌,
}
use pan_agent.Base.Result.{Result, ok, err}
use pan_agent.Base.Text.{Text, codes, starts_with}
use pan_agent.Base.Json.{Json, str, Fields, end, field}
use pan_agent.Paths.{FilePath, PathError, namespace, resource_allowed, workspace_path}
use pan_agent.Authority.{CapabilityGrant}

-- The value of an argument: one that the model gave, or a `Path` that the runtime has put there.
pub data Value : Type 0 where
  given : Json → Value
  resolved : FilePath → Value

abbrev pub Arguments : Type 0
Arguments = List (String × Value)

-- arguments.get(key)
unfoldable pub get_argument : String → Arguments → Option Value
get_argument key [] = none
get_argument key ((name, value) ∷ rest) =
    if str_eq name key then some value else get_argument key rest

-- arguments[key] = value
unfoldable pub set_argument : String → Value → Arguments → Arguments
set_argument key value [] = (key, value) ∷ []
set_argument key value ((name, old) ∷ rest) =
    if str_eq name key then (name, value) ∷ rest else (name, old) ∷ set_argument key value rest

-- The arguments of an action that `_parse_action` has read.
unfoldable pub from_action : Fields → Arguments
from_action end = []
from_action (field name value rest) = (name, given value) ∷ from_action rest

-- The reasons of a `_PolicyViolation`.
pub data Denial : Type 0 where
  requires_resource : Denial
  denied_resource : Text → Denial
  bad_path : PathError → Denial

abbrev pub path_key : String
path_key = "_resolved_path"

-- resolved_arguments["_resolved_path"] = _workspace_path(...)
unfoldable pub add_path : Arguments → Result PathError FilePath → Result Denial Arguments
add_path arguments (ok path) = ok (set_argument path_key (resolved path) arguments)
add_path arguments (err error) = err (bad_path error)

module _ (resolve : FilePath → FilePath) (workspace : FilePath) (grant : CapabilityGrant) where
  unfoldable pub check_resource : Arguments → Text → Result Denial Arguments
  check_resource arguments resource =
      if resource_allowed resource grant.resources
      then if starts_with namespace resource
        then add_path arguments (workspace_path resolve workspace resource)
        else ok arguments
      else err (denied_resource resource)

  unfoldable pub check_argument : Arguments → Option Value → Result Denial Arguments
  check_argument arguments (some (given (str resource))) = check_resource arguments (codes resource)
  check_argument arguments _ = err requires_resource

  -- The arguments that the delegate is called with.
  unfoldable pub authorize : Arguments → Result Denial Arguments
  authorize arguments = check_argument arguments (get_argument "resource" arguments)

-- How a call ends whose delegate has the results `A`.
pub data Call (A : Type 0) : Type 0 where
  denied : Denial → Call A
  delegated : A → Call A

unfoldable pub call_delegate : {A : Type 0} → (Arguments → A) → Result Denial Arguments → Call A
call_delegate delegate (err reason) = denied reason
call_delegate delegate (ok arguments) = delegated (delegate arguments)

-- `_AuthorizedTool.execute`
unfoldable pub execute :
    {A : Type 0}
    → (FilePath → FilePath)
    → FilePath
    → CapabilityGrant
    → (Arguments → A)
    → Arguments
    → Call A
execute resolve workspace grant delegate arguments =
    call_delegate delegate (authorize resolve workspace grant arguments)

pub data WriteError : Type 0 where
  no_resolved_path content_not_text : WriteError

-- The two tests of `LocalWorkspaceWriteTool.execute`, on the path and on the content.
unfoldable pub write_request : Option Value → Option Value → Result WriteError (FilePath × String)
write_request (some (resolved target)) (some (given (str content))) = ok (target, content)
write_request (some (resolved target)) _ = err content_not_text
write_request _ _ = err no_resolved_path

-- `LocalWorkspaceWriteTool.execute`, up to the write that it asks for
unfoldable pub write_tool : Arguments → Result WriteError (FilePath × String)
write_tool arguments =
    write_request (get_argument path_key arguments) (get_argument "content" arguments)
