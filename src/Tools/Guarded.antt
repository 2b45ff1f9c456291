-- ===== src/Tools/Guarded.antt =====
-- What a tool behind `_AuthorizedTool` can be made to do.
use mathlib.Core.Path.{subst}
use pan_agent.Base.{
  ◌≡◌, ◌≢◌, refl, sym, ap, ◌∙◌, ◌⊎◌, inl, inr, String, Bool, true, false, Option, some, [], ◌∷◌,
  ◌++◌, Bool-cases, str_eq, eq_iff, if◌then◌else◌, arith,
}
use pan_agent.Base.Result.{Result, ok, err, ok-injective}
use pan_agent.Base.Text.{Text, codes, starts_with}
use pan_agent.Base.Json.{str, Fields, end, field}
use pan_agent.Paths.{FilePath, PathError, namespace, resource_allowed, workspace_path}
use pan_agent.Paths.Confinement.{workspace_path_confined}
use pan_agent.Authority.{CapabilityGrant}
use pan_agent.Tools.{
  Value, given, resolved, Arguments, get_argument, set_argument, from_action, Denial,
  denied_resource, path_key, add_path, check_resource, check_argument, authorize, delegated,
  call_delegate, execute, write_request, write_tool,
}

get_argument-set_argument :
    (key other : String) (value : Value) (arguments : Arguments)
    → get_argument other (set_argument key value arguments)
      ≡ (if str_eq key other then some value else get_argument other arguments)
unfolding get_argument set_argument
get_argument-set_argument key other value [] = refl
get_argument-set_argument key other value ((name, old) ∷ rest) = ground (
  arith,
  get_argument-set_argument key other value rest,
  eq_iff name key,
  eq_iff name other,
  eq_iff key other,
)

-- A path strictly below the resolved workspace directory.
abbrev pub IsConfined : (FilePath → FilePath) → FilePath → FilePath → Type 0
IsConfined resolve workspace target =
    (below : FilePath) × (target ≡ resolve workspace ++ below) × (below ≢ [])

module _ (resolve : FilePath → FilePath) (workspace : FilePath) (grant : CapabilityGrant) where
  -- What the guard has seen to before the delegate is called with `passed`.
  pub record IsCleared (arguments passed : Arguments) : Type 0 where
    pub resource : String
    pub named : get_argument "resource" arguments ≡ some (given (str resource))
    pub allowed : resource_allowed (codes resource) grant.resources ≡ true
    pub others :
        (key : String)
        → str_eq path_key key ≡ false
        → get_argument key passed ≡ get_argument key arguments
    pub path :
        (passed ≡ arguments)
        ⊎ ((target : FilePath) × (get_argument path_key passed ≡ some (resolved target))
            × IsConfined resolve workspace target)

  add_path-inv :
      (arguments : Arguments) (found : Result PathError FilePath) {passed : Arguments}
      → add_path arguments found ≡ ok passed
      → (target : FilePath) × (found ≡ ok target)
        × (passed ≡ set_argument path_key (resolved target) arguments)
  unfolding add_path
  add_path-inv arguments (ok target) h = (target, refl, sym (ok-injective h))
  add_path-inv arguments (err error) h = cc

  check_resource-inv :
      (arguments : Arguments) (resource : Text) {passed : Arguments}
      → check_resource resolve workspace grant arguments resource ≡ ok passed
      → (resource_allowed resource grant.resources ≡ true)
        × ((passed ≡ arguments)
            ⊎ ((target : FilePath) × (workspace_path resolve workspace resource ≡ ok target)
                × (passed ≡ set_argument path_key (resolved target) arguments)))
  unfolding check_resource
  check_resource-inv arguments resource {passed} h =
      elim (Bool-cases (resource_allowed resource grant.resources)) [
        | inr no_scope ↦
            let k : err (denied_resource resource) ≡ ok passed = rw no_scope at h in absurd (cc)
        | inl allowed ↦ elim (Bool-cases (starts_with namespace resource)) [
          | inl in_workspace ↦
              let k : add_path arguments (workspace_path resolve workspace resource) ≡ ok passed =
                rw (allowed, in_workspace) at h in
              (allowed, inr (add_path-inv arguments (workspace_path resolve workspace resource) k))
          | inr elsewhere ↦
              let k : ok arguments ≡ ok passed = rw (allowed, elsewhere) at h in
              (allowed, inl (sym (ok-injective k)))
        ]
      ]

  check_argument-inv :
      (arguments : Arguments) (found : Option Value) {passed : Arguments}
      → check_argument resolve workspace grant arguments found ≡ ok passed
      → (resource : String) × (found ≡ some (given (str resource)))
        × (check_resource resolve workspace grant arguments (codes resource) ≡ ok passed)
  unfolding check_argument
  check_argument-inv arguments (some (given (str resource))) h = (resource, refl, h)
  check_argument-inv arguments found h = cc

  set_argument-others :
      (arguments : Arguments) (value : Value) (key : String)
      → str_eq path_key key ≡ false
      → get_argument key (set_argument path_key value arguments) ≡ get_argument key arguments
  set_argument-others arguments value key h =
      get_argument-set_argument path_key key value arguments
      ∙ ap (λ (b : Bool). if b then some value else get_argument key arguments) h

  -- A delegate is called only with arguments that name a text as resource which the grant allows.
  -- They are the caller's arguments, in which at most the key "_resolved_path" is set, and then to
  -- a path strictly below the resolved workspace directory.
  pub authorize-IsCleared :
      (arguments : Arguments) {passed : Arguments}
      → authorize resolve workspace grant arguments ≡ ok passed
      → IsCleared arguments passed
  unfolding authorize
  authorize-IsCleared arguments {passed} h =
      let (resource, named, checked) =
        check_argument-inv arguments (get_argument "resource" arguments) h in
      let (allowed, path) = check_resource-inv arguments (codes resource) checked in
      elim path [
        | inl same ↦ record {
          resource = resource;
          named = named;
          allowed = allowed;
          others = λ key other. ap (get_argument key) same;
          path = inl same;
        }
        | inr (target, reached, set) ↦ record {
          resource = resource;
          named = named;
          allowed = allowed;
          others = λ key other.
              ap (get_argument key) set ∙ set_argument-others arguments (resolved target) key other;
          path = inr (
            target,
            ap (get_argument path_key) set
                ∙ get_argument-set_argument path_key path_key (resolved target) arguments,
            workspace_path_confined resolve workspace (codes resource) reached,
          );
        }
      ]

-- The model's own arguments hold no `Path`.
from_action-given :
    (key : String) (fields : Fields) (target : FilePath)
    → get_argument key (from_action fields) ≢ some (resolved target)
unfolding get_argument from_action
from_action-given key end target h = cc
from_action-given key (field name value rest) target h =
    ground (arith, from_action-given key rest target)

write_request-path :
    (path content : Option Value) {target : FilePath} {text : String}
    → write_request path content ≡ ok (target, text)
    → path ≡ some (resolved target)
unfolding write_request
write_request-path (some (resolved target)) (some (given (str content))) h = cc
write_request-path (some (resolved target)) content h = cc
write_request-path path content h = cc

-- Whatever arguments the model sends, a write that the write tool asks for, behind the guard of
-- its grant, goes to a path strictly below the resolved workspace directory.
pub execute-write_tool-IsConfined :
    (resolve : FilePath → FilePath) (workspace : FilePath) (grant : CapabilityGrant)
    (fields : Fields) {target : FilePath} {content : String}
    → execute resolve workspace grant write_tool (from_action fields)
      ≡ delegated (ok (target, content))
    → IsConfined resolve workspace target
unfolding execute call_delegate write_tool
execute-write_tool-IsConfined resolve workspace grant fields {target} {content} h =
    go (authorize resolve workspace grant (from_action fields)) refl h
  where
    go :
        (r : Result Denial Arguments)
        → authorize resolve workspace grant (from_action fields) ≡ r
        → call_delegate write_tool r ≡ delegated (ok (target, content))
        → IsConfined resolve workspace target
    go (err reason) e k = absurd (cc)
    go (ok passed) e k =
        let cleared = authorize-IsCleared resolve workspace grant (from_action fields) e in
        let request : write_request (get_argument path_key passed) (get_argument "content" passed)
            ≡ ok (target, content) =
          cc in
        let path = write_request-path (get_argument path_key passed) _ request in
        elim cleared.path [
          | inl same ↦ absurd (
              from_action-given path_key fields target
                (sym (ap (get_argument path_key) same) ∙ path))
          | inr (other, found, confined) ↦
              let reached : other ≡ target = cc in
              subst (IsConfined resolve workspace) reached confined
        ]
