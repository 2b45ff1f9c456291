-- ===== src/Loop/Actions.antt =====
-- `_parse_action`: what the model's output asks for. Its test in a set raises `TypeError` where the
-- type is a list or a dict, which `run` does not catch.
use Prim.Native.String.{◌++◌ as ◌<>◌}
use pan_agent.Base.{String, Bool, true, Option, none, some, if◌then◌else◌}
use pan_agent.Base.Result.{Result, ok, err}
use pan_agent.Base.Json.{Json, str, obj, Fields, get, equals_text, is_hashable}

pub data Action : Type 0 where
  final : String → Action
  tool_call : String → Fields → Action

pub data ParseFailure : Type 0 where
  value_error : String → ParseFailure
  type_error : ParseFailure

-- value.get(key) == text
abbrev pub is_text : String → Option Json → Bool
is_text text none = equals_text text Json.null
is_text text (some value) = equals_text text value

abbrev pub has_hash : Option Json → Bool
has_hash none = true
has_hash (some value) = is_hashable value

-- The type is "final".
unfoldable pub final_action : Option Json → Result ParseFailure Action
final_action (some (str output)) = ok (final output)
final_action _ = err (value_error "invalid final action payload")

-- The type is "tool".
unfoldable pub tool_action : Option Json → Option Json → Result ParseFailure Action
tool_action (some (str tool)) (some (obj arguments)) = ok (tool_call tool arguments)
tool_action _ _ = err (value_error "invalid tool action payload")

unfoldable pub parse_object : (Option Json → String) → Fields → Result ParseFailure Action
parse_object repr value =
    let action_type = get "type" value in
    if is_text "final" action_type
    then final_action (get "output" value)
    else if is_text "tool" action_type
    then tool_action (get "tool" value) (get "arguments" value)
    else if has_hash action_type
    then err (value_error ("unknown action type: " <> repr action_type))
    else err type_error

unfoldable pub parse_action : (Option Json → String) → Option Json → Result ParseFailure Action
parse_action repr (some (obj value)) = parse_object repr value
parse_action repr none = err (value_error "model output is not valid JSON")
parse_action repr (some _) = err (value_error "model output must be a JSON object")
