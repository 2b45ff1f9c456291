-- ===== src/Evented/Admission.antt =====
-- workspace_agent_harness/evented.py: `_admission_error` and the functions on candidates.
use Prim.Native.String.{◌++◌ as ◌<>◌}
use pan_agent.Base.{
  String, Bool, true, false, not, ◌&&◌, Option, none, some, List, [], ◌∷◌, map, any, str_eq,
  if◌then◌else◌,
}
use pan_agent.Base.Json.{
  Json, str, obj, arr, Fields, end, field, get, dict, json_items, text_or_null,
}
use pan_agent.Evented.Types.{
  FinalDisposition, Reasoning, ToolCall, Candidate, tool_call, tool_batch, final, malformed,
  EventTool,
}
use pan_agent.Evented.Machine.{Agent, Part, pure, ◌>>=◌, call}

abbrev pub disposition_value : FinalDisposition → String
disposition_value FinalDisposition.completed = "completed"
disposition_value FinalDisposition.abstained = "abstained"

abbrev call_material : ToolCall → Fields
call_material c = dict (
    ("call_id", str c.call_id)
    ∷ ("tool_name", str c.tool_name)
    ∷ ("arguments", obj c.arguments)
    ∷ [])

-- `_candidate_tool_calls`
abbrev pub candidate_tool_calls : Candidate → List ToolCall
candidate_tool_calls (tool_call c _) = c ∷ []
candidate_tool_calls (tool_batch c d rest _) = c ∷ d ∷ rest
candidate_tool_calls (final _ _ _ _) = []
candidate_tool_calls (malformed _) = []

-- `_candidate_material`
abbrev pub candidate_material : Candidate → Fields
candidate_material (tool_call c _) = field "kind" (str "tool_call") (call_material c)
candidate_material (tool_batch c d rest _) = dict (
    ("kind", str "tool_call_batch")
    ∷ ("calls", arr (json_items (map (λ call. obj (call_material call)) (c ∷ d ∷ rest))))
    ∷ [])
candidate_material (final content disposition reason_code _) = dict (
    ("kind", str "final")
    ∷ ("content", str content)
    ∷ ("disposition", str (disposition_value disposition))
    ∷ ("reason_code", text_or_null reason_code)
    ∷ [])
candidate_material (malformed _) = end

-- `_candidate_kind`, or "invalid"
abbrev pub candidate_kind : Candidate → String
candidate_kind (tool_call _ _) = "tool_call"
candidate_kind (tool_batch _ _ _ _) = "tool_call_batch"
candidate_kind (final _ _ _ _) = "final"
candidate_kind (malformed _) = "invalid"

-- The id of `_candidate_identity`, or None for a candidate with a schema error.
abbrev pub candidate_identity : (Fields → String) → Candidate → Option String
candidate_identity sha256_json (malformed _) = none
candidate_identity sha256_json candidate = some (sha256_json (candidate_material candidate))

-- candidate.call_id if it is one call
abbrev pub candidate_call_id : Candidate → Option String
candidate_call_id (tool_call c _) = some c.call_id
candidate_call_id _ = none

abbrev pub candidate_reasoning : Candidate → Reasoning
candidate_reasoning (tool_call _ reasoning) = reasoning
candidate_reasoning (tool_batch _ _ _ reasoning) = reasoning
candidate_reasoning (final _ _ _ reasoning) = reasoning
candidate_reasoning (malformed _) = record { reasoning = none; provider_metadata = [] }

-- x in texts
unfoldable pub is_in : String → List String → Bool
is_in x texts = any (λ text. str_eq text x) texts

-- Every key of the dict is the given one.
abbrev pub all_keys : String → Fields → Bool
all_keys key end = true
all_keys key (field name _ rest) = str_eq name key && all_keys key rest

-- set(arguments) == {name}
unfoldable pub has_only : String → Fields → Bool
has_only name end = false
has_only name (field key value rest) = all_keys name (field key value rest)

abbrev pub is_full_text : Option Json → Bool
is_full_text (some (str text)) = not (str_eq text "")
is_full_text _ = false

module _ {W : Type 0} (agent : Agent W) where
  -- self._tools.get(name)
  abbrev pub find_tool : List (EventTool W) → String → Option (EventTool W)
  find_tool [] name = none
  find_tool (tool ∷ tools) name =
      if str_eq tool.definition.name name then some tool else find_tool tools name

  -- The tests on the tool and the arguments of one call.
  unfoldable pub tool_error : ToolCall → Option (EventTool W) → Part W (Option String)
  tool_error c none = pure (some ("unknown tool: " <> c.tool_name))
  tool_error c (some tool) =
      let argument_name = tool.definition.argument_name in
      if not (has_only argument_name c.arguments)
      then pure (
          some ("tool " <> agent.repr c.tool_name <> " requires only " <> agent.repr argument_name))
      else if not (is_full_text (get argument_name c.arguments))
      then pure (some ("tool argument " <> agent.repr argument_name <> " must be non-empty text"))
      else do
        error ← call (tool.validate c.arguments)
        pure (elim error [
          | none ↦ none
          | some message ↦
              some
                ("tool preflight rejected " <> c.call_id <> " (" <> c.tool_name <> "): " <> message)
        ])

  -- if error is not None: return error
  abbrev pub stop_or : Option String → Part W (Option String) → Part W (Option String)
  stop_or none more = more
  stop_or (some message) more = pure (some message)

  -- The loop over the calls; the ids are those that earlier turns and earlier calls have used.
  unfoldable pub calls_error : List ToolCall → List String → Part W (Option String)
  calls_error [] used = pure none
  calls_error (c ∷ calls) used =
      if str_eq c.call_id ""
      then pure (some "tool call ID must be non-empty text")
      else if is_in c.call_id used
      then pure (some ("tool call ID was already used: " <> c.call_id))
      else do
        error ← tool_error c (find_tool agent.tools c.tool_name)
        let more = calls_error calls (c.call_id ∷ used)
        stop_or error more

  -- `candidate_schema_error or self._admission_error(candidate, used_call_ids)`
  unfoldable pub admission_error : Candidate → List String → Part W (Option String)
  admission_error (malformed message) used = pure (some message)
  admission_error (final content disposition reason_code _) used =
      pure (if str_eq content "" then some "final content must be non-empty text" else none)
  admission_error (tool_call c _) used = calls_error (c ∷ []) used
  admission_error (tool_batch c d rest _) used = calls_error (c ∷ d ∷ rest) used
