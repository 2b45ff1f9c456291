-- ===== src/Loop/Parsing.antt =====
-- Which values `_parse_action` accepts, and for which it raises an error that `run` does not catch.
use pan_agent.Base.{
  ◌≡◌, ◌≢◌, refl, ◌↔◌, inl, inr, String, true, false, Option, none, some, Bool-cases, eq_iff, arith,
}
use pan_agent.Base.Result.{ok, err}
use pan_agent.Base.Json.{Json, str, arr, obj, Fields, get, equals_text}
use pan_agent.Loop.Actions.{
  Action, final, tool_call, type_error, is_text, has_hash, final_action, tool_action, parse_object,
  parse_action,
}

-- The fields of an object that ask for the action.
abbrev pub Asks : Fields → Action → Type 0
Asks value (final output) =
    (get "type" value ≡ some (str "final")) × (get "output" value ≡ some (str output))
Asks value (tool_call tool arguments) =
    (get "type" value ≡ some (str "tool"))
    × (get "tool" value ≡ some (str tool))
    × (get "arguments" value ≡ some (obj arguments))

is_text-eq : (text : String) (v : Option Json) → is_text text v ≡ true → v ≡ some (str text)
unfolding equals_text
is_text-eq text none h = cc
is_text-eq text (some (str s)) h = ground (arith, eq_iff s text)
is_text-eq text (some _) h = cc

final_action-eq :
    (v : Option Json) (action : Action)
    → final_action v ≡ ok action
    → (output : String) × (v ≡ some (str output)) × (action ≡ final output)
unfolding final_action
final_action-eq none action h = cc
final_action-eq (some (str output)) action h = (output, refl, cc)
final_action-eq (some v) action h = cc

tool_action-eq :
    (t a : Option Json) (action : Action)
    → tool_action t a ≡ ok action
    → (tool : String) × (arguments : Fields) × (t ≡ some (str tool))
      × (a ≡ some (obj arguments))
      × (action ≡ tool_call tool arguments)
unfolding tool_action
tool_action-eq (some (str tool)) (some (obj arguments)) action h = (tool, arguments, refl, refl, cc)
tool_action-eq t a action h = cc

parse_object-Asks :
    (repr : Option Json → String) (value : Fields) (action : Action)
    → parse_object repr value ≡ ok action
    → Asks value action
unfolding parse_object
parse_object-Asks repr value action h = elim (Bool-cases (is_text "final" (get "type" value))) [
  | inl is_final ↦
      let (output, e, same) = final_action-eq (get "output" value) action (rw is_final at h) in
      rw same (is_text-eq "final" _ is_final, e)
  | inr other ↦ elim (Bool-cases (is_text "tool" (get "type" value))) [
    | inl is_tool ↦
        let (tool, arguments, t, a, same) =
          tool_action-eq (get "tool" value) (get "arguments" value) action
            (rw (other, is_tool) at h) in
        rw same (is_text-eq "tool" _ is_tool, t, a)
    | inr neither ↦ ground arith
  ]
]

Asks-parse_object :
    (repr : Option Json → String) (value : Fields) (action : Action)
    → Asks value action
    → parse_object repr value ≡ ok action
unfolding parse_object equals_text final_action tool_action
Asks-parse_object repr value (final output) asked = rw (asked.0, asked.1)
Asks-parse_object repr value (tool_call tool arguments) asked = rw (asked.0, asked.1, asked.2)

-- Parsing yields an action exactly for the JSON objects that ask for it: type "final" with a text
-- as output, or type "tool" with a text as tool and an object as arguments.
pub parse_action_iff :
    (repr : Option Json → String) (v : Option Json) (action : Action)
    → (parse_action repr v ≡ ok action)
      ↔ ((value : Fields) × (v ≡ some (obj value)) × Asks value action)
unfolding parse_action
parse_action_iff repr (some (obj value)) action = (
  λ h. (value, refl, parse_object-Asks repr value action h),
  λ h.
      let (value', e, asked) = h in
      let same : value' ≡ value = cc in Asks-parse_object repr value action (rw same at asked),
)
parse_action_iff repr none action = (λ h. cc, λ h. cc h.1)
parse_action_iff repr (some v) action = (λ h. cc, λ h. cc h.1)

final_action-ne : (v : Option Json) → final_action v ≢ err type_error
unfolding final_action
final_action-ne (some (str output)) h = cc
final_action-ne v h = cc

tool_action-ne : (t a : Option Json) → tool_action t a ≢ err type_error
unfolding tool_action
tool_action-ne (some (str tool)) (some (obj arguments)) h = cc
tool_action-ne t a h = cc

crash-has_no_hash :
    (repr : Option Json → String) (value : Fields)
    → parse_object repr value ≡ err type_error
    → has_hash (get "type" value) ≡ false
unfolding parse_object
crash-has_no_hash repr value h = elim (Bool-cases (is_text "final" (get "type" value))) [
  | inl is_final ↦ absurd (final_action-ne (get "output" value) (rw is_final at h))
  | inr other ↦ elim (Bool-cases (is_text "tool" (get "type" value))) [
    | inl is_tool ↦
        absurd
          (tool_action-ne (get "tool" value) (get "arguments" value) (rw (other, is_tool) at h))
    | inr neither ↦ ground arith
  ]
]

not-is_text : (text : String) (v : Option Json) → has_hash v ≡ false → is_text text v ≡ false
unfolding equals_text
not-is_text text none h = cc
not-is_text text (some (arr items)) h = refl
not-is_text text (some (obj fields)) h = refl
not-is_text text (some v) h = cc

has_no_hash-crash :
    (repr : Option Json → String) (value : Fields)
    → has_hash (get "type" value) ≡ false
    → parse_object repr value ≡ err type_error
unfolding parse_object
has_no_hash-crash repr value h =
    rw (not-is_text "final" (get "type" value) h, not-is_text "tool" (get "type" value) h, h)

-- Parsing raises `TypeError`, which the loop does not catch, exactly for the JSON objects whose
-- type is a list or an object.
pub parse_action-crashes_iff :
    (repr : Option Json → String) (v : Option Json)
    → (parse_action repr v ≡ err type_error)
      ↔ ((value : Fields) × (v ≡ some (obj value)) × (has_hash (get "type" value) ≡ false))
unfolding parse_action
parse_action-crashes_iff repr (some (obj value)) = (
  λ h. (value, refl, crash-has_no_hash repr value h),
  λ h.
      let (value', e, unhashable) = h in
      let same : value' ≡ value = cc in has_no_hash-crash repr value (rw same at unhashable),
)
parse_action-crashes_iff repr none = (λ h. cc, λ h. cc h.1)
parse_action-crashes_iff repr (some v) = (λ h. cc, λ h. cc h.1)
