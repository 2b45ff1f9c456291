-- ===== src/Base/Json.antt =====
-- The values of the `json` module, and Python dicts with such values.
use Prim.Native.String.{String}
use mathlib.Core.Bool.{Bool, true, false}
use mathlib.Core.Option.{Option, none, some}
use mathlib.Core.List.{List, [], ◌∷◌, map}
use text.Mathlib.Text.{◌==◌}
use pan_agent.Base.Tests.{if◌then◌else◌}
use pan_agent.Base.Int.{ℤ, pos, int_eq}

-- A float is `whole` where its value is an integer, and else `real`, with its `repr`.
mutual
  pub data Json : Type 0 where
    null : Json
    bool : Bool → Json
    int : ℤ → Json
    whole : ℤ → Json
    real : String → Json
    str : String → Json
    arr : Items → Json
    obj : Fields → Json

  pub data Items : Type 0 where
    nil : Items
    cons : Json → Items → Items

  pub data Fields : Type 0 where
    end : Fields
    field : String → Json → Fields → Fields

-- d.get(key)
unfoldable pub get : String → Fields → Option Json
get key end = none
get key (field name value rest) = if name == key then some value else get key rest

-- bool(d)
abbrev pub has_fields : Fields → Bool
has_fields end = false
has_fields (field name value rest) = true

-- A bool is a number in Python: True is 1, and False is 0.
abbrev pub number : Json → Option ℤ
number (bool true) = some (pos 1)
number (bool false) = some (pos 0)
number (int n) = some n
number (whole n) = some n
number _ = none

-- v == n, for an int n
unfoldable pub equals_int : ℤ → Json → Bool
equals_int n value = elim (number value) [ none ↦ false | some m ↦ int_eq m n ]

-- v == s, for a text s
unfoldable pub equals_text : String → Json → Bool
equals_text text (str other) = other == text
equals_text text _ = false

-- Lists and dicts have no hash.
abbrev pub is_hashable : Json → Bool
is_hashable (arr _) = false
is_hashable (obj _) = false
is_hashable _ = true

abbrev scalar_eq : Json → Json → Bool
scalar_eq null null = true
scalar_eq (real x) (real y) = x == y
scalar_eq (str s) (str t) = s == t
scalar_eq _ _ = false

-- v == w, for hashable values
unfoldable pub py_eq : Json → Json → Bool
py_eq v w = elim (number v) [ some n ↦ equals_int n w | none ↦ scalar_eq v w ]

abbrev pub text_or_null : Option String → Json
text_or_null none = null
text_or_null (some text) = str text

-- A Python dict literal; the last item of a key counts, so no key stands twice.
abbrev pub dict : List (String × Json) → Fields
dict [] = end
dict ((key, value) ∷ items) = field key value (dict items)

-- {**d, **extra}, where the items of `extra` count
abbrev pub merge : Fields → Fields → Fields
merge d end = d
merge d (field key value rest) = field key value (merge d rest)

abbrev pub json_items : List Json → Items
json_items [] = nil
json_items (value ∷ values) = cons value (json_items values)

-- list(texts)
abbrev pub texts : List String → Json
texts values = arr (json_items (map str values))
