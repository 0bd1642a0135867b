-- ===== src/Common/Json.antt =====
-- The values that `json.loads` gives, as far as the code looks into them.
use invest.Base.{
  Bool, true, false, not, Option, none, some, String, List, [], ◌∷◌, str_eq, if◌then◌else◌, codes,
}
use invest.Common.Text.{Text, is_literal, is_empty}

-- A number has the text that `str` gives, and whether it is zero. A `dict` holds each key once.
mutual
  pub data Json : Type 0 where
    null : Json
    bool : Bool → Json
    number : Bool → Text → Json
    text : Text → Json
    array : Items → Json
    object : Fields → Json

  pub data Items : Type 0 where
    end_array : Items
    item : Json → Items → Items

  pub data Fields : Type 0 where
    end_object : Fields
    field : String → Json → Fields → Fields

-- What a call of `json.loads` comes to: a value, a JSONDecodeError, or another exception (a ValueError
-- for an integer of too many digits, a RecursionError).
pub data LoadedJson : Type 0 where
  json_value : Json → LoadedJson
  json_error json_crash : LoadedJson

unfoldable pub elements : Items → List Json
elements end_array = []
elements (item j js) = j ∷ elements js

-- `document.get(key)`
unfoldable pub get_field : String → Fields → Option Json
get_field key end_object = none
get_field key (field k j fs) = if str_eq k key then some j else get_field key fs

-- `key in document`
abbrev pub has_field : String → Fields → Bool
has_field key fs = elim (get_field key fs) [ none ↦ false | some j ↦ true ]

abbrev pub empty_items : Items → Bool
empty_items end_array = true
empty_items (item j js) = false

abbrev pub empty_fields : Fields → Bool
empty_fields end_object = true
empty_fields (field k j fs) = false

-- `not value`
abbrev pub is_falsy : Json → Bool
is_falsy null = true
is_falsy (bool b) = not b
is_falsy (number zero t) = zero
is_falsy (text t) = is_empty t
is_falsy (array js) = empty_items js
is_falsy (object fs) = empty_fields fs

-- `str(value)`; `repr` gives that of a list or a dict.
abbrev pub text_of : (Json → Text) → Json → Text
text_of repr null = codes "None"
text_of repr (bool b) = if b then codes "True" else codes "False"
text_of repr (number zero t) = t
text_of repr (text t) = t
text_of repr j = repr j

-- `value == "..."`, for a value that may be missing.
abbrev pub is_text : String → Option Json → Bool
is_text l (some (text t)) = is_literal l t
is_text l _ = false
