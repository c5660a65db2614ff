-- ===== src/Service/Body.antt =====
-- JSON bodies: the fields of serde's derived `Serialize`, in the order of declaration, and of
-- `serde_json::json!`.
use clavenar_sdk.Prelude.{String, Option, none, some, List, [], ◌∷◌}
use clavenar_sdk.Prelude.Int.{ℤ, pos, negsuc}
use clavenar_sdk.Json.{
  Value, Items, Fields, null, number, string, object, nil, cons, end, field, pos_int, neg_int,
}

abbrev pub strings : List String → Items
strings [] = nil
strings (s ∷ ss) = cons (string s) (strings ss)

-- A field of an option: `null` where it is `None`.
abbrev pub or_null : Option String → Value
or_null none = null
or_null (some s) = string s

-- `skip_serializing_if = "Option::is_none"`
abbrev pub some_field : String → Option Value → Fields → Fields
some_field name none rest = rest
some_field name (some v) rest = field name v rest

abbrev pub some_text : String → Option String → Fields → Fields
some_text name none rest = rest
some_text name (some s) rest = field name (string s) rest

abbrev pub integer : ℤ → Value
integer (pos n) = number (pos_int n)
integer (negsuc n) = number (neg_int n)

-- An object of one text.
abbrev pub single : String → String → Value
single name s = object (field name (string s) end)
