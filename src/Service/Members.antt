-- ===== src/Service/Members.antt =====
-- The members of the JSON objects that the services' requests carry, read back by their name.
use clavenar_sdk.Prelude.{
  ◌≡◌, refl, ap, String, true, false, Option, none, some, List, [], ◌∷◌, ◌==◌, string_eq,
  if◌then◌else◌,
}
use clavenar_sdk.Json.{Value, Fields, string, end, field}
use clavenar_sdk.Service.Body.{some_field, some_text}

-- The values of the members with this name.
abbrev pub members : String → Fields → List Value
members name end = []
members name (field key v rest) =
    let more = members name rest in if key == name then v ∷ more else more

-- A member that is there where its option is.
abbrev pub values : Option Value → List Value
values none = []
values (some v) = v ∷ []

abbrev pub text : Option String → Option Value
text none = none
text (some s) = some (string s)

pub members-other_field :
    (name key : String) (v : Option Value) (rest : Fields)
    → (key == name) ≡ false
    → members name (some_field key v rest) ≡ members name rest
members-other_field name key none rest h = refl
members-other_field name key (some v) rest h = rw h refl

pub members-other_text :
    (name key : String) (v : Option String) (rest : Fields)
    → (key == name) ≡ false
    → members name (some_text key v rest) ≡ members name rest
members-other_text name key none rest h = refl
members-other_text name key (some s) rest h = rw h refl

pub members-some_field :
    (name key : String) (v : Option Value) (rest : Fields)
    → (key == name) ≡ true
    → members name rest ≡ []
    → members name (some_field key v rest) ≡ values v
members-some_field name key none rest h e = e
members-some_field name key (some v) rest h e = rw h (ap (λ vs. v ∷ vs) e)

pub members-some_text :
    (name key : String) (v : Option String) (rest : Fields)
    → (key == name) ≡ true
    → members name rest ≡ []
    → members name (some_text key v rest) ≡ values (text v)
members-some_text name key none rest h e = e
members-some_text name key (some s) rest h e = rw h (ap (λ vs. string s ∷ vs) e)
