-- ===== src/Hil/Answers.antt =====
-- How `HilClient` (src/hil.rs) reads what the review service answers.
use clavenar_sdk.Prelude.{
  ℕ, Bool, false, String, Option, none, some, List, [], ◌∷◌, ◌==◌, nat_eq, string_eq, if◌then◌else◌,
}
use clavenar_sdk.Effects.{Result, ok, err, map_err}
use clavenar_sdk.Error.{ClavenarError, server, decode}
use clavenar_sdk.Json.{Value, Fields, bool, object, field, end}
use clavenar_sdk.Service.{is_success}
use clavenar_sdk.Hil.Records.{PendingRequest}

-- A success is decoded, and any other answer is the server's error.
unfoldable pub decoded :
    {A : Type 0} → (String → Result String A) → ℕ → String → Result ClavenarError A
decoded parse status body =
    if is_success status then map_err decode (parse body) else err (server status body)

abbrev pub to_some : {A : Type 0} → Result ClavenarError A → Result ClavenarError (Option A)
to_some (ok a) = ok (some a)
to_some (err e) = err e

abbrev pub refused_with : {A : Type 0} → Result ClavenarError String → ℕ → Result ClavenarError A
refused_with (ok body) status = err (server status body)
refused_with (err e) status = err e

-- `rows.retain(|p| p.decided_by.as_deref() == Some("system:policy-tier"))`
abbrev pub by_policy : Option String → Bool
by_policy none = false
by_policy (some who) = who == "system:policy-tier"

unfoldable pub retain_auto : List PendingRequest → List PendingRequest
retain_auto [] = []
retain_auto (r ∷ rows) =
    let rest = retain_auto rows in if by_policy r.decided_by then r ∷ rest else rest

-- The values of the Set-Cookie headers that are texts.
abbrev pub set_cookies : List (String × Option String) → List String
set_cookies [] = []
set_cookies ((name, none) ∷ headers) = set_cookies headers
set_cookies ((name, some value) ∷ headers) =
    let rest = set_cookies headers in if name == "set-cookie" then value ∷ rest else rest

-- `body.get("cleared").and_then(|v| v.as_bool()).unwrap_or(false)`
abbrev pub flag_of : Value → Bool
flag_of (bool b) = b
flag_of _ = false

abbrev pub cleared_in : Fields → Bool
cleared_in end = false
cleared_in (field key v rest) =
    let others = cleared_in rest in if key == "cleared" then flag_of v else others

abbrev pub cleared : Value → Bool
cleared (object fields) = cleared_in fields
cleared _ = false

abbrev pub read_reply :
    {A : Type 0}
    → (String → Result String A)
    → Result ClavenarError String
    → ℕ
    → Result ClavenarError A
unfolding decoded
read_reply parse (ok body) status = decoded parse status body
read_reply parse (err e) status = err e
