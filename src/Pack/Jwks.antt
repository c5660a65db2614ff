-- ===== src/Pack/Jwks.antt =====
-- `verifying_key_from_jwks` and `verifying_key_from_pem` of src/pack.rs.
use clavenar_sdk.Prelude.{
  ℕ, Bool, false, String, ◌<>◌, Option, none, some, List, ◌==◌, nat_eq, string_eq, length,
  if◌then◌else◌,
}
use clavenar_sdk.Effects.{Result, err, map_err, ok_or}
use clavenar_sdk.Effects.Plain.{◌>>=◌}
use clavenar_sdk.Error.{ClavenarError, invalid_config}
use clavenar_sdk.Json.{Value, Items, Fields, string, array, object, nil, cons, end, field}

-- The decoders of base64 and ed25519_dalek, with the errors' texts.
pub record KeyApi (K : Type 0) : Type 0 where
  pub base64_url_decode : String → Result String (List ℕ)
  pub from_bytes : List ℕ → Result String K
  pub from_public_key_pem : String → Result String K

abbrev lookup : String → Fields → Option Value
lookup key end = none
lookup key (field k v rest) = let found = lookup key rest in if k == key then some v else found

-- `Value::get`, `Value::as_array` and `Value::as_str`
abbrev pub get : String → Value → Option Value
get key (object fields) = lookup key fields
get key _ = none

abbrev pub as_array : Value → Option Items
as_array (array items) = some items
as_array _ = none

abbrev pub as_str : Value → Option String
as_str (string s) = some s
as_str _ = none

abbrev pub and_then {ℓ κ} : {A : Type ℓ} {B : Type κ} → Option A → (A → Option B) → Option B
and_then none f = none
and_then (some a) f = f a

abbrev pub kid : Value → Option String
kid jwk = and_then (get "kid" jwk) as_str

abbrev pub is_some_of : String → Option String → Bool
is_some_of key_id none = false
is_some_of key_id (some s) = s == key_id

abbrev pub find_kid : String → Items → Option Value
find_kid key_id nil = none
find_kid key_id (cons jwk rest) =
    let found = find_kid key_id rest in if is_some_of key_id (kid jwk) then some jwk else found

module _ {K : Type 0} (api : KeyApi K) where
  unfoldable pub verifying_key_from_pem : String → Result ClavenarError K
  verifying_key_from_pem pem =
      map_err (λ e. invalid_config ("public key PEM: " <> e)) (api.from_public_key_pem pem)

  abbrev pub key_of : List ℕ → Result ClavenarError K
  key_of bytes =
      if length bytes == 32
      then map_err (λ e. invalid_config ("jwks: invalid ed25519 key: " <> e)) (api.from_bytes bytes)
      else err (invalid_config "jwks: x is not 32 bytes")

  unfoldable pub verifying_key_from_jwks : Value → String → Result ClavenarError K
  verifying_key_from_jwks jwks key_id =
      ok_or (and_then (get "keys" jwks) as_array) (invalid_config "jwks: missing `keys` array")
      >>= λ keys.
          ok_or (find_kid key_id keys) (invalid_config ("jwks: no key with kid=" <> key_id))
          >>= λ jwk.
              ok_or (and_then (get "x" jwk) as_str) (invalid_config "jwks: key missing `x`")
              >>= λ x_b64.
                  map_err (λ e. invalid_config ("jwks: x base64url: " <> e))
                    (api.base64_url_decode x_b64)
                  >>= key_of
