-- ===== src/Http.antt =====
-- src/http.rs: bounded response bodies, and the dispatch on status codes that the service clients
-- share.
pub mod Bounds
pub mod Percent
pub mod BaseUrl
pub mod Provider
use clavenar_sdk.Prelude.{
  ℕ, ◌+◌, ◌*◌, ◌-◌, ◌^◌, Bool, false, ◌||◌, String, ◌<>◌, Option, none, some, List, [], ◌∷◌, ◌++◌,
  length, ltb, ◌==◌, nat_eq, if◌then◌else◌,
}
use clavenar_sdk.Effects.{Result, ok, err, map_err}
use clavenar_sdk.Effects.Plain.{◌>>=◌}
use clavenar_sdk.Error.{
  ClavenarError, unauthorized, bad_request, server, transport, decode, response_too_large,
  invalid_response,
}
use clavenar_sdk.Client.{HttpResponse}
use clavenar_sdk.Platform.{Platform}

abbrev pub default_response_body_limit : ℕ
default_response_body_limit = 16 * 1024 * 1024

abbrev pub binary_response_body_limit : ℕ
binary_response_body_limit = 64 * 1024 * 1024

-- The largest `usize` of a 64-bit target.
abbrev pub usize_max : ℕ
usize_max = 2 ^ 64 - 1

abbrev pub exceeds : Option ℕ → ℕ → Bool
exceeds none limit = false
exceeds (some n) limit = ltb limit n

-- `body.len().checked_add(chunk.len())`, and the cap on the sum.
unfoldable pub read_chunks :
    ℕ → List ℕ → List (Result String (List ℕ)) → Result ClavenarError (List ℕ)
read_chunks limit body [] = ok body
read_chunks limit body (err e ∷ rest) = err (transport e)
read_chunks limit body (ok chunk ∷ rest) =
    if ltb usize_max (length body + length chunk) || ltb limit (length body + length chunk)
    then err (response_too_large limit)
    else read_chunks limit (body ++ chunk) rest

unfoldable pub read_body_limited : HttpResponse → ℕ → Result ClavenarError (List ℕ)
unfolding read_chunks
read_body_limited response limit =
    if exceeds response.content_length limit
    then err (response_too_large limit)
    else read_chunks limit [] response.chunks

unfoldable pub read_text_limited : Platform → HttpResponse → Result ClavenarError String
read_text_limited p response = read_body_limited response default_response_body_limit >>= λ body.
    map_err (λ e. invalid_response ("response body is not UTF-8: " <> e)) (p.from_utf8 body)

-- `parse` is `serde_json::from_str` at the type that the caller expects.
unfoldable pub decode_response {ℓ} :
    {A : Type ℓ} → (String → Result String A) → ℕ → String → Result ClavenarError A
decode_response parse status body =
    if status == 200 || status == 201
    then map_err decode (parse body)
    else if status == 401
    then err (unauthorized body)
    else if status == 400
    then err (bad_request body)
    else err (server status body)
