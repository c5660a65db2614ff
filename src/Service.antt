-- ===== src/Service.antt =====
-- What the clients of the services (src/agents.rs, src/hil.rs, src/ledger.rs, src/policies.rs,
-- src/sim.rs, src/brain.rs) share: a request as reqwest's builder collects it, one exchange with
-- the server, and the texts of URLs.
pub mod Text
pub mod Body
pub mod Members
pub mod Decimal
pub mod Codes
pub mod Exchange
pub mod Authorization
pub mod Joined
use clavenar_sdk.Prelude.{ℕ, String, ◌<>◌, Bool, ◌&&◌, Option, none, some, List, [], ◌∷◌, ◌++◌, leb}
use clavenar_sdk.Effects.{Result, ok, err, map_err, Run, lift, on_err, ◌>>=◌}
use clavenar_sdk.Client.{HttpResponse}
use clavenar_sdk.Error.{ClavenarError, transport, invalid_config}
use clavenar_sdk.Http.{read_text_limited, decode_response}
use clavenar_sdk.Json.{Value}
use clavenar_sdk.Platform.{Platform}

-- A URL by the text that was joined to the base, and the pairs that `query_pairs_mut` appended.
pub record Url : Type 0 where
  pub location : String
  pub query : List (String × String)

pub data Method : Type 0 where
  get post put patch delete : Method

pub data Payload : Type 0 where
  no_body : Payload
  json : Value → Payload
  bytes : List ℕ → Payload

-- Headers in the order in which the builder was given them; a timeout in nanoseconds.
pub record Request : Type 0 where
  pub method : Method
  pub url : Url
  pub headers : List (String × String)
  pub body : Payload
  pub timeout : Option ℕ

-- A header's value is a text where `to_str` succeeds.
pub record Reply : Type 0 where
  pub response : HttpResponse
  pub headers : List (String × Option String)

-- `self.http.client()` and the request's `send()`, in an outside world of any kind.
abbrev pub Provider : Type 0 → Type 0
Provider W = Request → Run W String Reply

abbrev pub request : Method → Url → Payload → Request
request method url body = record {
  method = method;
  url = url;
  headers = [];
  body = body;
  timeout = none;
}

-- `RequestBuilder::header`, which appends.
abbrev pub header : String → String → Request → Request
header name value r = record r { headers = r.headers ++ (name, value) ∷ [] }

-- `RequestBuilder::bearer_auth`
abbrev pub bearer_auth : String → Request → Request
bearer_auth token = header "authorization" ("Bearer " <> token)

-- `if let Some(token) = bearer { request = request.bearer_auth(token) }`
abbrev pub with_auth : Option String → Request → Request
with_auth none r = r
with_auth (some token) r = bearer_auth token r

-- `query_pairs_mut().append_pair`
abbrev pub append_pair : String → String → Url → Url
append_pair key value url = record url { query = url.query ++ (key, value) ∷ [] }

abbrev pub append_some : String → Option String → Url → Url
append_some key none url = url
append_some key (some value) url = append_pair key value url

abbrev pub map_url : (Url → Url) → Result ClavenarError Url → Result ClavenarError Url
map_url f (ok url) = ok (f url)
map_url f (err e) = err e

-- `StatusCode::is_success`
abbrev pub is_success : ℕ → Bool
is_success status = leb 200 status && leb status 299

module _ (p : Platform) where
  abbrev pub joined : Result String String → Result String Url
  joined (ok location) = ok (record { location = location; query = [] })
  joined (err e) = err e

  -- `base_url.join(path)`, with the error that names what the caller says.
  unfoldable pub join_as : String → String → String → Result ClavenarError Url
  join_as named base path =
      map_err (λ e. invalid_config ("join " <> named <> ": " <> e)) (joined (p.url_join base path))

  abbrev pub reply_text : Reply → Result ClavenarError String
  reply_text reply = read_text_limited p reply.response

module _ {W : Type 0} (provider : Provider W) where
  -- `request.send().await?`
  unfoldable pub send : Request → Run W ClavenarError Reply
  send r = on_err transport (provider r)

module _ (p : Platform) {W : Type 0} (provider : Provider W) where
  -- What most calls do with their request: send it, read the body, and decode it by the status.
  unfoldable pub perform :
      {A : Type 0} → (String → Result String A) → Request → Run W ClavenarError A
  unfolding send
  perform parse r = do
    reply ← send provider r
    raw ← lift (reply_text p reply)
    lift (decode_response parse reply.response.status raw)
