-- ===== src/Brain/Client.antt =====
-- `BrainClient` of src/brain.rs.
use clavenar_sdk.Prelude.{String, Option, some, ℕ, none}
use clavenar_sdk.Effects.{Result, Run, lift, ◌>>=◌, pure}
use clavenar_sdk.Error.{ClavenarError}
use clavenar_sdk.Json.{Value}
use clavenar_sdk.Http.BaseUrl.{UrlApi}
use clavenar_sdk.Http.Provider.{connect}
use clavenar_sdk.Platform.{Platform}
use clavenar_sdk.Service.{Method, json, Provider, request, with_auth, join_as, perform}
use clavenar_sdk.Brain.Records.{ExplainPatternRequest, ExplainPatternResponse}

-- serde's printer of the request, and its parser of the answer.
pub record BrainCodec : Type 0 where
  pub pattern_json : ExplainPatternRequest → Value
  pub parse_explanation : String → Result String ExplainPatternResponse

pub record BrainClient (W : Type 0) : Type 0 where
  pub base_url : String
  pub http : Provider W
  pub bearer : Option String

pub new :
    {W U : Type 0}
    → UrlApi U
    → (U → String)
    → (ℕ → ℕ → Result String (Provider W))
    → String
    → Run (Option (Provider W)) ClavenarError (BrainClient W)
new api text build base_url = do
  parts ← connect api text build base_url
  pure (record { base_url = parts.0; http = parts.1; bearer = none })

abbrev with_http_provider : {W : Type 0} → BrainClient W → Provider W → BrainClient W
with_http_provider client provider = record client { http = provider }

abbrev with_bearer : {W : Type 0} → BrainClient W → String → BrainClient W
with_bearer client token = record client { bearer = some token }

pub explain_pattern :
    (p : Platform)
    → BrainCodec
    → {W : Type 0} → BrainClient W
    → ExplainPatternRequest
    → Run W ClavenarError ExplainPatternResponse
explain_pattern p codec client req = do
  url ← lift (join_as p "explain-pattern" client.base_url "explain-pattern")
  perform p client.http codec.parse_explanation
      (with_auth client.bearer (request Method.post url (json (codec.pattern_json req))))
