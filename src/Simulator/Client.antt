-- ===== src/Simulator/Client.antt =====
-- `SimClient` of src/sim.rs: the calls of the simulator.
use clavenar_sdk.Prelude.{
  ℕ, ◌*◌, ◌^◌, Bool, not, ◌||◌, String, some, List, len, ltb, ◌==◌, nat_eq, string_eq,
  if◌then◌else◌, Option,
}
use clavenar_sdk.Effects.{Result, ok, err, Run, lift, ◌>>=◌, ◌>>◌, pure}
use clavenar_sdk.Error.{ClavenarError, invalid_config}
use clavenar_sdk.Execution.Validation.{all_chars, is_ascii_graphic}
use clavenar_sdk.Json.{Value, Float, null, bool, number, float, pos_int, string, object, field, end}
use clavenar_sdk.Http.BaseUrl.{UrlApi}
use clavenar_sdk.Http.Provider.{connect}
use clavenar_sdk.Platform.{Platform}
use clavenar_sdk.Service.{
  Method, json, no_body, Request, Provider, request, header, join_as, perform,
}
use clavenar_sdk.Simulator.Records.{SimStatus}

abbrev pub default_request_timeout : ℕ
default_request_timeout = 20 * 10 ^ 9

abbrev pub default_operator : String
default_operator = "sdk:unattributed"

abbrev pub max_operator_bytes : ℕ
max_operator_bytes = 128

-- serde's parsers of the answers, with the errors' texts; the answer that wraps the spawned agents
-- is the list of them.
pub record SimCodec : Type 0 where
  pub parse_status : String → Result String SimStatus
  pub parse_spawned : String → Result String (List String)

-- The timeout in nanoseconds.
pub record SimClient (W : Type 0) : Type 0 where
  pub base_url : String
  pub http : Provider W
  pub request_timeout : ℕ

pub new :
    {W U : Type 0}
    → UrlApi U
    → (U → String)
    → (ℕ → ℕ → Result String (Provider W))
    → String
    → Run (Option (Provider W)) ClavenarError (SimClient W)
new api text build base_url = do
  parts ← connect api text build base_url
  pure (record { base_url = parts.0; http = parts.1; request_timeout = default_request_timeout })

abbrev with_http_provider : {W : Type 0} → SimClient W → Provider W → SimClient W
with_http_provider client provider = record client { http = provider }

unfoldable pub with_request_timeout :
    {W : Type 0} → SimClient W → ℕ → Result ClavenarError (SimClient W)
with_request_timeout client timeout =
    if timeout == 0
    then err (invalid_config "simulator request timeout must be greater than zero")
    else ok (record client { request_timeout = timeout })

-- `operator.len()` counts bytes, and all of them have to be visible ASCII.
unfoldable pub validate_operator : String → Result ClavenarError (Unit {0})
unfolding is_ascii_graphic
validate_operator operator =
    if operator == ""
      || (ltb max_operator_bytes (len operator) || not (all_chars is_ascii_graphic operator))
    then err (invalid_config "simulator operator must be 1..=128 visible ASCII bytes")
    else ok tt

-- `json!` of a double, which has no number for an infinity or a NaN.
abbrev float_value : Float → Value
float_value x = if x == "NaN" || (x == "inf" || x == "-inf") then null else number (float x)

-- `RequestBuilder::timeout`
abbrev pub with_timeout : ℕ → Request → Request
with_timeout timeout r = record r { timeout = some timeout }

module _ (p : Platform) {W : Type 0} (client : SimClient W) where
  unfoldable pub get_json :
      {A : Type 0} → (String → Result String A) → String → Run W ClavenarError A
  get_json parse path = do
    endpoint ← lift (join_as p path client.base_url path)
    perform p client.http parse
        (with_timeout client.request_timeout (request Method.get endpoint no_body))

  unfoldable pub post_json_as :
      {A : Type 0} → (String → Result String A) → String → String → Value → Run W ClavenarError A
  unfolding validate_operator
  post_json_as parse operator path body = do
    lift (validate_operator operator)
    endpoint ← lift (join_as p path client.base_url path)
    perform p client.http parse (
        with_timeout client.request_timeout
          (header "x-clavenar-operator" operator (request Method.post endpoint (json body))))

module _ (p : Platform) (codec : SimCodec) {W : Type 0} (client : SimClient W) where
  unfoldable pub status : Run W ClavenarError SimStatus
  unfolding get_json
  status = get_json p client codec.parse_status "status"

  unfoldable pub set_multiplier_as : String → Float → Run W ClavenarError SimStatus
  unfolding post_json_as
  set_multiplier_as operator multiplier =
      post_json_as p client codec.parse_status operator "multiplier"
        (object (field "traffic_multiplier" (float_value multiplier) end))

  unfoldable pub set_multiplier : Float → Run W ClavenarError SimStatus
  unfolding set_multiplier_as
  set_multiplier multiplier = set_multiplier_as default_operator multiplier

  unfoldable pub set_running_as : String → Bool → Run W ClavenarError SimStatus
  unfolding post_json_as
  set_running_as operator running =
      post_json_as p client codec.parse_status operator "running"
        (object (field "running" (bool running) end))

  unfoldable pub set_running : Bool → Run W ClavenarError SimStatus
  unfolding set_running_as
  set_running running = set_running_as default_operator running

  unfoldable pub set_auto_decide_as : String → Bool → Run W ClavenarError SimStatus
  unfolding post_json_as
  set_auto_decide_as operator enabled =
      post_json_as p client codec.parse_status operator "auto-decide"
        (object (field "enabled" (bool enabled) end))

  unfoldable pub set_auto_decide : Bool → Run W ClavenarError SimStatus
  unfolding set_auto_decide_as
  set_auto_decide enabled = set_auto_decide_as default_operator enabled

  unfoldable pub add_agents_as : String → String → ℕ → Run W ClavenarError (List String)
  unfolding post_json_as
  add_agents_as operator persona count =
      post_json_as p client codec.parse_spawned operator "agents"
        (object (field "count" (number (pos_int count)) (field "persona" (string persona) end)))

  unfoldable pub add_agents : String → ℕ → Run W ClavenarError (List String)
  unfolding add_agents_as
  add_agents persona count = add_agents_as default_operator persona count
