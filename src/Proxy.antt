-- ===== src/Proxy.antt =====
-- The calls of the proxy client (src/client.rs): `call_tool`, `send_jsonrpc` and `send_raw`.
pub mod Dispatch
pub mod Numbered
use clavenar_sdk.Prelude.{
  ℕ, ◌+◌, ◌%◌, ◌^◌, Bool, String, ◌<>◌, Option, none, List, [], ◌==◌, nat_eq, if◌then◌else◌,
}
use clavenar_sdk.Effects.{Result, ok, err, map_err, Run, lift, ◌>>=◌, ◌>>◌}
use clavenar_sdk.Error.{
  ClavenarError, veto, unauthorized, bad_request, server, decode, invalid_config,
}
use clavenar_sdk.Client.{json_value, HttpRequest, HttpResponse, ClavenarClient, Machine}
use clavenar_sdk.Http.{read_text_limited}
use clavenar_sdk.Json.{Value, Number, pos_int, string, number, object, end, field}
use clavenar_sdk.Platform.{Platform, DenyResponse}
use clavenar_sdk.Execution.Authorize.{Action, bearer_of, send}

-- `ClavenarClientBuilder::build` sets `next_id` to this.
abbrev pub first_id : ℕ
first_id = 1

-- `next_id.fetch_add(1)`: the id, and the counter after it, which wraps around.
unfoldable pub fetch_add : ℕ → ℕ × ℕ
fetch_add next = (next, (next + 1) % 2 ^ 64)

module _ (p : Platform) where
  abbrev veto_of : String → Result String DenyResponse → ClavenarError
  veto_of raw (ok d) = veto d.intent_category d.reasons d.review_reasons d.correlation_id raw
  veto_of raw (err _) = veto "" [] [] none raw

  unfoldable pub parse_veto : String → ClavenarError
  parse_veto raw = veto_of raw (p.parse_deny_response raw)

  unfoldable pub decode_json_body : String → Result ClavenarError Value
  decode_json_body raw = map_err decode (p.parse_value raw)

  -- The `match status` of `send_raw`.
  unfoldable pub dispatch : ℕ → String → Result ClavenarError Value
  unfolding decode_json_body parse_veto
  dispatch status raw =
      if status == 200
      then decode_json_body raw
      else if status == 403
      then err (parse_veto raw)
      else if status == 401
      then err (unauthorized raw)
      else if status == 400
      then err (bad_request raw)
      else err (server status raw)

  -- `"params"` is whatever the method takes.
  abbrev pub request_body : ℕ → String → Value → Value
  request_body id method params = object (
      field "id" (number (pos_int id)) (
        field "jsonrpc" (string "2.0")
          (field "method" (string method) (field "params" params end))))

  module _ {W : Type 0} (client : ClavenarClient W) where
    abbrev pub raw_request : String → Value → HttpRequest
    raw_request endpoint body = record {
      endpoint = endpoint;
      headers = [];
      bearer = bearer_of client.auth;
      body = json_value body;
    }

    unfoldable pub send_raw : Value → Action W Value
    unfolding dispatch
    send_raw body = do
      endpoint ←
          lift
            (map_err (λ e. invalid_config ("join /mcp: " <> e)) (p.url_join client.base_url "mcp"))
      response ← send client (raw_request endpoint body)
      raw ← lift (read_text_limited p response)
      lift (dispatch response.status raw)

    -- Each call takes the shared counter and returns it.
    unfoldable pub send_jsonrpc : String → Value → ℕ → Action W Value × ℕ
    unfolding send_raw fetch_add
    send_jsonrpc method params next =
        let (id, next') = fetch_add next in (send_raw (request_body id method params), next')

    unfoldable pub call_tool : String → Value → ℕ → Action W Value × ℕ
    unfolding send_raw fetch_add
    call_tool name arguments next =
        let (id, next') = fetch_add next in
        (
          send_raw (
              request_body id "tools/call"
                (object (field "arguments" arguments (field "name" (string name) end)))),
          next',
        )
