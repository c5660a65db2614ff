-- ===== src/Proxy/Dispatch.antt =====
-- What the proxy client's calls (src/client.rs) send, and what they make of the answer.
use clavenar_sdk.Prelude.{
  ℕ, ◌≡◌, refl, sym, ◌∙◌, ap, arith, String, Option, none, some, List, [], ◌∷◌,
}
use clavenar_sdk.Effects.{Result, ok, err, lift, on_err}
use clavenar_sdk.Effects.Inversion.{>>=-ok, lift>>=-ok, map_err-ok}
use clavenar_sdk.Client.{
  json_value, Auth, open_access, bearer, HttpResponse, ClavenarClient, Machine, sent, logged,
}
use clavenar_sdk.Http.{read_text_limited}
use clavenar_sdk.Execution.Authorize.{bearer_of, send}
use clavenar_sdk.Error.{ClavenarError, veto, transport, decode}
use clavenar_sdk.Json.{Value, pos_int, number, string, object, field, end}
use clavenar_sdk.Platform.{Platform, DenyResponse}
use clavenar_sdk.Proxy.{
  dispatch, parse_veto, decode_json_body, fetch_add, veto_of, raw_request, send_raw, call_tool,
}

-- What each status says of the result, the body being `raw`.
pub record IsDispatched (p : Platform) (status : ℕ) (raw : String)
    (result : Result ClavenarError Value) : Type 0 where
  pub success :
      (value : Value) → result ≡ ok value → (status ≡ 200) × (p.parse_value raw ≡ ok value)
  pub undecodable :
      (text : String) → result ≡ err (decode text) → (status ≡ 200) × (p.parse_value raw ≡ err text)
  pub denied :
      status ≡ 403
      → (category : String) × (reasons : List String) × (reviews : List String)
        × (correlation : Option String) × (result
            ≡ err (veto category reasons reviews correlation raw))
  pub vetoed :
      (category : String) (reasons reviews : List String) (correlation : Option String)
      (body : String)
      → result ≡ err (veto category reasons reviews correlation body)
      → (status ≡ 403) × (body ≡ raw)

module _ (p : Platform) where
  veto_of-raw :
      (raw : String) (r : Result String DenyResponse)
      → (category : String) × (reasons : List String) × (reviews : List String)
        × (correlation : Option String) × (veto_of p raw r
            ≡ veto category reasons reviews correlation raw)
  veto_of-raw raw (ok d) = (d.intent_category, d.reasons, d.review_reasons, d.correlation_id, refl)
  veto_of-raw raw (err e) = ("", [], [], none, refl)

  -- A value is returned only for a 200 whose body is JSON, and a decoding error only for a 200 whose
  -- body is not; a 403 is always a veto that keeps the raw body, whether or not the body is the
  -- structured envelope, and nothing else is a veto.
  pub dispatch-IsDispatched :
      (status : ℕ) (raw : String) → IsDispatched p status raw (dispatch p status raw)
  unfolding dispatch parse_veto decode_json_body
  dispatch-IsDispatched status raw = record {
    success = λ value h. ground arith;
    undecodable = λ text h. ground arith;
    denied = λ e.
        let (category, reasons, reviews, correlation, h) =
          veto_of-raw raw (p.parse_deny_response raw) in
        (category, reasons, reviews, correlation, rw e (ap err h));
    vetoed = λ category reasons reviews correlation body h. ground arith;
  }

abbrev pub token_of : Auth → Option String
token_of open_access = none
token_of (bearer token) = some token

bearer_of-token_of : (auth : Auth) → bearer_of auth ≡ token_of auth
bearer_of-token_of open_access = refl
bearer_of-token_of (bearer token) = refl

module _ (p : Platform) {W : Type 0} (client : ClavenarClient W) where
  -- One request was sent, and its answer holds the value.
  pub record IsAnswered (body value : Value) (s t : Machine W) : Type 0 where
    pub endpoint : String
    pub response : HttpResponse
    pub raw : String
    pub joined : p.url_join client.base_url "mcp" ≡ ok endpoint
    pub calls :
        t.calls
        ≡ sent
            (record {
              endpoint = endpoint;
              headers = [];
              bearer = token_of client.auth;
              body = json_value body;
            })
            (ok response)
          ∷ s.calls
    pub read : read_text_limited p response ≡ ok raw
    pub status : response.status ≡ 200
    pub parsed : p.parse_value raw ≡ ok value

  send_raw-IsAnswered :
      (body : Value) (s : Machine W) {value : Value} {t : Machine W}
      → send_raw p client body s ≡ (ok value, t)
      → IsAnswered body value s t
  unfolding send_raw send on_err logged lift
  send_raw-IsAnswered body s {value} {t} h =
      let (endpoint, e0, h0) = lift>>=-ok _ _ s h in
      let (response, e1, h1) = >>=-ok _ _ s h0 in
      let (raw, e2, h2) = lift>>=-ok _ _ _ h1 in
      let (ok_status, ok_body) =
        (dispatch-IsDispatched p response.status raw).success value (ap (λ r. r.0) h2) in
      record {
        endpoint = endpoint;
        response = response;
        raw = raw;
        joined = map_err-ok _ _ e0;
        calls =
            sym (ap (λ r. r.1.calls) h2)
            ∙ (ap (λ r. sent (raw_request p client endpoint body) r ∷ s.calls)
                  (map_err-ok transport _ e1)
                ∙ ap
                    (λ b.
                      sent (record (raw_request p client endpoint body) { bearer = b })
                        (ok response)
                      ∷ s.calls)
                    (bearer_of-token_of client.auth));
        read = e2;
        status = ok_status;
        parsed = ok_body;
      }

  -- A tool call that succeeds has sent exactly one request, to the base URL's `mcp`: the JSON-RPC
  -- body of the tool with the counter's id, no decision headers, and the client's bearer token. The
  -- value is what the body of a 200 answer parses to.
  pub call_tool-IsAnswered :
      (name : String) (arguments : Value) (next : ℕ) (s : Machine W) (value : Value) (t : Machine W)
      → (call_tool p client name arguments next).0 s ≡ (ok value, t)
      → IsAnswered
          (object (
            field "id" (number (pos_int next)) (
              field "jsonrpc" (string "2.0") (
                field "method" (string "tools/call") (
                  field "params"
                    (object (field "arguments" arguments (field "name" (string name) end)))
                    end)))))
          value
          s
          t
  unfolding call_tool fetch_add
  call_tool-IsAnswered name arguments next s value t h = send_raw-IsAnswered _ s h
