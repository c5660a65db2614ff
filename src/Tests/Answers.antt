-- ===== src/Tests/Answers.antt =====
-- Base URLs, path segments (src/http.rs), the proxy client's calls (src/client.rs) and prepared
-- requests (src/execution.rs) at concrete inputs.
use clavenar_sdk.Prelude.{
  ℕ, ◌<◌, ◌≡◌, ◌↔◌, refl, arith, String, List, [], ◌∷◌, some, All, ◌==◌, string_eq, if◌then◌else◌,
}
use clavenar_sdk.Effects.{ok, err, lift, ◌>>=◌, on_err}
use clavenar_sdk.Client.{Machine, logged}
use clavenar_sdk.Execution.Authorize.{send}
use clavenar_sdk.Http.{read_body_limited, read_chunks, read_text_limited}
use clavenar_sdk.Http.BaseUrl.{UrlApi, parse_base_url, IsBase, parse_base_url_iff}
use clavenar_sdk.Http.Percent.{
  percent_encode, percent_decode, outside, IsSafe, percent_decode-percent_encode,
  percent_encode-IsSafe,
}
use clavenar_sdk.Json.{object, end, string, field, number, pos_int}
use clavenar_sdk.Proxy.{first_id, fetch_add, dispatch, send_raw, call_tool, decode_json_body}
use clavenar_sdk.Proxy.Dispatch.{
  IsDispatched, IsAnswered, dispatch-IsDispatched, call_tool-IsAnswered,
}
use clavenar_sdk.Proxy.Numbered.{RpcCall, tool, perform_all, Numbered, perform_all-Numbered}
use clavenar_sdk.Records.{ModelToolCall}
use clavenar_sdk.Execution.Session.{start}
use clavenar_sdk.Tests.World.{World, platform, client, empty}

-- "a/b" and a byte that is no ASCII.
abbrev segment : List ℕ
segment = 97 ∷ (47 ∷ (98 ∷ (233 ∷ [])))

encodes : percent_encode segment ≡ 97 ∷ (37 ∷ (50 ∷ (70 ∷ (98 ∷ (37 ∷ (69 ∷ (57 ∷ [])))))))
unfolding percent_encode
encodes = refl

segment_bytes : All (λ b. b < 256) segment
segment_bytes = (omega arith, (omega arith, (omega arith, (omega arith, tt))))

percent_decode-percent_encode_example :
    percent_decode outside (percent_encode segment) ≡ some segment
percent_decode-percent_encode_example = percent_decode-percent_encode segment segment_bytes

percent_encode-IsSafe_example : All IsSafe (percent_encode segment)
percent_encode-IsSafe_example = percent_encode-IsSafe segment segment_bytes

-- A URL is an origin and a path.
abbrev api : UrlApi (String × String)
api = record {
  parse = λ s. if s == "bad" then err "relative URL without a base" else ok (s, "/api");
  path = λ url. url.1;
  set_path = λ url path. (url.0, path);
}

parses : parse_base_url api "https://proxy" ≡ ok ("https://proxy", "/api/")
unfolding parse_base_url
parses = refl

parse_base_url_iff_example :
    (parse_base_url api "https://proxy" ≡ ok ("https://proxy", "/api/")) ↔ (
      (parsed : String × String) × (api.parse "https://proxy" ≡ ok parsed)
      × IsBase api parsed ("https://proxy", "/api/"))
parse_base_url_iff_example = parse_base_url_iff api "https://proxy" ("https://proxy", "/api/")

dispatch-IsDispatched_example :
    IsDispatched platform 403 "plain text" (dispatch platform 403 "plain text")
dispatch-IsDispatched_example = dispatch-IsDispatched platform 403 "plain text"

abbrev two_calls : List RpcCall
two_calls = tool "search" (object end) ∷ (RpcCall.method "tools/list" (object end) ∷ [])

perform_all-Numbered_example :
    Numbered 3 (perform_all platform client two_calls first_id (start empty)).calls
perform_all-Numbered_example =
    perform_all-Numbered platform client two_calls (start empty) refl (omega arith)

abbrev answered : Machine World
answered = ((call_tool platform client "search" (object end) 1).0 (start empty)).1

calls_tool :
    (call_tool platform client "search" (object end) 1).0 (start empty)
    ≡ (ok (string "authorization"), answered)
unfolding call_tool fetch_add send_raw dispatch decode_json_body lift ◌>>=◌ on_err logged send
    read_body_limited read_chunks read_text_limited
calls_tool = refl

call_tool-IsAnswered_example :
    IsAnswered platform client
      (object (
        field "id" (number (pos_int 1)) (
          field "jsonrpc" (string "2.0") (
            field "method" (string "tools/call") (
              field "params"
                (object (field "arguments" (object end) (field "name" (string "search") end)))
                end)))))
      (string "authorization")
      (start empty)
      answered
call_tool-IsAnswered_example =
    call_tool-IsAnswered platform client "search" (object end) 1 (start empty)
      (string "authorization") answered calls_tool

abbrev calls : List ModelToolCall
calls = record { id = "a"; name = "search"; arguments = object end } ∷ []
