-- ===== src/Hil/Lookups.antt =====
-- The lookups, streams and identities of `HilClient` (src/hil.rs).
use clavenar_sdk.Prelude.{Bool, String, ◌<>◌, Option, none, some, ◌==◌, string_eq, if◌then◌else◌}
use clavenar_sdk.Effects.{Result, ok, err, Run, pure, lift, ◌>>=◌}
use clavenar_sdk.Error.{ClavenarError}
use clavenar_sdk.Json.{Value, null, string, object, field, end}
use clavenar_sdk.Platform.{Platform}
use clavenar_sdk.Records.{Uuid}
use clavenar_sdk.Service.{
  Method, json, no_body, Request, Reply, request, header, bearer_auth, append_pair, is_success,
  reply_text, send,
}
use clavenar_sdk.Service.Body.{or_null}
use clavenar_sdk.Hil.Records.{PendingRequest, ApprovalStats, UserIdentities, AuthProxyResponse}
use clavenar_sdk.Hil.Client.{
  HilCodec, HilClient, join, apply_tenant_scope, read_json, read_found, demo_cookie,
}
use clavenar_sdk.Hil.Answers.{refused_with, set_cookies, cleared}

module _ (p : Platform) (codec : HilCodec) {W : Type 0} (client : HilClient W) where
  unfoldable pub get_pending_by_correlation : String → Run W ClavenarError (Option PendingRequest)
  unfolding join read_found
  get_pending_by_correlation correlation_id = do
    url ← lift (join p client ("pending/by-correlation/" <> correlation_id))
    read_found p client codec.parse_pending
        (apply_tenant_scope p client (request Method.get url no_body))

  unfoldable pub get_pending : Uuid → Run W ClavenarError (Option PendingRequest)
  unfolding join read_found
  get_pending id = do
    url ← lift (join p client ("pending/" <> p.uuid_to_string id))
    read_found p client codec.parse_pending
        (apply_tenant_scope p client (request Method.get url no_body))

  unfoldable pub approvals_stats_inner : String → Option String → Run W ClavenarError ApprovalStats
  unfolding join read_json
  approvals_stats_inner window demo_session_jwt = do
    url ← lift (join p client "approvals/stats")
    read_json p client codec.parse_stats (
        apply_tenant_scope p client (
          demo_cookie demo_session_jwt
            (request Method.get (append_pair "window" window url) no_body)))

  unfoldable pub approvals_stats : String → Run W ClavenarError ApprovalStats
  unfolding approvals_stats_inner
  approvals_stats window = approvals_stats_inner window none

  unfoldable pub approvals_stats_scoped : String → String → Run W ClavenarError ApprovalStats
  unfolding approvals_stats_inner
  approvals_stats_scoped window demo_session_jwt =
      approvals_stats_inner window (some demo_session_jwt)

  -- The stream is handed on as it is; only a refusal is read.
  abbrev streamed : Reply → Result ClavenarError Reply
  streamed reply =
      if is_success reply.response.status
      then ok reply
      else refused_with (reply_text p reply) reply.response.status

  unfoldable pub stream_pending_inner : Option String → Run W ClavenarError Reply
  unfolding join
  stream_pending_inner demo_session_jwt = do
    url ← lift (join p client "pending/stream")
    reply ← send client.http (
        apply_tenant_scope p client (
          demo_cookie demo_session_jwt
            (header "accept" "text/event-stream" (request Method.get url no_body))))
    lift (streamed reply)

  unfoldable pub stream_pending : Run W ClavenarError Reply
  unfolding stream_pending_inner
  stream_pending = stream_pending_inner none

  unfoldable pub stream_pending_scoped : String → Run W ClavenarError Reply
  unfolding stream_pending_inner
  stream_pending_scoped demo_session_jwt = stream_pending_inner (some demo_session_jwt)

  -- JSON where the text is JSON, and the text itself where it is not.
  abbrev value_or_text : String → Result String Value → Value
  value_or_text raw (ok v) = v
  value_or_text raw (err e) = string raw

  abbrev proxied_body : String → Value
  proxied_body raw = if raw == "" then null else value_or_text raw (p.parse_value raw)

  abbrev proxied : Reply → String → AuthProxyResponse
  proxied reply raw = record {
    status = reply.response.status;
    body = proxied_body raw;
    set_cookies = set_cookies reply.headers;
  }

  abbrev with_cookie : Option String → Request → Request
  with_cookie none r = r
  with_cookie (some cookie) r = header "cookie" cookie r

  unfoldable pub auth_proxy_post :
      String → Value → Option String → Run W ClavenarError AuthProxyResponse
  unfolding join
  auth_proxy_post sub_path body hil_cookie = do
    url ← lift (join p client ("auth/" <> sub_path))
    reply ← send client.http (with_cookie hil_cookie (request Method.post url (json body)))
    raw ← lift (reply_text p reply)
    pure (proxied reply raw)

  unfoldable pub identities_upsert :
      String → String → Option String → Option String → Run W ClavenarError UserIdentities
  unfolding join read_json
  identities_upsert bearer oidc_sub slack_user_id teams_user_id = do
    url ← lift (join p client "identities/upsert")
    read_json p client codec.parse_identities (
        bearer_auth bearer (
          request Method.post url (
            json (
              object (
                field "oidc_sub" (string oidc_sub) (
                  field "slack_user_id" (or_null slack_user_id)
                    (field "teams_user_id" (or_null teams_user_id) end)))))))

  unfoldable pub identities_get : String → String → Run W ClavenarError (Option UserIdentities)
  unfolding join read_found
  identities_get bearer oidc_sub = do
    url ← lift (join p client ("identities/" <> oidc_sub))
    read_found p client codec.parse_identities (bearer_auth bearer (request Method.get url no_body))

  unfoldable pub identities_unlink : String → String → String → Run W ClavenarError Bool
  unfolding join read_json
  identities_unlink bearer oidc_sub channel = do
    url ← lift (join p client ("identities/" <> (oidc_sub <> ("/" <> channel))))
    body ← read_json p client p.parse_value (bearer_auth bearer (request Method.delete url no_body))
    pure (cleared body)

  unfoldable pub identities_unlink_slack : String → String → Run W ClavenarError Bool
  unfolding identities_unlink
  identities_unlink_slack bearer oidc_sub = identities_unlink bearer oidc_sub "slack"

  unfoldable pub identities_unlink_teams : String → String → Run W ClavenarError Bool
  unfolding identities_unlink
  identities_unlink_teams bearer oidc_sub = identities_unlink bearer oidc_sub "teams"
