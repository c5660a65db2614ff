-- ===== src/Hil/Client.antt =====
-- `HilClient` of src/hil.rs: the calls of the review service, but for `decide`.
use clavenar_sdk.Prelude.{
  String, ◌<>◌, Option, none, some, List, ◌==◌, nat_eq, string_eq, if◌then◌else◌, ℕ,
}
use clavenar_sdk.Effects.{Result, ok, Run, pure, lift, ◌>>=◌}
use clavenar_sdk.Error.{ClavenarError}
use clavenar_sdk.Json.{Value, string, object, field, end}
use clavenar_sdk.Http.BaseUrl.{UrlApi}
use clavenar_sdk.Http.Provider.{connect}
use clavenar_sdk.Platform.{Platform}
use clavenar_sdk.Records.{Uuid}
use clavenar_sdk.Service.{
  Url, Method, json, no_body, Request, Reply, Provider, request, header, append_pair, join_as,
  reply_text, send,
}
use clavenar_sdk.Service.Body.{or_null, single}
use clavenar_sdk.Service.Text.{percent_text}
use clavenar_sdk.Hil.Records.{
  HilTenantLifecycleKind, HilTenantLifecycleReceipt, HilTenantLifecycleRequest, HilLegalHoldAction,
  HilLegalHoldReceipt, HilLegalHoldRequest, PendingRequest, DecisionLinkVerify, ChannelStatus,
  ApprovalStats, UserIdentities, ConsolePrincipalClaim,
}
use clavenar_sdk.Hil.Answers.{decoded, to_some, retain_auto, read_reply}

abbrev pub hil_session_cookie : String
hil_session_cookie = "clavenar_hil_session"

abbrev pub demo_session_cookie : String
demo_session_cookie = "clavenar_demo_session"

abbrev pub decision_principal_header : String
decision_principal_header = "x-clavenar-decision-principal"

abbrev pub tenant_scope_header : String
tenant_scope_header = "x-clavenar-tenant-scope"

-- serde's parsers of the answers, with the errors' texts, and its printers of the bodies.
pub record HilCodec : Type 0 where
  pub parse_receipt : String → Result String HilTenantLifecycleReceipt
  pub parse_hold : String → Result String HilLegalHoldReceipt
  pub parse_pending : String → Result String PendingRequest
  pub parse_rows : String → Result String (List PendingRequest)
  pub parse_link : String → Result String DecisionLinkVerify
  pub parse_channels : String → Result String ChannelStatus
  pub parse_stats : String → Result String ApprovalStats
  pub parse_identities : String → Result String UserIdentities
  pub lifecycle_json : HilTenantLifecycleRequest → Value
  pub legal_hold_json : HilLegalHoldRequest → Value
  -- `hex::encode(serde_json::to_vec(principal))`
  pub principal_hex : ConsolePrincipalClaim → String

pub record HilClient (W : Type 0) : Type 0 where
  pub base_url : String
  pub http : Provider W
  pub tenant : Option String

pub new :
    {W U : Type 0}
    → UrlApi U
    → (U → String)
    → (ℕ → ℕ → Result String (Provider W))
    → String
    → Run (Option (Provider W)) ClavenarError (HilClient W)
new api text build base_url = do
  parts ← connect api text build base_url
  pure (record { base_url = parts.0; http = parts.1; tenant = none })

abbrev with_http_provider : {W : Type 0} → HilClient W → Provider W → HilClient W
with_http_provider client provider = record client { http = provider }

abbrev with_tenant : {W : Type 0} → HilClient W → Option String → HilClient W
with_tenant client tenant = record client { tenant = tenant }

abbrev pub scoped : Option String → Request → Request
scoped none r = r
scoped (some tenant) r = header tenant_scope_header tenant r

-- The demo session's cookie, if there is one.
abbrev pub demo_cookie : Option String → Request → Request
demo_cookie none r = r
demo_cookie (some jwt) r = header "cookie" (demo_session_cookie <> ("=" <> jwt)) r

module _ (p : Platform) {W : Type 0} (client : HilClient W) where
  unfoldable pub join : String → Result ClavenarError Url
  join path = join_as p ("/" <> path) client.base_url path

  -- `apply_tenant_scope`
  abbrev pub apply_tenant_scope : Request → Request
  apply_tenant_scope r = scoped client.tenant r

  unfoldable pub read_json :
      {A : Type 0} → (String → Result String A) → Request → Run W ClavenarError A
  unfolding decoded
  read_json parse r = do
    reply ← send client.http r
    body ← lift (reply_text p reply)
    lift (decoded parse reply.response.status body)

  -- A 404 is an answer, and its body is not read.
  abbrev pub found :
      {A : Type 0} → (String → Result String A) → Reply → Result ClavenarError (Option A)
  found parse reply =
      if reply.response.status == 404
      then ok none
      else to_some (read_reply parse (reply_text p reply) reply.response.status)

  unfoldable pub read_found :
      {A : Type 0} → (String → Result String A) → Request → Run W ClavenarError (Option A)
  unfolding decoded
  read_found parse r = do reply ← send client.http r; lift (found parse reply)

module _ (p : Platform) (codec : HilCodec) {W : Type 0} (client : HilClient W) where
  unfoldable pub tenant_lifecycle :
      String → Uuid → HilTenantLifecycleKind → Run W ClavenarError HilTenantLifecycleReceipt
  unfolding join read_json
  tenant_lifecycle tenant operation_id kind = do
    url ← lift (join p client ("admin/tenants/" <> (percent_text tenant <> "/lifecycle")))
    read_json p client codec.parse_receipt (
        apply_tenant_scope p client (
          request Method.post url
            (json (codec.lifecycle_json (record { operation_id = operation_id; kind = kind })))))

  unfoldable pub legal_hold :
      Uuid → Uuid → HilLegalHoldAction → Uuid → String → Run W ClavenarError HilLegalHoldReceipt
  unfolding join read_json
  legal_hold pending_id operation_id action hold_id authority_reason_sha256 = do
    url ← lift (join p client ("admin/pending/" <> (p.uuid_to_string pending_id <> "/legal-hold")))
    read_json p client codec.parse_hold (
        apply_tenant_scope p client (
          request Method.post url (
            json (
              codec.legal_hold_json (record {
                operation_id = operation_id;
                action = action;
                hold_id = hold_id;
                authority_reason_sha256 = authority_reason_sha256;
              })))))

  unfoldable pub create_pending : Value → Run W ClavenarError PendingRequest
  unfolding join read_json
  create_pending body = do
    url ← lift (join p client "pending")
    read_json p client codec.parse_pending (request Method.post url (json body))

  unfoldable pub list_by_status : String → Option String → Run W ClavenarError (List PendingRequest)
  unfolding join read_json
  list_by_status status demo_session_jwt = do
    url ← lift (join p client "pending")
    read_json p client codec.parse_rows (
        apply_tenant_scope p client (
          demo_cookie demo_session_jwt
            (request Method.get (append_pair "status" status url) no_body)))

  unfoldable pub list_pending : Run W ClavenarError (List PendingRequest)
  unfolding list_by_status
  list_pending = list_by_status "pending" none

  unfoldable pub list_pending_scoped : String → Run W ClavenarError (List PendingRequest)
  unfolding list_by_status
  list_pending_scoped demo_session_jwt = list_by_status "pending" (some demo_session_jwt)

  unfoldable pub list_auto_approved : Run W ClavenarError (List PendingRequest)
  unfolding list_by_status retain_auto
  list_auto_approved = do rows ← list_by_status "approved" none; pure (retain_auto rows)

  unfoldable pub list_auto_approved_scoped : String → Run W ClavenarError (List PendingRequest)
  unfolding list_by_status retain_auto
  list_auto_approved_scoped demo_session_jwt = do
    rows ← list_by_status "approved" (some demo_session_jwt)
    pure (retain_auto rows)

  unfoldable pub verify_decision_link : String → Run W ClavenarError DecisionLinkVerify
  unfolding join read_json
  verify_decision_link token = do
    url ← lift (join p client "decision-link/verify")
    read_json p client codec.parse_link (request Method.post url (json (single "token" token)))

  unfoldable pub patch_incident_summary : Uuid → String → Run W ClavenarError PendingRequest
  unfolding join read_json
  patch_incident_summary id incident_summary = do
    url ← lift (join p client ("pending/" <> (p.uuid_to_string id <> "/incident")))
    read_json p client codec.parse_pending (
        apply_tenant_scope p client
          (request Method.patch url (json (single "incident_summary" incident_summary))))

  unfoldable pub assign : Uuid → String → Option String → Run W ClavenarError PendingRequest
  unfolding join read_json
  assign id assigned_to escalation_pool = do
    url ← lift (join p client ("pending/" <> (p.uuid_to_string id <> "/assign")))
    read_json p client codec.parse_pending (
        apply_tenant_scope p client (
          request Method.post url (
            json (
              object (
                field "assigned_to" (string assigned_to)
                  (field "escalation_pool" (or_null escalation_pool) end))))))

  unfoldable pub notifications_config : Run W ClavenarError ChannelStatus
  unfolding join read_json
  notifications_config = do
    url ← lift (join p client "notifications/config")
    read_json p client codec.parse_channels (request Method.get url no_body)

  unfoldable pub notifications_test : Run W ClavenarError ChannelStatus
  unfolding join read_json
  notifications_test = do
    url ← lift (join p client "notifications/test")
    read_json p client codec.parse_channels (request Method.post url no_body)
