-- ===== src/Ledger/Cases.antt =====
-- The cases, tenants and exports of `LedgerClient` (src/ledger.rs).
use clavenar_sdk.Prelude.{
  ℕ, Bool, true, false, String, ◌<>◌, Option, none, some, List, if◌then◌else◌,
}
use clavenar_sdk.Prelude.Int.{ℤ}
use clavenar_sdk.Effects.{Result, ok, err, ok_or, Run, lift, ◌>>=◌}
use clavenar_sdk.Error.{ClavenarError, server, invalid_config}
use clavenar_sdk.Http.{read_body_limited, binary_response_body_limit}
use clavenar_sdk.Json.{Value, string, array, object, field, end}
use clavenar_sdk.Platform.{Platform}
use clavenar_sdk.Records.{Uuid}
use clavenar_sdk.Service.{
  Url, Method, bytes, no_body, Request, Reply, request, header, is_success, join_as, reply_text,
  send,
}
use clavenar_sdk.Service.Body.{strings, or_null, single}
use clavenar_sdk.Service.Decimal.{show_int}
use clavenar_sdk.Service.Text.{percent_text}
use clavenar_sdk.Ledger.Records.{
  ExportRecord, ExportOutcome, RegulatoryExportOptions, LedgerTenantLifecycleKind,
  LedgerTenantLifecycleReceipt, ComplianceEvidenceScope, ComplianceRegister, LogEntry, LogReceipt,
}
use clavenar_sdk.Ledger.Meters.{CaseTimelineEvent, CaseRecord, CaseDetail}
use clavenar_sdk.Ledger.Query.{push, push_text}
use clavenar_sdk.Ledger.Client.{LedgerCodec, LedgerClient, exchange, get_json, post_json, read_ok}

abbrev case_json : String → List String → List String → Option String → Value
case_json title agent_ids correlation_ids actor = object (
    field "actor" (or_null actor) (
      field "agent_ids" (array (strings agent_ids)) (
        field "correlation_ids" (array (strings correlation_ids))
          (field "title" (string title) end))))

abbrev attach_json : List String → List String → Value
attach_json agent_ids correlation_ids = object (
    field "agent_ids" (array (strings agent_ids))
      (field "correlation_ids" (array (strings correlation_ids)) end))

-- `text/markdown` where there is a readme.
abbrev pub export_request : Option (List ℕ) → Url → Request
export_request none url = request Method.post url no_body
export_request (some readme) url =
    header "content-type" "text/markdown" (request Method.post url (bytes readme))

abbrev pub push_flag : String → Bool → String → String
push_flag name true path = push name "true" path
push_flag name false path = path

abbrev pub refused_with : Result ClavenarError String → ℕ → Result ClavenarError (List ℕ)
refused_with (ok body) status = err (server status body)
refused_with (err e) status = err e

module _ (p : Platform) (codec : LedgerCodec) {W : Type 0} (client : LedgerClient W) where
  unfoldable pub create_case :
      String → List String → List String → Option String → Run W ClavenarError CaseRecord
  unfolding post_json
  create_case title agent_ids correlation_ids actor =
      post_json p client codec.parse_case_row "cases"
        (case_json title agent_ids correlation_ids actor)

  unfoldable pub list_cases : Option String → ℤ → Run W ClavenarError (List CaseRecord)
  unfolding get_json
  list_cases status limit =
      get_json p client codec.parse_cases
        (push_text "status" status ("cases?limit=" <> show_int limit))

  unfoldable pub get_case : String → Run W ClavenarError CaseDetail
  unfolding get_json
  get_case id = get_json p client codec.parse_case ("cases/" <> percent_text id)

  unfoldable pub append_case_timeline : String → CaseTimelineEvent → Run W ClavenarError (Unit {0})
  unfolding post_json
  append_case_timeline id ev =
      post_json p client codec.parse_unit ("cases/" <> (percent_text id <> "/timeline"))
        (codec.timeline_json ev)

  unfoldable pub set_case_status : String → String → Run W ClavenarError (Unit {0})
  unfolding post_json
  set_case_status id status =
      post_json p client codec.parse_unit ("cases/" <> (percent_text id <> "/status"))
        (single "status" status)

  unfoldable pub log : LogEntry → Run W ClavenarError LogReceipt
  unfolding post_json
  log entry = post_json p client codec.parse_receipt "log" (codec.entry_json entry)

  unfoldable pub classify_case : String → String → Run W ClavenarError (String × String)
  unfolding post_json
  classify_case id severity =
      post_json p client codec.parse_classified ("cases/" <> (percent_text id <> "/classify"))
        (single "severity" severity)

  unfoldable pub attach_case : String → List String → List String → Run W ClavenarError (Unit {0})
  unfolding post_json
  attach_case id agent_ids correlation_ids =
      post_json p client codec.parse_unit ("cases/" <> (percent_text id <> "/attach"))
        (attach_json agent_ids correlation_ids)

  unfoldable pub tenant_lifecycle :
      String → Uuid → LedgerTenantLifecycleKind → Run W ClavenarError LedgerTenantLifecycleReceipt
  unfolding post_json
  tenant_lifecycle tenant operation_id kind =
      post_json p client codec.parse_tenant_receipt
        ("admin/tenants/" <> (percent_text tenant <> "/lifecycle"))
        (codec.lifecycle_json (record { operation_id = operation_id; kind = kind }))

  unfoldable pub tombstone_tenant : String → Option String → Run W ClavenarError ℤ
  unfolding post_json
  tombstone_tenant tenant reason =
      post_json p client codec.parse_tombstoned
        ("admin/tenants/" <> (percent_text tenant <> "/tombstone"))
        (object (field "reason" (or_null reason) end))

  unfoldable pub list_exports : Run W ClavenarError (List ExportRecord)
  unfolding get_json
  list_exports = get_json p client codec.parse_exports "exports"

  unfoldable pub trigger_export : Run W ClavenarError ExportOutcome
  unfolding exchange read_ok
  trigger_export =
      exchange p client "export" (λ url. request Method.post url no_body)
        (read_ok codec.parse_outcome)

  abbrev pub export_path : String → String → String → RegulatoryExportOptions → String
  export_path tenant from to opts = push_flag "include_compliance" opts.include_compliance (
      push_flag "include_exports" opts.include_exports (
        "export/regulatory?tenant="
        <> (percent_text tenant
            <> ("&from="
                <> (percent_text (codec.rfc3339_secs from)
                    <> ("&to=" <> percent_text (codec.rfc3339_secs to)))))))

  -- The bytes of the export, read up to the larger limit.
  abbrev pub read_export : Reply → Result ClavenarError (List ℕ)
  read_export reply =
      if is_success reply.response.status
      then read_body_limited reply.response binary_response_body_limit
      else refused_with (reply_text p reply) reply.response.status

  unfoldable pub regulatory_export :
      String → String → RegulatoryExportOptions → Run W ClavenarError (List ℕ)
  regulatory_export from to opts = do
    tenant ←
        lift
          (ok_or opts.tenant (invalid_config "regulatory export requires an authenticated tenant"))
    let path = export_path tenant from to opts
    endpoint ← lift (join_as p path client.base_url path)
    reply ← send client.http (export_request opts.readme endpoint)
    lift (read_export reply)

  unfoldable pub compliance_evidence_scoped :
      String → String → ComplianceEvidenceScope → Run W ClavenarError ComplianceRegister
  unfolding exchange read_ok
  compliance_evidence_scoped from to scope =
      exchange p client
        (push_text "tenant" scope.tenant (
          push_text "demo_session_token" scope.demo_session_token (
            "compliance/evidence?from="
            <> (percent_text (codec.rfc3339_secs from)
                <> ("&to=" <> percent_text (codec.rfc3339_secs to))))))
        (λ url. request Method.post url no_body) (read_ok codec.parse_register)
