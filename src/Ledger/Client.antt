-- ===== src/Ledger/Client.antt =====
-- `LedgerClient` of src/ledger.rs: its exchange, and the queries of the audit trail.
use clavenar_sdk.Prelude.{ℕ, String, Option, List, ◌==◌, nat_eq, string_eq, if◌then◌else◌}
use clavenar_sdk.Prelude.Int.{ℤ, pos, negsuc}
use clavenar_sdk.Prelude.Trim.{trim}
use clavenar_sdk.Effects.{Result, err, map_err, Run, lift, ◌>>=◌, pure}
use clavenar_sdk.Error.{ClavenarError, server, decode}
use clavenar_sdk.Json.{Value}
use clavenar_sdk.Http.BaseUrl.{UrlApi}
use clavenar_sdk.Http.Provider.{connect}
use clavenar_sdk.Platform.{Platform}
use clavenar_sdk.Service.{
  Url, Method, json, no_body, Request, Provider, request, is_success, join_as, reply_text, send,
}
use clavenar_sdk.Ledger.Records.{
  LedgerEntry, VerifyResult, LifecycleRow, ReplayCorpus, ExportRecord, ExportOutcome,
  ComplianceRegister, LogEntry, LogReceipt, LedgerTenantLifecycleReceipt,
  LedgerTenantLifecycleRequest,
}
use clavenar_sdk.Ledger.Reports.{
  EnvelopeAnalysis, BehavioralBaseline, SilentAgentsReport, FleetBehavioralDiff, ModelUpgradeCanary,
  HuntResult,
}
use clavenar_sdk.Ledger.Meters.{
  SpendRollup, ActiveAgentInvoice, ActiveAgentAdjustment, ActiveAgentAdjustmentReceipt,
  CaseTimelineEvent, CaseRecord, CaseDetail,
}

-- serde's parsers of the answers, with the errors' texts; a struct that wraps one field is the field.
-- Of the bodies that are structs, serde's printers.
pub record LedgerCodec : Type 0 where
  pub parse_entries : String → Result String (List LedgerEntry)
  pub parse_count : String → Result String ℤ
  pub parse_verify : String → Result String VerifyResult
  pub parse_agents : String → Result String (List String)
  pub parse_lifecycle : String → Result String (List LifecycleRow)
  pub parse_masked : String → Result String (Option Value)
  pub parse_corpus : String → Result String ReplayCorpus
  pub parse_envelope : String → Result String EnvelopeAnalysis
  pub parse_baseline : String → Result String BehavioralBaseline
  pub parse_silent : String → Result String SilentAgentsReport
  pub parse_fleet : String → Result String FleetBehavioralDiff
  pub parse_canary : String → Result String ModelUpgradeCanary
  pub parse_hunt : String → Result String HuntResult
  pub parse_spend : String → Result String SpendRollup
  pub parse_invoice : String → Result String ActiveAgentInvoice
  pub parse_adjusted : String → Result String ActiveAgentAdjustmentReceipt
  pub parse_exports : String → Result String (List ExportRecord)
  pub parse_outcome : String → Result String ExportOutcome
  pub parse_register : String → Result String ComplianceRegister
  pub parse_case_row : String → Result String CaseRecord
  pub parse_cases : String → Result String (List CaseRecord)
  pub parse_case : String → Result String CaseDetail
  pub parse_unit : String → Result String (Unit {0})
  pub parse_receipt : String → Result String LogReceipt
  pub parse_classified : String → Result String (String × String)
  pub parse_tenant_receipt : String → Result String LedgerTenantLifecycleReceipt
  pub parse_tombstoned : String → Result String ℤ
  pub adjustment_json : ActiveAgentAdjustment → Value
  pub timeline_json : CaseTimelineEvent → Value
  pub entry_json : LogEntry → Value
  pub lifecycle_json : LedgerTenantLifecycleRequest → Value
  -- `to_rfc3339_opts` to the second, of a time
  pub rfc3339_secs : String → String

pub record LedgerClient (W : Type 0) : Type 0 where
  pub base_url : String
  pub http : Provider W

pub new :
    {W U : Type 0}
    → UrlApi U
    → (U → String)
    → (ℕ → ℕ → Result String (Provider W))
    → String
    → Run (Option (Provider W)) ClavenarError (LedgerClient W)
new api text build base_url = do
  parts ← connect api text build base_url
  pure (record { base_url = parts.0; http = parts.1 })

abbrev with_http_provider : {W : Type 0} → LedgerClient W → Provider W → LedgerClient W
with_http_provider client provider = record client { http = provider }

-- A 200 is decoded, and any other answer is the server's error.
unfoldable pub read_ok :
    {A : Type 0} → (String → Result String A) → ℕ → String → Result ClavenarError A
read_ok parse status raw =
    if status == 200 then map_err decode (parse raw) else err (server status raw)

-- Any success is decoded, an empty body as `null`.
unfoldable pub read_created :
    {A : Type 0} → (String → Result String A) → ℕ → String → Result ClavenarError A
unfolding trim
read_created parse status raw =
    if is_success status
    then map_err decode (parse (if trim raw == "" then "null" else raw))
    else err (server status raw)

-- `w.count.max(0) as usize`, which loses nothing on a 64-bit target.
abbrev pub as_usize : ℤ → ℕ
as_usize (pos n) = n
as_usize (negsuc n) = 0

module _ (p : Platform) {W : Type 0} (client : LedgerClient W) where
  -- The exchange of `get_json`, `post_json` and the exports.
  unfoldable pub exchange :
      {A : Type 0}
      → String
      → (Url → Request)
      → (ℕ → String → Result ClavenarError A)
      → Run W ClavenarError A
  exchange path build read = do
    endpoint ← lift (join_as p path client.base_url path)
    reply ← send client.http (build endpoint)
    raw ← lift (reply_text p reply)
    lift (read reply.response.status raw)

  unfoldable pub get_json :
      {A : Type 0} → (String → Result String A) → String → Run W ClavenarError A
  unfolding exchange read_ok
  get_json parse path = exchange path (λ url. request Method.get url no_body) (read_ok parse)

  unfoldable pub post_json :
      {A : Type 0} → (String → Result String A) → String → Value → Run W ClavenarError A
  unfolding exchange read_created
  post_json parse path body =
      exchange path (λ url. request Method.post url (json body)) (read_created parse)
