-- ===== src/Ledger/Audit.antt =====
-- The audit queries of `LedgerClient` (src/ledger.rs).
use clavenar_sdk.Prelude.{ℕ, Bool, true, false, String, ◌<>◌, Option, none, some, List}
use clavenar_sdk.Prelude.Int.{ℤ}
use clavenar_sdk.Effects.{Run, pure, ◌>>=◌}
use clavenar_sdk.Error.{ClavenarError}
use clavenar_sdk.Json.{Value}
use clavenar_sdk.Platform.{Platform}
use clavenar_sdk.Service.Decimal.{show_nat, show_int}
use clavenar_sdk.Service.Text.{percent_text}
use clavenar_sdk.Ledger.Records.{
  LedgerEntry, LifecycleRow, VerifyResult, ReplayCorpus, ReplayCorpusParams, HuntParams,
  AuditFilterParams,
}
use clavenar_sdk.Ledger.Reports.{HuntResult}
use clavenar_sdk.Ledger.Query.{push, push_text, append_query}
use clavenar_sdk.Ledger.Client.{LedgerCodec, LedgerClient, get_json, as_usize}

-- `audit/{agent}?limit={limit}&offset={offset}`
abbrev pub paged : String → ℕ → ℕ → String
paged agent_id limit offset =
    "audit/"
    <> (percent_text agent_id <> ("?limit=" <> (show_nat limit <> ("&offset=" <> show_nat offset))))

abbrev pub seq_page : String → String → ℕ → ℤ → String
seq_page bound agent_id limit seq =
    "audit/"
    <> (percent_text agent_id <> ("?limit=" <> (show_nat limit <> (bound <> show_int seq))))

abbrev pub push_bool : String → Option Bool → String → String
push_bool name none path = path
push_bool name (some true) path = push name "true" path
push_bool name (some false) path = push name "false" path

module _ (p : Platform) (codec : LedgerCodec) {W : Type 0} (client : LedgerClient W) where
  unfoldable pub audit_correlation : String → Run W ClavenarError (List LedgerEntry)
  unfolding get_json
  audit_correlation correlation_id =
      get_json p client codec.parse_entries ("audit/correlation/" <> percent_text correlation_id)

  unfoldable pub audit_agent : String → Run W ClavenarError (List LedgerEntry)
  unfolding get_json
  audit_agent agent_id = get_json p client codec.parse_entries ("audit/" <> percent_text agent_id)

  unfoldable pub audit_agent_paged : String → ℕ → ℕ → Run W ClavenarError (List LedgerEntry)
  unfolding get_json
  audit_agent_paged agent_id limit offset =
      get_json p client codec.parse_entries (paged agent_id limit offset)

  unfoldable pub audit_agent_paged_before : String → ℕ → ℤ → Run W ClavenarError (List LedgerEntry)
  unfolding get_json
  audit_agent_paged_before agent_id limit before_seq =
      get_json p client codec.parse_entries (seq_page "&before=" agent_id limit before_seq)

  unfoldable pub audit_agent_paged_after : String → ℕ → ℤ → Run W ClavenarError (List LedgerEntry)
  unfolding get_json
  audit_agent_paged_after agent_id limit after_seq =
      get_json p client codec.parse_entries (seq_page "&after=" agent_id limit after_seq)

  unfoldable pub audit_agent_paged_since_for_tenant :
      String → ℕ → ℕ → String → Option String → Run W ClavenarError (List LedgerEntry)
  unfolding get_json
  audit_agent_paged_since_for_tenant agent_id limit offset since tenant =
      get_json p client codec.parse_entries (
        push_text "tenant" tenant (push "since" (percent_text since) (paged agent_id limit offset)))

  unfoldable pub audit_agent_paged_since :
      String → ℕ → ℕ → String → Run W ClavenarError (List LedgerEntry)
  unfolding audit_agent_paged_since_for_tenant
  audit_agent_paged_since agent_id limit offset since =
      audit_agent_paged_since_for_tenant agent_id limit offset since none

  unfoldable pub audit_agent_paged_filtered :
      String → ℕ → ℕ → AuditFilterParams → Run W ClavenarError (List LedgerEntry)
  unfolding get_json
  audit_agent_paged_filtered agent_id limit offset filter =
      get_json p client codec.parse_entries (append_query filter (paged agent_id limit offset))

  unfoldable pub audit_agent_paged_before_filtered :
      String → ℕ → ℤ → AuditFilterParams → Run W ClavenarError (List LedgerEntry)
  unfolding get_json
  audit_agent_paged_before_filtered agent_id limit before_seq filter =
      get_json p client codec.parse_entries
        (append_query filter (seq_page "&before=" agent_id limit before_seq))

  unfoldable pub audit_agent_paged_after_filtered :
      String → ℕ → ℤ → AuditFilterParams → Run W ClavenarError (List LedgerEntry)
  unfolding get_json
  audit_agent_paged_after_filtered agent_id limit after_seq filter =
      get_json p client codec.parse_entries
        (append_query filter (seq_page "&after=" agent_id limit after_seq))

  unfoldable pub audit_agent_count : String → Run W ClavenarError ℕ
  unfolding get_json
  audit_agent_count agent_id = do
    w ← get_json p client codec.parse_count ("audit/" <> (percent_text agent_id <> "/count"))
    pure (as_usize w)

  unfoldable pub audit_agent_count_filtered : String → AuditFilterParams → Run W ClavenarError ℕ
  unfolding get_json
  audit_agent_count_filtered agent_id filter = do
    w ←
        get_json p client codec.parse_count
          (append_query filter ("audit/" <> (percent_text agent_id <> "/count?")))
    pure (as_usize w)

  unfoldable pub verify : Run W ClavenarError VerifyResult
  unfolding get_json
  verify = get_json p client codec.parse_verify "verify"

  unfoldable pub list_agents : Run W ClavenarError (List String)
  unfolding get_json
  list_agents = get_json p client codec.parse_agents "agents"

  unfoldable pub lifecycle_for_agent : String → String → Run W ClavenarError (List LifecycleRow)
  unfolding get_json
  lifecycle_for_agent tenant agent_id =
      get_json p client codec.parse_lifecycle (
        "audit/agent/" <> (percent_text tenant <> ("/" <> (percent_text agent_id <> "/lifecycle"))))

  unfoldable pub masked_params_for_entry : String → Run W ClavenarError (Option Value)
  unfolding get_json
  masked_params_for_entry entry_id =
      get_json p client codec.parse_masked
        ("audit/entry/" <> (percent_text entry_id <> "/masked-params"))

  unfoldable pub replay_corpus : ReplayCorpusParams → Run W ClavenarError ReplayCorpus
  unfolding get_json
  replay_corpus params = get_json p client codec.parse_corpus (
      push_text "tenant_prefix" params.tenant_prefix (
        push_text "tool_type" params.tool_type (
          push_text "agent_id" params.agent_id (
            push_text "until" params.until (
              "audit/replay/corpus?since="
              <> (percent_text params.since <> ("&limit=" <> show_int params.limit)))))))

  unfoldable pub hunt : HuntParams → Run W ClavenarError HuntResult
  unfolding get_json
  hunt params = get_json p client codec.parse_hunt (
      push_text "tenant" params.tenant (
        push_text "demo_session_token" params.demo_session_token (
          push_text "to" params.to (
            push_text "from" params.from (
              push_bool "authorized" params.authorized (
                push_text "signal" params.signal (
                  push_text "method" params.method
                    ("audit/hunt?limit=" <> show_int params.limit))))))))
