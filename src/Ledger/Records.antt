-- ===== src/Ledger/Records.antt =====
-- The rows, exports and registers of the audit ledger, and the filters of its queries
-- (src/ledger.rs). Times are their RFC 3339 texts.
use clavenar_sdk.Prelude.{ℕ, Bool, String, Option, List}
use clavenar_sdk.Prelude.Int.{ℤ}
use clavenar_sdk.Json.{Value}
use clavenar_sdk.Records.{Uuid}

pub record LedgerEntry : Type 0 where
  pub id : Uuid
  pub timestamp : String
  pub agent_id : String
  pub method : String
  pub intent_category : String
  pub authorized : Bool
  pub reasoning : String
  pub policy_decision : Option Value
  pub seq : ℤ
  pub prev_hash : String
  pub entry_hash : String
  pub correlation_id : Option String
  pub chain_version : ℤ
  pub source : Option String
  pub signal : Option String
  pub event_kind : Option String
  pub tenant : Option String
  pub agent_name : Option String
  pub actor_sub : Option String
  pub actor_idp : Option String
  pub payload_sha256 : Option String
  pub signature : Option String
  pub key_id : Option String
  pub agent_spiffe : Option String
  pub approver_assertion : Option String
  pub brain_evidence_sha256 : Option String
  pub brain_scores : Option Value
  pub tool_params_sha256 : Option String
  pub credential_fingerprint : Option String
  pub tool_name : Option String

pub record LifecycleRow : Type 0 where
  pub entry : LedgerEntry
  pub payload : Option Value

pub record ExportRecord : Type 0 where
  pub snapshot_id : Uuid
  pub written_at : String
  pub data_uri : String
  pub manifest_uri : String
  pub data_sha256 : String
  pub byte_size : ℕ
  pub row_count : ℕ
  pub seq_lo : ℤ
  pub seq_hi : ℤ

pub record AnchorSummary : Type 0 where
  pub anchored_seq : ℤ
  pub anchored_entry_hash : String
  pub source : String
  pub status : String
  pub gen_time : Option String
  pub proof_sha256 : Option String
  pub anchored_at : Option String
  pub chain_match : Option Bool

pub record VerifyResult : Type 0 where
  pub valid : Bool
  pub entries_checked : ℕ
  pub first_invalid_seq : Option ℤ
  pub unsupported_chain_version : Option ℤ
  pub anchors : List AnchorSummary
  pub anchor_mismatch : Option Bool

pub record CorpusEntry : Type 0 where
  pub correlation_id : Option String
  pub captured_at : String
  pub agent_id : String
  pub method : String
  pub input : Value
  pub historical_verdict : Value

pub record ReplayCorpus : Type 0 where
  pub corpus : List CorpusEntry
  pub total_in_window : ℤ
  pub returned : ℤ
  pub sampled : Bool

pub record ReplayCorpusParams : Type 0 where
  pub since : String
  pub until : Option String
  pub agent_id : Option String
  pub tool_type : Option String
  pub tenant_prefix : Option String
  pub limit : ℤ

pub record RegulatoryExportOptions : Type 0 where
  pub tenant : Option String
  pub readme : Option (List ℕ)
  pub include_exports : Bool
  pub include_compliance : Bool

pub data LedgerTenantLifecycleKind : Type 0 where
  final_export tombstone : LedgerTenantLifecycleKind

pub record LedgerTenantLifecycleReceipt : Type 0 where
  pub tenant : String
  pub operation_id : Uuid
  pub kind : LedgerTenantLifecycleKind
  pub state : String
  pub generation : ℤ
  pub rows_affected : ℤ
  pub artifact_sha256 : Option String
  pub artifact_bytes : Option ℕ
  pub receipt_sha256 : String
  pub updated_at : String

pub record LedgerTenantLifecycleRequest : Type 0 where
  pub operation_id : Uuid
  pub kind : LedgerTenantLifecycleKind

pub record ComplianceEvidenceScope : Type 0 where
  pub demo_session_token : Option String
  pub tenant : Option String

pub data EvidenceStatus : Type 0 where
  satisfied partial no_data : EvidenceStatus

pub record ControlEvidence : Type 0 where
  pub control_id : String
  pub framework : String
  pub title : String
  pub status : EvidenceStatus
  pub metric : Value
  pub sample_seqs : List ℤ
  pub narrative : String

pub record ChainVerifySummary : Type 0 where
  pub valid : Bool
  pub entries_checked : ℕ
  pub first_invalid_seq : Option ℤ

pub record RegisterWindow : Type 0 where
  pub from : String
  pub to : String

pub record ComplianceRegister : Type 0 where
  pub schema_version : String
  pub generated_at : String
  pub window : RegisterWindow
  pub row_count : ℕ
  pub chain_verify : ChainVerifySummary
  pub controls : List ControlEvidence
  pub disclaimer : String

pub record LogEntry : Type 0 where
  pub state_namespace : String
  pub agent_id : String
  pub method : String
  pub intent_category : String
  pub authorized : Bool
  pub reasoning : String
  pub policy_decision : Option Value
  pub correlation_id : Option String
  pub source : Option String

pub record LogReceipt : Type 0 where
  pub status : String
  pub seq : ℤ
  pub entry_hash : String

pub record HuntParams : Type 0 where
  pub method : Option String
  pub signal : Option String
  pub authorized : Option Bool
  pub from : Option String
  pub to : Option String
  pub limit : ℤ
  pub demo_session_token : Option String
  pub tenant : Option String

pub record AuditFilterParams : Type 0 where
  pub seq_from : Option ℤ
  pub seq_to : Option ℤ
  pub from : Option String
  pub to : Option String
  pub methods : List String
  pub original_method : Option String
  pub reason : Option String
  pub verdict : Option String
  pub brain_delta : Option String

pub data ExportOutcome : Type 0 where
  nothing_to_export : ExportOutcome
  wrote : ExportRecord → ExportOutcome
