-- ===== src/Ledger/Meters.antt =====
-- The spend, the active-agent meter and the cases of the audit ledger (src/ledger.rs). Times are
-- their RFC 3339 texts.
use clavenar_sdk.Prelude.{ℕ, Bool, String, Option, List}
use clavenar_sdk.Prelude.Int.{ℤ}
use clavenar_sdk.Records.{Uuid}
use clavenar_sdk.Ledger.Records.{LedgerEntry}

pub record SpendAgentRow : Type 0 where
  pub agent_id : String
  pub agent_name : Option String
  pub spend_micros : ℤ
  pub request_count : ℤ
  pub priced_count : ℤ
  pub latest_ts : Option String

pub record SpendRollup : Type 0 where
  pub window : Option String
  pub agents : List SpendAgentRow
  pub total_spend_micros : ℤ
  pub total_requests : ℤ
  pub total_priced : ℤ
  pub returned : ℤ

pub record ActiveAgentMeterRow : Type 0 where
  pub agent_key : String
  pub qualified_events : ℕ
  pub late_events : ℕ
  pub first_qualified_at : String
  pub last_qualified_at : String
  pub source_commitment : String

pub data ActiveAgentAdjustmentKind : Type 0 where
  credit correction : ActiveAgentAdjustmentKind

pub record ActiveAgentAppliedAdjustment : Type 0 where
  pub idempotency_key : Uuid
  pub kind : ActiveAgentAdjustmentKind
  pub units_delta : ℤ
  pub agent_key : Option String
  pub reason : String
  pub recorded_at : String
  pub source_entry_id : Uuid
  pub source_entry_hash : String

pub record ActiveAgentMeterWindow : Type 0 where
  pub kind : String
  pub days : ℤ
  pub from : String
  pub to : String

pub record ActiveAgentFinalization : Type 0 where
  pub late_event_grace_hours : ℤ
  pub final_at : String
  pub status : String

pub record ActiveAgentMeterSource : Type 0 where
  pub qualification : String
  pub deduplication : String
  pub qualified_event_count : ℕ
  pub late_event_count : ℕ
  pub event_commitment : String
  pub adjustment_commitment : String
  pub chain_length : ℤ
  pub chain_head : Option String

pub record ActiveAgentInvoice : Type 0 where
  pub contract : String
  pub meter_version : String
  pub tenant : String
  pub window : ActiveAgentMeterWindow
  pub observed_through : String
  pub finalization : ActiveAgentFinalization
  pub agents : List ActiveAgentMeterRow
  pub base_active_agents : ℕ
  pub adjustments : List ActiveAgentAppliedAdjustment
  pub net_active_agents : ℤ
  pub source : ActiveAgentMeterSource
  pub invoice_sha256 : String

pub record ActiveAgentAdjustment : Type 0 where
  pub contract : String
  pub meter_version : String
  pub tenant : String
  pub target_as_of : String
  pub idempotency_key : Uuid
  pub kind : ActiveAgentAdjustmentKind
  pub units_delta : ℤ
  pub agent_key : Option String
  pub reason : String

pub record ActiveAgentAdjustmentReceipt : Type 0 where
  pub retained : Bool
  pub adjustment_sha256 : String
  pub entry_id : Uuid
  pub entry_seq : ℤ
  pub entry_hash : String

pub record CaseTimelineEvent : Type 0 where
  pub at : String
  pub kind : String
  pub actor : String
  pub detail : String

pub record CaseRecord : Type 0 where
  pub id : String
  pub title : String
  pub status : String
  pub created_at : String
  pub updated_at : String
  pub agent_ids : List String
  pub correlation_ids : List String
  pub timeline : List CaseTimelineEvent
  pub severity : Option String
  pub regulatory_deadline : Option String

pub record CaseDetail : Type 0 where
  pub case : CaseRecord
  pub evidence : List LedgerEntry
