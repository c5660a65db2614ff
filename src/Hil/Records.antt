-- ===== src/Hil/Records.antt =====
-- The requests and answers of the review service (src/hil.rs). Times are their RFC 3339 texts, and a
-- status code is its number.
use clavenar_sdk.Prelude.{ℕ, Bool, String, Option, List}
use clavenar_sdk.Prelude.Int.{ℤ}
use clavenar_sdk.Json.{Value, Float}
use clavenar_sdk.Records.{Uuid}

pub record ArgumentScalarReplacement : Type 0 where
  pub path : List String
  pub value : Value

pub record ModificationDiff : Type 0 where
  pub contract : String
  pub replacements : List ArgumentScalarReplacement

pub data DecisionPrincipalMethod : Type 0 where
  oidc saml basic_admin operator_mtls : DecisionPrincipalMethod

pub record ConsolePrincipalClaim : Type 0 where
  pub subject : String
  pub tenant : String
  pub method : DecisionPrincipalMethod

pub data PendingStatus : Type 0 where
  pending approved denied expired : PendingStatus

pub record HilRetentionMetadata : Type 0 where
  pub retention_policy : String
  pub retention_purpose : String
  pub retention_tier : String
  pub payload_protection : String
  pub payload_key_id : String
  pub protected_at : String
  pub payload_retention_expires_at : String
  pub metadata_retention_expires_at : String
  pub payload_availability : String
  pub minimization_profile : String
  pub minimized_payload : Value

pub record PendingRequest : Type 0 where
  pub id : Uuid
  pub correlation_id : Uuid
  pub agent_id : String
  pub method : String
  pub request_payload : Value
  pub risk_summary : String
  pub created_at : String
  pub ttl_seconds : ℤ
  pub status : PendingStatus
  pub decided_at : Option String
  pub decided_by : Option String
  pub decision_reason : Option String
  pub modified_payload : Option Value
  pub modification_diff : Option ModificationDiff
  pub original_payload_digest : Option String
  pub reviewed_payload_digest : Option String
  pub candidate_execution_payload_digest : Option String
  pub sandbox_report : Option Value
  pub delegation_jti : Option String
  pub human_sub : Option String
  pub approver_assertion : Option Value
  pub escalated_at : Option String
  pub incident_summary : Option String
  pub grant_max_uses : Option ℤ
  pub grant_not_before : Option ℤ
  pub grant_not_after : Option ℤ
  pub grant_recurrence_summary : Option String
  pub brain_scores : Option Value
  pub required_approvers : Option ℤ
  pub approvals : Option Value
  pub assigned_to : Option String
  pub escalation_pool : Option String
  pub projected_cost_micros : Option ℤ
  pub approval_tier : Option String
  pub tenant : Option String
  pub retention : Option HilRetentionMetadata

pub data Decision : Type 0 where
  approve deny modify : Decision

pub record DecideRequest : Type 0 where
  pub decision : Decision
  pub decided_by : String
  pub reason : Option String
  pub modification_diff : Option ModificationDiff
  pub approver_assertion : Option Value
  pub decided_via : Option String
  pub tenant : Option String

pub record DecisionLinkPending : Type 0 where
  pub agent_id : String
  pub method : String
  pub tool : Option String
  pub risk_summary : String
  pub status : String
  pub correlation_id : String
  pub tenant : Option String

pub record DecisionLinkVerify : Type 0 where
  pub valid : Bool
  pub reason : String
  pub pending_id : Option Uuid
  pub action : Option String
  pub pending : Option DecisionLinkPending

pub data HilTenantLifecycleKind : Type 0 where
  provision offboard : HilTenantLifecycleKind

pub record HilTenantLifecycleReceipt : Type 0 where
  pub tenant : String
  pub operation_id : Uuid
  pub kind : HilTenantLifecycleKind
  pub state : String
  pub generation : ℤ
  pub pending_denied : ℤ
  pub rows_erased : ℤ
  pub rows_held : ℤ
  pub deletion_audits : ℤ
  pub receipt_sha256 : String
  pub updated_at : String

pub record HilTenantLifecycleRequest : Type 0 where
  pub operation_id : Uuid
  pub kind : HilTenantLifecycleKind

pub data HilLegalHoldAction : Type 0 where
  apply release : HilLegalHoldAction

pub record HilLegalHoldReceipt : Type 0 where
  pub contract : String
  pub operation_id : Uuid
  pub action : HilLegalHoldAction
  pub hold_id : Uuid
  pub state : String
  pub deletion_disposition : Option String
  pub receipt_sha256 : String
  pub updated_at : String

pub record HilLegalHoldRequest : Type 0 where
  pub operation_id : Uuid
  pub action : HilLegalHoldAction
  pub hold_id : Uuid
  pub authority_reason_sha256 : String

pub record ChannelStatus : Type 0 where
  pub slack : Bool
  pub teams : Bool
  pub pagerduty : Bool
  pub webhook : Bool
  pub smtp : Bool
  pub escalation_pools : List String

pub record ApproverStat : Type 0 where
  pub decided_by : String
  pub count : ℕ
  pub deny_rate : Float
  pub median_secs : Option Float

pub record ApprovalStats : Type 0 where
  pub window : String
  pub pending_count : ℕ
  pub oldest_pending_secs : Option Float
  pub total_decided : ℕ
  pub approved : ℕ
  pub modified : ℕ
  pub denied : ℕ
  pub expired : ℕ
  pub deny_rate : Option Float
  pub median_time_to_decide_secs : Option Float
  pub p95_time_to_decide_secs : Option Float
  pub by_approver : List ApproverStat

pub record UserIdentities : Type 0 where
  pub oidc_sub : String
  pub slack_user_id : Option String
  pub teams_user_id : Option String
  pub linked_at : String
  pub last_verified : String

pub record AuthProxyResponse : Type 0 where
  pub status : ℕ
  pub body : Value
  pub set_cookies : List String
