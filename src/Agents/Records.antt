-- ===== src/Agents/Records.antt =====
-- The requests and answers of the agent registry (src/agents.rs). Times are their RFC 3339 texts.
use clavenar_sdk.Prelude.{ℕ, Bool, String, Option, List}
use clavenar_sdk.Prelude.Int.{ℤ}
use clavenar_sdk.Json.{Value}
use clavenar_sdk.Agents.{AgentState, AgentRecord}

pub record TenantBudget : Type 0 where
  pub tenant : String
  pub budget_micros : Option ℤ
  pub updated_at : Option String
  pub updated_by : Option String

pub record TenantOffboardResult : Type 0 where
  pub tenant : String
  pub agents_decommissioned : ℕ
  pub upstreams_retired : ℕ
  pub budget_cleared : Bool

pub data TenantLifecycleKind : Type 0 where
  provision offboard : TenantLifecycleKind

pub data TenantLifecycleOperationState : Type 0 where
  pending running waiting_retry manual_recovery compensating compensated succeeded :
      TenantLifecycleOperationState

pub data TenantLifecycleStepState : Type 0 where
  pending running retryable manual_recovery compensating compensated skipped succeeded :
      TenantLifecycleStepState

pub record TenantLifecycleStep : Type 0 where
  pub id : String
  pub order : ℤ
  pub owner : String
  pub effect : String
  pub compensation : String
  pub state : TenantLifecycleStepState
  pub attempts : ℤ
  pub lease_expires_at : Option String
  pub next_retry_at : Option String
  pub receipt_sha256 : Option String
  pub receipt : Option Value
  pub last_error : Option String
  pub updated_at : String

pub record TenantLifecycleOperation : Type 0 where
  pub id : String
  pub tenant : String
  pub kind : TenantLifecycleKind
  pub idempotency_key : String
  pub intent_sha256 : String
  pub reason : String
  pub state : TenantLifecycleOperationState
  pub actor_sub : String
  pub actor_idp : String
  pub created_at : String
  pub updated_at : String
  pub steps : List TenantLifecycleStep

pub record TenantLifecycleStepClaim : Type 0 where
  pub operation : TenantLifecycleOperation
  pub step_id : String
  pub lease_token : String
  pub lease_expires_at : String

pub data TenantLifecycleStepOutcome : Type 0 where
  succeeded retryable manual_recovery : TenantLifecycleStepOutcome

pub record TenantLifecycleStepCompletion : Type 0 where
  pub lease_token : String
  pub outcome : TenantLifecycleStepOutcome
  pub receipt : Option Value
  pub error : Option String

pub record CertificationCase : Type 0 where
  pub id : String
  pub category : String
  pub expected : String
  pub observed : String
  pub passed : Bool

pub record CertificationRequest : Type 0 where
  pub sdk_version : String
  pub proxy_url : String
  pub catalog_sha256 : String
  pub cases : List CertificationCase
  pub total : ℕ
  pub passed : ℕ

pub record CertificateBody : Type 0 where
  pub schema : String
  pub agent_id : String
  pub tenant : String
  pub agent_name : String
  pub sdk_version : String
  pub proxy_url : String
  pub catalog_sha256 : String
  pub cases : List CertificationCase
  pub total : ℕ
  pub passed : ℕ
  pub certified_at : String

pub record SignedCertificate : Type 0 where
  pub certificate : CertificateBody
  pub certificate_sha256 : String
  pub signature : String
  pub key_id : String
  pub algorithm : String

pub record AgentListFilter : Type 0 where
  pub state : Option AgentState
  pub owner_team : Option String

pub record OrphanWorkload : Type 0 where
  pub agent_name : String
  pub last_seen : String
  pub svid_count : ℤ

pub record AgentCreated : Type 0 where
  pub agent : AgentRecord
  pub spiffe_id_pattern : String

pub record EnvelopeRequest : Type 0 where
  pub scope_envelope : List String
  pub yellow_envelope : List String
  pub reason : Option String

pub record LifecycleRequest : Type 0 where
  pub reason : Option String

pub record LifecycleResponse : Type 0 where
  pub state : AgentState
  pub state_changed_at : String

pub record ForceHilFlag : Type 0 where
  pub expires_at : String
  pub reason : Option String
  pub correlation_id : Option String
  pub applied_at : String
  pub actor : String

pub record ContainmentStatus : Type 0 where
  pub force_hil : Option ForceHilFlag

pub record GrantConsumption : Type 0 where
  pub jti : String
  pub agent_spiffe : String
  pub human_sub : String
  pub max_uses : Option ℕ
  pub uses : ℕ
  pub not_before : Option String
  pub not_after : Option String
  pub exp : String
  pub recurrence_summary : Option String

pub record GrantsResponse : Type 0 where
  pub grants : List GrantConsumption
