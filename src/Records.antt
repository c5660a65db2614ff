-- ===== src/Records.antt =====
-- The data of src/execution.rs: requests, authorizations, receipts, durable intents and the
-- handles for pending and uncertain work. A UUID is its 128-bit number, and the nil UUID is 0.
-- A `u8`, `usize`, `u64` is the number; the one signed field, `ttl_seconds`, is an `I64`.
pub mod Equality
use clavenar_sdk.Prelude.{ℕ, Bool, String, Option, List}
use clavenar_sdk.Json.{Value}

abbrev pub Uuid : Type 0
Uuid = ℕ

-- An `i64`: `negative n` is -(n + 1).
pub data I64 : Type 0 where
  positive : ℕ → I64
  negative : ℕ → I64

pub record ModelToolCall : Type 0 where
  pub id : String
  pub name : String
  pub arguments : Value

pub record PreparedToolRequest : Type 0 where
  pub idempotency_id : Uuid
  pub name : String
  pub arguments : Value

pub record PreparedToolBatch : Type 0 where
  pub idempotency_id : Uuid
  pub calls : List ModelToolCall

pub record AtomicBatchArguments : Type 0 where
  pub contract : String
  pub calls : List ModelToolCall

pub record AtomicBatchParams : Type 0 where
  pub name : String
  pub arguments : AtomicBatchArguments

pub record AtomicBatchEnvelope : Type 0 where
  pub jsonrpc : String
  pub id : String
  pub method : String
  pub params : AtomicBatchParams

pub record IdentitySignature : Type 0 where
  pub algorithm : String
  pub key_id : String
  pub value : String

pub record PolicyBundleProvenance : Type 0 where
  pub schema_version : ℕ
  pub version : String
  pub hash_sha256 : String
  pub policy_count : ℕ

pub record Authorization : Type 0 where
  pub contract : String
  pub stage : String
  pub authorization_id : Uuid
  pub idempotency_id : Uuid
  pub correlation_id : Uuid
  pub agent_id : String
  pub agent_spiffe : String
  pub tenant : String
  pub credential_fingerprint : String
  pub method : String
  pub tool_name : String
  pub execution_payload : Value
  pub payload_sha256 : String
  pub decision_principal : Value
  pub modification_diff : Option Value
  pub policy_bundle : PolicyBundleProvenance
  pub brain_version : String
  pub brain_evidence_sha256 : String

pub record SignedAuthorization : Type 0 where
  pub authorization : Authorization
  pub identity_signature : IdentitySignature

pub record WorkloadSignature : Type 0 where
  pub algorithm : String
  pub credential_fingerprint : String
  pub value : String

-- What the receipt's signature covers: the receipt without the signature.
pub record UnsignedExecutionReceipt : Type 0 where
  pub contract : String
  pub stage : String
  pub authorization_id : Uuid
  pub idempotency_id : Uuid
  pub correlation_id : Uuid
  pub agent_id : String
  pub agent_spiffe : String
  pub tenant : String
  pub credential_fingerprint : String
  pub method : String
  pub payload_sha256 : String
  pub authorization : SignedAuthorization
  pub result_sha256 : String
  pub effect_id : String

pub record ExecutionReceipt : Type 0 where
  pub contract : String
  pub stage : String
  pub authorization_id : Uuid
  pub idempotency_id : Uuid
  pub correlation_id : Uuid
  pub agent_id : String
  pub agent_spiffe : String
  pub tenant : String
  pub credential_fingerprint : String
  pub method : String
  pub payload_sha256 : String
  pub authorization : SignedAuthorization
  pub result_sha256 : String
  pub effect_id : String
  pub workload_signature : WorkloadSignature

pub record ExecutionIntent : Type 0 where
  pub contract : String
  pub stage : String
  pub authorization_id : Uuid
  pub idempotency_id : Uuid
  pub tenant : String
  pub workload_id : String
  pub workload_spiffe : String
  pub payload_sha256 : String
  pub executor_id : String
  pub authorization : SignedAuthorization

pub data EffectAuthorizationUse : Type 0 where
  direct single_use : EffectAuthorizationUse

pub data EffectAttemptClaim : Type 0 where
  started already_in_flight already_completed : EffectAttemptClaim

pub record ToolExecutionRequest : Type 0 where
  pub idempotency_id : Uuid
  pub authorization_id : Uuid
  pub executor_id : String
  pub execution_payload : Value

pub record EffectLookupRequest : Type 0 where
  pub authorization_id : Uuid
  pub idempotency_id : Uuid
  pub executor_id : String
  pub payload_sha256 : String

pub record ExecutionCompletion : Type 0 where
  pub contract : String
  pub stage : String
  pub authorization_id : Uuid
  pub idempotency_id : Uuid
  pub executor_id : String
  pub actual_result : Value
  pub actual_result_sha256 : String
  pub effect_id : String
  pub receipt : ExecutionReceipt

pub record ReceiptOutboxEntry : Type 0 where
  pub outbox_id : String
  pub receipt : ExecutionReceipt

pub record ExecutionEffect : Type 0 where
  pub result : Value
  pub effect_id : String

pub data EffectLookupOutcome : Type 0 where
  found : ExecutionEffect → EffectLookupOutcome
  not_found ambiguous : EffectLookupOutcome

pub record ReceiptRecorded : Type 0 where
  pub status : String
  pub contract : String
  pub stage : String
  pub authorization_id : Uuid
  pub receipt_sha256 : String

pub data AuthorizationClaim : Type 0 where
  claimed already_claimed : AuthorizationClaim

pub data UncertainEffectReason : Type 0 where
  in_flight_after_prior_attempt executor_outcome_unknown : UncertainEffectReason
  lookup_not_registered lookup_unavailable effect_not_found : UncertainEffectReason
  lookup_ambiguous lookup_invalid durable_intent_unavailable : UncertainEffectReason
  reconciled_effect_persistence_failed : UncertainEffectReason

pub record UncertainExecution : Type 0 where
  pub contract : String
  pub status : String
  pub reason : UncertainEffectReason
  pub authorization_id : Uuid
  pub idempotency_id : Uuid
  pub tenant : String
  pub workload_id : String
  pub workload_spiffe : String
  pub payload_sha256 : String
  pub executor_id : String
  pub effect_lookup_registered : Bool

pub record PendingAuthorization : Type 0 where
  pub contract : String
  pub status : String
  pub pending_id : Uuid
  pub idempotency_id : Uuid
  pub correlation_id : Uuid
  pub payload_sha256 : String
  pub ttl_seconds : I64
  pub poll_after_ms : ℕ

pub data AuthorizationState : Type 0 where
  authorized : SignedAuthorization → AuthorizationState
  pending : PendingAuthorization → AuthorizationState

pub record ExecutionOutcome : Type 0 where
  pub receipt : ReceiptRecorded
  pub result : Value
  pub effect_id : String

pub data ResumableExecutionOutcome : Type 0 where
  pending : PendingAuthorization → ResumableExecutionOutcome
  completed : ExecutionOutcome → ResumableExecutionOutcome

pub data ExecutionReconciliationOutcome : Type 0 where
  completed : ExecutionOutcome → ExecutionReconciliationOutcome
  uncertain : UncertainExecution → ExecutionReconciliationOutcome
