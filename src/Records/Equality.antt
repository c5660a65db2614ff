-- ===== src/Records/Equality.antt =====
-- The derived `PartialEq` of the records that src/execution.rs compares, field by field.
use clavenar_sdk.Prelude.{
  Bool, true, false, ◌&&◌, String, Option, none, some, List, [], ◌∷◌, Eq, ◌==◌, nat_eq, string_eq,
}
use clavenar_sdk.Json.{Value, value_eq}
use clavenar_sdk.Records.{
  I64, positive, negative, IdentitySignature, PolicyBundleProvenance, Authorization,
  SignedAuthorization, WorkloadSignature, ExecutionReceipt, PendingAuthorization,
}

abbrev pub i64_beq : I64 → I64 → Bool
i64_beq (positive a) (positive b) = a == b
i64_beq (negative a) (negative b) = a == b
i64_beq _ _ = false

instance abbrev pub i64_eq : Eq I64
i64_eq = record { beq = i64_beq }

unfoldable pub option_value_beq : Option Value → Option Value → Bool
option_value_beq none none = true
option_value_beq (some a) (some b) = a == b
option_value_beq _ _ = false

instance abbrev pub option_value_eq : Eq (Option Value)
option_value_eq = record { beq = option_value_beq }

-- `Vec<&str>`.
abbrev pub strings_beq : List String → List String → Bool
strings_beq [] [] = true
strings_beq (a ∷ as') (b ∷ bs) = a == b && strings_beq as' bs
strings_beq _ _ = false

instance abbrev pub strings_eq : Eq (List String)
strings_eq = record { beq = strings_beq }

unfoldable pub identity_signature_beq : IdentitySignature → IdentitySignature → Bool
identity_signature_beq a b =
    a.algorithm == b.algorithm && (a.key_id == b.key_id && a.value == b.value)

instance abbrev identity_signature_eq : Eq IdentitySignature
identity_signature_eq = record { beq = identity_signature_beq }

unfoldable pub policy_bundle_beq : PolicyBundleProvenance → PolicyBundleProvenance → Bool
policy_bundle_beq a b =
    a.schema_version == b.schema_version
    && (a.version == b.version
        && (a.hash_sha256 == b.hash_sha256 && a.policy_count == b.policy_count))

instance abbrev policy_bundle_eq : Eq PolicyBundleProvenance
policy_bundle_eq = record { beq = policy_bundle_beq }

unfoldable pub authorization_beq : Authorization → Authorization → Bool
authorization_beq a b =
    a.contract == b.contract
    && (a.stage == b.stage
        && (a.authorization_id == b.authorization_id
            && (a.idempotency_id == b.idempotency_id
                && (a.correlation_id == b.correlation_id
                    && (a.agent_id == b.agent_id
                        && (a.agent_spiffe == b.agent_spiffe
                            && (a.tenant == b.tenant
                                && (a.credential_fingerprint == b.credential_fingerprint
                                    && (a.method == b.method
                                        && (a.tool_name == b.tool_name
                                            && (a.execution_payload == b.execution_payload
                                                && (a.payload_sha256 == b.payload_sha256
                                                    && (a.decision_principal == b.decision_principal
                                                        && (a.modification_diff
                                                            == b.modification_diff
                                                            && (a.policy_bundle == b.policy_bundle
                                                            && (a.brain_version == b.brain_version
                                                            && a.brain_evidence_sha256
                                                            == b.brain_evidence_sha256))))))))))))))))

instance abbrev authorization_eq : Eq Authorization
authorization_eq = record { beq = authorization_beq }

unfoldable pub signed_authorization_beq : SignedAuthorization → SignedAuthorization → Bool
signed_authorization_beq a b =
    a.authorization == b.authorization && a.identity_signature == b.identity_signature

instance abbrev signed_authorization_eq : Eq SignedAuthorization
signed_authorization_eq = record { beq = signed_authorization_beq }

unfoldable pub workload_signature_beq : WorkloadSignature → WorkloadSignature → Bool
workload_signature_beq a b =
    a.algorithm == b.algorithm
    && (a.credential_fingerprint == b.credential_fingerprint && a.value == b.value)

instance abbrev workload_signature_eq : Eq WorkloadSignature
workload_signature_eq = record { beq = workload_signature_beq }

unfoldable pub receipt_beq : ExecutionReceipt → ExecutionReceipt → Bool
receipt_beq a b =
    a.contract == b.contract
    && (a.stage == b.stage
        && (a.authorization_id == b.authorization_id
            && (a.idempotency_id == b.idempotency_id
                && (a.correlation_id == b.correlation_id
                    && (a.agent_id == b.agent_id
                        && (a.agent_spiffe == b.agent_spiffe
                            && (a.tenant == b.tenant
                                && (a.credential_fingerprint == b.credential_fingerprint
                                    && (a.method == b.method
                                        && (a.payload_sha256 == b.payload_sha256
                                            && (a.authorization == b.authorization
                                                && (a.result_sha256 == b.result_sha256
                                                    && (a.effect_id == b.effect_id
                                                        && a.workload_signature
                                                          == b.workload_signature)))))))))))))

instance abbrev pub receipt_eq : Eq ExecutionReceipt
receipt_eq = record { beq = receipt_beq }

unfoldable pub pending_beq : PendingAuthorization → PendingAuthorization → Bool
pending_beq a b =
    a.contract == b.contract
    && (a.status == b.status
        && (a.pending_id == b.pending_id
            && (a.idempotency_id == b.idempotency_id
                && (a.correlation_id == b.correlation_id
                    && (a.payload_sha256 == b.payload_sha256
                        && (a.ttl_seconds == b.ttl_seconds
                            && a.poll_after_ms == b.poll_after_ms))))))

instance abbrev pub pending_eq : Eq PendingAuthorization
pending_eq = record { beq = pending_beq }
