-- ===== src/Execution/Validation.antt =====
-- The checks of src/execution.rs on what callers, Proxy and the durable store hand in.
pub mod Authorization
pub mod Calls
pub mod Batch
use Prim.Native.Char.{code}
use clavenar_sdk.Prelude.{
  ℕ, Bool, true, not, ◌&&◌, ◌||◌, String, len, starts_with, List, [], ◌∷◌, map, length, contains,
  ltb, leb, ◌==◌, ◌/=◌, is_some, nat_eq, string_eq, if◌then◌else◌,
}
use clavenar_sdk.Effects.{Result, ok, err, map_err}
use clavenar_sdk.Effects.Plain.{◌>>=◌, ◌>>◌, reject_if}
use clavenar_sdk.Error.{ClavenarError, invalid_config}
use clavenar_sdk.Json.{Value, value_eq}
use clavenar_sdk.Json.Canonical.{canonical_json_value, sha256}
use clavenar_sdk.Platform.{Platform}
use clavenar_sdk.Records.{
  Uuid, I64, positive, negative, ModelToolCall, PreparedToolRequest, PreparedToolBatch,
  SignedAuthorization, ExecutionIntent, ExecutionEffect, UncertainExecution, PendingAuthorization,
  ReceiptOutboxEntry, AtomicBatchEnvelope,
}
use clavenar_sdk.Records.Equality.{strings_eq}
use clavenar_sdk.Execution.Contracts.{
  execution_contract, pending_authorization_contract, atomic_tool_call_batch_contract,
  atomic_tool_call_batch_method, atomic_tool_call_batch_name,
  durable_execution_outbox_wire_contract, uncertain_effect_contract, max_batch_calls,
}

abbrev pub Checked : Type 0
Checked = Result ClavenarError (Unit {0})

abbrev reject : Bool → String → Checked
reject test why = reject_if test (invalid_config why)

abbrev pub is_empty : String → Bool
is_empty s = s == ""

abbrev pub is_nil : Uuid → Bool
is_nil id = id == 0

-- `s.is_empty() || s.len() > 256`
abbrev pub out_of_bounds : String → Bool
out_of_bounds s = is_empty s || ltb 256 (len s)

unfoldable pub is_ascii_graphic : ℕ → Bool
is_ascii_graphic c = leb 33 c && leb c 126

unfoldable pub all_chars : (ℕ → Bool) → String → Bool
all_chars test String.[] = true
all_chars test (String.◌∷◌ c s) = test (code c) && all_chars test s

unfoldable pub validate_executor_id : String → Checked
unfolding is_ascii_graphic all_chars
validate_executor_id executor_id =
    reject (out_of_bounds executor_id || not (all_chars is_ascii_graphic executor_id))
      "executor identity must contain 1..=256 visible ASCII characters"

unfoldable pub validate_tool_name : String → Checked
validate_tool_name name = reject (out_of_bounds name) "tool name must contain 1..=256 characters"

unfoldable pub validate_execution_effect : ExecutionEffect → Checked
validate_execution_effect effect =
    reject (out_of_bounds effect.effect_id) "execution effect_id must contain 1..=256 characters"

-- The loop of `validate_model_tool_calls`, over the ids inserted so far.
unfoldable pub validate_calls : List String → List ModelToolCall → Checked
validate_calls ids [] = ok tt
validate_calls ids (call ∷ calls) =
    let rest = validate_calls (call.id ∷ ids) calls in
    if out_of_bounds call.id || contains ids call.id
    then err
        (invalid_config "atomic tool-call batch IDs must be unique and contain 1..=256 characters")
    else if out_of_bounds call.name
    then err (invalid_config "atomic tool-call names must contain 1..=256 characters")
    else rest

unfoldable pub validate_model_tool_calls : List ModelToolCall → Checked
unfolding validate_calls
validate_model_tool_calls calls = do
  reject (length calls == 0 || ltb max_batch_calls (length calls))
      "atomic tool-call batch must contain 1..=128 calls"
  validate_calls [] calls

-- `PreparedToolRequest::validate` and `PreparedToolBatch::validate`.
unfoldable pub validate_request : PreparedToolRequest → Checked
validate_request prepared = validate_tool_name prepared.name

unfoldable pub validate_batch : PreparedToolBatch → Checked
validate_batch prepared = validate_model_tool_calls prepared.calls

unfoldable pub validate_outbox_entry : ReceiptOutboxEntry → Checked
validate_outbox_entry entry =
    reject
      (out_of_bounds entry.outbox_id
        || (entry.receipt.contract /= execution_contract
            || (entry.receipt.stage /= "execution.completed"
                || entry.receipt.workload_signature.algorithm /= "ES256")))
      "durable execution store returned an invalid receipt outbox entry"

unfoldable pub validate_uncertain_execution : UncertainExecution → Checked
validate_uncertain_execution uncertain = do
  reject
      (uncertain.contract /= uncertain_effect_contract
        || (uncertain.status /= "uncertain"
            || (is_nil uncertain.authorization_id
                || (is_nil uncertain.idempotency_id
                    || (is_empty uncertain.tenant
                        || (is_empty uncertain.workload_id
                            || (is_empty uncertain.workload_spiffe
                                || (len uncertain.payload_sha256 /= 71
                                    || not (starts_with uncertain.payload_sha256 "sha256:")))))))))
      "invalid uncertain-effect reconciliation handle"
  validate_executor_id uncertain.executor_id

-- `ttl <= 0 || ttl > 86_400`
abbrev pub bad_ttl : I64 → Bool
bad_ttl (positive n) = n == 0 || ltb 86400 n
bad_ttl (negative n) = true

unfoldable pub call_ids : List ModelToolCall → List String
call_ids calls = map (λ (call : ModelToolCall). call.id) calls

abbrev pub invalid_batch : ClavenarError
invalid_batch = invalid_config "Proxy returned an invalid atomic tool-call batch authorization"

module _ (p : Platform) where
  unfoldable pub validate_pending_authorization : PendingAuthorization → Uuid → Value → Checked
  validate_pending_authorization pending idempotency_id body =
      reject
        (pending.contract /= pending_authorization_contract
          || (pending.status /= "pending"
              || (pending.idempotency_id /= idempotency_id
                  || (is_nil pending.pending_id
                      || (is_nil pending.correlation_id
                          || (pending.payload_sha256 /= sha256 p (canonical_json_value p body)
                              || (bad_ttl pending.ttl_seconds
                                  || (pending.poll_after_ms == 0
                                      || ltb 60000 pending.poll_after_ms))))))))
        "Proxy returned an invalid pending authorization handle"

  unfoldable pub validate_authorization : SignedAuthorization → Uuid → Checked
  validate_authorization signed idempotency_id =
      let claims = signed.authorization in
      reject
        (claims.contract /= execution_contract
          || (claims.stage /= "authorization"
              || (claims.idempotency_id /= idempotency_id
                  || (claims.payload_sha256
                        /= sha256 p (canonical_json_value p claims.execution_payload)
                      || signed.identity_signature.algorithm /= "Ed25519"))))
        "Proxy returned an invalid execution authorization"

  unfoldable pub validate_uncertain_intent : UncertainExecution → ExecutionIntent → Checked
  validate_uncertain_intent uncertain intent =
      let claims = intent.authorization.authorization in
      do
        validate_authorization intent.authorization intent.idempotency_id
        reject
            (intent.contract /= durable_execution_outbox_wire_contract
              || (intent.stage /= "execution.intent"
                  || (intent.authorization_id /= uncertain.authorization_id
                      || (intent.idempotency_id /= uncertain.idempotency_id
                          || (intent.tenant /= uncertain.tenant
                              || (intent.workload_id /= uncertain.workload_id
                                  || (intent.workload_spiffe /= uncertain.workload_spiffe
                                      || (intent.payload_sha256 /= uncertain.payload_sha256
                                          || (intent.executor_id /= uncertain.executor_id
                                              || (claims.authorization_id /= intent.authorization_id
                                                  || (claims.idempotency_id /= intent.idempotency_id
                                                      || (claims.tenant /= intent.tenant
                                                          || (claims.agent_id /= intent.workload_id
                                                            || (claims.agent_spiffe
                                                            /= intent.workload_spiffe
                                                            || claims.payload_sha256
                                                            /= intent.payload_sha256))))))))))))))
            "durable uncertain intent does not match its exact reconciliation handle"

  -- The checks on the envelope that Proxy signed.
  unfoldable pub check_envelope :
      SignedAuthorization → Uuid → List ModelToolCall → Value → AtomicBatchEnvelope → Checked
  unfolding call_ids
  check_envelope signed idempotency_id requested_calls requested_payload envelope = do
    validate_model_tool_calls envelope.params.arguments.calls
    reject_if
        (envelope.jsonrpc /= "2.0"
          || (envelope.id /= p.uuid_to_string idempotency_id
              || (envelope.method /= atomic_tool_call_batch_method
                  || (envelope.params.name /= atomic_tool_call_batch_name
                      || (envelope.params.arguments.contract /= atomic_tool_call_batch_contract
                          || (call_ids envelope.params.arguments.calls /= call_ids requested_calls
                              || (not (is_some signed.authorization.modification_diff)
                                  && signed.authorization.execution_payload
                                    /= requested_payload)))))))
        invalid_batch

  unfoldable pub validate_batch_authorization :
      SignedAuthorization → Uuid → List ModelToolCall → Value → Checked
  unfolding check_envelope
  validate_batch_authorization signed idempotency_id requested_calls requested_payload =
      map_err (λ _. invalid_batch)
        (p.batch_envelope_from_value signed.authorization.execution_payload)
      >>= check_envelope signed idempotency_id requested_calls requested_payload
