-- ===== src/Execution/Complete.antt =====
-- The completion of a known effect (src/execution.rs): the signed receipt, its durable commit and
-- its delivery.
use clavenar_sdk.Prelude.{◌||◌, ◌&&◌, String, ◌<>◌, [], ◌/=◌, nat_eq, string_eq}
use clavenar_sdk.Effects.{Result, ok, map_err, Run, pure, lift, on_err, ◌>>=◌, ◌>>◌}
use clavenar_sdk.Effects.Plain
use clavenar_sdk.Effects.Plain.{reject_if}
use clavenar_sdk.Error.{ClavenarError, decode, invalid_config}
use clavenar_sdk.Client.{
  json_receipt, HttpRequest, DurableExecutionStore, ClavenarClient, Machine, committed, marked,
  logged,
}
use clavenar_sdk.Http.{read_text_limited}
use clavenar_sdk.Json.Canonical.{canonical_json_value, sha256}
use clavenar_sdk.Platform.{Platform, SigningKey}
use clavenar_sdk.Records.{
  SignedAuthorization, UnsignedExecutionReceipt, ExecutionReceipt, ExecutionCompletion,
  ExecutionEffect, ReceiptOutboxEntry, ReceiptRecorded, ExecutionOutcome,
}
use clavenar_sdk.Records.Equality.{receipt_eq}
use clavenar_sdk.Execution.Contracts.{execution_contract, durable_execution_outbox_wire_contract}
use clavenar_sdk.Execution.Validation.{validate_outbox_entry}
use clavenar_sdk.Execution.Authorize.{Action, bearer_of, send}
use clavenar_sdk.Execution.Decision.{execution_http_error}

pub data KnownEffectCompletionError : Type 0 where
  persistence_uncertain : KnownEffectCompletionError
  receipt_delivery : ClavenarError → KnownEffectCompletionError

module _ (p : Platform) where
  unfoldable pub unsigned_receipt : SignedAuthorization → ExecutionEffect → UnsignedExecutionReceipt
  unsigned_receipt signed effect =
      let claims = signed.authorization in
      record {
        contract = execution_contract;
        stage = "execution.completed";
        authorization_id = claims.authorization_id;
        idempotency_id = claims.idempotency_id;
        correlation_id = claims.correlation_id;
        agent_id = claims.agent_id;
        agent_spiffe = claims.agent_spiffe;
        tenant = claims.tenant;
        credential_fingerprint = claims.credential_fingerprint;
        method = claims.method;
        payload_sha256 = claims.payload_sha256;
        authorization = signed;
        result_sha256 = sha256 p (canonical_json_value p effect.result);
        effect_id = effect.effect_id;
      }

  unfoldable pub canonical_json : UnsignedExecutionReceipt → Result ClavenarError String
  canonical_json unsigned =
      Plain.◌>>=◌ (map_err decode (p.receipt_to_value unsigned))
        λ value. ok (canonical_json_value p value)

  -- The receipt, with the signature of its canonical unsigned text.
  unfoldable pub signed_receipt :
      SigningKey → SignedAuthorization → ExecutionEffect → String → ExecutionReceipt
  unfolding unsigned_receipt
  signed_receipt signing_key signed effect canonical_unsigned =
      let claims = signed.authorization in
      record {
        contract = execution_contract;
        stage = "execution.completed";
        authorization_id = claims.authorization_id;
        idempotency_id = claims.idempotency_id;
        correlation_id = claims.correlation_id;
        agent_id = claims.agent_id;
        agent_spiffe = claims.agent_spiffe;
        tenant = claims.tenant;
        credential_fingerprint = claims.credential_fingerprint;
        method = claims.method;
        payload_sha256 = claims.payload_sha256;
        authorization = signed;
        result_sha256 = sha256 p (canonical_json_value p effect.result);
        effect_id = effect.effect_id;
        workload_signature = record {
          algorithm = "ES256";
          credential_fingerprint = claims.credential_fingerprint;
          value = p.base64_url (p.sign signing_key canonical_unsigned);
        };
      }

  unfoldable pub completion_of :
      SignedAuthorization → ExecutionEffect → String → ExecutionReceipt → ExecutionCompletion
  completion_of signed effect executor_id receipt = record {
    contract = durable_execution_outbox_wire_contract;
    stage = "execution.effect-recorded";
    authorization_id = signed.authorization.authorization_id;
    idempotency_id = signed.authorization.idempotency_id;
    executor_id = executor_id;
    actual_result = effect.result;
    actual_result_sha256 = sha256 p (canonical_json_value p effect.result);
    effect_id = effect.effect_id;
    receipt = receipt;
  }

  module _ {W : Type 0} (client : ClavenarClient W) where
    abbrev pub receipt_request : String → ExecutionReceipt → HttpRequest
    receipt_request endpoint receipt = record {
      endpoint = endpoint;
      headers = [];
      bearer = bearer_of client.auth;
      body = json_receipt receipt;
    }

    unfoldable pub record_receipt : ExecutionReceipt → Action W ReceiptRecorded
    record_receipt receipt = do
      endpoint ← lift (
          map_err (λ e. invalid_config ("join /execution-receipts: " <> e))
            (p.url_join client.base_url "execution-receipts"))
      response ← send client (receipt_request endpoint receipt)
      raw ← lift (read_text_limited p response)
      lift (
          reject_if (response.status /= 200 && response.status /= 201)
            (execution_http_error response.status raw))
      lift (map_err decode (p.parse_receipt_recorded raw))

    module _ (store : DurableExecutionStore W) where
      unfoldable pub deliver_outbox_entry : ReceiptOutboxEntry → Action W ReceiptRecorded
      unfolding record_receipt
      deliver_outbox_entry entry = do
        lift (validate_outbox_entry entry)
        recorded ← record_receipt entry.receipt
        lift (
            reject_if
              (recorded.authorization_id /= entry.receipt.authorization_id
                || (recorded.contract /= execution_contract
                    || recorded.stage /= "execution.completed"))
              (invalid_config "Proxy returned invalid receipt persistence metadata"))
        logged (marked entry.outbox_id recorded)
            (store.mark_receipt_delivered entry.outbox_id recorded)
        pure recorded

      unfoldable pub complete_known_effect :
          SigningKey
          → SignedAuthorization
          → ExecutionEffect
          → String
          → Run (Machine W) KnownEffectCompletionError ExecutionOutcome
      unfolding deliver_outbox_entry signed_receipt completion_of canonical_json
      complete_known_effect signing_key signed effect executor_id = do
        canonical_unsigned ←
            lift (
              map_err (λ _. persistence_uncertain)
                (canonical_json (unsigned_receipt signed effect)))
        let receipt = signed_receipt signing_key signed effect canonical_unsigned
        let completion = completion_of signed effect executor_id receipt
        queued ←
            on_err (λ _. persistence_uncertain)
              (logged (committed completion) (store.commit_effect_and_enqueue_receipt completion))
        lift (reject_if (queued.receipt /= receipt) persistence_uncertain)
        recorded ← on_err receipt_delivery (deliver_outbox_entry queued)
        pure (record { receipt = recorded; result = effect.result; effect_id = effect.effect_id })
