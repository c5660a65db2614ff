-- ===== src/Tests/Recovery.antt =====
-- Reconciliation, redelivery, refused handles and batches of src/execution.rs at concrete inputs.
use clavenar_sdk.Prelude.{◌≡◌, ◌↔◌, refl, true, List, [], ◌∷◌}
use clavenar_sdk.Effects.{ok, is_err, attempt, lift, pure, raise, ◌>>=◌, on_err}
use clavenar_sdk.Client.{Machine, logged, asks}
use clavenar_sdk.Http.{read_body_limited, read_chunks, read_text_limited}
use clavenar_sdk.Json.{object, end, value_beq}
use clavenar_sdk.Json.Canonical.{sha256, canonical_json_value}
use clavenar_sdk.Platform.{Platform}
use clavenar_sdk.Records.{
  SignedAuthorization, UncertainExecution, ExecutionOutcome, executor_outcome_unknown,
  ModelToolCall, AtomicBatchEnvelope, ReceiptOutboxEntry, completed,
}
use clavenar_sdk.Records.Equality.{
  receipt_beq, signed_authorization_beq, authorization_beq, option_value_beq, policy_bundle_beq,
  identity_signature_beq, workload_signature_beq,
}
use clavenar_sdk.Execution.Authorize.{send}
use clavenar_sdk.Execution.Complete.{
  complete_known_effect, deliver_outbox_entry, record_receipt, canonical_json, unsigned_receipt,
  signed_receipt, completion_of,
}
use clavenar_sdk.Execution.Decision.{execution_http_error}
use clavenar_sdk.Execution.Execute.{
  Dependencies, execution_dependencies, require_uncertain_effect_store, uncertain_from_intent,
  intent_of, uncertain_with_reason,
}
use clavenar_sdk.Execution.Keeps.{IsProvided}
use clavenar_sdk.Execution.Outbox.{flush_execution_receipt_outbox, deliver_all}
use clavenar_sdk.Execution.Reconcile.{
  reconcile_uncertain_effect, after_load, check_intent, after_lookup, complete_found,
  after_reconciled_completion, lookup_request_of,
}
use clavenar_sdk.Execution.Session.{start}
use clavenar_sdk.Execution.Success.Reconciled.{
  IsReconciled, reconcile_uncertain_effect-IsReconciled,
}
use clavenar_sdk.Execution.Success.Flushed.{IsFlushed, flush_execution_receipt_outbox-IsFlushed}
use clavenar_sdk.Execution.Uncertain.{handle_of, IsReconcilable, validate_uncertain_execution_iff}
use clavenar_sdk.Execution.Validation.{
  validate_uncertain_execution, validate_uncertain_intent, validate_authorization,
  validate_execution_effect, validate_outbox_entry, validate_executor_id, is_ascii_graphic,
  all_chars, validate_model_tool_calls, validate_calls, validate_batch_authorization,
  check_envelope, call_ids,
}
use clavenar_sdk.Execution.Validation.Calls.{IsBatch, validate_model_tool_calls_iff}
use clavenar_sdk.Execution.Validation.Batch.{IsSameBatch, validate_batch_authorization-IsSameBatch}
use clavenar_sdk.Tests.World.{World, platform, client, key, signed, payload, effect, recorded}

abbrev handle : UncertainExecution
unfolding uncertain_from_intent intent_of
handle = uncertain_from_intent (intent_of "search-tool" signed) executor_outcome_unknown true

-- The store after a crash between the execution and its commit.
abbrev crashed : Machine World
unfolding intent_of
crashed =
    start (record { seen = 3 ∷ []; intents = intent_of "search-tool" signed ∷ []; outbox = [] })

abbrev outcome : ExecutionOutcome
outcome = record { receipt = recorded; result = effect.result; effect_id = effect.effect_id }

abbrev reconciled : Machine World
reconciled = (reconcile_uncertain_effect platform client handle crashed).1

completes :
    reconcile_uncertain_effect platform client handle crashed ≡ (ok (completed outcome), reconciled)
unfolding reconcile_uncertain_effect after_load check_intent after_lookup complete_found
    after_reconciled_completion lookup_request_of attempt lift pure raise ◌>>=◌ on_err logged asks
    send complete_known_effect deliver_outbox_entry record_receipt canonical_json unsigned_receipt
    signed_receipt completion_of intent_of uncertain_from_intent uncertain_with_reason
    validate_execution_effect validate_outbox_entry execution_http_error read_body_limited
    read_chunks read_text_limited receipt_beq signed_authorization_beq authorization_beq value_beq
    option_value_beq policy_bundle_beq identity_signature_beq workload_signature_beq sha256
    canonical_json_value execution_dependencies require_uncertain_effect_store validate_executor_id
    is_ascii_graphic all_chars validate_uncertain_execution validate_uncertain_intent
    validate_authorization
completes = refl

reconcile_uncertain_effect-IsReconciled_example :
    (deps : Dependencies World) × IsProvided client deps
    × (deps.executor.id ≡ handle.executor_id)
    × IsReconciled platform client handle deps outcome crashed reconciled
reconcile_uncertain_effect-IsReconciled_example =
    reconcile_uncertain_effect-IsReconciled platform client handle crashed outcome reconciled
      completes

-- A receipt that was committed but not delivered.
abbrev entry : ReceiptOutboxEntry
unfolding signed_receipt
entry = record { outbox_id = "outbox-1"; receipt = signed_receipt platform key signed effect "{}" }

abbrev waiting : Machine World
waiting = start (record { seen = 3 ∷ []; intents = []; outbox = entry ∷ [] })

abbrev flushed : Machine World
flushed = (flush_execution_receipt_outbox platform client 4 waiting).1

delivers : flush_execution_receipt_outbox platform client 4 waiting ≡ (ok 1, flushed)
unfolding flush_execution_receipt_outbox deliver_all attempt lift pure raise ◌>>=◌ on_err logged
    send deliver_outbox_entry record_receipt signed_receipt validate_outbox_entry
    execution_http_error read_body_limited read_chunks read_text_limited
delivers = refl

flush_execution_receipt_outbox-IsFlushed_example : IsFlushed platform client 4 1 waiting flushed
flush_execution_receipt_outbox-IsFlushed_example =
    flush_execution_receipt_outbox-IsFlushed platform client 4 waiting 1 flushed delivers

abbrev nil_signed : SignedAuthorization
nil_signed = record signed { authorization = record signed.authorization { authorization_id = 0 } }

-- The decision's checks let the nil id through.
nil_is_authorized : validate_authorization platform nil_signed 7 ≡ ok tt
unfolding validate_authorization sha256 canonical_json_value value_beq
nil_is_authorized = refl

-- Its handle cannot be reconciled.
nil_is_refused :
    is_err (
      validate_uncertain_execution
        (handle_of "search-tool" nil_signed executor_outcome_unknown true))
    ≡ true
unfolding validate_uncertain_execution uncertain_from_intent intent_of
nil_is_refused = refl

validate_uncertain_execution_iff_example :
    (validate_uncertain_execution (handle_of "search-tool" signed executor_outcome_unknown true)
      ≡ ok tt)
    ↔ IsReconcilable "search-tool" signed executor_outcome_unknown true
validate_uncertain_execution_iff_example =
    validate_uncertain_execution_iff "search-tool" signed executor_outcome_unknown true

abbrev calls : List ModelToolCall
calls =
    record { id = "a"; name = "search"; arguments = object end }
    ∷ (record { id = "b"; name = "send"; arguments = object end } ∷ [])

validate_model_tool_calls_iff_example : (validate_model_tool_calls calls ≡ ok tt) ↔ IsBatch calls
validate_model_tool_calls_iff_example = validate_model_tool_calls_iff calls

abbrev envelope : AtomicBatchEnvelope
envelope = record {
  jsonrpc = "2.0";
  id = "7";
  method = "clavenar/tools.batch";
  params = record {
    name = "clavenar.atomic-batch";
    arguments = record { contract = "clavenar.atomic-tool-call-batch/v1"; calls = calls };
  };
}

abbrev batch_platform : Platform
batch_platform = record platform { batch_envelope_from_value = λ v. ok envelope }

accepts : validate_batch_authorization batch_platform signed 7 calls payload ≡ ok tt
unfolding validate_batch_authorization check_envelope call_ids validate_model_tool_calls
    validate_calls value_beq
accepts = refl

validate_batch_authorization-IsSameBatch_example :
    (e : AtomicBatchEnvelope) × (batch_platform.batch_envelope_from_value
        signed.authorization.execution_payload
      ≡ ok e)
    × IsSameBatch batch_platform signed 7 calls payload e
validate_batch_authorization-IsSameBatch_example =
    validate_batch_authorization-IsSameBatch batch_platform signed 7 calls payload accepts
