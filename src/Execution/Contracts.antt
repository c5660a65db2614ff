-- ===== src/Execution/Contracts.antt =====
-- The constants of src/execution.rs, and the JSON-RPC envelopes.
use clavenar_sdk.Prelude.{ℕ, String, List, [], ◌∷◌}
use clavenar_sdk.Json.{Value, Items, string, array, object, nil, cons, end, field}
use clavenar_sdk.Platform.{Platform}
use clavenar_sdk.Records.{Uuid, ModelToolCall}

abbrev pub decision_contract : String
decision_contract = "clavenar.decision/v1"

abbrev pub decision_contract_header : String
decision_contract_header = "x-clavenar-decision-contract"

abbrev pub execution_contract : String
execution_contract = "clavenar.execution/v1"

abbrev pub idempotency_id_header : String
idempotency_id_header = "x-clavenar-idempotency-id"

abbrev pub pending_authorization_contract : String
pending_authorization_contract = "clavenar.pending-authorization/v1"

abbrev pub pending_id_header : String
pending_id_header = "x-clavenar-pending-id"

abbrev pub pending_payload_sha256_header : String
pending_payload_sha256_header = "x-clavenar-pending-payload-sha256"

abbrev pub atomic_tool_call_batch_contract : String
atomic_tool_call_batch_contract = "clavenar.atomic-tool-call-batch/v1"

abbrev pub atomic_tool_call_batch_method : String
atomic_tool_call_batch_method = "clavenar/tools.batch"

abbrev pub atomic_tool_call_batch_name : String
atomic_tool_call_batch_name = "clavenar.atomic-batch"

abbrev pub durable_execution_outbox_wire_contract : String
durable_execution_outbox_wire_contract = "clavenar.sdk-durable-intent-outbox/v1"

abbrev pub uncertain_effect_contract : String
uncertain_effect_contract = "clavenar.uncertain-effect/v1"

abbrev pub max_batch_calls : ℕ
max_batch_calls = 128

abbrev pub max_outbox_flush : ℕ
max_outbox_flush = 128

-- `json!` and serde build maps in key order.
call_to_value : ModelToolCall → Value
call_to_value call = object (
    field "arguments" call.arguments
      (field "id" (string call.id) (field "name" (string call.name) end)))

calls_to_items : List ModelToolCall → Items
unfolding call_to_value
calls_to_items [] = nil
calls_to_items (call ∷ calls) = cons (call_to_value call) (calls_to_items calls)

module _ (p : Platform) where
  unfoldable pub atomic_batch_envelope : Uuid → List ModelToolCall → Value
  unfolding calls_to_items
  atomic_batch_envelope idempotency_id calls = object (
      field "id" (string (p.uuid_to_string idempotency_id)) (
        field "jsonrpc" (string "2.0")
          (field "method" (string atomic_tool_call_batch_method) (field "params" params end))))
    where
      arguments : Value
      arguments = object (
          field "calls" (array (calls_to_items calls))
            (field "contract" (string atomic_tool_call_batch_contract) end))

      params : Value
      params =
          object
            (field "arguments" arguments (field "name" (string atomic_tool_call_batch_name) end))

  unfoldable pub tool_envelope : Uuid → String → Value → Value
  tool_envelope idempotency_id name arguments = object (
      field "id" (string (p.uuid_to_string idempotency_id)) (
        field "jsonrpc" (string "2.0") (
          field "method" (string "tools/call") (
            field "params" (object (field "arguments" arguments (field "name" (string name) end)))
              end))))
