-- ===== src/Execution/Prepared.antt =====
-- The constructors of prepared requests (src/execution.rs). `new` draws a random UUID from the
-- uuid crate, which is an argument here.
use clavenar_sdk.Prelude.{◌≡◌, ◌↔◌, refl, String, List}
use clavenar_sdk.Effects.{Result, ok}
use clavenar_sdk.Effects.Plain.{◌>>◌, >>-ok, reject_if-false}
use clavenar_sdk.Error.{ClavenarError}
use clavenar_sdk.Json.{Value}
use clavenar_sdk.Records.{Uuid, ModelToolCall, PreparedToolRequest, PreparedToolBatch}
use clavenar_sdk.Execution.Validation.{validate_request, validate_batch, validate_tool_name}
use clavenar_sdk.Execution.Validation.Calls.{
  IsBatch, IsSized, validate_model_tool_calls_iff, out_of_bounds-IsSized, IsSized-out_of_bounds,
}

abbrev pub request_with : Uuid → String → Value → PreparedToolRequest
request_with id name arguments = record { idempotency_id = id; name = name; arguments = arguments }

unfoldable pub restore_request : Uuid → String → Value → Result ClavenarError PreparedToolRequest
restore_request id name arguments = do
  validate_request (request_with id name arguments)
  ok (request_with id name arguments)

unfoldable pub new_request : Uuid → String → Value → Result ClavenarError PreparedToolRequest
unfolding restore_request
new_request fresh name arguments = restore_request fresh name arguments

abbrev pub batch_with : Uuid → List ModelToolCall → PreparedToolBatch
batch_with id calls = record { idempotency_id = id; calls = calls }

unfoldable pub restore_batch : Uuid → List ModelToolCall → Result ClavenarError PreparedToolBatch
restore_batch id calls = do validate_batch (batch_with id calls); ok (batch_with id calls)

unfoldable pub new_batch : Uuid → List ModelToolCall → Result ClavenarError PreparedToolBatch
unfolding restore_batch
new_batch fresh calls = restore_batch fresh calls

-- Restoring a persisted batch succeeds exactly for the batches that can be decided, and then keeps
-- the identity, the calls and their order as they were persisted.
pub restore_batch_iff :
    (id : Uuid) (calls : List ModelToolCall) (prepared : PreparedToolBatch)
    → (restore_batch id calls ≡ ok prepared) ↔ (IsBatch calls × (batch_with id calls ≡ prepared))
unfolding restore_batch validate_batch
restore_batch_iff id calls prepared = (kept, restored)
  where
    ok_injective : {A : Type 0} {x y : A} → ◌≡◌ {A = Result ClavenarError A} (ok x) (ok y) → x ≡ y
    ok_injective e = cc

    kept : restore_batch id calls ≡ ok prepared → IsBatch calls × (batch_with id calls ≡ prepared)
    kept h =
        let (valid, same) = >>-ok _ _ h in
        ((validate_model_tool_calls_iff calls).0 valid, ok_injective same)

    restored :
        IsBatch calls × (batch_with id calls ≡ prepared) → restore_batch id calls ≡ ok prepared
    restored (batch, same) = rw ((validate_model_tool_calls_iff calls).1 batch, same) refl

-- Restoring a request succeeds exactly where its tool name has 1 to 256 bytes, and then keeps the
-- identity, the name and the arguments.
pub restore_request_iff :
    (id : Uuid) (name : String) (arguments : Value) (prepared : PreparedToolRequest)
    → (restore_request id name arguments ≡ ok prepared)
      ↔ (IsSized name × (request_with id name arguments ≡ prepared))
unfolding restore_request validate_request validate_tool_name
restore_request_iff id name arguments prepared = (kept, restored)
  where
    ok_injective : {A : Type 0} {x y : A} → ◌≡◌ {A = Result ClavenarError A} (ok x) (ok y) → x ≡ y
    ok_injective e = cc

    kept :
        restore_request id name arguments ≡ ok prepared
        → IsSized name × (request_with id name arguments ≡ prepared)
    kept h =
        let (valid, same) = >>-ok _ _ h in
        (out_of_bounds-IsSized name (reject_if-false _ _ valid), ok_injective same)

    restored :
        IsSized name × (request_with id name arguments ≡ prepared)
        → restore_request id name arguments ≡ ok prepared
    restored (sized, same) = rw (IsSized-out_of_bounds name sized, same) refl
