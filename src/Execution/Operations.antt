-- ===== src/Execution/Operations.antt =====
-- The public operations of src/execution.rs that may execute a tool.
use clavenar_sdk.Prelude.{true, false, String, none, some, List, ◌/=◌}
use clavenar_sdk.Effects.{pure, lift, ◌>>=◌, ◌>>◌}
use clavenar_sdk.Effects.Plain.{reject_if}
use clavenar_sdk.Error.{invalid_config}
use clavenar_sdk.Client.{ClavenarClient}
use clavenar_sdk.Json.{Value}
use clavenar_sdk.Platform.{Platform}
use clavenar_sdk.Records.{
  Uuid, ModelToolCall, PreparedToolRequest, PreparedToolBatch, PendingAuthorization,
  AuthorizationState, authorized, ExecutionOutcome, ResumableExecutionOutcome, completed,
}
use clavenar_sdk.Records.Equality.{pending_eq}
use clavenar_sdk.Execution.Authorize.{
  Action, authorize_payload_state, authorize_tool, authorize_tool_batch,
}
use clavenar_sdk.Execution.Contracts.{tool_envelope, atomic_batch_envelope}
use clavenar_sdk.Execution.Execute.{
  Dependencies, require_single_use_store, execution_dependencies, execute_authorization,
}
use clavenar_sdk.Execution.Validation.{
  validate_request, validate_batch, validate_pending_authorization, validate_batch_authorization,
}

module _ (p : Platform) {W : Type 0} (client : ClavenarClient W) where
  unfoldable pub execute_tool : Uuid → String → Value → Action W ExecutionOutcome
  execute_tool idempotency_id name arguments = do
    deps ← execution_dependencies client
    signed ← authorize_tool p client idempotency_id name arguments
    execute_authorization p client deps signed false

  unfoldable pub execute_prepared_tool : PreparedToolRequest → Action W ExecutionOutcome
  unfolding execute_tool
  execute_prepared_tool prepared = do
    lift (validate_request prepared)
    execute_tool prepared.idempotency_id prepared.name prepared.arguments

  unfoldable pub execute_tool_batch : Uuid → List ModelToolCall → Action W ExecutionOutcome
  execute_tool_batch idempotency_id calls = do
    deps ← execution_dependencies client
    signed ← authorize_tool_batch p client idempotency_id calls
    execute_authorization p client deps signed false

  unfoldable pub execute_prepared_tool_batch : PreparedToolBatch → Action W ExecutionOutcome
  unfolding execute_tool_batch
  execute_prepared_tool_batch prepared = do
    lift (validate_batch prepared)
    execute_tool_batch prepared.idempotency_id prepared.calls

  -- `….map(ResumableExecutionOutcome::Completed)`
  abbrev pub completes : Action W ExecutionOutcome → Action W ResumableExecutionOutcome
  completes run = do outcome ← run; pure (completed outcome)

  unfoldable pub begin_with :
      Dependencies W → AuthorizationState → Action W ResumableExecutionOutcome
  begin_with deps (AuthorizationState.pending handle) =
      pure (ResumableExecutionOutcome.pending handle)
  begin_with deps (authorized signed) = completes (execute_authorization p client deps signed false)

  unfoldable pub begin_prepared_tool_execution :
      PreparedToolRequest → Action W ResumableExecutionOutcome
  unfolding begin_with
  begin_prepared_tool_execution prepared = do
    lift (validate_request prepared)
    deps ← execution_dependencies client
    let body = tool_envelope p prepared.idempotency_id prepared.name prepared.arguments
    state ← authorize_payload_state p client prepared.idempotency_id body none
    begin_with deps state

  -- A pending answer must be the handle that the caller kept.
  unfoldable pub keep_pending :
      PendingAuthorization → PendingAuthorization → Action W ResumableExecutionOutcome
  keep_pending handle retained = do
    lift (
        reject_if (retained /= handle)
          (invalid_config "Proxy changed the retained pending authorization handle"))
    pure (ResumableExecutionOutcome.pending retained)

  unfoldable pub resume_with :
      Dependencies W
      → PendingAuthorization
      → AuthorizationState
      → Action W ResumableExecutionOutcome
  unfolding keep_pending
  resume_with deps handle (AuthorizationState.pending retained) = keep_pending handle retained
  resume_with deps handle (authorized signed) =
      completes (execute_authorization p client deps signed true)

  unfoldable pub resume_prepared_tool_execution :
      PreparedToolRequest → PendingAuthorization → Action W ResumableExecutionOutcome
  unfolding resume_with
  resume_prepared_tool_execution prepared handle = do
    lift (validate_request prepared)
    deps ← execution_dependencies client
    require_single_use_store deps.store
    let body = tool_envelope p prepared.idempotency_id prepared.name prepared.arguments
    lift (validate_pending_authorization p handle prepared.idempotency_id body)
    state ← authorize_payload_state p client prepared.idempotency_id body (some handle)
    resume_with deps handle state

  unfoldable pub begin_batch_with :
      Dependencies W → PreparedToolBatch → AuthorizationState → Action W ResumableExecutionOutcome
  begin_batch_with deps prepared (AuthorizationState.pending handle) =
      pure (ResumableExecutionOutcome.pending handle)
  begin_batch_with deps prepared (authorized signed) = do
    lift (
        validate_batch_authorization p signed prepared.idempotency_id prepared.calls
          (atomic_batch_envelope p prepared.idempotency_id prepared.calls))
    completes (execute_authorization p client deps signed false)

  unfoldable pub begin_prepared_tool_batch_execution :
      PreparedToolBatch → Action W ResumableExecutionOutcome
  unfolding begin_batch_with
  begin_prepared_tool_batch_execution prepared = do
    lift (validate_batch prepared)
    deps ← execution_dependencies client
    let body = atomic_batch_envelope p prepared.idempotency_id prepared.calls
    state ← authorize_payload_state p client prepared.idempotency_id body none
    begin_batch_with deps prepared state

  unfoldable pub resume_batch_with :
      Dependencies W
      → PreparedToolBatch
      → PendingAuthorization
      → AuthorizationState
      → Action W ResumableExecutionOutcome
  unfolding keep_pending
  resume_batch_with deps prepared handle (AuthorizationState.pending retained) =
      keep_pending handle retained
  resume_batch_with deps prepared handle (authorized signed) = do
    lift (
        validate_batch_authorization p signed prepared.idempotency_id prepared.calls
          (atomic_batch_envelope p prepared.idempotency_id prepared.calls))
    completes (execute_authorization p client deps signed true)

  unfoldable pub resume_prepared_tool_batch_execution :
      PreparedToolBatch → PendingAuthorization → Action W ResumableExecutionOutcome
  unfolding resume_batch_with
  resume_prepared_tool_batch_execution prepared handle = do
    lift (validate_batch prepared)
    deps ← execution_dependencies client
    require_single_use_store deps.store
    let body = atomic_batch_envelope p prepared.idempotency_id prepared.calls
    lift (validate_pending_authorization p handle prepared.idempotency_id body)
    state ← authorize_payload_state p client prepared.idempotency_id body (some handle)
    resume_batch_with deps prepared handle state
