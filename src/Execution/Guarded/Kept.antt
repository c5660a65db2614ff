-- ===== src/Execution/Guarded/Kept.antt =====
-- Every public operation of src/execution.rs keeps a guarded property, whether it returns or fails.
use clavenar_sdk.Prelude.{Bool, true, false, String, Option, none, some, List, string_eq}
use clavenar_sdk.Effects.Triples.{Keeps, Keeps-lift, Keeps-pure, Keeps-bind, Triple-bind_fact}
use clavenar_sdk.Client.{ClavenarClient, Machine}
use clavenar_sdk.Json.{Value}
use clavenar_sdk.Platform.{Platform}
use clavenar_sdk.Records.{
  Uuid, SignedAuthorization, ModelToolCall, PreparedToolRequest, PreparedToolBatch,
  PendingAuthorization, AuthorizationState, authorized,
}
use clavenar_sdk.Execution.Contracts.{tool_envelope}
use clavenar_sdk.Execution.Decision.{IsAccepted, IsGranted}
use clavenar_sdk.Execution.Execute.{Dependencies, execute_authorization}
use clavenar_sdk.Execution.Guarded.{IsGuarded, execute_authorization-Keeps}
use clavenar_sdk.Execution.Keeps.{
  IsProvided, authorize_payload_state-Triple, authorize_tool-Triple, authorize_tool_batch-Triple,
  IsGrantedBatch, execution_dependencies-Triple, require_single_use_store-Keeps,
}
use clavenar_sdk.Execution.Operations.{
  execute_tool, execute_prepared_tool, execute_tool_batch, execute_prepared_tool_batch, begin_with,
  begin_prepared_tool_execution, keep_pending, resume_with, resume_prepared_tool_execution,
  begin_batch_with, begin_prepared_tool_batch_execution, resume_batch_with,
  resume_prepared_tool_batch_execution,
}

module _ (p : Platform) {W : Type 0} (client : ClavenarClient W) (P : Machine W → Type 0)
    (Armed : String → SignedAuthorization → Machine W → Type 0)
    (guarded : IsGuarded p client P Armed) where
  granted-Keeps :
      (deps : Dependencies W) (single : Bool) (id : Uuid) (body : Value)
      (pending : Option PendingAuthorization) (signed : SignedAuthorization)
      → IsProvided client deps
      → IsGranted p id body pending signed
      → Keeps P (execute_authorization p client deps signed single)
  granted-Keeps deps single id body pending signed provided granted =
      execute_authorization-Keeps p client P Armed guarded deps provided signed id single
        granted.valid

  pub execute_tool-Keeps :
      (id : Uuid) (name : String) (arguments : Value)
      → Keeps P (execute_tool p client id name arguments)
  unfolding execute_tool
  execute_tool-Keeps id name arguments =
      Triple-bind_fact (IsProvided client) _ _ (execution_dependencies-Triple client)
        λ deps provided.
          Triple-bind_fact (IsGranted p id (tool_envelope p id name arguments) none) _ _
            (authorize_tool-Triple p client P guarded.quiet id name arguments)
            λ signed. granted-Keeps deps false id _ none signed provided

  pub execute_prepared_tool-Keeps :
      (prepared : PreparedToolRequest) → Keeps P (execute_prepared_tool p client prepared)
  unfolding execute_prepared_tool
  execute_prepared_tool-Keeps prepared =
      Keeps-bind _ _ (Keeps-lift _)
        λ _. execute_tool-Keeps prepared.idempotency_id prepared.name prepared.arguments

  pub execute_tool_batch-Keeps :
      (id : Uuid) (calls : List ModelToolCall) → Keeps P (execute_tool_batch p client id calls)
  unfolding execute_tool_batch
  execute_tool_batch-Keeps id calls =
      Triple-bind_fact (IsProvided client) _ _ (execution_dependencies-Triple client)
        λ deps provided.
          Triple-bind_fact (IsGrantedBatch p client P guarded.quiet id calls) _ _
            (authorize_tool_batch-Triple p client P guarded.quiet id calls)
            λ signed granted. granted-Keeps deps false id _ none signed provided granted.0

  pub execute_prepared_tool_batch-Keeps :
      (prepared : PreparedToolBatch) → Keeps P (execute_prepared_tool_batch p client prepared)
  unfolding execute_prepared_tool_batch
  execute_prepared_tool_batch-Keeps prepared =
      Keeps-bind _ _ (Keeps-lift _)
        λ _. execute_tool_batch-Keeps prepared.idempotency_id prepared.calls

  begin_with-Keeps :
      (deps : Dependencies W) (id : Uuid) (body : Value) (state : AuthorizationState)
      → IsProvided client deps
      → IsAccepted p id body none state
      → Keeps P (begin_with p client deps state)
  unfolding begin_with
  begin_with-Keeps deps id body (AuthorizationState.pending handle) provided h = Keeps-pure _
  begin_with-Keeps deps id body (authorized signed) provided h =
      Keeps-bind _ _ (granted-Keeps deps false id body none signed provided h) (λ _. Keeps-pure _)

  pub begin_prepared_tool_execution-Keeps :
      (prepared : PreparedToolRequest) → Keeps P (begin_prepared_tool_execution p client prepared)
  unfolding begin_prepared_tool_execution
  begin_prepared_tool_execution-Keeps prepared = Keeps-bind _ _ (Keeps-lift _) λ _.
      Triple-bind_fact (IsProvided client) _ _ (execution_dependencies-Triple client)
        λ deps provided.
          Triple-bind_fact (IsAccepted p _ _ none) _ _
            (authorize_payload_state-Triple p client P guarded.quiet prepared.idempotency_id _ none)
            λ state. begin_with-Keeps deps prepared.idempotency_id _ state provided

  keep_pending-Keeps :
      (handle retained : PendingAuthorization) → Keeps P (keep_pending p client handle retained)
  unfolding keep_pending
  keep_pending-Keeps handle retained = Keeps-bind _ _ (Keeps-lift _) (λ _. Keeps-pure _)

  resume_with-Keeps :
      (deps : Dependencies W) (handle : PendingAuthorization) (id : Uuid) (body : Value)
      (state : AuthorizationState)
      → IsProvided client deps
      → IsAccepted p id body (some handle) state
      → Keeps P (resume_with p client deps handle state)
  unfolding resume_with
  resume_with-Keeps deps handle id body (AuthorizationState.pending retained) provided h =
      keep_pending-Keeps handle retained
  resume_with-Keeps deps handle id body (authorized signed) provided h =
      Keeps-bind _ _ (granted-Keeps deps true id body (some handle) signed provided h)
        (λ _. Keeps-pure _)

  pub resume_prepared_tool_execution-Keeps :
      (prepared : PreparedToolRequest) (handle : PendingAuthorization)
      → Keeps P (resume_prepared_tool_execution p client prepared handle)
  unfolding resume_prepared_tool_execution
  resume_prepared_tool_execution-Keeps prepared handle = Keeps-bind _ _ (Keeps-lift _) λ _.
      Triple-bind_fact (IsProvided client) _ _ (execution_dependencies-Triple client)
        λ deps provided. Keeps-bind _ _ (require_single_use_store-Keeps deps.store) λ _.
          Keeps-bind _ _ (Keeps-lift _) λ _.
            Triple-bind_fact (IsAccepted p _ _ (some handle)) _ _
              (authorize_payload_state-Triple p client P guarded.quiet prepared.idempotency_id _
                (some handle))
              λ state. resume_with-Keeps deps handle prepared.idempotency_id _ state provided

  begin_batch_with-Keeps :
      (deps : Dependencies W) (prepared : PreparedToolBatch) (body : Value)
      (state : AuthorizationState)
      → IsProvided client deps
      → IsAccepted p prepared.idempotency_id body none state
      → Keeps P (begin_batch_with p client deps prepared state)
  unfolding begin_batch_with
  begin_batch_with-Keeps deps prepared body (AuthorizationState.pending handle) provided h =
      Keeps-pure _
  begin_batch_with-Keeps deps prepared body (authorized signed) provided h =
      Keeps-bind _ _ (Keeps-lift _) λ _.
        Keeps-bind _ _
          (granted-Keeps deps false prepared.idempotency_id body none signed provided h)
          (λ _. Keeps-pure _)

  pub begin_prepared_tool_batch_execution-Keeps :
      (prepared : PreparedToolBatch)
      → Keeps P (begin_prepared_tool_batch_execution p client prepared)
  unfolding begin_prepared_tool_batch_execution
  begin_prepared_tool_batch_execution-Keeps prepared = Keeps-bind _ _ (Keeps-lift _) λ _.
      Triple-bind_fact (IsProvided client) _ _ (execution_dependencies-Triple client)
        λ deps provided.
          Triple-bind_fact (IsAccepted p _ _ none) _ _
            (authorize_payload_state-Triple p client P guarded.quiet prepared.idempotency_id _ none)
            λ state. begin_batch_with-Keeps deps prepared _ state provided

  resume_batch_with-Keeps :
      (deps : Dependencies W) (prepared : PreparedToolBatch) (handle : PendingAuthorization)
      (body : Value) (state : AuthorizationState)
      → IsProvided client deps
      → IsAccepted p prepared.idempotency_id body (some handle) state
      → Keeps P (resume_batch_with p client deps prepared handle state)
  unfolding resume_batch_with
  resume_batch_with-Keeps deps prepared handle body (AuthorizationState.pending retained) provided
        h =
      keep_pending-Keeps handle retained
  resume_batch_with-Keeps deps prepared handle body (authorized signed) provided h =
      Keeps-bind _ _ (Keeps-lift _) λ _.
        Keeps-bind _ _
          (granted-Keeps deps true prepared.idempotency_id body (some handle) signed provided h)
          (λ _. Keeps-pure _)

  pub resume_prepared_tool_batch_execution-Keeps :
      (prepared : PreparedToolBatch) (handle : PendingAuthorization)
      → Keeps P (resume_prepared_tool_batch_execution p client prepared handle)
  unfolding resume_prepared_tool_batch_execution
  resume_prepared_tool_batch_execution-Keeps prepared handle = Keeps-bind _ _ (Keeps-lift _) λ _.
      Triple-bind_fact (IsProvided client) _ _ (execution_dependencies-Triple client)
        λ deps provided. Keeps-bind _ _ (require_single_use_store-Keeps deps.store) λ _.
          Keeps-bind _ _ (Keeps-lift _) λ _.
            Triple-bind_fact (IsAccepted p _ _ (some handle)) _ _
              (authorize_payload_state-Triple p client P guarded.quiet prepared.idempotency_id _
                (some handle))
              λ state. resume_batch_with-Keeps deps prepared handle _ state provided
