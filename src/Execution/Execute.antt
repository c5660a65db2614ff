-- ===== src/Execution/Execute.antt =====
-- `execution_dependencies` and `execute_authorization` of src/execution.rs, and the handles for
-- uncertain effects.
use clavenar_sdk.Prelude.{Bool, not, String, if◌then◌else◌, is_some}
use clavenar_sdk.Effects.{Result, ok, err, ok_or, is_err, pure, raise, lift, attempt, ◌>>=◌, ◌>>◌}
use clavenar_sdk.Effects.Plain.{reject_if}
use clavenar_sdk.Error.{
  ClavenarError, execution_uncertain, execution_already_completed, invalid_config,
}
use clavenar_sdk.Client.{
  DurableExecutionStore, RegisteredToolExecutor, ClavenarClient, attempted, executed, logged, asks,
}
use clavenar_sdk.Platform.{Platform, SigningKey}
use clavenar_sdk.Records.{
  SignedAuthorization, ExecutionIntent, EffectAuthorizationUse, direct, single_use,
  EffectAttemptClaim, started, already_in_flight, already_completed, ToolExecutionRequest,
  ExecutionEffect, UncertainEffectReason, in_flight_after_prior_attempt, executor_outcome_unknown,
  lookup_invalid, UncertainExecution, ExecutionOutcome,
}
use clavenar_sdk.Execution.Authorize.{Action}
use clavenar_sdk.Execution.Complete.{
  KnownEffectCompletionError, persistence_uncertain, receipt_delivery, complete_known_effect,
}
use clavenar_sdk.Execution.Contracts.{
  durable_execution_outbox_wire_contract, uncertain_effect_contract,
}
use clavenar_sdk.Execution.Validation.{validate_executor_id, validate_execution_effect}

unfoldable pub uncertain_from_intent :
    ExecutionIntent → UncertainEffectReason → Bool → UncertainExecution
uncertain_from_intent intent reason effect_lookup_registered = record {
  contract = uncertain_effect_contract;
  status = "uncertain";
  reason = reason;
  authorization_id = intent.authorization_id;
  idempotency_id = intent.idempotency_id;
  tenant = intent.tenant;
  workload_id = intent.workload_id;
  workload_spiffe = intent.workload_spiffe;
  payload_sha256 = intent.payload_sha256;
  executor_id = intent.executor_id;
  effect_lookup_registered = effect_lookup_registered;
}

unfoldable pub uncertain_with_reason :
    UncertainExecution → UncertainEffectReason → Bool → UncertainExecution
uncertain_with_reason uncertain reason effect_lookup_registered = record uncertain {
  reason = reason;
  effect_lookup_registered = effect_lookup_registered;
}

pub record Dependencies (W : Type 0) : Type 0 where
  pub executor : RegisteredToolExecutor W
  pub signing_key : SigningKey
  pub store : DurableExecutionStore W

module _ {W : Type 0} where
  -- `RegisteredToolExecutor::execute`
  unfoldable pub execute :
      RegisteredToolExecutor W → ToolExecutionRequest → Action W ExecutionEffect
  execute executor request = logged (executed request) (executor.callback request)

  unfoldable pub require_single_use_store : DurableExecutionStore W → Action W (Unit {0})
  require_single_use_store store = do
    supported ← asks store.supports_single_use_authorization
    lift (
        reject_if (not supported) (
          invalid_config
            "durable execution store must support atomic single-use authorization claims"))

  unfoldable pub require_uncertain_effect_store : DurableExecutionStore W → Action W (Unit {0})
  require_uncertain_effect_store store = do
    supported ← asks store.supports_uncertain_effect_reconciliation
    lift (
        reject_if (not supported) (
          invalid_config
            "durable execution store must atomically persist exact intent, authorization use, and an in-flight effect marker before decision network access"))

  unfoldable pub execution_dependencies : ClavenarClient W → Action W (Dependencies W)
  unfolding require_uncertain_effect_store
  execution_dependencies client = do
    executor ← lift (
        ok_or client.tool_executor
          (invalid_config "tool_executor is required for SDK-governed execution"))
    lift (validate_executor_id executor.id)
    signing_key ← lift (
        ok_or client.execution_signing_key
          (invalid_config "execution_signing_key is required for SDK-governed execution"))
    store ← lift (
        ok_or client.durable_execution_store
          (invalid_config "durable_execution_store is required for SDK-governed execution"))
    require_uncertain_effect_store store
    pure (record { executor = executor; signing_key = signing_key; store = store })

unfoldable pub intent_of : String → SignedAuthorization → ExecutionIntent
intent_of executor_id signed =
    let claims = signed.authorization in
    record {
      contract = durable_execution_outbox_wire_contract;
      stage = "execution.intent";
      authorization_id = claims.authorization_id;
      idempotency_id = claims.idempotency_id;
      tenant = claims.tenant;
      workload_id = claims.agent_id;
      workload_spiffe = claims.agent_spiffe;
      payload_sha256 = claims.payload_sha256;
      executor_id = executor_id;
      authorization = signed;
    }

unfoldable pub request_of : String → SignedAuthorization → ToolExecutionRequest
request_of executor_id signed =
    let claims = signed.authorization in
    record {
      idempotency_id = claims.idempotency_id;
      authorization_id = claims.authorization_id;
      executor_id = executor_id;
      execution_payload = claims.execution_payload;
    }

abbrev pub use_of : Bool → EffectAuthorizationUse
use_of single = if single then single_use else direct

-- `execute_authorization`, in the order of its steps read backwards: each part is what follows
-- the answer of the part below it.
module _ (p : Platform) {W : Type 0} (client : ClavenarClient W) (deps : Dependencies W)
    (signed : SignedAuthorization) where
  open deps use {executor, signing_key, store}

  abbrev pub uncertain : UncertainExecution
  uncertain =
      uncertain_from_intent (intent_of executor.id signed) executor_outcome_unknown
        (is_some executor.effect_lookup)

  unfoldable pub after_completion :
      Result KnownEffectCompletionError ExecutionOutcome → Action W ExecutionOutcome
  after_completion (ok outcome) = pure outcome
  after_completion (err persistence_uncertain) = raise (execution_uncertain uncertain)
  after_completion (err (receipt_delivery error)) = raise error

  unfoldable pub complete_effect : ExecutionEffect → Action W ExecutionOutcome
  unfolding after_completion
  complete_effect effect =
      if is_err (validate_execution_effect effect)
      then raise (
          execution_uncertain
            (uncertain_with_reason uncertain lookup_invalid (is_some executor.effect_lookup)))
      else (do
        completed ←
            attempt (complete_known_effect p client store signing_key signed effect executor.id)
        after_completion completed)

  unfoldable pub after_execution : Result ClavenarError ExecutionEffect → Action W ExecutionOutcome
  unfolding complete_effect
  after_execution (ok effect) = complete_effect effect
  after_execution (err _) = raise (execution_uncertain uncertain)

  unfoldable pub after_claim : EffectAttemptClaim → Action W ExecutionOutcome
  unfolding after_execution
  after_claim started = do
    answer ← attempt (execute executor (request_of executor.id signed))
    after_execution answer
  after_claim already_in_flight = raise (
      execution_uncertain (
        uncertain_with_reason uncertain in_flight_after_prior_attempt
          (is_some executor.effect_lookup)))
  after_claim already_completed = raise (
      execution_already_completed signed.authorization.authorization_id
        signed.authorization.idempotency_id)

  unfoldable pub execute_authorization : Bool → Action W ExecutionOutcome
  unfolding after_claim
  execute_authorization single = do
    let intent = intent_of executor.id signed
    claim ←
        logged (attempted intent (use_of single))
          (store.begin_effect_attempt intent (use_of single))
    after_claim claim
