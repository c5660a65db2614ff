-- ===== src/Execution/Reconcile.antt =====
-- `reconcile_uncertain_effect` of src/execution.rs.
use clavenar_sdk.Prelude.{true, false, Option, none, some, is_some, ◌/=◌, string_eq, if◌then◌else◌}
use clavenar_sdk.Effects.{Result, ok, err, is_err, pure, raise, lift, attempt, ◌>>=◌, ◌>>◌}
use clavenar_sdk.Effects.Plain.{reject_if}
use clavenar_sdk.Error.{ClavenarError, invalid_config}
use clavenar_sdk.Client.{ClavenarClient, RegisteredToolExecutor, loaded, looked_up, logged}
use clavenar_sdk.Platform.{Platform}
use clavenar_sdk.Records.{
  ExecutionIntent, ExecutionEffect, EffectLookupRequest, EffectLookupOutcome, found, not_found,
  ambiguous, UncertainEffectReason, lookup_not_registered, lookup_unavailable, effect_not_found,
  lookup_ambiguous, lookup_invalid, durable_intent_unavailable,
  reconciled_effect_persistence_failed, UncertainExecution, ExecutionOutcome,
  ExecutionReconciliationOutcome, completed, uncertain,
}
use clavenar_sdk.Execution.Authorize.{Action}
use clavenar_sdk.Execution.Complete.{
  KnownEffectCompletionError, persistence_uncertain, receipt_delivery, complete_known_effect,
}
use clavenar_sdk.Execution.Execute.{Dependencies, execution_dependencies, uncertain_with_reason}
use clavenar_sdk.Execution.Validation.{
  validate_uncertain_execution, validate_uncertain_intent, validate_execution_effect,
}

-- `RegisteredToolExecutor::lookup_effect`
abbrev pub lookup_effect :
    {W : Type 0}
    → RegisteredToolExecutor W
    → EffectLookupRequest
    → Action W (Option (Result ClavenarError EffectLookupOutcome))
lookup_effect executor request = elim executor.effect_lookup [
  | none ↦ pure none
  | some lookup ↦ attempt (logged (looked_up request) (lookup request)) >>= λ r. pure (some r)
]

unfoldable pub lookup_request_of : ExecutionIntent → EffectLookupRequest
lookup_request_of intent = record {
  authorization_id = intent.authorization_id;
  idempotency_id = intent.idempotency_id;
  executor_id = intent.executor_id;
  payload_sha256 = intent.payload_sha256;
}

module _ (p : Platform) {W : Type 0} (client : ClavenarClient W) (handle : UncertainExecution)
    (deps : Dependencies W) where
  open deps use {executor, signing_key, store}

  abbrev pub Answer : Type 0
  Answer = ExecutionReconciliationOutcome

  abbrev pub still_uncertain : UncertainEffectReason → Action W Answer
  still_uncertain reason = pure (uncertain (uncertain_with_reason handle reason true))

  unfoldable pub after_reconciled_completion :
      Result KnownEffectCompletionError ExecutionOutcome → Action W Answer
  after_reconciled_completion (ok outcome) = pure (completed outcome)
  after_reconciled_completion (err persistence_uncertain) =
      still_uncertain reconciled_effect_persistence_failed
  after_reconciled_completion (err (receipt_delivery error)) = raise error

  unfoldable pub complete_found : ExecutionIntent → ExecutionEffect → Action W Answer
  unfolding after_reconciled_completion
  complete_found intent effect =
      if is_err (validate_execution_effect effect) then still_uncertain lookup_invalid else (do
        answer ← attempt (
            complete_known_effect p client store signing_key intent.authorization effect
              executor.id)
        after_reconciled_completion answer)

  unfoldable pub after_lookup :
      ExecutionIntent → Option (Result ClavenarError EffectLookupOutcome) → Action W Answer
  unfolding complete_found
  after_lookup intent none =
      pure (uncertain (uncertain_with_reason handle lookup_not_registered false))
  after_lookup intent (some (err _)) = still_uncertain lookup_unavailable
  after_lookup intent (some (ok not_found)) = still_uncertain effect_not_found
  after_lookup intent (some (ok ambiguous)) = still_uncertain lookup_ambiguous
  after_lookup intent (some (ok (found effect))) = complete_found intent effect

  unfoldable pub check_intent : ExecutionIntent → Action W Answer
  unfolding after_lookup
  check_intent intent =
      if is_err (validate_uncertain_intent p handle intent)
      then pure
          (uncertain (uncertain_with_reason handle lookup_invalid (is_some executor.effect_lookup)))
      else (do
        answer ← lookup_effect executor (lookup_request_of intent)
        after_lookup intent answer)

  unfoldable pub after_load : Result ClavenarError (Option ExecutionIntent) → Action W Answer
  unfolding check_intent
  after_load (ok (some intent)) = check_intent intent
  after_load (ok none) = pure (
      uncertain
        (uncertain_with_reason handle durable_intent_unavailable (is_some executor.effect_lookup)))
  after_load (err _) = pure (
      uncertain
        (uncertain_with_reason handle durable_intent_unavailable (is_some executor.effect_lookup)))

unfoldable pub reconcile_uncertain_effect :
    Platform
    → {W : Type 0} → ClavenarClient W
    → UncertainExecution
    → Action W ExecutionReconciliationOutcome
unfolding after_load
reconcile_uncertain_effect p client handle = do
  lift (validate_uncertain_execution handle)
  deps ← execution_dependencies client
  lift (
      reject_if (deps.executor.id /= handle.executor_id)
        (invalid_config "uncertain effect is bound to a different registered executor"))
  answer ← attempt (
      logged (loaded handle.authorization_id)
        (deps.store.load_uncertain_intent handle.authorization_id))
  after_load p client handle deps answer
