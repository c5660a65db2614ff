-- ===== src/Execution/Guarded.antt =====
-- What every operation of src/execution.rs keeps: a property that the quiet calls keep, and that
-- holds again after an admitted execution.
pub mod Kept
use clavenar_sdk.Prelude.{
  ◌≡◌, arith, ℕ, ◌+◌, Bool, true, false, String, Option, none, some, List, [], ◌∷◌,
}
use clavenar_sdk.Effects.{Result, ok, err, is_err, attempt, lift, ◌>>=◌, ◌>>◌}
use clavenar_sdk.Effects.Triples.{
  Triple, Triple-lift, Triple-bind, Triple-if, Triple-raise, Triple-pure, Triple-attempt, Keeps,
  Keeps-lift, Keeps-pure, Keeps-raise, Keeps-bind, Triple-bind_fact, Triple-bind_lift,
  Keeps-attempt, keeps_rules,
}
use clavenar_sdk.Error.{ClavenarError}
use clavenar_sdk.Client.{ClavenarClient, DurableExecutionStore, Machine, attempted, logged}
use clavenar_sdk.Json.{Value}
use clavenar_sdk.Platform.{Platform}
use clavenar_sdk.Records.{
  Uuid, SignedAuthorization, ExecutionEffect, EffectAttemptClaim, started, already_in_flight,
  already_completed, ExecutionOutcome, ModelToolCall, PreparedToolRequest, PreparedToolBatch,
  PendingAuthorization, AuthorizationState, authorized, UncertainExecution, ExecutionIntent,
}
use clavenar_sdk.Execution.Authorize.{Action}
use clavenar_sdk.Execution.Complete.{
  KnownEffectCompletionError, persistence_uncertain, receipt_delivery,
}
use clavenar_sdk.Execution.Decision.{IsAccepted, IsGranted}
use clavenar_sdk.Execution.Execute.{
  Dependencies, execute, execution_dependencies, intent_of, request_of, use_of, after_completion,
  complete_effect, after_execution, after_claim, execute_authorization,
}
use clavenar_sdk.Execution.Keeps.{
  IsQuiet, IsQuietStore, IsProvided, authorize_payload_state-Triple, authorize_tool-Triple,
  authorize_tool_batch-Triple, IsGrantedBatch, deliver_outbox_entry-Keeps,
  complete_known_effect-Keeps, execution_dependencies-Triple, require_single_use_store-Keeps,
}
use clavenar_sdk.Execution.Validation.{validate_authorization, validate_execution_effect}

module _ {W : Type 0} where
  -- After a claim: the executor may run, or nothing has changed.
  abbrev pub AfterClaim :
      (Machine W → Type 0) → (Machine W → Type 0) → EffectAttemptClaim → Machine W → Type 0
  AfterClaim P armed started = armed
  AfterClaim P armed already_in_flight = P
  AfterClaim P armed already_completed = P

  -- `Armed` holds between the admission of an authorization and its execution.
  pub record IsGuarded (p : Platform) (client : ClavenarClient W) (P : Machine W → Type 0)
      (Armed : String → SignedAuthorization → Machine W → Type 0) : Type 0 where
    pub quiet : IsQuiet client P
    pub quiet_store :
        (store : DurableExecutionStore W)
        → client.durable_execution_store ≡ some store
        → IsQuietStore store P
    pub admits :
        (deps : Dependencies W) (signed : SignedAuthorization) (id : Uuid) (single : Bool)
        → IsProvided client deps
        → validate_authorization p signed id ≡ ok tt
        → Triple P
            (logged
              (attempted (intent_of deps.executor.id signed) (use_of single))
              (deps.store.begin_effect_attempt (intent_of deps.executor.id signed) (use_of single)))
            (AfterClaim P (Armed deps.executor.id signed))
            (λ _. P)
    pub runs :
        (deps : Dependencies W) (signed : SignedAuthorization)
        → IsProvided client deps
        → Triple
            (Armed deps.executor.id signed)
            (execute deps.executor (request_of deps.executor.id signed))
            (λ _. P)
            (λ _. P)

module _ (p : Platform) {W : Type 0} (client : ClavenarClient W) (P : Machine W → Type 0)
    (Armed : String → SignedAuthorization → Machine W → Type 0)
    (guarded : IsGuarded p client P Armed) (deps : Dependencies W)
    (provided : IsProvided client deps) (signed : SignedAuthorization) where
  after_completion-Keeps :
      (r : Result KnownEffectCompletionError ExecutionOutcome)
      → Keeps P (after_completion p client deps signed r)
  unfolding after_completion
  after_completion-Keeps (ok outcome) = Keeps-pure outcome
  after_completion-Keeps (err persistence_uncertain) = Keeps-raise _
  after_completion-Keeps (err (receipt_delivery e)) = Keeps-raise _

  complete_effect-Keeps :
      (effect : ExecutionEffect) → Keeps P (complete_effect p client deps signed effect)
  unfolding complete_effect
  complete_effect-Keeps effect =
      Triple-if (is_err (validate_execution_effect effect)) _ _ (λ _. Keeps-raise _)
        λ _.
          Keeps-bind _ _
            (Keeps-attempt _ (
              complete_known_effect-Keeps p client P guarded.quiet deps.store
                (guarded.quiet_store deps.store provided.store_given) deps.signing_key signed effect
                deps.executor.id))
            after_completion-Keeps

  after_execution-Keeps :
      (r : Result ClavenarError ExecutionEffect) → Keeps P (after_execution p client deps signed r)
  unfolding after_execution
  after_execution-Keeps (ok effect) = complete_effect-Keeps effect
  after_execution-Keeps (err e) = Keeps-raise _

  after_claim-Triple :
      (claim : EffectAttemptClaim)
      → Triple
          (AfterClaim P (Armed deps.executor.id signed) claim)
          (after_claim p client deps signed claim)
          (λ _. P)
          (λ _. P)
  unfolding after_claim
  after_claim-Triple started =
      Triple-bind (λ _. P) _ _
        (Triple-attempt (λ _. P) (λ _. P) _ (guarded.runs deps signed provided))
        after_execution-Keeps
  after_claim-Triple already_in_flight = Keeps-raise _
  after_claim-Triple already_completed = Keeps-raise _

  pub execute_authorization-Keeps :
      (id : Uuid) (single : Bool)
      → validate_authorization p signed id ≡ ok tt
      → Keeps P (execute_authorization p client deps signed single)
  unfolding execute_authorization
  execute_authorization-Keeps id single valid =
      Triple-bind (AfterClaim P (Armed deps.executor.id signed)) _ _
        (guarded.admits deps signed id single provided valid) after_claim-Triple
