-- ===== src/Execution/Recovery.antt =====
-- Executions and reconciliations of src/execution.rs succeed where the application's parts and
-- Proxy respond.
use clavenar_sdk.Prelude.{
  eq_iff, arith, ◌≡◌, refl, sym, subst, true, Bool, Option, none, some, string_eq,
}
use clavenar_sdk.Effects.{Result, ok, ok_or, pure, attempt, ◌>>=◌}
use clavenar_sdk.Effects.Answers.{
  Replies, Answers, pure-Answers, lift-Answers, logged-Answers, attempt-Answers, asks-Answers,
  >>=-Answers, >>=-reached, passed-Answers,
}
use clavenar_sdk.Client.{Async, ClavenarClient, RegisteredToolExecutor, Machine, looked_up, logged}
use clavenar_sdk.Error.{ClavenarError}
use clavenar_sdk.Platform.{Platform}
use clavenar_sdk.Records.{
  Uuid, SignedAuthorization, ExecutionIntent, ExecutionEffect, EffectLookupRequest,
  EffectLookupOutcome, found, started, UncertainEffectReason, UncertainExecution, ExecutionOutcome,
  ReceiptRecorded, completed,
}
use clavenar_sdk.Execution.Execute.{
  Dependencies, require_uncertain_effect_store, execution_dependencies, execute, intent_of,
  request_of, use_of, execute_authorization, after_claim, after_execution, complete_effect,
  after_completion,
}
use clavenar_sdk.Execution.Keeps.{IsProvided}
use clavenar_sdk.Execution.Reconcile.{
  reconcile_uncertain_effect, after_load, check_intent, after_lookup, complete_found,
  after_reconciled_completion, lookup_request_of, lookup_effect,
}
use clavenar_sdk.Execution.Responsive.{IsCompletable, complete_known_effect-Answers}
use clavenar_sdk.Execution.Uncertain.{
  handle_of, IsReconcilable, validate_uncertain_intent-uncertain_from_intent,
  validate_uncertain_execution_iff,
}
use clavenar_sdk.Execution.Validation.{validate_authorization, validate_execution_effect}

abbrev pub outcome_of : ExecutionEffect → ReceiptRecorded → ExecutionOutcome
outcome_of effect recorded = record {
  receipt = recorded;
  result = effect.result;
  effect_id = effect.effect_id;
}

module _ {W : Type 0} {I : W → Type 0} (client : ClavenarClient W) (deps : Dependencies W)
    (given : IsProvided client deps)
    (supported : (w : W) → I w → deps.store.supports_uncertain_effect_reconciliation w ≡ true) where
  given_ok : {A : Type 0} (o : Option A) (e : ClavenarError) {a : A} → o ≡ some a → ok_or o e ≡ ok a
  given_ok o e h = λ i. ok_or (h i) e

  require_uncertain_effect_store-Answers : Answers I (require_uncertain_effect_store deps.store) tt
  unfolding require_uncertain_effect_store
  require_uncertain_effect_store-Answers =
      >>=-Answers _ (asks-Answers _ supported) (lift-Answers _ refl)

  execution_dependencies-Answers : Answers I (execution_dependencies client) deps
  unfolding execution_dependencies
  execution_dependencies-Answers =
      >>=-Answers _ (lift-Answers _ (given_ok _ _ given.executor_given)) (
        >>=-Answers _ (lift-Answers _ given.executor_valid) (
          >>=-Answers _ (lift-Answers _ (given_ok _ _ given.key_given)) (
            >>=-Answers _ (lift-Answers _ (given_ok _ _ given.store_given))
              (>>=-Answers _ require_uncertain_effect_store-Answers (pure-Answers deps)))))

module _ (p : Platform) {W : Type 0} {I : W → Type 0} (client : ClavenarClient W)
    (deps : Dependencies W) (signed : SignedAuthorization) (effect : ExecutionEffect)
    (recorded : ReceiptRecorded) (valid : validate_execution_effect effect ≡ ok tt)
    (completable : IsCompletable p I client deps.store deps.signing_key signed effect
      deps.executor.id recorded) where
  open deps use {executor, store}

  complete_effect-Answers :
      Answers I (complete_effect p client deps signed effect) (outcome_of effect recorded)
  unfolding complete_effect after_completion
  complete_effect-Answers = rw valid (
      >>=-Answers _ (attempt-Answers (complete_known_effect-Answers p I client store completable))
        (pure-Answers _))

  complete_found-Answers :
      (handle : UncertainExecution) (intent : ExecutionIntent)
      → intent.authorization ≡ signed
      → Answers I
          (complete_found p client handle deps intent effect)
          (completed (outcome_of effect recorded))
  unfolding complete_found after_reconciled_completion
  complete_found-Answers handle intent same = rw valid (
      rw same (
        >>=-Answers _ (attempt-Answers (complete_known_effect-Answers p I client store completable))
          (pure-Answers _)))

  admitted-Answers :
      Replies I (executor.callback (request_of executor.id signed)) effect
      → Answers I (after_claim p client deps signed started) (outcome_of effect recorded)
  unfolding after_claim after_execution execute
  admitted-Answers answers =
      >>=-Answers _ (attempt-Answers (logged-Answers _ answers)) complete_effect-Answers

  -- An execution of the given authorization succeeds: if the store admits the attempt in a world
  -- that is as it should be, the executor answers with an effect whose id is valid, the store
  -- commits it and queues its receipt, and Proxy takes the receipt and the store the delivery, then
  -- the outcome of this effect is returned.
  pub execute_authorization-executes :
      Replies I (executor.callback (request_of executor.id signed)) effect
      → (single : Bool) (s : Machine W)
      → (store.begin_effect_attempt (intent_of executor.id signed) (use_of single) s.world).0
        ≡ ok started
      → I (store.begin_effect_attempt (intent_of executor.id signed) (use_of single) s.world).1
      → (execute_authorization p client deps signed single s).0 ≡ ok (outcome_of effect recorded)
  unfolding execute_authorization logged
  execute_authorization-executes answers single s admitted good =
      >>=-reached _ _ s admitted good (admitted-Answers answers)

looked_up-Answers :
    {W : Type 0} {I : W → Type 0} (executor : RegisteredToolExecutor W)
    (request : EffectLookupRequest) (lookup : EffectLookupRequest → Async W EffectLookupOutcome)
    {outcome : EffectLookupOutcome}
    → executor.effect_lookup ≡ some lookup
    → Replies I (lookup request) outcome
    → Answers I (lookup_effect executor request) (some (ok outcome))
looked_up-Answers {I} executor request lookup {outcome} registered answers =
    subst
      (λ o.
        Answers I {E = ClavenarError} {A = Option (Result ClavenarError EffectLookupOutcome)}
          (elim o [
            | none ↦ pure none
            | some lookup' ↦
                attempt (logged (looked_up request) (lookup' request)) >>= λ r. pure (some r)
          ])
          (some (ok outcome)))
      (sym registered) (>>=-Answers _ (attempt-Answers (logged-Answers _ answers)) (pure-Answers _))

module _ (p : Platform) {W : Type 0} {I : W → Type 0} (client : ClavenarClient W)
    (deps : Dependencies W) (signed : SignedAuthorization) (reason : UncertainEffectReason)
    (registered : Bool) where
  open deps use {executor, store}

  -- An effect of an uncertain execution is recovered: in a world where the store holds the durable
  -- intent, the registered lookup finds an effect whose id is valid, the store commits it and queues
  -- its receipt, and Proxy takes the receipt and the store the delivery, the reconciliation of the
  -- execution's handle completes with the outcome of this effect, and leaves such a world behind, so
  -- that it can be repeated. The authorization is one that the decision's checks let through and
  -- whose handle can be reconciled.
  pub reconcile_uncertain_effect-recovers :
      (id : Uuid)
      → validate_authorization p signed id ≡ ok tt
      → IsReconcilable executor.id signed reason registered
      → IsProvided client deps
      → ((w : W) → I w → store.supports_uncertain_effect_reconciliation w ≡ true)
      → Replies I
          (store.load_uncertain_intent signed.authorization.authorization_id)
          (some (intent_of executor.id signed))
      → (lookup : EffectLookupRequest → Async W EffectLookupOutcome) (effect : ExecutionEffect)
        (recorded : ReceiptRecorded)
      → executor.effect_lookup ≡ some lookup
      → Replies I (lookup (lookup_request_of (intent_of executor.id signed))) (found effect)
      → validate_execution_effect effect ≡ ok tt
      → IsCompletable p I client store deps.signing_key signed effect executor.id recorded
      → Answers I
          (reconcile_uncertain_effect p client (handle_of executor.id signed reason registered))
          (completed (outcome_of effect recorded))
  unfolding reconcile_uncertain_effect after_load check_intent after_lookup intent_of
      clavenar_sdk.Execution.Execute.uncertain_from_intent
  reconcile_uncertain_effect-recovers id checked reconcilable given supported loads lookup effect
        recorded found_by finds valid c =
      >>=-Answers _
        (lift-Answers _
          ((validate_uncertain_execution_iff executor.id signed reason registered).1 reconcilable))
        (>>=-Answers _ (execution_dependencies-Answers client deps given supported) (
          >>=-Answers _ (passed-Answers _ _ (ground (arith, eq_iff executor.id executor.id))) (
            >>=-Answers _ (attempt-Answers (logged-Answers _ loads)) (
              rw
                (validate_uncertain_intent-uncertain_from_intent p executor.id signed reason
                  registered id checked)
                (>>=-Answers _ (looked_up-Answers executor _ lookup found_by finds) (
                  complete_found-Answers p client deps signed effect recorded valid c
                    (handle_of executor.id signed reason registered) (intent_of executor.id signed)
                    refl))))))
