-- ===== src/Execution/Quiet.antt =====
-- The operations of src/execution.rs that never execute a tool keep whatever the quiet calls keep:
-- receipt redelivery, reconciliation and the authorizations.
use clavenar_sdk.Prelude.{◌≡◌, ℕ, ◌+◌, Option, none, some, List, [], ◌∷◌, Option-cases, inl, inr}
use clavenar_sdk.Effects.{Result, ok, err, is_err}
use clavenar_sdk.Effects.Triples.{
  Triple-if, Keeps, Keeps-lift, Keeps-pure, Keeps-raise, Keeps-bind, Triple-bind_fact,
  Triple-bind_lift, Keeps-attempt,
}
use clavenar_sdk.Error.{ClavenarError}
use clavenar_sdk.Client.{ClavenarClient, DurableExecutionStore, Machine}
use clavenar_sdk.Platform.{Platform}
use clavenar_sdk.Records.{
  ExecutionEffect, ExecutionOutcome, UncertainExecution, ExecutionIntent, ReceiptOutboxEntry,
  EffectLookupRequest, EffectLookupOutcome, found, not_found, ambiguous,
}
use clavenar_sdk.Execution.Complete.{
  KnownEffectCompletionError, persistence_uncertain, receipt_delivery,
}
use clavenar_sdk.Execution.Execute.{Dependencies}
use clavenar_sdk.Execution.Keeps.{
  IsQuiet, IsQuietStore, IsProvided, ok_or-some, deliver_outbox_entry-Keeps,
  complete_known_effect-Keeps, execution_dependencies-Triple,
}
use clavenar_sdk.Execution.Outbox.{deliver_all, flush_execution_receipt_outbox}
use clavenar_sdk.Execution.Reconcile.{
  lookup_effect, lookup_request_of, after_reconciled_completion, complete_found, after_lookup,
  check_intent, after_load, reconcile_uncertain_effect,
}
use clavenar_sdk.Execution.Validation.{validate_execution_effect, validate_uncertain_intent}

module _ (p : Platform) {W : Type 0} (client : ClavenarClient W) (P : Machine W → Type 0)
    (quiet : IsQuiet client P)
    (quiet_store : (store : DurableExecutionStore W)
      → client.durable_execution_store ≡ some store
      → IsQuietStore store P) where
  deliver_all-Keeps :
      (store : DurableExecutionStore W) (delivered : ℕ) (entries : List ReceiptOutboxEntry)
      → IsQuietStore store P
      → Keeps P (deliver_all p client store delivered entries)
  unfolding deliver_all
  deliver_all-Keeps store delivered [] q = Keeps-pure _
  deliver_all-Keeps store delivered (entry ∷ rest) q =
      Keeps-bind _ _ (deliver_outbox_entry-Keeps p client P quiet store q entry)
        λ _. deliver_all-Keeps store (delivered + 1) rest q

  pub flush_execution_receipt_outbox-Keeps :
      (limit : ℕ) → Keeps P (flush_execution_receipt_outbox p client limit)
  unfolding flush_execution_receipt_outbox
  flush_execution_receipt_outbox-Keeps limit = Keeps-bind _ _ (Keeps-lift _) λ _.
      Triple-bind_lift _ _
        (λ store given.
          let q : IsQuietStore store P =
            quiet_store store (ok_or-some client.durable_execution_store _ given) in
          Keeps-bind _ _ (q.keeps_listed limit)
            λ entries. Keeps-bind _ _ (Keeps-lift _) λ _. deliver_all-Keeps store 0 entries q)
        (λ e s h. h)

  module _ (handle : UncertainExecution) (deps : Dependencies W)
      (provided : IsProvided client deps) where
    after_reconciled_completion-Keeps :
        (r : Result KnownEffectCompletionError ExecutionOutcome)
        → Keeps P (after_reconciled_completion p client handle deps r)
    unfolding after_reconciled_completion
    after_reconciled_completion-Keeps (ok outcome) = Keeps-pure _
    after_reconciled_completion-Keeps (err persistence_uncertain) = Keeps-pure _
    after_reconciled_completion-Keeps (err (receipt_delivery e)) = Keeps-raise _

    complete_found-Keeps :
        (intent : ExecutionIntent) (effect : ExecutionEffect)
        → Keeps P (complete_found p client handle deps intent effect)
    unfolding complete_found
    complete_found-Keeps intent effect =
        Triple-if (is_err (validate_execution_effect effect)) _ _ (λ _. Keeps-pure _)
          λ _.
            Keeps-bind _ _
              (Keeps-attempt _ (
                complete_known_effect-Keeps p client P quiet deps.store
                  (quiet_store deps.store provided.store_given) deps.signing_key
                  intent.authorization effect deps.executor.id))
              after_reconciled_completion-Keeps

    after_lookup-Keeps :
        (intent : ExecutionIntent) (answer : Option (Result ClavenarError EffectLookupOutcome))
        → Keeps P (after_lookup p client handle deps intent answer)
    unfolding after_lookup
    after_lookup-Keeps intent none = Keeps-pure _
    after_lookup-Keeps intent (some (err _)) = Keeps-pure _
    after_lookup-Keeps intent (some (ok not_found)) = Keeps-pure _
    after_lookup-Keeps intent (some (ok ambiguous)) = Keeps-pure _
    after_lookup-Keeps intent (some (ok (found effect))) = complete_found-Keeps intent effect

    lookup_effect-Keeps :
        (request : EffectLookupRequest) → Keeps P (lookup_effect deps.executor request)
    lookup_effect-Keeps request = elim (Option-cases deps.executor.effect_lookup) [
      | inl e ↦ rw e (Keeps-pure _)
      | inr (lookup, e) ↦ rw e (
          Keeps-bind _ _
            (Keeps-attempt _
              (quiet.keeps_looked_up request deps.executor lookup provided.executor_given e))
            (λ _. Keeps-pure _))
    ]

    check_intent-Keeps :
        (intent : ExecutionIntent) → Keeps P (check_intent p client handle deps intent)
    unfolding check_intent
    check_intent-Keeps intent =
        Triple-if (is_err (validate_uncertain_intent p handle intent)) _ _ (λ _. Keeps-pure _)
          λ _.
            Keeps-bind _ _ (lookup_effect-Keeps (lookup_request_of intent))
              (after_lookup-Keeps intent)

    after_load-Keeps :
        (answer : Result ClavenarError (Option ExecutionIntent))
        → Keeps P (after_load p client handle deps answer)
    unfolding after_load
    after_load-Keeps (ok (some intent)) = check_intent-Keeps intent
    after_load-Keeps (ok none) = Keeps-pure _
    after_load-Keeps (err _) = Keeps-pure _

  pub reconcile_uncertain_effect-Keeps :
      (handle : UncertainExecution) → Keeps P (reconcile_uncertain_effect p client handle)
  unfolding reconcile_uncertain_effect
  reconcile_uncertain_effect-Keeps handle = Keeps-bind _ _ (Keeps-lift _) λ _.
      Triple-bind_fact (IsProvided client) _ _ (execution_dependencies-Triple client)
        λ deps provided. Keeps-bind _ _ (Keeps-lift _) λ _.
          Keeps-bind _ _
            (Keeps-attempt _
              ((quiet_store deps.store provided.store_given).keeps_loaded handle.authorization_id))
            (after_load-Keeps handle deps provided)
