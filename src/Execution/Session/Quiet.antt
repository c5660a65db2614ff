-- ===== src/Execution/Session/Quiet.antt =====
-- Which operations execute nothing.
use clavenar_sdk.Prelude.{ℕ, ◌≡◌, refl, ◌∙◌, ◌⊎◌, inl, inr, List, ◌∷◌}
use clavenar_sdk.Effects.{Result, Run}
use clavenar_sdk.Effects.Triples.{Keeps, Outcome-both}
use clavenar_sdk.Client.{ClavenarClient, DurableExecutionStore, Machine, Call, logged}
use clavenar_sdk.Platform.{Platform}
use clavenar_sdk.Records.{Uuid, UncertainExecution}
use clavenar_sdk.Execution.AtMostOnce.{executions}
use clavenar_sdk.Execution.Keeps.{IsQuiet, IsQuietStore}
use clavenar_sdk.Execution.Quiet
use clavenar_sdk.Execution.Session.{Operation, flush, reconcile, perform}
use clavenar_sdk.Execution.Session.Steps.{Keeps_state}

module _ {W : Type 0} (n : Uuid → ℕ) where
  -- The executor was invoked as often as `n` says.
  abbrev Executed : Machine W → Type 0
  Executed s = (id : Uuid) → executions id s.calls ≡ n id

  quiet_call :
      {E A : Type 0} (note : Result E A → Call) (m : Run W E A)
      → ((id : Uuid) (r : Result E A) (calls : List Call)
          → executions id (note r ∷ calls) ≡ executions id calls)
      → Keeps Executed (logged note m)
  unfolding logged
  quiet_call note m same = record {
    at = λ s h. Outcome-both Executed _ λ id. same id (m s.world).0 s.calls ∙ h id;
  }

  Executed-quiet : (c : ClavenarClient W) → IsQuiet c Executed
  Executed-quiet c = record {
    keeps_sent = λ request. quiet_call _ _ (λ id r calls. refl);
    keeps_looked_up =
        λ request executor lookup given registered. quiet_call _ _ (λ id r calls. refl);
  }

  Executed-quiet_store : (store : DurableExecutionStore W) → IsQuietStore store Executed
  Executed-quiet_store store = record {
    keeps_committed = λ completion. quiet_call _ _ (λ id r calls. refl);
    keeps_marked = λ id recorded. quiet_call _ _ (λ id r calls. refl);
    keeps_listed = λ limit. quiet_call _ _ (λ id r calls. refl);
    keeps_loaded = λ id. quiet_call _ _ (λ id r calls. refl);
  }

-- Receipt redelivery and reconciliation.
abbrev pub NeverExecutes : Operation → Type 0
NeverExecutes operation =
    ((limit : ℕ) × (operation ≡ flush limit))
    ⊎ ((handle : UncertainExecution) × (operation ≡ reconcile handle))

module _ (p : Platform) {W : Type 0} (c : ClavenarClient W) (s : Machine W) where
  flush_executes_nothing :
      (limit : ℕ) (id : Uuid)
      → executions id (perform p c (flush limit) s).calls ≡ executions id s.calls
  unfolding perform
  flush_executes_nothing limit = Keeps_state (Executed (λ id. executions id s.calls)) _ (
      (Quiet.flush_execution_receipt_outbox-Keeps p c _ (Executed-quiet _ c)
          (λ store given. Executed-quiet_store _ store) limit).at
        s (λ id. refl))

  reconcile_executes_nothing :
      (handle : UncertainExecution) (id : Uuid)
      → executions id (perform p c (reconcile handle) s).calls ≡ executions id s.calls
  unfolding perform
  reconcile_executes_nothing handle = Keeps_state (Executed (λ id. executions id s.calls)) _ (
      (Quiet.reconcile_uncertain_effect-Keeps p c _ (Executed-quiet _ c)
          (λ store given. Executed-quiet_store _ store) handle).at
        s (λ id. refl))

  -- Neither the redelivery of receipts nor the reconciliation of an uncertain effect invokes the
  -- executor, for any authorization and whatever the store, Proxy and the lookup answer.
  pub executions-perform_quiet :
      (operation : Operation) (id : Uuid)
      → NeverExecutes operation
      → executions id (perform p c operation s).calls ≡ executions id s.calls
  executions-perform_quiet operation id (inl (limit, e)) = rw e (flush_executes_nothing limit id)
  executions-perform_quiet operation id (inr (handle, e)) =
      rw e (reconcile_executes_nothing handle id)
