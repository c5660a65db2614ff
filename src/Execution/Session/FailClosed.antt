-- ===== src/Execution/Session/FailClosed.antt =====
-- What happens when a part that governed execution needs is missing.
use mathlib.Core.Option.{some-injective}
use clavenar_sdk.Prelude.{
  ℕ, String, List, sym, ◌∙◌, subst, ◌≢◌, ◌≡◌, refl, ap, ◌⊎◌, inl, inr, true, false, none, some,
}
use clavenar_sdk.Effects.{Result, is_err, lift, ◌>>=◌}
use clavenar_sdk.Effects.Failures.{Fails, Fails-bind, Fails-lift}
use clavenar_sdk.Error.{ClavenarError}
use clavenar_sdk.Client.{
  ClavenarClient, DurableExecutionStore, RegisteredToolExecutor, Machine, asks,
}
use clavenar_sdk.Platform.{Platform, SigningKey}
use clavenar_sdk.Records.{
  Uuid, ModelToolCall, PreparedToolRequest, PreparedToolBatch, PendingAuthorization,
  UncertainExecution,
}
use clavenar_sdk.Json.{Value}
use clavenar_sdk.Execution.Authorize.{Action}
use clavenar_sdk.Execution.Execute.{
  Dependencies, execution_dependencies, require_uncertain_effect_store,
}
use clavenar_sdk.Execution.Keeps.{ok_or-some}
use clavenar_sdk.Execution.Operations
use clavenar_sdk.Execution.Reconcile
use clavenar_sdk.Execution.Session.{
  Operation, execute_tool, execute_prepared_tool, execute_tool_batch, execute_prepared_tool_batch,
  begin_tool, resume_tool, begin_batch, resume_batch, flush, reconcile, perform, fails,
}

-- A client that lacks its executor, its key or its store, or whose store does not support the
-- reconciliation of uncertain effects.
abbrev pub IsUnready : {W : Type 0} → ClavenarClient W → W → Type 0
IsUnready {W} c w =
    (c.tool_executor ≡ none)
    ⊎ ((c.execution_signing_key ≡ none)
        ⊎ ((c.durable_execution_store ≡ none)
            ⊎ ((store : DurableExecutionStore W) × (c.durable_execution_store ≡ some store)
                × (store.supports_uncertain_effect_reconciliation w ≡ false))))

module _ {W : Type 0} (c : ClavenarClient W) (s : Machine W) where
  refuses_store :
      (store : DurableExecutionStore W)
      → store.supports_uncertain_effect_reconciliation s.world ≡ false
      → Fails (require_uncertain_effect_store store) s
  unfolding require_uncertain_effect_store asks ◌>>=◌
  refuses_store store h = rw h (_, refl)

  -- Where every part is there, it is the store that is unsupported.
  unsupported :
      {executor : RegisteredToolExecutor W} {key : SigningKey} {store : DurableExecutionStore W}
      → c.tool_executor ≡ some executor
      → c.execution_signing_key ≡ some key
      → c.durable_execution_store ≡ some store
      → IsUnready c s.world
      → store.supports_uncertain_effect_reconciliation s.world ≡ false
  unsupported he hk hs (inl e) = cc
  unsupported he hk hs (inr (inl e)) = cc
  unsupported he hk hs (inr (inr (inl e))) = cc
  unsupported he hk hs (inr (inr (inr (other, e, h)))) =
      subst
        (λ (st : DurableExecutionStore W).
          st.supports_uncertain_effect_reconciliation s.world ≡ false)
        (some-injective other _ (sym e ∙ hs)) h

  pub execution_dependencies-Fails : IsUnready c s.world → Fails (execution_dependencies c) s
  unfolding execution_dependencies
  execution_dependencies-Fails unready = Fails-lift _ _ s λ executor he. Fails-lift _ _ s λ _ _.
      Fails-lift _ _ s λ key hk. Fails-lift _ _ s λ store hs. Fails-bind _ _ s (
        refuses_store store (
          unsupported (ok_or-some c.tool_executor _ he) (ok_or-some c.execution_signing_key _ hk)
            (ok_or-some c.durable_execution_store _ hs) unready))

  -- The error is returned, and the machine is the one that was given.
  abbrev IsRefused : {A : Type 0} → Result ClavenarError A × Machine W → Type 0
  IsRefused r = (is_err r.0 ≡ true) × (r.1 ≡ s)

  refused : {A : Type 0} (m : Action W A) → Fails m s → IsRefused (m s)
  refused m (e, h) = (ap (λ r. is_err r.0) h, ap (λ r. r.1) h)

  module _ (p : Platform) (unready : IsUnready c s.world) where
    early :
        {A : Type 0} (f : Dependencies W → Action W A) → Fails (execution_dependencies c >>= f) s
    early f = Fails-bind _ f s (execution_dependencies-Fails unready)

    late :
        {A B : Type 0} (r : Result ClavenarError A) (f : Dependencies W → Action W B)
        → Fails (lift r >>= λ _. execution_dependencies c >>= f) s
    late r f = Fails-lift r _ s (λ _ _. early f)

    execute_tool-Fails :
        (id : Uuid) (name : String) (arguments : Value)
        → Fails (Operations.execute_tool p c id name arguments) s
    unfolding Operations.execute_tool
    execute_tool-Fails id name arguments = early _

    execute_prepared_tool-Fails :
        (prepared : PreparedToolRequest) → Fails (Operations.execute_prepared_tool p c prepared) s
    unfolding Operations.execute_prepared_tool
    execute_prepared_tool-Fails prepared = late _ _

    execute_tool_batch-Fails :
        (id : Uuid) (calls : List ModelToolCall)
        → Fails (Operations.execute_tool_batch p c id calls) s
    unfolding Operations.execute_tool_batch
    execute_tool_batch-Fails id calls = early _

    execute_prepared_tool_batch-Fails :
        (prepared : PreparedToolBatch)
        → Fails (Operations.execute_prepared_tool_batch p c prepared) s
    unfolding Operations.execute_prepared_tool_batch
    execute_prepared_tool_batch-Fails prepared = late _ _

    begin_tool-Fails :
        (prepared : PreparedToolRequest)
        → Fails (Operations.begin_prepared_tool_execution p c prepared) s
    unfolding Operations.begin_prepared_tool_execution
    begin_tool-Fails prepared = late _ _

    resume_tool-Fails :
        (prepared : PreparedToolRequest) (handle : PendingAuthorization)
        → Fails (Operations.resume_prepared_tool_execution p c prepared handle) s
    unfolding Operations.resume_prepared_tool_execution
    resume_tool-Fails prepared handle = late _ _

    begin_batch-Fails :
        (prepared : PreparedToolBatch)
        → Fails (Operations.begin_prepared_tool_batch_execution p c prepared) s
    unfolding Operations.begin_prepared_tool_batch_execution
    begin_batch-Fails prepared = late _ _

    resume_batch-Fails :
        (prepared : PreparedToolBatch) (handle : PendingAuthorization)
        → Fails (Operations.resume_prepared_tool_batch_execution p c prepared handle) s
    unfolding Operations.resume_prepared_tool_batch_execution
    resume_batch-Fails prepared handle = late _ _

    reconcile-Fails :
        (handle : UncertainExecution) → Fails (Reconcile.reconcile_uncertain_effect p c handle) s
    unfolding Reconcile.reconcile_uncertain_effect
    reconcile-Fails handle = late _ _

    -- Where the client lacks its executor, its key or its store, or the store does not support the
    -- reconciliation of uncertain effects, every operation but the redelivery of receipts returns
    -- an error and leaves the machine as it was: it makes no call to Proxy, to the store or to the
    -- executor.
    pub fails_closed :
        (operation : Operation)
        → ((limit : ℕ) → operation ≢ flush limit)
        → (fails p c operation s ≡ true) × (perform p c operation s ≡ s)
    unfolding fails perform
    fails_closed (execute_tool id name arguments) h =
        refused (Operations.execute_tool p c id name arguments)
          (execute_tool-Fails id name arguments)
    fails_closed (execute_prepared_tool prepared) h =
        refused (Operations.execute_prepared_tool p c prepared)
          (execute_prepared_tool-Fails prepared)
    fails_closed (execute_tool_batch id calls) h =
        refused (Operations.execute_tool_batch p c id calls) (execute_tool_batch-Fails id calls)
    fails_closed (execute_prepared_tool_batch prepared) h =
        refused (Operations.execute_prepared_tool_batch p c prepared)
          (execute_prepared_tool_batch-Fails prepared)
    fails_closed (begin_tool prepared) h =
        refused (Operations.begin_prepared_tool_execution p c prepared) (begin_tool-Fails prepared)
    fails_closed (resume_tool prepared handle) h =
        refused (Operations.resume_prepared_tool_execution p c prepared handle)
          (resume_tool-Fails prepared handle)
    fails_closed (begin_batch prepared) h =
        refused (Operations.begin_prepared_tool_batch_execution p c prepared)
          (begin_batch-Fails prepared)
    fails_closed (resume_batch prepared handle) h =
        refused (Operations.resume_prepared_tool_batch_execution p c prepared handle)
          (resume_batch-Fails prepared handle)
    fails_closed (flush limit) h = absurd (h limit refl)
    fails_closed (reconcile handle) h =
        refused (Reconcile.reconcile_uncertain_effect p c handle) (reconcile-Fails handle)
