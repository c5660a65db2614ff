-- ===== src/Execution/Accounted.antt =====
-- What is known of an effect once its attempt was admitted, however the execution of
-- src/execution.rs ends.
use clavenar_sdk.Prelude.{
  ◌≡◌, refl, subst, sym, String, Bool, List, [], ◌∷◌, ◌⊎◌, inl, inr, is_some,
}
use clavenar_sdk.Effects.{continue, map_err, Result, ok, err, attempt, lift, ◌>>=◌, Run}
use clavenar_sdk.Effects.Triples.{
  Triple, Triple-lift, Triple-bind, Triple-if, Triple-raise, Triple-pure, Triple-attempt,
  Triple-on_err, Triple-weaken, Keeps, Outcome, Outcome-both,
}
use clavenar_sdk.Error.{ClavenarError, execution_uncertain}
use clavenar_sdk.Client.{
  ClavenarClient, DurableExecutionStore, Machine, Call, committed, sent, looked_up, listed, loaded,
  marked, attempted, executed, logged,
}
use clavenar_sdk.Platform.{Platform}
use clavenar_sdk.Records.{
  Uuid, SignedAuthorization, ExecutionEffect, ExecutionCompletion, ReceiptOutboxEntry,
  UncertainEffectReason, executor_outcome_unknown, lookup_invalid, started, ExecutionOutcome,
}
use clavenar_sdk.Execution.Complete.{
  KnownEffectCompletionError, persistence_uncertain, receipt_delivery, complete_known_effect,
  completion_of,
}
use clavenar_sdk.Execution.Execute.{
  Dependencies, execute_authorization, after_claim, after_execution, complete_effect,
  after_completion, intent_of, use_of, uncertain_from_intent, uncertain_with_reason,
}
use clavenar_sdk.Execution.Keeps.{IsQuiet, IsQuietStore, deliver_outbox_entry-Keeps}

-- The store committed an effect of this authorization.
abbrev pub HasCommit : Uuid → List Call → Type 0
HasCommit id [] = ⊥
HasCommit id (committed completion (ok entry) ∷ calls) =
    (completion.authorization_id ≡ id) ⊎ HasCommit id calls
HasCommit id (committed completion (err e) ∷ calls) = HasCommit id calls
HasCommit id (sent _ _ ∷ calls) = HasCommit id calls
HasCommit id (attempted _ _ _ ∷ calls) = HasCommit id calls
HasCommit id (executed _ _ ∷ calls) = HasCommit id calls
HasCommit id (looked_up _ _ ∷ calls) = HasCommit id calls
HasCommit id (loaded _ _ ∷ calls) = HasCommit id calls
HasCommit id (listed _ _ ∷ calls) = HasCommit id calls
HasCommit id (marked _ _ _ ∷ calls) = HasCommit id calls

keep_commit :
    (id : Uuid) (completion : ExecutionCompletion) (r : Result ClavenarError ReceiptOutboxEntry)
    (calls : List Call)
    → HasCommit id calls
    → HasCommit id (committed completion r ∷ calls)
keep_commit id completion (ok entry) calls h = inr h
keep_commit id completion (err e) calls h = h

module _ {W : Type 0} (id : Uuid) where
  abbrev Committed : Machine W → Type 0
  Committed s = HasCommit id s.calls

  keep_call :
      {E A : Type 0} (note : Result E A → Call) (m : Run W E A)
      → ((r : Result E A) (calls : List Call) → HasCommit id calls → HasCommit id (note r ∷ calls))
      → Keeps Committed (logged note m)
  unfolding logged
  keep_call note m keep = record {
    at = λ s h. Outcome-both Committed (logged note m s) (keep (m s.world).0 s.calls h);
  }

  Committed-quiet : (client : ClavenarClient W) → IsQuiet client Committed
  Committed-quiet client = record {
    keeps_sent = λ request. keep_call (sent request) _ (λ r calls h. h);
    keeps_looked_up = λ request executor lookup given registered.
        keep_call (looked_up request) _ (λ r calls h. h);
  }

  Committed-quiet_store : (store : DurableExecutionStore W) → IsQuietStore store Committed
  Committed-quiet_store store = record {
    keeps_committed = λ completion. keep_call (committed completion) _ (keep_commit id completion);
    keeps_marked = λ key recorded. keep_call (marked key recorded) _ (λ r calls h. h);
    keeps_listed = λ limit. keep_call (listed limit) _ (λ r calls h. h);
    keeps_loaded = λ key. keep_call (loaded key) _ (λ r calls h. h);
  }

module _ (p : Platform) {W : Type 0} (client : ClavenarClient W) (deps : Dependencies W)
    (signed : SignedAuthorization) where
  open deps use {executor, signing_key, store}

  abbrev Anything : Machine W → Type 0
  Anything s = Unit

  abbrev Kept : Machine W → Type 0
  Kept = Committed signed.authorization.authorization_id

  commit_at :
      (completion : ExecutionCompletion) (r : Result ClavenarError ReceiptOutboxEntry) (w : W)
      (calls : List Call)
      → completion.authorization_id ≡ signed.authorization.authorization_id
      → Outcome
          (λ entry s. Kept s)
          (λ e s. (persistence_uncertain ≡ persistence_uncertain) ⊎ Kept s)
          (r, record { world = w; calls = committed completion r ∷ calls })
  commit_at completion (ok entry) w calls same = inl same
  commit_at completion (err e) w calls same = inl refl

  lift_at :
      (r : Result ClavenarError String)
      → Triple Anything
          (lift (map_err (λ _. persistence_uncertain) r))
          (λ text. Anything)
          (λ e s. (e ≡ persistence_uncertain) ⊎ Kept s)
  unfolding lift
  lift_at (ok text) = record { at = λ s h. tt }
  lift_at (err e) = record { at = λ s h. inl refl }

  -- An effect whose completion fails is committed, unless its persistence is uncertain.
  complete_known_effect-Kept :
      (effect : ExecutionEffect)
      → Triple Anything
          (complete_known_effect p client store signing_key signed effect executor.id)
          (λ outcome. Kept)
          (λ e s. (e ≡ persistence_uncertain) ⊎ Kept s)
  unfolding complete_known_effect logged completion_of
  complete_known_effect-Kept effect =
      Triple-bind (λ canonical. Anything) _ _ (lift_at _)
        λ canonical.
          Triple-bind (λ entry. Kept) _ _
            (Triple-on_err _ _ (record { at = λ s h. commit_at _ _ _ s.calls refl }))
            λ entry.
              Triple-bind (λ u. Kept) _ _ (Triple-lift _ (λ a e s h. h) (λ e s h. inr h))
                λ u.
                  Triple-bind (λ recorded. Kept) _ _
                    (Triple-on_err _ _ (
                      Triple-weaken (λ a. Kept) _ (λ e. Kept) _ _ (λ s h. h) (λ a s h. h)
                        (λ e s h. inr h)
                        (deliver_outbox_entry-Keeps p client Kept (Committed-quiet _ client) store
                          (Committed-quiet_store _ store) entry)))
                    λ recorded. Triple-pure _ (λ s h. h)

  -- The error is a handle for this execution, whatever its reason.
  abbrev pub IsHandle : ClavenarError → Type 0
  IsHandle e =
      (reason : UncertainEffectReason) × (e
        ≡ execution_uncertain (
            uncertain_from_intent (intent_of executor.id signed) reason
              (is_some executor.effect_lookup)))

  abbrev Known : ClavenarError → Machine W → Type 0
  Known e s = IsHandle e ⊎ Kept s

  abbrev AfterCompletion : Result KnownEffectCompletionError ExecutionOutcome → Machine W → Type 0
  AfterCompletion (ok outcome) s = Kept s
  AfterCompletion (err e) s = (e ≡ persistence_uncertain) ⊎ Kept s

  after_completion-Known :
      (r : Result KnownEffectCompletionError ExecutionOutcome)
      → Triple (AfterCompletion r) (after_completion p client deps signed r) (λ outcome. Kept) Known
  unfolding after_completion
  after_completion-Known (ok outcome) = Triple-pure _ (λ s h. h)
  after_completion-Known (err persistence_uncertain) =
      Triple-raise _ (λ s h. inl (executor_outcome_unknown, refl))
  after_completion-Known (err (receipt_delivery e)) = Triple-raise _ (λ s h. inr (delivery s h))
    where
      delivery : (s : Machine W) → (receipt_delivery e ≡ persistence_uncertain) ⊎ Kept s → Kept s
      delivery s (inl h) = cc
      delivery s (inr h) = h

  after_execution-Known :
      (r : Result ClavenarError ExecutionEffect)
      → Triple Anything (after_execution p client deps signed r) (λ outcome. Kept) Known
  unfolding after_execution complete_effect uncertain_with_reason uncertain_from_intent
  after_execution-Known (err e) = Triple-raise _ (λ s h. inl (executor_outcome_unknown, refl))
  after_execution-Known (ok effect) =
      Triple-if _ _ _ (λ invalid. Triple-raise _ (λ s h. inl (lookup_invalid, refl)))
        λ valid.
          Triple-bind AfterCompletion _ _
            (Triple-attempt AfterCompletion _ _ (complete_known_effect-Kept effect))
            after_completion-Known

  after_claim-Known :
      Triple Anything (after_claim p client deps signed started) (λ outcome. Kept) Known
  unfolding after_claim attempt
  after_claim-Known =
      Triple-bind (λ r. Anything) _ _ (record { at = λ s h. tt }) after_execution-Known

  -- A success committed the effect, and an error is a handle or leaves the effect committed.
  abbrev pub IsAccounted : Result ClavenarError ExecutionOutcome × Machine W → Type 0
  IsAccounted (ok outcome, s) = Kept s
  IsAccounted (err e, s) = IsHandle e ⊎ Kept s

  IsAccounted-at :
      (r : Result ClavenarError ExecutionOutcome × Machine W)
      → Outcome (λ outcome. Kept) Known r
      → IsAccounted r
  IsAccounted-at (ok outcome, s) h = h
  IsAccounted-at (err e, s) h = h

  -- No admitted effect is lost: once the store has answered `Started`, the execution either ends
  -- with the effect committed to the store, whether it then succeeds or fails to deliver the
  -- receipt, or returns an uncertain handle for exactly this authorization, request, payload and
  -- executor. This holds whatever the executor, the store and Proxy answer.
  pub execute_authorization-IsAccounted :
      (single : Bool) (s : Machine W)
      → (store.begin_effect_attempt (intent_of executor.id signed) (use_of single) s.world).0
        ≡ ok started
      → IsAccounted (execute_authorization p client deps signed single s)
  unfolding execute_authorization logged ◌>>=◌
  execute_authorization-IsAccounted single s e =
      subst (λ r. (t : Machine W) → IsAccounted (continue r (after_claim p client deps signed) t))
        (sym e)
        (λ t.
          IsAccounted-at (after_claim p client deps signed started t) (after_claim-Known.at t tt))
        _
