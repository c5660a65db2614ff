-- ===== src/Execution/Success/Authorized.antt =====
-- `execute_authorization` of src/execution.rs where it succeeds.
use clavenar_sdk.Prelude.{◌≡◌, refl, ◌∙◌, ap, Bool, false, true, ◌∷◌, if◌then◌else◌}
use clavenar_sdk.Effects.{Result, ok, err, pure, raise, Run}
use clavenar_sdk.Effects.Plain.{is_err-false}
use clavenar_sdk.Effects.Inversion.{>>=-ok, attempt>>=-ok}
use clavenar_sdk.Error.{ClavenarError}
use clavenar_sdk.Client.{ClavenarClient, Machine, attempted, executed, logged}
use clavenar_sdk.Platform.{Platform}
use clavenar_sdk.Records.{
  SignedAuthorization, ExecutionEffect, ExecutionOutcome, EffectAttemptClaim, started,
  already_in_flight, already_completed,
}
use clavenar_sdk.Execution.Complete.{
  KnownEffectCompletionError, persistence_uncertain, receipt_delivery,
}
use clavenar_sdk.Execution.Execute.{
  Dependencies, execute, execute_authorization, after_claim, after_execution, complete_effect,
  after_completion, intent_of, request_of, use_of,
}
use clavenar_sdk.Execution.Validation.{validate_execution_effect}
use clavenar_sdk.Execution.Success.{IsRecorded, complete_known_effect-IsRecorded}

branch :
    {S E A : Type 0} (b : Bool) (e : E) (m : Run S E A) (s : S) {a : A} {t : S}
    → (if b then raise e else m) s ≡ (ok a, t)
    → (b ≡ false) × (m s ≡ (ok a, t))
unfolding raise
branch true e m s {a} {t} h = cc
branch false e m s h = (refl, h)

module _ (p : Platform) {W : Type 0} (client : ClavenarClient W) (deps : Dependencies W)
    (signed : SignedAuthorization) where
  open deps use {executor, signing_key, store}

  -- The store admitted the attempt, the executor then ran once, and the effect that it returned is
  -- the one that was recorded.
  pub record IsExecuted (single : Bool) (outcome : ExecutionOutcome) (s t : Machine W)
      : Type 0 where
    pub effect : ExecutionEffect
    pub after : Machine W
    pub calls :
        after.calls
        ≡ executed (request_of executor.id signed) (ok effect)
          ∷ (attempted (intent_of executor.id signed) (use_of single) (ok started) ∷ s.calls)
    pub valid : validate_execution_effect effect ≡ ok tt
    pub recorded : IsRecorded p client store signing_key signed effect executor.id outcome after t

  completed-ok :
      (r : Result KnownEffectCompletionError ExecutionOutcome) (s : Machine W)
      {outcome : ExecutionOutcome} {t : Machine W}
      → after_completion p client deps signed r s ≡ (ok outcome, t)
      → (r ≡ ok outcome) × (s ≡ t)
  unfolding after_completion pure raise
  completed-ok (ok o) s {outcome} {t} h = (cc, cc)
  completed-ok (err persistence_uncertain) s {outcome} {t} h = cc
  completed-ok (err (receipt_delivery e)) s {outcome} {t} h = cc

  effect-ok :
      (r : Result ClavenarError ExecutionEffect) (s : Machine W) {outcome : ExecutionOutcome}
      {t : Machine W}
      → after_execution p client deps signed r s ≡ (ok outcome, t)
      → (effect : ExecutionEffect) × (r ≡ ok effect)
        × (validate_execution_effect effect ≡ ok tt)
        × IsRecorded p client store signing_key signed effect executor.id outcome s t
  unfolding after_execution complete_effect raise
  effect-ok (err e) s {outcome} {t} h = cc
  effect-ok (ok effect) s {outcome} {t} h =
      let (valid, h0) = branch _ _ _ s h in
      let (e, end) = completed-ok _ _ (attempt>>=-ok _ _ s h0) in
      (
        effect,
        refl,
        is_err-false _ valid,
        complete_known_effect-IsRecorded p client store signing_key signed effect executor.id s
            (λ i. (e i, end i)),
      )

  claim-ok :
      (claim : EffectAttemptClaim) (s : Machine W) {outcome : ExecutionOutcome} {t : Machine W}
      → after_claim p client deps signed claim s ≡ (ok outcome, t)
      → (claim ≡ started)
        × (after_execution p client deps signed
              (execute executor (request_of executor.id signed) s).0
              (execute executor (request_of executor.id signed) s).1
            ≡ (ok outcome, t))
  unfolding after_claim raise
  claim-ok started s {outcome} {t} h = (refl, attempt>>=-ok _ _ s h)
  claim-ok already_in_flight s {outcome} {t} h = cc
  claim-ok already_completed s {outcome} {t} h = cc

  -- An execution that succeeds made exactly these calls: the admission of its intent, answered
  -- `Started`, one execution of the authorized payload, the commit of the effect with its signed
  -- receipt, the delivery of the receipt that the store queued, which is that receipt, and its
  -- mark. The outcome holds the executor's result and effect id.
  pub execute_authorization-IsExecuted :
      (single : Bool) (s : Machine W) (outcome : ExecutionOutcome) (t : Machine W)
      → execute_authorization p client deps signed single s ≡ (ok outcome, t)
      → IsExecuted single outcome s t
  unfolding execute_authorization execute logged
  execute_authorization-IsExecuted single s outcome t h =
      let (claim, e0, h0) = >>=-ok _ _ s h in
      let (first, h1) = claim-ok claim _ h0 in
      let (effect, e1, valid, recorded) = effect-ok _ _ h1 in
      record {
        effect = effect;
        after = _;
        calls = λ i.
            executed (request_of executor.id signed) (e1 i)
            ∷ (attempted (intent_of executor.id signed) (use_of single) ((e0 ∙ ap ok first) i)
                ∷ s.calls);
        valid = valid;
        recorded = recorded;
      }
