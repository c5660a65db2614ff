-- ===== src/Execution/Success/Reconciled.antt =====
-- `reconcile_uncertain_effect` of src/execution.rs where it completes.
use mathlib.Core.Option.{some-injective}
use clavenar_sdk.Prelude.{
  subst, eq_iff, arith, ◌≡◌, refl, ◌∙◌, ap, Bool, false, true, ◌∷◌, if◌then◌else◌, Option, none,
  some, ◌/=◌, string_eq,
}
use clavenar_sdk.Effects.{Result, ok, err, pure, raise, Run, attempt, ◌>>=◌}
use clavenar_sdk.Effects.Plain.{is_err-false, reject_if}
use clavenar_sdk.Effects.Triples.{Outcome}
use clavenar_sdk.Effects.Inversion.{>>=-ok, lift>>=-ok, attempt>>=-ok}
use clavenar_sdk.Error.{invalid_config, ClavenarError}
use clavenar_sdk.Client.{Async, ClavenarClient, Machine, loaded, looked_up, logged}
use clavenar_sdk.Platform.{Platform}
use clavenar_sdk.Records.{
  ExecutionIntent, ExecutionEffect, ExecutionOutcome, EffectLookupRequest, EffectLookupOutcome,
  found, not_found, ambiguous, UncertainExecution, ExecutionReconciliationOutcome, completed,
  uncertain,
}
use clavenar_sdk.Execution.Complete.{
  KnownEffectCompletionError, persistence_uncertain, receipt_delivery,
}
use clavenar_sdk.Execution.Execute.{Dependencies, execution_dependencies}
use clavenar_sdk.Execution.Keeps.{IsProvided, execution_dependencies-Triple}
use clavenar_sdk.Execution.Reconcile.{
  reconcile_uncertain_effect, after_load, check_intent, after_lookup, complete_found,
  after_reconciled_completion, lookup_request_of,
}
use clavenar_sdk.Execution.Validation.{validate_execution_effect, validate_uncertain_intent}
use clavenar_sdk.Execution.Success.{IsRecorded, complete_known_effect-IsRecorded}

module _ (p : Platform) {W : Type 0} (client : ClavenarClient W) (handle : UncertainExecution)
    (deps : Dependencies W) where
  open deps use {executor, signing_key, store}

  -- An answer that still is uncertain does not complete.
  either :
      (b : Bool) (stop : UncertainExecution)
      (m : Run (Machine W) ClavenarError ExecutionReconciliationOutcome) (s : Machine W)
      {outcome : ExecutionOutcome} {t : Machine W}
      → (if b then pure (uncertain stop) else m) s ≡ (ok (completed outcome), t)
      → (b ≡ false) × (m s ≡ (ok (completed outcome), t))
  unfolding pure
  either true stop m s {outcome} {t} h = cc
  either false stop m s h = (refl, h)

  -- The effect that the lookup found was recorded.
  record IsFound (intent : ExecutionIntent)
      (answer : Option (Result ClavenarError EffectLookupOutcome)) (outcome : ExecutionOutcome)
      (s t : Machine W) : Type 0 where
    pub effect : ExecutionEffect
    pub known : answer ≡ some (ok (found effect))
    pub valid : validate_execution_effect effect ≡ ok tt
    pub recorded :
        IsRecorded p client store signing_key intent.authorization effect executor.id outcome s t

  completion-ok :
      (r : Result KnownEffectCompletionError ExecutionOutcome) (s : Machine W)
      {outcome : ExecutionOutcome} {t : Machine W}
      → after_reconciled_completion p client handle deps r s ≡ (ok (completed outcome), t)
      → (r ≡ ok outcome) × (s ≡ t)
  unfolding after_reconciled_completion pure raise
  completion-ok (ok o) s {outcome} {t} h = (cc, cc)
  completion-ok (err persistence_uncertain) s {outcome} {t} h = cc
  completion-ok (err (receipt_delivery e)) s {outcome} {t} h = cc

  lookup-ok :
      (intent : ExecutionIntent) (answer : Option (Result ClavenarError EffectLookupOutcome))
      (s : Machine W) {outcome : ExecutionOutcome} {t : Machine W}
      → after_lookup p client handle deps intent answer s ≡ (ok (completed outcome), t)
      → IsFound intent answer outcome s t
  unfolding after_lookup complete_found pure
  lookup-ok intent none s {outcome} {t} h = cc
  lookup-ok intent (some (err e)) s {outcome} {t} h = cc
  lookup-ok intent (some (ok not_found)) s {outcome} {t} h = cc
  lookup-ok intent (some (ok ambiguous)) s {outcome} {t} h = cc
  lookup-ok intent (some (ok (found effect))) s {outcome} {t} h =
      let (valid, h0) = either _ _ _ s h in
      let (e, end) = completion-ok _ _ (attempt>>=-ok _ _ s h0) in
      record {
        effect = effect;
        known = refl;
        valid = is_err-false _ valid;
        recorded =
            complete_known_effect-IsRecorded p client store signing_key intent.authorization effect
              executor.id s (λ i. (e i, end i));
      }

  -- The lookup was asked, and what it found was recorded.
  record IsLookedUp (intent : ExecutionIntent) (outcome : ExecutionOutcome) (s t : Machine W)
      : Type 0 where
    pub effect : ExecutionEffect
    pub after : Machine W
    pub calls : after.calls ≡ looked_up (lookup_request_of intent) (ok (found effect)) ∷ s.calls
    pub valid : validate_execution_effect effect ≡ ok tt
    pub recorded :
        IsRecorded p client store signing_key intent.authorization effect executor.id outcome after
          t

  asked-ok :
      (intent : ExecutionIntent)
      (registered : Option (EffectLookupRequest → Async W EffectLookupOutcome)) (s : Machine W)
      {outcome : ExecutionOutcome} {t : Machine W}
      → ((elim registered [
        | none ↦ pure none
        | some lookup ↦
            attempt
              (logged (looked_up (lookup_request_of intent)) (lookup (lookup_request_of intent)))
            >>= λ r. pure (some r)
      ])
            >>= after_lookup p client handle deps intent)
          s
        ≡ (ok (completed outcome), t)
      → IsLookedUp intent outcome s t
  unfolding ◌>>=◌ pure attempt logged
  asked-ok intent none s {outcome} {t} h = absurd (none_found (lookup-ok intent none s h))
    where
      none_found : IsFound intent none outcome s t → ⊥
      none_found f = let known = f.known in cc
  asked-ok intent (some lookup) s {outcome} {t} h =
      let found_effect = lookup-ok intent _ _ h in
      record {
        effect = found_effect.effect;
        after = _;
        calls =
            ap (λ a. looked_up (lookup_request_of intent) a ∷ s.calls)
              (some-injective _ _ found_effect.known);
        valid = found_effect.valid;
        recorded = found_effect.recorded;
      }

  -- Everything that a completed reconciliation rests on.
  pub record IsReconciled (outcome : ExecutionOutcome) (s t : Machine W) : Type 0 where
    pub intent : ExecutionIntent
    pub effect : ExecutionEffect
    pub after : Machine W
    pub calls :
        after.calls
        ≡ looked_up (lookup_request_of intent) (ok (found effect))
          ∷ (loaded handle.authorization_id (ok (some intent)) ∷ s.calls)
    pub matches : validate_uncertain_intent p handle intent ≡ ok tt
    pub valid : validate_execution_effect effect ≡ ok tt
    pub recorded :
        IsRecorded p client store signing_key intent.authorization effect executor.id outcome after
          t

  load-ok :
      (answer : Result ClavenarError (Option ExecutionIntent)) (s before : Machine W)
      {outcome : ExecutionOutcome} {t : Machine W}
      → before.calls ≡ loaded handle.authorization_id answer ∷ s.calls
      → after_load p client handle deps answer before ≡ (ok (completed outcome), t)
      → IsReconciled outcome s t
  unfolding after_load check_intent pure
  load-ok (err e) s before {outcome} {t} c h = cc
  load-ok (ok none) s before {outcome} {t} c h = cc
  load-ok (ok (some intent)) s before {outcome} {t} c h =
      let (matches, h0) = either _ _ _ before h in
      let asked = asked-ok intent executor.effect_lookup before h0 in
      record {
        intent = intent;
        effect = asked.effect;
        after = asked.after;
        calls =
            asked.calls
            ∙ ap (λ cs. looked_up (lookup_request_of intent) (ok (found asked.effect)) ∷ cs) c;
        matches = is_err-false _ matches;
        valid = asked.valid;
        recorded = asked.recorded;
      }

-- The dependencies that an operation got are the client's, and nothing else changed.
pub provided :
    {W : Type 0} (client : ClavenarClient W) (s : Machine W) (deps : Dependencies W)
    → (execution_dependencies client s).0 ≡ ok deps
    → IsProvided client deps × ((execution_dependencies client s).1 ≡ s)
provided client s deps e =
    subst (Outcome (λ d t. IsProvided client d × (t ≡ s)) (λ _ t. t ≡ s))
      (λ i. (e i, (execution_dependencies client s).1))
      ((execution_dependencies-Triple {P = λ t. t ≡ s} client).at s refl)

-- A reconciliation that completes made exactly these calls: the durable intent was loaded by the
-- handle's authorization id, it matches the handle, the lookup was asked for its effect, and the
-- valid effect that it found was committed, delivered and marked as in a direct execution. The
-- client's executor, key and store did this, and the executor is the one that the handle names.
pub reconcile_uncertain_effect-IsReconciled :
    (p : Platform) {W : Type 0} (client : ClavenarClient W) (handle : UncertainExecution)
    (s : Machine W) (outcome : ExecutionOutcome) (t : Machine W)
    → reconcile_uncertain_effect p client handle s ≡ (ok (completed outcome), t)
    → (deps : Dependencies W) × IsProvided client deps
      × (deps.executor.id ≡ handle.executor_id)
      × IsReconciled p client handle deps outcome s t
unfolding reconcile_uncertain_effect logged
reconcile_uncertain_effect-IsReconciled p {W} client handle s outcome t h =
    let (u, e0, h0) = lift>>=-ok _ _ s h in
    let (deps, e1, h1) = >>=-ok _ _ s h0 in
    let (given, same) = provided client s deps e1 in
    let (v, e2, h2) = lift>>=-ok _ _ _ h1 in
    let ready = attempt>>=-ok _ _ _ h2 in
    let answer =
      (deps.store.load_uncertain_intent handle.authorization_id
        (execution_dependencies client s).1.world).0 in
    (
      deps,
      given,
      same_executor deps e2,
      load-ok p client handle deps _ s _
          (ap (λ (x : Machine W). loaded handle.authorization_id answer ∷ x.calls) same) ready,
    )
  where
    same_executor :
        (deps : Dependencies W)
        → reject_if
            (deps.executor.id /= handle.executor_id)
            (invalid_config "uncertain effect is bound to a different registered executor")
          ≡ ok tt
        → deps.executor.id ≡ handle.executor_id
    same_executor deps e = ground (arith, eq_iff deps.executor.id handle.executor_id, e)
