-- ===== src/Execution/AtMostOnce.antt =====
-- At most one execution for each authorization: what the store promises of
-- `begin_effect_attempt`, and what the client makes of it (src/execution.rs).
use clavenar_sdk.Prelude.{
  ℕ, suc, ◌≤◌, ◌≡◌, refl, arith, Bool, true, false, String, some, List, [], ◌∷◌, ◌==◌, nat_eq,
  if◌then◌else◌,
}
use clavenar_sdk.Effects.{Result, ok, err, Run}
use clavenar_sdk.Effects.Triples.{Triple, Keeps, Outcome, Outcome-both}
use clavenar_sdk.Error.{ClavenarError}
use clavenar_sdk.Client.{
  Async, ClavenarClient, DurableExecutionStore, RegisteredToolExecutor, HttpRequest, Machine, Call,
  sent, attempted, executed, looked_up, loaded, committed, listed, marked, logged,
}
use clavenar_sdk.Platform.{Platform}
use clavenar_sdk.Records.{
  Uuid, SignedAuthorization, ExecutionIntent, EffectAuthorizationUse, EffectAttemptClaim, started,
  already_in_flight, already_completed, ToolExecutionRequest, EffectLookupRequest,
  EffectLookupOutcome, ExecutionCompletion, ReceiptRecorded,
}
use clavenar_sdk.Execution.Execute.{Dependencies, execute, intent_of, request_of, use_of}
use clavenar_sdk.Execution.Guarded.{AfterClaim, IsGuarded}
use clavenar_sdk.Execution.Keeps.{IsQuiet, IsQuietStore, IsProvided}

-- How often the executor was invoked for an authorization.
abbrev pub executions : Uuid → List Call → ℕ
executions id [] = 0
executions id (executed request answer ∷ calls) =
    let rest = executions id calls in if request.authorization_id == id then suc rest else rest
executions id (sent _ _ ∷ calls) = executions id calls
executions id (attempted _ _ _ ∷ calls) = executions id calls
executions id (looked_up _ _ ∷ calls) = executions id calls
executions id (loaded _ _ ∷ calls) = executions id calls
executions id (committed _ _ ∷ calls) = executions id calls
executions id (listed _ _ ∷ calls) = executions id calls
executions id (marked _ _ _ ∷ calls) = executions id calls

abbrev pub quota : Bool → ℕ
quota true = 1
quota false = 0

quota_mono : (b c : Bool) → (b ≡ true → c ≡ true) → quota b ≤ quota c
quota_mono b c h = ground arith

pub quota-le-one : (b : Bool) → quota b ≤ 1
quota-le-one b = ground arith

module _ {W : Type 0} (admitted : W → Uuid → Bool) where
  -- An authorization once admitted stays admitted.
  abbrev pub Persists : {E A : Type 0} → Run W E A → Type 0
  Persists m = (w : W) (id : Uuid) → admitted w id ≡ true → admitted (m w).1 id ≡ true

  -- The documented promise of a store: `Started` is answered to the first attempt of an
  -- authorization, which it admits, and to no later one.
  pub record AdmitsOnce (store : DurableExecutionStore W) : Type 0 where
    pub starts_fresh :
        (intent : ExecutionIntent) (how : EffectAuthorizationUse) (w : W)
        → (store.begin_effect_attempt intent how w).0 ≡ ok started
        → admitted w intent.authorization_id ≡ false
    pub starts_admitted :
        (intent : ExecutionIntent) (how : EffectAuthorizationUse) (w : W)
        → (store.begin_effect_attempt intent how w).0 ≡ ok started
        → admitted (store.begin_effect_attempt intent how w).1 intent.authorization_id ≡ true
    pub begin_persists :
        (intent : ExecutionIntent) (how : EffectAuthorizationUse)
        → Persists (store.begin_effect_attempt intent how)
    pub commit_persists :
        (completion : ExecutionCompletion)
        → Persists (store.commit_effect_and_enqueue_receipt completion)
    pub mark_persists :
        (id : String) (recorded : ReceiptRecorded)
        → Persists (store.mark_receipt_delivered id recorded)
    pub pending_persists : (limit : ℕ) → Persists (store.pending_receipts limit)
    pub load_persists : (id : Uuid) → Persists (store.load_uncertain_intent id)

  -- Nothing else that the client calls takes an admission back.
  pub record IsLawful (client : ClavenarClient W) : Type 0 where
    pub store_admits_once :
        (store : DurableExecutionStore W)
        → client.durable_execution_store ≡ some store
        → AdmitsOnce store
    pub post_persists : (request : HttpRequest) → Persists (client.post request)
    pub callback_persists :
        (executor : RegisteredToolExecutor W) (request : ToolExecutionRequest)
        → client.tool_executor ≡ some executor
        → Persists (executor.callback request)
    pub lookup_persists :
        (executor : RegisteredToolExecutor W)
        (lookup : EffectLookupRequest → Async W EffectLookupOutcome) (request : EffectLookupRequest)
        → client.tool_executor ≡ some executor
        → executor.effect_lookup ≡ some lookup
        → Persists (lookup request)

  -- An authorization that was not admitted was never executed, and no other more than once.
  abbrev pub AtMostOnce : Machine W → Type 0
  AtMostOnce s = (id : Uuid) → executions id s.calls ≤ quota (admitted s.world id)

  -- Between admission and execution.
  abbrev pub Armed : String → SignedAuthorization → Machine W → Type 0
  Armed executor_id signed s =
      (executions signed.authorization.authorization_id s.calls ≡ 0)
      × (admitted s.world signed.authorization.authorization_id ≡ true)
      × AtMostOnce s

  module _ {E A : Type 0} where
    -- A call that is no execution, and that keeps admissions.
    quiet_call :
        (note : Result E A → Call) (m : Run W E A)
        → ((id : Uuid) (r : Result E A) (calls : List Call)
            → executions id (note r ∷ calls) ≡ executions id calls)
        → Persists m
        → Keeps AtMostOnce (logged note m)
    unfolding logged
    quiet_call note m same keeps = record {
      at = λ s h. Outcome-both AtMostOnce _ λ id. omega (
        arith,
        h id,
        same id (m s.world).0 s.calls,
        quota_mono (admitted s.world id) (admitted (m s.world).1 id) (keeps s.world id),
      );
    }

  admitted_at :
      (executor_id : String) (signed : SignedAuthorization) (s : Machine W)
      (r : Result ClavenarError EffectAttemptClaim)
      → AtMostOnce s
      → (r ≡ ok started → Armed executor_id signed s)
      → Outcome (AfterClaim AtMostOnce (Armed executor_id signed)) (λ _. AtMostOnce) (r, s)
  admitted_at executor_id signed s (ok started) h k = k refl
  admitted_at executor_id signed s (ok already_in_flight) h k = h
  admitted_at executor_id signed s (ok already_completed) h k = h
  admitted_at executor_id signed s (err e) h k = h

  module _ (client : ClavenarClient W) (lawful : IsLawful client) where
    quiet-AtMostOnce : IsQuiet client AtMostOnce
    quiet-AtMostOnce = record {
      keeps_sent = λ request. quiet_call _ _ (λ id r calls. refl) (lawful.post_persists request);
      keeps_looked_up = λ request executor lookup given registered.
          quiet_call _ _ (λ id r calls. refl)
            (lawful.lookup_persists executor lookup request given registered);
    }

    quiet_store-AtMostOnce :
        (store : DurableExecutionStore W)
        → client.durable_execution_store ≡ some store
        → IsQuietStore store AtMostOnce
    quiet_store-AtMostOnce store given = record {
      keeps_committed =
          λ completion. quiet_call _ _ (λ id r calls. refl) (once.commit_persists completion);
      keeps_marked =
          λ id recorded. quiet_call _ _ (λ id r calls. refl) (once.mark_persists id recorded);
      keeps_listed = λ limit. quiet_call _ _ (λ id r calls. refl) (once.pending_persists limit);
      keeps_loaded = λ id. quiet_call _ _ (λ id r calls. refl) (once.load_persists id);
    }
      where
        once : AdmitsOnce store
        once = lawful.store_admits_once store given

    admits-AtMostOnce :
        (deps : Dependencies W) (signed : SignedAuthorization) (single : Bool)
        → IsProvided client deps
        → Triple AtMostOnce
            (logged
              (attempted (intent_of deps.executor.id signed) (use_of single))
              (deps.store.begin_effect_attempt (intent_of deps.executor.id signed) (use_of single)))
            (AfterClaim AtMostOnce (Armed deps.executor.id signed))
            (λ _. AtMostOnce)
    unfolding logged intent_of
    admits-AtMostOnce deps signed single provided = record {
      at = λ s h.
          let w = s.world in
          let b = deps.store.begin_effect_attempt intent how w in
          let kept : (id : Uuid) → executions id s.calls ≤ quota (admitted b.1 id) = λ id. omega (
            arith,
            h id,
            quota_mono (admitted w id) (admitted b.1 id) (once.begin_persists intent how w id),
          ) in
          admitted_at deps.executor.id signed _ b.0 kept λ e.
            let fresh = once.starts_fresh intent how w e in
            (ground (arith, h intent.authorization_id), once.starts_admitted intent how w e, kept);
    }
      where
        how : EffectAuthorizationUse
        how = use_of single

        intent : ExecutionIntent
        intent = intent_of deps.executor.id signed

        once : AdmitsOnce deps.store
        once = lawful.store_admits_once deps.store provided.store_given

    runs-AtMostOnce :
        (deps : Dependencies W) (signed : SignedAuthorization)
        → IsProvided client deps
        → Triple
            (Armed deps.executor.id signed)
            (execute deps.executor (request_of deps.executor.id signed))
            (λ _. AtMostOnce)
            (λ _. AtMostOnce)
    unfolding execute logged request_of
    runs-AtMostOnce deps signed provided = record {
      at = λ s h. Outcome-both AtMostOnce _ λ id. ground (
        arith,
        h.2 id,
        h.0,
        h.1,
        lawful.callback_persists deps.executor (request_of deps.executor.id signed)
            provided.executor_given s.world id,
      );
    }

    pub AtMostOnce-IsGuarded : (p : Platform) → IsGuarded p client AtMostOnce Armed
    AtMostOnce-IsGuarded p = record {
      quiet = quiet-AtMostOnce;
      quiet_store = quiet_store-AtMostOnce;
      admits =
          λ deps signed id single provided valid. admits-AtMostOnce deps signed single provided;
      runs = runs-AtMostOnce;
    }
