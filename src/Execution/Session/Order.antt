-- ===== src/Execution/Session/Order.antt =====
-- What the executor is given, and when: throughout a session each execution follows the store's
-- admission of exactly the authorized payload.
use clavenar_sdk.Prelude.{◌≡◌, refl, sym, subst, String, List, [], ◌∷◌, All}
use clavenar_sdk.Effects.{Result, ok, err, Run}
use clavenar_sdk.Effects.Triples.{Keeps, Outcome, Outcome-both}
use clavenar_sdk.Error.{ClavenarError}
use clavenar_sdk.Client.{
  ClavenarClient, Machine, Call, sent, attempted, executed, looked_up, loaded, committed, listed,
  marked, logged,
}
use clavenar_sdk.Json.Canonical.{canonical_json_value, sha256}
use clavenar_sdk.Platform.{Platform}
use clavenar_sdk.Records.{
  Uuid, SignedAuthorization, ExecutionIntent, EffectAuthorizationUse, EffectAttemptClaim, started,
  already_in_flight, already_completed, ToolExecutionRequest,
}
use clavenar_sdk.Execution.Execute.{execute, intent_of, request_of, use_of}
use clavenar_sdk.Execution.Guarded.{AfterClaim, IsGuarded}
use clavenar_sdk.Execution.Session.{Operation, run_all, start}
use clavenar_sdk.Execution.Session.Steps.{run_all_keeps}
use clavenar_sdk.Execution.Validation.{validate_authorization}
use clavenar_sdk.Execution.Validation.Authorization.{IsBound, validate_authorization-IsBound}

module _ (p : Platform) where
  -- The request of an execution is the one that the intent commits to, and the intent carries a
  -- checked authorization with the digest of the executed payload.
  pub record IsAuthorized (intent : ExecutionIntent) (request : ToolExecutionRequest) : Type 0 where
    pub same_authorization : request.authorization_id ≡ intent.authorization_id
    pub same_request : request.idempotency_id ≡ intent.idempotency_id
    pub same_executor : request.executor_id ≡ intent.executor_id
    pub same_payload :
        request.execution_payload ≡ intent.authorization.authorization.execution_payload
    pub digest : intent.payload_sha256 ≡ sha256 p (canonical_json_value p request.execution_payload)
    pub bound : IsBound p intent.authorization intent.idempotency_id

  -- The call before an execution is its admission.
  abbrev pub IsReleased : ToolExecutionRequest → List Call → Type 0
  IsReleased request (attempted intent how (ok started) ∷ calls) = IsAuthorized intent request
  IsReleased request _ = ⊥

  abbrev pub IsOrdered : List Call → Type 0
  IsOrdered [] = Unit
  IsOrdered (executed request answer ∷ calls) = IsReleased request calls × IsOrdered calls
  IsOrdered (sent _ _ ∷ calls) = IsOrdered calls
  IsOrdered (attempted _ _ _ ∷ calls) = IsOrdered calls
  IsOrdered (looked_up _ _ ∷ calls) = IsOrdered calls
  IsOrdered (loaded _ _ ∷ calls) = IsOrdered calls
  IsOrdered (committed _ _ ∷ calls) = IsOrdered calls
  IsOrdered (listed _ _ ∷ calls) = IsOrdered calls
  IsOrdered (marked _ _ _ ∷ calls) = IsOrdered calls

  of_valid :
      (signed : SignedAuthorization) (id : Uuid)
      → validate_authorization p signed id ≡ ok tt
      → IsBound p signed signed.authorization.idempotency_id
  of_valid signed id valid =
      let bound = validate_authorization-IsBound p signed id valid in
      record {
        contract = bound.contract;
        stage = bound.stage;
        request = refl;
        digest = bound.digest;
        algorithm = bound.algorithm;
      }

  request_of-IsAuthorized :
      (executor_id : String) (signed : SignedAuthorization)
      → IsBound p signed signed.authorization.idempotency_id
      → IsAuthorized (intent_of executor_id signed) (request_of executor_id signed)
  unfolding intent_of request_of
  request_of-IsAuthorized executor_id signed bound = record {
    same_authorization = refl;
    same_request = refl;
    same_executor = refl;
    same_payload = refl;
    digest = bound.digest;
    bound = bound;
  }

  module _ {W : Type 0} where
    abbrev Ordered : Machine W → Type 0
    Ordered s = IsOrdered s.calls

    -- The newest call admitted this authorization.
    abbrev Armed : String → SignedAuthorization → Machine W → Type 0
    Armed executor_id signed s =
        (how : EffectAuthorizationUse) × (calls : List Call) × (s.calls
          ≡ attempted (intent_of executor_id signed) how (ok started) ∷ calls)
        × IsOrdered calls
        × IsBound p signed signed.authorization.idempotency_id

    module _ {E A : Type 0} where
      quiet_call :
          (note : Result E A → Call) (m : Run W E A)
          → ((r : Result E A) (calls : List Call) → IsOrdered (note r ∷ calls) ≡ IsOrdered calls)
          → Keeps Ordered (logged note m)
      unfolding logged
      quiet_call note m same = record {
        at = λ s h.
            Outcome-both Ordered (logged note m s)
              (subst (λ T. T) (sym (same (m s.world).0 s.calls)) h);
      }

    admitted_at :
        (executor_id : String) (signed : SignedAuthorization) (how : EffectAuthorizationUse) (w : W)
        (calls : List Call) (r : Result ClavenarError EffectAttemptClaim)
        → IsOrdered calls
        → IsBound p signed signed.authorization.idempotency_id
        → Outcome
            (AfterClaim Ordered (Armed executor_id signed))
            (λ _. Ordered)
            (
              r,
              record { world = w; calls = attempted (intent_of executor_id signed) how r ∷ calls },
            )
    admitted_at executor_id signed how w calls (ok started) h bound = (how, calls, refl, h, bound)
    admitted_at executor_id signed how w calls (ok already_in_flight) h bound = h
    admitted_at executor_id signed how w calls (ok already_completed) h bound = h
    admitted_at executor_id signed how w calls (err e) h bound = h

    released :
        (executor_id : String) (signed : SignedAuthorization) (s : Machine W)
        → Armed executor_id signed s
        → IsReleased (request_of executor_id signed) s.calls × IsOrdered s.calls
    released executor_id signed s (how, calls, e, h, bound) =
        rw e (request_of-IsAuthorized executor_id signed bound, h)

    Ordered-IsGuarded : (c : ClavenarClient W) → IsGuarded p c Ordered Armed
    unfolding execute logged
    Ordered-IsGuarded c = record {
      quiet = record {
        keeps_sent = λ request. quiet_call (sent request) _ (λ r calls. refl);
        keeps_looked_up = λ request executor lookup given registered.
            quiet_call (looked_up request) _ (λ r calls. refl);
      };
      quiet_store = λ store given. record {
        keeps_committed = λ completion. quiet_call (committed completion) _ (λ r calls. refl);
        keeps_marked = λ id recorded. quiet_call (marked id recorded) _ (λ r calls. refl);
        keeps_listed = λ limit. quiet_call (listed limit) _ (λ r calls. refl);
        keeps_loaded = λ id. quiet_call (loaded id) _ (λ r calls. refl);
      };
      admits = λ deps signed id single provided valid. record {
        at = λ s h.
            admitted_at deps.executor.id signed (use_of single) _ s.calls _ h
              (of_valid signed id valid);
      };
      runs = λ deps signed provided. record {
        at = λ s h.
            Outcome-both Ordered (execute deps.executor (request_of deps.executor.id signed) s)
              (released deps.executor.id signed s h);
      };
    }

    All-guarded :
        (steps : List (ClavenarClient W × Operation))
        → All (λ (step : ClavenarClient W × Operation). IsGuarded p step.0 Ordered Armed) steps
    All-guarded [] = tt
    All-guarded ((c, operation) ∷ rest) = (Ordered-IsGuarded c, All-guarded rest)

    -- Whatever operations run, and however Proxy, the store and the executor answer: the call just
    -- before each execution is an admission, answered `Started`, of an intent that names the same
    -- authorization, request and executor, that carries a checked authorization, and whose digest
    -- is that of the payload which the executor receives.
    pub run_all-IsOrdered :
        (steps : List (ClavenarClient W × Operation)) (w : W)
        → IsOrdered (run_all p steps (start w)).calls
    run_all-IsOrdered steps w = run_all_keeps p Ordered Armed steps (start w) (All-guarded steps) tt
