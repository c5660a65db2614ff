-- ===== src/Tests/Lawful.antt =====
-- The store of the test world admits each authorization once, as src/execution.rs documents it.
use mathlib.Core.Option.{some-injective}
use clavenar_sdk.Prelude.{subst, ap, ◌∙◌, ◌≡◌, arith, true, false}
use clavenar_sdk.Effects.{ok}
use clavenar_sdk.Client.{Async, RegisteredToolExecutor}
use clavenar_sdk.Records.{
  EffectLookupRequest, EffectLookupOutcome, Uuid, ExecutionIntent, EffectAuthorizationUse, started,
}
use clavenar_sdk.Execution.AtMostOnce.{IsLawful, AdmitsOnce}
use clavenar_sdk.Tests.World.{World, store, client, admitted, begin}

begin_fresh :
    (intent : ExecutionIntent) (how : EffectAuthorizationUse) (w : World)
    → (begin intent how w).0 ≡ ok started
    → admitted w intent.authorization_id ≡ false
begin_fresh intent how w h = ground arith

begin-admitted :
    (intent : ExecutionIntent) (how : EffectAuthorizationUse) (w : World)
    → (begin intent how w).0 ≡ ok started
    → admitted (begin intent how w).1 intent.authorization_id ≡ true
begin-admitted intent how w h = ground arith

begin_keeps :
    (intent : ExecutionIntent) (how : EffectAuthorizationUse) (w : World) (id : Uuid)
    → admitted w id ≡ true
    → admitted (begin intent how w).1 id ≡ true
begin_keeps intent how w id h = ground arith

store-AdmitsOnce : AdmitsOnce admitted store
store-AdmitsOnce = record {
  starts_fresh = begin_fresh;
  starts_admitted = begin-admitted;
  begin_persists = begin_keeps;
  commit_persists = λ completion w id h. h;
  mark_persists = λ key receipt w id h. h;
  pending_persists = λ limit w id h. h;
  load_persists = λ key w id h. h;
}

pub client-IsLawful : IsLawful admitted client
client-IsLawful = record {
  store_admits_once =
      λ other e. subst (λ st. AdmitsOnce admitted st) (some-injective _ _ e) store-AdmitsOnce;
  post_persists = λ request w id h. h;
  callback_persists = λ other request e w id h.
      subst (λ (ex : RegisteredToolExecutor World). admitted (ex.callback request w).1 id ≡ true)
        (some-injective _ _ e) h;
  lookup_persists = λ other lookup request e l w id h.
      subst
        (λ (f : EffectLookupRequest → Async World EffectLookupOutcome).
          admitted (f request w).1 id ≡ true)
        (some-injective _ _
          (ap (λ (ex : RegisteredToolExecutor World). ex.effect_lookup) (some-injective _ _ e) ∙ l))
        h;
}
