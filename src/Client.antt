-- ===== src/Client.antt =====
-- What a client holds (src/client.rs), the application's parts that it calls (the durable store
-- and the registered executor of src/execution.rs), and the outside world that they share.
--
-- A run works on a `Machine`: the state of everything outside the crate, and the calls made to it
-- so far, the newest first. The calls are a record for statements; no function reads them.
use clavenar_sdk.Prelude.{ℕ, Bool, false, String, Option, none, some, List, ◌∷◌}
use clavenar_sdk.Effects.{Result, err, Run}
use clavenar_sdk.Error.{ClavenarError, invalid_config}
use clavenar_sdk.Json.{Value}
use clavenar_sdk.Platform.{SigningKey}
use clavenar_sdk.Records.{
  Uuid, ExecutionIntent, EffectAuthorizationUse, EffectAttemptClaim, ToolExecutionRequest,
  EffectLookupRequest, ExecutionCompletion, ReceiptOutboxEntry, ExecutionEffect,
  EffectLookupOutcome, ReceiptRecorded, AuthorizationClaim, ExecutionReceipt,
}

-- What reqwest serialises as the JSON body.
pub data Body : Type 0 where
  json_value : Value → Body
  json_receipt : ExecutionReceipt → Body

pub record HttpRequest : Type 0 where
  pub endpoint : String
  pub headers : List (String × String)
  pub bearer : Option String
  pub body : Body

-- The chunks arrive one by one, and a chunk may be an error of the transport.
pub record HttpResponse : Type 0 where
  pub status : ℕ
  pub content_length : Option ℕ
  pub chunks : List (Result String (List ℕ))

-- A future of the application, over the outside world.
abbrev pub Async : Type 0 → Type 0 → Type 0
Async W A = Run W ClavenarError A

pub record DurableExecutionStore (W : Type 0) : Type 0 where
  pub commit_intent : ExecutionIntent → Async W (Unit {0})
  pub supports_single_use_authorization : W → Bool
  pub claim_intent_once : ExecutionIntent → Async W AuthorizationClaim
  pub supports_uncertain_effect_reconciliation : W → Bool
  pub begin_effect_attempt : ExecutionIntent → EffectAuthorizationUse → Async W EffectAttemptClaim
  pub load_uncertain_intent : Uuid → Async W (Option ExecutionIntent)
  pub commit_effect_and_enqueue_receipt : ExecutionCompletion → Async W ReceiptOutboxEntry
  pub pending_receipts : ℕ → Async W (List ReceiptOutboxEntry)
  pub mark_receipt_delivered : String → ReceiptRecorded → Async W (Unit {0})

abbrev unsupported : {W A : Type 0} → String → Async W A
unsupported why w = (err (invalid_config why), w)

-- The trait's default methods: a store that overrides only the others.
pub with_defaults :
    {W : Type 0}
    → (ExecutionIntent → Async W (Unit {0}))
    → (ExecutionCompletion → Async W ReceiptOutboxEntry)
    → (ℕ → Async W (List ReceiptOutboxEntry))
    → (String → ReceiptRecorded → Async W (Unit {0}))
    → DurableExecutionStore W
with_defaults commit_intent commit_effect pending mark = record {
  commit_intent = commit_intent;
  supports_single_use_authorization = λ _. false;
  claim_intent_once =
      λ _. unsupported "durable execution store does not support single-use authorization claims";
  supports_uncertain_effect_reconciliation = λ _. false;
  begin_effect_attempt =
      λ _ _. unsupported "durable execution store does not support uncertain-effect reconciliation";
  load_uncertain_intent =
      λ _. unsupported "durable execution store does not support uncertain-effect reconciliation";
  commit_effect_and_enqueue_receipt = commit_effect;
  pending_receipts = pending;
  mark_receipt_delivered = mark;
}

pub record RegisteredToolExecutor (W : Type 0) : Type 0 where
  pub id : String
  pub callback : ToolExecutionRequest → Async W ExecutionEffect
  pub effect_lookup : Option (EffectLookupRequest → Async W EffectLookupOutcome)

abbrev pub default_executor_id : String
default_executor_id = "clavenar.registered-sdk-executor/default"

module _ {W : Type 0} where
  pub new : (Value → Async W ExecutionEffect) → RegisteredToolExecutor W
  new executor = record {
    id = default_executor_id;
    callback = λ request. executor request.execution_payload;
    effect_lookup = none;
  }

  pub new_idempotent :
      String → (ToolExecutionRequest → Async W ExecutionEffect) → RegisteredToolExecutor W
  new_idempotent id executor = record { id = id; callback = executor; effect_lookup = none }

  pub new_reconciling :
      String
      → (ToolExecutionRequest → Async W ExecutionEffect)
      → (EffectLookupRequest → Async W EffectLookupOutcome)
      → RegisteredToolExecutor W
  new_reconciling id executor lookup = record {
    id = id;
    callback = executor;
    effect_lookup = some lookup;
  }

pub data Auth : Type 0 where
  open_access : Auth
  bearer : String → Auth

-- `post` is `request.send()` through the client's current provider.
pub record ClavenarClient (W : Type 0) : Type 0 where
  pub base_url : String
  pub auth : Auth
  pub post : HttpRequest → Run W String HttpResponse
  pub execution_signing_key : Option SigningKey
  pub tool_executor : Option (RegisteredToolExecutor W)
  pub durable_execution_store : Option (DurableExecutionStore W)

-- A call to the outside, with its answer.
pub data Call : Type 0 where
  sent : HttpRequest → Result String HttpResponse → Call
  attempted :
      ExecutionIntent → EffectAuthorizationUse → Result ClavenarError EffectAttemptClaim → Call
  executed : ToolExecutionRequest → Result ClavenarError ExecutionEffect → Call
  looked_up : EffectLookupRequest → Result ClavenarError EffectLookupOutcome → Call
  loaded : Uuid → Result ClavenarError (Option ExecutionIntent) → Call
  committed : ExecutionCompletion → Result ClavenarError ReceiptOutboxEntry → Call
  listed : ℕ → Result ClavenarError (List ReceiptOutboxEntry) → Call
  marked : String → ReceiptRecorded → Result ClavenarError (Unit {0}) → Call

pub record Machine (W : Type 0) : Type 0 where
  pub world : W
  pub calls : List Call

module _ {W E A : Type 0} where
  -- A call to the outside world is made and recorded.
  unfoldable pub logged : (Result E A → Call) → Run W E A → Run (Machine W) E A
  logged note m s = let (r, w) = m s.world in (r, record { world = w; calls = note r ∷ s.calls })

  unfoldable pub asks : (W → A) → Run (Machine W) E A
  asks f s = (Result.ok (f s.world), s)
