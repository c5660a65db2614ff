-- ===== src/Execution/Keeps.antt =====
-- What the steps of src/execution.rs keep: any property of the machine that the calls to Proxy and
-- to the store keep is kept by every step that makes only such calls.
use clavenar_sdk.Prelude.{◌≡◌, arith, String, Option, none, some, List, ℕ}
use clavenar_sdk.Effects.{ok, ok_or}
use clavenar_sdk.Effects.Triples.{
  Triple, Triple-lift, Triple-bind, Keeps, Keeps-lift, Keeps-bind, Triple-bind_lift, Keeps-on_err,
  keeps_rules, Triple-pure, Triple-raise,
}
use clavenar_sdk.Error.{ClavenarError}
use clavenar_sdk.Client.{
  Async, HttpRequest, ClavenarClient, DurableExecutionStore, RegisteredToolExecutor, Machine, sent,
  committed, marked, listed, loaded, looked_up, logged, asks,
}
use clavenar_sdk.Json.{Value}
use clavenar_sdk.Platform.{Platform, SigningKey}
use clavenar_sdk.Records.{
  Uuid, EffectLookupRequest, EffectLookupOutcome, AuthorizationState, authorized,
  ExecutionCompletion, ReceiptRecorded, ExecutionReceipt, SignedAuthorization, ExecutionEffect,
  ReceiptOutboxEntry, PendingAuthorization, ModelToolCall,
}
use clavenar_sdk.Execution.Authorize.{
  send, authorize_payload_state, only_authorized, authorize_payload, authorize_tool,
  authorize_tool_batch,
}
use clavenar_sdk.Execution.Complete.{record_receipt, deliver_outbox_entry, complete_known_effect}
use clavenar_sdk.Execution.Contracts.{tool_envelope, atomic_batch_envelope}
use clavenar_sdk.Execution.Decision.{IsAccepted, IsGranted, read_decision-IsAccepted}
use clavenar_sdk.Execution.Execute.{
  Dependencies, execution_dependencies, require_single_use_store, require_uncertain_effect_store,
}
use clavenar_sdk.Execution.Validation.{validate_batch_authorization, validate_executor_id}

-- The calls that never execute a tool keep `P`.
pub record IsQuiet {W : Type 0} (client : ClavenarClient W) (P : Machine W → Type 0) : Type 0 where
  pub keeps_sent : (request : HttpRequest) → Keeps P (logged (sent request) (client.post request))
  pub keeps_looked_up :
      (request : EffectLookupRequest) (executor : RegisteredToolExecutor W)
      (lookup : EffectLookupRequest → Async W EffectLookupOutcome)
      → client.tool_executor ≡ some executor
      → executor.effect_lookup ≡ some lookup
      → Keeps P (logged (looked_up request) (lookup request))

pub record IsQuietStore {W : Type 0} (store : DurableExecutionStore W) (P : Machine W → Type 0)
    : Type 0 where
  pub keeps_committed :
      (completion : ExecutionCompletion)
      → Keeps P (logged (committed completion) (store.commit_effect_and_enqueue_receipt completion))
  pub keeps_marked :
      (id : String) (recorded : ReceiptRecorded)
      → Keeps P (logged (marked id recorded) (store.mark_receipt_delivered id recorded))
  pub keeps_listed : (limit : ℕ) → Keeps P (logged (listed limit) (store.pending_receipts limit))
  pub keeps_loaded : (id : Uuid) → Keeps P (logged (loaded id) (store.load_uncertain_intent id))

module _ (p : Platform) {W : Type 0} (client : ClavenarClient W) (P : Machine W → Type 0)
    (quiet : IsQuiet client P) where
  send-Keeps : (request : HttpRequest) → Keeps P (send client request)
  unfolding send
  send-Keeps request = Keeps-on_err _ _ (quiet.keeps_sent request)

  ruleset quiet_rules = (keeps_rules, send-Keeps)

  record_receipt-Keeps : (receipt : ExecutionReceipt) → Keeps P (record_receipt p client receipt)
  unfolding record_receipt
  record_receipt-Keeps receipt = search quiet_rules

  -- The state that a decision request returns has passed the checks.
  pub authorize_payload_state-Triple :
      (id : Uuid) (body : Value) (pending : Option PendingAuthorization)
      → Triple P
          (authorize_payload_state p client id body pending)
          (λ state s. IsAccepted p id body pending state × P s)
          (λ _. P)
  unfolding authorize_payload_state
  authorize_payload_state-Triple id body pending =
      Triple-bind (λ _. P) _ _ (Keeps-lift _)
        λ endpoint.
          Triple-bind (λ _. P) _ _ (send-Keeps _)
            λ response.
              Triple-bind (λ _. P) _ _ (Keeps-lift _)
                λ raw.
                  Triple-lift _
                    (λ state e s h.
                      (read_decision-IsAccepted p id body pending response.status raw state e, h))
                    (λ e s h. h)

  only_authorized-Triple :
      (id : Uuid) (body : Value) (state : AuthorizationState)
      → Triple
          (λ s. IsAccepted p id body none state × P s)
          (only_authorized p client state)
          (λ signed s. IsGranted p id body none signed × P s)
          (λ _. P)
  unfolding only_authorized
  only_authorized-Triple id body (authorized signed) = Triple-pure signed (λ s h. h)
  only_authorized-Triple id body (AuthorizationState.pending handle) =
      Triple-bind (λ _. P) _ _ (Triple-lift _ (λ a e s h. h.1) (λ e s h. h.1))
        λ a. Triple-raise _ (λ s h. h)

  pub authorize_payload-Triple :
      (id : Uuid) (body : Value)
      → Triple P
          (authorize_payload p client id body)
          (λ signed s. IsGranted p id body none signed × P s)
          (λ _. P)
  unfolding authorize_payload
  authorize_payload-Triple id body =
      Triple-bind _ _ _ (authorize_payload_state-Triple id body none)
        (only_authorized-Triple id body)

  pub authorize_tool-Triple :
      (id : Uuid) (name : String) (arguments : Value)
      → Triple P
          (authorize_tool p client id name arguments)
          (λ signed s. IsGranted p id (tool_envelope p id name arguments) none signed × P s)
          (λ _. P)
  unfolding authorize_tool
  authorize_tool-Triple id name arguments =
      authorize_payload-Triple id (tool_envelope p id name arguments)

  -- A batch authorization has passed the checks on its envelope too.
  abbrev pub IsGrantedBatch : Uuid → List ModelToolCall → SignedAuthorization → Type 0
  IsGrantedBatch id calls signed =
      let body = atomic_batch_envelope p id calls in
      IsGranted p id body none signed
      × (validate_batch_authorization p signed id calls body ≡ ok tt)

  pub authorize_tool_batch-Triple :
      (id : Uuid) (calls : List ModelToolCall)
      → Triple P
          (authorize_tool_batch p client id calls)
          (λ signed s. IsGrantedBatch id calls signed × P s)
          (λ _. P)
  unfolding authorize_tool_batch
  authorize_tool_batch-Triple id calls =
      Triple-bind (λ _. P) _ _ (Keeps-lift _)
        λ _.
          Triple-bind _ _ _ (authorize_payload-Triple id (atomic_batch_envelope p id calls))
            λ signed.
              Triple-bind (λ _ s. IsGrantedBatch id calls signed × P s) _ _
                (Triple-lift _ (λ _ e s h. ((h.0, e), h.1)) (λ e s h. h.1))
                λ _. Triple-pure signed (λ s h. h)

  module _ (store : DurableExecutionStore W) (quiet_store : IsQuietStore store P) where
    pub deliver_outbox_entry-Keeps :
        (entry : ReceiptOutboxEntry) → Keeps P (deliver_outbox_entry p client store entry)
    unfolding deliver_outbox_entry
    deliver_outbox_entry-Keeps entry =
        search (keeps_rules, record_receipt-Keeps, quiet_store.keeps_marked)

    pub complete_known_effect-Keeps :
        (key : SigningKey) (signed : SignedAuthorization) (effect : ExecutionEffect) (id : String)
        → Keeps P (complete_known_effect p client store key signed effect id)
    unfolding complete_known_effect
    complete_known_effect-Keeps key signed effect id =
        search (keeps_rules, deliver_outbox_entry-Keeps, quiet_store.keeps_committed) depth 9

-- The parts that an operation takes from its client.
pub record IsProvided {W : Type 0} (client : ClavenarClient W) (deps : Dependencies W)
    : Type 0 where
  pub executor_given : client.tool_executor ≡ some deps.executor
  pub executor_valid : validate_executor_id deps.executor.id ≡ ok tt
  pub key_given : client.execution_signing_key ≡ some deps.signing_key
  pub store_given : client.durable_execution_store ≡ some deps.store

pub ok_or-some :
    {A : Type 0} (o : Option A) (e : ClavenarError) {a : A} → ok_or o e ≡ ok a → o ≡ some a
ok_or-some o e h = ground arith

module _ {W : Type 0} {P : Machine W → Type 0} where
  pub asks-Keeps : {E A : Type 0} (f : W → A) → Keeps P (asks {E = E} f)
  unfolding asks
  asks-Keeps f = record { at = λ s h. h }

  require_uncertain_effect_store-Keeps :
      (store : DurableExecutionStore W) → Keeps P (require_uncertain_effect_store store)
  unfolding require_uncertain_effect_store
  require_uncertain_effect_store-Keeps store = Keeps-bind _ _ (asks-Keeps _) (λ _. Keeps-lift _)

  pub require_single_use_store-Keeps :
      (store : DurableExecutionStore W) → Keeps P (require_single_use_store store)
  unfolding require_single_use_store
  require_single_use_store-Keeps store = Keeps-bind _ _ (asks-Keeps _) (λ _. Keeps-lift _)

  pub execution_dependencies-Triple :
      (client : ClavenarClient W)
      → Triple P (execution_dependencies client) (λ deps s. IsProvided client deps × P s) (λ _. P)
  unfolding execution_dependencies
  execution_dependencies-Triple client =
      Triple-bind_lift _ _
        (λ executor executor_given.
          Triple-bind_lift _ _
            (λ _ executor_valid.
              Triple-bind_lift _ _
                (λ key key_given.
                  Triple-bind_lift _ _
                    (λ store store_given.
                      Triple-bind (λ _. P) _ _ (require_uncertain_effect_store-Keeps store)
                        λ _. Triple-pure _ λ s h. (
                          record {
                            executor_given = ok_or-some client.tool_executor _ executor_given;
                            executor_valid = executor_valid;
                            key_given = ok_or-some client.execution_signing_key _ key_given;
                            store_given = ok_or-some client.durable_execution_store _ store_given;
                          },
                          h,
                        ))
                    (λ e s h. h))
                (λ e s h. h))
            (λ e s h. h))
        (λ e s h. h)
