-- ===== src/Execution/Success.antt =====
-- What the successful end of an execution (src/execution.rs) says of the calls that were made.
pub mod Authorized
pub mod Reconciled
pub mod Flushed
pub mod Reviewed
use clavenar_sdk.Prelude.{
  ◌≡◌, refl, sym, subst, not, ◌∙◌, ap, arith, Bool, false, true, ◌||◌, List, ◌∷◌, ◌/=◌, ◌==◌,
  String, nat_eq, string_eq,
}
use clavenar_sdk.Effects.{Result, ok, err, is_err, pure, raise, lift, on_err, attempt, ◌>>=◌, ◌>>◌}
use clavenar_sdk.Effects.Plain.{reject_if, guarded-eq-ok}
use clavenar_sdk.Effects.Inversion.{>>=-ok, lift>>=-ok, map_err-ok, attempt>>=-ok, pure-ok}
use clavenar_sdk.Client.{
  Body, json_receipt, HttpRequest, HttpResponse, ClavenarClient, DurableExecutionStore, Machine,
  Call, sent, attempted, executed, committed, marked, logged,
}
use clavenar_sdk.Platform.{Platform, SigningKey}
use clavenar_sdk.Records.{
  SignedAuthorization, ExecutionReceipt, ExecutionEffect, ReceiptOutboxEntry, ReceiptRecorded,
  ExecutionOutcome, started,
}
use clavenar_sdk.Records.Equality.{receipt_eq}
use clavenar_sdk.Error.{ClavenarError, invalid_config, transport}
use clavenar_sdk.Execution.Contracts.{execution_contract}
use clavenar_sdk.Execution.Authorize.{send}
use clavenar_sdk.Execution.Complete.{
  persistence_uncertain, receipt_delivery, receipt_request, record_receipt, deliver_outbox_entry,
  complete_known_effect, unsigned_receipt, canonical_json, signed_receipt, completion_of,
}

not-false : (b : Bool) → not b ≡ false → b ≡ true
not-false b h = ground arith

module _ (p : Platform) {W : Type 0} (client : ClavenarClient W) where
  -- A receipt was posted and accepted.
  record IsPosted (receipt : ExecutionReceipt) (recorded : ReceiptRecorded) (s t : Machine W)
      : Type 0 where
    endpoint : String
    answer : HttpResponse
    joined : p.url_join client.base_url "execution-receipts" ≡ ok endpoint
    calls : t.calls ≡ sent (receipt_request p client endpoint receipt) (ok answer) ∷ s.calls

  record_receipt-IsPosted :
      (receipt : ExecutionReceipt) (s : Machine W) {recorded : ReceiptRecorded} {t : Machine W}
      → record_receipt p client receipt s ≡ (ok recorded, t)
      → IsPosted receipt recorded s t
  unfolding record_receipt send logged on_err lift
  record_receipt-IsPosted receipt s {recorded} {t} h =
      let (endpoint, e0, h0) = lift>>=-ok _ _ s h in
      let (response, e1, h1) = >>=-ok _ _ s h0 in
      let (raw, e2, h2) = lift>>=-ok _ _ _ h1 in
      let (u, e3, h3) = lift>>=-ok _ _ _ h2 in
      record {
        endpoint = endpoint;
        answer = response;
        joined = map_err-ok _ _ e0;
        calls =
            sym (ap (λ r. r.1.calls) h3)
            ∙ ap (λ r. sent (receipt_request p client endpoint receipt) r ∷ s.calls)
                (map_err-ok transport _ e1);
      }

  abbrev pub mismatched : ReceiptOutboxEntry → ReceiptRecorded → Bool
  mismatched entry recorded =
      recorded.authorization_id /= entry.receipt.authorization_id
      || (recorded.contract /= execution_contract || recorded.stage /= "execution.completed")

  -- A receipt was posted, accepted for its authorization, and marked as delivered.
  pub record IsDelivered (entry : ReceiptOutboxEntry) (recorded : ReceiptRecorded) (s t : Machine W)
      : Type 0 where
    pub endpoint : String
    pub answer : HttpResponse
    pub joined : p.url_join client.base_url "execution-receipts" ≡ ok endpoint
    pub calls :
        t.calls
        ≡ marked entry.outbox_id recorded (ok tt)
          ∷ (sent (receipt_request p client endpoint entry.receipt) (ok answer) ∷ s.calls)
    pub checked : mismatched entry recorded ≡ false

  module _ (store : DurableExecutionStore W) where
    pub deliver_outbox_entry-IsDelivered :
        (entry : ReceiptOutboxEntry) (s : Machine W) {recorded : ReceiptRecorded} {t : Machine W}
        → deliver_outbox_entry p client store entry s ≡ (ok recorded, t)
        → IsDelivered entry recorded s t
    unfolding deliver_outbox_entry logged
    deliver_outbox_entry-IsDelivered entry s {recorded} {t} h =
        let (u, e0, h0) = lift>>=-ok _ _ s h in
        let (recorded', e1, h1) = >>=-ok _ _ s h0 in
        let posted : IsPosted entry.receipt recorded' s s1 =
          record_receipt-IsPosted entry.receipt s (λ i. (e1 i, s1)) in
        let (v, e2, h2) = lift>>=-ok _ _ _ h1 in
        let (w, e3, h3) = >>=-ok _ _ _ h2 in
        let (same, end) = pure-ok recorded' _ h3 in
        delivered recorded' recorded
          (store.mark_receipt_delivered entry.outbox_id recorded' s1.world).0 t same posted e2 e3
          (ap (λ x. x.calls) end)
      where
        s1 : Machine W
        s1 = (record_receipt p client entry.receipt s).1

        delivered :
            (recorded' recorded : ReceiptRecorded) (r : Result ClavenarError (Unit {0}))
            (t : Machine W)
            → recorded' ≡ recorded
            → IsPosted entry.receipt recorded' s s1
            → reject_if
                (mismatched entry recorded')
                (invalid_config "Proxy returned invalid receipt persistence metadata")
              ≡ ok tt
            → r ≡ ok tt
            → marked entry.outbox_id recorded' r ∷ s1.calls ≡ t.calls
            → IsDelivered entry recorded s t
        delivered recorded' recorded r t same posted e2 e3 end = record {
          endpoint = posted.endpoint;
          answer = posted.answer;
          joined = posted.joined;
          calls = cc (end, e3, same, posted.calls);
          checked =
              subst (λ a. mismatched entry a ≡ false) same
                (guarded-eq-ok (mismatched entry recorded') _ _ e2).0;
        }

    -- An effect was committed with its receipt, and the receipt delivered.
    pub record IsRecorded (key : SigningKey) (signed : SignedAuthorization)
        (effect : ExecutionEffect) (executor_id : String) (outcome : ExecutionOutcome)
        (s t : Machine W) : Type 0 where
      pub entry : ReceiptOutboxEntry
      pub canonical : String
      pub endpoint : String
      pub answer : HttpResponse
      pub canonical_form : canonical_json p (unsigned_receipt p signed effect) ≡ ok canonical
      pub calls :
          t.calls
          ≡ marked entry.outbox_id outcome.receipt (ok tt)
            ∷ (sent (receipt_request p client endpoint entry.receipt) (ok answer)
                ∷ (committed
                      (completion_of p signed effect executor_id
                        (signed_receipt p key signed effect canonical))
                      (ok entry)
                    ∷ s.calls))
      pub same_receipt : (entry.receipt == signed_receipt p key signed effect canonical) ≡ true
      pub accepted : mismatched entry outcome.receipt ≡ false
      pub result : outcome.result ≡ effect.result
      pub effect_id : outcome.effect_id ≡ effect.effect_id

    pub complete_known_effect-IsRecorded :
        (key : SigningKey) (signed : SignedAuthorization) (effect : ExecutionEffect)
        (executor_id : String) (s : Machine W) {outcome : ExecutionOutcome} {t : Machine W}
        → complete_known_effect p client store key signed effect executor_id s ≡ (ok outcome, t)
        → IsRecorded key signed effect executor_id outcome s t
    unfolding complete_known_effect logged on_err
    complete_known_effect-IsRecorded key signed effect executor_id s {outcome} {t} h =
        let (canonical, e0, h0) = lift>>=-ok _ _ s h in
        let (queued, e1, h1) = >>=-ok _ _ s h0 in
        let (u, e2, h2) = lift>>=-ok _ _ _ h1 in
        let (recorded, e3, h3) = >>=-ok _ _ _ h2 in
        let (same, end) = pure-ok (outcome_of recorded) _ h3 in
        let completion = completion_of p signed effect executor_id (receipt_of canonical) in
        let s1 : Machine W =
          (logged (committed completion) (store.commit_effect_and_enqueue_receipt completion)
            s).1 in
        let delivered : IsDelivered queued recorded s1 t =
          deliver_outbox_entry-IsDelivered queued s1
            (λ i. (map_err-ok receipt_delivery _ e3 i, end i)) in
        finish canonical queued recorded s1 _ (map_err-ok _ _ e0) (map_err-ok _ _ e1) refl e2
          delivered same
      where
        receipt_of : String → ExecutionReceipt
        receipt_of canonical = signed_receipt p key signed effect canonical

        outcome_of : ReceiptRecorded → ExecutionOutcome
        outcome_of recorded = record {
          receipt = recorded;
          result = effect.result;
          effect_id = effect.effect_id;
        }

        finish :
            (canonical : String) (queued : ReceiptOutboxEntry) (recorded : ReceiptRecorded)
            (s1 : Machine W) (r : Result ClavenarError ReceiptOutboxEntry)
            → canonical_json p (unsigned_receipt p signed effect) ≡ ok canonical
            → r ≡ ok queued
            → s1.calls
              ≡ committed (completion_of p signed effect executor_id (receipt_of canonical)) r
                ∷ s.calls
            → reject_if (queued.receipt /= receipt_of canonical) persistence_uncertain ≡ ok tt
            → IsDelivered queued recorded s1 t
            → outcome_of recorded ≡ outcome
            → IsRecorded key signed effect executor_id outcome s t
        finish canonical queued recorded s1 r e0 e1 c e2 delivered same = record {
          entry = queued;
          canonical = canonical;
          endpoint = delivered.endpoint;
          answer = delivered.answer;
          canonical_form = e0;
          calls = cc (delivered.calls, c, e1, ap (λ o. o.receipt) same);
          same_receipt =
              not-false (queued.receipt == receipt_of canonical)
                (guarded-eq-ok (queued.receipt /= receipt_of canonical) _ _ e2).0;
          accepted =
              subst (λ (o : ExecutionOutcome). mismatched queued o.receipt ≡ false) same
                delivered.checked;
          result = sym (ap (λ o. o.result) same);
          effect_id = sym (ap (λ o. o.effect_id) same);
        }
