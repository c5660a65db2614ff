-- ===== src/Execution/Responsive.antt =====
-- What the completion of a known effect (src/execution.rs) needs of the store and of Proxy, and
-- that it then succeeds.
use clavenar_sdk.Prelude.{◌≡◌, false, String, ◌||◌, ◌&&◌, ◌/=◌, nat_eq, string_eq}
use clavenar_sdk.Effects.{ok, map_err}
use clavenar_sdk.Effects.Plain
use clavenar_sdk.Effects.Plain.{reject_if}
use clavenar_sdk.Effects.Answers.{
  Replies, Answers, pure-Answers, lift-Answers, logged-Answers, on_err-Answers, >>=-Answers,
  passed-Answers, lift-map_err-Answers,
}
use clavenar_sdk.Error.{decode, transport}
use clavenar_sdk.Client.{HttpResponse, DurableExecutionStore, ClavenarClient}
use clavenar_sdk.Http.{read_text_limited}
use clavenar_sdk.Json.{Value}
use clavenar_sdk.Json.Canonical.{canonical_json_value}
use clavenar_sdk.Platform.{Platform, SigningKey}
use clavenar_sdk.Records.{
  SignedAuthorization, ExecutionReceipt, ExecutionEffect, ReceiptOutboxEntry, ReceiptRecorded,
}
use clavenar_sdk.Records.Equality.{receipt_eq}
use clavenar_sdk.Execution.Contracts.{execution_contract}
use clavenar_sdk.Execution.Validation.{validate_outbox_entry}
use clavenar_sdk.Execution.Authorize.{send}
use clavenar_sdk.Execution.Complete.{
  unsigned_receipt, signed_receipt, canonical_json, completion_of, receipt_request, record_receipt,
  deliver_outbox_entry, complete_known_effect,
}

module _ (p : Platform) {W : Type 0} (I : W → Type 0) (client : ClavenarClient W) where
  -- Proxy can be reached, and takes the receipt of an entry.
  pub record IsReachable (receipt : ExecutionReceipt) (recorded : ReceiptRecorded) : Type 0 where
    pub endpoint : String
    pub response : HttpResponse
    pub raw : String
    pub joined : p.url_join client.base_url "execution-receipts" ≡ ok endpoint
    pub answered : Replies I (client.post (receipt_request p client endpoint receipt)) response
    pub readable : read_text_limited p response ≡ ok raw
    pub success : (response.status /= 200 && response.status /= 201) ≡ false
    pub parsed : p.parse_receipt_recorded raw ≡ ok recorded

  send-Answers :
      {receipt : ExecutionReceipt} {recorded : ReceiptRecorded} (r : IsReachable receipt recorded)
      → Answers I (send client (receipt_request p client r.endpoint receipt)) r.response
  unfolding send
  send-Answers r = on_err-Answers transport (logged-Answers _ r.answered)

  record_receipt-Answers :
      {receipt : ExecutionReceipt} {recorded : ReceiptRecorded}
      → IsReachable receipt recorded
      → Answers I (record_receipt p client receipt) recorded
  unfolding record_receipt
  record_receipt-Answers r = >>=-Answers _ (lift-map_err-Answers _ _ r.joined) (
      >>=-Answers _ (send-Answers r) (
        >>=-Answers _ (lift-Answers _ r.readable)
          (>>=-Answers _ (passed-Answers _ _ r.success) (lift-map_err-Answers _ _ r.parsed))))

  module _ (store : DurableExecutionStore W) where
    -- The receipt of a queued entry can be delivered and marked.
    pub record IsDeliverable (entry : ReceiptOutboxEntry) (recorded : ReceiptRecorded)
        : Type 0 where
      pub valid : validate_outbox_entry entry ≡ ok tt
      pub reachable : IsReachable entry.receipt recorded
      pub matching :
          (recorded.authorization_id /= entry.receipt.authorization_id
            || (recorded.contract /= execution_contract || recorded.stage /= "execution.completed"))
          ≡ false
      pub marked_as : Replies I (store.mark_receipt_delivered entry.outbox_id recorded) tt

    deliver_outbox_entry-Answers :
        {entry : ReceiptOutboxEntry} {recorded : ReceiptRecorded}
        → IsDeliverable entry recorded
        → Answers I (deliver_outbox_entry p client store entry) recorded
    unfolding deliver_outbox_entry
    deliver_outbox_entry-Answers {entry} {recorded} d = >>=-Answers _ (lift-Answers _ d.valid) (
        >>=-Answers _ (record_receipt-Answers d.reachable) (
          >>=-Answers _ (passed-Answers _ _ d.matching)
            (>>=-Answers _ (logged-Answers _ d.marked_as) (pure-Answers recorded))))

    -- The receipt of an effect can be printed, the store commits it and queues exactly this receipt,
    -- and the queued entry can be delivered.
    pub record IsCompletable (key : SigningKey) (signed : SignedAuthorization)
        (effect : ExecutionEffect) (executor_id : String) (recorded : ReceiptRecorded)
        : Type 0 where
      pub value : Value
      pub entry : ReceiptOutboxEntry
      pub printed : p.receipt_to_value (unsigned_receipt p signed effect) ≡ ok value
      pub commits :
          Replies I
            (store.commit_effect_and_enqueue_receipt (
              completion_of p signed effect executor_id
                (signed_receipt p key signed effect (canonical_json_value p value))))
            entry
      pub queued :
          (entry.receipt /= signed_receipt p key signed effect (canonical_json_value p value))
          ≡ false
      pub deliverable : IsDeliverable entry recorded

    pub complete_known_effect-Answers :
        {key : SigningKey} {signed : SignedAuthorization} {effect : ExecutionEffect}
        {executor_id : String} {recorded : ReceiptRecorded}
        → IsCompletable key signed effect executor_id recorded
        → Answers I
            (complete_known_effect p client store key signed effect executor_id)
            (record { receipt = recorded; result = effect.result; effect_id = effect.effect_id })
    unfolding complete_known_effect canonical_json
    complete_known_effect-Answers c =
        >>=-Answers _
          (lift-map_err-Answers _ _
            (λ i. Plain.◌>>=◌ (map_err decode (c.printed i)) λ v. ok (canonical_json_value p v)))
          (>>=-Answers _ (on_err-Answers _ (logged-Answers _ c.commits)) (
            >>=-Answers _ (passed-Answers _ _ c.queued) (
              >>=-Answers _ (on_err-Answers _ (deliver_outbox_entry-Answers c.deliverable))
                (pure-Answers _))))
