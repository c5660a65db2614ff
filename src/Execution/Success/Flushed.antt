-- ===== src/Execution/Success/Flushed.antt =====
-- `flush_execution_receipt_outbox` of src/execution.rs where it succeeds.
use clavenar_sdk.Prelude.{
  ℕ, ◌+◌, ◌≤◌, ◌≡◌, refl, sym, ◌∙◌, ap, arith, false, ◌||◌, ◌==◌, nat_eq, ltb, String, List, [],
  ◌∷◌, length, some,
}
use clavenar_sdk.Effects.{ok, err}
use clavenar_sdk.Effects.Plain.{reject_if-false}
use clavenar_sdk.Effects.Inversion.{>>=-ok, lift>>=-ok, pure-ok}
use clavenar_sdk.Client.{
  json_receipt, ClavenarClient, DurableExecutionStore, Machine, Call, sent, attempted, executed,
  looked_up, loaded, committed, listed, marked, logged,
}
use clavenar_sdk.Platform.{Platform}
use clavenar_sdk.Records.{ReceiptOutboxEntry, ReceiptRecorded}
use clavenar_sdk.Execution.Complete.{receipt_request, deliver_outbox_entry}
use clavenar_sdk.Execution.Outbox.{deliver_all, flush_execution_receipt_outbox}
use clavenar_sdk.Execution.Keeps.{ok_or-some}
use clavenar_sdk.Execution.Success.{IsDelivered, deliver_outbox_entry-IsDelivered}

-- The outbox ids that were marked as delivered, the newest first.
abbrev pub delivered_ids : List Call → List String
delivered_ids [] = []
delivered_ids (marked id recorded (ok u) ∷ calls) = id ∷ delivered_ids calls
delivered_ids (marked id recorded (err e) ∷ calls) = delivered_ids calls
delivered_ids (sent _ _ ∷ calls) = delivered_ids calls
delivered_ids (attempted _ _ _ ∷ calls) = delivered_ids calls
delivered_ids (executed _ _ ∷ calls) = delivered_ids calls
delivered_ids (looked_up _ _ ∷ calls) = delivered_ids calls
delivered_ids (loaded _ _ ∷ calls) = delivered_ids calls
delivered_ids (committed _ _ ∷ calls) = delivered_ids calls
delivered_ids (listed _ _ ∷ calls) = delivered_ids calls

abbrev pub onto : List String → List String → List String
onto [] done = done
onto (id ∷ ids) done = onto ids (id ∷ done)

abbrev pub ids_of : List ReceiptOutboxEntry → List String
ids_of [] = []
ids_of (entry ∷ entries) = entry.outbox_id ∷ ids_of entries

module _ (p : Platform) {W : Type 0} (client : ClavenarClient W) where
  -- The receipts of these entries were delivered one after the other, and nothing else was called:
  -- for each entry its receipt is posted and accepted, and then its own id is marked with the answer.
  pub data AreDelivered : List ReceiptOutboxEntry → Machine W → Machine W → Type 0 where
    delivered_none : {s t : Machine W} → t.calls ≡ s.calls → AreDelivered [] s t
    delivered_next :
        {entry : ReceiptOutboxEntry} {entries : List ReceiptOutboxEntry} {s t : Machine W}
        (recorded : ReceiptRecorded) (after : Machine W)
        → (delivery : IsDelivered p client entry recorded s after)
        → (receipt_request p client delivery.endpoint entry.receipt).body
          ≡ json_receipt entry.receipt
        → AreDelivered entries after t
        → AreDelivered (entry ∷ entries) s t

  deliver_all-ok :
      (store : DurableExecutionStore W) (before : ℕ) (entries : List ReceiptOutboxEntry)
      (s : Machine W) {n : ℕ} {t : Machine W}
      → deliver_all p client store before entries s ≡ (ok n, t)
      → (n ≡ before + length entries)
        × (delivered_ids t.calls ≡ onto (ids_of entries) (delivered_ids s.calls))
        × AreDelivered entries s t
  unfolding deliver_all
  deliver_all-ok store before [] s {n} {t} h =
      let (count, end) = pure-ok before s h in
      (
        omega (arith, count),
        sym (ap (λ (x : Machine W). delivered_ids x.calls) end),
        delivered_none (sym (ap (λ (x : Machine W). x.calls) end)),
      )
  deliver_all-ok store before (entry ∷ entries) s {n} {t} h =
      let (recorded, e, rest) = >>=-ok _ _ s h in
      let after : Machine W = (deliver_outbox_entry p client store entry s).1 in
      let one : IsDelivered p client entry recorded s after =
        deliver_outbox_entry-IsDelivered p client store entry s (λ i. (e i, after)) in
      let (count, ids, all) = deliver_all-ok store (before + 1) entries after rest in
      (
        omega (arith, count),
        ids ∙ ap (λ calls. onto (ids_of entries) (delivered_ids calls)) one.calls,
        delivered_next recorded after one refl all,
      )

  -- What a successful flush did.
  pub record IsFlushed (limit n : ℕ) (s t : Machine W) : Type 0 where
    pub store : DurableExecutionStore W
    pub entries : List ReceiptOutboxEntry
    pub given : client.durable_execution_store ≡ some store
    pub pending : (store.pending_receipts limit s.world).0 ≡ ok entries
    pub count : n ≡ length entries
    pub within : (1 ≤ limit) × (n ≤ limit) × (limit ≤ 128)
    pub ids : delivered_ids t.calls ≡ onto (ids_of entries) (delivered_ids s.calls)
    pub start : Machine W
    pub listing : start.calls ≡ listed limit (ok entries) ∷ s.calls
    pub deliveries : AreDelivered entries start t

  -- A flush that succeeds returns the number of receipts that the store had pending, at most the
  -- limit, which is from 1 to 128. It has listed them, and then, for each of them in order, posted
  -- its receipt, had it accepted for its authorization, and marked its id, and called nothing else.
  pub flush_execution_receipt_outbox-IsFlushed :
      (limit : ℕ) (s : Machine W) (n : ℕ) (t : Machine W)
      → flush_execution_receipt_outbox p client limit s ≡ (ok n, t)
      → IsFlushed limit n s t
  unfolding flush_execution_receipt_outbox logged
  flush_execution_receipt_outbox-IsFlushed limit s n t h =
      let (u, e0, h0) = lift>>=-ok _ _ s h in
      let (store, e1, h1) = lift>>=-ok _ _ s h0 in
      let (entries, e2, h2) = >>=-ok _ _ s h1 in
      let (v, e3, h3) = lift>>=-ok _ _ _ h2 in
      let (count, ids, all) = deliver_all-ok store 0 entries _ h3 in
      let fits : (1 ≤ limit) × (length entries ≤ limit) × (limit ≤ 128) =
        sizes limit (length entries) (reject_if-false _ _ e0) (reject_if-false _ _ e3) in
      record {
        store = store;
        entries = entries;
        given = ok_or-some client.durable_execution_store _ e1;
        pending = e2;
        count = omega (arith, count);
        within = (fits.0, omega (arith, count, fits.1), fits.2);
        ids = ids;
        start = (logged (listed limit) (store.pending_receipts limit) s).1;
        listing = ap (λ r. listed limit r ∷ s.calls) e2;
        deliveries = all;
      }
    where
      sizes :
          (limit n : ℕ)
          → (limit == 0 || ltb 128 limit) ≡ false
          → ltb limit n ≡ false
          → (1 ≤ limit) × (n ≤ limit) × (limit ≤ 128)
      sizes limit n h k = ground arith
