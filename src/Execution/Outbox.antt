-- ===== src/Execution/Outbox.antt =====
-- `flush_execution_receipt_outbox` of src/execution.rs.
use clavenar_sdk.Prelude.{ℕ, ◌+◌, ◌||◌, List, [], ◌∷◌, length, ltb, ◌==◌, nat_eq}
use clavenar_sdk.Effects.{ok_or, pure, lift, ◌>>=◌, ◌>>◌}
use clavenar_sdk.Effects.Plain.{reject_if}
use clavenar_sdk.Error.{invalid_config}
use clavenar_sdk.Client.{DurableExecutionStore, ClavenarClient, listed, logged}
use clavenar_sdk.Platform.{Platform}
use clavenar_sdk.Records.{ReceiptOutboxEntry}
use clavenar_sdk.Execution.Authorize.{Action}
use clavenar_sdk.Execution.Complete.{deliver_outbox_entry}
use clavenar_sdk.Execution.Contracts.{max_outbox_flush}

module _ (p : Platform) {W : Type 0} (client : ClavenarClient W) where
  -- The loop: `delivered` counts the entries so far.
  unfoldable pub deliver_all : DurableExecutionStore W → ℕ → List ReceiptOutboxEntry → Action W ℕ
  deliver_all store delivered [] = pure delivered
  deliver_all store delivered (entry ∷ rest) =
      deliver_outbox_entry p client store entry >>= λ _. deliver_all store (delivered + 1) rest

  unfoldable pub flush_execution_receipt_outbox : ℕ → Action W ℕ
  unfolding deliver_all
  flush_execution_receipt_outbox limit = do
    lift (
        reject_if (limit == 0 || ltb max_outbox_flush limit)
          (invalid_config "receipt outbox flush limit must contain 1..=128 entries"))
    store ← lift (
        ok_or client.durable_execution_store
          (invalid_config "durable_execution_store is required for receipt outbox delivery"))
    entries ← logged (listed limit) (store.pending_receipts limit)
    lift (
        reject_if (ltb limit (length entries))
          (invalid_config "durable execution store exceeded the requested outbox limit"))
    deliver_all store 0 entries
