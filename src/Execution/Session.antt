-- ===== src/Execution/Session.antt =====
-- Any sequence of the public operations of src/execution.rs. Each step names its client: clones,
-- other processes, and clients built again after a restart work on the same world.
pub mod Steps
pub mod Executions
pub mod Order
pub mod Quiet
pub mod FailClosed
use clavenar_sdk.Prelude.{Bool, ℕ, ◌≤◌, ◌≡◌, arith, Bool, String, List, [], ◌∷◌, All}
use clavenar_sdk.Client.{ClavenarClient, Machine}
use clavenar_sdk.Effects.{is_err}
use clavenar_sdk.Json.{Value}
use clavenar_sdk.Platform.{Platform}
use clavenar_sdk.Records.{
  Uuid, SignedAuthorization, ModelToolCall, PreparedToolRequest, PreparedToolBatch,
  PendingAuthorization, UncertainExecution,
}
use clavenar_sdk.Execution.Operations
use clavenar_sdk.Execution.Outbox
use clavenar_sdk.Execution.Reconcile

pub data Operation : Type 0 where
  execute_tool : Uuid → String → Value → Operation
  execute_prepared_tool : PreparedToolRequest → Operation
  execute_tool_batch : Uuid → List ModelToolCall → Operation
  execute_prepared_tool_batch : PreparedToolBatch → Operation
  begin_tool : PreparedToolRequest → Operation
  resume_tool : PreparedToolRequest → PendingAuthorization → Operation
  begin_batch : PreparedToolBatch → Operation
  resume_batch : PreparedToolBatch → PendingAuthorization → Operation
  flush : ℕ → Operation
  reconcile : UncertainExecution → Operation

abbrev pub start : {W : Type 0} → W → Machine W
start w = record { world = w; calls = [] }

module _ (p : Platform) {W : Type 0} where
  -- The machine after an operation, whatever it returned.
  unfoldable pub perform : ClavenarClient W → Operation → Machine W → Machine W
  perform c (execute_tool id name arguments) s = (Operations.execute_tool p c id name arguments s).1
  perform c (execute_prepared_tool prepared) s = (Operations.execute_prepared_tool p c prepared s).1
  perform c (execute_tool_batch id calls) s = (Operations.execute_tool_batch p c id calls s).1
  perform c (execute_prepared_tool_batch prepared) s =
      (Operations.execute_prepared_tool_batch p c prepared s).1
  perform c (begin_tool prepared) s = (Operations.begin_prepared_tool_execution p c prepared s).1
  perform c (resume_tool prepared handle) s =
      (Operations.resume_prepared_tool_execution p c prepared handle s).1
  perform c (begin_batch prepared) s =
      (Operations.begin_prepared_tool_batch_execution p c prepared s).1
  perform c (resume_batch prepared handle) s =
      (Operations.resume_prepared_tool_batch_execution p c prepared handle s).1
  perform c (flush limit) s = (Outbox.flush_execution_receipt_outbox p c limit s).1
  perform c (reconcile handle) s = (Reconcile.reconcile_uncertain_effect p c handle s).1

  -- Whether an operation returns an error.
  unfoldable pub fails : ClavenarClient W → Operation → Machine W → Bool
  fails c (execute_tool id name arguments) s =
      is_err (Operations.execute_tool p c id name arguments s).0
  fails c (execute_prepared_tool prepared) s =
      is_err (Operations.execute_prepared_tool p c prepared s).0
  fails c (execute_tool_batch id calls) s = is_err (Operations.execute_tool_batch p c id calls s).0
  fails c (execute_prepared_tool_batch prepared) s =
      is_err (Operations.execute_prepared_tool_batch p c prepared s).0
  fails c (begin_tool prepared) s =
      is_err (Operations.begin_prepared_tool_execution p c prepared s).0
  fails c (resume_tool prepared handle) s =
      is_err (Operations.resume_prepared_tool_execution p c prepared handle s).0
  fails c (begin_batch prepared) s =
      is_err (Operations.begin_prepared_tool_batch_execution p c prepared s).0
  fails c (resume_batch prepared handle) s =
      is_err (Operations.resume_prepared_tool_batch_execution p c prepared handle s).0
  fails c (flush limit) s = is_err (Outbox.flush_execution_receipt_outbox p c limit s).0
  fails c (reconcile handle) s = is_err (Reconcile.reconcile_uncertain_effect p c handle s).0

  unfoldable pub run_all : List (ClavenarClient W × Operation) → Machine W → Machine W
  unfolding perform
  run_all [] s = s
  run_all ((c, operation) ∷ rest) s = run_all rest (perform c operation s)
