-- ===== src/Execution/Session/Steps.antt =====
-- A guarded property holds throughout a session.
use clavenar_sdk.Prelude.{String, List, [], ◌∷◌, All}
use clavenar_sdk.Effects.{Result}
use clavenar_sdk.Effects.Triples.{Outcome}
use clavenar_sdk.Client.{ClavenarClient, Machine}
use clavenar_sdk.Platform.{Platform}
use clavenar_sdk.Records.{SignedAuthorization}
use clavenar_sdk.Execution.Guarded.{IsGuarded}
use clavenar_sdk.Execution.Guarded.Kept
use clavenar_sdk.Execution.Quiet
use clavenar_sdk.Execution.Session.{
  Operation, execute_tool, execute_prepared_tool, execute_tool_batch, execute_prepared_tool_batch,
  begin_tool, resume_tool, begin_batch, resume_batch, flush, reconcile, perform, run_all,
}

pub Keeps_state :
    {W E A : Type 0} (P : Machine W → Type 0) (r : Result E A × Machine W)
    → Outcome (λ _. P) (λ _. P) r
    → P r.1
Keeps_state P (Result.ok a, s) h = h
Keeps_state P (Result.err e, s) h = h

module _ (p : Platform) {W : Type 0} where
  module _ (P : Machine W → Type 0)
      (Armed' : String → SignedAuthorization → Machine W → Type 0) where
    perform_keeps :
        (c : ClavenarClient W) (operation : Operation) (s : Machine W)
        → IsGuarded p c P Armed'
        → P s
        → P (perform p c operation s)
    unfolding perform
    perform_keeps c (execute_tool id name arguments) s g h =
        Keeps_state P _ ((Kept.execute_tool-Keeps p c P Armed' g id name arguments).at s h)
    perform_keeps c (execute_prepared_tool prepared) s g h =
        Keeps_state P _ ((Kept.execute_prepared_tool-Keeps p c P Armed' g prepared).at s h)
    perform_keeps c (execute_tool_batch id calls) s g h =
        Keeps_state P _ ((Kept.execute_tool_batch-Keeps p c P Armed' g id calls).at s h)
    perform_keeps c (execute_prepared_tool_batch prepared) s g h =
        Keeps_state P _ ((Kept.execute_prepared_tool_batch-Keeps p c P Armed' g prepared).at s h)
    perform_keeps c (begin_tool prepared) s g h =
        Keeps_state P _ ((Kept.begin_prepared_tool_execution-Keeps p c P Armed' g prepared).at s h)
    perform_keeps c (resume_tool prepared handle) s g h =
        Keeps_state P _
          ((Kept.resume_prepared_tool_execution-Keeps p c P Armed' g prepared handle).at s h)
    perform_keeps c (begin_batch prepared) s g h =
        Keeps_state P _
          ((Kept.begin_prepared_tool_batch_execution-Keeps p c P Armed' g prepared).at s h)
    perform_keeps c (resume_batch prepared handle) s g h =
        Keeps_state P _
          ((Kept.resume_prepared_tool_batch_execution-Keeps p c P Armed' g prepared handle).at s h)
    perform_keeps c (flush limit) s g h =
        Keeps_state P _
          ((Quiet.flush_execution_receipt_outbox-Keeps p c P g.quiet g.quiet_store limit).at s h)
    perform_keeps c (reconcile handle) s g h =
        Keeps_state P _
          ((Quiet.reconcile_uncertain_effect-Keeps p c P g.quiet g.quiet_store handle).at s h)

    -- A guarded property holds after any sequence of operations that starts where it holds.
    pub run_all_keeps :
        (steps : List (ClavenarClient W × Operation)) (s : Machine W)
        → All (λ (step : ClavenarClient W × Operation). IsGuarded p step.0 P Armed') steps
        → P s
        → P (run_all p steps s)
    unfolding run_all
    run_all_keeps [] s g h = h
    run_all_keeps ((c, operation) ∷ rest) s g h =
        run_all_keeps rest (perform p c operation s) g.1 (perform_keeps c operation s g.0 h)
