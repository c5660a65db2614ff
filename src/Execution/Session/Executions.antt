-- ===== src/Execution/Session/Executions.antt =====
-- At most one execution for each authorization, throughout a session.
use clavenar_sdk.Prelude.{◌≤◌, arith, Bool, List, [], ◌∷◌, All}
use clavenar_sdk.Client.{ClavenarClient}
use clavenar_sdk.Platform.{Platform}
use clavenar_sdk.Records.{Uuid}
use clavenar_sdk.Execution.AtMostOnce.{
  executions, quota-le-one, IsLawful, AtMostOnce, Armed, AtMostOnce-IsGuarded,
}
use clavenar_sdk.Execution.Guarded.{IsGuarded}
use clavenar_sdk.Execution.Session.Steps.{run_all_keeps}
use clavenar_sdk.Execution.Session.{Operation, run_all, start}

module _ (p : Platform) {W : Type 0} (admitted : W → Uuid → Bool) where
  abbrev pub AllLawful : List (ClavenarClient W × Operation) → Type 0
  AllLawful = All (λ (step : ClavenarClient W × Operation). IsLawful admitted step.0)

  All-guarded :
      (steps : List (ClavenarClient W × Operation))
      → AllLawful steps
      → All
          (λ (step : ClavenarClient W × Operation).
            IsGuarded p step.0 (AtMostOnce admitted) (Armed admitted))
          steps
  All-guarded [] h = tt
  All-guarded ((c, operation) ∷ rest) h =
      (AtMostOnce-IsGuarded admitted c h.0 p, All-guarded rest h.1)

  start-AtMostOnce : (w : W) → AtMostOnce admitted (start w)
  start-AtMostOnce w id = omega arith

  -- Whatever operations run, in whatever order and by whatever clients, the executor is invoked at
  -- most once for each authorization id, if the store of each client answers `Started` only to the
  -- first attempt of an authorization and nothing that they call takes an admission back.
  pub executions-run_all :
      (steps : List (ClavenarClient W × Operation)) (w : W) (id : Uuid)
      → AllLawful steps
      → executions id (run_all p steps (start w)).calls ≤ 1
  executions-run_all steps w id lawful = omega (
    arith,
    run_all_keeps p (AtMostOnce admitted) (Armed admitted) steps (start w)
        (All-guarded steps lawful) (start-AtMostOnce w) id,
    quota-le-one (admitted (run_all p steps (start w)).world id),
  )
