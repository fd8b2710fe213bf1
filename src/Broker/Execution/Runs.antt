-- ===== src/Broker/Execution/Runs.antt =====
-- The runs behind the receipts of an execution.
use cross_patch.Prelude.{
  ◌≡◌, ◌↔◌, inl, inr, refl, ap, subst, true, false, List, [], ◌∷◌, ◌++◌, ok, arith, Result-cases,
  Bool-cases,
}
use cross_patch.Runner.Catalog.{ExecutionPlan, resolve}
use cross_patch.Runner.Receipt.{ProcessReceipt, passed}
use cross_patch.Broker.Documents.{BoundExecutionPlan}
use cross_patch.Broker.Execution.{Sandbox, all_passed, after_run, run_resolved, run_plans}

module _ (B : Sandbox) where
  open B use {Workspace, enter, leave}

  -- The plans ran in their order, each in the workspace that the earlier runs left, and passed.
  pub data Runs (w : Workspace)
      : List BoundExecutionPlan → List ProcessReceipt → List ProcessReceipt → Type 0 where
    finished : {rs : List ProcessReceipt} → Runs w [] rs rs
    then_run :
        {b : BoundExecutionPlan} {bs : List BoundExecutionPlan} {rs out : List ProcessReceipt}
        (plan : ExecutionPlan) (r : ProcessReceipt)
        → resolve b.plan_id false ≡ ok plan
        → B.run w rs plan ≡ ok r
        → passed r ≡ true
        → Runs w bs (rs ++ r ∷ []) out
        → Runs w (b ∷ bs) rs out

  run_plans-Runs :
      (w : Workspace) (bs : List BoundExecutionPlan) (rs out : List ProcessReceipt)
      → run_plans B w bs rs ≡ (all_passed, out)
      → Runs w bs rs out
  unfolding run_plans run_resolved after_run
  run_plans-Runs w [] rs out h = subst (λ o. Runs w [] rs o) (ap (λ p. p.1) h) finished
  run_plans-Runs w (b ∷ bs) rs out h = elim (Result-cases (resolve b.plan_id false)) [
    | inr (e, refused) ↦ ground arith
    | inl (plan, resolves) ↦ elim (Result-cases (B.run w rs plan)) [
      | inr (e, failed) ↦ ground arith
      | inl (r, ran) ↦ elim (Bool-cases (passed r)) [
        | inr has_failed ↦ ground arith
        | inl has_passed ↦ then_run plan r resolves ran has_passed (
            run_plans-Runs w bs (rs ++ r ∷ []) out
              (rw (run_plans, resolves, run_resolved, ran, after_run, has_passed) at h))
      ]
    ]
  ]

  Runs-run_plans :
      {w : Workspace} {bs : List BoundExecutionPlan} {rs out : List ProcessReceipt}
      → Runs w bs rs out
      → run_plans B w bs rs ≡ (all_passed, out)
  unfolding run_plans run_resolved after_run
  Runs-run_plans finished = refl
  Runs-run_plans (then_run plan r resolves ran has_passed rest) =
      rw (resolves, ran, has_passed) (Runs-run_plans rest)

  -- The loop over the plans ends with all of them passed exactly when each of them, in the order of
  -- the warrant, resolves in the catalogue, runs and passes, and its receipts are those of the runs.
  pub run_plans_iff_Runs :
      (w : Workspace) (bs : List BoundExecutionPlan) (rs out : List ProcessReceipt)
      → (run_plans B w bs rs ≡ (all_passed, out)) ↔ Runs w bs rs out
  run_plans_iff_Runs w bs rs out = (run_plans-Runs w bs rs out, Runs-run_plans)
