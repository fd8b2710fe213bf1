-- ===== src/Broker/Execution/Settled.antt =====
-- How a claimed warrant is settled.
use cross_patch.Prelude.{
  String, ◌≡◌, ◌⊎◌, inl, inr, refl, sym, ap, subst, ◌∙◌, some, List, [], Result, ok, err, lookup,
  insert, arith, Option-cases, lookup-insert_self,
}
use cross_patch.Runner.Receipt.{ProcessReceipt}
use cross_patch.Broker.Documents.{
  Reading, BoundExecutionPlan, WarrantDocument, WarrantApproval, AuthoritySnapshot, BrokerStatus,
  WarrantState, BrokerResult,
}
use cross_patch.Broker.Primitives.{Primitives, Exn, cancelled}
use cross_patch.Broker.Validation.{Broker, validate_claim}
use cross_patch.Broker.Store.{StoredWarrant, claimed, Records, AuthorityLoader, claim_warrant}
use cross_patch.Broker.Store.Claims.{claim_warrant-IsClaimed, finish_claimed}
use cross_patch.Broker.Execution.{
  Sandbox, Ending, all_passed, one_failed, raised, run_plans, leaving, in_workspace, run_claimed,
  result_of, returned, after_finish, after_claim, execute_warrant,
}
use cross_patch.Broker.Execution.Runs.{Runs, run_plans_iff_Runs}

-- What is left of a claimed warrant: its result, and the state CONSUMED.
abbrev pub spent : StoredWarrant → BrokerResult → StoredWarrant
spent w result = record w { result = some result; state = WarrantState.consumed }

module _ (P : Primitives) where
  open P use {sha256, encode}

  pub in_workspace_passed :
      (B : Sandbox) (entered : Result Exn B.Workspace) (bs : List BoundExecutionPlan)
      (out : List ProcessReceipt)
      → in_workspace B entered bs ≡ (all_passed, out)
      → (w : B.Workspace) × (entered ≡ ok w) × Runs B w bs [] out
  unfolding in_workspace leaving
  in_workspace_passed B (err e) bs out h = ground arith
  in_workspace_passed B (ok w) bs out h = elim (Option-cases (B.leave w (run_plans B w bs []).1)) [
    | inl quiet ↦
        (w, refl, (run_plans_iff_Runs B w bs [] out).0 (rw (in_workspace, quiet, leaving) at h))
    | inr (e, loud) ↦ ground arith
  ]

  pub executed_ending :
      (i : String) (d : WarrantDocument) (p : Ending × List ProcessReceipt)
      → (result_of P i d p).status ≡ BrokerStatus.executed
      → p ≡ (all_passed, (result_of P i d p).receipts)
  unfolding result_of
  executed_ending i d (all_passed, rs) h = refl
  executed_ending i d (one_failed, rs) h = ground arith
  executed_ending i d (raised cancelled, rs) h = ground arith
  executed_ending i d (raised e, rs) h = ground arith

  pub returned_same :
      (ending : Ending) (result r : BrokerResult) → returned P ending result ≡ ok r → result ≡ r
  unfolding returned
  returned_same (raised cancelled) result r h = ground arith
  returned_same _ result r h = ground arith

  pub after_claimed :
      (B : Sandbox) (i : String) (d : WarrantDocument) (a : WarrantApproval)
      (authority : AuthoritySnapshot) (w : StoredWarrant) (records : Records)
      → let result = result_of P i d (run_claimed B d authority) in
        after_claim P B i (
          ok (claimed d a authority),
          insert i (record w { state = WarrantState.consuming }) records,
        )
        ≡ (
          returned P (run_claimed B d authority).0 result,
          insert i
              (spent w result)
              (insert i (record w { state = WarrantState.consuming }) records),
        )
  unfolding after_claim after_finish
  after_claimed B i d a authority w records =
      rw (finish_claimed i w records (result_of P i d (run_claimed B d authority))) refl

  same_end :
      (ending : Ending) (i : String) (d : WarrantDocument) (receipts : List ProcessReceipt)
      → let result = result_of P i d (ending, receipts) in
        (returned P ending result ≡ ok result)
        ⊎ ((returned P ending result ≡ err cancelled)
            × (result.error_code ≡ some "BROKER_CANCELLED_AFTER_CLAIM"))
  unfolding returned result_of
  same_end all_passed i d receipts = inl refl
  same_end one_failed i d receipts = inl refl
  same_end (raised cancelled) i d receipts = inr (refl, refl)
  same_end (raised e) i d receipts = ground arith

  -- Once a claim succeeds, whatever the worktree and the runner do, the warrant is left CONSUMED
  -- with a result, which the broker returns unless it was cancelled.
  pub claimed_is_spent :
      (B : Sandbox) (b : Broker P) (loader : AuthorityLoader) (clock : Reading) (i : String)
      (records mid : Records) (d : WarrantDocument) (a : WarrantApproval)
      (authority : AuthoritySnapshot)
      → claim_warrant i (validate_claim P b) loader clock records
        ≡ (ok (claimed d a authority), mid)
      → (w : StoredWarrant) × (result : BrokerResult) × (lookup i
            (execute_warrant P B b loader clock i records).1
          ≡ some w)
        × (w.document ≡ d)
        × (w.approval ≡ a)
        × (w.state ≡ WarrantState.consumed)
        × (w.result ≡ some result)
        × (((execute_warrant P B b loader clock i records).0 ≡ ok result)
            ⊎ (((execute_warrant P B b loader clock i records).0 ≡ err cancelled)
                × (result.error_code ≡ some "BROKER_CANCELLED_AFTER_CLAIM")))
  unfolding execute_warrant
  claimed_is_spent B b loader clock i records mid d a authority h =
      let c =
        claim_warrant-IsClaimed i (validate_claim P b) loader clock records d a authority mid h in
      let run = run_claimed B d authority in
      let result = result_of P i d run in
      let settled =
        ap (after_claim P B i) (h ∙ ap (λ m. (ok (claimed d a authority), m)) (sym c.marked))
        ∙ after_claimed B i d a authority c.stored records in
      (
        spent c.stored result,
        result,
        ap (λ p. lookup i p.1) settled ∙ lookup-insert_self i (spent c.stored result) _,
        c.document,
        c.approval,
        refl,
        refl,
        subst
            (λ x.
              (x ≡ ok result)
              ⊎ ((x ≡ err cancelled) × (result.error_code ≡ some "BROKER_CANCELLED_AFTER_CLAIM")))
            (sym (ap (λ p. p.0) settled)) (same_end run.0 i d run.1),
      )
