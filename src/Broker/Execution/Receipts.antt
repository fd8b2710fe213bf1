-- ===== src/Broker/Execution/Receipts.antt =====
-- What an execution that is reported as EXECUTED has done.
use cross_patch.Prelude.{
  ℕ, ◌≤◌, String, ◌≡◌, refl, sym, ap, subst, ◌∙◌, some, [], Result, ok, err, lookup, arith,
  lookup-insert_self,
}
use cross_patch.Broker.Documents.{
  Reading, aware, WarrantDocument, WarrantApproval, AuthoritySnapshot, BrokerStatus, WarrantState,
  BrokerResult,
}
use cross_patch.Broker.Primitives.{Primitives, Exn}
use cross_patch.Broker.Validation.{Broker, validate_claim}
use cross_patch.Broker.Store.{
  StoredWarrant, ClaimOutcome, claimed, rejection, Records, AuthorityLoader, claim_warrant,
}
use cross_patch.Broker.Validation.Bindings.{IsAuthorized, validate_claim-IsAuthorized}
use cross_patch.Broker.Store.Claims.{IsClaimed, claim_warrant-IsClaimed, rejected_not_executed}
use cross_patch.Broker.Execution.{Sandbox, run_claimed, result_of, after_claim, execute_warrant}
use cross_patch.Broker.Execution.Runs.{Runs}
use cross_patch.Broker.Execution.Settled.{
  in_workspace_passed, executed_ending, returned_same, spent, after_claimed,
}

module _ (P : Primitives) where
  -- What an execution that is reported as EXECUTED has been.
  pub record IsExecuted (B : Sandbox) (b : Broker P) (loader : AuthorityLoader) (clock : Reading)
      (i : String) (records : Records) (r : BrokerResult) (left : Records) : Type 0 where
    pub stored : StoredWarrant
    pub found : lookup i records ≡ some stored
    pub approved : stored.state ≡ WarrantState.approved
    pub now : ℕ
    pub read : clock ≡ aware now
    pub in_time : now ≤ stored.document.expires_at
    pub authority : AuthoritySnapshot
    pub loads : loader stored.document.warrant_id ≡ ok authority
    pub authorized : IsAuthorized P b stored.document stored.approval now authority
    pub workspace : B.Workspace
    pub entered : B.enter stored.document authority ≡ ok workspace
    pub runs : Runs B workspace stored.document.execution_plans [] r.receipts
    pub kept : lookup i left ≡ some (spent stored r)

  executed_claimed :
      (B : Sandbox) (b : Broker P) (loader : AuthorityLoader) (clock : Reading) (i : String)
      (records : Records) (r : BrokerResult) (left mid : Records) (d : WarrantDocument)
      (a : WarrantApproval) (authority : AuthoritySnapshot)
      → IsClaimed i (validate_claim P b) loader clock records d a authority mid
      → after_claim P B i (ok (claimed d a authority), mid) ≡ (ok r, left)
      → r.status ≡ BrokerStatus.executed
      → IsExecuted B b loader clock i records r left
  unfolding run_claimed
  executed_claimed B b loader clock i records r left mid d a authority c h status =
      let w = c.stored in
      let run = run_claimed B d authority in
      let result = result_of P i d run in
      let settled =
        sym (after_claimed P B i d a authority w records)
        ∙ ap (λ m. after_claim P B i (ok (claimed d a authority), m)) c.marked
        ∙ h in
      let same : result ≡ r = returned_same P run.0 result r (ap (λ p. p.0) settled) in
      let ending = executed_ending P i d run (ap (λ x. x.status) same ∙ status) in
      let (workspace, entered, runs) =
        in_workspace_passed P B (B.enter d authority) d.execution_plans result.receipts ending in
      let (kept, authorized) =
        validate_claim-IsAuthorized P b w.document w.approval c.now c.loaded authority
          c.validated in
      record {
        stored = w;
        found = c.found;
        approved = c.approved;
        now = c.now;
        read = c.read;
        in_time = c.in_time;
        authority = authority;
        loads = c.loads ∙ ap ok (sym kept);
        authorized = subst (IsAuthorized P b w.document w.approval c.now) (sym kept) authorized;
        workspace = workspace;
        entered = ap (λ x. B.enter x authority) c.document ∙ entered;
        runs =
            subst (λ x. Runs B workspace x.execution_plans [] r.receipts) (sym c.document)
              (subst (λ x. Runs B workspace d.execution_plans [] x.receipts) same runs);
        kept =
            ap (lookup i) (sym (ap (λ p. p.1) settled))
            ∙ lookup-insert_self i (spent w result) _
            ∙ ap (λ x. some (spent w x)) same;
      }

  -- When the broker returns EXECUTED, the stored warrant was APPROVED and unexpired, its claim was
  -- authorised under the snapshot that was loaded, every plan of the warrant ran in order in the
  -- workspace entered for it and passed, the receipts are those of the runs, and the warrant is
  -- left CONSUMED with this result.
  pub execute_warrant-IsExecuted :
      (B : Sandbox) (b : Broker P) (loader : AuthorityLoader) (clock : Reading) (i : String)
      (records : Records) (r : BrokerResult) (left : Records)
      → execute_warrant P B b loader clock i records ≡ (ok r, left)
      → r.status ≡ BrokerStatus.executed
      → IsExecuted B b loader clock i records r left
  unfolding execute_warrant after_claim
  execute_warrant-IsExecuted B b loader clock i records r left h status =
      go (claim_warrant i (validate_claim P b) loader clock records) refl h
    where
      go :
          (c : Result Exn ClaimOutcome × Records)
          → claim_warrant i (validate_claim P b) loader clock records ≡ c
          → after_claim P B i c ≡ (ok r, left)
          → IsExecuted B b loader clock i records r left
      go (err e, mid) c g = cc
      go (ok (rejection s code), mid) c g = absurd (
          rejected_not_executed i (validate_claim P b) loader clock records s code mid c
            (ground arith))
      go (ok (claimed d a authority), mid) c g =
          executed_claimed B b loader clock i records r left mid d a authority
            (claim_warrant-IsClaimed i (validate_claim P b) loader clock records d a authority mid
              c)
            g status
