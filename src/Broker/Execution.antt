-- ===== src/Broker/Execution.antt =====
-- `Broker.execute_warrant` of backend/src/crosspatch/broker/broker.py. The worktree and the process
-- supervisor are parameters; what they do may depend on all that the run has done before.
pub mod Covered
pub mod Receipts
pub mod Runs
pub mod Settled
use cross_patch.Prelude.{
  ℕ, String, Bool, true, false, Option, none, some, List, [], ◌∷◌, ◌++◌, Result, ok, err,
  if◌then◌else◌,
}
use cross_patch.Runner.Catalog.{ExecutionPlan, CatalogError, resolve}
use cross_patch.Runner.Receipt.{ProcessReceipt, passed}
use cross_patch.Broker.Documents.{
  Reading, BoundExecutionPlan, WarrantDocument, AuthoritySnapshot, BrokerStatus, BrokerResult,
}
use cross_patch.Broker.Primitives.{Primitives, Exn, cancelled, lookup_error}
use cross_patch.Broker.Validation.{Broker, validate_claim}
use cross_patch.Broker.Store.{
  ClaimOutcome, claimed, rejection, Records, AuthorityLoader, claim_warrant, finish,
}

pub record Sandbox : Type 1 where
  pub Workspace : Type 0
  -- WorktreeFactory.create and __aenter__
  pub enter : WarrantDocument → AuthoritySnapshot → Result Exn Workspace
  -- ProcessRunner.run, after the runs of the earlier receipts
  pub run : Workspace → (earlier : List ProcessReceipt) → ExecutionPlan → Result Exn ProcessReceipt
  -- __aexit__: the exception that it raises, if it does
  pub leave : Workspace → List ProcessReceipt → Option Exn

-- How the body of the `try` ends: by the `else` of the loop, by its `break`, or by an exception.
pub data Ending : Type 0 where
  all_passed : Ending
  one_failed : Ending
  raised : Exn → Ending

module _ (B : Sandbox) where
  open B use {Workspace, enter, leave}

  after_run :
      (List ProcessReceipt → Ending × List ProcessReceipt)
      → List ProcessReceipt
      → Result Exn ProcessReceipt
      → Ending × List ProcessReceipt
  after_run rest receipts (err e) = (raised e, receipts)
  after_run rest receipts (ok r) =
      if passed r then rest (receipts ++ r ∷ []) else (one_failed, receipts ++ r ∷ [])

  run_resolved :
      (List ProcessReceipt → Ending × List ProcessReceipt)
      → Workspace
      → List ProcessReceipt
      → Result CatalogError ExecutionPlan
      → Ending × List ProcessReceipt
  unfolding after_run
  run_resolved rest w receipts (err _) = (raised lookup_error, receipts)
  run_resolved rest w receipts (ok plan) = after_run rest receipts (B.run w receipts plan)

  -- The loop over the plans; `receipts` is the list so far.
  unfoldable pub run_plans :
      Workspace → List BoundExecutionPlan → List ProcessReceipt → Ending × List ProcessReceipt
  unfolding run_resolved
  run_plans w [] receipts = (all_passed, receipts)
  run_plans w (b ∷ bs) receipts =
      run_resolved (λ rs. run_plans w bs rs) w receipts (resolve b.plan_id false)

  leaving : Option Exn → Ending × List ProcessReceipt → Ending × List ProcessReceipt
  leaving none p = p
  leaving (some e) (_, receipts) = (raised e, receipts)

  unfoldable pub in_workspace :
      Result Exn Workspace → List BoundExecutionPlan → Ending × List ProcessReceipt
  unfolding leaving
  in_workspace (err e) plans = (raised e, [])
  in_workspace (ok w) plans = let body = run_plans w plans [] in leaving (leave w body.1) body

  unfoldable pub run_claimed : WarrantDocument → AuthoritySnapshot → Ending × List ProcessReceipt
  unfolding in_workspace
  run_claimed d authority = in_workspace (enter d authority) d.execution_plans

module _ (P : Primitives) where
  open P use {sha256, encode}

  -- The result that is stored for each ending.
  unfoldable pub result_of : String → WarrantDocument → Ending × List ProcessReceipt → BrokerResult
  result_of i d (all_passed, receipts) = record {
    warrant_id = i;
    status = BrokerStatus.executed;
    receipts = receipts;
    error_code = none;
    nonce_sha256 = some (sha256 (encode d.nonce));
  }
  result_of i d (one_failed, receipts) = record {
    warrant_id = i;
    status = BrokerStatus.test_failed;
    receipts = receipts;
    error_code = some "FIXED_TEST_PLAN_FAILED";
    nonce_sha256 = some (sha256 (encode d.nonce));
  }
  result_of i d (raised cancelled, receipts) = record {
    warrant_id = i;
    status = BrokerStatus.infra_failed;
    receipts = receipts;
    error_code = some "BROKER_CANCELLED_AFTER_CLAIM";
    nonce_sha256 = some (sha256 (encode d.nonce));
  }
  result_of i d (raised e, receipts) = record {
    warrant_id = i;
    status = BrokerStatus.infra_failed;
    receipts = receipts;
    error_code = some "WORKTREE_OR_RUNNER_FAILURE";
    nonce_sha256 = some (sha256 (encode d.nonce));
  }

  -- `raise` after a cancellation, `return result` otherwise.
  unfoldable pub returned : Ending → BrokerResult → Result Exn BrokerResult
  returned (raised cancelled) result = err cancelled
  returned _ result = ok result

  after_finish :
      Result Exn BrokerResult → Result Exn (Unit {0}) × Records → Result Exn BrokerResult × Records
  after_finish r (ok _, records) = (r, records)
  after_finish r (err e, records) = (err e, records)

  unfoldable pub after_claim :
      Sandbox → String → Result Exn ClaimOutcome × Records → Result Exn BrokerResult × Records
  unfolding after_finish result_of returned
  after_claim B i (err e, records) = (err e, records)
  after_claim B i (ok (rejection status code), records) = (
    ok (record {
      warrant_id = i;
      status = status;
      receipts = [];
      error_code = some code;
      nonce_sha256 = none;
    }),
    records,
  )
  after_claim B i (ok (claimed d a authority), records) =
      let (ending, receipts) = run_claimed B d authority in
      let result = result_of i d (ending, receipts) in
      after_finish (returned ending result) (finish i result records)

  unfoldable pub execute_warrant :
      Sandbox
      → Broker P
      → AuthorityLoader
      → Reading
      → String
      → Records
      → Result Exn BrokerResult × Records
  unfolding after_claim
  execute_warrant B b loader clock i records =
      after_claim B i (claim_warrant i (validate_claim P b) loader clock records)
