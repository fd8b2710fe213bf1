-- ===== src/Scenarios/Brokerage.antt =====
-- A warrant that is approved, claimed and executed, and claims that come too late.
use cross_patch.Prelude.{
  ◌≤◌, ◌≡◌, ◌↔◌, ◌⊎◌, refl, true, false, none, some, List, [], ◌∷◌, Result, ok, err, lookup, insert,
}
use cross_patch.Runner.Catalog.{ExecutionPlan, resolve, is_candidate_plan_id, plans}
use cross_patch.Runner.Catalog.Closed.{
  resolve_closed, Member, candidate_plans_run_service, service_argv,
}
use cross_patch.Runner.Receipt.{passed}
use cross_patch.Broker.Documents.{aware, BrokerStatus, WarrantState, BrokerResult}
use cross_patch.Broker.Primitives.{Exn, cancelled, compare_digest}
use cross_patch.Broker.Warrant.{
  validate_warrant_integrity, validate_bindings, canonical_warrant_hash,
}
use cross_patch.Broker.Approval.{verify}
use cross_patch.Broker.Approval.Roundtrip.{verify-approve}
use cross_patch.Broker.Validation.{
  validate_claim, check_window, check_authority, same_authority, bound_pairs, check_plans,
  check_plan, check_paths,
}
use cross_patch.Broker.Validation.Bindings.{IsAuthorized, validate_claim-IsAuthorized}
use cross_patch.Broker.Store.{rejection, StoredWarrant, claimed, Records, claim_warrant, finish}
use cross_patch.Broker.Store.Claims.{IsClaimed, claim_warrant-IsClaimed}
use cross_patch.Broker.Store.Outcomes.{IsSettled, claim_warrant-IsSettled}
use cross_patch.Broker.Store.SingleUse.{
  Call, add, claim, complete, total_wins, single_use, spent_never_claimed,
}
use cross_patch.Broker.Execution.{
  all_passed, run_plans, run_claimed, in_workspace, result_of, returned, execute_warrant,
}
use cross_patch.Broker.Execution.Runs.{Runs, run_plans_iff_Runs}
use cross_patch.Broker.Execution.Settled.{claimed_is_spent}
use cross_patch.Broker.Execution.Receipts.{IsExecuted, execute_warrant-IsExecuted}
use cross_patch.Scenarios.Warrants.{
  texts, candidate_plan, bound_plan, document, approval, keys, approved_by_ada, snapshot, broker,
  stored, records, loads, receipt, sandbox,
}

verify-approve_example : verify texts keys document approval ≡ ok true
verify-approve_example =
    verify-approve texts keys document (aware 20) none approval approved_by_ada refl refl

accepted : validate_claim texts broker document approval 30 snapshot ≡ ok snapshot
unfolding validate_claim validate_warrant_integrity validate_bindings check_window verify lookup
    compare_digest canonical_warrant_hash check_authority same_authority bound_pairs check_plans
    check_plan is_candidate_plan_id resolve check_paths
accepted = refl

validate_claim-IsAuthorized_example :
    (snapshot ≡ snapshot) × IsAuthorized texts broker document approval 30 snapshot
validate_claim-IsAuthorized_example =
    validate_claim-IsAuthorized texts broker document approval 30 snapshot snapshot accepted

abbrev marked : Records
marked = ("warrant-1", record stored { state = WarrantState.consuming }) ∷ []

claim_won :
    claim_warrant "warrant-1" (validate_claim texts broker) loads (aware 30) records
    ≡ (ok (claimed document approval snapshot), marked)
unfolding claim_warrant insert validate_claim validate_warrant_integrity validate_bindings
    check_window verify lookup compare_digest canonical_warrant_hash check_authority same_authority
    bound_pairs check_plans check_plan is_candidate_plan_id resolve check_paths
claim_won = refl

claim_warrant-IsClaimed_example :
    IsClaimed "warrant-1"
      (validate_claim texts broker)
      loads
      (aware 30)
      records
      document
      approval
      snapshot
      marked
claim_warrant-IsClaimed_example =
    claim_warrant-IsClaimed "warrant-1" (validate_claim texts broker) loads (aware 30) records
      document approval snapshot marked claim_won

plans_run : run_plans sandbox tt (bound_plan ∷ []) [] ≡ (all_passed, receipt ∷ [])
unfolding run_plans resolve passed
plans_run = refl

run_plans_iff_Runs_example :
    (run_plans sandbox tt (bound_plan ∷ []) [] ≡ (all_passed, receipt ∷ []))
    ↔ Runs sandbox tt (bound_plan ∷ []) [] (receipt ∷ [])
run_plans_iff_Runs_example = run_plans_iff_Runs sandbox tt (bound_plan ∷ []) [] (receipt ∷ [])

abbrev executed_result : BrokerResult
executed_result = record {
  warrant_id = "warrant-1";
  status = BrokerStatus.executed;
  receipts = receipt ∷ [];
  error_code = none;
  nonce_sha256 = some "sha256";
}

abbrev spent_records : Records
spent_records =
    ("warrant-1", record stored { state = WarrantState.consumed; result = some executed_result })
    ∷ []

executed :
    execute_warrant texts sandbox broker loads (aware 30) "warrant-1" records
    ≡ (ok executed_result, spent_records)
unfolding execute_warrant run_claimed in_workspace run_plans passed result_of returned finish
    claim_warrant insert validate_claim validate_warrant_integrity validate_bindings check_window
    verify lookup compare_digest canonical_warrant_hash check_authority same_authority bound_pairs
    check_plans check_plan is_candidate_plan_id resolve check_paths
executed = refl

execute_warrant-IsExecuted_example :
    IsExecuted texts sandbox broker loads
      (aware 30)
      "warrant-1"
      records
      executed_result
      spent_records
execute_warrant-IsExecuted_example =
    execute_warrant-IsExecuted texts sandbox broker loads (aware 30) "warrant-1" records
      executed_result spent_records executed refl

abbrev left_after : Records
left_after = (execute_warrant texts sandbox broker loads (aware 30) "warrant-1" records).1

abbrev answer : Result Exn BrokerResult
answer = (execute_warrant texts sandbox broker loads (aware 30) "warrant-1" records).0

claimed_is_spent_example :
    (w : StoredWarrant) × (result : BrokerResult) × (lookup "warrant-1" left_after ≡ some w)
    × (w.document ≡ document)
    × (w.approval ≡ approval)
    × (w.state ≡ WarrantState.consumed)
    × (w.result ≡ some result)
    × ((answer ≡ ok result)
        ⊎ ((answer ≡ err cancelled) × (result.error_code ≡ some "BROKER_CANCELLED_AFTER_CLAIM")))
claimed_is_spent_example =
    claimed_is_spent texts sandbox broker loads (aware 30) "warrant-1" records marked document
      approval snapshot claim_won

-- Two brokers claim the warrant, and one more after it is spent.
abbrev rivals : List Call
rivals =
    add document approval
    ∷ claim "warrant-1" (validate_claim texts broker) loads (aware 30)
    ∷ claim "warrant-1" (validate_claim texts broker) loads (aware 31)
    ∷ complete "warrant-1" executed_result
    ∷ claim "warrant-1" (validate_claim texts broker) loads (aware 32)
    ∷ []

single_use_example : total_wins "warrant-1" rivals [] ≤ 1
single_use_example = single_use "warrant-1" rivals []

spent_found :
    lookup "warrant-1" spent_records
    ≡ some (record stored { state = WarrantState.consumed; result = some executed_result })
unfolding lookup
spent_found = refl

spent_never_claimed_example : total_wins "warrant-1" rivals spent_records ≡ 0
spent_never_claimed_example =
    spent_never_claimed "warrant-1" rivals spent_records
      (record stored { state = WarrantState.consumed; result = some executed_result }) spent_found
      (λ h. cc h)

candidate_resolved : resolve "victim.duplicate-race.candidate" false ≡ ok candidate_plan
unfolding resolve plans
candidate_resolved = refl

resolve_closed_example :
    (false ≡ false)
    × (candidate_plan.plan_id ≡ "victim.duplicate-race.candidate")
    × Member candidate_plan plans
resolve_closed_example =
    resolve_closed "victim.duplicate-race.candidate" false candidate_plan candidate_resolved

is_candidate : is_candidate_plan_id "victim.payload-equivalence.candidate" ≡ true
unfolding is_candidate_plan_id
is_candidate = refl

candidate_plans_run_service_example :
    (p : ExecutionPlan) × (resolve "victim.payload-equivalence.candidate" false ≡ ok p)
    × (p.argv ≡ service_argv)
candidate_plans_run_service_example =
    candidate_plans_run_service "victim.payload-equivalence.candidate" is_candidate

abbrev expired_records : Records
expired_records = ("warrant-1", record stored { state = WarrantState.expired }) ∷ []

claimed_late :
    claim_warrant "warrant-1" (validate_claim texts broker) loads (aware 200) records
    ≡ (ok (rejection BrokerStatus.expired "WARRANT_EXPIRED"), expired_records)
unfolding claim_warrant lookup insert
claimed_late = refl

warrant_found : lookup "warrant-1" records ≡ some stored
unfolding lookup
warrant_found = refl

claim_warrant-IsSettled_example : IsSettled "warrant-1" document approval expired_records
claim_warrant-IsSettled_example =
    claim_warrant-IsSettled "warrant-1" (validate_claim texts broker) loads (aware 200) stored
      records expired_records (rejection BrokerStatus.expired "WARRANT_EXPIRED") warrant_found
      claimed_late
