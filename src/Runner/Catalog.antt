-- ===== src/Runner/Catalog.antt =====
-- backend/src/crosspatch/runner/catalog.py
pub mod Closed
use Prim.Native.String.{◌++◌ as append}
use cross_patch.Prelude.{
  ℕ, String, Bool, true, false, ◌||◌, Option, none, some, List, [], ◌∷◌, Result, ok, err, str_eq,
  if◌then◌else◌,
}

pub data OracleProfile : Type 0 where
  duplicate_race payload_equivalence : OracleProfile

pub record ExecutionPlan : Type 0 where
  pub plan_id : String
  pub argv : List String
  pub working_directory : String
  pub timeout_seconds : ℕ
  pub expected_counts : Option (ℕ × ℕ × ℕ)
  pub expected_statuses : Option (List ℕ)
  pub oracle_profile : Option OracleProfile

abbrev runner_python : String
runner_python = "/opt/crosspatch/venv/bin/python"

abbrev test_root : String
test_root = "/opt/crosspatch/tests"

abbrev workspace : String
workspace = "/workspace"

abbrev candidate_service : String
candidate_service = "/opt/crosspatch/candidate_service.py"

pytest_plan :
    String
    → String
    → String
    → ℕ
    → Option (ℕ × ℕ × ℕ)
    → Option (List ℕ)
    → Option OracleProfile
    → ExecutionPlan
pytest_plan id file name timeout counts statuses profile = record {
  plan_id = id;
  argv = runner_python ∷ "-m" ∷ "pytest" ∷ "-q" ∷ append file (append "::" name) ∷ [];
  working_directory = workspace;
  timeout_seconds = timeout;
  expected_counts = counts;
  expected_statuses = statuses;
  oracle_profile = profile;
}

candidate_service_plan : String → ℕ × ℕ × ℕ → Option (List ℕ) → OracleProfile → ExecutionPlan
candidate_service_plan id counts statuses profile = record {
  plan_id = id;
  argv = runner_python ∷ candidate_service ∷ [];
  working_directory = workspace;
  timeout_seconds = 120;
  expected_counts = some counts;
  expected_statuses = statuses;
  oracle_profile = some profile;
}

-- A plan of the contract tests, with the defaults of `_pytest_plan`.
plain_plan : String → String → String → ℕ → ExecutionPlan
unfolding pytest_plan
plain_plan id file name timeout = pytest_plan id (append test_root file) name timeout none none none

unfoldable pub plans : List ExecutionPlan
unfolding pytest_plan candidate_service_plan plain_plan
plans =
    plain_plan "victim.single-delivery" "/victim/test_contract.py"
      "test_single_signed_delivery_is_processed_once" 60
    ∷ plain_plan "victim.sequential-duplicate" "/victim/test_contract.py"
        "test_sequential_duplicate_is_idempotent" 60
    ∷ plain_plan "victim.distinct-events" "/victim/test_contract.py"
        "test_distinct_event_ids_are_processed_independently" 60
    ∷ pytest_plan "victim.duplicate-race.affected"
        (append test_root "/backend/integration/test_reproduction.py")
        "test_affected_revision_reproduces_real_duplicate_delivery" 60 (some (1, 2, 2)) none
        (some duplicate_race)
    ∷ candidate_service_plan "victim.duplicate-race.candidate" (1, 1, 1) none duplicate_race
    ∷ pytest_plan "victim.payload-equivalence.affected"
        (append test_root "/backend/integration/test_payload_equivalence.py")
        "test_affected_revision_rejects_semantically_equivalent_retry" 60 (some (1, 1, 1))
        (some (202 ∷ 409 ∷ 409 ∷ [])) (some payload_equivalence)
    ∷ candidate_service_plan "victim.payload-equivalence.candidate" (1, 1, 1)
        (some (202 ∷ 200 ∷ 409 ∷ [])) payload_equivalence
    ∷ plain_plan "victim.stress-duplicate-32" "/victim/test_race.py"
        "test_thirty_two_duplicate_requests_obey_documented_baseline" 120
    ∷ plain_plan "victim.stress-distinct-32" "/victim/test_race.py"
        "test_thirty_two_distinct_events_are_not_coalesced" 120
    ∷ plain_plan "victim.hmac-rejection" "/victim/test_contract.py"
        "test_invalid_hmac_is_rejected_without_database_writes" 60
    ∷ plain_plan "victim.payload-mismatch" "/victim/test_contract.py"
        "test_reused_event_id_with_different_payload_is_rejected" 60
    ∷ plain_plan "victim.worker-retry" "/victim/test_worker_retry.py"
        "test_failed_delivery_is_retried_without_losing_the_job" 60
    ∷ plain_plan "policy.protected-paths" "/backend/security/test_broker_policy.py"
        "test_protected_or_escaping_paths_are_rejected" 60
    ∷ []

unfoldable pub approved_plan_ids : List String
approved_plan_ids =
    "victim.single-delivery" ∷ "victim.sequential-duplicate" ∷ "victim.distinct-events"
    ∷ "victim.duplicate-race.affected" ∷ "victim.duplicate-race.candidate"
    ∷ "victim.payload-equivalence.affected" ∷ "victim.payload-equivalence.candidate"
    ∷ "victim.stress-duplicate-32" ∷ "victim.stress-distinct-32" ∷ "victim.hmac-rejection"
    ∷ "victim.payload-mismatch" ∷ "victim.worker-retry" ∷ "policy.protected-paths" ∷ []

unfoldable pub is_candidate_plan_id : String → Bool
is_candidate_plan_id i =
    str_eq i "victim.duplicate-race.candidate" || str_eq i "victim.payload-equivalence.candidate"

pub data CatalogError : Type 0 where
  unknown_execution_plan : String → CatalogError
  model_supplied_command : String → CatalogError

unfoldable pub find_plan : String → List ExecutionPlan → Option ExecutionPlan
find_plan i [] = none
find_plan i (p ∷ ps) = if str_eq p.plan_id i then some p else find_plan i ps

unfoldable pub resolve_in : List ExecutionPlan → String → Bool → Result CatalogError ExecutionPlan
unfolding find_plan
resolve_in ps i supplied = elim (find_plan i ps) [
  | none ↦ err (unknown_execution_plan i)
  | some plan ↦ if supplied then err (model_supplied_command i) else ok plan
]

-- `ExecutionCatalog.resolve`; `supplied` says whether the caller gave any argv.
unfoldable pub resolve : String → (supplied : Bool) → Result CatalogError ExecutionPlan
unfolding resolve_in plans
resolve i supplied = resolve_in plans i supplied
