-- ===== src/Scenarios/Warrants.antt =====
-- A warrant, its approval and what a broker is given, for the runs of the broker.
use cross_patch.Prelude.{
  String, ◌≡◌, refl, true, false, none, some, [], ◌∷◌, ok, Dict, lookup, str_eq, eq_iff, length,
  codes,
}
use cross_patch.Runner.Catalog.{ExecutionPlan, OracleProfile}
use cross_patch.Runner.Catalog.Closed.{service_argv}
use cross_patch.Runner.Receipt.{ProcessReceipt, pos}
use cross_patch.Broker.Documents.{
  aware, BoundExecutionPlan, WarrantDocument, WarrantApproval, AuthoritySnapshot, WarrantState,
}
use cross_patch.Broker.Primitives.{Primitives, compare_digest}
use cross_patch.Broker.Warrant.{
  validate_warrant_integrity, validate_bindings, canonical_warrant_hash,
}
use cross_patch.Broker.Approval.{approve}
use cross_patch.Broker.Validation.{Broker}
use cross_patch.Broker.Store.{StoredWarrant, Records, AuthorityLoader}
use cross_patch.Broker.Execution.{Sandbox}

-- Bytes are their texts, and a digest is the name of what made it.
abbrev pub texts : Primitives
texts = record {
  Bytes = String;
  byte_length = λ b. length (codes b);
  same_bytes = str_eq;
  same_bytes_iff = eq_iff;
  sha256 = λ _. "sha256";
  sha256_ascii = λ _. refl;
  hmac_sha256 = λ _ _. "hmac";
  hmac_sha256_ascii = λ _ _. refl;
  encode = λ s. s;
  b64decode = some;
  b64encode = λ b. b;
  isoformat = λ _. "time";
  mac_input = λ metadata _. metadata;
  plan_json = λ p. p.plan_id;
  bound_plan_json = λ b. b.plan_id;
  bound_plans_json = λ _. "plans";
  warrant_json = λ d. d.warrant_id;
  paths_json = λ _. "paths";
}

abbrev pub candidate_plan : ExecutionPlan
candidate_plan = record {
  plan_id = "victim.duplicate-race.candidate";
  argv = service_argv;
  working_directory = "/workspace";
  timeout_seconds = 120;
  expected_counts = some (1, 1, 1);
  expected_statuses = none;
  oracle_profile = some OracleProfile.duplicate_race;
}

abbrev pub bound_plan : BoundExecutionPlan
bound_plan = record {
  plan_id = "victim.duplicate-race.candidate";
  argv = service_argv;
  working_directory = "/workspace";
  timeout_seconds = 120;
  expected_counts = some (1, 1, 1);
  expected_statuses = none;
  oracle_profile = some OracleProfile.duplicate_race;
  plan_sha256 = "sha256";
}

abbrev pub document : WarrantDocument
document = record {
  format = "crosspatch-warrant-v1";
  warrant_id = "warrant-1";
  incident_id = "incident-1";
  repository_id = "victim";
  verdict_id = "verdict-1";
  verdict_sha256 = "sha256";
  candidate_id = "candidate-1";
  authority_snapshot_sha256 = "sha256";
  reviewed_evidence_manifest_sha256 = "sha256";
  reviewed_timeline_head = "sha256";
  base_sha = "base";
  repository_manifest_sha256 = "sha256";
  patch_b64 = "patch";
  patch_sha256 = "sha256";
  allowed_paths = "victim/db.py" ∷ [];
  execution_plans = bound_plan ∷ [];
  test_plan_sha256 = "sha256";
  runner_digest = "runner";
  environment_digest = "environment";
  approver_identity = "ada";
  issued_at = 10;
  expires_at = 100;
  approval_mac_key_id = "key-1";
  nonce = "nonce";
}

abbrev pub approval : WarrantApproval
approval = record {
  warrant_id = "warrant-1";
  warrant_sha256 = "sha256";
  approver_identity = "ada";
  approved_at = 20;
  mac_key_id = "key-1";
  mac_sha256 = "hmac";
}

abbrev pub keys : Dict String
keys = ("key-1", "0123456789abcdef0123456789abcdef") ∷ []

pub approved_by_ada : approve texts keys document (aware 20) none ≡ ok approval
unfolding approve validate_warrant_integrity validate_bindings compare_digest lookup
    canonical_warrant_hash
approved_by_ada = refl

abbrev pub snapshot : AuthoritySnapshot
snapshot = record {
  warrant_id = "warrant-1";
  incident_id = "incident-1";
  repository_id = "victim";
  verdict_id = "verdict-1";
  verdict_sha256 = "sha256";
  candidate_id = "candidate-1";
  authority_snapshot_sha256 = "sha256";
  reviewed_evidence_manifest_sha256 = "sha256";
  reviewed_timeline_head = "sha256";
  base_sha = "base";
  repository_manifest_sha256 = "sha256";
  patch_sha256 = "sha256";
  allowed_paths = "victim/db.py" ∷ [];
  test_plan_sha256 = "sha256";
  repository_root = "/srv/repository";
}

abbrev pub broker : Broker texts
broker = record {
  keys = keys;
  runner_digest = "runner";
  environment_digest = "environment";
  path_policy = λ _ _ _. ok tt;
}

abbrev pub stored : StoredWarrant
stored = record {
  document = document;
  approval = approval;
  state = WarrantState.approved;
  result = none;
}

abbrev pub records : Records
records = ("warrant-1", stored) ∷ []

abbrev pub loads : AuthorityLoader
loads _ = ok snapshot

abbrev pub receipt : ProcessReceipt
receipt = record {
  plan_id = "victim.duplicate-race.candidate";
  plan_sha256 = "sha256";
  argv_sha256 = "sha256";
  exit_code = some (pos 0);
  timed_out = false;
  started_at = 30;
  finished_at = 31;
  stdout_sha256 = "sha256";
  stderr_sha256 = "sha256";
  stdout_bytes = 0;
  stderr_bytes = 0;
  stdout_truncated = false;
  stderr_truncated = false;
  supervisor_verified = true;
  verification_code = "VERIFIED";
  verification_sha256 = "sha256";
  trusted_observation = none;
  trusted_observation_sha256 = none;
  runner_request_sha256 = "sha256";
  runner_service_identity_sha256 = "sha256";
  workspace_provenance_sha256 = "sha256";
  job_provenance_sha256 = "sha256";
  candidate_executor_boot_sha256 = "sha256";
  candidate_executor_replacement_sha256 = "sha256";
}

-- Every run of a plan passes.
abbrev pub sandbox : Sandbox
sandbox = record {
  Workspace = Unit;
  enter = λ _ _. ok tt;
  run = λ _ _ _. ok receipt;
  leave = λ _ _. none;
}
