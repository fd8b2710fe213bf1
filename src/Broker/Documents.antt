-- ===== src/Broker/Documents.antt =====
-- The documents of backend/src/crosspatch/broker: warrant.py, approval.py and broker.py. Times are
-- aware timestamps, counted in microseconds of UTC; texts that hold digests are hexadecimal.
use cross_patch.Prelude.{ℕ, String, Option, List}
use cross_patch.Runner.Catalog.{OracleProfile, ExecutionPlan}
use cross_patch.Runner.Receipt.{ProcessReceipt}

pub record BoundExecutionPlan : Type 0 where
  pub plan_id : String
  pub argv : List String
  pub working_directory : String
  pub timeout_seconds : ℕ
  pub expected_counts : Option (ℕ × ℕ × ℕ)
  pub expected_statuses : Option (List ℕ)
  pub oracle_profile : Option OracleProfile
  pub plan_sha256 : String

unfoldable pub as_execution_plan : BoundExecutionPlan → ExecutionPlan
as_execution_plan b = record {
  plan_id = b.plan_id;
  argv = b.argv;
  working_directory = b.working_directory;
  timeout_seconds = b.timeout_seconds;
  expected_counts = b.expected_counts;
  expected_statuses = b.expected_statuses;
  oracle_profile = b.oracle_profile;
}

-- `from_execution_plan`, with the digest of the plan given.
unfoldable pub from_execution_plan : (ExecutionPlan → String) → ExecutionPlan → BoundExecutionPlan
from_execution_plan plan_sha256 p = record {
  plan_id = p.plan_id;
  argv = p.argv;
  working_directory = p.working_directory;
  timeout_seconds = p.timeout_seconds;
  expected_counts = p.expected_counts;
  expected_statuses = p.expected_statuses;
  oracle_profile = p.oracle_profile;
  plan_sha256 = plan_sha256 p;
}

pub record WarrantDocument : Type 0 where
  pub format : String
  pub warrant_id : String
  pub incident_id : String
  pub repository_id : String
  pub verdict_id : String
  pub verdict_sha256 : String
  pub candidate_id : String
  pub authority_snapshot_sha256 : String
  pub reviewed_evidence_manifest_sha256 : String
  pub reviewed_timeline_head : String
  pub base_sha : String
  pub repository_manifest_sha256 : String
  pub patch_b64 : String
  pub patch_sha256 : String
  pub allowed_paths : List String
  pub execution_plans : List BoundExecutionPlan
  pub test_plan_sha256 : String
  pub runner_digest : String
  pub environment_digest : String
  pub approver_identity : String
  pub issued_at : ℕ
  pub expires_at : ℕ
  pub approval_mac_key_id : String
  pub nonce : String

pub record WarrantApproval : Type 0 where
  pub warrant_id : String
  pub warrant_sha256 : String
  pub approver_identity : String
  pub approved_at : ℕ
  pub mac_key_id : String
  pub mac_sha256 : String

pub record AuthoritySnapshot : Type 0 where
  pub warrant_id : String
  pub incident_id : String
  pub repository_id : String
  pub verdict_id : String
  pub verdict_sha256 : String
  pub candidate_id : String
  pub authority_snapshot_sha256 : String
  pub reviewed_evidence_manifest_sha256 : String
  pub reviewed_timeline_head : String
  pub base_sha : String
  pub repository_manifest_sha256 : String
  pub patch_sha256 : String
  pub allowed_paths : List String
  pub test_plan_sha256 : String
  pub repository_root : String

-- `AuthoritySnapshot.from_warrant`, the root being resolved by the file system.
unfoldable pub from_warrant : WarrantDocument → (root : String) → AuthoritySnapshot
from_warrant d root = record {
  warrant_id = d.warrant_id;
  incident_id = d.incident_id;
  repository_id = d.repository_id;
  verdict_id = d.verdict_id;
  verdict_sha256 = d.verdict_sha256;
  candidate_id = d.candidate_id;
  authority_snapshot_sha256 = d.authority_snapshot_sha256;
  reviewed_evidence_manifest_sha256 = d.reviewed_evidence_manifest_sha256;
  reviewed_timeline_head = d.reviewed_timeline_head;
  base_sha = d.base_sha;
  repository_manifest_sha256 = d.repository_manifest_sha256;
  patch_sha256 = d.patch_sha256;
  allowed_paths = d.allowed_paths;
  test_plan_sha256 = d.test_plan_sha256;
  repository_root = root;
}

pub data BrokerStatus : Type 0 where
  executed test_failed tamper_rejected policy_rejected expired replay_rejected : BrokerStatus
  infra_failed not_found : BrokerStatus

pub data WarrantState : Type 0 where
  approved consuming consumed rejected expired : WarrantState

pub record BrokerResult : Type 0 where
  pub warrant_id : String
  pub status : BrokerStatus
  pub receipts : List ProcessReceipt
  pub error_code : Option String
  pub nonce_sha256 : Option String

-- A `datetime`, without a zone and with one.
pub data Reading : Type 0 where
  naive : ℕ → Reading
  aware : ℕ → Reading
