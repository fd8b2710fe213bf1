-- ===== src/Runner/Receipt.antt =====
-- `ProcessReceipt` of backend/src/crosspatch/runner/results.py. Times are counted in
-- microseconds; an exit code below 0 is the number of a signal.
use cross_patch.Prelude.{ℕ, String, Bool, true, false, not, ◌&&◌, Option, some, List}

pub data ℤ : Type 0 where
  pos : ℕ → ℤ
  negsuc : ℕ → ℤ

pub record TrustedObservationCounts : Type 0 where
  pub receipts : ℕ
  pub jobs : ℕ
  pub deliveries : ℕ

pub record TrustedObservation : Type 0 where
  pub counts : TrustedObservationCounts
  pub response_statuses : List ℕ

pub record ProcessReceipt : Type 0 where
  pub plan_id : String
  pub plan_sha256 : String
  pub argv_sha256 : String
  pub exit_code : Option ℤ
  pub timed_out : Bool
  pub started_at : ℕ
  pub finished_at : ℕ
  pub stdout_sha256 : String
  pub stderr_sha256 : String
  pub stdout_bytes : ℕ
  pub stderr_bytes : ℕ
  pub stdout_truncated : Bool
  pub stderr_truncated : Bool
  pub supervisor_verified : Bool
  pub verification_code : String
  pub verification_sha256 : String
  pub trusted_observation : Option TrustedObservation
  pub trusted_observation_sha256 : Option String
  pub runner_request_sha256 : String
  pub runner_service_identity_sha256 : String
  pub workspace_provenance_sha256 : String
  pub job_provenance_sha256 : String
  pub candidate_executor_boot_sha256 : String
  pub candidate_executor_replacement_sha256 : String

exited_with_0 : Option ℤ → Bool
exited_with_0 (some (pos ℕ.zero)) = true
exited_with_0 _ = false

unfoldable pub passed : ProcessReceipt → Bool
unfolding exited_with_0
passed r = r.supervisor_verified && not r.timed_out && exited_with_0 r.exit_code
