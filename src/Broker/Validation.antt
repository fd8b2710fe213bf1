-- ===== src/Broker/Validation.antt =====
-- `Broker._validate_claim` of backend/src/crosspatch/broker/broker.py. The path policy of
-- broker/paths.py is a parameter: what it does with a repository root, patch bytes and paths.
pub mod Bindings
pub mod Integrity
pub mod SameAuthority
use cross_patch.Prelude.{
  ℕ, String, ◌≡◌, Bool, true, false, not, ◌&&◌, ◌||◌, List, [], ◌∷◌, Result, ok, err, Dict, str_eq,
  ltb, raise_if, all, ◌>>=◌, ◌>>◌, if◌then◌else◌,
}
use cross_patch.Runner.Catalog.{is_candidate_plan_id, resolve, ExecutionPlan, CatalogError}
use cross_patch.Broker.Documents.{
  BoundExecutionPlan, from_execution_plan, WarrantDocument, WarrantApproval, AuthoritySnapshot,
}
use cross_patch.Broker.Primitives.{
  Primitives, Exn, value_error, tamper_rejected, policy_rejected, key_error,
}
use cross_patch.Broker.Warrant.{patch_bytes, validate_warrant_integrity, warrant_format}
use cross_patch.Broker.Approval.{verify}

-- A PathPolicyViolation (PatchFormatViolation is one), or any other exception.
pub data PathFault : Type 0 where
  violation : PathFault
  fault : Exn → PathFault

-- `except WarrantIntegrityError: raise TamperRejected(…)`; the integrity check raises no other.
as_tamper : String → Result Exn (Unit {0}) → Result Exn (Unit {0})
as_tamper m (ok u) = ok u
as_tamper m (err _) = err (tamper_rejected m)

as_policy : Result PathFault (Unit {0}) → Result Exn (Unit {0})
as_policy (ok u) = ok u
as_policy (err violation) = err (policy_rejected "PATCH_POLICY_REJECTED")
as_policy (err (fault e)) = err e

-- `bound_pairs`
unfoldable pub bound_pairs : WarrantDocument → AuthoritySnapshot → List (String × String)
bound_pairs d a =
    (d.warrant_id, a.warrant_id)
    ∷ (d.incident_id, a.incident_id)
    ∷ (d.repository_id, a.repository_id)
    ∷ (d.verdict_id, a.verdict_id)
    ∷ (d.verdict_sha256, a.verdict_sha256)
    ∷ (d.candidate_id, a.candidate_id)
    ∷ (d.authority_snapshot_sha256, a.authority_snapshot_sha256)
    ∷ (d.reviewed_evidence_manifest_sha256, a.reviewed_evidence_manifest_sha256)
    ∷ (d.reviewed_timeline_head, a.reviewed_timeline_head)
    ∷ (d.base_sha, a.base_sha)
    ∷ (d.repository_manifest_sha256, a.repository_manifest_sha256)
    ∷ (d.patch_sha256, a.patch_sha256)
    ∷ (d.test_plan_sha256, a.test_plan_sha256)
    ∷ []

-- `all(_same(left, right) for left, right in bound_pairs)`
unfoldable pub same_authority : WarrantDocument → AuthoritySnapshot → Bool
same_authority d a = all (λ p. str_eq p.0 p.1) (bound_pairs d a)

-- What a broker is constructed with.
pub record Broker (P : Primitives) : Type 0 where
  pub keys : Dict P.Bytes
  pub runner_digest : String
  pub environment_digest : String
  pub path_policy : (root : String) → P.Bytes → List String → Result PathFault (Unit {0})

module _ (P : Primitives) where
  open P use {Bytes, same_bytes, sha256, plan_json, bound_plan_json, paths_json}

  unfoldable pub check_resolved :
      BoundExecutionPlan → Result CatalogError ExecutionPlan → Result Exn (Unit {0})
  unfolding from_execution_plan
  check_resolved bound (err _) = err (tamper_rejected "UNKNOWN_EXECUTION_PLAN")
  check_resolved bound (ok plan) =
      raise_if
        (not (
          same_bytes (bound_plan_json bound)
            (bound_plan_json (from_execution_plan (λ p. sha256 (plan_json p)) plan))))
        (tamper_rejected "RESOLVED_EXECUTION_PLAN_CHANGED")

  unfoldable pub check_plan : BoundExecutionPlan → Result Exn (Unit {0})
  unfolding check_resolved
  check_plan bound = do
    raise_if (not (is_candidate_plan_id bound.plan_id))
        (tamper_rejected "PLAN_NOT_BROKER_EXECUTABLE")
    check_resolved bound (resolve bound.plan_id false)

  unfoldable pub check_plans : List BoundExecutionPlan → Result Exn (Unit {0})
  check_plans [] = ok tt
  check_plans (b ∷ bs) = let rest = check_plans bs in (check_plan b >>= λ _. rest)

  unfoldable pub check_window :
      WarrantDocument → WarrantApproval → (now : ℕ) → Result Exn (Unit {0})
  check_window d a now = do
    raise_if (ltb now d.issued_at) (tamper_rejected "WARRANT_ISSUED_IN_FUTURE")
    raise_if (ltb now a.approved_at) (tamper_rejected "APPROVAL_TIMESTAMP_IN_FUTURE")
    raise_if (ltb a.approved_at d.issued_at || ltb d.expires_at a.approved_at)
        (tamper_rejected "APPROVAL_TIMESTAMP_OUTSIDE_WARRANT_WINDOW")

  unfoldable pub check_authority :
      Broker P → WarrantDocument → AuthoritySnapshot → Result Exn (Unit {0})
  check_authority b d authority = do
    raise_if (not (same_authority d authority))
        (tamper_rejected "CURRENT_AUTHORITY_SNAPSHOT_CHANGED")
    raise_if (not (same_bytes (paths_json d.allowed_paths) (paths_json authority.allowed_paths)))
        (tamper_rejected "CURRENT_ALLOWED_PATHS_CHANGED")
    raise_if (not (str_eq d.runner_digest b.runner_digest))
        (tamper_rejected "RUNNER_DIGEST_CHANGED")
    raise_if (not (str_eq d.environment_digest b.environment_digest))
        (tamper_rejected "ENVIRONMENT_DIGEST_CHANGED")

  unfoldable pub check_paths :
      Broker P → WarrantDocument → AuthoritySnapshot → Result Exn (Unit {0})
  unfolding as_policy
  check_paths b d authority = do
    patch ← patch_bytes P d
    as_policy (b.path_policy authority.repository_root patch d.allowed_paths)

  unfoldable pub validate_claim :
      Broker P
      → WarrantDocument
      → WarrantApproval
      → (now : ℕ) → AuthoritySnapshot
      → Result Exn AuthoritySnapshot
  unfolding as_tamper
  validate_claim b d a now authority = do
    as_tamper "WARRANT_DERIVED_BINDING_CHANGED" (validate_warrant_integrity P d)
    raise_if (not (str_eq d.format warrant_format)) (tamper_rejected "WARRANT_FORMAT_CHANGED")
    check_window d a now
    approved ← verify P b.keys d a
    raise_if (not approved) (tamper_rejected "APPROVAL_MAC_OR_CANONICAL_BYTES_CHANGED")
    check_authority b d authority
    check_plans d.execution_plans
    check_paths b d authority
    ok authority
