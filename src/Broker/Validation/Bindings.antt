-- ===== src/Broker/Validation/Bindings.antt =====
-- What an accepted claim has established.
use cross_patch.Prelude.{
  ℕ, ◌≤◌, ◌≡◌, refl, true, false, List, [], ◌∷◌, Result, ok, err, str_eq, eq_iff, arith, All,
  not_raised, >>=-eq-ok, subst,
}
use cross_patch.Runner.Catalog.{ExecutionPlan, is_candidate_plan_id, resolve}
use cross_patch.Runner.Catalog.Closed.{candidate_plans_run_service, service_argv}
use cross_patch.Broker.Documents.{
  BoundExecutionPlan, from_execution_plan, WarrantDocument, WarrantApproval, AuthoritySnapshot,
}
use cross_patch.Broker.Primitives.{Primitives, Exn}
use cross_patch.Broker.Warrant.{patch_bytes, validate_warrant_integrity, warrant_format}
use cross_patch.Broker.Approval.{verify}
use cross_patch.Broker.Validation.{
  Broker, as_policy, violation, fault, PathFault, same_authority, check_plan, check_plans,
  check_window, check_authority, check_paths, validate_claim, check_resolved,
}
use cross_patch.Broker.Validation.Integrity.{
  IsIntact, IsSigned, validate_warrant_integrity-IsIntact, verify-IsSigned,
}
use cross_patch.Broker.Validation.SameAuthority.{SameAuthority, same_authority-SameAuthority}

as_policy-ok : (r : Result PathFault (Unit {0})) → as_policy r ≡ ok tt → r ≡ ok tt
unfolding as_policy
as_policy-ok (ok tt) h = refl
as_policy-ok (err violation) h = cc
as_policy-ok (err (fault e)) h = cc

decoded_once : {A : Type 0} {x y : A} (r : Result Exn A) → r ≡ ok x → r ≡ ok y → x ≡ y
decoded_once r h k = cc (h, k)

module _ (P : Primitives) where
  open P use {Bytes, same_bytes, same_bytes_iff, sha256, plan_json, bound_plan_json, paths_json}

  -- A bound plan is one that the broker may execute, with the canonical bytes of the catalogue's
  -- plan of that identifier, whose command is the trusted candidate service.
  pub record IsCatalogued (bound : BoundExecutionPlan) : Type 0 where
    pub plan : ExecutionPlan
    pub resolves : resolve bound.plan_id false ≡ ok plan
    pub bytes :
        bound_plan_json bound
        ≡ bound_plan_json (from_execution_plan (λ p. sha256 (plan_json p)) plan)
    pub command : plan.argv ≡ service_argv

  -- What `validate_claim` establishes.
  pub record IsAuthorized (b : Broker P) (d : WarrantDocument) (a : WarrantApproval) (now : ℕ)
      (authority : AuthoritySnapshot) : Type 0 where
    pub intact : IsIntact P d
    pub format : d.format ≡ warrant_format
    pub issued : d.issued_at ≤ a.approved_at
    pub in_time : a.approved_at ≤ d.expires_at
    pub past : a.approved_at ≤ now
    pub signed : IsSigned P b.keys d a
    pub authority_kept : SameAuthority d authority
    pub paths_kept : paths_json d.allowed_paths ≡ paths_json authority.allowed_paths
    pub runner : d.runner_digest ≡ b.runner_digest
    pub environment : d.environment_digest ≡ b.environment_digest
    pub plans : All IsCatalogued d.execution_plans
    pub patch_allowed : b.path_policy authority.repository_root intact.patch d.allowed_paths ≡ ok tt

  check_plan_parts :
      (bound : BoundExecutionPlan)
      → check_plan P bound ≡ ok tt
      → (is_candidate_plan_id bound.plan_id ≡ true)
        × (check_resolved P bound (resolve bound.plan_id false) ≡ ok tt)
  unfolding check_plan
  check_plan_parts bound h = ground arith

  check_resolved_bytes :
      (bound : BoundExecutionPlan) (plan : ExecutionPlan)
      → check_resolved P bound (ok plan) ≡ ok tt
      → bound_plan_json bound
        ≡ bound_plan_json (from_execution_plan (λ p. sha256 (plan_json p)) plan)
  unfolding check_resolved
  check_resolved_bytes bound plan h = (same_bytes_iff _ _).0 (not_raised _ _ h)

  check_plan-IsCatalogued :
      (bound : BoundExecutionPlan) → check_plan P bound ≡ ok tt → IsCatalogued bound
  check_plan-IsCatalogued bound h =
      let (candidate, resolved) = check_plan_parts bound h in
      let (plan, resolves, command) = candidate_plans_run_service bound.plan_id candidate in
      record {
        plan = plan;
        resolves = resolves;
        bytes = check_resolved_bytes bound plan (rw resolves at resolved);
        command = command;
      }

  check_plans-IsCatalogued :
      (bs : List BoundExecutionPlan) → check_plans P bs ≡ ok tt → All IsCatalogued bs
  unfolding check_plans
  check_plans-IsCatalogued [] h = tt
  check_plans-IsCatalogued (b ∷ bs) h =
      let (u, first, rest) = >>=-eq-ok (check_plan P b) (λ _. check_plans P bs) h in
      (check_plan-IsCatalogued b first, check_plans-IsCatalogued bs rest)

  authority_parts :
      (b : Broker P) (d : WarrantDocument) (authority : AuthoritySnapshot)
      → check_authority P b d authority ≡ ok tt
      → (same_authority d authority ≡ true)
        × (same_bytes (paths_json d.allowed_paths) (paths_json authority.allowed_paths) ≡ true)
        × (str_eq d.runner_digest b.runner_digest ≡ true)
        × (str_eq d.environment_digest b.environment_digest ≡ true)
  unfolding check_authority
  authority_parts b d authority h = ground arith

  path_parts :
      (b : Broker P) (d : WarrantDocument) (authority : AuthoritySnapshot)
      → check_paths P b d authority ≡ ok tt
      → (patch : Bytes) × (patch_bytes P d ≡ ok patch)
        × (b.path_policy authority.repository_root patch d.allowed_paths ≡ ok tt)
  unfolding check_paths
  path_parts b d authority h =
      let (patch, decoded, allowed) = >>=-eq-ok (patch_bytes P d) _ h in
      (
        patch,
        decoded,
        as_policy-ok (b.path_policy authority.repository_root patch d.allowed_paths) allowed,
      )

  window :
      (d : WarrantDocument) (a : WarrantApproval) (now : ℕ)
      → check_window P d a now ≡ ok tt
      → (d.issued_at ≤ a.approved_at) × (a.approved_at ≤ d.expires_at) × (a.approved_at ≤ now)
  unfolding check_window
  window d a now h = ground arith

  claim_parts :
      (b : Broker P) (d : WarrantDocument) (a : WarrantApproval) (now : ℕ)
      (authority result : AuthoritySnapshot)
      → validate_claim P b d a now authority ≡ ok result
      → (validate_warrant_integrity P d ≡ ok tt)
        × (str_eq d.format warrant_format ≡ true)
        × (check_window P d a now ≡ ok tt)
        × (verify P b.keys d a ≡ ok true)
        × (check_authority P b d authority ≡ ok tt)
        × (check_plans P d.execution_plans ≡ ok tt)
        × (check_paths P b d authority ≡ ok tt)
        × (result ≡ authority)
  unfolding validate_claim
  claim_parts b d a now authority result h = ground arith

  -- A claim that the broker accepts returns the snapshot that it was given, and its warrant and
  -- approval bind everything that is executed: a patch, not empty, and plans with the digests that
  -- the warrant names, an approval that names the digest of the warrant's canonical bytes and
  -- whose MAC is the HMAC of both under a key of the broker, a window that contains the approval, the current authority, the broker's own runner and environment, plans
  -- from the catalogue that run the trusted service, and paths that the policy allows.
  pub validate_claim-IsAuthorized :
      (b : Broker P) (d : WarrantDocument) (a : WarrantApproval) (now : ℕ)
      (authority result : AuthoritySnapshot)
      → validate_claim P b d a now authority ≡ ok result
      → (result ≡ authority) × IsAuthorized b d a now authority
  validate_claim-IsAuthorized b d a now authority result h =
      let (integrity, format, in_window, approved, bound, plans, paths, same) =
        claim_parts b d a now authority result h in
      let intact = validate_warrant_integrity-IsIntact P d integrity in
      let (issued, in_time, past) = window d a now in_window in
      let (kept, same_paths, runner, environment) = authority_parts b d authority bound in
      let (patch, decoded, allowed) = path_parts b d authority paths in
      (
        same,
        record {
          intact = intact;
          format = (eq_iff _ _).0 format;
          issued = issued;
          in_time = in_time;
          past = past;
          signed = verify-IsSigned P b.keys d a approved;
          authority_kept = same_authority-SameAuthority d authority kept;
          paths_kept = (same_bytes_iff _ _).0 same_paths;
          runner = (eq_iff _ _).0 runner;
          environment = (eq_iff _ _).0 environment;
          plans = check_plans-IsCatalogued d.execution_plans plans;
          patch_allowed =
              subst (λ x. b.path_policy authority.repository_root x d.allowed_paths ≡ ok tt)
                (decoded_once (patch_bytes P d) decoded intact.patch_decoded) allowed;
        },
      )
