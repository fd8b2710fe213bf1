-- ===== src/Broker/Execution/Covered.antt =====
-- The broker with the policy of patch paths that backend/src/crosspatch/broker/paths.py gives it.
use cross_patch.Prelude.{
  String, ◌≡◌, refl, subst, some, Option, List, map, Result, ok, err, lookup, codes,
}
use cross_patch.Broker.Documents.{
  Reading, WarrantDocument, AuthoritySnapshot, BrokerStatus, BrokerResult,
}
use cross_patch.Broker.Primitives.{Primitives}
use cross_patch.Broker.Warrant.{patch_bytes}
use cross_patch.Broker.Validation.{Broker, PathFault, violation}
use cross_patch.Broker.Store.{StoredWarrant, Records, AuthorityLoader}
use cross_patch.Broker.Paths.{Codes, Repository, Violation}
use cross_patch.Broker.Paths.Diff.{validate_declared_patch_paths}
use cross_patch.Broker.Paths.Declared.{IsCovered, validate_declared_patch_paths-IsCovered}
use cross_patch.Broker.Execution.{Sandbox, execute_warrant}
use cross_patch.Broker.Execution.Receipts.{execute_warrant-IsExecuted}

-- `except (PatchFormatViolation, PathPolicyViolation)`
unfoldable pub as_path_fault : Result Violation (List Codes) → Result PathFault (Unit {0})
as_path_fault (ok _) = ok tt
as_path_fault (err _) = err violation

as_path_fault-ok :
    (r : Result Violation (List Codes)) → as_path_fault r ≡ ok tt → (ps : List Codes) × (r ≡ ok ps)
unfolding as_path_fault
as_path_fault-ok (ok ps) h = (ps, refl)
as_path_fault-ok (err e) h = absurd (cc h)

module _ (P : Primitives) (normalize : Codes → Codes) (decode : Codes → Option Codes)
    (bytes : P.Bytes → Codes) (tree : (root : String) → Repository) where
  -- The call of `validate_declared_patch_paths` in the broker's validation.
  unfoldable pub paths_policy : String → P.Bytes → List String → Result PathFault (Unit {0})
  unfolding as_path_fault
  paths_policy root patch paths =
      as_path_fault
        (validate_declared_patch_paths normalize decode (tree root) (bytes patch) (map codes paths))

  -- The patch of a warrant, and the paths that the policy derived from it in this repository.
  pub record IsConfined (d : WarrantDocument) (root : String) : Type 0 where
    pub patch : P.Bytes
    pub decoded : patch_bytes P d ≡ ok patch
    pub paths : List Codes
    pub covered :
        IsCovered normalize decode (tree root) (bytes patch) (map codes d.allowed_paths) paths

  -- A broker that has the path policy of patches returns EXECUTED only for a stored warrant whose
  -- patch the policy accepts in the repository of the authority that was loaded for it: each line
  -- of the patch that starts with "diff " is a header that names one of the warrant's allowed
  -- paths, twice, and each of these is normalized, not protected, inside that repository and
  -- reached through no symbolic link. (The section of the header has the two file markers of that
  -- path once each; of a further pair of markers in it this says nothing.)
  pub execute_warrant-IsConfined :
      (B : Sandbox) (b : Broker P) (loader : AuthorityLoader) (clock : Reading) (i : String)
      (records left : Records) (r : BrokerResult)
      → b.path_policy ≡ paths_policy
      → execute_warrant P B b loader clock i records ≡ (ok r, left)
      → r.status ≡ BrokerStatus.executed
      → (w : StoredWarrant) × (lookup i records ≡ some w)
        × ((authority : AuthoritySnapshot) × (loader w.document.warrant_id ≡ ok authority)
            × IsConfined w.document authority.repository_root)
  unfolding paths_policy
  execute_warrant-IsConfined B b loader clock i records left r same h status =
      let run = execute_warrant-IsExecuted P B b loader clock i records r left h status in
      let claim = run.authorized in
      let (ps, valid) = as_path_fault-ok _ (
        subst
          (λ policy.
            policy run.authority.repository_root claim.intact.patch
              run.stored.document.allowed_paths
            ≡ ok tt)
          same claim.patch_allowed) in
      (
        run.stored,
        run.found,
        (
          run.authority,
          run.loads,
          record {
            patch = claim.intact.patch;
            decoded = claim.intact.patch_decoded;
            paths = ps;
            covered = validate_declared_patch_paths-IsCovered normalize decode _ _ _ ps valid;
          },
        ),
      )
