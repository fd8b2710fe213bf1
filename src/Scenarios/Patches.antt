-- ===== src/Scenarios/Patches.antt =====
-- A patch of one file that the path policy accepts, and one that it accepts for less than it names.
use cross_patch.Prelude.{
  Result, none, String, ◌≡◌, refl, true, false, Option, some, List, [], ◌∷◌, ◌++◌, ok, codes,
  lookup, insert,
}
use cross_patch.Runner.Catalog.{resolve, is_candidate_plan_id}
use cross_patch.Runner.Receipt.{passed}
use cross_patch.Broker.Documents.{aware, AuthoritySnapshot, BrokerStatus, BrokerResult}
use cross_patch.Broker.Primitives.{Exn, compare_digest}
use cross_patch.Broker.Warrant.{
  validate_warrant_integrity, validate_bindings, canonical_warrant_hash,
}
use cross_patch.Broker.Approval.{verify}
use cross_patch.Broker.Validation.{
  Broker, validate_claim, check_window, check_authority, same_authority, bound_pairs, check_plans,
  check_plan, check_paths,
}
use cross_patch.Broker.Store.{StoredWarrant, Records, claim_warrant, finish}
use cross_patch.Broker.Execution.{
  run_plans, run_claimed, in_workspace, result_of, returned, execute_warrant,
}
use cross_patch.Broker.Execution.Covered.{paths_policy, IsConfined, execute_warrant-IsConfined}
use cross_patch.Scenarios.Warrants.{texts, broker, records, loads, receipt, sandbox}
use cross_patch.Broker.Paths.{
  Codes, Repository, codes_eq, after_prefix, split_slash, kept_parts, parts, join_slash, as_posix,
  has_drive, is_absolute, normalize_candidate_path, is_protected, insert_path, sorted, has_symlink,
  validate_path, validate_each, validate_patch_paths, add_code, codes_le,
}
use cross_patch.Broker.Paths.Diff.{
  is_line_end, splitlines, sections, span, diff_header, is_index_line, filter, count, has_duplicate,
  has_last_lf, check_body, section_path, section_paths, from_sections, derive_patch_paths, paths_eq,
  validate_declared_patch_paths,
}
use cross_patch.Broker.Paths.Declared.{IsCovered, validate_declared_patch_paths-IsCovered}

abbrev lines : List String → Codes
lines [] = []
lines (line ∷ rest) = codes line ++ 10 ∷ lines rest

abbrev patch : Codes
patch = lines (
    "diff --git a/victim/db.py b/victim/db.py" ∷ "index 1234567..89abcde 100644"
    ∷ "--- a/victim/db.py" ∷ "+++ b/victim/db.py" ∷ "@@ -1 +1 @@" ∷ "-a" ∷ "+b" ∷ [])

abbrev decode : Codes → Option Codes
decode bytes = some bytes

abbrev same : Codes → Codes
same text = text

-- No path is a link, and all resolve inside the root.
abbrev plain_tree : Repository
plain_tree = record { is_symlink = λ parts. false; resolves_inside = λ path. true }

accepted :
    validate_declared_patch_paths same decode plain_tree patch (codes "victim/db.py" ∷ [])
    ≡ ok (codes "victim/db.py" ∷ [])
unfolding codes_eq after_prefix split_slash kept_parts parts join_slash as_posix has_drive
    is_absolute normalize_candidate_path is_protected insert_path sorted has_symlink validate_path
    validate_each validate_patch_paths is_line_end splitlines sections span diff_header
    is_index_line filter count has_duplicate has_last_lf check_body section_path section_paths
    from_sections derive_patch_paths paths_eq validate_declared_patch_paths add_code codes_le
accepted = refl

validate_declared_patch_paths-IsCovered_example :
    IsCovered same decode plain_tree patch (codes "victim/db.py" ∷ []) (codes "victim/db.py" ∷ [])
validate_declared_patch_paths-IsCovered_example =
    validate_declared_patch_paths-IsCovered same decode plain_tree patch (codes "victim/db.py" ∷ [])
      (codes "victim/db.py" ∷ []) accepted

-- The broker of the runs, with the policy; every repository is the plain tree.
abbrev careful_broker : Broker texts
careful_broker = record broker {
  path_policy = paths_policy texts same decode (λ _. patch) (λ _. plain_tree);
}

abbrev run : Result Exn BrokerResult × Records
run = execute_warrant texts sandbox careful_broker loads (aware 30) "warrant-1" records

abbrev executed_result : BrokerResult
executed_result = record {
  warrant_id = "warrant-1";
  status = BrokerStatus.executed;
  receipts = receipt ∷ [];
  error_code = none;
  nonce_sha256 = some "sha256";
}

ran : run ≡ (ok executed_result, run.1)
unfolding execute_warrant run_claimed in_workspace run_plans passed result_of returned finish
    claim_warrant insert validate_claim validate_warrant_integrity validate_bindings check_window
    verify lookup compare_digest canonical_warrant_hash check_authority same_authority bound_pairs
    check_plans check_plan is_candidate_plan_id resolve check_paths paths_policy codes_eq
    after_prefix split_slash kept_parts parts join_slash as_posix has_drive is_absolute
    normalize_candidate_path is_protected insert_path sorted has_symlink validate_path validate_each
    validate_patch_paths is_line_end splitlines sections span diff_header is_index_line filter count
    has_duplicate has_last_lf check_body section_path section_paths from_sections derive_patch_paths
    paths_eq validate_declared_patch_paths add_code codes_le
ran = refl

execute_warrant-IsConfined_example :
    (w : StoredWarrant) × (lookup "warrant-1" records ≡ some w)
    × ((authority : AuthoritySnapshot) × (loads w.document.warrant_id ≡ ok authority)
        × IsConfined texts same decode
            (λ _. patch)
            (λ _. plain_tree)
            w.document
            authority.repository_root)
execute_warrant-IsConfined_example =
    execute_warrant-IsConfined texts same decode (λ _. patch) (λ _. plain_tree) sandbox
      careful_broker loads (aware 30) "warrant-1" records run.1 executed_result refl ran refl

-- A second pair of file markers in a section, without a header of its own.
abbrev hidden : Codes
hidden =
    patch ++ lines ("--- a/docs/plan.md" ∷ "+++ b/docs/plan.md" ∷ "@@ -1 +1 @@" ∷ "-a" ∷ "+b" ∷ [])

-- The paths derived from it are those of its header alone.
hidden_marker_accepted : derive_patch_paths same decode hidden ≡ ok (codes "victim/db.py" ∷ [])
unfolding codes_eq after_prefix split_slash kept_parts parts join_slash as_posix has_drive
    is_absolute normalize_candidate_path is_protected insert_path sorted is_line_end splitlines
    sections span diff_header is_index_line filter count has_duplicate has_last_lf check_body
    section_path section_paths from_sections derive_patch_paths add_code codes_le
hidden_marker_accepted = refl
