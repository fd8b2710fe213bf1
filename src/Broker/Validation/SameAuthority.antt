-- ===== src/Broker/Validation/SameAuthority.antt =====
-- What the comparison of the bound pairs establishes.
use cross_patch.Prelude.{String, ◌≡◌, true, List, [], ◌∷◌, str_eq, eq_iff, arith, All, all}
use cross_patch.Broker.Documents.{WarrantDocument, AuthoritySnapshot}
use cross_patch.Broker.Validation.{bound_pairs, same_authority}

-- The snapshot is the one that the warrant was drawn from, but for its root and its paths.
pub record SameAuthority (d : WarrantDocument) (a : AuthoritySnapshot) : Type 0 where
  pub warrant_id : d.warrant_id ≡ a.warrant_id
  pub incident_id : d.incident_id ≡ a.incident_id
  pub repository_id : d.repository_id ≡ a.repository_id
  pub verdict_id : d.verdict_id ≡ a.verdict_id
  pub verdict_sha256 : d.verdict_sha256 ≡ a.verdict_sha256
  pub candidate_id : d.candidate_id ≡ a.candidate_id
  pub authority_snapshot_sha256 : d.authority_snapshot_sha256 ≡ a.authority_snapshot_sha256
  pub reviewed_evidence_manifest_sha256 :
      d.reviewed_evidence_manifest_sha256 ≡ a.reviewed_evidence_manifest_sha256
  pub reviewed_timeline_head : d.reviewed_timeline_head ≡ a.reviewed_timeline_head
  pub base_sha : d.base_sha ≡ a.base_sha
  pub repository_manifest_sha256 : d.repository_manifest_sha256 ≡ a.repository_manifest_sha256
  pub patch_sha256 : d.patch_sha256 ≡ a.patch_sha256
  pub test_plan_sha256 : d.test_plan_sha256 ≡ a.test_plan_sha256

all_same :
    (ps : List (String × String))
    → all (λ p. str_eq p.0 p.1) ps ≡ true
    → All (λ (p : String × String). p.0 ≡ p.1) ps
all_same [] h = tt
all_same ((l, r) ∷ ps) h =
    let both : (str_eq l r ≡ true) × (all (λ (p : String × String). str_eq p.0 p.1) ps ≡ true) =
      ground arith in
    ((eq_iff l r).0 both.0, all_same ps both.1)

pub same_authority-SameAuthority :
    (d : WarrantDocument) (a : AuthoritySnapshot) → same_authority d a ≡ true → SameAuthority d a
unfolding same_authority bound_pairs
same_authority-SameAuthority d a h =
    let q = all_same (bound_pairs d a) h in
    record {
      warrant_id = q.0;
      incident_id = q.1.0;
      repository_id = q.1.1.0;
      verdict_id = q.1.1.1.0;
      verdict_sha256 = q.1.1.1.1.0;
      candidate_id = q.1.1.1.1.1.0;
      authority_snapshot_sha256 = q.1.1.1.1.1.1.0;
      reviewed_evidence_manifest_sha256 = q.1.1.1.1.1.1.1.0;
      reviewed_timeline_head = q.1.1.1.1.1.1.1.1.0;
      base_sha = q.1.1.1.1.1.1.1.1.1.0;
      repository_manifest_sha256 = q.1.1.1.1.1.1.1.1.1.1.0;
      patch_sha256 = q.1.1.1.1.1.1.1.1.1.1.1.0;
      test_plan_sha256 = q.1.1.1.1.1.1.1.1.1.1.1.1.0;
    }
