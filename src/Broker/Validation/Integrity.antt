-- ===== src/Broker/Validation/Integrity.antt =====
-- The digests and the MAC that `validate_warrant_integrity` of backend/src/crosspatch/broker/warrant.py
-- and `ApprovalService.verify` of backend/src/crosspatch/broker/approval.py have checked.
use cross_patch.Prelude.{
  String, ◌≡◌, ◌≢◌, refl, Bool, true, false, not, Option, some, none, List, [], ◌∷◌, Result, ok,
  err, Dict, lookup, str_eq, eq_iff, ◌==◌, raise_if, arith, All, not_raised, >>=-eq-ok,
  if◌then◌else◌, ap, sym, ◌∙◌,
}
use cross_patch.Broker.Documents.{
  BoundExecutionPlan, as_execution_plan, WarrantDocument, WarrantApproval,
}
use cross_patch.Broker.Primitives.{Primitives, Exn, compare_digest}
use cross_patch.Broker.Warrant.{
  patch_bytes, validate_binding, validate_bindings, validate_warrant_integrity,
  canonical_warrant_hash,
}
use cross_patch.Broker.Approval.{
  zero_mac, caught, found_key, same_or_false, approval_mac_input, verify,
}
use cross_patch.Broker.Approval.Roundtrip.{compare_digest_eq, found_key-some}

caught-true : (r : Result Exn Bool) → caught r ≡ ok true → r ≡ ok true
unfolding caught
caught-true r h = ground arith

if_raised :
    {A : Type 0} (b : Bool) (x y : A) (e : Exn)
    → (if b then ok x else err e) ≡ ok y
    → (b ≡ true) × (x ≡ y)
if_raised true x y e h = (refl, cc)
if_raised false x y e h = absurd (cc h)

same_or_false-true :
    (a b : String) (rest : Result Exn Bool)
    → same_or_false a b rest ≡ ok true
    → (a ≡ b) × (rest ≡ ok true)
same_or_false-true a b rest h = go (>>=-eq-ok (compare_digest a b) _ h)
  where
    go :
        (same : Bool) × (compare_digest a b ≡ ok same)
          × ((if same then rest else ok false) ≡ ok true)
        → (a ≡ b) × (rest ≡ ok true)
    go (true, compared, h) = (compare_digest_eq a b compared, h)
    go (false, compared, h) = absurd (cc h)

module _ (P : Primitives) where
  open P use {
    Bytes, byte_length, sha256, hmac_sha256, b64decode, b64encode, plan_json, bound_plans_json,
  }

  -- The patch is not empty and is encoded canonically, and its digest, each plan's, and that of the
  -- list of plans are the digests that the warrant names.
  pub record IsIntact (d : WarrantDocument) : Type 0 where
    pub patch : Bytes
    pub patch_decoded : patch_bytes P d ≡ ok patch
    pub decodes : b64decode d.patch_b64 ≡ some patch
    pub encodes : b64encode patch ≡ d.patch_b64
    pub not_empty : byte_length patch ≢ 0
    pub patch_digest : sha256 patch ≡ d.patch_sha256
    pub plan_digests :
        All (λ b. sha256 (plan_json (as_execution_plan b)) ≡ b.plan_sha256) d.execution_plans
    pub plans_digest : sha256 (bound_plans_json d.execution_plans) ≡ d.test_plan_sha256

  -- The approval names the warrant, the digest of its canonical bytes, its approver and its key, and
  -- its MAC is the HMAC of the approval with a zero MAC and the warrant, under that key.
  pub record IsSigned (keys : Dict Bytes) (d : WarrantDocument) (a : WarrantApproval) : Type 0 where
    pub key : Bytes
    pub known : lookup a.mac_key_id keys ≡ some key
    pub warrant_id : a.warrant_id ≡ d.warrant_id
    pub warrant_digest : a.warrant_sha256 ≡ sha256 (P.warrant_json d)
    pub approver : a.approver_identity ≡ d.approver_identity
    pub key_id : a.mac_key_id ≡ d.approval_mac_key_id
    pub mac :
        hmac_sha256 key (approval_mac_input P d (record a { mac_sha256 = zero_mac })) ≡ a.mac_sha256

  patch_bytes-coded :
      (d : WarrantDocument) (patch : Bytes)
      → patch_bytes P d ≡ ok patch
      → (b64decode d.patch_b64 ≡ some patch) × (b64encode patch ≡ d.patch_b64)
  unfolding patch_bytes
  patch_bytes-coded d patch h = go (b64decode d.patch_b64) refl
    where
      go :
          (o : Option Bytes)
          → b64decode d.patch_b64 ≡ o
          → (b64decode d.patch_b64 ≡ some patch) × (b64encode patch ≡ d.patch_b64)
      go none e = absurd (cc (rw (e, patch_bytes) at h))
      go (some decoded) e =
          let (same, one) =
            if_raised (str_eq (b64encode decoded) d.patch_b64) decoded patch _
              (rw (e, patch_bytes) at h) in
          (
            e ∙ ap some one,
            ap b64encode (sym one) ∙ (eq_iff (b64encode decoded) d.patch_b64).0 same,
          )

  validate_bindings-digests :
      (bs : List BoundExecutionPlan)
      → validate_bindings P bs ≡ ok tt
      → All (λ b. sha256 (plan_json (as_execution_plan b)) ≡ b.plan_sha256) bs
  unfolding validate_bindings validate_binding
  validate_bindings-digests [] h = tt
  validate_bindings-digests (b ∷ bs) h =
      let (u, first, rest) = >>=-eq-ok (validate_binding P b) (λ _. validate_bindings P bs) h in
      ((eq_iff _ _).0 (not_raised _ _ first), validate_bindings-digests bs rest)

  pub validate_warrant_integrity-IsIntact :
      (d : WarrantDocument) → validate_warrant_integrity P d ≡ ok tt → IsIntact d
  unfolding validate_warrant_integrity
  validate_warrant_integrity-IsIntact d h =
      let (patch, decoded, h1) = >>=-eq-ok (patch_bytes P d) _ h in
      let (_, filled, h2) = >>=-eq-ok (raise_if (byte_length patch == 0) _) _ h1 in
      let (_, digest, h3) =
        >>=-eq-ok (raise_if (not (str_eq (sha256 patch) d.patch_sha256)) _) _ h2 in
      let (_, plans, h4) = >>=-eq-ok (validate_bindings P d.execution_plans) _ h3 in
      let (decodes, encodes) = patch_bytes-coded d patch decoded in
      record {
        patch = patch;
        patch_decoded = decoded;
        decodes = decodes;
        encodes = encodes;
        not_empty = ground arith;
        patch_digest = (eq_iff _ _).0 (not_raised _ _ digest);
        plan_digests = validate_bindings-digests d.execution_plans plans;
        plans_digest = (eq_iff _ _).0 (not_raised _ _ h4);
      }

  pub verify-IsSigned :
      (keys : Dict Bytes) (d : WarrantDocument) (a : WarrantApproval)
      → verify P keys d a ≡ ok true
      → IsSigned keys d a
  unfolding verify canonical_warrant_hash
  verify-IsSigned keys d a h =
      let (_, _, h1) = >>=-eq-ok (validate_warrant_integrity P d) _ (caught-true _ h) in
      let (key, found, h2) = >>=-eq-ok (found_key _ (lookup a.mac_key_id keys)) _ h1 in
      let (named, h3) = same_or_false-true _ _ _ h2 in
      let (digest, h4) = same_or_false-true _ _ _ h3 in
      let (approver, h5) = same_or_false-true _ _ _ h4 in
      let (key_id, mac) = same_or_false-true _ _ _ h5 in
      record {
        key = key;
        known = found_key-some _ _ key found;
        warrant_id = named;
        warrant_digest = digest;
        approver = approver;
        key_id = key_id;
        mac = compare_digest_eq _ _ mac;
      }
