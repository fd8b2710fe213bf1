-- ===== src/Broker/Approval/Roundtrip.antt =====
-- An approval that the service issues is one that it verifies.
use cross_patch.Prelude.{
  ◌≢◌, ℕ, ◌≤◌, String, ◌≡◌, refl, sym, subst, Bool, true, not, Option, some, none, Result, ok, Dict,
  lookup, eq_iff, eq_refl, ltb, raise_if, arith, >>=-eq-ok, not_raised,
}
use cross_patch.Broker.Documents.{Reading, naive, aware, WarrantDocument, WarrantApproval}
use cross_patch.Broker.Primitives.{Primitives, Exn, compare_digest, is_ascii}
use cross_patch.Broker.Warrant.{validate_warrant_integrity, canonical_warrant_hash}
use cross_patch.Broker.Approval.{
  zero_mac, chosen_identity, found_key, caught, approval_mac_input, approve, verify,
}

compare_digest_self : (s : String) → is_ascii s ≡ true → compare_digest s s ≡ ok true
unfolding compare_digest
compare_digest_self s h = rw (h, eq_refl s) refl

compare_digest_ascii : (a b : String) (r : Bool) → compare_digest a b ≡ ok r → is_ascii b ≡ true
unfolding compare_digest
compare_digest_ascii a b r h = ground arith

pub compare_digest_eq : (a b : String) → compare_digest a b ≡ ok true → a ≡ b
unfolding compare_digest
compare_digest_eq a b h = (eq_iff a b).0 (ground arith)

pub found_key-some :
    {A : Type 0} (e : Exn) (o : Option A) (k : A) → found_key e o ≡ ok k → o ≡ some k
unfolding found_key
found_key-some e none k h = ground arith
found_key-some e (some x) k h = ground arith

caught_ok_true : (r : Result Exn Bool) → r ≡ ok true → caught r ≡ ok true
unfolding caught
caught_ok_true r h = rw h refl

module _ (P : Primitives) where
  open P use {Bytes, sha256_ascii, hmac_sha256, hmac_sha256_ascii}

  unsigned : WarrantDocument → (identity : String) → (approved_at : ℕ) → WarrantApproval
  unsigned d identity t = record {
    warrant_id = d.warrant_id;
    warrant_sha256 = canonical_warrant_hash P d;
    approver_identity = identity;
    approved_at = t;
    mac_key_id = d.approval_mac_key_id;
    mac_sha256 = zero_mac;
  }

  signed : Bytes → WarrantDocument → String → ℕ → WarrantApproval
  signed key d identity t = record (unsigned d identity t) {
    mac_sha256 = hmac_sha256 key (approval_mac_input P d (unsigned d identity t));
  }

  approve_parts :
      (keys : Dict Bytes) (d : WarrantDocument) (t : ℕ) (given : Option String)
      (a : WarrantApproval)
      → approve P keys d (aware t) given ≡ ok a
      → (validate_warrant_integrity P d ≡ ok tt)
        × (compare_digest (chosen_identity given d.approver_identity) d.approver_identity ≡ ok true)
        × (d.issued_at ≤ t)
        × (t ≤ d.expires_at)
        × ((key : Bytes) × (lookup d.approval_mac_key_id keys ≡ some key)
            × (signed key d (chosen_identity given d.approver_identity) t ≡ a))
  unfolding approve signed unsigned
  approve_parts keys d t given a h =
      let (u₁, intact, h₁) = >>=-eq-ok (validate_warrant_integrity P d) _ h in
      let (u₂, early, h₂) = >>=-eq-ok (raise_if (ltb d.expires_at t) _) _ h₁ in
      let (u₃, late, h₃) = >>=-eq-ok (raise_if (ltb t d.issued_at) _) _ h₂ in
      let (same, compared, h₄) =
        >>=-eq-ok (compare_digest (chosen_identity given d.approver_identity) d.approver_identity) _
          h₃ in
      let (u₄, kept, h₅) = >>=-eq-ok (raise_if (not same) _) _ h₄ in
      let (key, found, h₆) = >>=-eq-ok (found_key _ (lookup d.approval_mac_key_id keys)) _ h₅ in
      (
        intact,
        rw (not_raised same _ kept) at compared,
        ground arith,
        ground arith,
        (key, found_key-some _ _ key found, ground arith),
      )

  verify-signed :
      (keys : Dict Bytes) (d : WarrantDocument) (t : ℕ) (key : Bytes)
      → is_ascii d.warrant_id ≡ true
      → is_ascii d.approval_mac_key_id ≡ true
      → is_ascii d.approver_identity ≡ true
      → validate_warrant_integrity P d ≡ ok tt
      → lookup d.approval_mac_key_id keys ≡ some key
      → verify P keys d (signed key d d.approver_identity t) ≡ ok true
  unfolding verify signed unsigned canonical_warrant_hash found_key
  verify-signed keys d t key w k i intact found = caught_ok_true _ (
      rw
        (
          intact,
          found,
          compare_digest_self d.warrant_id w,
          compare_digest_self (canonical_warrant_hash P d) (sha256_ascii (P.warrant_json d)),
          compare_digest_self d.approver_identity i,
          compare_digest_self d.approval_mac_key_id k,
        )
        (compare_digest_self
          (hmac_sha256 key (approval_mac_input P d (unsigned d d.approver_identity t)))
          (hmac_sha256_ascii key (approval_mac_input P d (unsigned d d.approver_identity t)))))

  naive_refused :
      (keys : Dict Bytes) (d : WarrantDocument) (t : ℕ) (given : Option String)
      (a : WarrantApproval)
      → approve P keys d (naive t) given ≢ ok a
  unfolding approve
  naive_refused keys d t given a h =
      let (u, intact, rest) = >>=-eq-ok (validate_warrant_integrity P d) _ h in cc rest

  -- An approval that the service issues verifies under the same keys, when the warrant's
  -- identifiers are ASCII.
  pub verify-approve :
      (keys : Dict Bytes) (d : WarrantDocument) (approved_at : Reading) (given : Option String)
      (a : WarrantApproval)
      → approve P keys d approved_at given ≡ ok a
      → is_ascii d.warrant_id ≡ true
      → is_ascii d.approval_mac_key_id ≡ true
      → verify P keys d a ≡ ok true
  verify-approve keys d (naive t) given a h w k = absurd (naive_refused keys d t given a h)
  verify-approve keys d (aware t) given a h w k =
      let (intact, compared, _, _, (key, found, same)) = approve_parts keys d t given a h in
      subst (λ x. verify P keys d x ≡ ok true) same
        (subst (λ i. verify P keys d (signed key d i t) ≡ ok true)
          (sym (compare_digest_eq _ _ compared))
          (verify-signed keys d t key w k (compare_digest_ascii _ _ true compared) intact found))
