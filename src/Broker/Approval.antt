-- ===== src/Broker/Approval.antt =====
-- `ApprovalService` of backend/src/crosspatch/broker/approval.py.
pub mod Roundtrip
use Prim.Native.String.{◌++◌ as append}
use cross_patch.Prelude.{
  ℕ, String, Bool, true, false, not, ◌||◌, Option, none, some, List, [], ◌∷◌, Result, ok, err, Dict,
  lookup, str_eq, ltb, raise_if, ◌>>=◌, ◌>>◌, if◌then◌else◌,
}
use cross_patch.Broker.Documents.{Reading, naive, aware, WarrantDocument, WarrantApproval}
use cross_patch.Broker.Primitives.{
  Primitives, Exn, value_error, key_error, tamper_rejected, policy_rejected, compare_digest,
}
use cross_patch.Broker.Warrant.{validate_warrant_integrity, canonical_warrant_hash}

-- "0" * 64
abbrev pub zero_mac : String
zero_mac = "0000000000000000000000000000000000000000000000000000000000000000"

-- `approver_identity or document.approver_identity`
chosen_identity : Option String → String → String
chosen_identity none default = default
chosen_identity (some i) default = if str_eq i "" then default else i

-- The timestamp of an approval, in UTC.
aware_time : Reading → Result Exn ℕ
aware_time (naive _) = err (value_error "approval timestamp must be timezone-aware")
aware_time (aware t) = ok t

unfoldable pub found_key : {A : Type 0} → Exn → Option A → Result Exn A
found_key e none = err e
found_key e (some k) = ok k

-- `except (KeyError, ValueError): return False`
unfoldable pub caught : Result Exn Bool → Result Exn Bool
caught (ok b) = ok b
caught (err (value_error _)) = ok false
caught (err (tamper_rejected _)) = ok false
caught (err (policy_rejected _)) = ok false
caught (err key_error) = ok false
caught (err e) = err e

-- `if not hmac.compare_digest(a, b): return False`, and what follows.
abbrev pub same_or_false : String → String → Result Exn Bool → Result Exn Bool
same_or_false a b rest = compare_digest a b >>= λ same. if same then rest else ok false

module _ (P : Primitives) where
  open P use {Bytes, byte_length, hmac_sha256, isoformat, mac_input, warrant_json}

  short_key : Dict Bytes → Bool
  short_key [] = false
  short_key ((_, k) ∷ ks) = ltb (byte_length k) 32 || short_key ks

  -- ApprovalService.__init__
  unfoldable pub new_service : Dict Bytes → Result Exn (Dict Bytes)
  unfolding short_key
  new_service [] = err (value_error "approval MAC keys must contain at least 32 bytes")
  new_service (k ∷ ks) =
      if short_key (k ∷ ks)
      then err (value_error "approval MAC keys must contain at least 32 bytes")
      else ok (k ∷ ks)

  -- `_mac_input`
  unfoldable pub approval_mac_input : WarrantDocument → WarrantApproval → Bytes
  approval_mac_input d a =
      mac_input
        (append a.warrant_sha256 (
          append "\n" (
            append a.approver_identity (
              append "\n"
                (append (isoformat a.approved_at) (append "\n" (append a.mac_key_id "\n")))))))
        (warrant_json d)

  unfoldable pub approve :
      Dict Bytes
      → WarrantDocument
      → (approved_at : Reading) → Option String
      → Result Exn WarrantApproval
  unfolding chosen_identity found_key aware_time approval_mac_input
  approve keys d reading given = do
    validate_warrant_integrity P d
    approved_at ← aware_time reading
    raise_if (ltb d.expires_at approved_at) (value_error "warrant is expired")
    raise_if (ltb approved_at d.issued_at) (value_error "approval precedes warrant issuance")
    same ← compare_digest (chosen_identity given d.approver_identity) d.approver_identity
    raise_if (not same) (value_error "approver identity does not match the warrant")
    key ← found_key (value_error "unknown approval MAC key") (lookup d.approval_mac_key_id keys)
    let unsigned : WarrantApproval = record {
      warrant_id = d.warrant_id;
      warrant_sha256 = canonical_warrant_hash P d;
      approver_identity = chosen_identity given d.approver_identity;
      approved_at = approved_at;
      mac_key_id = d.approval_mac_key_id;
      mac_sha256 = zero_mac;
    }
    ok (record unsigned { mac_sha256 = hmac_sha256 key (approval_mac_input d unsigned) })

  unfoldable pub verify : Dict Bytes → WarrantDocument → WarrantApproval → Result Exn Bool
  unfolding caught found_key approval_mac_input
  verify keys d a = caught (do
    validate_warrant_integrity P d
    key ← found_key key_error (lookup a.mac_key_id keys)
    same_or_false a.warrant_id d.warrant_id (
        same_or_false a.warrant_sha256 (canonical_warrant_hash P d) (
          same_or_false a.approver_identity d.approver_identity (
            same_or_false a.mac_key_id d.approval_mac_key_id (
              compare_digest
                (hmac_sha256 key (approval_mac_input d (record a { mac_sha256 = zero_mac })))
                a.mac_sha256)))))
