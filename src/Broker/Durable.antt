-- ===== src/Broker/Durable.antt =====
-- `PostgresWarrantStore` of backend/src/crosspatch/broker/store.py over the rows of WarrantRecord
-- and MutationAuthorityRecord (db/models.py). A call is one transaction under row and advisory
-- locks, so it is one step; a transaction that an exception ends leaves the rows as they were.
pub mod Claiming
use cross_patch.Prelude.{
  ℕ, ◌+◌, String, Bool, true, false, not, ◌&&◌, ◌||◌, Option, none, some, [], ◌∷◌, Result, ok, err,
  Dict, lookup, insert, str_eq, ltb, ◌==◌, ◌>>=◌, ◌>>◌, raise_if, if◌then◌else◌,
}
use cross_patch.Broker.Documents.{
  WarrantDocument, WarrantApproval, AuthoritySnapshot, BrokerStatus, WarrantState, BrokerResult,
}
use cross_patch.Broker.Primitives.{
  Primitives, Exn, policy_rejected, tamper_rejected, value_error, runtime_error, lookup_error,
  other,
}
use cross_patch.Broker.Parsing.{
  Codec, parse_warrant_json, parse_approval_json, parse_authority_json,
}
use cross_patch.Broker.Store.{ClaimOutcome, Validator, claimed, rejection, message_or}

module _ (P : Primitives) where
  open P use {Bytes, sha256, encode, warrant_json}

  -- `WarrantRecord`; its primary key is the key of the table.
  pub record WarrantRow : Type 0 where
    pub incident_id : String
    pub nonce_sha256 : String
    pub document_json : Bytes
    pub approval_json : Bytes
    pub state : WarrantState
    pub expires_at : ℕ
    pub claimed_at : Option ℕ
    pub nonce_consumed_at : Option ℕ
    pub finished_at : Option ℕ
    pub result_json : Option Bytes
    pub created_at : ℕ
    pub updated_at : ℕ

  -- `MutationAuthorityRecord`
  pub record AuthorityRow : Type 0 where
    pub snapshot_json : Bytes
    pub version : ℕ
    pub updated_at : ℕ

  pub record Rows : Type 0 where
    pub warrants : Dict WarrantRow
    pub authorities : Dict AuthorityRow

  -- The unique constraint on the column `nonce_sha256`.
  unfoldable pub has_nonce : String → Dict WarrantRow → Bool
  has_nonce n [] = false
  has_nonce n ((_, w) ∷ ws) = str_eq w.nonce_sha256 n || has_nonce n ws

  unfoldable pub nonce_digest : WarrantDocument → String
  nonce_digest d = sha256 (encode d.nonce)

  module _ (C : Codec P) where
    publish : AuthoritySnapshot → ℕ → Option AuthorityRow → AuthorityRow
    publish authority now none = record {
      snapshot_json = C.authority_json authority;
      version = 1;
      updated_at = now;
    }
    publish authority now (some row) = record {
      snapshot_json = C.authority_json authority;
      version = row.version + 1;
      updated_at = now;
    }

    fresh_row : WarrantDocument → WarrantApproval → ℕ → WarrantRow
    fresh_row d a now = record {
      incident_id = d.incident_id;
      nonce_sha256 = nonce_digest d;
      document_json = warrant_json d;
      approval_json = C.approval_json a;
      state = WarrantState.approved;
      expires_at = d.expires_at;
      claimed_at = none;
      nonce_consumed_at = none;
      finished_at = none;
      result_json = none;
      created_at = now;
      updated_at = now;
    }

    -- The flush of a new row, which its two unique columns may refuse.
    added : WarrantDocument → WarrantRow → Dict AuthorityRow → Rows → Result Exn (Unit {0}) × Rows
    added d row authorities t = elim (lookup d.warrant_id t.warrants) [
      | some _ ↦ (err (other "IntegrityError"), t)
      | none ↦
          if has_nonce row.nonce_sha256 t.warrants then (err (other "IntegrityError"), t) else (
            ok tt,
            record { warrants = insert d.warrant_id row t.warrants; authorities = authorities },
          )
    ]

    unfoldable pub add_approved :
        WarrantDocument
        → WarrantApproval
        → AuthoritySnapshot
        → (now : ℕ) → Rows
        → Result Exn (Unit {0}) × Rows
    unfolding publish fresh_row added nonce_digest
    add_approved d a authority now t =
        if not (str_eq d.incident_id authority.incident_id)
        then (err (value_error "warrant and authority incidents differ"), t)
        else added d (fresh_row d a now)
            (insert d.incident_id (publish authority now (lookup d.incident_id t.authorities))
              t.authorities)
            t

    unfoldable pub replace_authority :
        AuthoritySnapshot → (now : ℕ) → Rows → Result Exn (Unit {0}) × Rows
    unfolding publish
    replace_authority authority now t = elim (lookup authority.incident_id t.authorities) [
      | none ↦ (err lookup_error, t)
      | some row ↦ (
        ok tt,
        record t {
          authorities =
              insert authority.incident_id (publish authority now (some row)) t.authorities;
        },
      )
    ]
