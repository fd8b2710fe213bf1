-- ===== src/Broker/Durable/Claiming.antt =====
-- `claim_warrant` and `finish` of `PostgresWarrantStore`.
pub mod Claims
pub mod Liveness
pub mod Judged
pub mod Nonces
pub mod Refinement
pub mod Writes
pub mod Simulation
pub mod SingleUse
use cross_patch.Prelude.{
  ℕ, ◌+◌, String, Bool, true, false, not, ◌&&◌, ◌||◌, Option, none, some, [], ◌∷◌, Result, ok, err,
  Dict, lookup, insert, str_eq, ltb, ◌==◌, ◌>>=◌, ◌>>◌, raise_if, if◌then◌else◌,
}
use cross_patch.Broker.Documents.{
  WarrantDocument, WarrantApproval, AuthoritySnapshot, BrokerStatus, WarrantState, BrokerResult,
}
use cross_patch.Broker.Primitives.{
  Primitives, Exn, policy_rejected, tamper_rejected, value_error, runtime_error, lookup_error,
  other,
}
use cross_patch.Broker.Parsing.{
  Codec, parse_warrant_json, parse_approval_json, parse_authority_json,
}
use cross_patch.Broker.Store.{ClaimOutcome, Validator, claimed, rejection, message_or}
use cross_patch.Broker.Durable.{WarrantRow, AuthorityRow, Rows, nonce_digest}

-- What a claim of a row that is APPROVED comes to.
pub data Judgement : Type 0 where
  rejects : BrokerStatus → (error_code : String) → Judgement
  expires : Judgement
  accepts : WarrantDocument → WarrantApproval → AuthoritySnapshot → Judgement
  raises : Exn → Judgement

module _ (P : Primitives) (C : Codec P) where
  open P use {Bytes}

  -- `parse_authority_json` and the validator, with the two `except` clauses.
  judge_validated : WarrantDocument → WarrantApproval → Result Exn AuthoritySnapshot → Judgement
  judge_validated d a (ok authority) = accepts d a authority
  judge_validated d a (err (policy_rejected m)) =
      rejects BrokerStatus.policy_rejected (message_or m "PATCH_POLICY_REJECTED")
  judge_validated d a (err (tamper_rejected m)) =
      rejects BrokerStatus.tamper_rejected (message_or m "WARRANT_TAMPER_REJECTED")
  judge_validated d a (err (value_error m)) =
      rejects BrokerStatus.tamper_rejected (message_or m "WARRANT_TAMPER_REJECTED")
  judge_validated d a (err e) = raises e

  pub judge_authority :
      Validator → ℕ → WarrantDocument → WarrantApproval → Option (AuthorityRow P) → Judgement
  unfolding judge_validated
  judge_authority v now d a none = rejects BrokerStatus.tamper_rejected "AUTHORITY_SNAPSHOT_MISSING"
  judge_authority v now d a (some row) =
      judge_validated d a
        (parse_authority_json P C row.snapshot_json >>= λ authority. v d a now authority)

  -- `duplicated_bindings_match`
  unfoldable pub bindings_match : String → WarrantRow P → WarrantDocument → Bool
  bindings_match i row d =
      str_eq i d.warrant_id
      && str_eq row.incident_id d.incident_id
      && str_eq row.nonce_sha256 (nonce_digest P d)
      && row.expires_at == d.expires_at

  pub judge_documents :
      String
      → Validator
      → ℕ
      → WarrantRow P
      → Dict (AuthorityRow P)
      → Result Exn (WarrantDocument × WarrantApproval)
      → Judgement
  unfolding judge_authority
  judge_documents i v now row authorities (err _) =
      rejects BrokerStatus.tamper_rejected "PERSISTED_CANONICAL_BYTES_INVALID"
  judge_documents i v now row authorities (ok (d, a)) =
      if not (bindings_match i row d)
      then rejects BrokerStatus.tamper_rejected "INDEXED_WARRANT_BINDING_CHANGED"
      else if ltb row.expires_at now || ltb d.expires_at now
      then expires
      else judge_authority v now d a (lookup row.incident_id authorities)

  pub stored_documents : WarrantRow P → Result Exn (WarrantDocument × WarrantApproval)
  stored_documents row = do
    d ← parse_warrant_json P C row.document_json
    a ← parse_approval_json P C row.approval_json
    ok (d, a)

  pub judge : String → Validator → ℕ → WarrantRow P → Dict (AuthorityRow P) → Judgement
  unfolding judge_documents stored_documents
  judge i v now row authorities = judge_documents i v now row authorities (stored_documents row)

  -- What the transaction writes and returns for each judgement.
  settle : String → ℕ → WarrantRow P → Rows P → Judgement → Result Exn ClaimOutcome × Rows P
  settle i now row t (rejects status code) = (
    ok (rejection status code),
    record t {
      warrants =
          insert i (record row { state = WarrantState.rejected; updated_at = now }) t.warrants;
    },
  )
  settle i now row t expires = (
    ok (rejection BrokerStatus.expired "WARRANT_EXPIRED"),
    record t {
      warrants =
          insert i (record row { state = WarrantState.expired; updated_at = now }) t.warrants;
    },
  )
  settle i now row t (accepts d a authority) = (
    ok (claimed d a authority),
    record t {
      warrants =
          insert i
            (record row {
              state = WarrantState.consuming;
              claimed_at = some now;
              nonce_consumed_at = some now;
              updated_at = now;
            })
            t.warrants;
    },
  )
  settle i now row t (raises e) = (err e, t)

  claim_row :
      WarrantState
      → String
      → Validator
      → (clock : Option ℕ) → WarrantRow P
      → Rows P
      → Result Exn ClaimOutcome × Rows P
  unfolding judge settle
  claim_row WarrantState.approved i v none row t = (err runtime_error, t)
  claim_row WarrantState.approved i v (some now) row t =
      settle i now row t (judge i v now row t.authorities)
  claim_row _ i v clock row t =
      (ok (rejection BrokerStatus.replay_rejected "WARRANT_ALREADY_CLAIMED"), t)

  -- `clock` is what the database's clock returns; the authority loader is not used.
  unfoldable pub claim_warrant :
      String → Validator → (clock : Option ℕ) → Rows P → Result Exn ClaimOutcome × Rows P
  unfolding claim_row
  claim_warrant i v clock t = elim (lookup i t.warrants) [
    | none ↦ (ok (rejection BrokerStatus.not_found "WARRANT_NOT_FOUND"), t)
    | some row ↦ claim_row row.state i v clock row t
  ]

  finish_row :
      WarrantState
      → String
      → BrokerResult
      → Option ℕ
      → WarrantRow P
      → Rows P
      → Result Exn (Unit {0}) × Rows P
  finish_row WarrantState.consuming i result none row t = (err runtime_error, t)
  finish_row WarrantState.consuming i result (some now) row t = (
    ok tt,
    record t {
      warrants =
          insert i
            (record row {
              state = WarrantState.consumed;
              result_json = some (C.result_json result);
              finished_at = some now;
              updated_at = now;
            })
            t.warrants;
    },
  )
  finish_row _ i result clock row t = (err runtime_error, t)

  unfoldable pub finish :
      String → BrokerResult → (clock : Option ℕ) → Rows P → Result Exn (Unit {0}) × Rows P
  unfolding finish_row
  finish i result clock t = elim (lookup i t.warrants) [
    | none ↦ (err runtime_error, t)
    | some row ↦ finish_row row.state i result clock row t
  ]
