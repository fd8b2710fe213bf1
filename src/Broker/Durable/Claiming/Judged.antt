-- ===== src/Broker/Durable/Claiming/Judged.antt =====
-- What a judgement that accepts has tested.
use cross_patch.Prelude.{
  ℕ, ◌≤◌, String, ◌≡◌, refl, true, ◌||◌, Option, none, some, Result, ok, err, Dict, lookup, eq_iff,
  ltb, arith, ◌>>=◌, >>=-eq-ok, Bool-cases, Result-cases, inl, inr,
}
use cross_patch.Broker.Documents.{WarrantDocument, WarrantApproval, AuthoritySnapshot}
use cross_patch.Broker.Primitives.{Primitives, Exn, policy_rejected, tamper_rejected, value_error}
use cross_patch.Broker.Parsing.{
  Codec, parse_warrant_json, parse_approval_json, parse_authority_json,
}
use cross_patch.Broker.Store.{Validator}
use cross_patch.Broker.Durable.{WarrantRow, AuthorityRow, nonce_digest}
use cross_patch.Broker.Durable.Claiming.{
  accepts, bindings_match, judge_validated, judge_authority, judge_documents, stored_documents,
  judge,
}

module _ (P : Primitives) (C : Codec P) where
  open P use {Bytes, same_bytes, same_bytes_iff, warrant_json}

  validated_accepts :
      (d e : WarrantDocument) (a b : WarrantApproval) (r : Result Exn AuthoritySnapshot)
      (authority : AuthoritySnapshot)
      → judge_validated P C d a r ≡ accepts e b authority
      → (r ≡ ok authority) × (d ≡ e) × (a ≡ b)
  unfolding judge_validated
  validated_accepts d e a b (ok x) authority h = ground arith
  validated_accepts d e a b (err (policy_rejected m)) authority h = ground arith
  validated_accepts d e a b (err (tamper_rejected m)) authority h = ground arith
  validated_accepts d e a b (err (value_error m)) authority h = ground arith
  validated_accepts d e a b (err x) authority h = ground arith

  pub documents_parts :
      (row : WarrantRow P) (x : WarrantDocument) (y : WarrantApproval)
      → stored_documents P C row ≡ ok (x, y)
      → (parse_warrant_json P C row.document_json ≡ ok x)
        × (parse_approval_json P C row.approval_json ≡ ok y)
  unfolding stored_documents
  documents_parts row x y h = ground arith

  pub judge_documents_parts :
      (i : String) (v : Validator) (now : ℕ) (row : WarrantRow P)
      (authorities : Dict (AuthorityRow P)) (x d : WarrantDocument) (y a : WarrantApproval)
      (authority : AuthoritySnapshot)
      → judge_documents P C i v now row authorities (ok (x, y)) ≡ accepts d a authority
      → (bindings_match P C i row x ≡ true)
        × (now ≤ x.expires_at)
        × (judge_authority P C v now x y (lookup row.incident_id authorities)
            ≡ accepts d a authority)
  unfolding judge_documents
  judge_documents_parts i v now row authorities x d y a authority h =
      elim (Bool-cases (bindings_match P C i row x)) [
        | inr e ↦ absurd (cc (rw (judge_documents, e) at h))
        | inl e ↦ elim (Bool-cases (ltb row.expires_at now || ltb x.expires_at now)) [
          | inl late ↦ absurd (cc (rw (judge_documents, e, late) at h))
          | inr on_time ↦ (e, ground arith, rw (judge_documents, e, on_time) at h)
        ]
      ]

  pub judge_authority_parts :
      (v : Validator) (now : ℕ) (x d : WarrantDocument) (y a : WarrantApproval)
      (authority : AuthoritySnapshot) (o : Option (AuthorityRow P))
      → judge_authority P C v now x y o ≡ accepts d a authority
      → (published : AuthorityRow P) × (current : AuthoritySnapshot) × (o ≡ some published)
        × (parse_authority_json P C published.snapshot_json ≡ ok current)
        × (v x y now current ≡ ok authority)
        × (x ≡ d)
        × (y ≡ a)
  unfolding judge_authority
  judge_authority_parts v now x d y a authority none h = absurd (ground arith)
  judge_authority_parts v now x d y a authority (some published) h =
      let (checked, document, approval) =
        validated_accepts x d y a
          (parse_authority_json P C published.snapshot_json >>= λ current. v x y now current)
          authority h in
      let (current, parsed, validated) =
        >>=-eq-ok (parse_authority_json P C published.snapshot_json) (λ current. v x y now current)
          checked in
      (published, current, refl, parsed, validated, document, approval)

  pub bindings_parts :
      (i : String) (row : WarrantRow P) (d : WarrantDocument)
      → bindings_match P C i row d ≡ true
      → (i ≡ d.warrant_id)
        × (row.incident_id ≡ d.incident_id)
        × (row.nonce_sha256 ≡ nonce_digest P d)
  unfolding bindings_match
  bindings_parts i row d h =
      ((eq_iff _ _).0 (ground arith), (eq_iff _ _).0 (ground arith), (eq_iff _ _).0 (ground arith))

  pub accepted_documents :
      (i : String) (v : Validator) (now : ℕ) (row : WarrantRow P)
      (authorities : Dict (AuthorityRow P)) (d : WarrantDocument) (a : WarrantApproval)
      (authority : AuthoritySnapshot)
      → judge P C i v now row authorities ≡ accepts d a authority
      → (x : WarrantDocument) × (y : WarrantApproval) × (stored_documents P C row ≡ ok (x, y))
        × (judge_documents P C i v now row authorities (ok (x, y)) ≡ accepts d a authority)
  unfolding judge judge_documents
  accepted_documents i v now row authorities d a authority h =
      elim (Result-cases (stored_documents P C row)) [
        | inr (e, unread) ↦ absurd (cc (rw (judge, unread, judge_documents) at h))
        | inl (documents, read) ↦ (documents.0, documents.1, read, rw (judge, read) at h)
      ]
