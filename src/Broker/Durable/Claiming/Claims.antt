-- ===== src/Broker/Durable/Claiming/Claims.antt =====
-- What a successful claim in the database has found and leaves.
use cross_patch.Prelude.{
  ℕ, ◌≤◌, String, ◌≡◌, refl, sym, ap, ap₂, subst, ◌∙◌, Option, none, some, ok, lookup, insert,
  arith, Option-cases, inl, inr,
}
use cross_patch.Broker.Documents.{WarrantDocument, WarrantApproval, AuthoritySnapshot, WarrantState}
use cross_patch.Broker.Primitives.{Primitives}
use cross_patch.Broker.Parsing.{Codec}
use cross_patch.Broker.Parsing.Canonical.{parsed_warrant, parsed_approval, parsed_authority}
use cross_patch.Broker.Store.{claimed, Validator}
use cross_patch.Broker.Durable.{WarrantRow, AuthorityRow, Rows, nonce_digest}
use cross_patch.Broker.Durable.Claiming.{
  Judgement, rejects, expires, accepts, raises, judge, settle, claim_row, claim_warrant,
}
use cross_patch.Broker.Durable.Claiming.Judged.{
  documents_parts, judge_documents_parts, judge_authority_parts, bindings_parts, accepted_documents,
}

module _ (P : Primitives) (C : Codec P) where
  open P use {Bytes, same_bytes, same_bytes_iff, warrant_json}

  -- The row of the warrant that is claimed, and what the transaction has read beside it.
  pub record IsConsumable (i : String) (v : Validator) (clock : Option ℕ) (t : Rows P)
      (d : WarrantDocument) (a : WarrantApproval) (authority : AuthoritySnapshot) (u : Rows P)
      : Type 0 where
    pub row : WarrantRow P
    pub found : lookup i t.warrants ≡ some row
    pub approved : row.state ≡ WarrantState.approved
    pub document_bytes : row.document_json ≡ warrant_json d
    pub approval_bytes : row.approval_json ≡ C.approval_json a
    pub named : i ≡ d.warrant_id
    pub incident : row.incident_id ≡ d.incident_id
    pub nonce : row.nonce_sha256 ≡ nonce_digest P d
    pub now : ℕ
    pub read : clock ≡ some now
    pub in_time : now ≤ d.expires_at
    pub published : AuthorityRow P
    pub locked : lookup d.incident_id t.authorities ≡ some published
    pub current : AuthoritySnapshot
    pub current_bytes : published.snapshot_json ≡ C.authority_json current
    pub validated : v d a now current ≡ ok authority
    pub marked :
        u.warrants
        ≡ insert i
            (record row {
              state = WarrantState.consuming;
              claimed_at = some now;
              nonce_consumed_at = some now;
              updated_at = now;
            })
            t.warrants

  accepted-IsConsumable :
      (i : String) (v : Validator) (now : ℕ) (row : WarrantRow P) (t u : Rows P)
      (d : WarrantDocument) (a : WarrantApproval) (authority : AuthoritySnapshot)
      → lookup i t.warrants ≡ some row
      → row.state ≡ WarrantState.approved
      → judge P C i v now row t.authorities ≡ accepts d a authority
      → (settle P C i now row t (accepts d a authority)).1 ≡ u
      → IsConsumable i v (some now) t d a authority u
  unfolding settle
  accepted-IsConsumable i v now row t u d a authority found approved h left =
      let (x, y, read, judged) = accepted_documents P C i v now row t.authorities d a authority h in
      let (document, approval) = documents_parts P C row x y read in
      let (bound, in_time, admitted) =
        judge_documents_parts P C i v now row t.authorities x d y a authority judged in
      let (published, current, locked, parsed, validated, same_document, same_approval) =
        judge_authority_parts P C v now x d y a authority (lookup row.incident_id t.authorities)
          admitted in
      let (named, incident, nonce) = bindings_parts P C i row x bound in
      record {
        row = row;
        found = found;
        approved = approved;
        document_bytes =
            parsed_warrant P C row.document_json x document ∙ ap warrant_json same_document;
        approval_bytes =
            parsed_approval P C row.approval_json y approval ∙ ap C.approval_json same_approval;
        named = named ∙ ap (λ z. z.warrant_id) same_document;
        incident = incident ∙ ap (λ z. z.incident_id) same_document;
        nonce = nonce ∙ ap (nonce_digest P) same_document;
        now = now;
        read = refl;
        in_time = subst (λ z. now ≤ z.expires_at) same_document in_time;
        published = published;
        locked =
            ap (λ k. lookup k t.authorities)
              (sym (incident ∙ ap (λ z. z.incident_id) same_document))
            ∙ locked;
        current = current;
        current_bytes = parsed_authority P C published.snapshot_json current parsed;
        validated =
            ap₂ (λ z w. v z w now current) (sym same_document) (sym same_approval) ∙ validated;
        marked = ap (λ z. z.warrants) (sym left);
      }

  settled :
      (i : String) (now : ℕ) (row : WarrantRow P) (t u : Rows P) (x : Judgement)
      (d : WarrantDocument) (a : WarrantApproval) (authority : AuthoritySnapshot)
      → settle P C i now row t x ≡ (ok (claimed d a authority), u)
      → x ≡ accepts d a authority
  unfolding settle
  settled i now row t u (rejects status code) d a authority h = ground arith
  settled i now row t u expires d a authority h = ground arith
  settled i now row t u (accepts e b other) d a authority h = ground arith
  settled i now row t u (raises x) d a authority h = ground arith

  claimed_row :
      (s : WarrantState) (i : String) (v : Validator) (clock : Option ℕ) (row : WarrantRow P)
      (t u : Rows P) (d : WarrantDocument) (a : WarrantApproval) (authority : AuthoritySnapshot)
      → lookup i t.warrants ≡ some row
      → row.state ≡ s
      → claim_row P C s i v clock row t ≡ (ok (claimed d a authority), u)
      → IsConsumable i v clock t d a authority u
  unfolding claim_row
  claimed_row WarrantState.approved i v none row t u d a authority found s h = absurd (ground arith)
  claimed_row WarrantState.approved i v (some now) row t u d a authority found s h =
      let judged = settled i now row t u (judge P C i v now row t.authorities) d a authority h in
      accepted-IsConsumable i v now row t u d a authority found s judged
        (ap (λ x. (settle P C i now row t x).1) (sym judged) ∙ ap (λ p. p.1) h)
  claimed_row _ i v clock row t u d a authority found s h = absurd (ground arith)

  -- A claim in the database that succeeds has found the row APPROVED, with the canonical bytes of
  -- the document and the approval that it returns, indexed by the document's own identifier,
  -- incident and nonce, and unexpired by the database's clock; the validator accepted them under
  -- the authority that is published for the incident; and the row is left CONSUMING, with its
  -- times of claim and nonce consumption.
  pub durable_claim-IsConsumable :
      (i : String) (v : Validator) (clock : Option ℕ) (t u : Rows P) (d : WarrantDocument)
      (a : WarrantApproval) (authority : AuthoritySnapshot)
      → claim_warrant P C i v clock t ≡ (ok (claimed d a authority), u)
      → IsConsumable i v clock t d a authority u
  unfolding claim_warrant
  durable_claim-IsConsumable i v clock t u d a authority h =
      elim (Option-cases (lookup i t.warrants)) [
        | inl missing ↦ absurd (cc (rw (claim_warrant, missing) at h))
        | inr (row, found) ↦
            claimed_row row.state i v clock row t u d a authority found refl
              (rw (claim_warrant, found) at h)
      ]
