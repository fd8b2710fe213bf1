-- ===== src/Broker/Durable/Claiming/Liveness.antt =====
-- A warrant that is stored in the database can be claimed.
use cross_patch.Prelude.{
  ℕ, ◌≤◌, ◌≡◌, refl, true, false, Option, none, some, ok, Dict, lookup, insert, lookup-insert_self,
  eq_refl, str_eq, ltb, ==_iff, arith, Bool-cases, inl, inr,
}
use cross_patch.Broker.Documents.{WarrantDocument, WarrantApproval, AuthoritySnapshot}
use cross_patch.Broker.Primitives.{Primitives}
use cross_patch.Broker.Parsing.{
  Codec, parse_warrant_json, parse_approval_json, parse_authority_json,
}
use cross_patch.Broker.Store.{claimed, Validator}
use cross_patch.Broker.Durable.{
  WarrantRow, AuthorityRow, Rows, add_approved, added, fresh_row, publish, nonce_digest,
}
use cross_patch.Broker.Durable.Claiming.{
  accepts, bindings_match, judge_validated, judge_authority, judge_documents, stored_documents,
  judge, settle, claim_row, claim_warrant,
}

module _ (P : Primitives) (C : Codec P) where
  open P use {Bytes, same_bytes, same_bytes_iff, warrant_json}

  same_self : (b : Bytes) → same_bytes b b ≡ true
  same_self b = (same_bytes_iff b b).1 refl

  -- What a call of `add_approved` that returns has stored.
  record IsAdded (d : WarrantDocument) (a : WarrantApproval) (authority : AuthoritySnapshot)
      (now : ℕ) (u : Rows P) : Type 0 where
    row : lookup d.warrant_id u.warrants ≡ some (fresh_row P C d a now)
    published : AuthorityRow P
    current : lookup d.incident_id u.authorities ≡ some published
    bytes : published.snapshot_json ≡ C.authority_json authority

  published_bytes :
      (authority : AuthoritySnapshot) (now : ℕ) (o : Option (AuthorityRow P))
      → (publish P C authority now o).snapshot_json ≡ C.authority_json authority
  unfolding publish
  published_bytes authority now none = refl
  published_bytes authority now (some row) = refl

  added_rows :
      (d : WarrantDocument) (row : WarrantRow P) (authorities : Dict (AuthorityRow P))
      (t u : Rows P)
      → added P C d row authorities t ≡ (ok tt, u)
      → (insert d.warrant_id row t.warrants ≡ u.warrants) × (authorities ≡ u.authorities)
  unfolding added
  added_rows d row authorities t u h = ground arith

  add_approved-IsAdded :
      (d : WarrantDocument) (a : WarrantApproval) (authority : AuthoritySnapshot) (now : ℕ)
      (t u : Rows P)
      → add_approved P C d a authority now t ≡ (ok tt, u)
      → IsAdded d a authority now u
  unfolding add_approved
  add_approved-IsAdded d a authority now t u h =
      elim (Bool-cases (str_eq d.incident_id authority.incident_id)) [
        | inr other ↦ absurd (cc (rw (add_approved, other) at h))
        | inl same ↦
            let published = publish P C authority now (lookup d.incident_id t.authorities) in
            let (warrants, authorities) =
              added_rows d (fresh_row P C d a now) (insert d.incident_id published t.authorities) t
                u (rw (add_approved, same) at h) in
            record {
              row =
                  rw (← warrants)
                    (lookup-insert_self d.warrant_id (fresh_row P C d a now) t.warrants);
              published = published;
              current =
                  rw (← authorities) (lookup-insert_self d.incident_id published t.authorities);
              bytes = published_bytes authority now (lookup d.incident_id t.authorities);
            }
      ]

  pub parse_warrant_json_self :
      (d : WarrantDocument)
      → C.load_warrant (warrant_json d) ≡ ok d
      → parse_warrant_json P C (warrant_json d) ≡ ok d
  unfolding parse_warrant_json
  parse_warrant_json_self d h = rw (h, same_self (warrant_json d)) refl

  pub parse_approval_json_self :
      (a : WarrantApproval)
      → C.load_approval (C.approval_json a) ≡ ok a
      → parse_approval_json P C (C.approval_json a) ≡ ok a
  unfolding parse_approval_json
  parse_approval_json_self a h = rw (h, same_self (C.approval_json a)) refl

  parse_authority_json_self :
      (raw : Bytes) (a : AuthoritySnapshot)
      → raw ≡ C.authority_json a
      → C.load_authority (C.authority_json a) ≡ ok a
      → parse_authority_json P C raw ≡ ok a
  unfolding parse_authority_json
  parse_authority_json_self raw a e h = rw e (rw (h, same_self (C.authority_json a)) refl)

  fresh-bindings_match :
      (d : WarrantDocument) (a : WarrantApproval) (now : ℕ)
      → bindings_match P C d.warrant_id (fresh_row P C d a now) d ≡ true
  unfolding bindings_match fresh_row
  fresh-bindings_match d a now = ground (
    arith,
    eq_refl d.warrant_id,
    eq_refl d.incident_id,
    eq_refl (nonce_digest P d),
    ==_iff d.expires_at d.expires_at,
  )

  fresh-judge :
      (v : Validator) (n now : ℕ) (d : WarrantDocument) (a : WarrantApproval)
      (authority result : AuthoritySnapshot) (published : AuthorityRow P)
      (authorities : Dict (AuthorityRow P))
      → lookup d.incident_id authorities ≡ some published
      → published.snapshot_json ≡ C.authority_json authority
      → C.load_warrant (warrant_json d) ≡ ok d
      → C.load_approval (C.approval_json a) ≡ ok a
      → C.load_authority (C.authority_json authority) ≡ ok authority
      → n ≤ d.expires_at
      → v d a n authority ≡ ok result
      → judge P C d.warrant_id v n (fresh_row P C d a now) authorities ≡ accepts d a result
  unfolding judge judge_documents stored_documents judge_authority judge_validated fresh_row
  fresh-judge v n now d a authority result published authorities current bytes ld la ls in_time
        valid =
      let early : ltb d.expires_at n ≡ false = ground arith in
      rw
        (
          parse_warrant_json_self d ld,
          parse_approval_json_self a la,
          fresh-bindings_match d a now,
          early,
          current,
          parse_authority_json_self published.snapshot_json authority bytes ls,
          valid,
        )
        refl

  -- A warrant that `add_approved` has stored is claimed with its own document and approval, when
  -- its documents load from their canonical bytes, the database's clock is not past its end, and
  -- the validator accepts it under the authority that was published with it.
  pub claim_warrant-add_approved :
      (d : WarrantDocument) (a : WarrantApproval) (authority result : AuthoritySnapshot) (now n : ℕ)
      (v : Validator) (t u : Rows P)
      → add_approved P C d a authority now t ≡ (ok tt, u)
      → C.load_warrant (warrant_json d) ≡ ok d
      → C.load_approval (C.approval_json a) ≡ ok a
      → C.load_authority (C.authority_json authority) ≡ ok authority
      → n ≤ d.expires_at
      → v d a n authority ≡ ok result
      → (claim_warrant P C d.warrant_id v (some n) u).0 ≡ ok (claimed d a result)
  unfolding claim_warrant claim_row settle fresh_row
  claim_warrant-add_approved d a authority result now n v t u h ld la ls in_time valid =
      let stored = add_approved-IsAdded d a authority now t u h in
      rw (stored.row, claim_warrant)
        (rw
          (fresh-judge v n now d a authority result stored.published u.authorities stored.current
            stored.bytes ld la ls in_time valid)
          refl)
