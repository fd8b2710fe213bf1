-- ===== src/Broker/Parsing/Canonical.antt =====
-- A text that is parsed is the canonical text of what it is parsed to.
use cross_patch.Prelude.{
  ◌≡◌, not, Result, ok, err, raise_if, ◌>>=◌, ◌>>◌, Bool-cases, inl, inr, ap, ◌∙◌,
}
use cross_patch.Broker.Documents.{WarrantDocument, WarrantApproval, AuthoritySnapshot}
use cross_patch.Broker.Primitives.{Primitives, Exn, tamper_rejected, value_error}
use cross_patch.Broker.Parsing.{
  Codec, loaded, loaded_authority, warrant_fault, approval_fault, parse_warrant_json,
  parse_approval_json, parse_authority_json,
}

module _ (P : Primitives) where
  open P use {Bytes, same_bytes, same_bytes_iff, warrant_json}

  canonical_only :
      {A : Type 0} (json : A → Bytes) (raw : Bytes) (m : Result Exn A) (e : Exn) (a : A)
      → (m >>= λ x. (raise_if (not (same_bytes raw (json x))) e >> ok x)) ≡ ok a
      → raw ≡ json a
  canonical_only json raw (err x) e a h = cc
  canonical_only json raw (ok x) e a h = elim (Bool-cases (same_bytes raw (json x))) [
    | inr other ↦ absurd (cc (rw other at h))
    | inl same ↦ (same_bytes_iff raw (json x)).0 same ∙ ap json (cc (rw same at h))
  ]

  module _ (C : Codec P) where
    pub parsed_warrant :
        (raw : Bytes) (d : WarrantDocument)
        → parse_warrant_json P C raw ≡ ok d
        → raw ≡ warrant_json d
    unfolding parse_warrant_json
    parsed_warrant raw d h =
        canonical_only warrant_json raw (loaded warrant_fault (C.load_warrant raw))
          (value_error "warrant JSON does not match its canonical bytes") d h

    pub parsed_approval :
        (raw : Bytes) (a : WarrantApproval)
        → parse_approval_json P C raw ≡ ok a
        → raw ≡ C.approval_json a
    unfolding parse_approval_json
    parsed_approval raw a h =
        canonical_only C.approval_json raw (loaded approval_fault (C.load_approval raw))
          (value_error "approval JSON does not match its canonical bytes") a h

    pub parsed_authority :
        (raw : Bytes) (a : AuthoritySnapshot)
        → parse_authority_json P C raw ≡ ok a
        → raw ≡ C.authority_json a
    unfolding parse_authority_json
    parsed_authority raw a h =
        canonical_only C.authority_json raw (loaded_authority (C.load_authority raw))
          (tamper_rejected "NONCANONICAL_AUTHORITY_SNAPSHOT") a h
