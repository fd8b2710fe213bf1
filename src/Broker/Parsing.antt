-- ===== src/Broker/Parsing.antt =====
-- `parse_warrant_json`, `parse_approval_json` and `parse_authority_json` of
-- backend/src/crosspatch/broker (warrant.py, approval.py, store.py). json.loads and pydantic's
-- model_validate are parameters.
pub mod Canonical
use Prim.Native.String.{◌++◌ as append}
use cross_patch.Prelude.{String, Bool, not, Result, ok, err, raise_if, ◌>>=◌, ◌>>◌}
use cross_patch.Broker.Documents.{WarrantDocument, WarrantApproval, AuthoritySnapshot, BrokerResult}
use cross_patch.Broker.Primitives.{Primitives, Exn, tamper_rejected, value_error}

-- What the loading of a text raises: the hook's error for a key that stands twice, an error of
-- decoding, or one of the validation.
pub data LoadFault : Type 0 where
  duplicate_key : String → LoadFault
  invalid_json invalid_document : LoadFault

pub record Codec (P : Primitives) : Type 0 where
  -- json.loads with the hook, then model_validate
  pub load_warrant : P.Bytes → Result LoadFault WarrantDocument
  pub load_approval : P.Bytes → Result LoadFault WarrantApproval
  pub load_authority : P.Bytes → Result LoadFault AuthoritySnapshot
  -- canonical_json of the other documents
  pub approval_json : WarrantApproval → P.Bytes
  pub authority_json : AuthoritySnapshot → P.Bytes
  pub result_json : BrokerResult → P.Bytes

-- The messages of the two parsers for each fault.
warrant_fault : LoadFault → Exn
warrant_fault (duplicate_key key) = value_error (append "duplicate JSON key: " key)
warrant_fault invalid_json = value_error "invalid warrant JSON"
warrant_fault invalid_document = value_error "invalid warrant document"

approval_fault : LoadFault → Exn
approval_fault (duplicate_key key) = value_error (append "duplicate approval JSON key: " key)
approval_fault _ = value_error "invalid approval JSON"

loaded : {A : Type 0} → (LoadFault → Exn) → Result LoadFault A → Result Exn A
loaded fault (ok a) = ok a
loaded fault (err e) = err (fault e)

-- Every fault of an authority snapshot is raised under one message.
loaded_authority : {A : Type 0} → Result LoadFault A → Result Exn A
loaded_authority (ok a) = ok a
loaded_authority (err _) = err (tamper_rejected "INVALID_AUTHORITY_SNAPSHOT")

module _ (P : Primitives) (C : Codec P) where
  open P use {Bytes, same_bytes, warrant_json}

  unfoldable pub parse_warrant_json : Bytes → Result Exn WarrantDocument
  unfolding loaded warrant_fault
  parse_warrant_json raw = do
    d ← loaded warrant_fault (C.load_warrant raw)
    raise_if (not (same_bytes raw (warrant_json d)))
        (value_error "warrant JSON does not match its canonical bytes")
    ok d

  unfoldable pub parse_approval_json : Bytes → Result Exn WarrantApproval
  unfolding loaded approval_fault
  parse_approval_json raw = do
    a ← loaded approval_fault (C.load_approval raw)
    raise_if (not (same_bytes raw (C.approval_json a)))
        (value_error "approval JSON does not match its canonical bytes")
    ok a

  unfoldable pub parse_authority_json : Bytes → Result Exn AuthoritySnapshot
  unfolding loaded_authority
  parse_authority_json raw = do
    a ← loaded_authority (C.load_authority raw)
    raise_if (not (same_bytes raw (C.authority_json a)))
        (tamper_rejected "NONCANONICAL_AUTHORITY_SNAPSHOT")
    ok a
