-- ===== src/Coordinator/Outputs.antt =====
-- The structured outputs of the seats (backend/src/crosspatch/domain/schemas.py), what a seat is
-- given (agents/schemas.py, evidence/views.py), and dictionaries keyed by seats.
use cross_patch.Domain.Names.{is_alnum, is_sha256}
use cross_patch.Prelude.{
  all, length, codes, leb, ◌==◌, ◌&&◌, ◌||◌, str_eq, ℕ, String, Bool, true, false, Option, none,
  some, List, [], ◌∷◌, if◌then◌else◌,
}
use cross_patch.Domain.Enums.{Seat, Verdict, seat_eq}
use cross_patch.Domain.Event.{Payload}

pub data MechanismCode : Type 0 where
  check_then_insert_race late_receipt_write worker_retry_duplication : MechanismCode
  payload_id_collision : MechanismCode

pub record InspectorOutput : Type 0 where
  pub mechanism : MechanismCode
  pub evidence_ids : List String
  pub falsifiers : List String
  pub analysis : String

-- `SupportedRival`, which names a mechanism, and `NoSupportedRival`, which does not.
pub record ProsecutorVariant : Type 0 where
  pub rival_mechanism : Option MechanismCode
  pub counterexample_ids : List String
  pub test_ids : List String
  pub evidence_ids : List String
  pub analysis : String

pub record ProsecutorOutput : Type 0 where
  pub root : ProsecutorVariant

pub record TestIntention : Type 0 where
  pub catalog_id : String
  pub purpose : String

pub record CounselOutput : Type 0 where
  pub normalized_diff : String
  pub test_intentions : List TestIntention
  pub evidence_ids : List String
  pub analysis : String

pub record RequiredChange : Type 0 where
  pub code : String
  pub target : Option Seat
  pub action : String

pub record MagistrateOutput : Type 0 where
  pub verdict : Verdict
  pub finding_codes : List String
  pub required_changes : List RequiredChange
  pub remand_target : Option Seat
  pub evidence_ids : List String
  pub analysis : String

pub record BailiffOutput : Type 0 where
  pub warrant_id : String

pub data SeatOutput : Type 0 where
  inspector_output : InspectorOutput → SeatOutput
  prosecutor_output : ProsecutorOutput → SeatOutput
  counsel_output : CounselOutput → SeatOutput
  magistrate_output : MagistrateOutput → SeatOutput
  bailiff_output : BailiffOutput → SeatOutput

-- The seat whose `_OUTPUT_TYPES` entry is the class of the output.
unfoldable pub seat_of_output : SeatOutput → Seat
seat_of_output (inspector_output _) = Seat.inspector
seat_of_output (prosecutor_output _) = Seat.prosecutor
seat_of_output (counsel_output _) = Seat.counsel
seat_of_output (magistrate_output _) = Seat.magistrate
seat_of_output (bailiff_output _) = Seat.bailiff

-- `_evidence_ids`
unfoldable pub evidence_ids : SeatOutput → List String
evidence_ids (inspector_output o) = o.evidence_ids
evidence_ids (prosecutor_output o) = o.root.evidence_ids
evidence_ids (counsel_output o) = o.evidence_ids
evidence_ids (magistrate_output o) = o.evidence_ids
evidence_ids (bailiff_output _) = []

pub data EvidenceKind : Type 0 where
  log trace issue source comment diff test_output timeline mcp_result : EvidenceKind

pub data TagKind : Type 0 where
  potential_instruction_redacted secret_redacted control_sequence_removed : TagKind
  invalid_utf8_replaced line_truncated evidence_truncated : TagKind

pub record SanitizationTag : Type 0 where
  pub kind : TagKind
  pub raw_byte_start : ℕ
  pub raw_byte_end : ℕ
  pub raw_sha256 : String
  pub sanitized_sha256 : String

pub record UntrustedEvidenceEnvelope : Type 0 where
  pub evidence_id : String
  pub incident_id : String
  pub kind : EvidenceKind
  pub provenance : String
  pub provenance_sha256 : String
  pub provenance_tags : List TagKind
  pub text : String
  pub raw_sha256 : String
  pub sanitized_sha256 : String
  pub raw_size_bytes : ℕ
  pub sanitized_size_bytes : ℕ
  pub truncated : Bool
  pub tags : List SanitizationTag

pub record IncidentInput : Type 0 where
  pub incident_id : String
  pub scenario : String
  pub candidate_plan_id : String
  pub evidence : List UntrustedEvidenceEnvelope

pub record UntrustedAgentSummary : Type 0 where
  pub seat : Seat
  pub semantic_sha256 : String
  pub material : Payload

pub record AgentRunInput : Type 0 where
  pub incident_id : String
  pub scenario : String
  pub candidate_plan_id : String
  pub phase : String
  pub evidence : List UntrustedEvidenceEnvelope
  pub citable_evidence_ids : List String
  pub prior_outputs : List UntrustedAgentSummary

-- [A-Za-z0-9._-] and, with `colon`, also a colon
abbrev name_char : Bool → ℕ → Bool
name_char colon c = is_alnum c || c == b'.' || c == b'_' || c == b'-' || (colon && c == b':')

-- ^[A-Za-z0-9][A-Za-z0-9._-]{0,127}$
abbrev is_name : Bool → List ℕ → Bool
is_name colon [] = false
is_name colon (c ∷ rest) = is_alnum c && all (name_char colon) rest && leb (length rest) 127

-- [a-z0-9-]
abbrev phase_char : ℕ → Bool
phase_char c = (leb b'a' c && leb c b'z') || (leb b'0' c && leb c b'9') || c == b'-'

abbrev is_scenario : String → Bool
is_scenario s = str_eq s "webhook-race" || str_eq s "webhook-payload-equivalence"

-- What pydantic checks of an AgentRunInput and of the summaries in it.
unfoldable pub is_accepted : AgentRunInput → Bool
is_accepted a =
    is_name false (codes a.incident_id)
    && is_scenario a.scenario
    && is_name true (codes a.candidate_plan_id)
    && all phase_char (codes a.phase)
    && leb 1 (length (codes a.phase))
    && leb (length (codes a.phase)) 64
    && all (λ summary. is_sha256 summary.semantic_sha256) a.prior_outputs

-- A `dict` keyed by seats: a seat keeps the place where it was first put.
abbrev pub SeatDict {ℓ} : Type ℓ → Type ℓ
SeatDict V = List (Seat × V)

module _ {ℓ} {V : Type ℓ} where
  unfoldable pub get : Seat → SeatDict V → Option V
  get s [] = none
  get s ((r, v) ∷ rest) = if seat_eq r s then some v else get s rest

  unfoldable pub put : Seat → V → SeatDict V → SeatDict V
  put s v [] = (s, v) ∷ []
  put s v ((r, w) ∷ rest) = if seat_eq r s then (r, v) ∷ rest else (r, w) ∷ put s v rest
