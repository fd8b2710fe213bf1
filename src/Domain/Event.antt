-- ===== src/Domain/Event.antt =====
-- The event classes of backend/src/crosspatch/domain/state_machine.py and the
-- checks of their constructors. The event types are the texts of STATE_EVENT_TYPES, one constructor each;
-- `other` is any text outside that set.
use cross_patch.Prelude.{
  String, Bool, true, false, ◌&&◌, Option, none, some, [], ◌∷◌, Result, ok, err, Dict,
  if◌then◌else◌,
}
use cross_patch.Domain.Enums.{
  Seat, prosecutor, inspector, counsel, Verdict, remand, IncidentState, seat_value, verdict_value,
}
use cross_patch.Domain.Names.{is_identifier, is_sha256}

pub data EventType : Type 0 where
  reproduction_started evidence_captured reproduction_passed reproduction_inconclusive : EventType
  analysis_started patch_requested patch_proposed verdict warrant_approved : EventType
  warrant_expired revision_requested execution_started test_failed retry_started : EventType
  verified background_task_failed execution_failed : EventType
  other : String → EventType

unfoldable pub is_state_event_type : EventType → Bool
is_state_event_type (other _) = false
is_state_event_type _ = true

-- The values of a JSON payload; a number is carried as its text.
mutual
  pub data Value : Type 0 where
    null : Value
    boolean : Bool → Value
    number : String → Value
    text : String → Value
    array : Values → Value
    object : Fields → Value

  pub data Values : Type 0 where
    nil : Values
    cons : Value → Values → Values

  pub data Fields : Type 0 where
    end : Fields
    field : String → Value → Fields → Fields

abbrev pub Payload : Type 0
Payload = Dict Value

-- `base` is the plain class `Event`; each of the others is one subclass, whose fields are the
-- arguments that its constructor checks.
-- The type has events that the constructors below refuse too; a statement that some event exists
-- asks for one that `is_valid` of Persisted/Roundtrip accepts.
pub data Event : Type 0 where
  base : EventType → Payload → Event
  verdict_event : Verdict → Option Seat → Event
  warrant_approved_event : (approval_id warrant_sha256 approver_identity : String) → Event
  execution_started_event : (claim_id warrant_id : String) → Event
  verified_event : (receipt_id warrant_id : String) → Event
  execution_failed_event : (warrant_id error_code : String) → Event
  warrant_expired_event : (warrant_id warrant_sha256 : String) → Event
  revision_requested_event : (warrant_id warrant_sha256 evidence_id : String) → Event

pub data Error : Type 0 where
  value_error : Error
  malformed : EventType → Error
  untyped : EventType → Error
  not_allowed : EventType → IncidentState → Error

unfoldable pub event_type : Event → EventType
event_type (base t _) = t
event_type (verdict_event _ _) = verdict
event_type (warrant_approved_event _ _ _) = warrant_approved
event_type (execution_started_event _ _) = execution_started
event_type (verified_event _ _) = verified
event_type (execution_failed_event _ _) = execution_failed
event_type (warrant_expired_event _ _) = warrant_expired
event_type (revision_requested_event _ _ _) = revision_requested

unfoldable pub is_remand_target : Seat → Bool
is_remand_target prosecutor = true
is_remand_target inspector = true
is_remand_target counsel = true
is_remand_target _ = false

unfoldable pub remand_target_payload : Option Seat → Payload
unfolding seat_value
remand_target_payload none = []
remand_target_payload (some t) = ("remand_target", text (seat_value t)) ∷ []

unfoldable pub event_payload : Event → Payload
unfolding remand_target_payload verdict_value
event_payload (base _ p) = p
event_payload (verdict_event v target) =
    ("verdict", text (verdict_value v)) ∷ remand_target_payload target
event_payload (warrant_approved_event a w i) =
    ("approval_id", text a) ∷ ("warrant_sha256", text w) ∷ ("approver_identity", text i) ∷ []
event_payload (execution_started_event c w) = ("claim_id", text c) ∷ ("warrant_id", text w) ∷ []
event_payload (verified_event r w) = ("receipt_id", text r) ∷ ("warrant_id", text w) ∷ []
event_payload (execution_failed_event w e) = ("warrant_id", text w) ∷ ("error_code", text e) ∷ []
event_payload (warrant_expired_event w h) = ("warrant_id", text w) ∷ ("warrant_sha256", text h) ∷ []
event_payload (revision_requested_event w h e) =
    ("warrant_id", text w) ∷ ("warrant_sha256", text h) ∷ ("evidence_id", text e) ∷ []

-- The constructors of the subclasses, with their checks.
unfoldable pub new_verdict_event : Verdict → Option Seat → Result Error Event
unfolding is_remand_target
new_verdict_event remand none = err value_error
new_verdict_event remand (some t) =
    if is_remand_target t then ok (verdict_event remand (some t)) else err value_error
new_verdict_event v none = ok (verdict_event v none)
new_verdict_event v (some t) = err value_error

abbrev checked : Bool → Event → Result Error Event
checked b e = if b then ok e else err value_error

unfoldable pub new_warrant_approved_event : String → String → String → Result Error Event
new_warrant_approved_event a w i =
    checked (is_identifier a && is_identifier i && is_sha256 w) (warrant_approved_event a w i)

unfoldable pub new_execution_started_event : String → String → Result Error Event
new_execution_started_event c w =
    checked (is_identifier c && is_identifier w) (execution_started_event c w)

unfoldable pub new_verified_event : String → String → Result Error Event
new_verified_event r w = checked (is_identifier r && is_identifier w) (verified_event r w)

unfoldable pub new_execution_failed_event : String → String → Result Error Event
new_execution_failed_event w e =
    checked (is_identifier w && is_identifier e) (execution_failed_event w e)

unfoldable pub new_warrant_expired_event : String → String → Result Error Event
new_warrant_expired_event w h = checked (is_identifier w && is_sha256 h) (warrant_expired_event w h)

unfoldable pub new_revision_requested_event : String → String → String → Result Error Event
new_revision_requested_event w h e =
    checked (is_identifier w && is_identifier e && is_sha256 h) (revision_requested_event w h e)
