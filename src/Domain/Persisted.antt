-- ===== src/Domain/Persisted.antt =====
-- `typed_event_from_payload` of backend/src/crosspatch/domain/state_machine.py.
pub mod Roundtrip
use cross_patch.Prelude.{String, Option, none, some, Result, ok, err, lookup}
use cross_patch.Domain.Enums.{Seat, seat_of, verdict_of}
use cross_patch.Domain.Event.{
  EventType, Value, text, null, Payload, Event, Error, malformed, base, new_verdict_event,
  new_warrant_approved_event, new_execution_started_event, new_verified_event,
  new_execution_failed_event, new_warrant_expired_event, new_revision_requested_event,
}

-- What the constructors do with a value that is no text raises TypeError, and a missing key
-- raises KeyError: both are caught with ValueError, so one `none` stands for them.
as_text : Option Value → Option String
as_text (some (text s)) = some s
as_text _ = none

text_at : String → Payload → Option String
unfolding as_text
text_at k p = as_text (lookup k p)

-- `Seat(target) if target is not None else None`: the outer `none` is the ValueError.
target_of : Option Value → Option (Option Seat)
target_of none = some none
target_of (some null) = some none
target_of (some (text s)) = elim (seat_of s) [ none ↦ none | some t ↦ some (some t) ]
target_of (some _) = none

-- `try: … except (KeyError, TypeError, ValueError): raise InvalidTransition("malformed …")`.
relabel : EventType → Result Error Event → Result Error Event
relabel t (ok e) = ok e
relabel t (err _) = err (malformed t)

required {ℓ} : {A : Type ℓ} → EventType → Option A → (A → Result Error Event) → Result Error Event
required t none f = err (malformed t)
required t (some a) f = f a

verdict_from : Payload → Result Error Event
unfolding text_at target_of relabel required
verdict_from p = required EventType.verdict (text_at "verdict" p) λ v.
    required EventType.verdict (verdict_of v) λ verdict.
      required EventType.verdict (target_of (lookup "remand_target" p))
        λ target. relabel EventType.verdict (new_verdict_event verdict target)

pair_from :
    EventType
    → (String → String → Result Error Event)
    → String
    → String
    → Payload
    → Result Error Event
unfolding text_at relabel required
pair_from t make k j p =
    required t (text_at k p) λ a. required t (text_at j p) λ b. relabel t (make a b)

triple_from :
    EventType
    → (String → String → String → Result Error Event)
    → String
    → String
    → String
    → Payload
    → Result Error Event
unfolding text_at relabel required
triple_from t make k j l p =
    required t (text_at k p)
      λ a. required t (text_at j p) λ b. required t (text_at l p) λ c. relabel t (make a b c)

unfoldable pub typed_event_from_payload : EventType → Payload → Result Error Event
unfolding verdict_from pair_from triple_from
typed_event_from_payload EventType.verdict p = verdict_from p
typed_event_from_payload EventType.warrant_approved p =
    triple_from EventType.warrant_approved new_warrant_approved_event "approval_id" "warrant_sha256"
      "approver_identity" p
typed_event_from_payload EventType.execution_started p =
    pair_from EventType.execution_started new_execution_started_event "claim_id" "warrant_id" p
typed_event_from_payload EventType.verified p =
    pair_from EventType.verified new_verified_event "receipt_id" "warrant_id" p
typed_event_from_payload EventType.execution_failed p =
    pair_from EventType.execution_failed new_execution_failed_event "warrant_id" "error_code" p
typed_event_from_payload EventType.warrant_expired p =
    pair_from EventType.warrant_expired new_warrant_expired_event "warrant_id" "warrant_sha256" p
typed_event_from_payload EventType.revision_requested p =
    triple_from EventType.revision_requested new_revision_requested_event "warrant_id"
      "warrant_sha256" "evidence_id" p
typed_event_from_payload t p = ok (base t p)
