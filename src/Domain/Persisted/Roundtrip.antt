-- ===== src/Domain/Persisted/Roundtrip.antt =====
-- Payloads and typed events: what is rebuilt is valid, and a valid event survives the storage.
use cross_patch.Prelude.{◌≡◌, refl, Bool, true, false, Option, none, some, ok, lookup, arith, ◌&&◌}
use cross_patch.Domain.Enums.{
  Seat, prosecutor, inspector, counsel, Verdict, remand, seat_of, verdict_of,
}
use cross_patch.Domain.Names.{is_identifier, is_sha256}
use cross_patch.Domain.Event.{
  EventType, Payload, Event, base, verdict_event, warrant_approved_event, execution_started_event,
  verified_event, execution_failed_event, warrant_expired_event, revision_requested_event,
  event_type, event_payload, is_remand_target, new_verdict_event, new_warrant_approved_event,
  new_execution_started_event, new_verified_event, new_execution_failed_event,
  new_warrant_expired_event, new_revision_requested_event,
}
use cross_patch.Domain.Persisted.{typed_event_from_payload}

-- The types whose events are rebuilt by a class of their own.
abbrev is_plain : EventType → Bool
is_plain EventType.verdict = false
is_plain EventType.warrant_approved = false
is_plain EventType.execution_started = false
is_plain EventType.verified = false
is_plain EventType.execution_failed = false
is_plain EventType.warrant_expired = false
is_plain EventType.revision_requested = false
is_plain _ = true

abbrev valid_verdict : Verdict → Option Seat → Bool
valid_verdict remand none = false
valid_verdict remand (some t) = is_remand_target t
valid_verdict _ none = true
valid_verdict _ (some _) = false

-- What the constructor of each class has checked.
abbrev pub is_valid : Event → Bool
is_valid (base t _) = is_plain t
is_valid (verdict_event v t) = valid_verdict v t
is_valid (warrant_approved_event a w i) = is_identifier a && is_identifier i && is_sha256 w
is_valid (execution_started_event c w) = is_identifier c && is_identifier w
is_valid (verified_event r w) = is_identifier r && is_identifier w
is_valid (execution_failed_event w e) = is_identifier w && is_identifier e
is_valid (warrant_expired_event w h) = is_identifier w && is_sha256 h
is_valid (revision_requested_event w h e) = is_identifier w && is_identifier e && is_sha256 h

verdict_stored :
    (v : Verdict) (t : Option Seat)
    → valid_verdict v t ≡ true
    → typed_event_from_payload EventType.verdict (event_payload (verdict_event v t))
      ≡ ok (verdict_event v t)
unfolding typed_event_from_payload event_payload lookup new_verdict_event verdict_of seat_of
verdict_stored remand none h = cc
verdict_stored _ none h = refl
verdict_stored remand (some prosecutor) h = refl
verdict_stored remand (some inspector) h = refl
verdict_stored remand (some counsel) h = refl
verdict_stored _ (some s) h = ground arith

-- A valid event is rebuilt unchanged from its own type and payload.
pub typed_event_roundtrip :
    (e : Event)
    → is_valid e ≡ true
    → typed_event_from_payload (event_type e) (event_payload e) ≡ ok e
unfolding typed_event_from_payload event_type event_payload lookup new_warrant_approved_event
    new_execution_started_event new_verified_event new_execution_failed_event
    new_warrant_expired_event new_revision_requested_event
typed_event_roundtrip (verdict_event v t) h = verdict_stored v t h
typed_event_roundtrip (base t p) h = ground arith
typed_event_roundtrip _ h = rw h

-- Whatever is rebuilt from stored rows has the stored type and passed its constructor's checks.
pub rebuilt-is_valid :
    (t : EventType) (p : Payload) (e : Event)
    → typed_event_from_payload t p ≡ ok e
    → (event_type e ≡ t) × (is_valid e ≡ true)
unfolding typed_event_from_payload event_type new_verdict_event new_warrant_approved_event
    new_execution_started_event new_verified_event new_execution_failed_event
    new_warrant_expired_event new_revision_requested_event
rebuilt-is_valid EventType.verdict p e h = ground arith
rebuilt-is_valid _ p e h = ground arith
