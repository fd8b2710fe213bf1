-- ===== src/Timeline/Repository.antt =====
-- `IncidentRepository.create` and `EventRepository.append`. The lock and the transaction make each
-- call one step: an exception leaves the tables as they were.
use cross_patch.Prelude.{
  ℕ, ◌+◌, String, Bool, true, false, ◌&&◌, not, Option, none, some, ◌∷◌, Result, ok, err, lookup,
  insert, ◌==◌, if◌then◌else◌, ◌>>=◌, ◌>>◌, raise_if,
}
use cross_patch.Domain.Enums.{IncidentState}
use cross_patch.Domain.Event.{EventType, Payload, is_state_event_type}
use cross_patch.Domain.Event as Event
use cross_patch.Domain.Persisted.{typed_event_from_payload}
use cross_patch.Domain.Transition.{transition_incident}
use cross_patch.Timeline.Tables.{
  Hashing, EventBody, EventRow, Incident, Tables, last_event, conflicts,
}

pub data Error : Type 0 where
  incident_not_found : Error
  event_chain_corrupted : Error
  integrity_error : Error
  invalid : Event.Error → Error

unfoldable pub lift : {A : Type 0} → Result Event.Error A → Result Error A
lift (ok a) = ok a
lift (err e) = err (invalid e)

-- `next_state`, which is the old state for an event type outside STATE_EVENT_TYPES.
unfoldable pub next_state : IncidentState → EventType → Payload → Result Error IncidentState
unfolding lift
next_state s type payload =
    if is_state_event_type type
    then (do e ← lift (typed_event_from_payload type payload); lift (transition_incident s e))
    else ok s

module _ (H : Hashing) where
  open H use {Time, Digest, same, zero_hash, sha256_hex}

  unfoldable pub create :
      String → String → IncidentState → (now : Time) → Tables H → Result Error (Tables H)
  create i title state now t = elim (lookup i t.incidents) [
    | some _ ↦ err integrity_error
    | none ↦ ok (record t {
      incidents =
          insert i
            (record {
              title = title;
              state = state;
              next_event_sequence = 1;
              event_chain_head = none;
              created_at = now;
              updated_at = now;
            })
            t.incidents;
    })
  ]

  unfoldable pub next_sequence : Option (EventRow H) → ℕ
  next_sequence none = 1
  next_sequence (some e) = e.body.sequence + 1

  unfoldable pub chain_hash : Option (EventRow H) → Digest
  chain_hash none = zero_hash
  chain_hash (some e) = e.event_hash

  unfoldable pub expected_head : Option (EventRow H) → Option Digest
  expected_head none = none
  expected_head (some e) = some e.event_hash

  same_head : Option Digest → Option Digest → Bool
  same_head none none = true
  same_head (some a) (some b) = same a b
  same_head _ _ = false

  body_for :
      String → EventType → String → Payload → Time → Option (EventRow H) → EventBody Time Digest
  unfolding next_sequence chain_hash
  body_for i type actor payload now last = record {
    incident_id = i;
    sequence = next_sequence last;
    type = type;
    actor = actor;
    payload = payload;
    previous_hash = chain_hash last;
    created_at = now;
  }

  store : String → Incident H → IncidentState → EventRow H → Tables H → Tables H
  store i incident state row t = record {
    incidents =
        insert i
          (record incident {
            state = state;
            next_event_sequence = row.body.sequence + 1;
            event_chain_head = some row.event_hash;
            updated_at = row.body.created_at;
          })
          t.incidents;
    events = row ∷ t.events;
  }

  append_to :
      Incident H
      → String
      → EventType
      → String
      → Payload
      → (id : String) → Time
      → Tables H
      → Result Error (EventRow H × Tables H)
  unfolding expected_head same_head body_for store
  append_to incident i type actor payload id now t =
      let last = last_event H i t.events in
      let body = body_for i type actor payload now last in
      let row : EventRow H = record { id = id; body = body; event_hash = sha256_hex body } in
      do
        raise_if
            (not (
              incident.next_event_sequence == next_sequence last
              && same_head incident.event_chain_head (expected_head last)))
            event_chain_corrupted
        state ← next_state incident.state type payload
        raise_if (conflicts H row t.events) integrity_error
        ok (row, store i incident state row t)

  -- `id` is the drawn event id and `now` the clock.
  unfoldable pub append :
      String
      → EventType
      → String
      → Payload
      → (id : String) → Time
      → Tables H
      → Result Error (EventRow H × Tables H)
  unfolding append_to
  append i type actor payload id now t = elim (lookup i t.incidents) [
    | none ↦ err incident_not_found
    | some incident ↦ append_to incident i type actor payload id now t
  ]
