-- ===== src/Timeline/Authority.antt =====
-- What the stored events of an incident say about the authority that its state carries.
use cross_patch.Prelude.{
  String, ◌≡◌, subst, true, false, some, List, [], ◌∷◌, inl, inr, Result, ok, err, arith,
  if◌then◌else◌, str_eq, Bool-cases, Result-cases, lookup,
}
use cross_patch.Domain.Enums.{IncidentState}
use cross_patch.Domain.Event.{EventType, Payload, Event, is_state_event_type}
use cross_patch.Domain.Event as Event
use cross_patch.Domain.Persisted.{typed_event_from_payload}
use cross_patch.Domain.Transition.{transition_incident}
use cross_patch.Domain.Transition.Authority.{Reach, start, next, Verified, verified_needs_authority}
use cross_patch.Timeline.Tables.{Hashing, EventRow, Incident, Tables}
use cross_patch.Timeline.Repository.{lift, next_state}
use cross_patch.Timeline.Chain.{Replays, none_yet, elsewhere, here}
use cross_patch.Timeline.Integrity.{IsWellFormed}

abbrev rebuilt : Result Event.Error Event → List Event → List Event
rebuilt (ok e) h = e ∷ h
rebuilt (err _) h = h

unlifted :
    (s t : IncidentState) (e : Event)
    → lift (transition_incident s e) ≡ ok t
    → transition_incident s e ≡ ok t
unfolding lift
unlifted s t e h = ground arith

-- An accepted next state is that of a typed event, or the old one.
next_state_cases :
    (s t : IncidentState) (type : EventType) (p : Payload)
    → next_state s type p ≡ ok t
    → is_state_event_type type ≡ true
    → (e : Event) × (typed_event_from_payload type p ≡ ok e) × (transition_incident s e ≡ ok t)
unfolding next_state
next_state_cases s t type p h st = elim (Result-cases (typed_event_from_payload type p)) [
  | inl (e, q) ↦ (e, q, unlifted s t e (rw (st, q) at h))
  | inr (x, q) ↦ absurd (cc (rw (st, q) at h))
]

next_state_same :
    (s t : IncidentState) (type : EventType) (p : Payload)
    → next_state s type p ≡ ok t
    → is_state_event_type type ≡ false
    → s ≡ t
unfolding next_state
next_state_same s t type p h st = cc (rw st at h)

module _ (H : Hashing) where
  -- The typed events that the rows of the incident `i` hold, newest first; rows of other types
  -- than those of STATE_EVENT_TYPES hold none.
  pub history : String → List (EventRow H) → List Event
  history i [] = []
  history i (r ∷ rs) =
      let rest = history i rs in
      if str_eq r.body.incident_id i
      then (if is_state_event_type r.body.type
          then rebuilt (typed_event_from_payload r.body.type r.body.payload) rest
          else rest)
      else rest

  Replays-Reach :
      {i : String} {rs : List (EventRow H)} {s : IncidentState}
      → Replays H i IncidentState.opened rs s
      → Reach (history i rs) s
  unfolding history
  Replays-Reach none_yet = start
  Replays-Reach (elsewhere e r) = rw e (Replays-Reach r)
  Replays-Reach (here {r = row} {s = s} {t = t} e r n) =
      elim (Bool-cases (is_state_event_type row.body.type)) [
        | inl typed ↦
            let (x, rebuilds, step) = next_state_cases s t row.body.type row.body.payload n typed in
            rw (e, typed, rebuilds) (next x (Replays-Reach r) step)
        | inr typed ↦
            rw (e, typed)
              (subst (Reach _) (next_state_same s t row.body.type row.body.payload n typed)
                (Replays-Reach r))
      ]

  -- In well-formed tables where every incident starts in OPEN, the stored events of an incident
  -- in the state VERIFIED end with a CLEAR verdict in review, a warrant approval, an execution
  -- start and a verification, with only events of other types between them.
  pub stored_verified_needs_authority :
      (t : Tables H) (i : String) (incident : Incident H)
      → IsWellFormed H (λ _. IncidentState.opened) t
      → lookup i t.incidents ≡ some incident
      → incident.state ≡ IncidentState.verified
      → Verified (history i t.events)
  stored_verified_needs_authority t i incident w h s =
      verified_needs_authority
        (subst (Reach (history i t.events)) s (Replays-Reach (w.sound i incident h).state))
