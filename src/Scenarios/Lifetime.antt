-- ===== src/Scenarios/Lifetime.antt =====
-- One incident of the timeline, taken to VERIFIED.
use cross_patch.Prelude.{
  String, ◌≡◌, refl, none, some, List, [], ◌∷◌, ok, err, Result, lookup, insert,
}
use cross_patch.Domain.Enums.{IncidentState, verdict_of, seat_of, clear}
use cross_patch.Domain.Event.{
  EventType, Event, event_payload, base, verdict_event, warrant_approved_event,
  execution_started_event, verified_event, event_type, is_state_event_type, new_verdict_event,
  new_warrant_approved_event, new_execution_started_event, new_verified_event,
}
use cross_patch.Domain.Names.{is_identifier, is_sha256}
use cross_patch.Domain.Persisted.{typed_event_from_payload}
use cross_patch.Domain.Transition.{transition_incident}
use cross_patch.Domain.Transition.Authority.{Verified}
use cross_patch.Timeline.Tables.{Incident, Tables, last_event, conflicts}
use cross_patch.Timeline.Repository.{append, next_state, Error}
use cross_patch.Timeline.Authority.{history, stored_verified_needs_authority}
use cross_patch.Scenarios.Lifecycle.{digest}
use cross_patch.Scenarios.Ledger.{
  listing, no_tables, one_incident, append_all, append_all-IsWellFormed, one_incident-IsWellFormed,
}

abbrev lifecycle : List (String × Event)
lifecycle =
    ("event-1", base EventType.reproduction_started [])
    ∷ ("event-2", base EventType.evidence_captured [])
    ∷ ("event-3", base EventType.analysis_started [])
    ∷ ("event-4", base (EventType.other "ANALYSIS_NOTE") [])
    ∷ ("event-5", base EventType.patch_requested [])
    ∷ ("event-6", base EventType.patch_proposed [])
    ∷ ("event-7", verdict_event clear none)
    ∷ ("event-8", warrant_approved_event "approval-1" digest "ada")
    ∷ ("event-9", execution_started_event "claim-1" "warrant-1")
    ∷ ("event-10", verified_event "receipt-1" "warrant-1")
    ∷ []

abbrev tables_or : Result Error (Tables listing) → Tables listing
tables_or (ok t) = t
tables_or (err _) = no_tables

abbrev verified_tables : Tables listing
verified_tables = tables_or (append_all lifecycle one_incident)

abbrev verified_incident : Incident listing
verified_incident = record {
  title = "Duplicate";
  state = IncidentState.verified;
  next_event_sequence = 11;
  event_chain_head = some (10 ∷ 9 ∷ 8 ∷ 7 ∷ 6 ∷ 5 ∷ 4 ∷ 3 ∷ 2 ∷ 1 ∷ []);
  created_at = 5;
  updated_at = 7;
}

lifecycle_appended : append_all lifecycle one_incident ≡ ok verified_tables
unfolding append lookup insert last_event conflicts next_state typed_event_from_payload
    transition_incident is_state_event_type verdict_of seat_of new_verdict_event
    new_warrant_approved_event new_execution_started_event new_verified_event is_identifier
    is_sha256 event_type event_payload
lifecycle_appended = refl

found_verified : lookup "incident-1" verified_tables.incidents ≡ some verified_incident
unfolding append lookup insert last_event conflicts next_state typed_event_from_payload
    transition_incident is_state_event_type verdict_of seat_of new_verdict_event
    new_warrant_approved_event new_execution_started_event new_verified_event is_identifier
    is_sha256 event_type event_payload
found_verified = refl

stored_verified_needs_authority_example :
    Verified (history listing "incident-1" verified_tables.events)
stored_verified_needs_authority_example =
    stored_verified_needs_authority listing verified_tables "incident-1" verified_incident
      (append_all-IsWellFormed lifecycle one_incident verified_tables lifecycle_appended
        one_incident-IsWellFormed)
      found_verified refl
