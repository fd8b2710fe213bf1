-- ===== src/Scenarios/Lifecycle.antt =====
-- Incidents of the state machine, from OPEN to VERIFIED and into the terminal states.
use cross_patch.Prelude.{
  String, ◌≡◌, refl, true, false, none, some, List, [], ◌∷◌, ok, lookup, ◌≤◌, All,
}
use cross_patch.Domain.Enums.{inspector, clear, remand, IncidentState, verdict_of, seat_of}
use cross_patch.Domain.Names.{is_identifier, is_sha256}
use cross_patch.Domain.Event.{
  EventType, Event, new_verdict_event, base, text, Payload, verdict_event, warrant_approved_event,
  execution_started_event, verified_event, event_type, event_payload,
}
use cross_patch.Domain.Persisted.{typed_event_from_payload}
use cross_patch.Domain.Persisted.Roundtrip.{is_valid, typed_event_roundtrip, rebuilt-is_valid}
use cross_patch.Domain.Transition.{transition_incident}
use cross_patch.Domain.Transition.Authority.{
  Reach, start, next, Approved, Verified, executing_needs_approval, verified_needs_authority,
}
use cross_patch.Domain.Transition.Closure.{run, no_dead_end}
use cross_patch.Domain.Transition.Counting.{
  total, executions, approvals, clears, authority_single_use,
}

is_identifier_accepts : is_identifier "warrant-1:a.b_c" ≡ true
unfolding is_identifier
is_identifier_accepts = refl

is_identifier_refuses : is_identifier "-warrant" ≡ false
unfolding is_identifier
is_identifier_refuses = refl

abbrev pub digest : String
digest = "0123456789abcdef0123456789abcdef0123456789abcdef0123456789abcdef"

abbrev approved_history : List Event
approved_history =
    warrant_approved_event "approval-1" digest "ada"
    ∷ verdict_event clear none
    ∷ base EventType.patch_proposed []
    ∷ base EventType.patch_requested []
    ∷ base EventType.analysis_started []
    ∷ base EventType.evidence_captured []
    ∷ base EventType.reproduction_started []
    ∷ []

abbrev executing_history : List Event
executing_history = execution_started_event "claim-1" "warrant-1" ∷ approved_history

abbrev verified_history : List Event
verified_history = verified_event "receipt-1" "warrant-1" ∷ executing_history

approved_reached : Reach approved_history IncidentState.approved
unfolding transition_incident
approved_reached =
    next _ (next _ (next _ (next _ (next _ (next _ (next _ start refl) refl) refl) refl) refl) refl)
      refl

executing_reached : Reach executing_history IncidentState.executing
unfolding transition_incident
executing_reached = next _ approved_reached refl

verified_reached : Reach verified_history IncidentState.verified
unfolding transition_incident
verified_reached = next _ executing_reached refl

executing_needs_approval_example :
    (before : List Event) × Approved before
    × ((p : String × String) × (executing_history ≡ execution_started_event p.0 p.1 ∷ before))
executing_needs_approval_example = executing_needs_approval executing_reached

verified_needs_authority_example : Verified verified_history
verified_needs_authority_example = verified_needs_authority verified_reached

authority_single_use_example :
    (total executions verified_history ≤ total approvals verified_history)
    × (total approvals verified_history ≤ total clears verified_history)
authority_single_use_example = authority_single_use verified_reached

no_dead_end_example :
    ((e : Event) × (is_valid e ≡ true)
      × (transition_incident IncidentState.test_failed e ≡ ok IncidentState.human_escalation))
    × ((es : List Event) × All (λ e. is_valid e ≡ true) es
        × (run IncidentState.test_failed es ≡ ok IncidentState.verified))
no_dead_end_example = no_dead_end IncidentState.test_failed refl

abbrev remand_to_inspector : Event
remand_to_inspector = verdict_event remand (some inspector)

abbrev approval_event : Event
approval_event = warrant_approved_event "approval-1" digest "ada"

approval-is_valid : is_valid approval_event ≡ true
unfolding is_identifier is_sha256
approval-is_valid = refl

typed_event_roundtrip_example :
    typed_event_from_payload (event_type approval_event) (event_payload approval_event)
    ≡ ok approval_event
typed_event_roundtrip_example = typed_event_roundtrip approval_event approval-is_valid

abbrev remand_payload : Payload
remand_payload = ("verdict", text "REMAND") ∷ ("remand_target", text "Inspector") ∷ []

remand_rebuilt : typed_event_from_payload EventType.verdict remand_payload ≡ ok remand_to_inspector
unfolding typed_event_from_payload lookup verdict_of seat_of new_verdict_event
remand_rebuilt = refl

rebuilt-is_valid_example :
    (event_type remand_to_inspector ≡ EventType.verdict) × (is_valid remand_to_inspector ≡ true)
rebuilt-is_valid_example =
    rebuilt-is_valid EventType.verdict remand_payload remand_to_inspector remand_rebuilt
