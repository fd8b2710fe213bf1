-- ===== src/Domain/Transition.antt =====
-- `transition_incident` of backend/src/crosspatch/domain/state_machine.py.
pub mod Authority
pub mod Closure
pub mod Counting
use cross_patch.Prelude.{Bool, true, false, Option, none, some, Result, ok, err, ◌>>=◌, ◌>>◌}
use cross_patch.Domain.Enums.{Seat, counsel, Verdict, clear, remand, block, abstain, IncidentState}
use cross_patch.Domain.Event.{
  EventType, Event, Error, untyped, not_allowed, base, verdict_event, event_type,
}

-- The states in which an ABSTAIN verdict may interrupt the work.
unfoldable pub accepts_abstain : IncidentState → Bool
accepts_abstain IncidentState.analyzing = true
accepts_abstain IncidentState.patching = true
accepts_abstain IncidentState.reviewing = true
accepts_abstain IncidentState.approved = true
accepts_abstain IncidentState.executing = true
accepts_abstain IncidentState.test_failed = true
accepts_abstain _ = false

after_remand : Option Seat → IncidentState
after_remand (some counsel) = IncidentState.patching
after_remand _ = IncidentState.analyzing

-- `_transition_verdict`
unfoldable pub transition_verdict : Event → Result Error IncidentState
unfolding after_remand
transition_verdict (verdict_event clear _) = ok IncidentState.approval_pending
transition_verdict (verdict_event remand target) = ok (after_remand target)
transition_verdict (verdict_event block _) = ok IncidentState.blocked
transition_verdict (verdict_event abstain _) = ok IncidentState.human_escalation
transition_verdict _ = err (untyped EventType.verdict)

-- The first branch, for an event of the type VERDICT.
on_verdict : IncidentState → Event → Result Error IncidentState
on_verdict IncidentState.reviewing e = transition_verdict e
on_verdict s (verdict_event abstain _) = elim (accepts_abstain s) [
  | true ↦ ok IncidentState.human_escalation
  | false ↦ err (not_allowed EventType.verdict s)
]
on_verdict s _ = err (not_allowed EventType.verdict s)

-- The guards between: these types are accepted only from their own classes.
needs_proof : EventType → Bool
needs_proof EventType.warrant_approved = true
needs_proof EventType.execution_started = true
needs_proof EventType.verified = true
needs_proof EventType.execution_failed = true
needs_proof EventType.warrant_expired = true
needs_proof EventType.revision_requested = true
needs_proof _ = false

require_proof : Event → Result Error (Unit {0})
unfolding needs_proof
require_proof (base t _) = elim (needs_proof t) [ true ↦ err (untyped t) | false ↦ ok tt ]
require_proof _ = ok tt

-- The dictionary `transitions`.
unfoldable pub transitions : IncidentState → EventType → Option IncidentState
transitions IncidentState.opened EventType.reproduction_started = some IncidentState.reproducing
transitions IncidentState.reproducing EventType.evidence_captured =
    some IncidentState.evidence_ready
transitions IncidentState.evidence_ready EventType.reproduction_passed = some IncidentState.blocked
transitions IncidentState.evidence_ready EventType.reproduction_inconclusive =
    some IncidentState.human_escalation
transitions IncidentState.evidence_ready EventType.analysis_started = some IncidentState.analyzing
transitions IncidentState.analyzing EventType.patch_requested = some IncidentState.patching
transitions IncidentState.patching EventType.patch_proposed = some IncidentState.reviewing
transitions IncidentState.approval_pending EventType.warrant_approved = some IncidentState.approved
transitions IncidentState.approval_pending EventType.warrant_expired =
    some IncidentState.human_escalation
transitions IncidentState.approval_pending EventType.revision_requested =
    some IncidentState.patching
transitions IncidentState.approved EventType.execution_started = some IncidentState.executing
transitions IncidentState.executing EventType.test_failed = some IncidentState.test_failed
transitions IncidentState.test_failed EventType.retry_started = some IncidentState.patching
transitions IncidentState.executing EventType.verified = some IncidentState.verified
transitions IncidentState.opened EventType.background_task_failed =
    some IncidentState.human_escalation
transitions IncidentState.reproducing EventType.background_task_failed =
    some IncidentState.human_escalation
transitions IncidentState.evidence_ready EventType.background_task_failed =
    some IncidentState.human_escalation
transitions IncidentState.analyzing EventType.background_task_failed =
    some IncidentState.human_escalation
transitions IncidentState.patching EventType.background_task_failed =
    some IncidentState.human_escalation
transitions IncidentState.reviewing EventType.background_task_failed =
    some IncidentState.human_escalation
transitions IncidentState.approved EventType.background_task_failed =
    some IncidentState.human_escalation
transitions IncidentState.executing EventType.background_task_failed =
    some IncidentState.human_escalation
transitions IncidentState.test_failed EventType.background_task_failed =
    some IncidentState.human_escalation
transitions IncidentState.approved EventType.execution_failed = some IncidentState.human_escalation
transitions IncidentState.executing EventType.execution_failed = some IncidentState.human_escalation
transitions _ _ = none

-- `transitions[(state, event.type)]`, a KeyError being an InvalidTransition.
tabulated : IncidentState → EventType → Result Error IncidentState
unfolding transitions
tabulated s t = elim (transitions s t) [ none ↦ err (not_allowed t s) | some s' ↦ ok s' ]

unfoldable pub transition_incident : IncidentState → Event → Result Error IncidentState
unfolding on_verdict transition_verdict require_proof tabulated event_type accepts_abstain
transition_incident s (verdict_event v t) = on_verdict s (verdict_event v t)
transition_incident s (base EventType.verdict p) = on_verdict s (base EventType.verdict p)
transition_incident s e = do require_proof e; tabulated s (event_type e)
