-- ===== src/Domain/Transition/Counting.antt =====
-- How often authority is granted and used in one history.
use cross_patch.Prelude.{ℕ, ◌+◌, ◌≤◌, ◌≡◌, List, [], ◌∷◌, ok, arith}
use cross_patch.Domain.Enums.{clear, IncidentState}
use cross_patch.Domain.Event.{Event, verdict_event, warrant_approved_event, execution_started_event}
use cross_patch.Domain.Transition.{transition_incident}
use cross_patch.Domain.Transition.Authority.{Reach, start, next}

abbrev pub clears : Event → ℕ
clears (verdict_event clear _) = 1
clears _ = 0

abbrev pub approvals : Event → ℕ
approvals (warrant_approved_event _ _ _) = 1
approvals _ = 0

abbrev pub executions : Event → ℕ
executions (execution_started_event _ _) = 1
executions _ = 0

abbrev pub total : (Event → ℕ) → List Event → ℕ
total f [] = 0
total f (e ∷ h) = f e + total f h

-- An approval, or a CLEAR verdict, that has not been used yet.
abbrev unused_approval : IncidentState → ℕ
unused_approval IncidentState.approved = 1
unused_approval _ = 0

abbrev unused_clear : IncidentState → ℕ
unused_clear IncidentState.approval_pending = 1
unused_clear _ = 0

step_executions :
    (s t : IncidentState) (e : Event)
    → transition_incident s e ≡ ok t
    → executions e + unused_approval t ≤ approvals e + unused_approval s
unfolding transition_incident
step_executions s t e h = ground arith

step_approvals :
    (s t : IncidentState) (e : Event)
    → transition_incident s e ≡ ok t
    → approvals e + unused_clear t ≤ clears e + unused_clear s
unfolding transition_incident
step_approvals s t e h = ground arith

executions_bound :
    {h : List Event} {s : IncidentState}
    → Reach h s
    → total executions h + unused_approval s ≤ total approvals h
executions_bound start = omega arith
executions_bound (next {s = s} {t = t} e r x) =
    omega (arith, executions_bound r, step_executions s t e x)

approvals_bound :
    {h : List Event} {s : IncidentState}
    → Reach h s
    → total approvals h + unused_clear s ≤ total clears h
approvals_bound start = omega arith
approvals_bound (next {s = s} {t = t} e r x) =
    omega (arith, approvals_bound r, step_approvals s t e x)

-- In every accepted history there are at most as many execution starts as warrant approvals, and
-- at most as many warrant approvals as CLEAR verdicts.
pub authority_single_use :
    {h : List Event} {s : IncidentState}
    → Reach h s
    → (total executions h ≤ total approvals h) × (total approvals h ≤ total clears h)
authority_single_use r = (omega (arith, executions_bound r), omega (arith, approvals_bound r))
