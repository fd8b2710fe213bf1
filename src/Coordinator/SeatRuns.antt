-- ===== src/Coordinator/SeatRuns.antt =====
-- One seat's turn: `_run_seat`, `_run_initial_handoff` and `_escalate` of the Coordinator in
-- backend/src/crosspatch/orchestration/coordinator.py.
use cross_patch.Prelude.{
  String, Bool, true, false, ◌&&◌, Option, none, some, [], Result, ok, err, lookup, insert,
  if◌then◌else◌,
}
use cross_patch.Domain.Enums.{Seat, Effort}
use cross_patch.Escalation
use cross_patch.Escalation.{
  Tracker, EscalationDecision, record_initial, accept_retry, current_effort, begin_escalation,
  resume_pending_escalation,
}
use cross_patch.Coordinator.Failures.{
  Exn, failure, tracker_error, duplicate_attempt, invalid_schema, escalation_failure,
  retry_failure_already_persisted,
}
use cross_patch.Coordinator.Outputs.{
  SeatOutput, inspector_output, prosecutor_output, IncidentInput, AgentRunInput, SeatDict, put,
}
use cross_patch.Coordinator.Session.{
  Environment, structured, Handoff, handoff, no_handoff, State, Action, pure, raise, ask, ◌>>=◌,
  ◌>>◌, Call,
}
use cross_patch.Coordinator.Checks.{validate, request}

-- A call of the tracker.
unfoldable pub on_tracker :
    {A : Type 0} → (Tracker → Result Escalation.Error A × Tracker) → Action A
on_tracker f st =
    let (r, t) = f st.tracker in
    elim r [
      | ok a ↦ (ok a, record st { tracker = t })
      | err e ↦ (err (tracker_error e), record st { tracker = t })
    ]

-- A call of the tracker that only reads it.
unfoldable pub read_tracker : {A : Type 0} → (Tracker → Result Escalation.Error A) → Action A
read_tracker f st = elim (f st.tracker) [ ok a ↦ (ok a, st) | err e ↦ (err (tracker_error e), st) ]

unfoldable pub empty_phases : Option (SeatDict String) → SeatDict String
empty_phases none = []
empty_phases (some phases) = phases

-- `except DuplicateRetry`
unfoldable pub retry_exn : Exn → Escalation.Error → Exn
retry_exn duplicate Escalation.duplicate_retry = duplicate
retry_exn duplicate x = tracker_error x

-- `except EscalationExhausted`
unfoldable pub begun_exn : Escalation.Error → Exn
begun_exn Escalation.escalation_exhausted = failure escalation_failure
begun_exn x = tracker_error x

module _ (env : Environment) where
  -- `outputs[seat] = output` and the seat's phase.
  unfoldable pub keep : String → Seat → String → SeatOutput → Action (Unit {0})
  keep i s phase o st = (
    ok tt,
    record st {
      outputs = put s o st.outputs;
      incident_phases =
          insert i (put s phase (empty_phases (lookup i st.incident_phases))) st.incident_phases;
    },
  )

  unfoldable pub record_first : String → Seat → SeatOutput → Action (Unit {0})
  record_first i s o = on_tracker (record_initial env.semantic_fingerprint i s o)

  unfoldable pub accept : String → Seat → Effort → String → SeatOutput → Action (Unit {0})
  unfolding retry_exn
  accept i s e phase o st =
      let (r, t) = accept_retry env.semantic_fingerprint i s o st.tracker in
      elim r [
        | ok _ ↦ (ok tt, record st { tracker = t })
        | err x ↦ (err (retry_exn (duplicate_attempt s e phase o) x), record st { tracker = t })
      ]

  unfoldable pub selected_effort : String → Seat → Option Effort → Action Effort
  selected_effort i s none = read_tracker (current_effort i s)
  selected_effort i s (some e) = pure e

  -- `if deferred_runtime is not None`
  unfoldable pub publish_accepted : Call → Action (Unit {0})
  publish_accepted c = if env.deferred_retry then ask env.answer_done c else pure tt

  -- `if retry`
  unfoldable pub settle_output :
      String → Seat → Effort → String → SeatOutput → Bool → Action (Unit {0})
  unfolding accept record_first publish_accepted
  settle_output i s e phase o false = record_first i s o
  settle_output i s e phase o true = do
    accept i s e phase o
    publish_accepted (Call.publish_accepted_retry i s e phase o)

  unfoldable pub seat_call : Bool → Seat → Effort → String → AgentRunInput → Call
  seat_call retry s e phase input =
      if retry && env.deferred_retry
      then Call.run_unpublished_retry s e phase input
      else Call.run_seat s e phase input

  -- `_run_seat`
  unfoldable pub run_seat : IncidentInput → Seat → String → Option Effort → Bool → Action SeatOutput
  unfolding selected_effort request validate settle_output keep seat_call
  run_seat inc s phase effort retry = do
    e ← selected_effort inc.incident_id s effort
    input ← request env inc phase
    returned ← ask env.answer_seat (seat_call retry s e phase input)
    o ← validate env inc.incident_id s returned
    settle_output inc.incident_id s e phase o retry
    keep inc.incident_id s phase o
    pure o

  unfoldable pub both : Handoff → Action (SeatOutput × SeatOutput)
  both (handoff a b) = pure (inspector_output a, prosecutor_output b)
  both no_handoff = raise (failure invalid_schema)

  -- `_run_initial_handoff`
  unfoldable pub run_initial_handoff : IncidentInput → Action (Unit {0})
  unfolding request validate record_first keep both
  run_initial_handoff inc = do
    input ← request env inc "mechanism-analysis"
    e ← read_tracker (current_effort inc.incident_id Seat.inspector)
    f ← read_tracker (current_effort inc.incident_id Seat.prosecutor)
    result ← ask env.answer_handoff (Call.run_inspector_to_prosecutor input e f)
    (a, b) ← both result
    inspector ← validate env inc.incident_id Seat.inspector (structured a)
    prosecutor ← validate env inc.incident_id Seat.prosecutor (structured b)
    record_first inc.incident_id Seat.inspector inspector
    record_first inc.incident_id Seat.prosecutor prosecutor
    keep inc.incident_id Seat.inspector "mechanism-analysis" inspector
    keep inc.incident_id Seat.prosecutor "hypothesis-challenge" prosecutor

  -- `begin_escalation` and the record of it.
  unfoldable pub begin : String → Seat → String → Action EscalationDecision
  unfolding begun_exn
  begin i s reason st =
      let (r, t) = begin_escalation i s reason st.tracker in
      elim r [
        | ok d ↦
            (do
              ask env.answer_done (Call.record_escalation i s d.effort d.escalation_count reason)
              pure d)
              (record st { tracker = t })
        | err x ↦ (err (begun_exn x), record st { tracker = t })
      ]

  unfoldable pub begin_unless_pending :
      String → Seat → String → Option EscalationDecision → Action EscalationDecision
  unfolding begin
  begin_unless_pending i s reason none = begin i s reason
  begin_unless_pending i s reason (some d) = pure d

  -- `except _DuplicateRetryAttempt`
  unfoldable pub reject_duplicate :
      String → String → Result Exn SeatOutput × State → Result Exn SeatOutput × State
  reject_duplicate i reason (err (duplicate_attempt s e phase o), st) =
      (do
        ask env.answer_done (Call.reject_duplicate_retry i s e phase o reason)
        raise (failure retry_failure_already_persisted))
        st
  reject_duplicate i reason r = r

  unfoldable pub retried : IncidentInput → Seat → String → String → Effort → Action SeatOutput
  unfolding run_seat reject_duplicate
  retried inc s reason phase e st =
      reject_duplicate inc.incident_id reason (run_seat inc s phase (some e) true st)

  -- `_escalate`
  unfoldable pub escalate : IncidentInput → Seat → String → String → Action SeatOutput
  unfolding begin_unless_pending retried
  escalate inc s reason phase = do
    pending ← read_tracker (resume_pending_escalation inc.incident_id s reason)
    d ← begin_unless_pending inc.incident_id s reason pending
    retried inc s reason phase d.effort
