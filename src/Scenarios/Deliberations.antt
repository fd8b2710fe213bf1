-- ===== src/Scenarios/Deliberations.antt =====
-- A deliberation that remands once and then clears, one whose evidence is refused, one after a
-- human's guidance, and an approval.
use cross_patch.Prelude.{
  insert, lookup, ℕ, String, ◌≡◌, ◌≢◌, ◌≤◌, ◌⊎◌, refl, Bool, true, false, Option, none, some, [],
  ◌∷◌, Result, ok, err,
}
use cross_patch.Domain.Enums.{verdict_of, Verdict}
use cross_patch.Escalation.{
  current_effort, record_initial, assign, accept_retry, begin_escalation, effort_eq,
  resume_pending_escalation, rung,
}
use cross_patch.Coordinator.Failures.{failure_reason, reason_of, Exn}
use cross_patch.Coordinator.Outputs.{is_accepted, seat_of_output, evidence_ids, put, BailiffOutput}
use cross_patch.Coordinator.Session.{State, Call}
use cross_patch.Coordinator.Verdicts.{
  after_review, as_magistrate, checked_target, closed, current_outputs, deliberate, deliver,
  fail_closed, finish_verdict, guarded, is_remand, on_round, patch_again, remand_round,
  report_failure, resolve_from, resolve_verdict, save_outputs, CoordinatorResult, Outcome,
  run_incident,
}
use cross_patch.Coordinator.Resumption.{
  when_resumable, saved_outputs, revise, resume_after_test, resume_after_revision,
  resume_after_approval, resumed, required_approval, same_warrant,
}
use cross_patch.Coordinator.Outcomes.{IsOpened, IsAbstained}
use cross_patch.Coordinator.Returning.{Settles, methods-Settle}
use cross_patch.Coordinator.Contracts.{here, now}
use cross_patch.Coordinator.Reports.{
  AllValidated, run_incident-IsOpened, run_incident-AllValidated, run_incident-IsAbstained,
  resume_after_revision-IsOpened,
}
use cross_patch.Coordinator.Answers.{run_incident-answers, IsUncancelled}
use cross_patch.Coordinator.Approvals.{IsExecuted, resume_after_approval-IsExecuted}
use cross_patch.Coordinator.SeatRuns.{
  run_initial_handoff, read_tracker, on_tracker, run_seat, escalate, accept, begin,
  begin_unless_pending, begun_exn, both, empty_phases, keep, publish_accepted, record_first,
  reject_duplicate, retried, retry_exn, seat_call, selected_effort, settle_output,
}
use cross_patch.Domain.Seats.{spec_by_seat}
use cross_patch.Coordinator.Checks.{
  has_valid_remand, summarize_output, answered, check_citations, cite, mapping_failure, request,
  run_input, validate,
}
use cross_patch.Domain.Names.{is_sha256}
use cross_patch.Domain.Event.{is_remand_target}
use cross_patch.Scenarios.Room.{
  room, incident, start, result_of, state_of, no_evidence, cleared, refused, guided, revised,
  summary,
}

runs :
    (summary cleared ≡ some (Verdict.clear, none))
    × (summary refused ≡ some (Verdict.abstain, some "missing_evidence_references"))
    × (summary revised ≡ some (Verdict.clear, none))
unfolding run_incident run_initial_handoff is_accepted read_tracker current_effort spec_by_seat
    seat_of_output has_valid_remand evidence_ids on_tracker record_initial run_seat assign put
    is_sha256 summarize_output is_remand_target escalate answered check_citations cite
    mapping_failure request run_input validate failure_reason reason_of accept begin
    begin_unless_pending begun_exn both empty_phases keep publish_accepted record_first
    reject_duplicate retried retry_exn seat_call selected_effort settle_output after_review
    as_magistrate checked_target closed current_outputs deliberate deliver fail_closed
    finish_verdict guarded is_remand on_round patch_again remand_round report_failure resolve_from
    resolve_verdict save_outputs verdict_of accept_retry begin_escalation effort_eq
    resume_pending_escalation rung insert lookup resume_after_revision when_resumable resumed
    saved_outputs revise
runs = (refl, refl, refl)

-- A run with a summary has returned.
has_run :
    (o : Outcome CoordinatorResult) (v : Verdict) (reason : Option String)
    → summary o ≡ some (v, reason)
    → (o ≡ some (ok (result_of o), state_of o)) × ((result_of o).failure_reason ≡ reason)
has_run none v reason h = absurd (cc h)
has_run (some (ok r, u)) v reason h = (refl, cc)
has_run (some (err e, u)) v reason h = absurd (cc h)

methods-Settle_example :
    Settles 16 (λ fuel. run_incident (room true) fuel incident guided)
    × Settles 16 (λ fuel. resume_after_test (room true) fuel incident false guided)
    × Settles 16 (λ fuel. resume_after_revision (room true) fuel incident guided)
methods-Settle_example = methods-Settle (room true) incident false guided

run_incident-IsOpened_example :
    ((result_of cleared).verdict ≡ Verdict.clear
      → IsOpened (room true) "incident-1" start.calls (result_of cleared) (state_of cleared).calls)
    × ((result_of cleared).verdict ≢ Verdict.clear → (result_of cleared).pending_warrant_id ≡ none)
run_incident-IsOpened_example =
    run_incident-IsOpened (room true) 2 incident start (state_of cleared) (result_of cleared)
      (has_run cleared Verdict.clear none runs.0).0

run_incident-AllValidated_example :
    AllValidated
      (room true)
      "incident-1"
      start.calls
      (result_of cleared).seat_outputs
      (state_of cleared).calls
run_incident-AllValidated_example =
    run_incident-AllValidated (room true) 2 incident start (state_of cleared) (result_of cleared)
      (has_run cleared Verdict.clear none runs.0).0

run_incident-IsAbstained_example :
    ((result_of refused).verdict ≡ Verdict.abstain)
    × (no_evidence ≢ "escalation_exhausted"
        → IsAbstained
            (room false)
            "incident-1"
            "missing_evidence_references"
            (state_of refused).calls)
run_incident-IsAbstained_example =
    run_incident-IsAbstained (room false) 1 incident start (state_of refused) (result_of refused)
      "missing_evidence_references"
      (has_run refused Verdict.abstain (some "missing_evidence_references") runs.1).0
      (has_run refused Verdict.abstain (some "missing_evidence_references") runs.1).1

guided-AllValidated :
    AllValidated
      (room true)
      "incident-1"
      []
      (resumed (room true) incident guided).outputs
      guided.calls
unfolding AllValidated resumed saved_outputs lookup evidence_ids seat_of_output has_valid_remand
guided-AllValidated = (
  record { classed = refl; ruled = refl; cited = λ _. ((λ h. absurd (cc h)), now [] here refl) },
  tt,
)

resume_after_revision-IsOpened_example :
    AllValidated
      (room true)
      "incident-1"
      []
      (result_of revised).seat_outputs
      (state_of revised).calls
    × ((result_of revised).verdict ≡ Verdict.clear
        → IsOpened (room true) "incident-1" [] (result_of revised) (state_of revised).calls)
resume_after_revision-IsOpened_example =
    resume_after_revision-IsOpened (room true) 1 incident guided (state_of revised)
      (result_of revised) guided-AllValidated (has_run revised Verdict.clear none runs.2).0

room-IsUncancelled : (b : Bool) → IsUncancelled (room b)
room-IsUncancelled b = record {
  done = λ cs c h. absurd (cc h);
  seat = λ cs c h. absurd (cc h);
  handoff = λ cs c h. absurd (cc h);
  text = λ cs c h. absurd (cc h);
  contained = λ cs c h. absurd (cc h);
}

run_incident-answers_example :
    (r : CoordinatorResult) × (u : State) × ((fuel : ℕ)
      → 16 ≤ fuel
      → run_incident (room false) fuel incident start ≡ some (ok r, u))
run_incident-answers_example =
    run_incident-answers (room false) incident start (room-IsUncancelled false) refl
      (λ cs reason. refl)

abbrev done : Result Exn BailiffOutput
done = ok (record { warrant_id = "warrant-1" })

abbrev executed : Result Exn BailiffOutput × State
executed = resume_after_approval (room true) "incident-1" "warrant-1" start

executed_runs : executed ≡ (done, executed.1)
unfolding resume_after_approval required_approval same_warrant
executed_runs = refl

resume_after_approval-IsExecuted_example :
    ((executed.1.calls ≡ Call.approved_warrant "incident-1" "warrant-1" ∷ [])
      ⊎ IsExecuted (room true) "incident-1" "warrant-1" [] executed.1.calls)
    × ((o : BailiffOutput)
        → done ≡ ok o
        → (o.warrant_id ≡ "warrant-1")
          × IsExecuted (room true) "incident-1" "warrant-1" [] executed.1.calls)
resume_after_approval-IsExecuted_example =
    resume_after_approval-IsExecuted (room true) "incident-1" "warrant-1" start executed.1 done
      executed_runs
