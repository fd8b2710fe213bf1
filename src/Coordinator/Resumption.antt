-- ===== src/Coordinator/Resumption.antt =====
-- The methods that resume an incident and `restore_incident_outputs` of the Coordinator in
-- backend/src/crosspatch/orchestration/coordinator.py.
use cross_patch.Prelude.{
  ℕ, String, Bool, true, false, not, Option, none, some, [], ◌∷◌, ok, err, lookup, insert,
  if◌then◌else◌, str_eq,
}
use cross_patch.Domain.Enums.{Seat, Effort, Verdict, seat_eq}
use cross_patch.Escalation.{restore}
use cross_patch.Coordinator.Failures.{failure, permission_error, lookup_error, invalid_schema}
use cross_patch.Coordinator.Outputs.{
  SeatOutput, bailiff_output, seat_of_output, MagistrateOutput, BailiffOutput, IncidentInput,
  SeatDict, get, put,
}
use cross_patch.Coordinator.Session.{
  Environment, Returned, structured, State, Action, pure, raise, ask, ◌>>=◌, ◌>>◌, Call,
}
use cross_patch.Coordinator.SeatRuns.{on_tracker, run_seat, escalate, empty_phases}
use cross_patch.Coordinator.Verdicts.{
  CoordinatorResult, Outcome, as_magistrate, current_outputs, resolve_from, guarded,
}

module _ (env : Environment) where
  unfoldable pub same_warrant : String → Returned → Action BailiffOutput
  same_warrant w (structured (bailiff_output o)) =
      if str_eq o.warrant_id w then pure o else raise (failure invalid_schema)
  same_warrant w _ = raise (failure invalid_schema)

  unfoldable pub required_approval : Option String → Action String
  required_approval none = raise permission_error
  required_approval (some reference) = pure reference

  -- `resume_after_approval`
  unfoldable pub resume_after_approval : String → String → Action BailiffOutput
  unfolding required_approval same_warrant
  resume_after_approval i w = do
    found ← ask env.answer_reference (Call.approved_warrant i w)
    reference ← required_approval found
    returned ← ask env.answer_seat (Call.execute_approved_warrant i w reference)
    same_warrant w returned

  unfoldable pub saved_outputs : Option (SeatDict SeatOutput) → SeatDict SeatOutput
  saved_outputs none = []
  saved_outputs (some outputs) = outputs

  -- Whether the seat's last completed phase is this one.
  unfoldable pub has_completed : String → Seat → String → Action Bool
  has_completed i s phase st = (
    ok (elim (get s (empty_phases (lookup i st.incident_phases))) [
      | none ↦ false
      | some last ↦ str_eq last phase
    ]),
    st,
  )

  unfoldable pub repair_patch : IncidentInput → Bool → Action (Unit {0})
  repair_patch inc true = pure tt
  repair_patch inc false = do
    ask env.answer_done (Call.begin_review inc.incident_id)
    escalate env inc Seat.counsel "test_failure" "test-failure-repair"
    pure tt

  unfoldable pub challenge_repair : IncidentInput → Bool → Action (Unit {0})
  challenge_repair inc true = pure tt
  challenge_repair inc false = do
    run_seat env inc Seat.prosecutor "test-failure-challenge" none false
    pure tt

  unfoldable pub kept_magistrate : Option SeatOutput → Action SeatOutput
  kept_magistrate none = raise (failure invalid_schema)
  kept_magistrate (some o) = pure o

  unfoldable pub review_repair : IncidentInput → Bool → Action SeatOutput
  unfolding current_outputs kept_magistrate
  review_repair inc true = do
    outputs ← current_outputs
    kept_magistrate (get Seat.magistrate outputs)
  review_repair inc false = run_seat env inc Seat.magistrate "test-failure-review" none false

  -- What `resume_after_test` does after a failed test, before it resolves the verdict.
  unfoldable pub repair : IncidentInput → Action MagistrateOutput
  unfolding has_completed repair_patch challenge_repair review_repair as_magistrate
  repair inc = do
    patched ← has_completed inc.incident_id Seat.counsel "test-failure-repair"
    repair_patch inc patched
    challenged ← has_completed inc.incident_id Seat.prosecutor "test-failure-challenge"
    challenge_repair inc challenged
    reviewed ← has_completed inc.incident_id Seat.magistrate "test-failure-review"
    o ← review_repair inc reviewed
    as_magistrate o

  -- `if not outputs: raise LookupError`
  unfoldable pub when_resumable :
      SeatDict SeatOutput → State → Outcome CoordinatorResult → Outcome CoordinatorResult
  when_resumable [] st outcome = some (err lookup_error, st)
  when_resumable (_ ∷ _) st outcome = outcome

  unfoldable pub resumed : IncidentInput → State → State
  unfolding saved_outputs
  resumed inc st = record st {
    outputs = saved_outputs (lookup inc.incident_id st.incident_outputs);
  }

  -- `self._incident_phases.setdefault(incident_id, {})`
  unfoldable pub with_phases : IncidentInput → State → State
  with_phases inc st = record st {
    incident_phases =
        insert inc.incident_id (empty_phases (lookup inc.incident_id st.incident_phases))
          st.incident_phases;
  }

  -- `resume_after_test`
  unfoldable pub resume_after_test :
      ℕ → IncidentInput → (test_passed : Bool) → State → Outcome CoordinatorResult
  unfolding when_resumable resumed with_phases guarded resolve_from repair
  resume_after_test fuel inc test_passed st =
      let u = resumed inc st in
      when_resumable u.outputs u (
        if test_passed
        then some (
          ok (record {
            verdict = Verdict.clear;
            seat_outputs = u.outputs;
            pending_warrant_id = none;
            failure_reason = none;
          }),
          u,
        )
        else guarded env inc.incident_id
            (resolve_from env fuel inc (repair inc (with_phases inc u))))

  -- What `resume_after_revision` does before it resolves the verdict.
  unfoldable pub revise : IncidentInput → Action MagistrateOutput
  unfolding as_magistrate
  revise inc = do
    ask env.answer_done (Call.begin_review inc.incident_id)
    escalate env inc Seat.counsel "human_revision" "human-revision-patch"
    run_seat env inc Seat.prosecutor "human-revision-challenge" none false
    o ← run_seat env inc Seat.magistrate "human-revision-review" none false
    as_magistrate o

  -- `resume_after_revision`
  unfoldable pub resume_after_revision : ℕ → IncidentInput → State → Outcome CoordinatorResult
  unfolding when_resumable resumed guarded resolve_from revise
  resume_after_revision fuel inc st =
      let u = resumed inc st in
      when_resumable u.outputs u
        (guarded env inc.incident_id (resolve_from env fuel inc (revise inc u)))

  -- One entry of `outputs` in `restore_incident_outputs`.
  unfoldable pub restore_entry :
      String → SeatDict String → Seat → SeatOutput → Effort → ℕ → Action (Unit {0})
  restore_entry i pending s o e count =
      if not (seat_eq (seat_of_output o) s)
      then raise (failure invalid_schema)
      else on_tracker (
          restore env.semantic_fingerprint i s o e count
            (elim (get s pending) [ none ↦ false | some _ ↦ true ]) (get s pending))

  -- Its loop, which returns what is restored.
  unfoldable pub restore_entries :
      String
      → SeatDict String
      → SeatDict (SeatOutput × Effort × ℕ)
      → SeatDict SeatOutput
      → Action (SeatDict SeatOutput)
  unfolding restore_entry
  restore_entries i pending [] restored = pure restored
  restore_entries i pending ((s, (o, e, count)) ∷ rest) restored =
      restore_entry i pending s o e count >> restore_entries i pending rest (put s o restored)

  unfoldable pub set_incident : String → SeatDict SeatOutput → SeatDict String → Action (Unit {0})
  set_incident i outputs phases st = (
    ok tt,
    record st {
      incident_outputs = insert i outputs st.incident_outputs;
      incident_phases = insert i phases st.incident_phases;
    },
  )

  -- `restore_incident_outputs`
  unfoldable pub restore_incident_outputs :
      String
      → SeatDict (SeatOutput × Effort × ℕ)
      → (completed_phases pending_retries : SeatDict String) → Action (Unit {0})
  unfolding restore_entries set_incident
  restore_incident_outputs i outputs phases pending = do
    restored ← restore_entries i pending outputs []
    set_incident i restored phases
