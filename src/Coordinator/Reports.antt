-- ===== src/Coordinator/Reports.antt =====
-- The promises of `run_incident`, `resume_after_revision` and `resume_after_approval`.
use cross_patch.Prelude.{
  ℕ, String, ◌≡◌, ◌≢◌, none, some, List, [], ◌∷◌, ok, inl, inr, Bool-cases, All, sym,
}
use cross_patch.Domain.Enums.{Seat, Verdict, seat_eq}
use cross_patch.Escalation.Invariant.{seat_eq→≡}
use cross_patch.Coordinator.Failures.{Exn}
use cross_patch.Coordinator.Outputs.{SeatOutput, IncidentInput, SeatDict, put}
use cross_patch.Coordinator.Session.{Environment, State, Call}
use cross_patch.Coordinator.SeatRuns.{keep}
use cross_patch.Coordinator.Verdicts.{CoordinatorResult, Outcome, save_outputs, run_incident}
use cross_patch.Coordinator.Resumption.{resume_after_revision, resumed}
use cross_patch.Coordinator.Contracts.{
  Since, here, more, Since-all, Validated, Validated-later, IsKept,
}
use cross_patch.Coordinator.Outcomes.{IsReport, IsOpened, IsAbstained, Leaves}
use cross_patch.Coordinator.Termination.{anything}
use cross_patch.Coordinator.Safety.{run_incident-Leaves, resume_after_revision-Leaves}

-- Every output in the dictionary was validated for its seat, in the calls made since `before`.
unfoldable pub AllValidated :
    Environment → String → (before : List Call) → SeatDict SeatOutput → List Call → Type 0
AllValidated env i before outputs cs = All (λ (s, o). Validated env i before s o cs) outputs

AllValidated-later :
    (env : Environment) (i : String) (before : List Call) (outputs : SeatDict SeatOutput) (c : Call)
    (cs : List Call)
    → AllValidated env i before outputs cs
    → AllValidated env i before outputs (c ∷ cs)
unfolding AllValidated
AllValidated-later env i before [] c cs v = tt
AllValidated-later env i before ((s, o) ∷ rest) c cs (v, w) =
    (Validated-later c cs v, AllValidated-later env i before rest c cs w)

AllValidated-put :
    (env : Environment) (i : String) (before : List Call) (s : Seat) (o : SeatOutput)
    (outputs : SeatDict SeatOutput) (cs : List Call)
    → Validated env i before s o cs
    → AllValidated env i before outputs cs
    → AllValidated env i before (put s o outputs) cs
unfolding AllValidated put
AllValidated-put env i before s o [] cs v w = (v, tt)
AllValidated-put env i before s o ((r, p) ∷ rest) cs v (w, ws) = elim (Bool-cases (seat_eq r s)) [
  | inl e ↦ rw (e, put) (rw (sym (seat_eq→≡ r s e)) at v, ws)
  | inr e ↦ rw (e, put) (w, AllValidated-put env i before s o rest cs v ws)
]

IsBacked : Environment → String → (before : List Call) → State → Type 0
IsBacked env i before st = Since before st.calls × AllValidated env i before st.outputs st.calls

IsBacked-IsKept :
    (env : Environment) (i : String) (before : List Call)
    → IsKept env i before (IsBacked env i before)
unfolding IsBacked keep save_outputs
IsBacked-IsKept env i before = record {
  since = λ st (h, _). h;
  asked =
      λ st c (h, j). (more c st.calls h, AllValidated-later env i before st.outputs c st.calls j);
  first = λ st s o j. j;
  accepted = λ st s o j. j;
  begun = λ st s r j. j;
  kept = λ st s phase o v (h, j). (h, AllValidated-put env i before s o st.outputs st.calls v j);
  saved = λ st j. j;
}

Leaves-ok :
    {A : Type 0} (Q : A → State → Type 0) (R : Exn → State → Type 0) (o : Outcome A) (a : A)
    (u : State)
    → Leaves Q R o
    → o ≡ some (ok a, u)
    → Q a u
Leaves-ok Q R o a u h e = rw e at h

-- What `run_incident` returns is a report of the state that it leaves.
run_incident-IsReport :
    (env : Environment) (fuel : ℕ) (inc : IncidentInput) (st u : State) (r : CoordinatorResult)
    → run_incident env fuel inc st ≡ some (ok r, u)
    → IsBacked env inc.incident_id st.calls u × IsReport env inc.incident_id st.calls r u
unfolding IsBacked AllValidated
run_incident-IsReport env fuel inc st u r h =
    Leaves-ok _ _ _ r u
      (run_incident-Leaves inc (IsBacked-IsKept env inc.incident_id st.calls) (anything env) fuel st
        (here, tt))
      h

-- If `run_incident` reports CLEAR, its last call opened the approval of the warrant that it reports
-- as pending, on a CLEAR verdict of the Magistrate that was validated (a citation of evidence is
-- given, and the citation authority confirmed it for this incident, during the run). If it reports another verdict,
-- it reports no pending warrant.
pub run_incident-IsOpened :
    (env : Environment) (fuel : ℕ) (inc : IncidentInput) (st u : State) (r : CoordinatorResult)
    → run_incident env fuel inc st ≡ some (ok r, u)
    → (r.verdict ≡ Verdict.clear → IsOpened env inc.incident_id st.calls r u.calls)
      × (r.verdict ≢ Verdict.clear → r.pending_warrant_id ≡ none)
run_incident-IsOpened env fuel inc st u r h =
    let (_, report) = run_incident-IsReport env fuel inc st u r h in
    (report.opened, report.unopened)

-- Whatever verdict `run_incident` reports, each output that it reports for a seat is of the seat's
-- class, names a valid remand target exactly when it remands, and cites evidence that the citation
-- authority confirmed for this incident during the run (for the seats other than the Bailiff).
pub run_incident-AllValidated :
    (env : Environment) (fuel : ℕ) (inc : IncidentInput) (st u : State) (r : CoordinatorResult)
    → run_incident env fuel inc st ≡ some (ok r, u)
    → AllValidated env inc.incident_id st.calls r.seat_outputs u.calls
unfolding IsBacked
run_incident-AllValidated env fuel inc st u r h =
    let ((_, backed), report) = run_incident-IsReport env fuel inc st u r h in
    rw report.outputs backed

-- If `run_incident` reports a failure, its verdict is ABSTAIN and, unless the reason is that the
-- escalations are exhausted, its last call told the authority to abstain for that reason, and the
-- authority accepted.
pub run_incident-IsAbstained :
    (env : Environment) (fuel : ℕ) (inc : IncidentInput) (st u : State) (r : CoordinatorResult)
    (reason : String)
    → run_incident env fuel inc st ≡ some (ok r, u)
    → r.failure_reason ≡ some reason
    → (r.verdict ≡ Verdict.abstain)
      × (reason ≢ "escalation_exhausted" → IsAbstained env inc.incident_id reason u.calls)
run_incident-IsAbstained env fuel inc st u r reason h f =
    let (_, report) = run_incident-IsReport env fuel inc st u r h in report.failed reason f

-- If the outputs that are saved for the incident were validated, what `resume_after_revision`
-- reports after a human's guidance keeps the promises of `run_incident`: outputs that are
-- validated, and CLEAR only with a warrant opened, by the last call, on a validated CLEAR verdict.
pub resume_after_revision-IsOpened :
    (env : Environment) (fuel : ℕ) (inc : IncidentInput) (st u : State) (r : CoordinatorResult)
    → AllValidated env inc.incident_id [] (resumed env inc st).outputs st.calls
    → resume_after_revision env fuel inc st ≡ some (ok r, u)
    → AllValidated env inc.incident_id [] r.seat_outputs u.calls
      × (r.verdict ≡ Verdict.clear → IsOpened env inc.incident_id [] r u.calls)
unfolding IsBacked resumed
resume_after_revision-IsOpened env fuel inc st u r v h =
    let ((_, backed), report) =
      Leaves-ok _ _ _ r u
        (resume_after_revision-Leaves inc (IsBacked-IsKept env inc.incident_id []) (anything env)
          fuel st (Since-all st.calls, v) tt)
        h in
    (rw report.outputs backed, report.opened)
