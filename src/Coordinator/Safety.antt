-- ===== src/Coordinator/Safety.antt =====
-- What the results of the coordinator's methods promise, whatever the runtime, the authority and
-- the citation authority answer.
use cross_patch.Prelude.{
  ℕ, ◌≡◌, ◌≢◌, refl, false, none, some, List, [], ◌∷◌, Result, ok, err, inl, inr, Result-cases,
}
use cross_patch.Domain.Enums.{Seat}
use cross_patch.Coordinator.Failures.{
  Exn, failure, cancelled, lookup_error, retry_failure_already_persisted, failure_reason, reason_of,
}
use cross_patch.Coordinator.Outputs.{SeatOutput, IncidentInput, SeatDict}
use cross_patch.Coordinator.Session.{Environment, State, Call, Holds, After, Holds->>=, ask}
use cross_patch.Coordinator.Verdicts.{
  CoordinatorResult, Outcome, save_outputs, current_outputs, report_failure, fail_closed, closed,
  guarded, after_review, run_incident,
}
use cross_patch.Coordinator.Resumption.{revise, resume_after_revision, resumed, when_resumable}
use cross_patch.Coordinator.Contracts.{IsRaised, IsKept, Left, ask-Holds, weaken}
use cross_patch.Coordinator.Rounds.{run_seat-Holds, escalate-Holds}
use cross_patch.Coordinator.Outcomes.{
  IsAbstained, Leaves, Ruled, Reports, resolve_from-Leaves, deliberate-Holds, turn-Holds,
  as_magistrate-Holds,
}

module _ {env : Environment} (inc : IncidentInput) {before : List Call} {J : State → Type 0}
    {X : Exn → Type 0} (k : IsKept env inc.incident_id before J) (x : IsRaised env X) where
  -- Once the failure is reported.
  abbrev Reported : Exn → State → Type 0
  Reported e st =
      J st
      × (failure_reason e ≢ "escalation_exhausted"
          → IsAbstained env inc.incident_id (failure_reason e) st.calls)

  told-Holds :
      (e : Exn)
      → Holds J
          (ask env.answer_done (Call.fail_closed_abstain inc.incident_id (failure_reason e)))
          (λ _. Reported e)
          (Left J X)
  told-Holds e = record {
    from = λ st j.
        elim (Result-cases (
          env.answer_done st.calls (Call.fail_closed_abstain inc.incident_id (failure_reason e)))) [
            | inl (a, h) ↦
                rw h (k.asked st _ j, λ _. record { earlier = st.calls; last = refl; answer = h })
            | inr (y, h) ↦ rw h (k.asked st _ j, x.done st.calls _ y h)
          ];
  }

  report_failure-Holds :
      (e : Exn) → Holds J (report_failure env inc.incident_id e) (λ _. Reported e) (Left J X)
  unfolding report_failure failure_reason reason_of
  report_failure-Holds (failure retry_failure_already_persisted) = record {
    from = λ st j. (j, λ n. absurd (n refl));
  }
  report_failure-Holds e = told-Holds e

  fail_closed-Holds :
      (e : Exn) → Holds J (fail_closed env inc.incident_id e) (Reports inc k x) (Left J X)
  unfolding fail_closed save_outputs current_outputs
  fail_closed-Holds e = Holds->>= (report_failure-Holds e) (λ _. record {
    from = λ st (j, told). (
      k.saved st j,
      record {
        outputs = refl;
        opened = λ h. absurd (cc h);
        unopened = λ _. refl;
        failed = λ reason h. let same : failure_reason e ≡ reason = cc in (refl, rw same at told);
      },
    );
  })

  closed-After :
      (p : Result Exn CoordinatorResult × State)
      → After (Reports inc k x) (Left J X) p
      → After (Reports inc k x) (Left J X) (closed env inc.incident_id p)
  unfolding closed
  closed-After (ok r, st) h = h
  closed-After (err cancelled, st) h = h
  closed-After (err e, st) (j, _) = (fail_closed-Holds e).from st j

  guarded-Leaves :
      (o : Outcome CoordinatorResult)
      → Leaves (Reports inc k x) (Left J X) o
      → Leaves (Reports inc k x) (Left J X) (guarded env inc.incident_id o)
  unfolding guarded
  guarded-Leaves none h = tt
  guarded-Leaves (some p) h = closed-After p h

  after_review-Leaves :
      (fuel : ℕ) (p : Result Exn (Unit {0}) × State)
      → After (λ _. J) (Left J X) p
      → Leaves (Reports inc k x) (Left J X) (after_review env fuel inc p)
  unfolding after_review
  after_review-Leaves fuel (ok _, st) j =
      guarded-Leaves _ (resolve_from-Leaves inc k x fuel _ ((deliberate-Holds inc k x).from st j))
  after_review-Leaves fuel (err e, st) h = h

  pub run_incident-Leaves :
      (fuel : ℕ) (st : State)
      → J (record st { outputs = [] })
      → Leaves (Reports inc k x) (Left J X) (run_incident env fuel inc st)
  unfolding run_incident
  run_incident-Leaves fuel st j =
      after_review-Leaves fuel _ ((ask-Holds k x env.answer_done _ x.done).from _ j)

  revise-Holds : Holds J (revise env inc) (Ruled inc k x) (Left J X)
  unfolding revise
  revise-Holds = Holds->>= (ask-Holds k x env.answer_done _ x.done) (λ _.
      Holds->>= (weaken k x (escalate-Holds inc k x Seat.counsel _ _) (λ o st (j, v). j)) (λ _.
        Holds->>= (turn-Holds inc k x Seat.prosecutor _) (λ _.
          Holds->>= (run_seat-Holds inc k x Seat.magistrate _ none false)
            (as_magistrate-Holds inc k x))))

  when_resumable-Leaves :
      (outputs : SeatDict SeatOutput) (st : State) (o : Outcome CoordinatorResult)
      → Left J X lookup_error st
      → Leaves (Reports inc k x) (Left J X) o
      → Leaves (Reports inc k x) (Left J X) (when_resumable env outputs st o)
  unfolding when_resumable
  when_resumable-Leaves [] st o r h = r
  when_resumable-Leaves (_ ∷ _) st o r h = h

  pub resume_after_revision-Leaves :
      (fuel : ℕ) (st : State)
      → J (resumed env inc st)
      → X lookup_error
      → Leaves (Reports inc k x) (Left J X) (resume_after_revision env fuel inc st)
  unfolding resume_after_revision
  resume_after_revision-Leaves fuel st j r =
      when_resumable-Leaves _ _ _ (j, r)
        (guarded-Leaves _ (resolve_from-Leaves inc k x fuel _ (revise-Holds.from _ j)))
