-- ===== src/Coordinator/Answers.antt =====
-- `run_incident` answers with a result.
use cross_patch.Prelude.{
  ℕ, String, ◌≡◌, ◌≢◌, ◌≤◌, refl, arith, true, none, some, List, Result, ok, err,
}
use cross_patch.Coordinator.Failures.{
  Exn, cancelled, failure, retry_failure_already_persisted, failure_reason,
}
use cross_patch.Coordinator.Outputs.{IncidentInput}
use cross_patch.Coordinator.Session.{Environment, State, Call, After}
use cross_patch.Coordinator.Verdicts.{
  CoordinatorResult, Outcome, run_incident, after_review, guarded, closed, fail_closed,
  report_failure, save_outputs, current_outputs,
}
use cross_patch.Coordinator.Contracts.{IsRaised, Left}
use cross_patch.Coordinator.Outcomes.{Leaves, resolve_from-Leaves, deliberate-Holds}
use cross_patch.Coordinator.Termination.{always}
use cross_patch.Coordinator.Returning.{methods-Settle}

-- No answer is a cancellation.
pub record IsUncancelled (env : Environment) : Type 0 where
  pub done : (cs : List Call) (c : Call) → env.answer_done cs c ≢ err cancelled
  pub seat : (cs : List Call) (c : Call) → env.answer_seat cs c ≢ err cancelled
  pub handoff : (cs : List Call) (c : Call) → env.answer_handoff cs c ≢ err cancelled
  pub text : (cs : List Call) (c : Call) → env.answer_text cs c ≢ err cancelled
  pub contained : (cs : List Call) (c : Call) → env.answer_contained cs c ≢ err cancelled

uncancelled-IsRaised : (env : Environment) → IsUncancelled env → IsRaised env (λ e. e ≢ cancelled)
uncancelled-IsRaised env w = record {
  done = λ cs c e h n. absurd (w.done cs c (rw n at h));
  seat = λ cs c e h n. absurd (w.seat cs c (rw n at h));
  handoff = λ cs c e h n. absurd (w.handoff cs c (rw n at h));
  text = λ cs c e h n. absurd (w.text cs c (rw n at h));
  contained = λ cs c e h n. absurd (w.contained cs c (rw n at h));
  failed = λ f h. absurd (cc h);
  refused = λ y h. absurd (cc h);
  duplicated = λ s e phase o h. absurd (cc h);
  others = λ t h. absurd (cc h);
}

abbrev Some : {A : Type 0} → A → State → Type 0
Some a st = Unit

abbrev Never : Exn → State → Type 0
Never e st = ⊥

module _ (env : Environment) (inc : IncidentInput)
    (told : (cs : List Call) (reason : String)
      → env.answer_done cs (Call.fail_closed_abstain inc.incident_id reason) ≡ ok tt) where
  fail_closed-After :
      (e : Exn) (st : State) → After Some Never (fail_closed env inc.incident_id e st)
  unfolding fail_closed report_failure save_outputs current_outputs
  fail_closed-After (failure retry_failure_already_persisted) st = tt
  fail_closed-After e st = rw (told st.calls (failure_reason e)) tt

  closed-returned :
      (Q : CoordinatorResult → State → Type 0) (p : Result Exn CoordinatorResult × State)
      → After Q (Left (λ _. Unit) (λ e. e ≢ cancelled)) p
      → After Some Never (closed env inc.incident_id p)
  unfolding closed
  closed-returned Q (ok r, st) h = tt
  closed-returned Q (err cancelled, st) (j, h) = absurd (h refl)
  closed-returned Q (err e, st) h = fail_closed-After e st

  guarded-returned :
      (Q : CoordinatorResult → State → Type 0) (o : Outcome CoordinatorResult)
      → Leaves Q (Left (λ _. Unit) (λ e. e ≢ cancelled)) o
      → Leaves Some Never (guarded env inc.incident_id o)
  unfolding guarded
  guarded-returned Q none h = tt
  guarded-returned Q (some p) h = closed-returned Q p h

  run_incident-returned :
      (st : State) (fuel : ℕ)
      → IsUncancelled env
      → env.answer_done st.calls (Call.begin_review inc.incident_id) ≡ ok tt
      → Leaves Some Never (run_incident env fuel inc st)
  unfolding run_incident after_review
  run_incident-returned st fuel w begun =
      let k = always env inc 0 in
      let x = uncancelled-IsRaised env w in
      rw (begun, after_review)
        (guarded-returned _ _
          (resolve_from-Leaves inc k x fuel _ ((deliberate-Holds inc k x).from _ tt)))

run-returned :
    (p : Result Exn CoordinatorResult × State)
    → After Some Never p
    → (r : CoordinatorResult) × (u : State) × (p ≡ (ok r, u))
run-returned (ok r, u) h = (r, u, refl)
run-returned (err e, u) h = absurd h

-- If no call is cancelled, the authority begins the review, and it accepts every abstention, then
-- `run_incident` answers with a result: a refusal, an invalid output, an exhausted escalation or
-- any other exception in the deliberation raises nothing.
pub run_incident-answers :
    (env : Environment) (inc : IncidentInput) (st : State)
    → IsUncancelled env
    → env.answer_done st.calls (Call.begin_review inc.incident_id) ≡ ok tt
    → ((cs : List Call) (reason : String)
        → env.answer_done cs (Call.fail_closed_abstain inc.incident_id reason) ≡ ok tt)
    → (r : CoordinatorResult) × (u : State) × ((fuel : ℕ)
        → 16 ≤ fuel
        → run_incident env fuel inc st ≡ some (ok r, u))
run_incident-answers env inc st w begun told =
    let (p, h) = (methods-Settle env inc true st).0 in
    let (r, u, e) =
      run-returned p
        (rw (h 16 (omega arith)) at (run_incident-returned env inc told st 16 w begun)) in
    (r, u, rw e at h)
