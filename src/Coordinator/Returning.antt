-- ===== src/Coordinator/Returning.antt =====
-- Every method of the coordinator that resolves a verdict returns.
use cross_patch.Prelude.{
  ℕ, zero, suc, ◌≤◌, ◌≡◌, refl, Bool, true, false, some, [], ◌∷◌, arith, Result, ok, err, inl, inr,
  if◌then◌else◌, Bool-cases,
}
use cross_patch.Coordinator.Failures.{Exn}
use cross_patch.Coordinator.Outputs.{SeatOutput, MagistrateOutput, IncidentInput, SeatDict}
use cross_patch.Coordinator.Session.{Environment, State, After}
use cross_patch.Coordinator.Verdicts.{
  CoordinatorResult, Outcome, is_remand, on_round, remand_round, resolve_verdict, resolve_from,
  guarded, finish_verdict, closed, after_review, run_incident,
}
use cross_patch.Coordinator.Termination.{Under, Whatever, remand_round-lt}
use cross_patch.Coordinator.Resumption.{
  resume_after_test, resume_after_revision, when_resumable, resumed, revise,
}
use cross_patch.Coordinator.Measure.{allowance_bound}

-- With fuel from `n` on, the run comes to an end, always the same.
abbrev pub Settles : ℕ → (ℕ → Outcome CoordinatorResult) → Type 0
Settles n f = (p : Result Exn CoordinatorResult × State) × ((fuel : ℕ) → n ≤ fuel → f fuel ≡ some p)

module _ (env : Environment) (inc : IncidentInput) where
  on_round-Settles :
      (n : ℕ) (f : ℕ → MagistrateOutput → State → Outcome CoordinatorResult)
      → ((m : MagistrateOutput) (st : State)
          → Under inc.incident_id n st
          → Settles n (λ fuel. f fuel m st))
      → (p : Result Exn MagistrateOutput × State) → After (λ _. Under inc.incident_id n) Whatever p
      → Settles n (λ fuel. on_round (f fuel) p)
  unfolding on_round
  on_round-Settles n f h (ok m, st) j = h m st j
  on_round-Settles n f h (err e, st) j = (_, λ fuel b. refl)

  -- One more round.
  with_round :
      (n : ℕ) (m : MagistrateOutput) (st : State)
      → is_remand m ≡ true
      → Settles n (λ fuel. on_round (resolve_verdict env fuel inc) (remand_round env inc m st))
      → Settles (suc n) (λ fuel. resolve_verdict env fuel inc m st)
  unfolding resolve_verdict
  with_round n m st e (p, h) = (p, λ fuel b. again fuel b)
    where
      again : (fuel : ℕ) → suc n ≤ fuel → resolve_verdict env fuel inc m st ≡ some p
      again zero b = absurd (omega (arith, b))
      again (suc fuel) b = rw (e, resolve_verdict) (h fuel (omega (arith, b)))

  without_round :
      (n : ℕ) (m : MagistrateOutput) (st : State)
      → is_remand m ≡ false
      → Settles (suc n) (λ fuel. resolve_verdict env fuel inc m st)
  unfolding resolve_verdict
  without_round n m st e = (finish_verdict env inc m st, λ fuel b. again fuel b)
    where
      again :
          (fuel : ℕ)
          → suc n ≤ fuel
          → resolve_verdict env fuel inc m st ≡ some (finish_verdict env inc m st)
      again zero b = absurd (omega (arith, b))
      again (suc fuel) b = rw (e, resolve_verdict) refl

  resolve_verdict-Settles :
      (n : ℕ) (m : MagistrateOutput) (st : State)
      → Under inc.incident_id n st
      → Settles n (λ fuel. resolve_verdict env fuel inc m st)
  resolve_verdict-Settles zero m st j = absurd (omega (arith, j))
  resolve_verdict-Settles (suc n) m st j = elim (Bool-cases (is_remand m)) [
    | inl e ↦ with_round n m st e (
        on_round-Settles n (λ fuel. resolve_verdict env fuel inc) (resolve_verdict-Settles n) _
          ((remand_round-lt env inc n m).from st j))
    | inr e ↦ without_round n m st e
  ]

  guarded-Settles :
      (p : Result Exn MagistrateOutput × State)
      → Settles 16 (λ fuel. guarded env inc.incident_id (resolve_from env fuel inc p))
  unfolding guarded resolve_from on_round
  guarded-Settles (err e, st) = (_, λ fuel b. refl)
  guarded-Settles (ok m, st) =
      let (p, h) = resolve_verdict-Settles 16 m st (allowance_bound inc.incident_id st.tracker) in
      (closed env inc.incident_id p, λ fuel b. rw (h fuel b, guarded) refl)

  after_review-Settles :
      (p : Result Exn (Unit {0}) × State) → Settles 16 (λ fuel. after_review env fuel inc p)
  unfolding after_review
  after_review-Settles (ok _, st) = guarded-Settles _
  after_review-Settles (err e, st) = (_, λ fuel b. refl)

  when_resumable-Settles :
      (outputs : SeatDict SeatOutput) (st : State) (f : ℕ → Outcome CoordinatorResult)
      → Settles 16 f
      → Settles 16 (λ fuel. when_resumable env outputs st (f fuel))
  unfolding when_resumable
  when_resumable-Settles [] st f h = (_, λ fuel b. refl)
  when_resumable-Settles (_ ∷ _) st f h = h

  unless_passed-Settles :
      (passed : Bool) (q : Result Exn CoordinatorResult × State) (f : ℕ → Outcome CoordinatorResult)
      → Settles 16 f
      → Settles 16 (λ fuel. if passed then some q else f fuel)
  unless_passed-Settles true q f h = (q, λ fuel b. refl)
  unless_passed-Settles false q f h = h

-- Whatever the runtime, the authority and the citation authority answer, and whatever the tracker
-- holds, the three methods that resolve a verdict return or raise: the loop over remands is left
-- after at most sixteen tests, and no more fuel than that changes anything.
pub methods-Settle :
    (env : Environment) (inc : IncidentInput) (test_passed : Bool) (st : State)
    → Settles 16 (λ fuel. run_incident env fuel inc st)
      × Settles 16 (λ fuel. resume_after_test env fuel inc test_passed st)
      × Settles 16 (λ fuel. resume_after_revision env fuel inc st)
unfolding run_incident resume_after_test resume_after_revision
methods-Settle env inc test_passed st = (
  after_review-Settles env inc _,
  when_resumable-Settles env inc (resumed env inc st).outputs (resumed env inc st) _
      (unless_passed-Settles env inc test_passed _ _ (guarded-Settles env inc _)),
  when_resumable-Settles env inc (resumed env inc st).outputs (resumed env inc st) _
      (guarded-Settles env inc (revise env inc (resumed env inc st))),
)
