-- ===== src/Coordinator/Approvals.antt =====
-- `resume_after_approval` runs what a human approved.
use cross_patch.Prelude.{
  String, ◌≡◌, refl, Option, none, some, List, ◌∷◌, Result, ok, err, inl, inr, ◌⊎◌, Result-cases,
  Bool-cases, str_eq, eq_iff,
}
use cross_patch.Coordinator.Failures.{Exn}
use cross_patch.Coordinator.Outputs.{BailiffOutput, bailiff_output}
use cross_patch.Coordinator.Session.{
  Environment, State, Call, Holds, Holds->>=, ask, Returned, structured,
}
use cross_patch.Coordinator.Resumption.{resume_after_approval, required_approval, same_warrant}

-- The approval was asked for, given, and then executed with its reference; nothing else was called.
pub record IsExecuted (env : Environment) (i warrant : String) (before after : List Call)
    : Type 0 where
  pub reference : String
  pub calls :
      after
      ≡ Call.execute_approved_warrant i warrant reference ∷ Call.approved_warrant i warrant ∷ before
  pub approval : env.answer_reference before (Call.approved_warrant i warrant) ≡ ok (some reference)

module _ (env : Environment) (i warrant : String) (before : List Call) where
  -- The approval was asked for, and `found` was the answer.
  abbrev Asked : Option String → State → Type 0
  Asked found u =
      (u.calls ≡ Call.approved_warrant i warrant ∷ before)
      × (env.answer_reference before (Call.approved_warrant i warrant) ≡ ok found)

  abbrev Executed : State → Type 0
  Executed u = IsExecuted env i warrant before u.calls

  abbrev Gated : Exn → State → Type 0
  Gated e u = (u.calls ≡ Call.approved_warrant i warrant ∷ before) ⊎ Executed u

  ask_approval-Holds :
      Holds
        (λ u. u.calls ≡ before)
        (ask env.answer_reference (Call.approved_warrant i warrant))
        Asked
        Gated
  ask_approval-Holds = record {
    from = λ st j.
        elim (Result-cases (env.answer_reference st.calls (Call.approved_warrant i warrant))) [
          | inl (found, e) ↦ rw e (rw j refl, rw j at e)
          | inr (y, e) ↦ rw e (inl (rw j refl))
        ];
  }

  required_approval-Holds :
      (found : Option String)
      → Holds
          (Asked found)
          (required_approval env found)
          (λ reference. Asked (some reference))
          Gated
  unfolding required_approval
  required_approval-Holds none = record { from = λ st (a, e). inl a }
  required_approval-Holds (some reference) = record { from = λ st j. j }

  execute-Holds :
      (reference : String)
      → Holds
          (Asked (some reference))
          (ask env.answer_seat (Call.execute_approved_warrant i warrant reference))
          (λ _. Executed)
          Gated
  execute-Holds reference = record {
    from = λ st (a, e).
        let done : IsExecuted env i warrant before
            (Call.execute_approved_warrant i warrant reference ∷ st.calls) =
          record { reference = reference; calls = rw a refl; approval = e } in
        elim (Result-cases
          (env.answer_seat st.calls (Call.execute_approved_warrant i warrant reference))) [
            | inl (r, h) ↦ rw h done
            | inr (y, h) ↦ rw h (inr done)
          ];
  }

  same_warrant-Holds :
      (r : Returned)
      → Holds Executed
          (same_warrant env warrant r)
          (λ o u. (o.warrant_id ≡ warrant) × Executed u)
          Gated
  unfolding same_warrant
  same_warrant-Holds (structured (bailiff_output o)) = record {
    from = λ st j. elim (Bool-cases (str_eq o.warrant_id warrant)) [
      | inl e ↦ rw (e, same_warrant) ((eq_iff o.warrant_id warrant).0 e, j)
      | inr e ↦ rw (e, same_warrant) (inr j)
    ];
  }
  same_warrant-Holds _ = record { from = λ st j. inr j }

  resume_after_approval-Holds :
      Holds
        (λ u. u.calls ≡ before)
        (resume_after_approval env i warrant)
        (λ o u. (o.warrant_id ≡ warrant) × Executed u)
        Gated
  unfolding resume_after_approval
  resume_after_approval-Holds = Holds->>= ask_approval-Holds (λ found.
      Holds->>= (required_approval-Holds found)
        (λ reference. Holds->>= (execute-Holds reference) same_warrant-Holds))

-- Whatever `resume_after_approval` returns or raises, the Bailiff runs only if the authority answered
-- with the reference of an approval for this warrant, and otherwise the authority is asked and
-- nothing else is called. If it returns, the Bailiff ran, and named this warrant.
pub resume_after_approval-IsExecuted :
    (env : Environment) (i warrant : String) (st u : State) (answer : Result Exn BailiffOutput)
    → resume_after_approval env i warrant st ≡ (answer, u)
    → ((u.calls ≡ Call.approved_warrant i warrant ∷ st.calls)
        ⊎ IsExecuted env i warrant st.calls u.calls)
      × ((o : BailiffOutput)
          → answer ≡ ok o
          → (o.warrant_id ≡ warrant) × IsExecuted env i warrant st.calls u.calls)
resume_after_approval-IsExecuted env i warrant st u (ok o) h =
    let (same, done) =
      rw h at ((resume_after_approval-Holds env i warrant st.calls).from st refl) in
    (inr done, λ p e. let q : o ≡ p = cc in (rw q at same, done))
resume_after_approval-IsExecuted env i warrant st u (err y) h = (
  rw h at ((resume_after_approval-Holds env i warrant st.calls).from st refl),
  λ p e. absurd (cc e),
)
