-- ===== src/Coordinator/Outcomes.antt =====
-- The invariants of `Contracts`, for a deliberation up to its result.
use cross_patch.Prelude.{
  ℕ, zero, suc, String, ◌≡◌, ◌≢◌, refl, true, false, Option, none, some, List, ◌∷◌, Result, ok, err,
  inl, inr, Result-cases, if_elim, Bool-cases,
}
use cross_patch.Domain.Enums.{Seat, Verdict}
use cross_patch.Domain.Event.{is_remand_target}
use cross_patch.Coordinator.Failures.{Exn}
use cross_patch.Coordinator.Outputs.{SeatOutput, magistrate_output, MagistrateOutput, IncidentInput}
use cross_patch.Coordinator.Session.{
  Environment, State, Call, Holds, After, Holds->>=, Holds-pure, pure, ask, then_do,
}
use cross_patch.Coordinator.SeatRuns.{run_seat}
use cross_patch.Coordinator.Verdicts.{
  CoordinatorResult, Outcome, as_magistrate, deliver, checked_target, save_outputs, is_remand,
  on_round, patch_again, remand_round, finish_verdict, resolve_verdict, resolve_from, deliberate,
}
use cross_patch.Coordinator.Contracts.{
  Validated, IsRaised, IsKept, Left, ask-Holds, pure-Holds, raise-Holds, weaken,
}
use cross_patch.Coordinator.Rounds.{run_seat-Holds, run_initial_handoff-Holds, escalate-Holds}

-- A warrant was opened, as the last call, on a verdict of the Magistrate that is CLEAR and was
-- validated after the calls of `before`, with the outputs that are reported.
pub record IsOpened (env : Environment) (i : String) (before : List Call) (r : CoordinatorResult)
    (cs : List Call) : Type 0 where
  pub ruling : MagistrateOutput
  pub warrant : String
  pub earlier : List Call
  pub last : cs ≡ Call.open_approval i ruling r.seat_outputs ∷ earlier
  pub answer : env.answer_text earlier (Call.open_approval i ruling r.seat_outputs) ≡ ok warrant
  pub pending : r.pending_warrant_id ≡ some warrant
  pub clear : ruling.verdict ≡ Verdict.clear
  pub validated : Validated env i before Seat.magistrate (magistrate_output ruling) earlier

-- The authority was told, by the last call, that the incident ends in ABSTAIN for this reason.
pub record IsAbstained (env : Environment) (i reason : String) (cs : List Call) : Type 0 where
  pub earlier : List Call
  pub last : cs ≡ Call.fail_closed_abstain i reason ∷ earlier
  pub answer : env.answer_done earlier (Call.fail_closed_abstain i reason) ≡ ok tt

-- What a result says of the state that it is returned in.
pub record IsReport (env : Environment) (i : String) (before : List Call) (r : CoordinatorResult)
    (st : State) : Type 0 where
  pub outputs : r.seat_outputs ≡ st.outputs
  pub opened : r.verdict ≡ Verdict.clear → IsOpened env i before r st.calls
  pub unopened : r.verdict ≢ Verdict.clear → r.pending_warrant_id ≡ none
  pub failed :
      (reason : String)
      → r.failure_reason ≡ some reason
      → (r.verdict ≡ Verdict.abstain)
        × (reason ≢ "escalation_exhausted" → IsAbstained env i reason st.calls)

-- What holds of what a run leaves, if its fuel is enough.
abbrev pub Leaves :
    {A : Type 0} → (A → State → Type 0) → (Exn → State → Type 0) → Outcome A → Type 0
Leaves Q R none = Unit
Leaves Q R (some p) = After Q R p

module _ {env : Environment} (inc : IncidentInput) {before : List Call} {J : State → Type 0}
    {X : Exn → Type 0} (k : IsKept env inc.incident_id before J) (x : IsRaised env X) where
  abbrev pub Ruled : MagistrateOutput → State → Type 0
  Ruled m st =
      J st × Validated env inc.incident_id before Seat.magistrate (magistrate_output m) st.calls

  pub as_magistrate-Holds :
      (o : SeatOutput)
      → Holds
          (λ st. J st × Validated env inc.incident_id before Seat.magistrate o st.calls)
          (as_magistrate o)
          Ruled
          (Left J X)
  unfolding as_magistrate
  as_magistrate-Holds (magistrate_output m) = Holds-pure m
  as_magistrate-Holds _ = record { from = λ st (j, v). (j, x.failed _) }

  -- The invariant after a seat's turn.
  pub turn-Holds :
      (s : Seat) (phase : String)
      → Holds J (run_seat env inc s phase none false) (λ _. J) (Left J X)
  turn-Holds s phase = weaken k x (run_seat-Holds inc k x s phase none false) (λ o st (j, v). j)

  pub checked_target-Holds :
      (t : Option Seat)
      → Holds J (checked_target t) (λ s st. J st × (is_remand_target s ≡ true)) (Left J X)
  unfolding checked_target
  checked_target-Holds none = raise-Holds k x _ (x.failed _)
  checked_target-Holds (some t) =
      if_elim (λ m. Holds J m (λ s st. J st × (is_remand_target s ≡ true)) (Left J X))
        (is_remand_target t) (λ h. record { from = λ st j. (j, h) })
        (λ _. raise-Holds k x _ (x.failed _))

  pub patch_again-Holds : (s : Seat) → Holds J (patch_again env inc s) (λ _. J) (Left J X)
  unfolding patch_again
  patch_again-Holds Seat.counsel = pure-Holds k x tt
  patch_again-Holds _ = Holds->>= (turn-Holds Seat.counsel _) (λ _. pure-Holds k x tt)

  pub remand_round-Holds :
      (m : MagistrateOutput) → Holds J (remand_round env inc m) Ruled (Left J X)
  unfolding remand_round
  remand_round-Holds m = Holds->>= (ask-Holds k x env.answer_done _ x.done) (λ _.
      Holds->>= (weaken k x (checked_target-Holds m.remand_target) (λ s st (j, h). j)) (λ target.
        Holds->>= (weaken k x (escalate-Holds inc k x target _ _) (λ o st (j, v). j)) (λ _.
          Holds->>= (patch_again-Holds target) (λ _. Holds->>= (turn-Holds Seat.prosecutor _) (λ _.
            Holds->>= (run_seat-Holds inc k x Seat.magistrate _ none false) as_magistrate-Holds)))))

  pub deliberate-Holds : Holds J (deliberate env inc) Ruled (Left J X)
  unfolding deliberate
  deliberate-Holds = Holds->>= (run_initial_handoff-Holds inc k x) (λ _.
      Holds->>= (turn-Holds Seat.inspector _) (λ _. Holds->>= (turn-Holds Seat.counsel _) (λ _.
        Holds->>= (turn-Holds Seat.prosecutor _) (λ _.
          Holds->>= (run_seat-Holds inc k x Seat.magistrate _ none false) as_magistrate-Holds))))

  abbrev pub Reports : CoordinatorResult → State → Type 0
  Reports r st = J st × IsReport env inc.incident_id before r st

  opened-After :
      (m : MagistrateOutput) (st : State)
      → m.verdict ≡ Verdict.clear
      → Ruled m st
      → After Reports (Left J X) (deliver env inc m st.outputs Verdict.clear st)
  unfolding deliver
  opened-After m st c (j, v) =
      elim (Result-cases
        (env.answer_text st.calls (Call.open_approval inc.incident_id m st.outputs))) [
          | inl (w, e) ↦ rw e (
            k.asked st _ j,
            record {
              outputs = refl;
              opened = λ _. record {
                ruling = m;
                warrant = w;
                earlier = st.calls;
                last = refl;
                answer = e;
                pending = refl;
                clear = c;
                validated = v;
              };
              unopened = λ n. absurd (n refl);
              failed = λ reason h. absurd (cc h);
            },
          )
          | inr (y, e) ↦ rw e (k.asked st _ j, x.text st.calls _ y e)
        ]

  recorded-After :
      (m : MagistrateOutput) (st : State) (v : Verdict)
      → v ≢ Verdict.clear
      → J st
      → After Reports (Left J X) (
          then_do
            (λ _. pure (record {
              verdict = v;
              seat_outputs = st.outputs;
              pending_warrant_id = none;
              failure_reason = none;
            }))
            (ask env.answer_done (Call.record_verdict inc.incident_id m) st))
  recorded-After m st v n j =
      elim (Result-cases (env.answer_done st.calls (Call.record_verdict inc.incident_id m))) [
        | inl (w, e) ↦ rw e (
          k.asked st _ j,
          record {
            outputs = refl;
            opened = λ h. absurd (n h);
            unopened = λ _. refl;
            failed = λ reason h. absurd (cc h);
          },
        )
        | inr (y, e) ↦ rw e (k.asked st _ j, x.done st.calls _ y e)
      ]

  deliver-After :
      (m : MagistrateOutput) (st : State) (v : Verdict)
      → m.verdict ≡ v
      → Ruled m st
      → After Reports (Left J X) (deliver env inc m st.outputs v st)
  unfolding deliver
  deliver-After m st Verdict.clear c r = opened-After m st c r
  deliver-After m st Verdict.remand c (j, _) = recorded-After m st _ (λ h. absurd (cc h)) j
  deliver-After m st Verdict.block c (j, _) = recorded-After m st _ (λ h. absurd (cc h)) j
  deliver-After m st Verdict.abstain c (j, _) = recorded-After m st _ (λ h. absurd (cc h)) j

  finish_verdict-After :
      (m : MagistrateOutput) (st : State)
      → Ruled m st
      → After Reports (Left J X) (finish_verdict env inc m st)
  unfolding finish_verdict save_outputs
  finish_verdict-After m st (j, v) = deliver-After m _ m.verdict refl (k.saved st j, v)

  -- A round that returns goes on.
  on_round-Leaves :
      (f : MagistrateOutput → State → Outcome CoordinatorResult)
      → ((m : MagistrateOutput) (st : State) → Ruled m st → Leaves Reports (Left J X) (f m st))
      → (p : Result Exn MagistrateOutput × State) → After Ruled (Left J X) p
      → Leaves Reports (Left J X) (on_round f p)
  unfolding on_round
  on_round-Leaves f h (ok m, st) r = h m st r
  on_round-Leaves f h (err e, st) r = r

  pub resolve_verdict-Leaves :
      (fuel : ℕ) (m : MagistrateOutput) (st : State)
      → Ruled m st
      → Leaves Reports (Left J X) (resolve_verdict env fuel inc m st)
  unfolding resolve_verdict
  resolve_verdict-Leaves zero m st r = tt
  resolve_verdict-Leaves (suc fuel) m st (j, v) = elim (Bool-cases (is_remand m)) [
    | inl e ↦
        rw (e, resolve_verdict)
          (on_round-Leaves _ (resolve_verdict-Leaves fuel) _ ((remand_round-Holds m).from st j))
    | inr e ↦ rw (e, resolve_verdict) (finish_verdict-After m st (j, v))
  ]

  pub resolve_from-Leaves :
      (fuel : ℕ) (p : Result Exn MagistrateOutput × State)
      → After Ruled (Left J X) p
      → Leaves Reports (Left J X) (resolve_from env fuel inc p)
  unfolding resolve_from
  resolve_from-Leaves fuel p h = on_round-Leaves _ (resolve_verdict-Leaves fuel) p h
