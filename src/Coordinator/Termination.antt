-- ===== src/Coordinator/Termination.antt =====
-- The loop of `_resolve_verdict`: each round that returns takes from what the tracker allows.
use cross_patch.Prelude.{
  ℕ, suc, ◌<◌, String, ◌≡◌, true, false, none, some, [], arith, Result, ok, err, inl, inr,
  Result-cases,
}
use cross_patch.Domain.Enums.{Seat, Effort}
use cross_patch.Domain.Event.{is_remand_target}
use cross_patch.Escalation.{accept_retry}
use cross_patch.Coordinator.Failures.{Exn, duplicate_attempt}
use cross_patch.Coordinator.Outputs.{SeatOutput, MagistrateOutput, IncidentInput}
use cross_patch.Coordinator.Session.{
  Environment, State, Action, Holds, After, Holds->>=, Holds-pure,
}
use cross_patch.Coordinator.SeatRuns.{
  seat_call, keep, accept, settle_output, run_seat, reject_duplicate, retried, escalate,
}
use cross_patch.Coordinator.Verdicts.{save_outputs, remand_round}
use cross_patch.Coordinator.Measure.{
  allowance, record_initial-le, accept_retry-le, accept_retry-lt, begin_escalation-le,
}
use cross_patch.Coordinator.Contracts.{
  Since-all, IsRaised, IsKept, ask-Holds, raise-Holds, weaken, validate-Holds, request-Holds,
}
use cross_patch.Coordinator.Rounds.{
  publish_accepted-Holds, selected_effort-Holds, read_tracker-Holds, begin_unless_pending-Holds,
  run_seat-Holds,
}
use cross_patch.Coordinator.Outcomes.{
  checked_target-Holds, patch_again-Holds, turn-Holds, as_magistrate-Holds,
}

abbrev pub Any : Exn → Type 0
Any e = Unit

abbrev pub Whatever : Exn → State → Type 0
Whatever e st = Unit

pub anything : (env : Environment) → IsRaised env Any
anything env = record {
  done = λ cs c e h. tt;
  seat = λ cs c e h. tt;
  handoff = λ cs c e h. tt;
  text = λ cs c e h. tt;
  contained = λ cs c e h. tt;
  failed = λ f. tt;
  refused = λ y. tt;
  duplicated = λ s e phase o. tt;
  others = λ t. tt;
}

abbrev pub Under : String → ℕ → State → Type 0
Under i n st = allowance i st.tracker < n

Under-IsKept : (env : Environment) (i : String) (n : ℕ) → IsKept env i [] (Under i n)
unfolding keep save_outputs
Under-IsKept env i n = record {
  since = λ st j. Since-all st.calls;
  asked = λ st c j. j;
  first = λ st s o j. omega (arith, j, record_initial-le env.semantic_fingerprint i s o st.tracker);
  accepted =
      λ st s o j. omega (arith, j, accept_retry-le env.semantic_fingerprint i s o st.tracker);
  begun = λ st s r j. omega (arith, j, begin_escalation-le i s r st.tracker);
  kept = λ st s phase o v j. j;
  saved = λ st j. j;
}

-- Nothing is asked of an exception.
drop :
    {A : Type 0} {P : State → Type 0} {Q : A → State → Type 0} {R : Exn → State → Type 0}
    {m : Action A}
    → Holds P m Q R
    → Holds P m Q Whatever
drop {A} {Q = Q} {R = R} {m = m} h = record { from = λ st p. go (m st) (h.from st p) }
  where
    go : (r : Result Exn A × State) → After Q R r → After Q Whatever r
    go (ok a, u) q = q
    go (err e, u) q = tt

module _ (env : Environment) (inc : IncidentInput) (n : ℕ) where
  abbrev i : String
  i = inc.incident_id

  more : IsKept env i [] (Under i (suc n))
  more = Under-IsKept env i (suc n)

  less : IsKept env i [] (Under i n)
  less = Under-IsKept env i n

  pub always : IsKept env i [] (λ _. Unit)
  always = record {
    since = λ st j. Since-all st.calls;
    asked = λ st c j. tt;
    first = λ st s o j. tt;
    accepted = λ st s o j. tt;
    begun = λ st s r j. tt;
    kept = λ st s phase o v j. tt;
    saved = λ st j. tt;
  }

  x : IsRaised env Any
  x = anything env

  accept-lt :
      (s : Seat) (e : Effort) (phase : String) (o : SeatOutput)
      → is_remand_target s ≡ true
      → Holds (Under i (suc n)) (accept env i s e phase o) (λ _. Under i n) Whatever
  unfolding accept
  accept-lt s e phase o k = record {
    from = λ st j.
        elim (Result-cases ((accept_retry env.semantic_fingerprint i s o st.tracker).0)) [
          | inl (f, h) ↦
              rw (h, accept)
                (omega (arith, j, accept_retry-lt env.semantic_fingerprint i s o st.tracker f k h))
          | inr (y, h) ↦ rw (h, accept) tt
        ];
  }

  settle_output-lt :
      (s : Seat) (e : Effort) (phase : String) (o : SeatOutput)
      → is_remand_target s ≡ true
      → Holds (Under i (suc n)) (settle_output env i s e phase o true) (λ _. Under i n) Whatever
  unfolding settle_output
  settle_output-lt s e phase o t =
      Holds->>= (accept-lt s e phase o t) (λ _. drop (publish_accepted-Holds less x _))

  keep-lt :
      (s : Seat) (phase : String) (o : SeatOutput)
      → Holds (Under i n) (keep env i s phase o) (λ _. Under i n) Whatever
  unfolding keep
  keep-lt s phase o = record { from = λ st j. j }

  run_seat-lt :
      (s : Seat) (phase : String) (e : Effort)
      → is_remand_target s ≡ true
      → Holds (Under i (suc n)) (run_seat env inc s phase (some e) true) (λ _. Under i n) Whatever
  unfolding run_seat
  run_seat-lt s phase e t = Holds->>= (drop (selected_effort-Holds more x s (some e))) (λ e.
      Holds->>= (drop (request-Holds more x inc phase)) (λ input.
        Holds->>=
          (drop (ask-Holds more x env.answer_seat (seat_call env true s e phase input) x.seat))
          (λ returned.
            Holds->>= (drop (weaken more x (validate-Holds more x s returned) (λ o st (j, v). j)))
              (λ o.
                Holds->>= (settle_output-lt s e phase o t)
                  (λ _. Holds->>= (keep-lt s phase o) (λ _. Holds-pure o))))))

  reject_duplicate-lt :
      (reason : String) (r : Result Exn SeatOutput × State)
      → After (λ _. Under i n) Whatever r
      → After (λ _. Under i n) Whatever (reject_duplicate env i reason r)
  unfolding reject_duplicate
  reject_duplicate-lt reason (err (duplicate_attempt r e phase o), st) h =
      (Holds->>= (drop (ask-Holds always x env.answer_done _ x.done))
          (λ _. drop (raise-Holds always x _ tt))).from
        st tt
  reject_duplicate-lt reason (ok o, st) h = h
  reject_duplicate-lt reason (err _, st) h = h

  escalate-lt :
      (s : Seat) (reason phase : String)
      → is_remand_target s ≡ true
      → Holds (Under i (suc n)) (escalate env inc s reason phase) (λ _. Under i n) Whatever
  unfolding escalate retried
  escalate-lt s reason phase t = Holds->>= (drop (read_tracker-Holds more x _)) (λ pending.
      Holds->>= (drop (begin_unless_pending-Holds inc more x s reason pending)) (λ d. record {
        from = λ st j. reject_duplicate-lt reason _ ((run_seat-lt s phase d.effort t).from st j);
      }))

  pub remand_round-lt :
      (m : MagistrateOutput)
      → Holds (Under i (suc n)) (remand_round env inc m) (λ _. Under i n) Whatever
  unfolding remand_round
  remand_round-lt m = Holds->>= (drop (ask-Holds more x env.answer_done _ x.done)) (λ _.
      Holds->>= (drop (checked_target-Holds inc more x m.remand_target)) (λ target.
        Holds->>= (record { from = λ st (j, t). (escalate-lt target _ _ t).from st j })
          (λ _. Holds->>= (drop (patch_again-Holds inc less x target)) (λ _.
            Holds->>= (drop (turn-Holds inc less x Seat.prosecutor _)) (λ _.
              Holds->>= (drop (run_seat-Holds inc less x Seat.magistrate _ none false)) (λ o.
                drop (weaken less x (as_magistrate-Holds inc less x o) (λ m st (j, v). j))))))))
