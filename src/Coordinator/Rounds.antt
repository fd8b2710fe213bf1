-- ===== src/Coordinator/Rounds.antt =====
-- The invariants of `Contracts`, for each operation of a seat's turn.
use cross_patch.Prelude.{
  String, Bool, true, false, List, Option, none, some, Result, ok, err, inl, inr, Result-cases,
  if_elim,
}
use cross_patch.Domain.Enums.{Seat, Effort}
use cross_patch.Escalation
use cross_patch.Escalation.{Tracker, begin_escalation, accept_retry}
use cross_patch.Coordinator.Failures.{Exn, duplicate_attempt}
use cross_patch.Coordinator.Outputs.{SeatOutput, IncidentInput}
use cross_patch.Coordinator.Session.{
  Environment, State, Action, Call, Holds, After, Holds->>=, Holds-pure, structured, Handoff,
  handoff, no_handoff,
}
use cross_patch.Coordinator.SeatRuns.{
  on_tracker, read_tracker, keep, accept, publish_accepted, record_first, settle_output,
  selected_effort, run_seat, retry_exn, run_initial_handoff, both, begin, begun_exn,
  begin_unless_pending, reject_duplicate, retried, escalate,
}
use cross_patch.Coordinator.Contracts.{
  Validated, IsRaised, IsKept, Left, with_Validated, ask-Holds, pure-Holds, raise-Holds, Validates,
  validate-Holds, request-Holds,
}

-- An exception's postcondition is weakened.
forget :
    {A : Type 0} {J V : State → Type 0} {X : Exn → Type 0} {P : State → Type 0}
    {Q : A → State → Type 0} {m : Action A}
    → Holds P m Q (Left (λ st. J st × V st) X)
    → Holds P m Q (Left J X)
forget {A} {J} {V} {X} {Q = Q} {m = m} h = record { from = λ st p. go (m st) (h.from st p) }
  where
    go : (r : Result Exn A × State) → After Q (Left (λ st. J st × V st) X) r → After Q (Left J X) r
    go (ok a, u) q = q
    go (err e, u) ((j, v), r) = (j, r)

module _ {env : Environment} {i : String} {before : List Call} {J : State → Type 0}
    {X : Exn → Type 0} (k : IsKept env i before J) (x : IsRaised env X) where
  on_tracker-Holds :
      {A : Type 0} (f : Tracker → Result Escalation.Error A × Tracker)
      → ((st : State) → J st → J (record st { tracker = (f st.tracker).1 }))
      → Holds J (on_tracker f) (λ _. J) (Left J X)
  unfolding on_tracker
  on_tracker-Holds f h = record {
    from = λ st j. elim (Result-cases ((f st.tracker).0)) [
      | inl (a, e) ↦ rw (e, on_tracker) (h st j)
      | inr (y, e) ↦ rw (e, on_tracker) (h st j, x.refused y)
    ];
  }

  pub read_tracker-Holds :
      {A : Type 0} (f : Tracker → Result Escalation.Error A)
      → Holds J (read_tracker f) (λ _. J) (Left J X)
  unfolding read_tracker
  read_tracker-Holds f = record {
    from = λ st j. elim (Result-cases (f st.tracker)) [
      | inl (a, e) ↦ rw (e, read_tracker) j
      | inr (y, e) ↦ rw (e, read_tracker) (j, x.refused y)
    ];
  }

  record_first-Holds :
      (s : Seat) (o : SeatOutput) → Holds J (record_first env i s o) (λ _. J) (Left J X)
  unfolding record_first
  record_first-Holds s o = on_tracker-Holds _ (λ st j. k.first st s o j)

  retry_exn-raised :
      (s : Seat) (e : Effort) (phase : String) (o : SeatOutput) (y : Escalation.Error)
      → X (retry_exn (duplicate_attempt s e phase o) y)
  unfolding retry_exn
  retry_exn-raised s e phase o Escalation.duplicate_retry = x.duplicated s e phase o
  retry_exn-raised s e phase o y = x.refused y

  accept-Holds :
      (s : Seat) (e : Effort) (phase : String) (o : SeatOutput)
      → Holds J (accept env i s e phase o) (λ _. J) (Left J X)
  unfolding accept
  accept-Holds s e phase o = record {
    from = λ st j.
        elim (Result-cases ((accept_retry env.semantic_fingerprint i s o st.tracker).0)) [
          | inl (f, h) ↦ rw (h, accept) (k.accepted st s o j)
          | inr (y, h) ↦ rw (h, accept) (k.accepted st s o j, retry_exn-raised s e phase o y)
        ];
  }

  pub publish_accepted-Holds : (c : Call) → Holds J (publish_accepted env c) (λ _. J) (Left J X)
  unfolding publish_accepted
  publish_accepted-Holds c =
      if_elim (λ m. Holds {A = Unit} J m (λ _. J) (Left J X)) env.deferred_retry
        (λ _. ask-Holds k x env.answer_done c x.done) (λ _. pure-Holds k x tt)

  settle_output-Holds :
      (s : Seat) (e : Effort) (phase : String) (o : SeatOutput) (retry : Bool)
      → Holds J (settle_output env i s e phase o retry) (λ _. J) (Left J X)
  unfolding settle_output
  settle_output-Holds s e phase o false = record_first-Holds s o
  settle_output-Holds s e phase o true =
      Holds->>= (accept-Holds s e phase o) (λ _. publish_accepted-Holds _)

  pub selected_effort-Holds :
      (s : Seat) (effort : Option Effort)
      → Holds J (selected_effort env i s effort) (λ _. J) (Left J X)
  unfolding selected_effort
  selected_effort-Holds s none = read_tracker-Holds _
  selected_effort-Holds s (some e) = pure-Holds k x e

  keep-Holds :
      (s : Seat) (phase : String) (o : SeatOutput)
      → Holds
          (λ st. J st × Validated env i before s o st.calls)
          (keep env i s phase o)
          (λ _ st. J st × Validated env i before s o st.calls)
          (Left J X)
  unfolding keep
  keep-Holds s phase o = record { from = λ st (j, v). (k.kept st s phase o v j, v) }

module _ {env : Environment} (inc : IncidentInput) {before : List Call} {J : State → Type 0}
    {X : Exn → Type 0} (k : IsKept env inc.incident_id before J) (x : IsRaised env X) where
  pub run_seat-Holds :
      (s : Seat) (phase : String) (effort : Option Effort) (retry : Bool)
      → Validates k x s (run_seat env inc s phase effort retry)
  unfolding run_seat
  run_seat-Holds s phase effort retry = Holds->>= (selected_effort-Holds k x s effort) (λ e.
      Holds->>= (request-Holds k x inc phase) (λ input.
        Holds->>= (ask-Holds k x env.answer_seat _ x.seat) (λ returned.
          Holds->>= (validate-Holds k x s returned) (λ o.
            Holds->>= (forget (settle_output-Holds (with_Validated s o k) x s e phase o retry))
              (λ _. Holds->>= (keep-Holds k x s phase o) (λ _. Holds-pure o))))))

  both-Holds : (h : Handoff) → Holds J (both env h) (λ _. J) (Left J X)
  unfolding both
  both-Holds (handoff a b) = pure-Holds k x _
  both-Holds no_handoff = raise-Holds k x _ (x.failed _)

  pub run_initial_handoff-Holds : Holds J (run_initial_handoff env inc) (λ _. J) (Left J X)
  unfolding run_initial_handoff keep
  run_initial_handoff-Holds = Holds->>= (request-Holds k x inc _) (λ input.
      Holds->>= (read_tracker-Holds k x _) (λ e. Holds->>= (read_tracker-Holds k x _) (λ f.
        Holds->>= (ask-Holds k x env.answer_handoff _ x.handoff) (λ result.
          Holds->>= (both-Holds result) (λ (a, b).
            Holds->>= (validate-Holds k x Seat.inspector (structured a)) (λ ins.
              Holds->>=
                (forget (
                  validate-Holds (with_Validated Seat.inspector ins k) x Seat.prosecutor
                    (structured b)))
                (λ pro.
                  let both_kept =
                    with_Validated Seat.prosecutor pro (with_Validated Seat.inspector ins k) in
                  Holds->>= (forget (forget (record_first-Holds both_kept x Seat.inspector ins)))
                    (λ _.
                      Holds->>=
                        (forget (forget (record_first-Holds both_kept x Seat.prosecutor pro)))
                        (λ _. record {
                          from = λ st ((j, v), w).
                              k.kept _ Seat.prosecutor _ pro w (k.kept st Seat.inspector _ ins v j);
                        })))))))))

  begun_exn-raised : (y : Escalation.Error) → X (begun_exn y)
  unfolding begun_exn
  begun_exn-raised Escalation.escalation_exhausted = x.failed _
  begun_exn-raised y = x.refused y

  begin-Holds :
      (s : Seat) (reason : String)
      → Holds J (begin env inc.incident_id s reason) (λ _. J) (Left J X)
  unfolding begin
  begin-Holds s reason = record {
    from = λ st j. elim (Result-cases ((begin_escalation inc.incident_id s reason st.tracker).0)) [
      | inl (d, h) ↦
          rw (h, begin)
            ((Holds->>= (ask-Holds k x env.answer_done _ x.done) (λ _. pure-Holds k x d)).from _
              (k.begun st s reason j))
      | inr (y, h) ↦ rw (h, begin) (k.begun st s reason j, begun_exn-raised y)
    ];
  }

  reject_duplicate-After :
      (s : Seat) (reason : String) (r : Result Exn SeatOutput × State)
      → After (λ o st. J st × Validated env inc.incident_id before s o st.calls) (Left J X) r
      → After
          (λ o st. J st × Validated env inc.incident_id before s o st.calls)
          (Left J X)
          (reject_duplicate env inc.incident_id reason r)
  unfolding reject_duplicate
  reject_duplicate-After s reason (err (duplicate_attempt r e phase o), st) (j, y) =
      (Holds->>= (ask-Holds k x env.answer_done _ x.done)
          (λ _. raise-Holds k x _ (x.failed _))).from
        st j
  reject_duplicate-After s reason (ok o, st) h = h
  reject_duplicate-After s reason (err _, st) h = h

  pub begin_unless_pending-Holds :
      (s : Seat) (reason : String) (p : Option Escalation.EscalationDecision)
      → Holds J (begin_unless_pending env inc.incident_id s reason p) (λ _. J) (Left J X)
  unfolding begin_unless_pending
  begin_unless_pending-Holds s reason none = begin-Holds s reason
  begin_unless_pending-Holds s reason (some d) = pure-Holds k x d

  pub escalate-Holds :
      (s : Seat) (reason phase : String) → Validates k x s (escalate env inc s reason phase)
  unfolding escalate retried
  escalate-Holds s reason phase = Holds->>= (read_tracker-Holds k x _) (λ pending.
      Holds->>= (begin_unless_pending-Holds s reason pending) (λ d. record {
        from = λ st j.
            reject_duplicate-After s reason _
              ((run_seat-Holds s phase (some d.effort) true).from st j);
      }))
