-- ===== src/Coordinator/Contracts.antt =====
-- What every step of the coordinator keeps: an invariant that the calls, the tracker's methods and
-- the recording of validated outputs keep is kept by each of its operations.
use cross_patch.Prelude.{
  String, ◌≡◌, ◌≢◌, refl, Bool, true, false, not, List, [], ◌∷◌, Result, ok, err, inl, inr,
  Result-cases, if_elim, arith,
}
use cross_patch.Domain.Enums.{Seat, Effort, seat_eq}
use cross_patch.Escalation
use cross_patch.Escalation.{record_initial, accept_retry, begin_escalation}
use cross_patch.Escalation.Invariant.{seat_eq→≡}
use cross_patch.Coordinator.Failures.{
  Exn, failure, tracker_error, duplicate_attempt, other, OrchestrationFailure,
}
use cross_patch.Coordinator.Outputs.{
  SeatOutput, seat_of_output, evidence_ids, IncidentInput, is_accepted,
}
use cross_patch.Coordinator.Session.{
  Environment, State, Action, pure, raise, ask, Call, Returned, structured, mapping, something,
  Holds, After,
}
use cross_patch.Coordinator.Checks.{
  answered, cite, has_valid_remand, check_citations, validate, request, run_input,
}
use cross_patch.Coordinator.SeatRuns.{keep}
use cross_patch.Coordinator.Verdicts.{save_outputs}

-- The calls are those made before and any made since.
pub data Since (before : List Call) : List Call → Type 0 where
  here : Since before before
  more : (c : Call) (cs : List Call) → Since before cs → Since before (c ∷ cs)

pub Since-all : (cs : List Call) → Since [] cs
Since-all [] = here
Since-all (c ∷ cs) = more c cs (Since-all cs)

-- The citation authority was asked, in a call made after those of `before`, and answered that the
-- incident has all of this evidence.
pub data Cited (env : Environment) (i : String) (before : List Call) (ids : List String)
    : List Call → Type 0 where
  now :
      (cs : List Call)
      → Since before cs
      → env.answer_contained cs (Call.contains_all i ids) ≡ ok true
      → Cited env i before ids (Call.contains_all i ids ∷ cs)
  later : (c : Call) (cs : List Call) → Cited env i before ids cs → Cited env i before ids (c ∷ cs)

-- The output is the seat's, names a remand target exactly when it remands, and cites evidence
-- that the citation authority confirmed after the calls of `before`.
pub record Validated (env : Environment) (i : String) (before : List Call) (s : Seat)
    (o : SeatOutput) (cs : List Call) : Type 0 where
  pub classed : seat_of_output o ≡ s
  pub ruled : has_valid_remand o ≡ true
  pub cited : s ≢ Seat.bailiff → (evidence_ids o ≢ []) × Cited env i before (evidence_ids o) cs

-- Exceptions that the environment and the coordinator itself may raise.
pub record IsRaised (env : Environment) (X : Exn → Type 0) : Type 0 where
  pub done : (cs : List Call) (c : Call) (e : Exn) → env.answer_done cs c ≡ err e → X e
  pub seat : (cs : List Call) (c : Call) (e : Exn) → env.answer_seat cs c ≡ err e → X e
  pub handoff : (cs : List Call) (c : Call) (e : Exn) → env.answer_handoff cs c ≡ err e → X e
  pub text : (cs : List Call) (c : Call) (e : Exn) → env.answer_text cs c ≡ err e → X e
  pub contained : (cs : List Call) (c : Call) (e : Exn) → env.answer_contained cs c ≡ err e → X e
  pub failed : (f : OrchestrationFailure) → X (failure f)
  pub refused : (x : Escalation.Error) → X (tracker_error x)
  pub duplicated :
      (s : Seat) (e : Effort) (phase : String) (o : SeatOutput) → X (duplicate_attempt s e phase o)
  pub others : (t : String) → X (other t)

pub record IsKept (env : Environment) (i : String) (before : List Call) (J : State → Type 0)
    : Type 0 where
  pub since : (st : State) → J st → Since before st.calls
  pub asked : (st : State) (c : Call) → J st → J (record st { calls = c ∷ st.calls })
  pub first :
      (st : State) (s : Seat) (o : SeatOutput)
      → J st
      → J (record st { tracker = (record_initial env.semantic_fingerprint i s o st.tracker).1 })
  pub accepted :
      (st : State) (s : Seat) (o : SeatOutput)
      → J st
      → J (record st { tracker = (accept_retry env.semantic_fingerprint i s o st.tracker).1 })
  pub begun :
      (st : State) (s : Seat) (reason : String)
      → J st
      → J (record st { tracker = (begin_escalation i s reason st.tracker).1 })
  pub kept :
      (st : State) (s : Seat) (phase : String) (o : SeatOutput)
      → Validated env i before s o st.calls
      → J st
      → J ((keep env i s phase o st).1)
  pub saved : (st : State) → J st → J ((save_outputs i st).1)

-- The invariant after an exception.
abbrev pub Left : (State → Type 0) → (Exn → Type 0) → Exn → State → Type 0
Left J X e st = J st × X e

pub Validated-later :
    {env : Environment} {i : String} {before : List Call} {s : Seat} {o : SeatOutput} (c : Call)
    (cs : List Call)
    → Validated env i before s o cs
    → Validated env i before s o (c ∷ cs)
Validated-later c cs v = record {
  classed = v.classed;
  ruled = v.ruled;
  cited = λ n. let (given, d) = v.cited n in (given, later c cs d);
}

-- What is validated stays so.
pub with_Validated :
    {env : Environment} {i : String} {before : List Call} {J : State → Type 0} (s : Seat)
    (o : SeatOutput)
    → IsKept env i before J
    → IsKept env i before (λ st. J st × Validated env i before s o st.calls)
unfolding keep save_outputs
with_Validated s o k = record {
  since = λ st (j, v). k.since st j;
  asked = λ st c (j, v). (k.asked st c j, Validated-later c st.calls v);
  first = λ st r p (j, v). (k.first st r p j, v);
  accepted = λ st r p (j, v). (k.accepted st r p j, v);
  begun = λ st r t (j, v). (k.begun st r t j, v);
  kept = λ st r phase p w (j, v). (k.kept st r phase p w j, v);
  saved = λ st (j, v). (k.saved st j, v);
}

module _ {env : Environment} {i : String} {before : List Call} {J : State → Type 0}
    {X : Exn → Type 0} (k : IsKept env i before J) (x : IsRaised env X) where
  pub ask-Holds :
      {A : Type 0} (answer : List Call → Call → Result Exn A) (c : Call)
      → ((cs : List Call) (d : Call) (e : Exn) → answer cs d ≡ err e → X e)
      → Holds J (ask answer c) (λ _. J) (Left J X)
  ask-Holds answer c raised = record {
    from = λ st j. elim (Result-cases (answer st.calls c)) [
      | inl (a, e) ↦ rw e (k.asked st c j)
      | inr (x, e) ↦ rw e (k.asked st c j, raised st.calls c x e)
    ];
  }

  pub pure-Holds : {A : Type 0} (a : A) → Holds J (pure a) (λ _. J) (Left J X)
  pure-Holds a = record { from = λ st j. j }

  -- An exception is raised.
  pub raise-Holds :
      {A : Type 0} {Q : A → State → Type 0} (e : Exn) → X e → Holds J (raise {A = A} e) Q (Left J X)
  raise-Holds e r = record { from = λ st j. (j, r) }

  -- `_validate` after the answer to its question.
  answered-After :
      (o : SeatOutput) (ids : List String) (st : State) (b : Bool)
      → env.answer_contained st.calls (Call.contains_all i ids) ≡ ok b
      → ids ≢ []
      → J st
      → After
          (λ p st. J st × (p ≡ o) × (ids ≢ []) × Cited env i before ids st.calls)
          (Left J X)
          (answered env o b (record st { calls = Call.contains_all i ids ∷ st.calls }))
  unfolding answered
  answered-After o ids st true e n j = (k.asked st _ j, refl, n, now st.calls (k.since st j) e)
  answered-After o ids st false e n j = (k.asked st _ j, x.failed _)

  cite-Holds :
      (o : SeatOutput) (ids : List String)
      → Holds J
          (cite env i o ids)
          (λ p st. J st × (p ≡ o) × (ids ≢ []) × Cited env i before ids st.calls)
          (Left J X)
  unfolding cite
  cite-Holds o [] = raise-Holds _ (x.failed _)
  cite-Holds o (id ∷ ids) = record {
    from = λ st j.
        elim (Result-cases (env.answer_contained st.calls (Call.contains_all i (id ∷ ids)))) [
          | inl (b, e) ↦ rw e (answered-After o (id ∷ ids) st b e (λ h. absurd (cc h)) j)
          | inr (y, e) ↦ rw e (k.asked st _ j, x.contained st.calls _ y e)
        ];
  }

  -- A postcondition is weakened.
  pub weaken :
      {A : Type 0} {P : State → Type 0} {Q S : A → State → Type 0} {m : Action A}
      → Holds P m Q (Left J X)
      → ((a : A) (st : State) → Q a st → S a st)
      → Holds P m S (Left J X)
  weaken {A} {Q = Q} {S = S} {m = m} h w = record { from = λ st p. go (m st) (h.from st p) }
    where
      go : (r : Result Exn A × State) → After Q (Left J X) r → After S (Left J X) r
      go (ok a, u) q = w a u q
      go (err e, u) q = q

  -- The action returns a validated output.
  abbrev pub Validates : Seat → Action SeatOutput → Type 0
  Validates s m = Holds J m (λ p st. J st × Validated env i before s p st.calls) (Left J X)

  check_citations-Holds :
      (s : Seat) (o : SeatOutput)
      → seat_of_output o ≡ s
      → has_valid_remand o ≡ true
      → Validates s (check_citations env i s o)
  unfolding check_citations
  check_citations-Holds Seat.bailiff o c r = record {
    from = λ st j. (j, record { classed = c; ruled = r; cited = λ n. absurd (n refl) });
  }
  check_citations-Holds s o c r =
      weaken (cite-Holds o (evidence_ids o))
        (λ p st (j, e, n, d). (j, rw e (record { classed = c; ruled = r; cited = λ _. (n, d) })))

  pub validate-Holds : (s : Seat) (returned : Returned) → Validates s (validate env i s returned)
  unfolding validate
  validate-Holds s (structured o) =
      if_elim (Validates s) (not (seat_eq (seat_of_output o) s)) (λ _. raise-Holds _ (x.failed _))
        (λ c.
          if_elim (Validates s) (not (has_valid_remand o)) (λ _. raise-Holds _ (x.failed _))
            (λ r. check_citations-Holds s o (seat_eq→≡ _ s (ground arith)) (ground arith)))
  validate-Holds s (mapping v) = raise-Holds _ (x.failed _)
  validate-Holds s something = raise-Holds _ (x.failed _)

  pub request-Holds :
      (inc : IncidentInput) (phase : String) → Holds J (request env inc phase) (λ _. J) (Left J X)
  unfolding request
  request-Holds inc phase = record {
    from = λ st j.
        if_elim (After (λ _. J) (Left J X)) (is_accepted (run_input env inc phase st.outputs))
          (λ _. j) (λ _. (j, x.others _));
  }
