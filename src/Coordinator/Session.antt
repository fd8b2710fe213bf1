-- ===== src/Coordinator/Session.antt =====
-- The coordinator's state, the calls that it makes, and actions that may raise. The runtime, the
-- authority gateway and the citations are parameters: what they answer may depend on every call
-- made before.
use cross_patch.Prelude.{ℕ, String, Bool, Option, List, ◌∷◌, Result, ok, err, Dict}
use cross_patch.Domain.Enums.{Seat, Effort}
use cross_patch.Domain.Event.{Payload}
use cross_patch.Escalation.{Tracker}
use cross_patch.Coordinator.Failures.{Exn}
use cross_patch.Coordinator.Outputs.{
  InspectorOutput, ProsecutorOutput, MagistrateOutput, SeatOutput, AgentRunInput, SeatDict,
}

-- What a call of the runtime may return: a structured output, a mapping with the text that it has
-- under "verdict", or anything else.
pub data Returned : Type 0 where
  structured : SeatOutput → Returned
  mapping : (verdict : Option String) → Returned
  something : Returned

-- InspectorProsecutorResult, or anything else.
pub data Handoff : Type 0 where
  handoff : InspectorOutput → ProsecutorOutput → Handoff
  no_handoff : Handoff

-- The calls of AgentRuntime, DeferredRetryRuntime, AuthorityGateway and CitationAuthority. Left out
-- are the fixed text that `record_escalation` is given as its `message`, and the callback
-- `validate_inspector` of the handoff, which changes no state of the Coordinator: the queries that
-- the runtime makes through it, and what it raises, belong to the runtime's answer.
pub data Call : Type 0 where
  run_inspector_to_prosecutor : AgentRunInput → (inspector prosecutor : Effort) → Call
  run_seat run_unpublished_retry : Seat → Effort → (phase : String) → AgentRunInput → Call
  execute_approved_warrant : (incident warrant reference : String) → Call
  publish_accepted_retry :
      (incident : String) → Seat → Effort → (phase : String) → SeatOutput → Call
  begin_review : (incident : String) → Call
  fail_closed_abstain : (incident reason : String) → Call
  record_verdict : (incident : String) → MagistrateOutput → Call
  open_approval : (incident : String) → MagistrateOutput → SeatDict SeatOutput → Call
  record_escalation : (incident : String) → Seat → Effort → ℕ → (reason : String) → Call
  reject_duplicate_retry :
      (incident : String) → Seat → Effort → (phase : String) → SeatOutput → (reason : String) → Call
  approved_warrant : (incident warrant : String) → Call
  contains_all : (incident : String) → (evidence : List String) → Call

-- What answers: each function is given the calls made before, the latest first, and the call.
pub record Environment : Type 0 where
  -- isinstance(runtime, DeferredRetryRuntime)
  pub deferred_retry : Bool
  pub semantic_payload : Seat → SeatOutput → Payload
  pub semantic_fingerprint : Seat → SeatOutput → String
  pub answer_done : List Call → Call → Result Exn (Unit {0})
  pub answer_seat : List Call → Call → Result Exn Returned
  pub answer_handoff : List Call → Call → Result Exn Handoff
  pub answer_text : List Call → Call → Result Exn String
  pub answer_reference : List Call → Call → Result Exn (Option String)
  pub answer_contained : List Call → Call → Result Exn Bool

pub record State : Type 0 where
  pub tracker : Tracker
  pub incident_outputs : Dict (SeatDict SeatOutput)
  pub incident_phases : Dict (SeatDict String)
  -- the local dictionary `outputs` of the method that runs
  pub outputs : SeatDict SeatOutput
  -- the calls made, the latest first
  pub calls : List Call

-- An exception leaves the state as it was when it was raised.
abbrev pub Action : Type 0 → Type 0
Action A = State → Result Exn A × State

module _ {A : Type 0} where
  abbrev pub pure : A → Action A
  pure a st = (ok a, st)

  abbrev pub raise : Exn → Action A
  raise e st = (err e, st)

  abbrev pub ask : (List Call → Call → Result Exn A) → Call → Action A
  ask answer c st = (answer st.calls c, record st { calls = c ∷ st.calls })

infixl 5 ◌>>=◌ ◌>>◌
abbrev pub then_do : {A B : Type 0} → (A → Action B) → Result Exn A × State → Result Exn B × State
then_do f (ok a, st) = f a st
then_do f (err e, st) = (err e, st)

abbrev pub ◌>>=◌ : {A B : Type 0} → Action A → (A → Action B) → Action B
◌>>=◌ m f st = then_do f (m st)

abbrev pub ◌>>◌ : {A B : Type 0} → Action A → Action B → Action B
m >> k = m >>= λ _. k

-- What an action, run from a state with `P`, leaves: `Q` when it returns, `R` when it raises.
abbrev pub After :
    {A : Type 0} → (A → State → Type 0) → (Exn → State → Type 0) → Result Exn A × State → Type 0
After Q R (ok a, st) = Q a st
After Q R (err e, st) = R e st

pub record Holds {A : Type 0} (P : State → Type 0) (m : Action A) (Q : A → State → Type 0)
    (R : Exn → State → Type 0) : Type 0 where
  pub from : (st : State) → P st → After Q R (m st)

then_do-After :
    {A B : Type 0} {Q : A → State → Type 0} {S : B → State → Type 0} {R : Exn → State → Type 0}
    {f : A → Action B} (r : Result Exn A × State)
    → ((a : A) → Holds (Q a) (f a) S R)
    → After Q R r
    → After S R (then_do f r)
then_do-After (ok a, u) k q = (k a).from u q
then_do-After (err e, u) k q = q

pub Holds->>= :
    {A B : Type 0} {P : State → Type 0} {Q : A → State → Type 0} {S : B → State → Type 0}
    {R : Exn → State → Type 0} {m : Action A} {f : A → Action B}
    → Holds P m Q R
    → ((a : A) → Holds (Q a) (f a) S R)
    → Holds P (m >>= f) S R
Holds->>= {m = m} h k = record { from = λ st p. then_do-After (m st) k (h.from st p) }

pub Holds-pure :
    {A : Type 0} {Q : A → State → Type 0} {R : Exn → State → Type 0} (a : A)
    → Holds (Q a) (pure a) Q R
Holds-pure a = record { from = λ st q. q }
