-- ===== src/Escalation.antt =====
-- `EscalationTracker` of backend/src/crosspatch/orchestration/escalation.py. A method returns its
-- result and the tracker that it leaves, on every path: what was assigned before a raise stays
-- assigned. `semantic_fingerprint` (domain/hashing.py) is a parameter.
pub mod Invariant
pub mod Recovery
pub mod Bound
use cross_patch.Prelude.{
  ℕ, ◌+◌, ◌-◌, String, Bool, true, false, not, ◌&&◌, ◌||◌, Option, none, some, List, [], ◌∷◌,
  Result, ok, err, ltb, leb, ◌==◌, str_eq, if◌then◌else◌, length, get_elem?,
}
use cross_patch.Domain.Enums.{Seat, Effort, seat_eq}
use cross_patch.Domain.Seats.{SeatSpec, spec_by_seat}

pub data Error : Type 0 where
  duplicate_retry escalation_exhausted value_error runtime_error index_error : Error

pub record EscalationDecision : Type 0 where
  pub effort : Effort
  pub escalation_count : ℕ
  pub reason : String

pub record SeatState : Type 0 where
  pub effort_index : ℕ
  pub escalation_count : ℕ
  pub fingerprint : String
  pub retry_pending : Bool
  pub pending_reason : Option String

-- `_states`: a dictionary keyed by incident and seat.
abbrev pub Tracker : Type 0
Tracker = String → Seat → Option SeatState

abbrev pub empty : Tracker
empty i s = none

unfoldable pub assign : String → Seat → SeatState → Tracker → Tracker
assign i s st t j r = if str_eq i j && seat_eq s r then some st else t j r

unfoldable pub effort_eq : Effort → Effort → Bool
effort_eq Effort.none Effort.none = true
effort_eq Effort.low Effort.low = true
effort_eq Effort.medium Effort.medium = true
effort_eq Effort.high Effort.high = true
effort_eq Effort.xhigh Effort.xhigh = true
effort_eq _ _ = false

-- `effort_ladder.index(effort)`, `none` being the ValueError.
unfoldable pub index_of : Effort → List Effort → Option ℕ
unfolding effort_eq
index_of e [] = none
index_of e (x ∷ xs) =
    if effort_eq x e then some 0 else elim (index_of e xs) [ none ↦ none | some n ↦ some (n + 1) ]

-- `effort_ladder[i]`
unfoldable pub rung : Seat → ℕ → Result Error Effort
rung s i = elim (get_elem? (spec_by_seat s).effort_ladder i) [
  | none ↦ err index_error
  | some e ↦ ok e
]

kept_index : Option SeatState → ℕ
kept_index none = 0
kept_index (some st) = st.effort_index

kept_count : Option SeatState → ℕ
kept_count none = 0
kept_count (some st) = st.escalation_count

-- The check that ends `record_initial`.
ladder_is_consistent : Seat → Bool
unfolding effort_eq
ladder_is_consistent s = elim (get_elem? (spec_by_seat s).effort_ladder 0) [
  | none ↦ false
  | some e ↦ effort_eq (spec_by_seat s).initial_effort e
]

decision : Seat → SeatState → String → Result Error EscalationDecision
unfolding rung
decision s st reason = elim (rung s st.effort_index) [
  | err e ↦ err e
  | ok e ↦ ok (record { effort = e; escalation_count = st.escalation_count; reason = reason })
]

pub is_empty : Option String → Bool
is_empty none = true
is_empty (some r) = str_eq r ""

pub is_given : Option String → Bool
is_given none = false
is_given (some _) = true

module _ {Output : Type 0} (semantic_fingerprint : Seat → Output → String) where
  unfoldable pub record_initial :
      String → Seat → Output → Tracker → Result Error (Unit {0}) × Tracker
  unfolding kept_index kept_count ladder_is_consistent
  record_initial i s output t =
      let existing = t i s in
      let st : SeatState = record {
        effort_index = kept_index existing;
        escalation_count = kept_count existing;
        fingerprint = semantic_fingerprint s output;
        retry_pending = false;
        pending_reason = none;
      } in
      (if ladder_is_consistent s then ok tt else err runtime_error, assign i s st t)

  unfoldable pub restore :
      String
      → Seat
      → Output
      → Effort
      → ℕ
      → Bool
      → Option String
      → Tracker
      → Result Error (Unit {0}) × Tracker
  unfolding is_empty is_given
  restore i s output effort count pending reason t =
      elim (index_of effort (spec_by_seat s).effort_ladder) [
        | none ↦ (err value_error, t)
        | some index ↦
            if not (count == index) || ltb (spec_by_seat s).max_escalations count
            then (err value_error, t)
            else if pending && (count == 0 || is_empty reason)
            then (err value_error, t)
            else if not pending && is_given reason
            then (err value_error, t)
            else (
              ok tt,
              assign i s
                  (record {
                    effort_index = index;
                    escalation_count = count;
                    fingerprint = semantic_fingerprint s output;
                    retry_pending = pending;
                    pending_reason = reason;
                  })
                  t,
            )
      ]

  unfoldable pub accept_retry : String → Seat → Output → Tracker → Result Error String × Tracker
  accept_retry i s output t = elim (t i s) [
    | none ↦ (err value_error, t)
    | some st ↦
        if not st.retry_pending
        then (err value_error, t)
        else (let fingerprint = semantic_fingerprint s output in
            let done = record st { retry_pending = false; pending_reason = none } in
            if str_eq fingerprint st.fingerprint
            then (err duplicate_retry, assign i s done t)
            else (ok fingerprint, assign i s (record done { fingerprint = fingerprint }) t))
  ]

unfoldable pub current_effort : String → Seat → Tracker → Result Error Effort
unfolding kept_index rung
current_effort i s t = rung s (kept_index (t i s))

unfoldable pub begin_escalation :
    String → Seat → String → Tracker → Result Error EscalationDecision × Tracker
unfolding decision
begin_escalation i s reason t = elim (t i s) [
  | none ↦ (err value_error, t)
  | some st ↦
      if st.retry_pending
      then (err runtime_error, t)
      else if leb (spec_by_seat s).max_escalations st.escalation_count
          || leb (length (spec_by_seat s).effort_ladder) (st.effort_index + 1)
      then (err escalation_exhausted, t)
      else (let raised = record st {
        effort_index = st.effort_index + 1;
        escalation_count = st.escalation_count + 1;
        retry_pending = true;
        pending_reason = some reason;
      } in
          (decision s raised reason, assign i s raised t))
]

same_reason : Option String → String → Bool
same_reason none r = false
same_reason (some q) r = str_eq q r

unfoldable pub resume_pending_escalation :
    String → Seat → String → Tracker → Result Error (Option EscalationDecision)
unfolding decision same_reason
resume_pending_escalation i s reason t = elim (t i s) [
  | none ↦ ok none
  | some st ↦
      if not st.retry_pending
      then ok none
      else if not (same_reason st.pending_reason reason)
      then err value_error
      else elim (decision s st reason) [ err e ↦ err e | ok d ↦ ok (some d) ]
]
