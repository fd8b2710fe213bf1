-- ===== src/Escalation/Recovery.antt =====
-- A restart: what is persisted of an escalation restores it.
use cross_patch.Prelude.{
  ℕ, zero, suc, String, ◌≡◌, ◌≢◌, refl, true, false, Option, none, some, arith, ok, inl, inr,
  str_eq, eq_iff, eq_refl, ap, Bool-cases, not, ◌||◌, ◌&&◌, ◌==◌, ltb,
}
use cross_patch.Domain.Enums.{Seat, Effort, seat_eq}
use cross_patch.Domain.Seats.{spec_by_seat}
use cross_patch.Escalation.{
  SeatState, Tracker, EscalationDecision, assign, rung, index_of, restore, current_effort,
  begin_escalation, resume_pending_escalation, is_empty, is_given,
}
use cross_patch.Escalation.Invariant.{IsValid}

pub seat_eq_refl : (s : Seat) → seat_eq s s ≡ true
seat_eq_refl s = ground arith

pub assign_self :
    (i : String) (s : Seat) (st : SeatState) (t : Tracker) → assign i s st t i s ≡ some st
unfolding assign
assign_self i s st t = rw (eq_refl i, seat_eq_refl s)

-- An escalation that was begun is resumed, after an interruption, with the same decision.
pub resume-begin :
    (i : String) (s : Seat) (reason : String) (t u : Tracker) (d : EscalationDecision)
    → begin_escalation i s reason t ≡ (ok d, u)
    → resume_pending_escalation i s reason u ≡ ok (some d)
unfolding begin_escalation resume_pending_escalation assign
resume-begin i s reason t u d h = ground (arith, eq_refl i, eq_refl reason, seat_eq_refl s)

index_of-rung :
    (s : Seat) (n : ℕ) (e : Effort)
    → rung s n ≡ ok e
    → index_of e (spec_by_seat s).effort_ladder ≡ some n
unfolding rung index_of spec_by_seat
index_of-rung s zero e h = ground arith
index_of-rung s (suc zero) e h = ground arith
index_of-rung s (suc (suc zero)) e h = ground arith
index_of-rung s (suc (suc (suc n))) e h = ground arith

effort_index_of :
    (s : Seat) (st : SeatState) (e : Effort)
    → rung s st.effort_index ≡ ok e
    → index_of e (spec_by_seat s).effort_ladder ≡ some st.effort_index
effort_index_of s st e h = index_of-rung s st.effort_index e h

agrees :
    (s : Seat) (st : SeatState)
    → IsValid s st
    → (not (st.escalation_count == st.effort_index)
        || ltb (spec_by_seat s).max_escalations st.escalation_count)
      ≡ false
agrees s st v = ground arith

is_empty-false : (o : Option String) → o ≢ none → o ≢ some "" → is_empty o ≡ false
unfolding is_empty
is_empty-false none a b = absurd (a refl)
is_empty-false (some r) a b = elim (Bool-cases (str_eq r "")) [
  | inl e ↦ absurd (b (ap some ((eq_iff r "").0 e)))
  | inr e ↦ e
]

given :
    (s : Seat) (st : SeatState)
    → IsValid s st
    → st.pending_reason ≢ some ""
    → (st.retry_pending && (st.escalation_count == 0 || is_empty st.pending_reason)) ≡ false
given s st v r = elim (Bool-cases st.retry_pending) [
  | inl p ↦
      let e = is_empty-false st.pending_reason (v.reasoned p) r in
      let n = v.escalated p in ground (arith, e)
  | inr p ↦ rw p
]

kept :
    (s : Seat) (st : SeatState)
    → IsValid s st
    → (not st.retry_pending && is_given st.pending_reason) ≡ false
unfolding is_given
kept s st v = ground arith

-- A valid entry, whose reason is no empty text, is restored exactly, into any tracker, from its
-- effort, count, flag and reason and the output that it was fingerprinted from.
pub restore-current_effort :
    {Output : Type 0} (fp : Seat → Output → String) (i : String) (s : Seat) (output : Output)
    (effort : Effort) (st : SeatState) (t u : Tracker)
    → t i s ≡ some st
    → IsValid s st
    → st.fingerprint ≡ fp s output
    → st.pending_reason ≢ some ""
    → current_effort i s t ≡ ok effort
    → restore fp i s output effort st.escalation_count st.retry_pending st.pending_reason u
      ≡ (ok tt, assign i s st u)
unfolding restore current_effort
restore-current_effort fp i s output effort st t u h v f r c =
    let found = effort_index_of s st effort (rw (h, current_effort) at c) in
    rw (found, restore) (rw (agrees s st v, given s st v r, kept s st v, ← f))
