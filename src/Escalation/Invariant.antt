-- ===== src/Escalation/Invariant.antt =====
-- What holds of a tracker between two calls, and that every method keeps it.
use cross_patch.Prelude.{
  ℕ, ◌+◌, ◌≤◌, ◌<◌, String, ◌≡◌, ◌≢◌, Bool, true, false, Option, none, some, arith, length, inl,
  inr, str_eq, ◌&&◌, ◌||◌, not, ltb, ◌==◌, if_elim, subst, Option-cases, leb, String,
}
use cross_patch.Domain.Enums.{Seat, Effort, seat_eq}
use cross_patch.Domain.Seats.{spec_by_seat}
use cross_patch.Escalation.{
  is_empty, is_given, SeatState, Tracker, empty, assign, index_of, record_initial, restore,
  begin_escalation, accept_retry,
}

-- Effort and count agree and stay in the seat's policy; a retry is pending exactly while a reason
-- is kept, and only after an escalation.
pub record IsValid (s : Seat) (st : SeatState) : Type 0 where
  pub in_step : st.escalation_count ≡ st.effort_index
  pub allowed : st.escalation_count ≤ (spec_by_seat s).max_escalations
  pub on_ladder : st.effort_index < length (spec_by_seat s).effort_ladder
  pub reasoned : st.retry_pending ≡ true → st.pending_reason ≢ none
  pub unreasoned : st.retry_pending ≡ false → st.pending_reason ≡ none
  pub escalated : st.retry_pending ≡ true → 0 < st.escalation_count

abbrev pub IsValidSlot : Seat → Option SeatState → Type 0
IsValidSlot s none = Unit
IsValidSlot s (some st) = IsValid s st

-- Every entry of the tracker is valid.
pub record IsSound (t : Tracker) : Type 0 where
  pub at : (i : String) (s : Seat) → IsValidSlot s (t i s)

pub seat_eq→≡ : (s r : Seat) → seat_eq s r ≡ true → s ≡ r
seat_eq→≡ s r h = ground arith

assign-IsSound :
    (i : String) (s : Seat) (st : SeatState) (t : Tracker)
    → IsValid s st
    → IsSound t
    → IsSound (assign i s st t)
unfolding assign
assign-IsSound i s st t v w = record {
  at = λ j r.
      if_elim (IsValidSlot r) (str_eq i j && seat_eq s r)
        (λ h. subst (λ q. IsValid q st) (seat_eq→≡ s r (ground arith)) v) (λ _. w.at j r);
}

index_of-lt :
    (e : Effort) (s : Seat)
    → (n : ℕ) → index_of e (spec_by_seat s).effort_ladder ≡ some n
    → n < length (spec_by_seat s).effort_ladder
unfolding index_of spec_by_seat
index_of-lt e s n h = ground arith

fresh-IsValid :
    (s : Seat) (f : String)
    → IsValid s (record {
      effort_index = 0;
      escalation_count = 0;
      fingerprint = f;
      retry_pending = false;
      pending_reason = none;
    })
unfolding spec_by_seat
fresh-IsValid s f = ground arith

raised-IsValid :
    (s : Seat) (st : SeatState) (reason : String)
    → IsValid s st
    → leb (spec_by_seat s).max_escalations st.escalation_count ≡ false
    → leb (length (spec_by_seat s).effort_ladder) (st.effort_index + 1) ≡ false
    → IsValid s (record st {
      effort_index = st.effort_index + 1;
      escalation_count = st.escalation_count + 1;
      retry_pending = true;
      pending_reason = some reason;
    })
raised-IsValid s st reason v h k = ground arith

-- The tracker that a method leaves is sound.
abbrev SoundAfter {ℓ} : {A : Type ℓ} → A × Tracker → Type 0
SoundAfter p = IsSound p.1

settled-IsValid :
    (s : Seat) (st : SeatState) (f : String)
    → IsValid s st
    → IsValid s (record st { fingerprint = f; retry_pending = false; pending_reason = none })
settled-IsValid s st f v = ground arith

restored-IsValid :
    (s : Seat) (n count : ℕ) (pending : Bool) (reason : Option String) (f : String)
    → n < length (spec_by_seat s).effort_ladder
    → (not (count == n) || ltb (spec_by_seat s).max_escalations count) ≡ false
    → (pending && (count == 0 || is_empty reason)) ≡ false
    → (not pending && is_given reason) ≡ false
    → IsValid s (record {
      effort_index = n;
      escalation_count = count;
      fingerprint = f;
      retry_pending = pending;
      pending_reason = reason;
    })
unfolding is_empty is_given
restored-IsValid s n count pending reason f fits agrees given kept = ground arith

pub begin_escalation-IsSound :
    (i : String) (s : Seat) (reason : String) (t : Tracker)
    → IsSound t
    → IsSound (begin_escalation i s reason t).1
unfolding begin_escalation
begin_escalation-IsSound i s reason t w = elim (Option-cases (t i s)) [
  | inl e ↦ rw (e, begin_escalation) w
  | inr (st, e) ↦
      rw (e, begin_escalation)
        (if_elim SoundAfter st.retry_pending (λ _. w)
          (λ idle.
            if_elim SoundAfter _ (λ _. w)
              (λ room.
                assign-IsSound i s _ t
                  (raised-IsValid s st reason (rw e at (w.at i s)) (ground arith) (ground arith))
                  w)))
]

pub accept_retry-IsSound :
    {Output : Type 0} (fp : Seat → Output → String) (i : String) (s : Seat) (output : Output)
    (t : Tracker)
    → IsSound t
    → IsSound (accept_retry fp i s output t).1
unfolding accept_retry
accept_retry-IsSound fp i s output t w = elim (Option-cases (t i s)) [
  | inl e ↦ rw (e, accept_retry) w
  | inr (st, e) ↦
      let v : IsValid s st = rw e at (w.at i s) in
      rw (e, accept_retry)
        (if_elim SoundAfter (not st.retry_pending) (λ _. w)
          (λ _.
            if_elim SoundAfter (str_eq (fp s output) st.fingerprint)
              (λ _. assign-IsSound i s _ t (settled-IsValid s st st.fingerprint v) w)
              (λ _. assign-IsSound i s _ t (settled-IsValid s st (fp s output) v) w)))
]

pub record_initial-IsSound :
    {Output : Type 0} (fp : Seat → Output → String) (i : String) (s : Seat) (output : Output)
    (t : Tracker)
    → IsSound t
    → IsSound (record_initial fp i s output t).1
unfolding record_initial
record_initial-IsSound fp i s output t w = elim (Option-cases (t i s)) [
  | inl e ↦ rw (e, record_initial) (assign-IsSound i s _ t (fresh-IsValid s (fp s output)) w)
  | inr (st, e) ↦
      rw (e, record_initial)
        (assign-IsSound i s _ t (settled-IsValid s st (fp s output) (rw e at (w.at i s))) w)
]

restore-IsSound :
    {Output : Type 0} (fp : Seat → Output → String) (i : String) (s : Seat) (output : Output)
    (effort : Effort) (count : ℕ) (pending : Bool) (reason : Option String) (t : Tracker)
    → IsSound t
    → IsSound (restore fp i s output effort count pending reason t).1
unfolding restore
restore-IsSound fp i s output effort count pending reason t w =
    elim (Option-cases (index_of effort (spec_by_seat s).effort_ladder)) [
      | inl e ↦ rw (e, restore) w
      | inr (n, e) ↦
          rw (e, restore)
            (if_elim SoundAfter _ (λ _. w)
              (λ agrees.
                if_elim SoundAfter _ (λ _. w)
                  (λ given.
                    if_elim SoundAfter _ (λ _. w)
                      (λ kept.
                        assign-IsSound i s _ t
                          (restored-IsValid s n count pending reason (fp s output)
                            (index_of-lt effort s n e) agrees given kept)
                          w))))
    ]

-- Every method, whether it returns or raises, keeps every entry of the tracker valid: the count
-- and the effort agree, stay within the seat's limit and on its ladder, and a retry is pending
-- exactly while a reason is kept.
pub methods-IsSound :
    {Output : Type 0} (fp : Seat → Output → String) (i : String) (s : Seat) (output : Output)
    (effort : Effort) (count : ℕ) (pending : Bool) (kept : Option String) (reason : String)
    (t : Tracker)
    → IsSound t
    → IsSound (record_initial fp i s output t).1
      × IsSound (restore fp i s output effort count pending kept t).1
      × IsSound (begin_escalation i s reason t).1
      × IsSound (accept_retry fp i s output t).1
methods-IsSound fp i s output effort count pending kept reason t w = (
  record_initial-IsSound fp i s output t w,
  restore-IsSound fp i s output effort count pending kept t w,
  begin_escalation-IsSound i s reason t w,
  accept_retry-IsSound fp i s output t w,
)

pub empty-IsSound : IsSound empty
empty-IsSound = record { at = λ i s. tt }
