-- ===== src/Coordinator/Measure.antt =====
-- What the tracker still allows of one incident: it grows with no call, and each escalation that
-- begins and each retry that is accepted takes from it.
use cross_patch.Prelude.{
  ℕ, ◌+◌, ◌-◌, ◌*◌, ◌≤◌, ◌<◌, String, ◌≡◌, true, false, Option, none, some, arith, ok, eq_refl,
  if◌then◌else◌,
}
use cross_patch.Domain.Enums.{Seat, seat_eq}
use cross_patch.Domain.Event.{is_remand_target}
use cross_patch.Domain.Seats.{spec_by_seat}
use cross_patch.Escalation.{
  SeatState, Tracker, assign, record_initial, begin_escalation, accept_retry,
}
use cross_patch.Escalation.Recovery.{seat_eq_refl}

-- Two for each escalation that the seat has left, and one for a retry that is pending. A seat
-- without an entry has one more than all of its escalations.
unfoldable pub weight : Seat → Option SeatState → ℕ
weight s none = 2 * (spec_by_seat s).max_escalations + 1
weight s (some st) =
    2 * ((spec_by_seat s).max_escalations - st.escalation_count)
    + (if st.retry_pending then 1 else 0)

-- The seats that a remand may name.
unfoldable pub allowance : String → Tracker → ℕ
unfolding weight
allowance i t =
    weight Seat.prosecutor (t i Seat.prosecutor)
    + weight Seat.inspector (t i Seat.inspector)
    + weight Seat.counsel (t i Seat.counsel)

-- The trackers agree on the incident's other seats.
abbrev pub Elsewhere : String → Seat → Tracker → Tracker → Type 0
Elsewhere i s t u = (r : Seat) → seat_eq s r ≡ false → u i r ≡ t i r

pub allowance-le :
    (i : String) (s : Seat) (t u : Tracker)
    → Elsewhere i s t u
    → weight s (u i s) ≤ weight s (t i s)
    → allowance i u ≤ allowance i t
unfolding allowance
allowance-le i s t u same h =
    ground (arith, same Seat.prosecutor, same Seat.inspector, same Seat.counsel)

pub allowance-lt :
    (i : String) (s : Seat) (t u : Tracker)
    → is_remand_target s ≡ true
    → Elsewhere i s t u
    → weight s (u i s) < weight s (t i s)
    → allowance i u < allowance i t
unfolding allowance is_remand_target
allowance-lt i s t u k same h =
    ground (arith, same Seat.prosecutor, same Seat.inspector, same Seat.counsel)

pub allowance_bound : (i : String) (t : Tracker) → allowance i t < 16
unfolding allowance weight spec_by_seat
allowance_bound i t = ground arith

pub assign-Elsewhere :
    (i : String) (s : Seat) (st : SeatState) (t : Tracker) → Elsewhere i s t (assign i s st t)
unfolding assign
assign-Elsewhere i s st t r h = ground (arith, eq_refl i)

module _ {Output : Type 0} (fp : Seat → Output → String) (i : String) (s : Seat) where
  pub record_initial-le :
      (o : Output) (t : Tracker) → allowance i ((record_initial fp i s o t).1) ≤ allowance i t
  unfolding record_initial assign weight
  record_initial-le o t =
      allowance-le i s t _ (assign-Elsewhere i s _ t) (ground (arith, eq_refl i, seat_eq_refl s))

  pub accept_retry-le :
      (o : Output) (t : Tracker) → allowance i ((accept_retry fp i s o t).1) ≤ allowance i t
  unfolding accept_retry assign weight
  accept_retry-le o t =
      allowance-le i s t _ (λ r h. ground (arith, eq_refl i))
        (ground (arith, eq_refl i, seat_eq_refl s))

  pub accept_retry-lt :
      (o : Output) (t : Tracker) (f : String)
      → is_remand_target s ≡ true
      → (accept_retry fp i s o t).0 ≡ ok f
      → allowance i ((accept_retry fp i s o t).1) < allowance i t
  unfolding accept_retry assign weight
  accept_retry-lt o t f k h =
      allowance-lt i s t _ k (λ r e. ground (arith, eq_refl i))
        (ground (arith, eq_refl i, seat_eq_refl s))

pub begin_escalation-le :
    (i : String) (s : Seat) (reason : String) (t : Tracker)
    → allowance i ((begin_escalation i s reason t).1) ≤ allowance i t
unfolding begin_escalation assign weight
begin_escalation-le i s reason t =
    allowance-le i s t _ (λ r h. ground (arith, eq_refl i))
      (ground (arith, eq_refl i, seat_eq_refl s))
