-- ===== src/Escalation/Bound.antt =====
-- However the tracker is used, a seat is escalated at most as often as its policy allows.
use cross_patch.Prelude.{
  ℕ, ◌+◌, ◌≤◌, String, ◌≡◌, false, Option, none, some, List, [], ◌∷◌, arith, Result, ok, err,
  if◌then◌else◌, str_eq, eq_iff, eq_refl, ◌&&◌,
}
use cross_patch.Domain.Enums.{Seat, seat_eq}
use cross_patch.Domain.Seats.{spec_by_seat}
use cross_patch.Escalation.{
  Error, EscalationDecision, SeatState, Tracker, empty, assign, record_initial, begin_escalation,
  accept_retry,
}
use cross_patch.Escalation.Recovery.{seat_eq_refl}
use cross_patch.Escalation.Invariant.{
  IsSound, IsValidSlot, record_initial-IsSound, begin_escalation-IsSound, accept_retry-IsSound,
  seat_eq→≡, empty-IsSound,
}

pub data Call (Output : Type 0) : Type 0 where
  initial : String → Seat → Output → Call Output
  begin : String → Seat → (reason : String) → Call Output
  accept : String → Seat → Output → Call Output

abbrev target : {Output : Type 0} → Call Output → String × Seat
target (initial i s _) = (i, s)
target (begin i s _) = (i, s)
target (accept i s _) = (i, s)

abbrev granted : Result Error EscalationDecision → ℕ
granted (ok _) = 1
granted (err _) = 0

abbrev count_of : Option SeatState → ℕ
count_of none = 0
count_of (some st) = st.escalation_count

module _ {Output : Type 0} (fp : Seat → Output → String) where
  pub after : Call Output → Tracker → Tracker
  after (initial i s output) t = (record_initial fp i s output t).1
  after (begin i s reason) t = (begin_escalation i s reason t).1
  after (accept i s output) t = (accept_retry fp i s output t).1

  after-IsSound : (c : Call Output) (t : Tracker) → IsSound t → IsSound (after c t)
  unfolding after
  after-IsSound (initial i s output) t w = record_initial-IsSound fp i s output t w
  after-IsSound (begin i s reason) t w = begin_escalation-IsSound i s reason t w
  after-IsSound (accept i s output) t w = accept_retry-IsSound fp i s output t w

  pub run : List (Call Output) → Tracker → Tracker
  run [] t = t
  run (c ∷ cs) t = run cs (after c t)

  -- 1 if the call raises the effort of the seat `s` in the incident `i`.
  pub escalates : String → Seat → Call Output → Tracker → ℕ
  escalates i s (begin j r reason) t =
      if str_eq j i && seat_eq r s then granted (begin_escalation j r reason t).0 else 0
  escalates i s _ t = 0

  pub escalations : String → Seat → List (Call Output) → Tracker → ℕ
  escalations i s [] t = 0
  escalations i s (c ∷ cs) t = escalates i s c t + escalations i s cs (after c t)

  count-record_initial :
      (i : String) (s : Seat) (output : Output) (t : Tracker)
      → count_of (t i s) ≤ count_of ((record_initial fp i s output t).1 i s)
  unfolding record_initial assign
  count-record_initial i s output t = ground (arith, eq_refl i, seat_eq_refl s)

  count-accept_retry :
      (i : String) (s : Seat) (output : Output) (t : Tracker)
      → count_of (t i s) ≤ count_of ((accept_retry fp i s output t).1 i s)
  unfolding accept_retry assign
  count-accept_retry i s output t = ground (arith, eq_refl i, seat_eq_refl s)

  count-begin_escalation :
      (i : String) (s : Seat) (reason : String) (t : Tracker)
      → granted (begin_escalation i s reason t).0 + count_of (t i s)
        ≤ count_of ((begin_escalation i s reason t).1 i s)
  unfolding begin_escalation assign
  count-begin_escalation i s reason t = ground (arith, eq_refl i, seat_eq_refl s)

  -- A call leaves the entries of the other incidents and seats alone.
  pub after-other :
      (c : Call Output) (j : String) (r : Seat) (t : Tracker)
      → (str_eq (target c).0 j && seat_eq (target c).1 r) ≡ false
      → after c t j r ≡ t j r
  unfolding after record_initial begin_escalation accept_retry assign
  after-other (initial i s output) j r t h = ground arith
  after-other (begin i s reason) j r t h = ground arith
  after-other (accept i s output) j r t h = ground arith

  count-after :
      (i : String) (s : Seat) (c : Call Output) (t : Tracker)
      → escalates i s c t + count_of (t i s) ≤ count_of (after c t i s)
  unfolding after escalates
  count-after i s (initial j r output) t = ground (
    arith,
    eq_iff j i,
    seat_eq→≡ r s,
    count-record_initial j r output t,
    after-other (initial j r output) i s t,
  )
  count-after i s (begin j r reason) t = ground (
    arith,
    eq_iff j i,
    seat_eq→≡ r s,
    count-begin_escalation j r reason t,
    after-other (begin j r reason) i s t,
  )
  count-after i s (accept j r output) t = ground (
    arith,
    eq_iff j i,
    seat_eq→≡ r s,
    count-accept_retry j r output t,
    after-other (accept j r output) i s t,
  )

  escalations-le-count :
      (i : String) (s : Seat) (cs : List (Call Output)) (t : Tracker)
      → escalations i s cs t + count_of (t i s) ≤ count_of (run cs t i s)
  unfolding escalations run
  escalations-le-count i s [] t = omega arith
  escalations-le-count i s (c ∷ cs) t =
      omega (arith, count-after i s c t, escalations-le-count i s cs (after c t))

  run-IsSound : (cs : List (Call Output)) (t : Tracker) → IsSound t → IsSound (run cs t)
  unfolding run
  run-IsSound [] t w = w
  run-IsSound (c ∷ cs) t w = run-IsSound cs (after c t) (after-IsSound c t w)

  slot-le-max :
      (s : Seat) (o : Option SeatState)
      → IsValidSlot s o
      → count_of o ≤ (spec_by_seat s).max_escalations
  slot-le-max s none v = omega arith
  slot-le-max s (some st) v = v.allowed

  -- Whatever outputs are recorded, escalations begun and retries accepted from a new tracker on,
  -- in any order and for any incidents, the effort of one seat in one incident is raised at most
  -- `max_escalations` times.
  pub escalations-le-max :
      (i : String) (s : Seat) (cs : List (Call Output))
      → escalations i s cs empty ≤ (spec_by_seat s).max_escalations
  escalations-le-max i s cs = omega (
    arith,
    escalations-le-count i s cs empty,
    slot-le-max s (run cs empty i s) ((run-IsSound cs empty empty-IsSound).at i s),
  )
