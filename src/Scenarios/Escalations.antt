-- ===== src/Scenarios/Escalations.antt =====
-- One seat that fails, is escalated, is interrupted and retries.
use cross_patch.Prelude.{
  ◌≤◌, String, ◌≡◌, ◌≢◌, refl, Bool, true, false, Option, none, some, List, [], ◌∷◌, ok, arith, ap,
  str_eq,
}
use cross_patch.Domain.Enums.{Seat, inspector, Effort}
use cross_patch.Domain.Seats.{spec_by_seat}
use cross_patch.Escalation.{
  SeatState, Tracker, EscalationDecision, empty, assign, record_initial, restore, accept_retry,
  begin_escalation, current_effort, resume_pending_escalation,
}
use cross_patch.Escalation.Invariant.{IsSound, IsValid, methods-IsSound, empty-IsSound}
use cross_patch.Escalation.Recovery.{resume-begin, restore-current_effort}
use cross_patch.Escalation.Bound.{Call, initial, begin, accept, escalations, escalations-le-max}

abbrev semantic : Seat → String → String
semantic s output = output

abbrev calls : List (Call String)
calls =
    initial "incident-1" inspector "draft"
    ∷ begin "incident-1" inspector "malformed"
    ∷ accept "incident-1" inspector "second draft"
    ∷ begin "incident-1" inspector "malformed again"
    ∷ begin "incident-1" inspector "and again"
    ∷ []

escalations-le-max_example :
    escalations semantic "incident-1" inspector calls empty
    ≤ (spec_by_seat inspector).max_escalations
escalations-le-max_example = escalations-le-max semantic "incident-1" inspector calls

abbrev recorded : Tracker
recorded = (record_initial semantic "incident-1" inspector "draft" empty).1

abbrev begun : Tracker
begun = (begin_escalation "incident-1" inspector "malformed" recorded).1

recorded-IsSound : IsSound recorded
recorded-IsSound =
    (methods-IsSound semantic "incident-1" inspector "draft" Effort.medium 0 false none "" empty
      empty-IsSound).0

methods-IsSound_example :
    IsSound (record_initial semantic "incident-1" inspector "draft" recorded).1
    × IsSound
        (restore semantic "incident-1" inspector "draft" Effort.high 1 true
          (some "malformed")
          recorded).1
    × IsSound (begin_escalation "incident-1" inspector "malformed" recorded).1
    × IsSound (accept_retry semantic "incident-1" inspector "draft" recorded).1
methods-IsSound_example =
    methods-IsSound semantic "incident-1" inspector "draft" Effort.high 1 true (some "malformed")
      "malformed" recorded recorded-IsSound

abbrev first_escalation : EscalationDecision
first_escalation = record { effort = Effort.high; escalation_count = 1; reason = "malformed" }

escalation_begun :
    begin_escalation "incident-1" inspector "malformed" recorded ≡ (ok first_escalation, begun)
unfolding begin_escalation record_initial assign spec_by_seat
escalation_begun = refl

resume-begin_example :
    resume_pending_escalation "incident-1" inspector "malformed" begun ≡ ok (some first_escalation)
resume-begin_example =
    resume-begin "incident-1" inspector "malformed" recorded begun first_escalation escalation_begun

abbrev interrupted : SeatState
interrupted = record {
  effort_index = 1;
  escalation_count = 1;
  fingerprint = "draft";
  retry_pending = true;
  pending_reason = some "malformed";
}

interrupted_found : begun "incident-1" inspector ≡ some interrupted
unfolding begin_escalation record_initial assign spec_by_seat
interrupted_found = refl

interrupted-IsValid : IsValid inspector interrupted
unfolding spec_by_seat
interrupted-IsValid = ground arith

interrupted_effort : current_effort "incident-1" inspector begun ≡ ok Effort.high
unfolding begin_escalation record_initial assign spec_by_seat current_effort
interrupted_effort = refl

abbrev is_blank : Option String → Bool
is_blank none = false
is_blank (some r) = str_eq r ""

reason_kept : interrupted.pending_reason ≢ some ""
reason_kept h = cc (ap is_blank h)

restore-current_effort_example :
    restore semantic "incident-1" inspector "draft" Effort.high 1 true (some "malformed") empty
    ≡ (ok tt, assign "incident-1" inspector interrupted empty)
restore-current_effort_example =
    restore-current_effort semantic "incident-1" inspector "draft" Effort.high interrupted begun
      empty interrupted_found interrupted-IsValid refl reason_kept interrupted_effort
