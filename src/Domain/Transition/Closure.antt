-- ===== src/Domain/Transition/Closure.antt =====
-- Terminal states, the way out of the others, and the ways to fail closed.
use cross_patch.Prelude.{
  ℕ, zero, suc, ◌≡◌, ◌≢◌, refl, Bool, true, false, none, List, [], ◌∷◌, Result, ok, String, arith,
  ◌>>=◌, All,
}
use cross_patch.Domain.Enums.{clear, IncidentState}
use cross_patch.Domain.Event.{
  EventType, Event, Error, base, verdict_event, warrant_approved_event, execution_started_event,
  verified_event, warrant_expired_event,
}
use cross_patch.Domain.Names.{is_identifier, is_sha256}
use cross_patch.Domain.Persisted.Roundtrip.{is_valid}
use cross_patch.Domain.Transition.{transition_incident}

abbrev pub is_terminal : IncidentState → Bool
is_terminal IncidentState.verified = true
is_terminal IncidentState.blocked = true
is_terminal IncidentState.human_escalation = true
is_terminal _ = false

abbrev a_digest : String
a_digest = "0123456789abcdef0123456789abcdef0123456789abcdef0123456789abcdef"

-- One event that leads on from a state that is not terminal.
abbrev advance : IncidentState → Event
advance IncidentState.opened = base EventType.reproduction_started []
advance IncidentState.reproducing = base EventType.evidence_captured []
advance IncidentState.evidence_ready = base EventType.analysis_started []
advance IncidentState.analyzing = base EventType.patch_requested []
advance IncidentState.patching = base EventType.patch_proposed []
advance IncidentState.reviewing = verdict_event clear none
advance IncidentState.approval_pending = warrant_approved_event "approval-1" a_digest "ada"
advance IncidentState.approved = execution_started_event "claim-1" "warrant-1"
advance IncidentState.executing = verified_event "receipt-1" "warrant-1"
advance IncidentState.test_failed = base EventType.retry_started []
advance s = base EventType.background_task_failed []

abbrev after_advance : IncidentState → IncidentState
after_advance IncidentState.opened = IncidentState.reproducing
after_advance IncidentState.reproducing = IncidentState.evidence_ready
after_advance IncidentState.evidence_ready = IncidentState.analyzing
after_advance IncidentState.analyzing = IncidentState.patching
after_advance IncidentState.patching = IncidentState.reviewing
after_advance IncidentState.reviewing = IncidentState.approval_pending
after_advance IncidentState.approval_pending = IncidentState.approved
after_advance IncidentState.approved = IncidentState.executing
after_advance IncidentState.executing = IncidentState.verified
after_advance IncidentState.test_failed = IncidentState.patching
after_advance s = s

-- The constructors of these events accept them.
advance-is_valid : (s : IncidentState) → is_valid (advance s) ≡ true
unfolding is_identifier is_sha256
advance-is_valid IncidentState.approval_pending = refl
advance-is_valid _ = refl

-- No event that its constructor accepts is accepted in this state.
abbrev pub IsStuck : IncidentState → Type 0
IsStuck s = (e : Event) (t : IncidentState) → is_valid e ≡ true → transition_incident s e ≢ ok t

-- `transition_incident` over a list of events, the first event first.
pub run : IncidentState → List Event → Result Error IncidentState
run s [] = ok s
run s (e ∷ es) = transition_incident s e >>= λ t. run t es

-- Events enough to reach VERIFIED: with `n` rounds of `advance`.
advances : ℕ → IncidentState → List Event
advances zero s = []
advances (suc n) IncidentState.verified = []
advances (suc n) s = advance s ∷ advances n (after_advance s)

-- The one event that hands a state that is not terminal to a human.
abbrev escalation : IncidentState → Event
escalation IncidentState.approval_pending = warrant_expired_event "warrant-1" a_digest
escalation _ = base EventType.background_task_failed []

reaches_verified :
    (s : IncidentState) → is_terminal s ≡ false → run s (advances 10 s) ≡ ok IncidentState.verified
unfolding run advances transition_incident
reaches_verified IncidentState.blocked h = cc
reaches_verified IncidentState.human_escalation h = cc
reaches_verified _ h = refl

advances-are_valid : (n : ℕ) (s : IncidentState) → All (λ e. is_valid e ≡ true) (advances n s)
unfolding advances
advances-are_valid zero s = tt
advances-are_valid (suc n) IncidentState.verified = tt
advances-are_valid (suc n) s = (advance-is_valid s, advances-are_valid n (after_advance s))

escalation-is_valid : (s : IncidentState) → is_valid (escalation s) ≡ true
unfolding is_identifier is_sha256
escalation-is_valid IncidentState.approval_pending = refl
escalation-is_valid _ = refl

escalates :
    (s : IncidentState)
    → is_terminal s ≡ false
    → transition_incident s (escalation s) ≡ ok IncidentState.human_escalation
unfolding transition_incident
escalates s h = ground arith

-- From every state that is not terminal, some one event leads to HUMAN_ESCALATION, and some list
-- of events leads to VERIFIED, all of them events that their constructors accept.
pub no_dead_end :
    (s : IncidentState)
    → is_terminal s ≡ false
    → ((e : Event) × (is_valid e ≡ true)
        × (transition_incident s e ≡ ok IncidentState.human_escalation))
      × ((es : List Event) × All (λ e. is_valid e ≡ true) es
          × (run s es ≡ ok IncidentState.verified))
no_dead_end s h = (
  (escalation s, escalation-is_valid s, escalates s h),
  (advances 10 s, advances-are_valid 10 s, reaches_verified s h),
)
