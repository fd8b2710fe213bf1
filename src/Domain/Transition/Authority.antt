-- ===== src/Domain/Transition/Authority.antt =====
-- Which events can have led an incident to the states that carry mutation authority.
use cross_patch.Prelude.{◌∙◌, ap, subst, String, ◌≡◌, refl, List, [], ◌∷◌, ok, arith, Option}
use cross_patch.Domain.Enums.{Seat, clear, IncidentState}
use cross_patch.Domain.Event.{
  Event, verdict_event, warrant_approved_event, execution_started_event, verified_event,
}
use cross_patch.Domain.Transition.{transition_incident}

-- The events that were accepted, the latest first, and the state that they led to.
pub data Reach : List Event → IncidentState → Type 0 where
  start : Reach [] IncidentState.opened
  next :
      {h : List Event} {s t : IncidentState} (e : Event)
      → Reach h s
      → transition_incident s e ≡ ok t
      → Reach (e ∷ h) t

into_verified :
    (s : IncidentState) (e : Event)
    → transition_incident s e ≡ ok IncidentState.verified
    → (s ≡ IncidentState.executing) × ((p : String × String) × (e ≡ verified_event p.0 p.1))
unfolding transition_incident
into_verified s (verified_event r w) h = (ground arith, ((r, w), refl))
into_verified s _ h = absurd (ground arith)

into_executing :
    (s : IncidentState) (e : Event)
    → transition_incident s e ≡ ok IncidentState.executing
    → (s ≡ IncidentState.approved) × ((p : String × String) × (e ≡ execution_started_event p.0 p.1))
unfolding transition_incident
into_executing s (execution_started_event c w) h = (ground arith, ((c, w), refl))
into_executing s _ h = absurd (ground arith)

into_approved :
    (s : IncidentState) (e : Event)
    → transition_incident s e ≡ ok IncidentState.approved
    → (s ≡ IncidentState.approval_pending)
      × ((p : String × String × String) × (e ≡ warrant_approved_event p.0 p.1 p.2))
unfolding transition_incident
into_approved s (warrant_approved_event a w i) h = (ground arith, ((a, w, i), refl))
into_approved s _ h = absurd (ground arith)

into_approval_pending :
    (s : IncidentState) (e : Event)
    → transition_incident s e ≡ ok IncidentState.approval_pending
    → (s ≡ IncidentState.reviewing) × ((t : Option Seat) × (e ≡ verdict_event clear t))
unfolding transition_incident
into_approval_pending s (verdict_event clear t) h = (ground arith, (t, refl))
into_approval_pending s _ h = absurd (ground arith)

-- A history that carries authority: a CLEAR verdict in review, then the approval of a warrant.
pub record Approved (h : List Event) : Type 0 where
  pub rest : List Event
  pub target : Option Seat
  pub approval_id : String
  pub warrant_sha256 : String
  pub approver_identity : String
  pub shape :
      h
      ≡ warrant_approved_event approval_id warrant_sha256 approver_identity
        ∷ verdict_event clear target
        ∷ rest
  pub reviewed : Reach rest IncidentState.reviewing

-- What follows an approval to the state VERIFIED.
pub record Verified (h : List Event) : Type 0 where
  pub before : List Event
  pub authority : Approved before
  pub claim_id : String
  pub claimed_warrant : String
  pub receipt_id : String
  pub verified_warrant : String
  pub shape :
      h
      ≡ verified_event receipt_id verified_warrant
        ∷ execution_started_event claim_id claimed_warrant
        ∷ before

pending_history :
    {h : List Event} {s : IncidentState}
    → Reach h s
    → s ≡ IncidentState.approval_pending
    → (rest : List Event) × ((t : Option Seat) × (h ≡ verdict_event clear t ∷ rest))
      × Reach rest IncidentState.reviewing
pending_history start p = absurd (cc)
pending_history (next {h = h'} {s = s'} e r x) p =
    let (q, w) = into_approval_pending s' e (x ∙ ap ok p) in
    (h', (w.0, ap (λ y. y ∷ h') w.1), subst (Reach h') q r)

approved_history :
    {h : List Event} {s : IncidentState} → Reach h s → s ≡ IncidentState.approved → Approved h
approved_history start p = absurd (cc)
approved_history (next {h = h'} {s = s'} e r x) p =
    let (q, w) = into_approved s' e (x ∙ ap ok p) in
    let (rest, v, reviewed) = pending_history r q in
    record {
      rest = rest;
      target = v.0;
      approval_id = w.0.0;
      warrant_sha256 = w.0.1;
      approver_identity = w.0.2;
      shape = cc (w.1, v.1);
      reviewed = reviewed;
    }

executing_history :
    {h : List Event} {s : IncidentState}
    → Reach h s
    → s ≡ IncidentState.executing
    → (before : List Event) × Approved before
      × ((p : String × String) × (h ≡ execution_started_event p.0 p.1 ∷ before))
executing_history start p = absurd (cc)
executing_history (next {h = h'} {s = s'} e r x) p =
    let (q, w) = into_executing s' e (x ∙ ap ok p) in
    (h', approved_history r q, (w.0, ap (λ y. y ∷ h') w.1))

verified_history :
    {h : List Event} {s : IncidentState} → Reach h s → s ≡ IncidentState.verified → Verified h
verified_history start p = absurd (cc)
verified_history (next {h = h'} {s = s'} e r x) p =
    let (q, w) = into_verified s' e (x ∙ ap ok p) in
    let (before, authority, c) = executing_history r q in
    record {
      before = before;
      authority = authority;
      claim_id = c.0.0;
      claimed_warrant = c.0.1;
      receipt_id = w.0.0;
      verified_warrant = w.0.1;
      shape = cc (w.1, c.1);
    }

-- Every accepted history that ends in EXECUTING has as its last event an execution start, right
-- after a warrant approval, right after a CLEAR verdict given in the state REVIEWING.
pub executing_needs_approval :
    {h : List Event}
    → Reach h IncidentState.executing
    → (before : List Event) × Approved before
      × ((p : String × String) × (h ≡ execution_started_event p.0 p.1 ∷ before))
executing_needs_approval r = executing_history r refl

-- Every accepted history that ends in VERIFIED ends with these four events and no other between
-- them: a CLEAR verdict in the state REVIEWING, a warrant approval, an execution start and a
-- verification, each of the class that carries its proof.
pub verified_needs_authority : {h : List Event} → Reach h IncidentState.verified → Verified h
verified_needs_authority r = verified_history r refl
