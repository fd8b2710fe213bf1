-- ===== src/Scenarios/Ledger.antt =====
-- A timeline with two incidents, one of them taken to VERIFIED.
use cross_patch.Prelude.{
  ℕ, String, ◌≡◌, refl, ap, Bool, true, false, ◌&&◌, none, some, List, [], ◌∷◌, ok, err, Result,
  lookup, insert, ◌==◌, ==_iff, arith, subst, Result-cases, inl, inr,
}
use cross_patch.Domain.Enums.{IncidentState}
use cross_patch.Domain.Event.{EventType, Event, event_payload, event_type, is_state_event_type}
use cross_patch.Domain.Persisted.{typed_event_from_payload}
use cross_patch.Domain.Transition.{transition_incident}
use cross_patch.Timeline.Tables.{
  EventBody, Hashing, EventRow, Incident, Tables, last_event, conflicts,
}
use cross_patch.Timeline.Repository.{create, append, next_state, Error}
use cross_patch.Timeline.Integrity.{IsWellFormed, append-IsWellFormed}
use cross_patch.Timeline.Creation.{create-IsWellFormed}
use cross_patch.Timeline.History.{own, encoded, same_head-same_events}

abbrev pub same_list : List ℕ → List ℕ → Bool
same_list [] [] = true
same_list (a ∷ xs) (b ∷ ys) = a == b && same_list xs ys
same_list _ _ = false

pub same_list-eq : (a b : List ℕ) → same_list a b ≡ true → a ≡ b
same_list-eq [] [] h = refl
same_list-eq [] (y ∷ ys) h = cc
same_list-eq (x ∷ xs) [] h = cc
same_list-eq (x ∷ xs) (y ∷ ys) h =
    let e : x ≡ y = (==_iff x y).0 (ground arith) in
    let es : xs ≡ ys = same_list-eq xs ys (ground arith) in cc

pub same_list_self : (a : List ℕ) → same_list a a ≡ true
same_list_self [] = refl
same_list_self (x ∷ xs) = ground (arith, same_list_self xs)

-- A hash that is injective on what links a row: it lists the sequence numbers.
abbrev pub listing : Hashing
listing = record {
  Time = ℕ;
  Digest = List ℕ;
  same = same_list;
  same_iff = λ a b. (same_list-eq a b, λ e. subst (λ x. same_list a x ≡ true) e (same_list_self a));
  zero_hash = [];
  sha256_hex = λ b. b.sequence ∷ b.previous_hash;
}

abbrev pub no_tables : Tables listing
no_tables = record { incidents = []; events = [] }

abbrev pub starts_open : String → IncidentState
starts_open _ = IncidentState.opened

no_tables-IsWellFormed : IsWellFormed listing starts_open no_tables
unfolding lookup last_event
no_tables-IsWellFormed = record { sound = λ i incident h. cc; absent = λ i h. refl }

abbrev pub one_incident : Tables listing
one_incident = record no_tables {
  incidents =
      (
        "incident-1",
        record {
          title = "Duplicate";
          state = IncidentState.opened;
          next_event_sequence = 1;
          event_chain_head = none;
          created_at = 5;
          updated_at = 5;
        },
      )
      ∷ [];
}

created : create listing "incident-1" "Duplicate" IncidentState.opened 5 no_tables ≡ ok one_incident
unfolding create lookup insert
created = refl

pub one_incident-IsWellFormed : IsWellFormed listing starts_open one_incident
one_incident-IsWellFormed =
    (create-IsWellFormed listing starts_open "incident-1" "Duplicate" IncidentState.opened 5
      no_tables one_incident refl no_tables-IsWellFormed created).0

create-IsWellFormed_example :
    IsWellFormed listing starts_open one_incident × (one_incident.events ≡ no_tables.events)
create-IsWellFormed_example =
    create-IsWellFormed listing starts_open "incident-1" "Duplicate" IncidentState.opened 5
      no_tables one_incident refl no_tables-IsWellFormed created

-- Appends the events to "incident-1", under the identifiers that their numbers give.
abbrev pub append_all : List (String × Event) → Tables listing → Result Error (Tables listing)
append_all [] t = ok t
append_all ((id, e) ∷ es) t =
    elim (append listing "incident-1" (event_type e) "operator" (event_payload e) id 7 t) [
      | err x ↦ err x
      | ok p ↦ append_all es p.1
    ]

pub append_all-IsWellFormed :
    (es : List (String × Event)) (t u : Tables listing)
    → append_all es t ≡ ok u
    → IsWellFormed listing starts_open t
    → IsWellFormed listing starts_open u
append_all-IsWellFormed [] t u h w = subst (IsWellFormed listing starts_open) (ground arith) w
append_all-IsWellFormed ((id, e) ∷ es) t u h w =
    elim (Result-cases
      (append listing "incident-1" (event_type e) "operator" (event_payload e) id 7 t)) [
        | inr (x, q) ↦ absurd (cc (rw (append_all, q) at h))
        | inl (p, q) ↦
            append_all-IsWellFormed es p.1 u (rw (append_all, q) at h)
              (append-IsWellFormed listing starts_open "incident-1" (event_type e) "operator"
                (event_payload e) id 7 t p.0 p.1 w q).0
      ]

abbrev first_row : EventRow listing
first_row = record {
  id = "event-1";
  body = record {
    incident_id = "incident-1";
    sequence = 1;
    type = EventType.reproduction_started;
    actor = "operator";
    payload = [];
    previous_hash = [];
    created_at = 7;
  };
  event_hash = 1 ∷ [];
}

abbrev one_event : Tables listing
one_event = record {
  incidents =
      (
        "incident-1",
        record {
          title = "Duplicate";
          state = IncidentState.reproducing;
          next_event_sequence = 2;
          event_chain_head = some (1 ∷ []);
          created_at = 5;
          updated_at = 7;
        },
      )
      ∷ [];
  events = first_row ∷ [];
}

one_appended :
    append listing "incident-1" EventType.reproduction_started "operator" [] "event-1" 7
      one_incident
    ≡ ok (first_row, one_event)
unfolding append lookup insert last_event conflicts next_state typed_event_from_payload
    transition_incident is_state_event_type
one_appended = refl

one_event-IsWellFormed : IsWellFormed listing starts_open one_event
one_event-IsWellFormed =
    (append-IsWellFormed listing starts_open "incident-1" EventType.reproduction_started "operator"
      [] "event-1" 7 one_incident first_row one_event one_incident-IsWellFormed one_appended).0

append-IsWellFormed_example :
    IsWellFormed listing starts_open one_event × (one_event.events ≡ first_row ∷ [])
append-IsWellFormed_example =
    append-IsWellFormed listing starts_open "incident-1" EventType.reproduction_started "operator"
      [] "event-1" 7 one_incident first_row one_event one_incident-IsWellFormed one_appended

abbrev second_incident : Tables listing
second_incident = record one_event {
  incidents =
      (
        "incident-1",
        record {
          title = "Duplicate";
          state = IncidentState.reproducing;
          next_event_sequence = 2;
          event_chain_head = some (1 ∷ []);
          created_at = 5;
          updated_at = 7;
        },
      )
      ∷ (
        "incident-2",
        record {
          title = "Other";
          state = IncidentState.opened;
          next_event_sequence = 1;
          event_chain_head = none;
          created_at = 8;
          updated_at = 8;
        },
      )
      ∷ [];
}

second_created :
    create listing "incident-2" "Other" IncidentState.opened 8 one_event ≡ ok second_incident
unfolding create lookup insert
second_created = refl

second-IsWellFormed : IsWellFormed listing starts_open second_incident
second-IsWellFormed =
    (create-IsWellFormed listing starts_open "incident-2" "Other" IncidentState.opened 8 one_event
      second_incident refl one_event-IsWellFormed second_created).0

abbrev body_links : EventBody ℕ (List ℕ) → ℕ × List ℕ
body_links b = (b.sequence, b.previous_hash)

links_collision_free :
    (a b : EventBody ℕ (List ℕ))
    → listing.sha256_hex a ≡ listing.sha256_hex b
    → body_links a ≡ body_links b
links_collision_free a b h = cc h

links_encoded :
    (a b : EventBody ℕ (List ℕ))
    → body_links a ≡ body_links b
    → (a.sequence ≡ b.sequence) × (a.previous_hash ≡ b.previous_hash)
links_encoded a b h = (ap (λ p. p.0) h, ap (λ p. p.1) h)

abbrev reproducing_incident : Incident listing
reproducing_incident = record {
  title = "Duplicate";
  state = IncidentState.reproducing;
  next_event_sequence = 2;
  event_chain_head = some (1 ∷ []);
  created_at = 5;
  updated_at = 7;
}

found_in_one : lookup "incident-1" one_event.incidents ≡ some reproducing_incident
unfolding lookup
found_in_one = refl

found_in_second : lookup "incident-1" second_incident.incidents ≡ some reproducing_incident
unfolding lookup
found_in_second = refl

same_head-same_events_example :
    encoded listing body_links links_collision_free links_encoded
      (own listing "incident-1" one_event.events)
    ≡ encoded listing body_links links_collision_free links_encoded
        (own listing "incident-1" second_incident.events)
same_head-same_events_example =
    same_head-same_events listing body_links links_collision_free links_encoded starts_open
      "incident-1" one_event second_incident reproducing_incident reproducing_incident
      one_event-IsWellFormed second-IsWellFormed found_in_one found_in_second refl
