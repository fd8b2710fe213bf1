-- ===== src/Timeline/Chain.antt =====
-- The invariant of the tables: every incident's events form one numbered, hash-linked chain, its
-- row names the end of that chain, and its state is the replay of that chain.
use cross_patch.Prelude.{
  ◌+◌, String, ◌≡◌, Bool, true, false, Option, some, List, [], ◌∷◌, inl, inr, ok, lookup, insert,
  arith, str_eq, Option-cases,
}
use cross_patch.Domain.Enums.{IncidentState}
use cross_patch.Domain.Event.{EventType, Payload}
use cross_patch.Timeline.Tables.{Hashing, EventRow, Incident, Tables, last_event}
use cross_patch.Timeline.Repository.{append, next_sequence, chain_hash, expected_head, next_state}

module _ (H : Hashing) where
  open H use {Time, Digest, same, same_iff, zero_hash, sha256_hex}

  -- A row that continues the rows below it.
  pub record Links (r : EventRow H) (rest : Option (EventRow H)) : Type 0 where
    pub sequence : r.body.sequence ≡ next_sequence H rest
    pub previous : r.body.previous_hash ≡ chain_hash H rest
    pub hashed : r.event_hash ≡ sha256_hex r.body

  abbrev pub When : Bool → Type 0 → Type 0
  When true P = P
  When false P = Unit

  abbrev pub IsChain : String → List (EventRow H) → Type 0
  IsChain i [] = Unit
  IsChain i (r ∷ rs) =
      When (str_eq r.body.incident_id i) (Links r (last_event H i rs)) × IsChain i rs

  -- The events of `i` lead from the state `s₀` to the state `s`.
  pub data Replays (i : String) (s₀ : IncidentState)
      : List (EventRow H) → IncidentState → Type 0 where
    none_yet : Replays i s₀ [] s₀
    elsewhere :
        {r : EventRow H} {rs : List (EventRow H)} {s : IncidentState}
        → str_eq r.body.incident_id i ≡ false
        → Replays i s₀ rs s
        → Replays i s₀ (r ∷ rs) s
    here :
        {r : EventRow H} {rs : List (EventRow H)} {s t : IncidentState}
        → str_eq r.body.incident_id i ≡ true
        → Replays i s₀ rs s
        → next_state s r.body.type r.body.payload ≡ ok t
        → Replays i s₀ (r ∷ rs) t

  pub record IsSound (s₀ : IncidentState) (i : String) (incident : Incident H)
      (rows : List (EventRow H)) : Type 0 where
    pub chain : IsChain i rows
    pub sequence : incident.next_event_sequence ≡ next_sequence H (last_event H i rows)
    pub head : incident.event_chain_head ≡ expected_head H (last_event H i rows)
    pub state : Replays i s₀ rows incident.state

  pub last_event-here :
      (i : String) (r : EventRow H) (rs : List (EventRow H))
      → str_eq r.body.incident_id i ≡ true
      → r.body.sequence ≡ next_sequence H (last_event H i rs)
      → last_event H i (r ∷ rs) ≡ some r
  unfolding last_event next_sequence
  last_event-here i r rs h e = ground arith

  pub last_event-elsewhere :
      (i : String) (r : EventRow H) (rs : List (EventRow H))
      → str_eq r.body.incident_id i ≡ false
      → last_event H i (r ∷ rs) ≡ last_event H i rs
  unfolding last_event
  last_event-elsewhere i r rs h = rw h

  -- What a call of `append` that returns has done.
  pub record Appended (i : String) (type : EventType) (actor : String) (payload : Payload)
      (t : Tables H) (row : EventRow H) (u : Tables H) : Type 0 where
    pub incident : Incident H
    pub state : IncidentState
    pub found : lookup i t.incidents ≡ some incident
    pub accepted : next_state incident.state type payload ≡ ok state
    pub links : Links row (last_event H i t.events)
    pub owner : row.body.incident_id ≡ i
    pub typed : row.body.type ≡ type
    pub carried : row.body.payload ≡ payload
    pub events : u.events ≡ row ∷ t.events
    pub incidents :
        u.incidents
        ≡ insert i
            (record incident {
              state = state;
              next_event_sequence = row.body.sequence + 1;
              event_chain_head = some row.event_hash;
              updated_at = row.body.created_at;
            })
            t.incidents

  append_found :
      (i : String) (type : EventType) (actor : String) (payload : Payload) (id : String)
      (now : Time) (t : Tables H) (row : EventRow H) (u : Tables H)
      → append H i type actor payload id now t ≡ ok (row, u)
      → (incident : Incident H) × (lookup i t.incidents ≡ some incident)
        × ((state : IncidentState) × (next_state incident.state type payload ≡ ok state))
  unfolding append
  append_found i type actor payload id now t row u h = elim (Option-cases (lookup i t.incidents)) [
    | inl e ↦ absurd (cc (rw (append, e) at h))
    | inr (incident, e) ↦ (incident, e, ground arith)
  ]

  pub append_effect :
      (i : String) (type : EventType) (actor : String) (payload : Payload) (id : String)
      (now : Time) (t : Tables H) (row : EventRow H) (u : Tables H)
      → append H i type actor payload id now t ≡ ok (row, u)
      → Appended i type actor payload t row u
  unfolding append next_sequence chain_hash
  append_effect i type actor payload id now t row u h =
      let (incident, found, s) = append_found i type actor payload id now t row u h in
      record {
        incident = incident;
        state = s.0;
        found = found;
        accepted = s.1;
        links = ground arith;
        owner = ground arith;
        typed = ground arith;
        carried = ground arith;
        events = ground arith;
        incidents = ground arith;
      }
