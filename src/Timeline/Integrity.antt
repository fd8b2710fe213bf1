-- ===== src/Timeline/Integrity.antt =====
-- The repositories keep the tables well formed; what a well-formed timeline proves.
use cross_patch.Prelude.{
  ◌+◌, String, ◌≡◌, ◌≢◌, sym, ap, ◌∙◌, subst, true, false, none, some, List, [], ◌∷◌, inl, inr, ok,
  lookup, lookup-insert, lookup-insert_self, eq_iff, eq_refl, arith, str_eq, Bool-cases,
}
use cross_patch.Domain.Enums.{IncidentState}
use cross_patch.Domain.Event.{EventType, Payload}
use cross_patch.Timeline.Tables.{Hashing, EventRow, Incident, Tables, last_event}
use cross_patch.Timeline.Repository.{append, next_sequence, expected_head}
use cross_patch.Timeline.Chain.{
  IsChain, Replays, none_yet, elsewhere, here, IsSound, Appended, append_effect, last_event-here,
  last_event-elsewhere,
}

-- The tables are well formed, each incident `i` having been created in the state `initial i`.
pub record IsWellFormed (H : Hashing) (initial : String → IncidentState) (t : Tables H)
    : Type 0 where
  pub sound :
      (i : String) (incident : Incident H)
      → lookup i t.incidents ≡ some incident
      → IsSound H (initial i) i incident t.events
  pub absent : (i : String) → lookup i t.incidents ≡ none → last_event H i t.events ≡ none

module _ (H : Hashing) where
  absent_below :
      (i : String) (r : EventRow H) (rs : List (EventRow H))
      → last_event H i (r ∷ rs) ≡ none
      → (str_eq r.body.incident_id i ≡ false) × (last_event H i rs ≡ none)
  unfolding last_event
  absent_below i r rs h = ground arith

  pub IsChain-absent :
      (i : String) (rs : List (EventRow H)) → last_event H i rs ≡ none → IsChain H i rs
  IsChain-absent i [] h = tt
  IsChain-absent i (r ∷ rs) h =
      let (other, below) = absent_below i r rs h in rw other (tt, IsChain-absent i rs below)

  pub Replays-absent :
      (i : String) (s : IncidentState) (rs : List (EventRow H))
      → last_event H i rs ≡ none
      → Replays H i s rs s
  Replays-absent i s [] h = none_yet
  Replays-absent i s (r ∷ rs) h =
      let (other, below) = absent_below i r rs h in elsewhere other (Replays-absent i s rs below)

  module _ {i : String} {type : EventType} {actor : String} {payload : Payload} {t : Tables H}
      {row : EventRow H} {u : Tables H} (a : Appended H i type actor payload t row u) where
    owned : str_eq row.body.incident_id i ≡ true
    owned = rw a.owner (eq_refl i)

    updated :
        (incident : Incident H)
        → lookup i u.incidents ≡ some incident
        → (incident.next_event_sequence ≡ row.body.sequence + 1)
          × (incident.event_chain_head ≡ some row.event_hash)
          × (incident.state ≡ a.state)
    updated incident h =
        let e = sym (lookup-insert_self i _ t.incidents) ∙ sym (ap (lookup i) a.incidents) ∙ h in
        ground arith

    IsSound-here :
        (s₀ : IncidentState)
        → IsSound H s₀ i a.incident t.events
        → (incident : Incident H) → lookup i u.incidents ≡ some incident
        → IsSound H s₀ i incident u.events
    unfolding next_sequence expected_head
    IsSound-here s₀ w incident h =
        let (seq, head, state) = updated incident h in
        let last = last_event-here H i row t.events owned a.links.sequence in
        rw a.events (record {
          chain = rw owned (a.links, w.chain);
          sequence = rw last seq;
          head = rw last head;
          state = rw state (here owned w.state (rw (a.typed, a.carried) a.accepted));
        })

    IsSound-elsewhere :
        (s₀ : IncidentState) (j : String)
        → str_eq i j ≡ false
        → (incident : Incident H) → IsSound H s₀ j incident t.events
        → IsSound H s₀ j incident u.events
    IsSound-elsewhere s₀ j other incident w =
        let foreign : str_eq row.body.incident_id j ≡ false = rw a.owner other in
        let last = last_event-elsewhere H j row t.events foreign in
        rw a.events (record {
          chain = rw foreign (tt, w.chain);
          sequence = rw last w.sequence;
          head = rw last w.head;
          state = elsewhere foreign w.state;
        })

    unchanged : (j : String) → str_eq i j ≡ false → lookup j u.incidents ≡ lookup j t.incidents
    unchanged j other = rw (a.incidents, lookup-insert, other)

    present : lookup i u.incidents ≢ none
    present h = cc (sym (lookup-insert_self i _ t.incidents) ∙ sym (ap (lookup i) a.incidents) ∙ h)

    still_absent :
        (j : String) → str_eq i j ≡ false → last_event H j u.events ≡ last_event H j t.events
    still_absent j other = rw a.events (last_event-elsewhere H j row t.events (rw a.owner other))

    IsWellFormed-appended :
        (initial : String → IncidentState) → IsWellFormed H initial t → IsWellFormed H initial u
    IsWellFormed-appended initial w = record {
      sound = λ j incident h. elim (Bool-cases (str_eq i j)) [
        | inl e ↦
            subst
              (λ k.
                lookup k u.incidents ≡ some incident → IsSound H (initial k) k incident u.events)
              ((eq_iff i j).0 e) (IsSound-here (initial i) (w.sound i a.incident a.found) incident)
              h
        | inr e ↦
            IsSound-elsewhere (initial j) j e incident
              (w.sound j incident (sym (unchanged j e) ∙ h))
      ];
      absent = λ j h. elim (Bool-cases (str_eq i j)) [
        | inl e ↦ absurd (present (rw ((eq_iff i j).0 e) h))
        | inr e ↦ still_absent j e ∙ w.absent j (sym (unchanged j e) ∙ h)
      ];
    }

  -- A call of `append` that returns keeps the tables well formed, for every incident, and only
  -- adds its one row in front of the rows that were there.
  pub append-IsWellFormed :
      (initial : String → IncidentState) (i : String) (type : EventType) (actor : String)
      (payload : Payload) (id : String) (now : H.Time) (t : Tables H) (row : EventRow H)
      (u : Tables H)
      → IsWellFormed H initial t
      → append H i type actor payload id now t ≡ ok (row, u)
      → IsWellFormed H initial u × (u.events ≡ row ∷ t.events)
  append-IsWellFormed initial i type actor payload id now t row u w h =
      let a = append_effect H i type actor payload id now t row u h in
      (IsWellFormed-appended a initial w, a.events)
