-- ===== src/Timeline/Creation.antt =====
-- `IncidentRepository.create` keeps the tables well formed.
use cross_patch.Prelude.{
  String, ◌≡◌, sym, ◌∙◌, subst, false, none, some, inl, inr, ok, lookup, insert, lookup-insert,
  lookup-insert_self, eq_iff, arith, str_eq, Bool-cases,
}
use cross_patch.Domain.Enums.{IncidentState}
use cross_patch.Timeline.Tables.{Hashing, Incident, Tables, last_event}
use cross_patch.Timeline.Repository.{create, next_sequence, expected_head}
use cross_patch.Timeline.Chain.{IsSound}
use cross_patch.Timeline.Integrity.{IsWellFormed, IsChain-absent, Replays-absent}

module _ (H : Hashing) where
  abbrev fresh : String → IncidentState → H.Time → Incident H
  fresh title state now = record {
    title = title;
    state = state;
    next_event_sequence = 1;
    event_chain_head = none;
    created_at = now;
    updated_at = now;
  }

  -- What a call of `create` that returns has done.
  record Created (i : String) (title : String) (state : IncidentState) (now : H.Time)
      (t u : Tables H) : Type 0 where
    free : lookup i t.incidents ≡ none
    events : u.events ≡ t.events
    incidents : u.incidents ≡ insert i (fresh title state now) t.incidents

  created :
      (i : String) (title : String) (state : IncidentState) (now : H.Time) (t u : Tables H)
      → create H i title state now t ≡ ok u
      → Created i title state now t u
  unfolding create
  created i title state now t u h = ground arith

  module _ {i title : String} {state : IncidentState} {now : H.Time} {t u : Tables H}
      (c : Created i title state now t u) where
    other : (j : String) → str_eq i j ≡ false → lookup j u.incidents ≡ lookup j t.incidents
    other j e = rw (c.incidents, lookup-insert, e)

    itself : lookup i u.incidents ≡ some (fresh title state now)
    itself = rw c.incidents (lookup-insert_self i (fresh title state now) t.incidents)

    IsSound-itself :
        (initial : String → IncidentState)
        → initial i ≡ state
        → last_event H i t.events ≡ none
        → (incident : Incident H) → lookup i u.incidents ≡ some incident
        → IsSound H (initial i) i incident u.events
    unfolding next_sequence expected_head
    IsSound-itself initial start empty incident h =
        let e : some (fresh title state now) ≡ some incident = sym itself ∙ h in
        let same : fresh title state now ≡ incident = cc e in
        rw (← same, c.events, start)
          (record {
            chain = IsChain-absent H i t.events empty;
            sequence = rw empty;
            head = rw empty;
            state = Replays-absent H i state t.events empty;
          })

    IsWellFormed-created :
        (initial : String → IncidentState)
        → initial i ≡ state
        → last_event H i t.events ≡ none
        → IsWellFormed H initial t
        → IsWellFormed H initial u
    IsWellFormed-created initial start empty w = record {
      sound = λ j incident h. elim (Bool-cases (str_eq i j)) [
        | inl e ↦
            subst
              (λ k.
                lookup k u.incidents ≡ some incident → IsSound H (initial k) k incident u.events)
              ((eq_iff i j).0 e) (IsSound-itself initial start empty incident) h
        | inr e ↦ rw c.events (w.sound j incident (sym (other j e) ∙ h))
      ];
      absent = λ j h. elim (Bool-cases (str_eq i j)) [
        | inl e ↦
            absurd
              (cc (itself, subst (λ k. lookup k u.incidents ≡ none) (sym ((eq_iff i j).0 e)) h))
        | inr e ↦ rw c.events (w.absent j (sym (other j e) ∙ h))
      ];
    }

  -- A call of `create` that returns, for an incident that is to start in the given state, keeps
  -- the tables well formed and adds no event.
  pub create-IsWellFormed :
      (initial : String → IncidentState) (i : String) (title : String) (state : IncidentState)
      (now : H.Time) (t u : Tables H)
      → initial i ≡ state
      → IsWellFormed H initial t
      → create H i title state now t ≡ ok u
      → IsWellFormed H initial u × (u.events ≡ t.events)
  create-IsWellFormed initial i title state now t u start w h =
      let c = created i title state now t u h in
      (IsWellFormed-created c initial start (w.absent i c.free) w, c.events)
