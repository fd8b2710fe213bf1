-- ===== src/Timeline/History.antt =====
-- One incident's own events, taken from the table, and how far the chain head determines them.
use cross_patch.Prelude.{
  ◌≤◌, String, ◌≡◌, refl, ap, ap₂, ◌∙◌, Option, none, some, List, [], ◌∷◌, inl, inr, if◌then◌else◌,
  arith, str_eq, Bool-cases, lookup, subst,
}
use cross_patch.Domain.Enums.{IncidentState}
use cross_patch.Timeline.Tables.{Hashing, EventBody, EventRow, Incident, Tables, last_event}
use cross_patch.Timeline.Repository.{next_sequence, chain_hash, expected_head}
use cross_patch.Timeline.Chain.{Links, IsChain, last_event-here, last_event-elsewhere}
use cross_patch.Timeline.Integrity.{IsWellFormed}

module _ (H : Hashing) where
  -- The rows of the incident `i`, newest first.
  pub own : String → List (EventRow H) → List (EventRow H)
  own i [] = []
  own i (r ∷ rs) = if str_eq r.body.incident_id i then r ∷ own i rs else own i rs

  abbrev newest : List (EventRow H) → Option (EventRow H)
  newest [] = none
  newest (r ∷ rs) = some r

  abbrev IsLinked : List (EventRow H) → Type 0
  IsLinked [] = Unit
  IsLinked (r ∷ rs) = Links H r (newest rs) × IsLinked rs

  last_event-empty : (i : String) → last_event H i [] ≡ none
  unfolding last_event
  last_event-empty i = refl

  own-IsLinked :
      (i : String) (rs : List (EventRow H))
      → IsChain H i rs
      → IsLinked (own i rs) × (last_event H i rs ≡ newest (own i rs))
  unfolding own
  own-IsLinked i [] h = (tt, last_event-empty i)
  own-IsLinked i (r ∷ rs) h = elim (Bool-cases (str_eq r.body.incident_id i)) [
    | inl e ↦
        let (link, below) = rw e at h in
        let (linked, newest_below) = own-IsLinked i rs below in
        rw e
          ((subst (Links H r) newest_below link, linked), last_event-here H i r rs e link.sequence)
    | inr e ↦
        let (linked, newest_below) = own-IsLinked i rs h.1 in
        rw e (linked, last_event-elsewhere H i r rs e ∙ newest_below)
  ]

  next_sequence-pos : (o : Option (EventRow H)) → 1 ≤ next_sequence H o
  unfolding next_sequence
  next_sequence-pos o = ground arith

  same_link :
      (rs qs : List (EventRow H))
      → IsLinked rs
      → IsLinked qs
      → next_sequence H (newest rs) ≡ next_sequence H (newest qs)
      → chain_hash H (newest rs) ≡ chain_hash H (newest qs)
      → expected_head H (newest rs) ≡ expected_head H (newest qs)
  unfolding next_sequence chain_hash expected_head
  same_link [] [] l k s c = refl
  same_link [] (q ∷ qs) l (link, k) s c = absurd (omega (arith, next_sequence-pos (newest qs)))
  same_link (r ∷ rs) [] (link, l) k s c = absurd (omega (arith, next_sequence-pos (newest rs)))
  same_link (r ∷ rs) (q ∷ qs) l k s c = cc

  -- A canonical encoding in which no two hashed bodies collide.
  module _ {Bytes : Type 0} (canonical : EventBody H.Time H.Digest → Bytes)
      (collision_free : (a b : EventBody H.Time H.Digest)
        → H.sha256_hex a ≡ H.sha256_hex b
        → canonical a ≡ canonical b)
      (encodes_link : (a b : EventBody H.Time H.Digest)
        → canonical a ≡ canonical b
        → (a.sequence ≡ b.sequence) × (a.previous_hash ≡ b.previous_hash)) where
    pub encoded : List (EventRow H) → List Bytes
    encoded [] = []
    encoded (r ∷ rs) = canonical r.body ∷ encoded rs

    same_rows :
        (rs qs : List (EventRow H))
        → IsLinked rs
        → IsLinked qs
        → expected_head H (newest rs) ≡ expected_head H (newest qs)
        → encoded rs ≡ encoded qs
    unfolding encoded expected_head
    same_rows [] [] l k h = refl
    same_rows [] (q ∷ qs) l k h = cc
    same_rows (r ∷ rs) [] l k h = cc
    same_rows (r ∷ rs) (q ∷ qs) (link, l) (klink, k) h =
        let body = collision_free r.body q.body (cc (link.hashed, klink.hashed)) in
        let (sequence, previous) = encodes_link r.body q.body body in
        let head =
          same_link rs qs l k (cc (link.sequence, klink.sequence))
            (cc (link.previous, klink.previous)) in
        ap₂ (λ x xs. x ∷ xs) body (same_rows rs qs l k head)

    -- Tampering is evident: if in two well-formed states of the tables an incident has the same
    -- chain head, its events are the same, in number, order and canonical bytes, provided that
    -- SHA-256 has no collision and that the canonical bytes determine the sequence number and the
    -- previous hash.
    pub same_head-same_events :
        (initial : String → IncidentState) (i : String) (t u : Tables H) (a b : Incident H)
        → IsWellFormed H initial t
        → IsWellFormed H initial u
        → lookup i t.incidents ≡ some a
        → lookup i u.incidents ≡ some b
        → a.event_chain_head ≡ b.event_chain_head
        → encoded (own i t.events) ≡ encoded (own i u.events)
    same_head-same_events initial i t u a b v w p q h =
        let x = v.sound i a p in
        let y = w.sound i b q in
        let (l, newest_l) = own-IsLinked i t.events x.chain in
        let (k, newest_k) = own-IsLinked i u.events y.chain in
        same_rows (own i t.events) (own i u.events) l k
          (cc (x.head, y.head, h, ap (expected_head H) newest_l, ap (expected_head H) newest_k))
