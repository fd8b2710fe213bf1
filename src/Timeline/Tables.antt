-- ===== src/Timeline/Tables.antt =====
-- The rows that the repositories read and write (IncidentRecord and TimelineEventRecord of
-- backend/src/crosspatch/db/models.py, as far as the repositories use them), and their constraints.
use cross_patch.Prelude.{
  ℕ, String, ◌≡◌, ◌↔◌, Bool, false, ◌||◌, ◌&&◌, Option, none, some, List, [], ◌∷◌, Dict, str_eq,
  ltb, ◌==◌, if◌then◌else◌,
}
use cross_patch.Domain.Enums.{IncidentState}
use cross_patch.Domain.Event.{EventType, Payload}

-- What `sha256_hex` is given, in `EventRepository.append`.
pub record EventBody (Time Digest : Type 0) : Type 0 where
  pub incident_id : String
  pub sequence : ℕ
  pub type : EventType
  pub actor : String
  pub payload : Payload
  pub previous_hash : Digest
  pub created_at : Time

-- Digests and their calculation: SHA-256 is not code of the repository. `same` is the equality
-- of hexadecimal texts.
pub record Hashing : Type 1 where
  pub Time : Type 0
  pub Digest : Type 0
  pub same : Digest → Digest → Bool
  pub same_iff : (a b : Digest) → (same a b ≡ Bool.true) ↔ (a ≡ b)
  pub zero_hash : Digest
  pub sha256_hex : EventBody Time Digest → Digest

module _ (H : Hashing) where
  open H use {Time, Digest, same}

  pub record EventRow : Type 0 where
    pub id : String
    pub body : EventBody Time Digest
    pub event_hash : Digest

  pub record Incident : Type 0 where
    pub title : String
    pub state : IncidentState
    pub next_event_sequence : ℕ
    pub event_chain_head : Option Digest
    pub created_at : Time
    pub updated_at : Time

  -- The events stand newest first.
  pub record Tables : Type 0 where
    pub incidents : Dict Incident
    pub events : List EventRow

  later : EventRow → Option EventRow → Option EventRow
  later r none = some r
  later r (some q) = if ltb q.body.sequence r.body.sequence then some r else some q

  -- SELECT … WHERE incident_id = :id ORDER BY sequence DESC LIMIT 1
  unfoldable pub last_event : String → List EventRow → Option EventRow
  unfolding later
  last_event i [] = none
  last_event i (r ∷ rs) =
      let rest = last_event i rs in if str_eq r.body.incident_id i then later r rest else rest

  -- The unique columns of `timeline_events`: id, event_hash, and (incident_id, sequence).
  unfoldable pub conflicts : EventRow → List EventRow → Bool
  conflicts r [] = false
  conflicts r (q ∷ qs) =
      str_eq q.id r.id
      || same q.event_hash r.event_hash
      || (str_eq q.body.incident_id r.body.incident_id && q.body.sequence == r.body.sequence)
      || conflicts r qs
