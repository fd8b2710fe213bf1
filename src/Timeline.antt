-- ===== src/Timeline.antt =====
-- backend/src/crosspatch/db/repositories.py: incidents and their append-only, hash-linked events.
pub mod Tables
pub mod Repository
pub mod Chain
pub mod Integrity
pub mod History
pub mod Creation
pub mod Authority
