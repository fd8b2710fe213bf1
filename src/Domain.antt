-- ===== src/Domain.antt =====
-- backend/src/crosspatch/domain: the closed vocabulary, typed events and the transition policy.
pub mod Enums
pub mod Names
pub mod Seats
pub mod Event
pub mod Persisted
pub mod Transition
