-- ===== src/Scenarios.antt =====
-- Runs of the model at concrete inputs.
mod Lifecycle
mod Ledger
mod Lifetime
mod Escalations
mod Warrants
mod Brokerage
mod Deposits
mod Patches
mod Room
mod Deliberations
