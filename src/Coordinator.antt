-- ===== src/Coordinator.antt =====
-- backend/src/crosspatch/orchestration: the coordinator of the seats and its failures.
pub mod Outputs
pub mod Failures
pub mod Session
pub mod Checks
pub mod SeatRuns
pub mod Verdicts
pub mod Resumption
pub mod Measure
pub mod Contracts
pub mod Rounds
pub mod Outcomes
pub mod Safety
pub mod Termination
pub mod Returning
pub mod Reports
pub mod Answers
pub mod Approvals
