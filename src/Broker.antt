-- ===== src/Broker.antt =====
-- backend/src/crosspatch/broker: warrants, their human approval, the single-use claim and the run.
pub mod Documents
pub mod Primitives
pub mod Warrant
pub mod Approval
pub mod Validation
pub mod Store
pub mod Parsing
pub mod Paths
pub mod Durable
pub mod Execution
