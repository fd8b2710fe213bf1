-- ===== src/Runner.antt =====
-- backend/src/crosspatch/runner: the server-owned plans and the receipts of their runs.
pub mod Catalog
pub mod Receipt
