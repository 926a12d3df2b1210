-- ===== src/Deposit/Change.antt =====
-- The requests to change or stop a deposit: backend/src/deposit/deposit-change.service.ts.
pub mod Types
pub mod Rules
pub mod Requests
pub mod Approval
pub mod Phases
pub mod Reviewed
pub mod Bulk
