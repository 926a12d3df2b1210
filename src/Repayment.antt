-- ===== src/Repayment.antt =====
-- Early repayments of loans: backend/src/loan-repayment, and the payroll processor that settles them.
pub mod Types
pub mod Creation
pub mod Approval
pub mod Settlement
pub mod Phases
pub mod Settled
pub mod Replenished
pub mod Bulk
