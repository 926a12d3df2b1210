-- ===== src/Savings.antt =====
-- The savings accounts and their withdrawals: backend/src/savings.
pub mod Types
pub mod Approval
pub mod Creation
pub mod Payment
pub mod Confirmation
pub mod Member
pub mod Rows
pub mod Coverage
pub mod Bulk
pub mod Phases
pub mod Review
