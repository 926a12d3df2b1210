-- ===== src/Deposit.antt =====
-- The monthly deposits and the requests to change them: backend/src/deposit.
pub mod Types
pub mod Dates
pub mod Review
pub mod Application
pub mod Decisions
pub mod Phases
pub mod Creation
pub mod Standing
pub mod Schedule
pub mod Booked
pub mod Accepted
pub mod Case
pub mod Requested
pub mod Sound
pub mod Changed
pub mod Reachable
pub mod Bulk
pub mod Options
pub mod Offered
pub mod Change
