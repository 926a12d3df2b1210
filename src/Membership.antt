-- ===== src/Membership.antt =====
-- The applications of employees to become members: backend/src/member-application.
pub mod Types
pub mod Submission
pub mod Review
pub mod Submitted
pub mod Unique
pub mod Reviewed
pub mod Phases
pub mod Progress
pub mod Bulk
pub mod Joining
pub mod Settling
