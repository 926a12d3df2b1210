-- ===== src/Loan.antt =====
-- The loan component: backend/src/loan, and the loan models of backend/prisma/schema.prisma.
pub mod Types
pub mod Calculation
pub mod Validation
pub mod Approval
pub mod Revision
pub mod Submission
pub mod Installment
pub mod Disbursement
pub mod Records
pub mod Draft
pub mod DraftUpdate
pub mod Invariant
pub mod Terms
pub mod Created
pub mod Drafting
pub mod Review
pub mod Schedule
pub mod Workflow
pub mod Revised
pub mod PayOut
pub mod Reachable
pub mod Progress
pub mod Figures
pub mod Bulk
