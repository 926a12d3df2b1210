-- ===== src/SocialFund.antt =====
-- The social fund: backend/src/social-fund, and its models in backend/prisma/schema.prisma.
pub mod Types
pub mod Rows
pub mod Service
pub mod Balance
pub mod Solvency
pub mod Reachable
pub mod Recalculation
