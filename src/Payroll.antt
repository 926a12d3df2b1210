-- ===== src/Payroll.antt =====
-- The payroll run on the savings: backend/src/payroll/services, the entrance fees and the monthly fees.
pub mod Types
pub mod MembershipFee
pub mod MandatorySavings
pub mod DepositSavings
pub mod LoanInstallments
pub mod MonthPaid
pub mod MonthFund
pub mod Months
pub mod Deposits
pub mod PaidOff
pub mod Collected
pub mod Reprocessed
pub mod Interest
pub mod Accrued
