-- ===== src/Examples.antt =====
-- The theorems at concrete loans, funds and requests, and runs of the definitions.
mod Sample
mod Loans
mod Review
mod Payout
mod Figures
mod Bulk
mod Funds
mod Savings
mod Withdrawals
mod Drafts
mod Repayments
mod Payroll
mod Deposits
mod Changes
mod Installments
mod Members
mod Interest
mod Numbers
