-- ===== src/Numbers.antt =====
-- The display numbers of loans, repayments, deposits, changes and withdrawals, such as
-- DEPO-20260103-0001, in backend/src/loan/services/loan-number.service.ts and the generators like it. A
-- text is the list of its characters' codes.
pub mod Generator
pub mod Sequence
pub mod RoundTrip
