-- ===== src/Lib.antt =====
-- Kamorina: the money of a savings and loan cooperative, as its backend (NestJS services over a
-- Prisma database, in backend/src) moves it.
--
-- The parts and their files:
-- - Base: the shared names; calls that throw (Base/Throwing), the database client
--   (Base/Database), requests on a row by its id and the bulk requests (Base/Bulk), and integers
--   (Base/Int).
-- - Loan: backend/src/loan. Types has the rows of backend/prisma/schema.prisma, a loan with the
--   relations that the services load. Calculation, Validation, Draft, DraftUpdate, Submission,
--   Approval, Revision, Disbursement (with the authorization) and Installment are the services of
--   backend/src/loan/services and the handlers of backend/src/loan/handlers, a function for a
--   method under its name in snake case. The other files hold the proofs: Records and Invariant
--   about the rest of a loan by its status, Terms says by the loan's type what a loan is for,
--   Created, Drafting, Review, Workflow, Revised, PayOut and Progress are about the requests one
--   by one, Reachable about sequences of them, Schedule about the installments, Figures about the
--   calculation, and Bulk (model and proofs) about the bulk requests.
-- - SocialFund: backend/src/social-fund/social-fund.service.ts. Types and Rows have the ledger,
--   Service the operations, Balance the sum of a ledger, Solvency the operations' effect on the
--   balance, Reachable the sequences of them, and Recalculation the rows that are recalculated.
-- - Savings: backend/src/savings/savings-withdrawal.service.ts. Types has the rows, Approval the
--   review and the cancellation, Creation the request with its penalty, Payment the two
--   confirmations, Member one member's account with the withdrawals and the requests on it, Bulk
--   (model and proofs) the bulk requests. Phases is about a withdrawal by its status, Review and
--   Confirmation are about the requests one by one, and Rows and Coverage are about sequences of
--   them.
-- - Repayment: backend/src/loan-repayment, with backend/src/payroll/services/
--   loan-repayment.processor.ts. Creation has the calculation, the checks and the request,
--   Approval the review, Settlement the payroll run on the approved repayments, and Bulk (model
--   and proofs) the bulk request. Phases is about the review, Settled about the request and the
--   run, and Replenished about what the run brings the fund.
-- - Payroll: backend/src/payroll/services. Types has the settings and rows of
--   membership-fee.processor.ts (MembershipFee) and mandatory-savings.processor.ts
--   (MandatorySavings); DepositSavings is deposit-savings.processor.ts, LoanInstallments
--   loan-installment.processor.ts, Interest interest-calculator.processor.ts. PaidOff is about
--   two runs on the entrance fees, Collected about the totals of a run, Reprocessed about a
--   second run of the same period, Months and Deposits about the deposits in runs of several
--   months and in one run, MonthPaid and MonthFund about the loans and the fund after a run on
--   the installments, and Accrued about the interest.
-- - Deposit: backend/src/deposit/deposit.service.ts, with its change requests of
--   deposit-change.service.ts in Deposit/Change. Types has the rows, Dates the dates that a final
--   approval sets, Review what the two reviews share, Application the request and the review,
--   Bulk (model and proofs) the bulk request, Options the tables of amounts and tenors of
--   deposit-option.service.ts, and Offered is about a deposit with an option from them. Decisions
--   and Phases are about a deposit by its status, Creation about the request, Standing about the
--   review as a machine of four states, Schedule about the dates. Change/Rules and
--   Change/Requests are the member's side of a change, Change/Approval is its review,
--   Change/Phases and Change/Reviewed are about a change by its status, and Change/Bulk has the
--   bulk request. Case has a deposit with its changes and its owner's account as the requests and
--   the payroll's runs take it on; Booked, Accepted, Requested, Changed, Sound and Reachable are
--   about that.
-- - Membership: backend/src/member-application. Types has a user with the application and the
--   account, Submission and Review the requests, Bulk (model and proofs) the bulk request.
--   Submitted and Reviewed are about what a request has passed, Unique about the unique numbers,
--   Phases about a user by the application's status, Progress about reviews that can be made, and
--   Joining and Settling about the way from the application to the fee that is paid.
-- - Numbers: the display numbers of loan-number.service.ts, repayment-number.service.ts and the
--   generators in the services of deposits, changes and withdrawals. Generator has their code,
--   Sequence is about the digits, RoundTrip about the number that is read back.
-- - Examples: a loan from draft to payout, a repayment, a fund, a withdrawal, a deposit with a
--   change, a new member, and payroll runs, and the theorems at them.
-- The loans and the fund meet in `deductSocialFund`, which takes the payout of an excess loan
-- from the fund's balance, and in `replenishSocialFund`, which brings its repayment back, at once
-- or by its installments. The deposits and the savings meet in the owner's account, which the
-- payroll's deposits and the fees of changes move. A member's application ends in the account and
-- in the entrance fee that the payroll collects.
--
-- Conventions:
-- - An amount or a rate is a whole number of hundredths, which is what the database's decimals
--   keep, in ℕ, or in ℤ where it can be negative; for the fees in Membership,
--   Payroll/MembershipFee and Payroll/MandatorySavings a whole number of half hundredths.
--   Quotients are exact before they are rounded, where the code computes them in doubles. An id
--   is a number, since ids are only compared, and a time is a number of milliseconds. The current
--   time and the ids of new rows are arguments.
-- - A method is given the row that it loads, and returns it as its transaction leaves it, or the
--   error that it throws, which rolls the transaction back. The requests by id are stated over a
--   `Store`, a parameter with the two laws of saving and loading by id.
-- - The date library is the parameter `Calendar`, with the law that adding months moves the month
--   by that many. The JavaScript dates of the deposits are computed, in local time.
-- - Loops are structural recursions on a list or on the number of rounds left, so no fuel is
--   used; but a date past its month's end is carried on for as many rounds as its day says, which
--   are enough since a month has a day; and a number is printed in as many rounds as it says,
--   each of which takes a digit off.
--
-- Not modelled: the queued emails, since a failure to queue one is caught and logged; the queries
-- that only read; the requests' format checks; concurrent requests on one row; database calls
-- that fail inside a payroll run. Of the backend, the withdrawals and the order of the processors
-- of a payroll run, the settings, the users and their sign-in, the uploads and the dashboard are
-- not modelled either. The frontend only calls the backend.
pub mod Base
pub mod SocialFund
pub mod Loan
pub mod Savings
pub mod Repayment
pub mod Payroll
pub mod Deposit
pub mod Membership
pub mod Numbers
mod Examples
