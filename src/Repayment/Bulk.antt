-- ===== src/Repayment/Bulk.antt =====
-- `bulkProcessApproval` of backend/src/loan-repayment/services/repayment-approval.service.ts.
use kamorina.Base.{
  ℕ, String, ◌≡◌, List, Result, ok, err, Store, BulkResults, bulk, on_row, AllRows, on_row-AllRows,
  bulk_keeps, bulk-reported, reported, length, arith,
}
use kamorina.Savings.Types.{ApprovalDecision, approved, rejected}
use kamorina.Repayment.Types.{RepaymentStatus, LoanRepayment, RepaymentError, repayment_not_found}
use kamorina.Repayment.Approval.{ApproveRepaymentDto, process_approval}
use kamorina.Repayment.Phases.{IsValid, reviewed_repayment-IsValid}

-- `newStatus || RepaymentStatus.REJECTED`: a rejection reports no new status, an approval the one
-- that it has written.
abbrev reported_status : ApprovalDecision → LoanRepayment → RepaymentStatus
reported_status rejected r = RepaymentStatus.rejected
reported_status approved r = r.status

abbrev reported_approval :
    ApprovalDecision
    → Result RepaymentError LoanRepayment
    → Result RepaymentError (LoanRepayment × RepaymentStatus)
reported_approval d (ok r) = ok (r, reported_status d r)
reported_approval d (err e) = err e

reported_approval-eq-ok :
    (d : ApprovalDecision) (m : Result RepaymentError LoanRepayment) {r : LoanRepayment}
    {s : RepaymentStatus}
    → reported_approval d m ≡ ok (r, s)
    → m ≡ ok r
reported_approval-eq-ok d (ok x) h = ground arith
reported_approval-eq-ok d (err e) h = cc

module _ (store : Store LoanRepayment) (now user : ℕ) where
  open store use {State}

  unfoldable pub bulk_process_approval :
      List String
      → ApproveRepaymentDto
      → List ℕ
      → State
      → BulkResults RepaymentError RepaymentStatus × State
  bulk_process_approval roles dto = bulk (
      on_row store repayment_not_found
        (λ r. reported_approval dto.decision (process_approval now user roles dto r)))

  -- A bulk approval of repayments reports every id that was asked for, and leaves every repayment
  -- valid.
  pub bulk_process_approval-keeps_IsValid :
      (roles : List String) (dto : ApproveRepaymentDto) (ids : List ℕ) (s : State)
      → AllRows store IsValid s
      → let (results, s') = bulk_process_approval roles dto ids s in
        (reported results ≡ length ids) × AllRows store IsValid s'
  unfolding bulk_process_approval
  bulk_process_approval-keeps_IsValid roles dto ids s h = (
    bulk-reported _ ids s,
    bulk_keeps (AllRows store IsValid) _
        (on_row-AllRows store IsValid repayment_not_found _ (λ r r' t v e.
          reviewed_repayment-IsValid now user roles dto r v
            (reported_approval-eq-ok dto.decision _ e)))
        ids s h,
  )
