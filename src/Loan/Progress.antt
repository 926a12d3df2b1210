-- ===== src/Loan/Progress.antt =====
-- A reviewer of the right role can always decide, and what the decision does.
use kamorina.Base.{
  ℕ, ◌+◌, String, ◌≡◌, refl, true, false, none, some, List, arith, length, ok, subst, length-append,
  inl, inr,
}
use kamorina.Loan.Types.{
  LoanStatus, draft, submitted, under_review_dsp, under_review_ketua, under_review_pengawas,
  approved_pending_disbursement, disbursement_in_progress, pending_authorization, disbursed,
  completed, rejected, cancelled, LoanApplication, approve, reject, revise, LoanApprovalStep,
  divisi_simpan_pinjam, ketua, pengawas, LoanApproval, LoanApprovalDecision, is_status,
}
use kamorina.Loan.Approval.{
  ApproveLoanDto, ApprovalOutcome, get_status_for_step, get_next_step, has_role_for, find_approval,
  is_processed, conclude, with_record, at_step, process_rejection, process_approval_decision,
  process_approval, status_after_approval,
}
use kamorina.Loan.Records.{find_approval-HasDecisions}
use kamorina.Loan.Invariant.{IsPhase, IsValid, process_approval-Reviewed}

-- The phase of a loan that stands at a step.
at_step-status :
    (loan : LoanApplication) (step : LoanApprovalStep)
    → IsValid loan
    → loan.current_step ≡ some step
    → loan.status ≡ get_status_for_step step
unfolding get_status_for_step
at_step-status loan step v c = go loan.status refl v
  where
    go :
        (k : LoanStatus) → loan.status ≡ k → IsPhase k loan → loan.status ≡ get_status_for_step step
    go draft e p = cc
    go under_review_dsp e p = ground arith
    go under_review_ketua e p = ground arith
    go under_review_pengawas e p = ground arith
    go approved_pending_disbursement e p = cc
    go pending_authorization e p = cc
    go disbursed e p = cc
    go completed e p = cc
    go rejected e p = cc
    go submitted e p = absurd p
    go disbursement_in_progress e p = absurd p
    go cancelled e p = absurd p

-- The record of the step is there, and open.
open_record :
    (loan : LoanApplication) (step : LoanApprovalStep)
    → IsPhase (get_status_for_step step) loan
    → (a : LoanApproval) × (find_approval step loan.approvals ≡ some a)
      × (is_processed a.decision ≡ false)
unfolding get_status_for_step
open_record loan divisi_simpan_pinjam p = elim p.1 [
  | inl h ↦
      let (a, f, d) =
        find_approval-HasDecisions divisi_simpan_pinjam loan.approvals none none none h in
      (a, f, rw d)
  | inr h ↦
      let (a, f, d) =
        find_approval-HasDecisions divisi_simpan_pinjam loan.approvals (some revise) none none h in
      (a, f, rw d)
]
open_record loan ketua p =
    let (a, f, d) = find_approval-HasDecisions ketua loan.approvals (some approve) none none p.1 in
    (a, f, rw d)
open_record loan pengawas p =
    let (a, f, d) =
      find_approval-HasDecisions pengawas loan.approvals (some approve) (some approve) none p.1 in
    (a, f, rw d)

is_status_refl : (s : LoanStatus) → is_status s s ≡ true
is_status_refl s = ground arith

decided :
    (now approver : ℕ) (roles : List String) (dto : ApproveLoanDto) (loan : LoanApplication)
    (step : LoanApprovalStep) (a : LoanApproval)
    → loan.current_step ≡ some step
    → has_role_for step roles ≡ true
    → loan.status ≡ get_status_for_step step
    → find_approval step loan.approvals ≡ some a
    → is_processed a.decision ≡ false
    → process_approval now approver roles dto loan
      ≡ ok (conclude step now approver dto a loan dto.decision)
unfolding process_approval
decided now approver roles dto loan step a c r s f o =
    rw (c, at_step, r, is_status_eq) (rw (f, with_record, o))
  where
    is_status_eq : is_status loan.status (get_status_for_step step) ≡ true
    is_status_eq = rw s (is_status_refl (get_status_for_step step))

-- A valid loan that waits at a step is decided by any request of a user with the step's role.
pub process_approval_total :
    (now approver : ℕ) (roles : List String) (dto : ApproveLoanDto) (loan : LoanApplication)
    (step : LoanApprovalStep)
    → IsValid loan
    → loan.current_step ≡ some step
    → has_role_for step roles ≡ true
    → (result : LoanApplication × ApprovalOutcome) × (process_approval now approver roles dto loan
        ≡ ok result)
process_approval_total now approver roles dto loan step v c r =
    let s = at_step-status loan step v c in
    let (a, f, o) = open_record loan step (subst (λ k. IsPhase k loan) s v) in
    (
      conclude step now approver dto a loan dto.decision,
      decided now approver roles dto loan step a c r s f o,
    )

-- What a decision leaves of a loan, by the decision.
abbrev pub IsDecided :
    LoanApprovalStep → LoanApprovalDecision → LoanApplication → LoanApplication → Type 0
IsDecided step reject loan loan' =
    (loan'.status ≡ LoanStatus.rejected) × (loan'.current_step ≡ none)
IsDecided step _ loan loan' =
    (loan'.status ≡ status_after_approval step loan.status)
    × (loan'.current_step ≡ get_next_step step)

-- The figures of a loan, which a decision does not touch.
abbrev pub HasSameFigures : LoanApplication → LoanApplication → Type 0
HasSameFigures loan loan' =
    (loan'.loan_amount ≡ loan.loan_amount)
    × (loan'.loan_tenor ≡ loan.loan_tenor)
    × (loan'.monthly_installment ≡ loan.monthly_installment)
    × (loan'.total_repayment ≡ loan.total_repayment)

conclude-IsDecided :
    (step : LoanApprovalStep) (now approver : ℕ) (dto : ApproveLoanDto) (a : LoanApproval)
    (loan : LoanApplication) (d : LoanApprovalDecision)
    → let loan' = (conclude step now approver dto a loan d).0 in
      IsDecided step d loan loan'
      × HasSameFigures loan loan'
      × (length loan'.history ≡ length loan.history + 1)
unfolding process_rejection process_approval_decision
conclude-IsDecided step now approver dto a loan reject =
    ((refl, refl), (refl, refl, refl, refl), length-append loan.history _)
conclude-IsDecided step now approver dto a loan approve =
    ((refl, refl), (refl, refl, refl, refl), length-append loan.history _)
conclude-IsDecided step now approver dto a loan revise =
    ((refl, refl), (refl, refl, refl, refl), length-append loan.history _)

-- A decision that is accepted was made by a user with the role of the loan's step, while the loan
-- had the status of that step; it rejects the loan or moves it to the next step's status, keeps
-- its figures, and adds one row to its history.
pub process_approval-IsDecided :
    (now approver : ℕ) (roles : List String) (dto : ApproveLoanDto) (loan : LoanApplication)
    {result : LoanApplication × ApprovalOutcome}
    → process_approval now approver roles dto loan ≡ ok result
    → (step : LoanApprovalStep) × (loan.current_step ≡ some step)
      × (has_role_for step roles ≡ true)
      × (loan.status ≡ get_status_for_step step)
      × IsDecided step dto.decision loan result.0
      × HasSameFigures loan result.0
      × (length result.0.history ≡ length loan.history + 1)
process_approval-IsDecided now approver roles dto loan h =
    let r = process_approval-Reviewed now approver roles dto loan h in
    let (d, f, l) = conclude-IsDecided r.step now approver dto r.approval loan dto.decision in
    (
      r.step,
      r.at_current_step,
      r.has_role,
      r.has_status,
      rw r.concluded d,
      rw r.concluded f,
      rw r.concluded l,
    )
