-- ===== src/Loan/Review.antt =====
-- The review of a loan: who may decide, what a decision does, and that the phases are kept.
use kamorina.Base.{subst, ℕ, String, ◌≡◌, refl, inl, inr, Option, none, some, List, ok}
use kamorina.Loan.Types.{
  LoanApprovalStep, divisi_simpan_pinjam, ketua, pengawas, LoanApprovalDecision, approve, reject,
  revise, LoanApproval, LoanApplication,
}
use kamorina.Loan.Approval.{
  ApproveLoanDto, ApprovalOutcome, get_status_for_step, find_approval, conclude, process_rejection,
  process_approval_decision, process_approval,
}
use kamorina.Loan.Records.{decide-HasDecisions}
use kamorina.Loan.Invariant.{IsPhase, IsValid, Reviewed, process_approval-Reviewed}

module _ (now approver : ℕ) (notes : Option String) (a : LoanApproval)
    (loan : LoanApplication) where
  rejection-IsValid :
      (step : LoanApprovalStep)
      → IsPhase (get_status_for_step step) loan
      → IsValid (process_rejection step now approver notes a loan)
  unfolding process_rejection get_status_for_step
  rejection-IsValid divisi_simpan_pinjam h = (refl, h.2)
  rejection-IsValid ketua h = (refl, h.2)
  rejection-IsValid pengawas h = (refl, h.2)

  approval-IsValid :
      (step : LoanApprovalStep)
      → find_approval step loan.approvals ≡ some a
      → IsPhase (get_status_for_step step) loan
      → IsValid (process_approval_decision step now approver notes a loan)
  unfolding process_approval_decision get_status_for_step
  approval-IsValid divisi_simpan_pinjam f h =
      let decided =
        decide-HasDecisions divisi_simpan_pinjam approve now approver notes a loan.approvals in
      (
        refl,
        elim h.1 [
          | inl p ↦ decided none none none p f
          | inr p ↦ decided (some revise) none none p f
        ],
        h.2,
      )
  approval-IsValid ketua f h = (
    refl,
    decide-HasDecisions ketua approve now approver notes a loan.approvals (some approve) none none
        h.1 f,
    h.2,
  )
  approval-IsValid pengawas f h = (
    (
      refl,
      decide-HasDecisions pengawas approve now approver notes a loan.approvals (some approve)
          (some approve) none h.1 f,
    ),
    h.2,
  )

module _ (now approver : ℕ) (dto : ApproveLoanDto) (a : LoanApproval) (loan : LoanApplication)
    (step : LoanApprovalStep) where
  conclude-IsValid :
      (d : LoanApprovalDecision)
      → find_approval step loan.approvals ≡ some a
      → IsPhase (get_status_for_step step) loan
      → IsValid (conclude step now approver dto a loan d).0
  conclude-IsValid reject f h = rejection-IsValid now approver dto.notes a loan step h
  conclude-IsValid approve f h = approval-IsValid now approver dto.notes a loan step f h
  conclude-IsValid revise f h = approval-IsValid now approver dto.notes a loan step f h

module _ (now approver : ℕ) (roles : List String) (dto : ApproveLoanDto) (loan : LoanApplication)
    {result : LoanApplication × ApprovalOutcome} where
  reviewed-IsValid : Reviewed now approver roles dto loan result → IsValid loan → IsValid result.0
  reviewed-IsValid r v = rw r.concluded (
      conclude-IsValid now approver dto r.approval loan r.step dto.decision r.found
        (subst (λ s. IsPhase s loan) r.has_status v))

  -- A review that succeeds keeps a loan valid.
  pub process_approval-IsValid :
      IsValid loan → process_approval now approver roles dto loan ≡ ok result → IsValid result.0
  process_approval-IsValid v h =
      reviewed-IsValid (process_approval-Reviewed now approver roles dto loan h) v
