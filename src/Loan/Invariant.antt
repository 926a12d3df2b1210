-- ===== src/Loan/Invariant.antt =====
-- What holds of a loan between two requests, phase by phase, and that the review keeps it.
use kamorina.Base.{
  ℕ, String, ◌≡◌, refl, ◌⊎◌, true, false, Option, none, some, List, [], arith, length, is_some, ok,
}
use kamorina.Loan.Types.{
  LoanStatus, draft, submitted, under_review_dsp, under_review_ketua, under_review_pengawas,
  approved_pending_disbursement, disbursement_in_progress, pending_authorization, disbursed,
  completed, rejected, cancelled, LoanApprovalStep, divisi_simpan_pinjam, ketua, pengawas, approve,
  revise, LoanApproval, LoanApplication, is_status,
}
use kamorina.Loan.Approval.{
  ApproveLoanDto, ApprovalOutcome, get_status_for_step, has_role_for, find_approval, is_processed,
  conclude, with_record, at_step, process_approval,
}
use kamorina.Loan.Records.{HasDecisions}

abbrev pub IsNotDisbursed : LoanApplication → Type 0
IsNotDisbursed loan =
    (loan.disbursement ≡ none) × (loan.authorization ≡ none) × (loan.loan_installments ≡ [])

-- All three steps approved, and nobody's turn to review.
abbrev pub IsApprovedByAll : LoanApplication → Type 0
IsApprovedByAll loan =
    (loan.current_step ≡ none)
    × HasDecisions loan.approvals (some approve) (some approve) (some approve)

abbrev pub IsPaidOut : LoanApplication → Type 0
IsPaidOut loan =
    IsApprovedByAll loan
    × (is_some loan.disbursement ≡ true)
    × (is_some loan.authorization ≡ true)
    × (length loan.loan_installments ≡ loan.loan_tenor)

-- What a status says of the rest of the loan. Three statuses are never used.
abbrev pub IsPhase : LoanStatus → LoanApplication → Type 0
IsPhase draft loan = (loan.current_step ≡ none) × (loan.approvals ≡ []) × IsNotDisbursed loan
IsPhase under_review_dsp loan =
    (loan.current_step ≡ some divisi_simpan_pinjam)
    × (HasDecisions loan.approvals none none none
        ⊎ HasDecisions loan.approvals (some revise) none none)
    × IsNotDisbursed loan
IsPhase under_review_ketua loan =
    (loan.current_step ≡ some ketua)
    × HasDecisions loan.approvals (some approve) none none
    × IsNotDisbursed loan
IsPhase under_review_pengawas loan =
    (loan.current_step ≡ some pengawas)
    × HasDecisions loan.approvals (some approve) (some approve) none
    × IsNotDisbursed loan
IsPhase approved_pending_disbursement loan = IsApprovedByAll loan × IsNotDisbursed loan
IsPhase pending_authorization loan =
    IsApprovedByAll loan
    × (is_some loan.disbursement ≡ true)
    × (loan.authorization ≡ none)
    × (loan.loan_installments ≡ [])
IsPhase disbursed loan = IsPaidOut loan
IsPhase completed loan = IsPaidOut loan
IsPhase rejected loan = (loan.current_step ≡ none) × IsNotDisbursed loan
IsPhase submitted loan = ⊥
IsPhase disbursement_in_progress loan = ⊥
IsPhase cancelled loan = ⊥

abbrev pub IsValid : LoanApplication → Type 0
IsValid loan = IsPhase loan.status loan

-- What a successful review has passed, and what it returned.
pub record Reviewed (now approver : ℕ) (roles : List String) (dto : ApproveLoanDto)
    (loan : LoanApplication) (result : LoanApplication × ApprovalOutcome) : Type 0 where
  pub step : LoanApprovalStep
  pub approval : LoanApproval
  pub at_current_step : loan.current_step ≡ some step
  pub has_role : has_role_for step roles ≡ true
  pub has_status : loan.status ≡ get_status_for_step step
  pub found : find_approval step loan.approvals ≡ some approval
  pub open_decision : is_processed approval.decision ≡ false
  pub concluded : result ≡ conclude step now approver dto approval loan dto.decision

is_status_sound : (a b : LoanStatus) → is_status a b ≡ true → a ≡ b
is_status_sound a b h = ground arith

module _ (now approver : ℕ) (roles : List String) (dto : ApproveLoanDto) (loan : LoanApplication)
    {result : LoanApplication × ApprovalOutcome} where
  Reviewed-with_record :
      (step : LoanApprovalStep) (o : Option LoanApproval)
      → loan.current_step ≡ some step
      → has_role_for step roles ≡ true
      → loan.status ≡ get_status_for_step step
      → find_approval step loan.approvals ≡ o
      → with_record step now approver dto loan o ≡ ok result
      → Reviewed now approver roles dto loan result
  Reviewed-with_record step none c r s f h = cc
  Reviewed-with_record step (some a) c r s f h = record {
    step = step;
    approval = a;
    at_current_step = c;
    has_role = r;
    has_status = s;
    found = f;
    open_decision = ground arith;
    concluded = ground arith;
  }

  Reviewed-at_step :
      (o : Option LoanApprovalStep)
      → loan.current_step ≡ o
      → at_step now approver roles dto loan o ≡ ok result
      → Reviewed now approver roles dto loan result
  Reviewed-at_step none c h = cc
  Reviewed-at_step (some step) c h =
      Reviewed-with_record step (find_approval step loan.approvals) c (ground arith)
        (is_status_sound loan.status (get_status_for_step step) (ground arith)) refl (ground arith)

  pub process_approval-Reviewed :
      process_approval now approver roles dto loan ≡ ok result
      → Reviewed now approver roles dto loan result
  unfolding process_approval
  process_approval-Reviewed h = Reviewed-at_step loan.current_step refl h
