-- ===== src/Repayment/Types.antt =====
-- The repayment models and enums of backend/prisma/schema.prisma, a repayment with its approvals.
use kamorina.Base.{ℕ, String, Bool, true, false, Option, List}
use kamorina.Savings.Types.{ApprovalDecision}

pub data RepaymentStatus : Type 0 where
  under_review_dsp under_review_ketua approved completed rejected : RepaymentStatus

pub data RepaymentApprovalStep : Type 0 where
  divisi_simpan_pinjam ketua : RepaymentApprovalStep

pub record RepaymentApproval : Type 0 where
  pub id : ℕ
  pub step : RepaymentApprovalStep
  pub decision : Option ApprovalDecision
  pub decided_at : Option ℕ
  pub approver_id : Option ℕ
  pub notes : Option String

pub record LoanRepayment : Type 0 where
  pub id : ℕ
  pub loan_application_id : ℕ
  pub user_id : ℕ
  pub total_amount : ℕ
  pub status : RepaymentStatus
  pub current_step : Option RepaymentApprovalStep
  pub is_agreed_by_member : Bool
  pub submitted_at : Option ℕ
  pub approved_at : Option ℕ
  pub rejected_at : Option ℕ
  pub rejection_reason : Option String
  pub approvals : List RepaymentApproval

-- What the services throw, by the message.
pub data RepaymentError : Type 0 where
  repayment_not_found no_access_to_loan not_agreed not_disbursed already_under_review already_paid :
      RepaymentError
  not_in_review no_access_to_step no_approval_record already_processed : RepaymentError
  status_mismatch : (expected got : RepaymentStatus) → RepaymentError

-- `===` on the enums.
abbrev pub is_status : RepaymentStatus → RepaymentStatus → Bool
is_status RepaymentStatus.under_review_dsp RepaymentStatus.under_review_dsp = true
is_status RepaymentStatus.under_review_ketua RepaymentStatus.under_review_ketua = true
is_status RepaymentStatus.approved RepaymentStatus.approved = true
is_status RepaymentStatus.completed RepaymentStatus.completed = true
is_status RepaymentStatus.rejected RepaymentStatus.rejected = true
is_status _ _ = false

abbrev pub is_step : RepaymentApprovalStep → RepaymentApprovalStep → Bool
is_step RepaymentApprovalStep.divisi_simpan_pinjam RepaymentApprovalStep.divisi_simpan_pinjam = true
is_step RepaymentApprovalStep.ketua RepaymentApprovalStep.ketua = true
is_step _ _ = false
