-- ===== src/Repayment/Creation.antt =====
-- The request for a repayment: repayment-calculation.service.ts, repayment-validation.service.ts and
-- `createRepayment` of repayment-crud.service.ts in backend/src/loan-repayment/services. The loan is
-- the one that the request names, and the repayments are that loan's.
use kamorina.Base.{
  ℕ, ◌==◌, Bool, not, ◌||◌, none, some, List, [], ◌∷◌, any, filter, length, map, sum, Result, ok,
  ◌>>◌, throw_if,
}
use kamorina.Base.Int.{ℤ, pos, pos_part, ◌-ℤ◌, ltb_ℤ}
use kamorina.Loan.Types.{LoanStatus, LoanApplication, is_status as is_loan_status}
use kamorina.Loan.Installment.{or_else}
use kamorina.Repayment.Types.{
  RepaymentStatus, RepaymentApprovalStep, divisi_simpan_pinjam, ketua, RepaymentApproval,
  LoanRepayment, RepaymentError, no_access_to_loan, not_agreed, not_disbursed, already_under_review,
  already_paid, is_status,
}

pub record CreateRepaymentDto : Type 0 where
  pub loan_application_id : ℕ
  pub is_agreed_by_member : Bool

pub record RepaymentCalculation : Type 0 where
  pub total_loan_amount : ℕ
  pub total_paid : ℕ
  pub remaining_amount : ℤ
  pub remaining_installments : ℤ
  pub paid_installments : ℕ
  pub total_installments : ℕ

unfoldable pub calculate_repayment_amount : LoanApplication → RepaymentCalculation
calculate_repayment_amount loan =
    let paid = filter (λ i. i.is_paid) loan.loan_installments in
    let total_paid = sum (map (λ i. or_else i.paid_amount 0) paid) in
    record {
      total_loan_amount = or_else loan.total_repayment 0;
      total_paid = total_paid;
      remaining_amount = pos (or_else loan.total_repayment 0) -ℤ pos total_paid;
      remaining_installments = pos (length loan.loan_installments) -ℤ pos (length paid);
      paid_installments = length paid;
      total_installments = length loan.loan_installments;
    }

abbrev pub is_under_review : LoanRepayment → Bool
is_under_review r =
    is_status r.status RepaymentStatus.under_review_dsp
    || is_status r.status RepaymentStatus.under_review_ketua

unfoldable pub validate_repayment_eligibility :
    List LoanRepayment → LoanApplication → Result RepaymentError (Unit {0})
unfolding calculate_repayment_amount
validate_repayment_eligibility repayments loan = do
  throw_if (not (is_loan_status loan.status LoanStatus.disbursed)) not_disbursed
  throw_if (any is_under_review repayments) already_under_review
  throw_if (ltb_ℤ (calculate_repayment_amount loan).remaining_amount (pos 1)) already_paid
  ok tt

-- A row of `repaymentApproval.createMany`; the database gives the id.
abbrev pub new_approval : ℕ → RepaymentApprovalStep → RepaymentApproval
new_approval id step = record {
  id = id;
  step = step;
  decision = none;
  decided_at = none;
  approver_id = none;
  notes = none;
}

-- The remaining amount is positive where this is reached.
abbrev pub new_repayment : ℕ → ℕ → ℕ → ℕ → ℕ → CreateRepaymentDto → LoanApplication → LoanRepayment
new_repayment now new_id first second user dto loan = record {
  id = new_id;
  loan_application_id = dto.loan_application_id;
  user_id = user;
  total_amount = pos_part (calculate_repayment_amount loan).remaining_amount;
  status = RepaymentStatus.under_review_dsp;
  current_step = some divisi_simpan_pinjam;
  is_agreed_by_member = dto.is_agreed_by_member;
  submitted_at = some now;
  approved_at = none;
  rejected_at = none;
  rejection_reason = none;
  approvals = new_approval first divisi_simpan_pinjam ∷ new_approval second ketua ∷ [];
}

-- `first` and `second` are the ids of the approval records.
unfoldable pub create_repayment :
    ℕ
    → ℕ
    → ℕ
    → ℕ
    → ℕ
    → CreateRepaymentDto
    → List LoanRepayment
    → LoanApplication
    → Result RepaymentError LoanRepayment
unfolding validate_repayment_eligibility
create_repayment now new_id first second user dto repayments loan = do
  throw_if (not (loan.user_id == user)) no_access_to_loan
  throw_if (not dto.is_agreed_by_member) not_agreed
  validate_repayment_eligibility repayments loan
  ok (new_repayment now new_id first second user dto loan)
