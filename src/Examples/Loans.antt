-- ===== src/Examples/Loans.antt =====
-- One excess loan from its draft to the payout, and the loan theorems along its way.
use kamorina.Base.{refl, none, [], ◌∷◌, arith, ok, err}
use kamorina.Loan.Types.{LoanApplication, approve, divisi_simpan_pinjam, ketua, pengawas}
use kamorina.Loan.Calculation.{get_setting_number}
use kamorina.Loan.Validation.{validate_loan_amount, validate_excess_loan, validate_loan_tenor}
use kamorina.Loan.Approval.{
  ApproveLoanDto, process_approval, process_approval_decision, conclude, has_role_for,
  role_step_map, get_status_for_step, decide, get_next_step, is_last_step, status_after_approval,
  find_approval,
}
use kamorina.Loan.Submission.{submit_loan, write_submission, new_approval, may_access, revalidate}
use kamorina.Loan.Disbursement.{
  ProcessDisbursementDto, ProcessAuthorizationDto, process_disbursement, write_disbursement,
  process_authorization, write_authorization, deduct_for, deduct_social_fund, write_deduction,
}
use kamorina.Loan.Installment.{generate_installment_schedule}
use kamorina.SocialFund.Types.{SocialFund}
use kamorina.Loan.PayOut.{paid_out}
use kamorina.Loan.Invariant.{IsPaidOut}
use kamorina.Loan.Reachable.{Step, Reach, IsNew, Reach-disbursed}
use kamorina.Examples.Sample.{context, ids, sample_loan, calendar, no_settings, new_fund}

abbrev pub yes_dto : ApproveLoanDto
yes_dto = record { decision = approve; notes = none }

abbrev pub submitted_loan : LoanApplication
submitted_loan = write_submission 100 7 ids sample_loan

abbrev pub after_dsp : LoanApplication
after_dsp =
    (conclude divisi_simpan_pinjam 101 8 yes_dto (new_approval 11 divisi_simpan_pinjam)
      submitted_loan approve).0

abbrev pub after_ketua : LoanApplication
after_ketua = (conclude ketua 102 9 yes_dto (new_approval 12 ketua) after_dsp approve).0

abbrev pub after_pengawas : LoanApplication
after_pengawas = (conclude pengawas 103 10 yes_dto (new_approval 13 pengawas) after_ketua approve).0

abbrev pub bank_dto : ProcessDisbursementDto
bank_dto = record { disbursement_date = "2026-03-10"; disbursement_time = "10:00"; notes = none }

abbrev pub key_dto : ProcessAuthorizationDto
key_dto = record { authorization_date = "2026-03-10"; authorization_time = "11:00"; notes = none }

abbrev pub prepared_loan : LoanApplication
prepared_loan = write_disbursement 104 11 bank_dto after_pengawas

abbrev pub disbursed_loan : LoanApplication
disbursed_loan = paid_out calendar no_settings 105 20 9 key_dto new_fund prepared_loan

abbrev pub fund_after : SocialFund
fund_after = elim (deduct_for 105 20 9 prepared_loan new_fund) [ ok f ↦ f | err _ ↦ new_fund ]

pub submitted : Step sample_loan submitted_loan
unfolding submit_loan validate_loan_amount validate_excess_loan validate_loan_tenor
    get_setting_number may_access revalidate write_submission
submitted =
    Step.submit context 100 ids 7 []
      (λ e. omega (arith, e), λ e. omega (arith, e), λ e. omega (arith, e)) refl

pub decided_by_dsp : Step submitted_loan after_dsp
unfolding process_approval has_role_for role_step_map get_status_for_step process_approval_decision
    find_approval write_submission
decided_by_dsp = Step.review 101 8 ("divisi_simpan_pinjam" ∷ []) yes_dto _ refl

pub decided_by_ketua : Step after_dsp after_ketua
unfolding process_approval has_role_for role_step_map get_status_for_step process_approval_decision
    find_approval write_submission decide get_next_step status_after_approval is_last_step
decided_by_ketua = Step.review 102 9 ("ketua" ∷ []) yes_dto _ refl

pub decided_by_pengawas : Step after_ketua after_pengawas
unfolding process_approval has_role_for role_step_map get_status_for_step process_approval_decision
    find_approval write_submission decide get_next_step status_after_approval is_last_step
decided_by_pengawas = Step.review 103 10 ("pengawas" ∷ []) yes_dto _ refl

pub prepared : Step after_pengawas prepared_loan
unfolding process_disbursement process_approval_decision status_after_approval is_last_step
prepared = Step.prepare 104 11 bank_dto refl

pub authorized : Step prepared_loan disbursed_loan
unfolding process_authorization write_disbursement write_authorization generate_installment_schedule
    process_approval_decision write_submission deduct_for deduct_social_fund write_deduction
authorized = Step.authorize calendar no_settings 105 20 9 key_dto new_fund fund_after refl

abbrev pub way : Reach sample_loan disbursed_loan
way =
    Reach.next
      (Reach.next
        (Reach.next
          (Reach.next (Reach.next (Reach.next Reach.here submitted) decided_by_dsp)
            decided_by_ketua)
          decided_by_pengawas)
        prepared)
      authorized

abbrev pub sample_loan-IsNew : IsNew sample_loan
sample_loan-IsNew = (refl, (refl, refl, (refl, refl, refl)))

Reach-disbursed_example : IsPaidOut disbursed_loan
unfolding write_authorization
Reach-disbursed_example = Reach-disbursed sample_loan-IsNew way refl
