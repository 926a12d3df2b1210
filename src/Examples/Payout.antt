-- ===== src/Examples/Payout.antt =====
-- The theorems about the payout at the loan of kamorina.Examples.Loans.
use kamorina.Base.{◌+◌, ◌*◌, ◌≡◌, refl, true, false, arith, ok, length, ◌⊎◌}
use kamorina.Base.Int.{pos, ◌+ℤ◌, ◌≤ℤ◌}
use kamorina.SocialFund.Types.{money}
use kamorina.Loan.Types.{LoanApplication, is_excess}
use kamorina.Loan.Approval.{
  process_approval_decision, decide, get_next_step, is_last_step, status_after_approval,
}
use kamorina.Loan.Submission.{write_submission}
use kamorina.Loan.Disbursement.{
  write_disbursement, process_authorization, write_authorization, deduct_for, deduct_social_fund,
  write_deduction,
}
use kamorina.Loan.Installment.{generate_installment_schedule, first_due_date, or_else}
use kamorina.Loan.PayOut.{deduct_for-money, process_authorization-IsValid}
use kamorina.Loan.Invariant.{IsValid}
use kamorina.Loan.Schedule.{planned, amounts, IsPlanned, generate_installment_schedule-IsPlanned}
use kamorina.Examples.Sample.{calendar, no_settings, new_fund}
use kamorina.Examples.Loans.{after_pengawas, key_dto, prepared_loan, disbursed_loan, fund_after}

abbrev pub after_pengawas-IsValid : IsValid after_pengawas
unfolding process_approval_decision status_after_approval is_last_step write_submission decide
    get_next_step
after_pengawas-IsValid = (
  (
    refl,
    (
      refl,
      refl,
      refl,
      (λ e. omega (arith, e)),
      (λ e. omega (arith, e)),
      (λ e. omega (arith, e)),
      refl,
      refl,
      refl,
    ),
  ),
  (refl, refl, refl),
)

abbrev pub prepared_loan-IsValid : IsValid prepared_loan
unfolding write_disbursement process_approval_decision status_after_approval is_last_step
    write_submission decide get_next_step
prepared_loan-IsValid = (
  (
    refl,
    (
      refl,
      refl,
      refl,
      (λ e. omega (arith, e)),
      (λ e. omega (arith, e)),
      (λ e. omega (arith, e)),
      refl,
      refl,
      refl,
    ),
  ),
  refl,
  refl,
  refl,
)

process_authorization-IsValid_example : IsValid disbursed_loan
unfolding process_authorization write_disbursement write_authorization generate_installment_schedule
    process_approval_decision write_submission deduct_for deduct_social_fund write_deduction
process_authorization-IsValid_example =
    process_authorization-IsValid calendar no_settings 105 20 9 key_dto new_fund prepared_loan
      prepared_loan-IsValid refl

deduct_for-money_example :
    ((is_excess prepared_loan.loan_type ≡ false) × (fund_after ≡ new_fund))
    ⊎ ((is_excess prepared_loan.loan_type ≡ true)
        × (pos prepared_loan.loan_amount ≤ℤ money new_fund.balance)
        × (money fund_after.balance +ℤ pos prepared_loan.loan_amount ≡ money new_fund.balance)
        × (length fund_after.transactions ≡ length new_fund.transactions + 1))
unfolding deduct_for deduct_social_fund write_deduction write_disbursement process_approval_decision
    write_submission
deduct_for-money_example = deduct_for-money 105 20 9 prepared_loan new_fund refl

abbrev authorized_loan : LoanApplication
authorized_loan = write_authorization 105 9 key_dto prepared_loan

generate_installment_schedule-IsPlanned_example :
    let l = planned calendar no_settings 105 authorized_loan in
    (generate_installment_schedule calendar no_settings 105 authorized_loan
      ≡ ok (record authorized_loan { loan_installments = l }))
    × (length l ≡ authorized_loan.loan_tenor)
    × IsPlanned calendar
        (first_due_date calendar no_settings 105 authorized_loan)
        (or_else authorized_loan.monthly_installment 0)
        1
        l
    × (amounts l ≡ authorized_loan.loan_tenor * or_else authorized_loan.monthly_installment 0)
unfolding write_authorization write_disbursement process_approval_decision write_submission
generate_installment_schedule-IsPlanned_example =
    generate_installment_schedule-IsPlanned calendar no_settings 105 authorized_loan refl refl
