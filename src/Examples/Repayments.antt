-- ===== src/Examples/Repayments.antt =====
-- A repayment of the disbursed loan of kamorina.Examples.Loans, from the request to the payroll run.
use kamorina.Base.{
  ℕ, ◌+◌, ◌<◌, ◌≡◌, ◌≢◌, refl, true, false, Option, none, some, [], ◌∷◌, arith, err, length, any,
  All, sum, map, filter,
}
use kamorina.Base.Int.{◌-ℤ◌}
use kamorina.Loan.Types.{LoanApplication, LoanStatus, LoanInstallment}
use kamorina.Loan.Installment.{or_else}
use kamorina.Savings.Types.{approved}
use kamorina.Repayment.Types.{LoanRepayment, divisi_simpan_pinjam, ketua, already_under_review}
use kamorina.Repayment.Creation.{
  CreateRepaymentDto, calculate_repayment_amount, is_under_review, validate_repayment_eligibility,
  new_repayment, new_approval, create_repayment,
}
use kamorina.Repayment.Approval.{
  ApproveRepaymentDto, process_approval, conclude, has_role_for, role_step_map, get_status_for_step,
  find_approval, process_approval_decision, decide, status_after_approval, get_next_step,
  is_last_step,
}
use kamorina.Repayment.Settlement.{PayrollContext, process, process_rows, is_due}
use kamorina.Repayment.Phases.{IsValid, reviewed_repayment-IsValid}
use kamorina.Repayment.Settled.{IsApproved, IsSettled, create_repayment-eq-ok, process-IsSettled}
use kamorina.Repayment.Replenished.{IsReplenished, excess_amount, process-IsReplenished}
use kamorina.Examples.Sample.{sample_loan, memory}
use kamorina.Examples.Funds.{first_fund, first_fund-IsSolvent}
use kamorina.Loan.Types.{LoanApproval, approve, LoanApprovalStep}
use kamorina.Loan.Invariant.{IsValid as IsLoanValid}

abbrev approved_at : ℕ → LoanApprovalStep → LoanApproval
approved_at id step = record {
  id = id;
  step = step;
  decision = some approve;
  decided_at = some 1;
  approver_id = some 8;
  notes = none;
  revised_data = none;
}

abbrev installment : ℕ → LoanInstallment
installment n = record {
  installment_number = n;
  due_date = record { month = n; date = 27 };
  amount = 150000;
  is_paid = false;
  paid_at = none;
  paid_amount = none;
  payroll_period_id = none;
}

-- 3000.00 in two months, of which one is paid.
abbrev pub lent : LoanApplication
lent = record sample_loan {
  loan_tenor = 2;
  monthly_installment = some 150000;
  status = LoanStatus.disbursed;
  approvals =
      approved_at 11 LoanApprovalStep.divisi_simpan_pinjam
      ∷ approved_at 12 LoanApprovalStep.ketua
      ∷ approved_at 13 LoanApprovalStep.pengawas
      ∷ [];
  disbursement = some (record {
    processed_by = 10;
    disbursement_date = "2026-01-02";
    disbursement_time = "10:00";
    notes = none;
  });
  authorization = some (record {
    authorized_by = 9;
    authorization_date = "2026-01-02";
    authorization_time = "11:00";
    notes = none;
  });
  loan_installments =
      record (installment 1) {
        is_paid = true;
        paid_at = some 5;
        paid_amount = some 150000;
        payroll_period_id = some 1;
      }
      ∷ installment 2
      ∷ [];
}

abbrev lent-IsValid : IsLoanValid lent
lent-IsValid = (
  (
    refl,
    (
      refl,
      refl,
      refl,
      (λ e. omega (arith, e)),
      (λ e. omega (arith, e)),
      (λ e. omega (arith, e)),
      refl,
      refl,
      refl,
    ),
  ),
  refl,
  refl,
  refl,
)

abbrev ask : CreateRepaymentDto
ask = record { loan_application_id = 1; is_agreed_by_member = true }

abbrev row₀ : LoanRepayment
row₀ = new_repayment 20 1 31 32 7 ask lent

abbrev distinct : ◌≢◌ {A = ℕ} 31 32
distinct e = omega (arith, e)

create_repayment-eq-ok_example :
    (lent.user_id ≡ 7)
    × (ask.is_agreed_by_member ≡ true)
    × (lent.status ≡ LoanStatus.disbursed)
    × (any is_under_review [] ≡ false)
    × (0 < row₀.total_amount)
    × (row₀.total_amount + (calculate_repayment_amount lent).total_paid
        ≡ or_else lent.total_repayment 0)
    × IsValid row₀
unfolding create_repayment validate_repayment_eligibility calculate_repayment_amount ◌-ℤ◌
create_repayment-eq-ok_example = create_repayment-eq-ok 20 1 31 32 7 ask [] lent distinct refl

-- Half of the loan is left to pay.
half_left : row₀.total_amount ≡ 150000
unfolding calculate_repayment_amount ◌-ℤ◌
half_left = refl

-- A second request for the loan waits for the first.
one_at_a_time : create_repayment 21 2 33 34 7 ask (row₀ ∷ []) lent ≡ err already_under_review
unfolding create_repayment validate_repayment_eligibility
one_at_a_time = refl

abbrev yes_dto : ApproveRepaymentDto
yes_dto = record { decision = approved; notes = none }

abbrev row₀-IsValid : IsValid row₀
row₀-IsValid = (refl, (refl, refl, distinct, refl, refl))

abbrev row₁ : LoanRepayment
row₁ = conclude divisi_simpan_pinjam 21 8 none (new_approval 31 divisi_simpan_pinjam) row₀ approved

abbrev row₂ : LoanRepayment
row₂ = conclude ketua 22 9 none (new_approval 32 ketua) row₁ approved

reviewed_repayment-IsValid_example : IsValid row₁
unfolding process_approval has_role_for role_step_map get_status_for_step find_approval
    process_approval_decision
reviewed_repayment-IsValid_example =
    reviewed_repayment-IsValid 21 8 ("divisi_simpan_pinjam" ∷ []) yes_dto row₀ row₀-IsValid refl

abbrev row₂-IsApproved : IsApproved (row₂, lent)
unfolding process_approval_decision decide status_after_approval get_next_step is_last_step
row₂-IsApproved = ((refl, (refl, refl, distinct, refl, refl), refl), lent-IsValid, refl)

abbrev pub run : PayrollContext
run = record { payroll_period_id = 2; process_date = 40; cutoff_end = 30 }

process-IsSettled_example :
    let result = process run 40 (λ id. id + 50) ((row₂, lent) ∷ []) first_fund in
    let due = filter (is_due run) ((row₂, lent) ∷ []) in
    All IsSettled result.settled
    × (result.processed_count ≡ length due)
    × (result.total_amount ≡ sum (map (λ row. row.0.total_amount) due))
process-IsSettled_example =
    process-IsSettled run 40 (λ id. id + 50) ((row₂, lent) ∷ []) first_fund (row₂-IsApproved, tt)

-- One repayment is settled, of 1500.00.
one_settled :
    let result = process run 40 (λ id. id + 50) ((row₂, lent) ∷ []) first_fund in
    (result.processed_count ≡ 1) × (result.total_amount ≡ 150000)
unfolding process process_rows process_approval_decision status_after_approval get_next_step
    is_last_step calculate_repayment_amount ◌-ℤ◌
one_settled = (refl, refl)

process-IsReplenished_example :
    IsReplenished
      (sum (map (excess_amount run 40 (λ id. id + 50)) (filter (is_due run) ((row₂, lent) ∷ []))))
      first_fund
      (process run 40 (λ id. id + 50) ((row₂, lent) ∷ []) first_fund).fund
process-IsReplenished_example =
    process-IsReplenished run 40 (λ id. id + 50) ((row₂, lent) ∷ []) first_fund first_fund-IsSolvent

abbrev rows : ℕ → Option LoanRepayment
rows = (memory LoanRepayment).save 1 row₀ (λ _. none)
