-- ===== src/Examples/Figures.antt =====
-- The figures of two loans.
use kamorina.Base.{◌+◌, ◌*◌, ◌≤◌, ◌≡◌, refl, arith}
use kamorina.Loan.Types.{cash_loan}
use kamorina.Loan.Calculation.{
  calculate_loan_details, get_setting_number, total_repayment_of, total_interest, round_div,
}
use kamorina.Loan.Figures.{calculate_loan_details_bounds}
use kamorina.Examples.Sample.{no_settings}

-- A cash loan of 1200.00 over 12 months at 8 % a year.
calculate_loan_details_bounds_example :
    let figures = calculate_loan_details no_settings 120000 12 cash_loan in
    (120000 ≤ figures.total_repayment)
    × (2 * figures.total_repayment ≤ 2 * (12 * figures.monthly_installment) + 12)
    × (2 * (12 * figures.monthly_installment) ≤ 2 * figures.total_repayment + 12)
calculate_loan_details_bounds_example =
    calculate_loan_details_bounds no_settings 120000 12 cash_loan (omega arith)

cash_figures :
    let figures = calculate_loan_details no_settings 120000 12 cash_loan in
    (figures.total_repayment ≡ 129600) × (figures.monthly_installment ≡ 10800)
unfolding calculate_loan_details total_repayment_of total_interest round_div get_setting_number
cash_figures = (refl, refl)
