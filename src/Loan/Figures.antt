-- ===== src/Loan/Figures.antt =====
-- How the monthly installment and the total repayment fit together.
use kamorina.Base.{ℕ, ◌+◌, ◌*◌, ◌%◌, ◌≤◌, ◌<◌, ◌≡◌, arith, true, none}
use kamorina.Loan.Types.{
  LoanType, cash_loan, goods_reimburse, goods_online, goods_phone, excess_loan, is_excess,
}
use kamorina.Loan.Calculation.{Settings, round_div, total_repayment_of, calculate_loan_details}
use native.Mathlib.Nat.{div-add-mod, mod-lt}

-- A rounded quotient is within half a unit of the exact one.
pub round_div_bounds :
    (a b : ℕ)
    → 0 < b
    → (2 * a < 2 * (b * round_div a b) + b) × (2 * (b * round_div a b) ≤ 2 * a + b)
unfolding round_div
round_div_bounds a b h =
    let split = div-add-mod (2 * a + b) (2 * b) in
    let small : (2 * a + b) % (2 * b) < 2 * b = mod-lt (2 * a + b) (omega arith) in
    (omega arith, omega arith)

amount-le-total_repayment_of :
    (settings : Settings) (amount tenor : ℕ) (loan_type : LoanType)
    → amount ≤ total_repayment_of settings amount tenor loan_type
unfolding total_repayment_of
amount-le-total_repayment_of settings amount tenor cash_loan = omega arith
amount-le-total_repayment_of settings amount tenor goods_reimburse = omega arith
amount-le-total_repayment_of settings amount tenor goods_online = omega arith
amount-le-total_repayment_of settings amount tenor goods_phone = omega arith
amount-le-total_repayment_of settings amount tenor excess_loan = omega arith

-- For a tenor of a month or more, the total is at least the amount, and the installments of the
-- whole tenor add up to the total, but for at most half a hundredth a month.
pub calculate_loan_details_bounds :
    (settings : Settings) (amount tenor : ℕ) (loan_type : LoanType)
    → 0 < tenor
    → let figures = calculate_loan_details settings amount tenor loan_type in
      (amount ≤ figures.total_repayment)
      × (2 * figures.total_repayment ≤ 2 * (tenor * figures.monthly_installment) + tenor)
      × (2 * (tenor * figures.monthly_installment) ≤ 2 * figures.total_repayment + tenor)
unfolding calculate_loan_details
calculate_loan_details_bounds settings amount tenor loan_type h =
    let (low, high) =
      round_div_bounds (total_repayment_of settings amount tenor loan_type) tenor h in
    (amount-le-total_repayment_of settings amount tenor loan_type, omega (arith, low), high)

-- An excess loan bears no interest: its total is its amount, its rate 0, and it has no shop margin.
pub calculate_loan_details_excess :
    (settings : Settings) (amount tenor : ℕ) (loan_type : LoanType)
    → is_excess loan_type ≡ true
    → let figures = calculate_loan_details settings amount tenor loan_type in
      (figures.total_repayment ≡ amount)
      × (figures.interest_rate ≡ 0)
      × (figures.shop_margin_rate ≡ none)
unfolding calculate_loan_details total_repayment_of
calculate_loan_details_excess settings amount tenor loan_type e =
    (ground arith, ground arith, ground arith)
