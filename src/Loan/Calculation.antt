-- ===== src/Loan/Calculation.antt =====
-- backend/src/loan/services/loan-calculation.service.ts. `Math.round(x * 100) / 100` keeps whole
-- hundredths, so on amounts in hundredths it is `round_div`; the quotients are exact here, where
-- the code computes them in doubles.
use kamorina.Base.{ℕ, ◌+◌, ◌*◌, ◌/◌, String, Option, none, some}
use kamorina.Loan.Types.{LoanType, goods_online, excess_loan}

-- Numeric settings by their key, in hundredths; `none` is a missing row.
abbrev pub Settings : Type 0
Settings = String → Option ℕ

unfoldable pub get_setting_number : Settings → String → ℕ → ℕ
get_setting_number settings key default_value = elim (settings key) [
  | some value ↦ value
  | none ↦ default_value
]

-- `Math.round(a / b)`: halves go up.
unfoldable pub round_div : ℕ → ℕ → ℕ
round_div a b = (2 * a + b) / (2 * b)

pub record LoanCalculation : Type 0 where
  pub interest_rate : ℕ
  pub shop_margin_rate : Option ℕ
  pub monthly_installment : ℕ
  pub total_repayment : ℕ

unfoldable pub total_interest : ℕ → ℕ → ℕ → ℕ
unfolding round_div
total_interest amount annual_rate tenor = round_div (amount * annual_rate * tenor) 120000

unfoldable pub margin_amount : ℕ → ℕ → ℕ
unfolding round_div
margin_amount amount shop_margin_rate = round_div (amount * shop_margin_rate) 10000

abbrev annual_rate_of : Settings → ℕ
annual_rate_of settings = get_setting_number settings "loan_interest_rate" 800

-- The `switch` on the loan type.
unfoldable pub total_repayment_of : Settings → ℕ → ℕ → LoanType → ℕ
total_repayment_of settings amount tenor goods_online =
    amount
    + margin_amount amount (get_setting_number settings "shop_margin_rate" 500)
    + total_interest amount (annual_rate_of settings) tenor
total_repayment_of settings amount tenor excess_loan = amount
total_repayment_of settings amount tenor _ =
    amount + total_interest amount (annual_rate_of settings) tenor

unfoldable pub shop_margin_rate_of : Settings → LoanType → Option ℕ
shop_margin_rate_of settings goods_online =
    some (get_setting_number settings "shop_margin_rate" 500)
shop_margin_rate_of settings _ = none

unfoldable pub interest_rate_of : Settings → LoanType → ℕ
interest_rate_of settings excess_loan = 0
interest_rate_of settings _ = annual_rate_of settings

unfoldable pub calculate_loan_details : Settings → ℕ → ℕ → LoanType → LoanCalculation
unfolding total_repayment_of shop_margin_rate_of interest_rate_of
calculate_loan_details settings amount tenor loan_type = record {
  interest_rate = interest_rate_of settings loan_type;
  shop_margin_rate = shop_margin_rate_of settings loan_type;
  monthly_installment = round_div (total_repayment_of settings amount tenor loan_type) tenor;
  total_repayment = total_repayment_of settings amount tenor loan_type;
}
