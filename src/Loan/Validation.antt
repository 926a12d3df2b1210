-- ===== src/Loan/Validation.antt =====
-- The checks before a loan is created, revised or submitted: loan-validation.service.ts of
-- backend/src/loan/services and `validateLoanAmount` of the handlers in backend/src/loan/handlers.
-- What the checks look up in the database comes in as a `HandlerContext`.
use kamorina.Base.{
  ℕ, ◌+◌, ◌-◌, ◌*◌, Bool, true, ◌&&◌, Option, none, some, List, ◌∷◌, ltb, leb, ◌==◌, find,
  if◌then◌else◌, Result, ok, err, ◌>>◌, throw_if,
}
use kamorina.Base.Int.{ℤ, pos, ltb_ℤ}
use kamorina.Loan.Types.{
  LoanType, cash_loan, excess_loan, LoanError, tenor_below_minimum, tenor_above_maximum,
  employee_not_found, limit_not_found, amount_above_maximum, amount_below_minimum, fund_not_set,
  fund_empty, amount_above_fund, amount_not_positive,
}
use kamorina.Loan.Calculation.{Settings, get_setting_number}

pub record Today : Type 0 where
  pub year : ℕ
  pub month : ℕ

pub record Employee : Type 0 where
  pub employee_number : List ℕ  -- its characters, which are decimal digits
  pub golongan_id : ℕ

pub record LoanLimit : Type 0 where
  pub golongan_id : ℕ
  pub min_years_of_service : ℕ
  pub max_years_of_service : Option ℕ
  pub max_loan_amount : ℕ

pub record HandlerContext : Type 0 where
  pub settings : Settings
  pub today : Today
  pub employee : Option Employee
  pub loan_limit_matrix : List LoanLimit
  pub social_fund_balance : Option ℤ

-- `new Date(year, month - 1, 1)`: month 0 is December of the year before. The hire day is the
-- first, so the comparison of days never fails.
abbrev years_between : ℕ → ℕ → Today → ℕ
years_between year month now =
    let hire_year = if month == 0 then year - 1 else year in
    let hire_month : ℕ = if month == 0 then 12 else month in
    if ltb now.month hire_month then now.year - hire_year - 1 else now.year - hire_year

unfoldable pub calculate_years_of_service : List ℕ → Today → ℕ
calculate_years_of_service (_ ∷ y ∷ z ∷ m ∷ _) now = years_between (2000 + y * 10 + z) m now
calculate_years_of_service _ now = 0

-- The `where` of `loanLimitMatrix.findFirst`.
abbrev max_allows : Option ℕ → ℕ → Bool
max_allows none years = true
max_allows (some most) years = leb years most

unfoldable pub limit_applies : ℕ → ℕ → LoanLimit → Bool
limit_applies golongan years limit =
    limit.golongan_id == golongan
    && leb limit.min_years_of_service years
    && max_allows limit.max_years_of_service years

unfoldable pub validate_loan_tenor : Settings → ℕ → Result LoanError (Unit {0})
validate_loan_tenor settings tenor = do
  let max_tenor = get_setting_number settings "max_loan_tenor" 3600
  throw_if (ltb tenor 1) tenor_below_minimum
  throw_if (ltb max_tenor (tenor * 100)) (tenor_above_maximum max_tenor)
  ok tt

abbrev check_minimum : Settings → ℕ → Result LoanError (Unit {0})
check_minimum settings amount = do
  let min_loan_amount = get_setting_number settings "min_loan_amount" 100000000
  throw_if (ltb amount min_loan_amount) (amount_below_minimum min_loan_amount)
  ok tt

abbrev check_limit : Settings → Option LoanLimit → ℕ → Result LoanError (Unit {0})
check_limit settings none amount = err limit_not_found
check_limit settings (some limit) amount =
    throw_if (ltb limit.max_loan_amount amount) (amount_above_maximum limit.max_loan_amount)
    >> check_minimum settings amount

-- `CashLoanHandler.validateLoanAmount`
unfoldable pub validate_cash_loan :
    HandlerContext → Option Employee → ℕ → Result LoanError (Unit {0})
validate_cash_loan context none amount = err employee_not_found
validate_cash_loan context (some employee) amount =
    let years = calculate_years_of_service employee.employee_number context.today in
    check_limit context.settings
      (find (limit_applies employee.golongan_id years) context.loan_limit_matrix) amount

-- `validateLoanAmount` of the three goods handlers
unfoldable pub validate_goods_loan : Settings → ℕ → Result LoanError (Unit {0})
validate_goods_loan settings amount = do
  let max_goods_loan = get_setting_number settings "max_goods_loan_amount" 1500000000
  throw_if (ltb max_goods_loan amount) (amount_above_maximum max_goods_loan)
  check_minimum settings amount

-- `ExcessLoanHandler.validateLoanAmount`
unfoldable pub validate_excess_loan : Option ℤ → ℕ → Result LoanError (Unit {0})
validate_excess_loan none amount = err fund_not_set
validate_excess_loan (some balance) amount = do
  throw_if (ltb_ℤ balance (pos 1)) fund_empty
  throw_if (ltb_ℤ balance (pos amount)) amount_above_fund
  throw_if (amount == 0) amount_not_positive
  ok tt

-- `loanHandlerFactory.getHandler(loanType).validateLoanAmount(userId, amount)`
unfoldable pub validate_loan_amount : HandlerContext → LoanType → ℕ → Result LoanError (Unit {0})
unfolding validate_cash_loan validate_goods_loan validate_excess_loan
validate_loan_amount context cash_loan amount = validate_cash_loan context context.employee amount
validate_loan_amount context excess_loan amount =
    validate_excess_loan context.social_fund_balance amount
validate_loan_amount context _ amount = validate_goods_loan context.settings amount
