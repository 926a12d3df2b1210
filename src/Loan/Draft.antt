-- ===== src/Loan/Draft.antt =====
-- backend/src/loan/services/loan-crud.service.ts, with `checkMemberStatus` of
-- loan-validation.service.ts and the details of a draft in backend/src/loan/handlers. The loan's
-- display number, the attachments and the other texts of the details are left out.
use kamorina.Base.{
  ℕ, String, Bool, not, ◌&&◌, Option, none, some, [], ltb, if◌then◌else◌, Result, ok, err, ◌>>◌,
  throw_if,
}
use kamorina.Loan.Types.{
  LoanType, LoanStatus, LoanApplication, LoanDetails, cash_loan_details, excess_loan_details,
  goods_reimburse_details, goods_online_details, goods_phone_details, LoanError, user_not_found,
  employee_not_found, not_permanent_employee, not_verified_member, is_excess, is_phone,
}
use kamorina.Loan.Calculation.{
  Settings, LoanCalculation, get_setting_number, calculate_loan_details,
}
use kamorina.Loan.Validation.{HandlerContext, validate_loan_amount, validate_loan_tenor}

-- The request has the price field of its loan's type.
pub record CreateLoanDto : Type 0 where
  pub loan_type : LoanType
  pub loan_tenor : ℕ
  pub loan_purpose : String
  pub loan_amount : ℕ
  pub item_price : ℕ
  pub recipient_user_id : Option ℕ

pub record UpdateLoanDto : Type 0 where
  pub loan_tenor : Option ℕ
  pub loan_purpose : Option String
  pub loan_amount : Option ℕ
  pub item_price : Option ℕ

pub record User : Type 0 where
  pub member_verified : Bool
  pub has_employee : Bool
  pub is_permanent : Bool

unfoldable pub check_member_status : Option User → Result LoanError (Unit {0})
check_member_status none = err user_not_found
check_member_status (some user) = do
  throw_if (not user.has_employee) employee_not_found
  throw_if (not user.is_permanent) not_permanent_employee
  throw_if (not user.member_verified) not_verified_member
  ok tt

-- `extractLoanAmount`; a phone's price is set in the review.
unfoldable pub extract_loan_amount {ℓ} : {A : Type ℓ} → A → A → A → LoanType → A
extract_loan_amount loan_amount item_price zero_amount LoanType.cash_loan = loan_amount
extract_loan_amount loan_amount item_price zero_amount LoanType.excess_loan = loan_amount
extract_loan_amount loan_amount item_price zero_amount LoanType.goods_reimburse = item_price
extract_loan_amount loan_amount item_price zero_amount LoanType.goods_online = item_price
extract_loan_amount loan_amount item_price zero_amount LoanType.goods_phone = zero_amount

-- `createTypeSpecificDetails`
unfoldable pub create_type_specific_details :
    Settings → CreateLoanDto → Option ℕ → LoanType → LoanDetails
create_type_specific_details settings dto rate LoanType.cash_loan = cash_loan_details
create_type_specific_details settings dto rate LoanType.excess_loan = excess_loan_details
create_type_specific_details settings dto rate LoanType.goods_reimburse =
    goods_reimburse_details dto.item_price
create_type_specific_details settings dto none LoanType.goods_online =
    goods_online_details dto.item_price (get_setting_number settings "shop_margin_rate" 500)
create_type_specific_details settings dto (some rate) LoanType.goods_online =
    goods_online_details dto.item_price rate
create_type_specific_details settings dto rate LoanType.goods_phone = goods_phone_details 0 0

-- Figures that may be missing, as in the `let` of both methods.
pub record Figures : Type 0 where
  pub interest_rate : Option ℕ
  pub shop_margin_rate : Option ℕ
  pub monthly_installment : Option ℕ
  pub total_repayment : Option ℕ

abbrev pub figures_of : LoanCalculation → Figures
figures_of c = record {
  interest_rate = some c.interest_rate;
  shop_margin_rate = c.shop_margin_rate;
  monthly_installment = some c.monthly_installment;
  total_repayment = some c.total_repayment;
}

abbrev pub no_figures : Figures
no_figures = record {
  interest_rate = none;
  shop_margin_rate = none;
  monthly_installment = none;
  total_repayment = none;
}

unfoldable pub draft_figures : Settings → ℕ → ℕ → LoanType → Figures
draft_figures settings amount tenor loan_type =
    if not (is_phone loan_type) && ltb 0 amount
    then figures_of (calculate_loan_details settings amount tenor loan_type)
    else no_figures

-- An excess loan is created for its recipient.
unfoldable pub loan_owner : ℕ → CreateLoanDto → ℕ
loan_owner user dto = if is_excess dto.loan_type then or_self dto.recipient_user_id else user
  where
    or_self : Option ℕ → ℕ
    or_self none = user
    or_self (some recipient) = recipient

abbrev pub amount_of : CreateLoanDto → ℕ
amount_of dto = extract_loan_amount dto.loan_amount dto.item_price 0 dto.loan_type

abbrev pub new_loan : ℕ → ℕ → CreateLoanDto → ℕ → Figures → LoanDetails → LoanApplication
new_loan new_id owner dto amount figures details = record {
  id = new_id;
  user_id = owner;
  loan_type = dto.loan_type;
  loan_amount = amount;
  loan_tenor = dto.loan_tenor;
  loan_purpose = dto.loan_purpose;
  interest_rate = figures.interest_rate;
  monthly_installment = figures.monthly_installment;
  total_repayment = figures.total_repayment;
  status = LoanStatus.draft;
  current_step = none;
  submitted_at = none;
  approved_at = none;
  rejected_at = none;
  disbursed_at = none;
  rejection_reason = none;
  revision_count = 0;
  last_revised_at = none;
  last_revised_by = none;
  revision_notes = none;
  approvals = [];
  history = [];
  disbursement = none;
  authorization = none;
  loan_installments = [];
  details = details;
}

-- `owner` is the row of the loan's owner, and the context is that of the owner.
unfoldable pub create_draft :
    HandlerContext → Option User → ℕ → ℕ → CreateLoanDto → Result LoanError LoanApplication
unfolding check_member_status extract_loan_amount draft_figures create_type_specific_details
    loan_owner
create_draft context owner new_id user dto = do
  check_member_status owner
  let amount = amount_of dto
  if is_phone dto.loan_type then ok tt else validate_loan_amount context dto.loan_type amount
  validate_loan_tenor context.settings dto.loan_tenor
  let figures = draft_figures context.settings amount dto.loan_tenor dto.loan_type
  let details =
      create_type_specific_details context.settings dto figures.shop_margin_rate dto.loan_type
  ok (new_loan new_id (loan_owner user dto) dto amount figures details)
