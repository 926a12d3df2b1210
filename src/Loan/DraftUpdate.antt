-- ===== src/Loan/DraftUpdate.antt =====
-- `updateDraft` of backend/src/loan/services/loan-crud.service.ts, with `updateTypeSpecificDetails`
-- of the handlers.
use kamorina.Base.{
  ℕ, String, Bool, false, not, ◌&&◌, ◌||◌, Option, none, some, List, ltb, is_some, if◌then◌else◌,
  Result, ok, ◌>>◌, throw_if,
}
use kamorina.Loan.Types.{
  LoanStatus, LoanType, LoanApplication, LoanDetails, goods_reimburse_details, goods_online_details,
  LoanError, no_access_to_loan, only_drafts, is_status, is_phone,
}
use kamorina.Loan.Calculation.{calculate_loan_details}
use kamorina.Loan.Validation.{HandlerContext, validate_loan_amount, validate_loan_tenor}
use kamorina.Loan.Installment.{or_else}
use kamorina.Loan.Submission.{may_access}
use kamorina.Loan.Draft.{UpdateLoanDto, Figures, figures_of, extract_loan_amount}

-- `newLoanAmount`, which is `undefined` for a goods loan that is given an amount but no price.
unfoldable pub new_draft_amount : UpdateLoanDto → LoanApplication → Option ℕ
unfolding extract_loan_amount
new_draft_amount dto loan =
    if is_some dto.loan_amount
    then extract_loan_amount dto.loan_amount dto.item_price (some 0) loan.loan_type
    else some loan.loan_amount

-- No comparison holds of `undefined`, so no check fails.
abbrev check_given : HandlerContext → LoanType → Option ℕ → Result LoanError (Unit {0})
check_given context loan_type none = ok tt
check_given context loan_type (some amount) = validate_loan_amount context loan_type amount

abbrev check_given_tenor : HandlerContext → Option ℕ → Result LoanError (Unit {0})
check_given_tenor context none = ok tt
check_given_tenor context (some tenor) = validate_loan_tenor context.settings tenor

-- `updateData.loanAmount`
unfoldable pub written_amount : UpdateLoanDto → LoanApplication → Option ℕ
unfolding new_draft_amount
written_amount dto loan =
    if is_some dto.loan_amount || is_some dto.item_price then new_draft_amount dto loan else none

abbrev is_positive : Option ℕ → Bool
is_positive none = false
is_positive (some n) = ltb 0 n

-- The figures that are calculated again, if any.
unfoldable pub updated_figures : HandlerContext → UpdateLoanDto → LoanApplication → Option Figures
unfolding written_amount
updated_figures context dto loan =
    if (is_some (written_amount dto loan) || is_some dto.loan_tenor)
      && (not (is_phone loan.loan_type) && is_positive (new_draft_amount dto loan))
    then some (
        figures_of (
          calculate_loan_details context.settings
            (or_else (written_amount dto loan) loan.loan_amount)
            (or_else dto.loan_tenor loan.loan_tenor) loan.loan_type))
    else none

-- `updateTypeSpecificDetails`
unfoldable pub update_type_specific_details : UpdateLoanDto → Option ℕ → LoanDetails → LoanDetails
update_type_specific_details dto rate (goods_reimburse_details price) =
    goods_reimburse_details (or_else dto.item_price price)
update_type_specific_details dto rate (goods_online_details price margin) =
    goods_online_details (or_else dto.item_price price) (or_else rate margin)
update_type_specific_details dto rate details = details

abbrev or_text_else : Option String → String → String
or_text_else none d = d
or_text_else (some s) d = s

abbrev pub write_figures : Option Figures → LoanApplication → LoanApplication
write_figures none loan = loan
write_figures (some figures) loan = record loan {
  interest_rate = figures.interest_rate;
  monthly_installment = figures.monthly_installment;
  total_repayment = figures.total_repayment;
}

abbrev pub margin_of : Option Figures → Option ℕ
margin_of none = none
margin_of (some figures) = figures.shop_margin_rate

unfoldable pub write_draft : HandlerContext → UpdateLoanDto → LoanApplication → LoanApplication
unfolding updated_figures update_type_specific_details
write_draft context dto loan =
    let figures = updated_figures context dto loan in
    record (write_figures figures loan) {
      loan_tenor = or_else dto.loan_tenor loan.loan_tenor;
      loan_purpose = or_text_else dto.loan_purpose loan.loan_purpose;
      loan_amount = or_else (written_amount dto loan) loan.loan_amount;
      details = update_type_specific_details dto (margin_of figures) loan.details;
    }

-- The context is that of the user who asks.
unfoldable pub update_draft :
    HandlerContext
    → ℕ
    → List String
    → UpdateLoanDto
    → LoanApplication
    → Result LoanError LoanApplication
unfolding write_draft may_access
update_draft context user roles dto loan = do
  throw_if (not (may_access user roles loan)) no_access_to_loan
  throw_if (not (is_status loan.status LoanStatus.draft)) only_drafts
  if is_some dto.loan_amount && not (is_phone loan.loan_type)
      then check_given context loan.loan_type (new_draft_amount dto loan)
      else ok tt
  check_given_tenor context dto.loan_tenor
  ok (write_draft context dto loan)
