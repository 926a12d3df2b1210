-- ===== src/Examples/Drafts.antt =====
-- Two drafts: an excess loan for a member, and goods whose price changes.
use kamorina.Base.{◌≡◌, refl, true, Option, none, some, [], ok, err, Result}
use kamorina.Loan.Types.{
  LoanApplication, LoanError, excess_loan, goods_reimburse, goods_reimburse_details,
}
use kamorina.Loan.Calculation.{
  get_setting_number, calculate_loan_details, total_repayment_of, round_div,
}
use kamorina.Loan.Validation.{validate_loan_amount, validate_excess_loan, validate_loan_tenor}
use kamorina.Loan.Submission.{may_access}
use kamorina.Loan.Draft.{
  CreateLoanDto, UpdateLoanDto, User, draft_figures, loan_owner, extract_loan_amount,
  create_type_specific_details, check_member_status, create_draft,
}
use kamorina.Loan.DraftUpdate.{
  updated_figures, update_type_specific_details, write_draft, update_draft, written_amount,
  new_draft_amount,
}
use kamorina.Loan.Invariant.{IsValid}
use kamorina.Loan.Created.{IsPermitted, IsDrafted, create_draft-IsDrafted}
use kamorina.Loan.Drafting.{
  IsRepriced, IsRefigured, update_draft-IsValid, update_draft_keeps_amount,
}
use kamorina.Examples.Sample.{context, sample_loan as some_loan}

abbrev member : Option User
member = some (record { member_verified = true; has_employee = true; is_permanent = true })

abbrev for_member : CreateLoanDto
for_member = record {
  loan_type = excess_loan;
  loan_tenor = 12;
  loan_purpose = "Biaya sekolah";
  loan_amount = 300000;
  item_price = 0;
  recipient_user_id = some 7;
}

abbrev draft_of : Result LoanError LoanApplication → LoanApplication → LoanApplication
draft_of (ok l) _ = l
draft_of (err _) l = l

abbrev excess_draft : Result LoanError LoanApplication
excess_draft = create_draft context member 1 9 for_member

abbrev created : LoanApplication
created = draft_of excess_draft some_loan

create_draft-IsDrafted_example : IsPermitted member × IsDrafted context 9 for_member created
unfolding create_draft check_member_status extract_loan_amount validate_loan_amount
    validate_excess_loan validate_loan_tenor get_setting_number draft_figures
    create_type_specific_details loan_owner
create_draft-IsDrafted_example = create_draft-IsDrafted context member 1 9 for_member refl

-- The loan is the recipient's, and 250.00 a month.
created_figures : (created.user_id ≡ 7) × (created.monthly_installment ≡ some 25000)
unfolding create_draft check_member_status extract_loan_amount validate_loan_amount
    validate_excess_loan validate_loan_tenor get_setting_number draft_figures
    create_type_specific_details loan_owner calculate_loan_details total_repayment_of round_div
created_figures = (refl, refl)

-- Goods for 20000.00 as a draft.
abbrev goods : LoanApplication
goods = record some_loan {
  loan_type = goods_reimburse;
  loan_amount = 2000000;
  details = goods_reimburse_details 2000000;
}

abbrev new_price : UpdateLoanDto
new_price = record {
  loan_tenor = none;
  loan_purpose = none;
  loan_amount = none;
  item_price = some 3000000;
}

abbrev changed : LoanApplication
changed = write_draft context new_price goods

update_draft-IsValid_example : IsValid changed
unfolding update_draft may_access
update_draft-IsValid_example =
    update_draft-IsValid context 7 [] new_price goods (refl, refl, (refl, refl, refl)) refl

update_draft_keeps_amount_example :
    (changed.loan_amount ≡ goods.loan_amount)
    × IsRepriced 3000000 goods.details changed.details
    × IsRefigured context.settings goods changed
unfolding update_draft may_access
update_draft_keeps_amount_example =
    update_draft_keeps_amount context 7 [] new_price goods 3000000 refl refl refl

-- The goods cost 30000.00 now, and the loan is still 20000.00.
old_amount : (changed.loan_amount ≡ 2000000) × (changed.details ≡ goods_reimburse_details 3000000)
unfolding write_draft updated_figures written_amount new_draft_amount update_type_specific_details
old_amount = (refl, refl)
