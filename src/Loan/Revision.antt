-- ===== src/Loan/Revision.antt =====
-- `reviseLoan` of backend/src/loan/services/loan-approval.service.ts, with
-- `reviseTypeSpecificDetails` of the handlers: the first reviewer sets new figures.
use kamorina.Base.{
  ℕ, ◌+◌, String, Bool, false, ◌||◌, Option, none, some, List, [], ◌∷◌, ◌++◌, map, ◌==◌, ltb,
  if◌then◌else◌, Result, ok, err, ◌>>=◌, ◌>>◌, throw_if, not,
}
use kamorina.Loan.Types.{
  LoanType, LoanStatus, ReviseLoanDto, LoanApprovalStep, divisi_simpan_pinjam, LoanApproval,
  LoanApplication, LoanDetails, goods_reimburse_details, goods_online_details, goods_phone_details,
  RevisedData, revise, LoanError, only_at_dsp_step, not_under_review_dsp,
  cooperative_price_above_retail, prices_not_positive, details_not_found, is_status, is_step,
}
use kamorina.Loan.Calculation.{LoanCalculation, calculate_loan_details}
use kamorina.Loan.Validation.{HandlerContext, validate_loan_amount, validate_loan_tenor}
use kamorina.Loan.Approval.{find_approval}

-- The `switch` that picks the new amount.
unfoldable pub new_loan_amount : LoanType → ReviseLoanDto → ℕ
new_loan_amount LoanType.cash_loan dto = dto.loan_amount
new_loan_amount LoanType.excess_loan dto = dto.loan_amount
new_loan_amount LoanType.goods_reimburse dto = dto.item_price
new_loan_amount LoanType.goods_online dto = dto.item_price
new_loan_amount LoanType.goods_phone dto = dto.retail_price

-- `update` on the details row, which fails if there is none.
abbrev revise_reimburse : ℕ → LoanDetails → Result LoanError LoanDetails
revise_reimburse price (goods_reimburse_details _) = ok (goods_reimburse_details price)
revise_reimburse price _ = err details_not_found

abbrev revise_online : ℕ → Option ℕ → LoanDetails → Result LoanError LoanDetails
revise_online price none (goods_online_details _ margin) = ok (goods_online_details price margin)
revise_online price (some rate) (goods_online_details _ _) = ok (goods_online_details price rate)
revise_online price _ _ = err details_not_found

abbrev revise_phone : ℕ → ℕ → LoanDetails → Result LoanError LoanDetails
revise_phone retail cooperative (goods_phone_details _ _) =
    ok (goods_phone_details retail cooperative)
revise_phone retail cooperative _ = err details_not_found

unfoldable pub revise_type_specific_details :
    LoanType → ReviseLoanDto → Option ℕ → LoanDetails → Result LoanError LoanDetails
revise_type_specific_details LoanType.cash_loan dto rate details = ok details
revise_type_specific_details LoanType.excess_loan dto rate details = ok details
revise_type_specific_details LoanType.goods_reimburse dto rate details =
    revise_reimburse dto.item_price details
revise_type_specific_details LoanType.goods_online dto rate details =
    revise_online dto.item_price rate details
revise_type_specific_details LoanType.goods_phone dto rate details = do
  throw_if (ltb dto.retail_price dto.cooperative_price) cooperative_price_above_retail
  throw_if (dto.retail_price == 0 || dto.cooperative_price == 0) prices_not_positive
  revise_phone dto.retail_price dto.cooperative_price details

abbrev revised_data_of : ℕ → ReviseLoanDto → LoanCalculation → RevisedData
revised_data_of amount dto calculations = record {
  loan_amount = amount;
  loan_tenor = dto.loan_tenor;
  interest_rate = calculations.interest_rate;
  monthly_installment = calculations.monthly_installment;
  total_repayment = calculations.total_repayment;
  shop_margin_rate = calculations.shop_margin_rate;
  type_specific_data = dto;
}

-- The update of the approval record that was found, if one was.
unfoldable pub record_revision :
    Option LoanApproval → ℕ → ℕ → String → RevisedData → List LoanApproval → List LoanApproval
record_revision none now approver notes figures approvals = approvals
record_revision (some found) now approver notes figures approvals =
    map
      (λ a.
        if a.id == found.id
        then record a {
          decision = some revise;
          decided_at = some now;
          approver_id = some approver;
          notes = some notes;
          revised_data = some figures;
        }
        else a)
      approvals

abbrev pub is_dsp_step : Option LoanApprovalStep → Bool
is_dsp_step none = false
is_dsp_step (some step) = is_step step divisi_simpan_pinjam

-- What the transaction writes.
unfoldable pub write_revision :
    ℕ → ℕ → ReviseLoanDto → ℕ → LoanCalculation → LoanDetails → LoanApplication → LoanApplication
unfolding find_approval record_revision
write_revision now approver dto amount calculations details loan = record loan {
  loan_amount = amount;
  loan_tenor = dto.loan_tenor;
  interest_rate = some calculations.interest_rate;
  monthly_installment = some calculations.monthly_installment;
  total_repayment = some calculations.total_repayment;
  revision_count = loan.revision_count + 1;
  last_revised_at = some now;
  last_revised_by = some approver;
  revision_notes = some dto.revision_notes;
  details = details;
  approvals =
      record_revision (find_approval divisi_simpan_pinjam loan.approvals) now approver
        dto.revision_notes (revised_data_of amount dto calculations) loan.approvals;
  history =
      loan.history
      ++ record {
        status = LoanStatus.under_review_dsp;
        loan_type = loan.loan_type;
        loan_amount = amount;
        loan_tenor = dto.loan_tenor;
        loan_purpose = loan.loan_purpose;
        interest_rate = some calculations.interest_rate;
        monthly_installment = some calculations.monthly_installment;
        action = "REVISED";
        action_at = now;
        action_by = some approver;
        notes = some dto.revision_notes;
      }
        ∷ [];
}

unfoldable pub revise_loan :
    HandlerContext → ℕ → ℕ → ReviseLoanDto → LoanApplication → Result LoanError LoanApplication
unfolding new_loan_amount write_revision
revise_loan context now approver dto loan = do
  throw_if (not (is_dsp_step loan.current_step)) only_at_dsp_step
  throw_if (not (is_status loan.status LoanStatus.under_review_dsp)) not_under_review_dsp
  let amount = new_loan_amount loan.loan_type dto
  validate_loan_amount context loan.loan_type amount
  validate_loan_tenor context.settings dto.loan_tenor
  let calculations = calculate_loan_details context.settings amount dto.loan_tenor loan.loan_type
  details ←
      revise_type_specific_details loan.loan_type dto calculations.shop_margin_rate loan.details
  ok (write_revision now approver dto amount calculations details loan)
