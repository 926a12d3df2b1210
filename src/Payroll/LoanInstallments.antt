-- ===== src/Payroll/LoanInstallments.antt =====
-- backend/src/payroll/services/loan-installment.processor.ts: the installments of the month are paid,
-- those of an excess loan go back to the social fund, and a loan that is paid off is completed. The
-- run loads each loan with its installments; texts of notes are left out, of the fund's descriptions
-- the numbers.
use kamorina.Base.{
  ℕ, ◌+◌, Bool, true, not, ◌&&◌, none, some, List, [], ◌∷◌, ◌++◌, any, ◌==◌, if◌then◌else◌,
}
use kamorina.SocialFund.Types.{SocialFund}
use kamorina.Loan.Types.{LoanStatus, LoanInstallment, LoanApplication, is_status, is_excess}
use kamorina.Repayment.Settlement.{PayrollContext, replenish_found}
use kamorina.Payroll.Types.{ProcessorDetail}

-- The `where` of `loanInstallment.findMany`, for a run in this month.
abbrev pub is_due_in : ℕ → LoanInstallment → Bool
is_due_in month i = not i.is_paid && (i.due_date.month == month)

-- `tx.loanInstallment.update`
abbrev pub mark_paid : PayrollContext → LoanInstallment → LoanInstallment
mark_paid context i = record i {
  is_paid = true;
  paid_at = some context.process_date;
  paid_amount = some i.amount;
  payroll_period_id = some context.payroll_period_id;
}

-- `replenishSocialFund`
unfoldable pub replenish_social_fund : ℕ → ℕ → ℕ → SocialFund → SocialFund
replenish_social_fund now new_id amount fund =
    replenish_found "Cicilan Pinjaman Excess" now new_id amount fund fund.balance

abbrev pub is_unpaid : LoanInstallment → Bool
is_unpaid i = not i.is_paid

-- The end of the loop's body: a loan with no unpaid installment is completed.
unfoldable pub complete_if_paid : PayrollContext → LoanApplication → LoanApplication
complete_if_paid context loan = if any is_unpaid loan.loan_installments then loan else record loan {
  status = LoanStatus.completed;
  history =
      loan.history
      ++ record {
        status = LoanStatus.completed;
        loan_type = loan.loan_type;
        loan_amount = loan.loan_amount;
        loan_tenor = loan.loan_tenor;
        loan_purpose = loan.loan_purpose;
        interest_rate = loan.interest_rate;
        monthly_installment = loan.monthly_installment;
        action = "COMPLETED";
        action_at = context.process_date;
        action_by = none;
        notes = some "Semua cicilan telah lunas";
      }
        ∷ [];
}

-- What the run has done so far with one loan and the fund.
pub record Paid : Type 0 where
  pub processed_count : ℕ
  pub total_amount : ℕ
  pub details : List ProcessorDetail
  pub loan : LoanApplication
  pub fund : SocialFund

-- The loop over the installments of one loan, of which `before` are done and `rest` are to come. An
-- installment that the query did not find stays as it is.
unfoldable pub pay_loan :
    ℕ
    → (ℕ → ℕ)
    → PayrollContext
    → ℕ
    → List LoanInstallment
    → List LoanInstallment
    → LoanApplication
    → SocialFund
    → Paid
unfolding replenish_social_fund complete_if_paid
pay_loan now new_ids context month before [] loan fund = record {
  processed_count = 0;
  total_amount = 0;
  details = [];
  loan = loan;
  fund = fund;
}
pay_loan now new_ids context month before (i ∷ rest) loan fund =
    let done = before ++ mark_paid context i ∷ [] in
    let paid_loan = complete_if_paid context (record loan { loan_installments = done ++ rest }) in
    let next_fund =
      if is_excess loan.loan_type
      then replenish_social_fund now (new_ids i.installment_number) i.amount fund
      else fund in
    let paid = pay_loan now new_ids context month done rest paid_loan next_fund in
    let skipped = pay_loan now new_ids context month (before ++ i ∷ []) rest loan fund in
    if is_due_in month i
    then record {
      processed_count = paid.processed_count + 1;
      total_amount = i.amount + paid.total_amount;
      details = record { user_id = loan.user_id; amount = i.amount } ∷ paid.details;
      loan = paid.loan;
      fund = paid.fund;
    }
    else skipped

pub record InstallmentsResult : Type 0 where
  pub processed_count : ℕ
  pub total_amount : ℕ
  pub details : List ProcessorDetail
  pub loans : List LoanApplication
  pub fund : SocialFund

-- The loop over all the loans, by their ids, for a run in this month. `new_ids` gives the id of the
-- fund's transaction for an installment of a loan.
unfoldable pub process_installments :
    ℕ → (ℕ → ℕ → ℕ) → PayrollContext → ℕ → List LoanApplication → SocialFund → InstallmentsResult
unfolding pay_loan
process_installments now new_ids context month [] fund = record {
  processed_count = 0;
  total_amount = 0;
  details = [];
  loans = [];
  fund = fund;
}
process_installments now new_ids context month (loan ∷ loans) fund =
    let paid = pay_loan now (new_ids loan.id) context month [] loan.loan_installments loan fund in
    let after = process_installments now new_ids context month loans paid.fund in
    let skipped = process_installments now new_ids context month loans fund in
    if is_status loan.status LoanStatus.disbursed
    then record {
      processed_count = paid.processed_count + after.processed_count;
      total_amount = paid.total_amount + after.total_amount;
      details = paid.details ++ after.details;
      loans = paid.loan ∷ after.loans;
      fund = after.fund;
    }
    else record skipped { loans = loan ∷ skipped.loans }
