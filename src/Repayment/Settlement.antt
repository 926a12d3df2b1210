-- ===== src/Repayment/Settlement.antt =====
-- backend/src/payroll/services/loan-repayment.processor.ts: a payroll run settles the approved
-- repayments. The run loads each repayment with its loan; the texts of the notes are left out.
use kamorina.Base.{
  ℕ, String, ◌+◌, Bool, true, false, ◌&&◌, Option, none, some, List, [], ◌∷◌, ◌++◌, map, filter,
  leb, if◌then◌else◌,
}
use kamorina.Base.Int.{pos, ◌+ℤ◌}
use kamorina.Loan.Installment.{or_else}
use kamorina.SocialFund.Types.{excess_loan_repayment, SocialFund, SocialFundBalance}
use kamorina.Loan.Types.{LoanStatus, LoanInstallment, LoanApplication, is_excess}
use kamorina.Repayment.Types.{RepaymentStatus, LoanRepayment, is_status}

pub record PayrollContext : Type 0 where
  pub payroll_period_id : ℕ
  pub process_date : ℕ
  pub cutoff_end : ℕ

-- `replenishSocialFund`, on the balance row that was found; the new transaction has the given id.
abbrev pub replenish_found : String → ℕ → ℕ → ℕ → SocialFund → Option SocialFundBalance → SocialFund
replenish_found description now new_id amount fund none = fund
replenish_found description now new_id amount fund (some balance) =
    let new_balance = balance.current_balance +ℤ pos amount in
    record {
      balance = some (record balance { current_balance = new_balance });
      transactions =
          fund.transactions
          ++ record {
            id = new_id;
            kind = excess_loan_repayment;
            amount = amount;
            balance_after = new_balance;
            description = some description;
            recipient_user_id = none;
            created_by = or_else balance.updated_by balance.id;
            created_at = now;
          }
            ∷ [];
    }

unfoldable pub replenish_social_fund : ℕ → ℕ → ℕ → SocialFund → SocialFund
replenish_social_fund now new_id amount fund =
    replenish_found "Pelunasan Pinjaman Excess" now new_id amount fund fund.balance

-- `loanInstallment.updateMany({ where: { isPaid: false } })`
unfoldable pub pay_installment :
    PayrollContext → LoanApplication → LoanInstallment → LoanInstallment
pay_installment context loan i = if i.is_paid then i else record i {
  is_paid = true;
  paid_at = some context.process_date;
  paid_amount = loan.monthly_installment;
  payroll_period_id = some context.payroll_period_id;
}

unfoldable pub complete_loan : PayrollContext → LoanApplication → LoanApplication
unfolding pay_installment
complete_loan context loan = record loan {
  status = LoanStatus.completed;
  history =
      loan.history
      ++ record {
        status = LoanStatus.completed;
        loan_type = loan.loan_type;
        loan_amount = loan.loan_amount;
        loan_tenor = loan.loan_tenor;
        loan_purpose = loan.loan_purpose;
        interest_rate = loan.interest_rate;
        monthly_installment = loan.monthly_installment;
        action = "REPAYMENT_COMPLETED";
        action_at = context.process_date;
        action_by = none;
        notes = some "Pelunasan via payroll";
      }
        ∷ [];
  loan_installments = map (pay_installment context loan) loan.loan_installments;
}

-- The `where` of `loanRepayment.findMany`.
abbrev pub is_before : ℕ → Option ℕ → Bool
is_before cutoff none = false
is_before cutoff (some date) = leb date cutoff

abbrev pub is_due : PayrollContext → LoanRepayment × LoanApplication → Bool
is_due context (r, loan) =
    is_status r.status RepaymentStatus.approved && is_before context.cutoff_end r.approved_at

abbrev pub settle :
    PayrollContext → LoanRepayment × LoanApplication → LoanRepayment × LoanApplication
settle context (r, loan) =
    (record r { status = RepaymentStatus.completed }, complete_loan context loan)

abbrev pub Rows : Type 0
Rows = List (LoanRepayment × LoanApplication)

-- `new_ids` gives the id of the fund's transaction for a repayment.
abbrev pub replenish_for : ℕ → (ℕ → ℕ) → LoanRepayment × LoanApplication → SocialFund → SocialFund
replenish_for now new_ids (r, loan) fund =
    if is_excess loan.loan_type
    then replenish_social_fund now (new_ids r.id) r.total_amount fund
    else fund

pub record ProcessorResult : Type 0 where
  pub processed_count : ℕ
  pub total_amount : ℕ
  pub settled : Rows
  pub fund : SocialFund

-- The loop over the rows that were found.
unfoldable pub process_rows : PayrollContext → ℕ → (ℕ → ℕ) → Rows → SocialFund → ProcessorResult
unfolding replenish_social_fund complete_loan
process_rows context now new_ids [] fund = record {
  processed_count = 0;
  total_amount = 0;
  settled = [];
  fund = fund;
}
process_rows context now new_ids (row ∷ rows) fund =
    let rest = process_rows context now new_ids rows (replenish_for now new_ids row fund) in
    record {
      processed_count = rest.processed_count + 1;
      total_amount = row.0.total_amount + rest.total_amount;
      settled = settle context row ∷ rest.settled;
      fund = rest.fund;
    }

unfoldable pub process : PayrollContext → ℕ → (ℕ → ℕ) → Rows → SocialFund → ProcessorResult
unfolding process_rows
process context now new_ids rows fund =
    process_rows context now new_ids (filter (is_due context) rows) fund
