-- ===== src/Loan/Disbursement.antt =====
-- The two steps after the review: backend/src/loan/services/loan-disbursement.service.ts and
-- loan-authorization.service.ts. The emails to the next person are not modelled.
use kamorina.Base.{
  ℕ, String, not, Option, none, some, [], ◌∷◌, ◌++◌, is_some, if◌then◌else◌, Result, ok, err, ◌>>=◌,
  ◌>>◌, throw_if,
}
use kamorina.Base.Int.{pos, ◌-ℤ◌, ltb_ℤ}
use kamorina.SocialFund.Types.{SocialFund, SocialFundBalance, excess_loan_disbursement}
use kamorina.Loan.Types.{
  LoanStatus, LoanApplication, LoanError, not_pending_disbursement, not_pending_authorization,
  no_disbursement_data, fund_not_set, fund_insufficient, is_status, is_excess,
}
use kamorina.Loan.Calculation.{Settings}
use kamorina.Loan.Approval.{history_of}
use kamorina.Loan.Installment.{Calendar, generate_installment_schedule}
use Prim.Native.String.{◌++◌ as append}

pub record ProcessDisbursementDto : Type 0 where
  pub disbursement_date : String
  pub disbursement_time : String
  pub notes : Option String

pub record ProcessAuthorizationDto : Type 0 where
  pub authorization_date : String
  pub authorization_time : String
  pub notes : Option String

abbrev disbursement_note : ProcessDisbursementDto → String
disbursement_note dto = append "Transaksi BCA dibuat pada " (
    append dto.disbursement_date
      (append " jam " (append dto.disbursement_time ". Menunggu otorisasi dari Ketua.")))

unfoldable pub write_disbursement :
    ℕ → ℕ → ProcessDisbursementDto → LoanApplication → LoanApplication
write_disbursement now shopkeeper dto loan = record loan {
  disbursement = some (record {
    processed_by = shopkeeper;
    disbursement_date = dto.disbursement_date;
    disbursement_time = dto.disbursement_time;
    notes = dto.notes;
  });
  status = LoanStatus.pending_authorization;
  history =
      loan.history
      ++ history_of loan LoanStatus.pending_authorization "DISBURSEMENT_CREATED" now shopkeeper
          (some (disbursement_note dto))
        ∷ [];
}

unfoldable pub process_disbursement :
    ℕ → ℕ → ProcessDisbursementDto → LoanApplication → Result LoanError LoanApplication
unfolding write_disbursement
process_disbursement now shopkeeper dto loan = do
  throw_if (not (is_status loan.status LoanStatus.approved_pending_disbursement))
      (not_pending_disbursement loan.status)
  ok (write_disbursement now shopkeeper dto loan)

-- What `deductSocialFund` writes: the balance, and a transaction with the given id. Its
-- description ends in the loan's id, whose text is left out here.
unfoldable pub write_deduction : ℕ → ℕ → ℕ → ℕ → SocialFund → SocialFundBalance → SocialFund
write_deduction now new_id amount user fund balance =
    let new_balance = balance.current_balance -ℤ pos amount in
    record {
      balance = some (record balance { current_balance = new_balance; updated_by = some user });
      transactions =
          fund.transactions
          ++ record {
            id = new_id;
            kind = excess_loan_disbursement;
            amount = amount;
            balance_after = new_balance;
            description = some "Pencairan Pinjaman Excess";
            recipient_user_id = none;
            created_by = user;
            created_at = now;
          }
            ∷ [];
    }

-- `deductSocialFund`, on the balance row that was found
abbrev pub deduct_from :
    ℕ → ℕ → ℕ → ℕ → SocialFund → Option SocialFundBalance → Result LoanError SocialFund
deduct_from now new_id amount user fund none = err fund_not_set
deduct_from now new_id amount user fund (some balance) = do
  throw_if (ltb_ℤ balance.current_balance (pos amount)) fund_insufficient
  ok (write_deduction now new_id amount user fund balance)

unfoldable pub deduct_social_fund : ℕ → ℕ → ℕ → ℕ → SocialFund → Result LoanError SocialFund
unfolding write_deduction
deduct_social_fund now new_id amount user fund =
    deduct_from now new_id amount user fund fund.balance

unfoldable pub deduct_for : ℕ → ℕ → ℕ → LoanApplication → SocialFund → Result LoanError SocialFund
unfolding deduct_social_fund
deduct_for now new_id ketua loan fund =
    if is_excess loan.loan_type
    then deduct_social_fund now new_id loan.loan_amount ketua fund
    else ok fund

abbrev pub authorization_note : ProcessAuthorizationDto → String
authorization_note dto = append "Otorisasi dilakukan pada " (
    append dto.authorization_date
      (append " jam " (append dto.authorization_time ". Pinjaman telah dicairkan.")))

-- The authorization record and the new status, which are written before the schedule is made.
unfoldable pub write_authorization :
    ℕ → ℕ → ProcessAuthorizationDto → LoanApplication → LoanApplication
write_authorization now ketua dto loan = record loan {
  authorization = some (record {
    authorized_by = ketua;
    authorization_date = dto.authorization_date;
    authorization_time = dto.authorization_time;
    notes = dto.notes;
  });
  status = LoanStatus.disbursed;
  disbursed_at = some now;
}

abbrev pub add_disbursed_history :
    ℕ → ℕ → ProcessAuthorizationDto → LoanApplication → LoanApplication → LoanApplication
add_disbursed_history now ketua dto loan updated = record updated {
  history =
      updated.history
      ++ history_of loan LoanStatus.disbursed "AUTHORIZED_AND_DISBURSED" now ketua
          (some (authorization_note dto))
        ∷ [];
}

unfoldable pub process_authorization :
    Calendar
    → Settings
    → ℕ
    → ℕ
    → ℕ
    → ProcessAuthorizationDto
    → SocialFund
    → LoanApplication
    → Result LoanError (LoanApplication × SocialFund)
unfolding write_authorization
process_authorization calendar settings now new_id ketua dto fund loan = do
  throw_if (not (is_status loan.status LoanStatus.pending_authorization))
      (not_pending_authorization loan.status)
  throw_if (not (is_some loan.disbursement)) no_disbursement_data
  scheduled ←
      generate_installment_schedule calendar settings now (write_authorization now ketua dto loan)
  fund' ← deduct_for now new_id ketua loan fund
  ok (add_disbursed_history now ketua dto loan scheduled, fund')
