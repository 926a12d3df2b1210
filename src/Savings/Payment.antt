-- ===== src/Savings/Payment.antt =====
-- The two confirmations of a withdrawal in backend/src/savings/savings-withdrawal.service.ts: the
-- shopkeeper's, and the chairman's, which pays. The texts of the notes are left out.
use kamorina.Base.{
  ℕ, ◌*◌, suc, String, not, Option, none, some, [], ◌∷◌, ◌++◌, Result, ok, ◌>>◌, throw_if,
}
use kamorina.Base.Int.{ℤ, pos, negsuc, ◌+ℤ◌, ◌-ℤ◌}
use kamorina.Loan.Calculation.{Settings, get_setting_number, round_div}
use kamorina.Savings.Types.{
  SavingsWithdrawalStatus, shopkeeper, ketua_auth, SavingsWithdrawal, SavingsAccount, SavingsError,
  not_at_shopkeeper, not_waiting_disbursement, not_at_authorization, not_in_progress, given_or_now,
  is_status, is_at,
}

pub record ConfirmDisbursementDto : Type 0 where
  pub disbursement_date : Option String
  pub disbursement_time : Option String
  pub notes : Option String

pub record ConfirmAuthorizationDto : Type 0 where
  pub authorization_date : Option String
  pub authorization_time : Option String
  pub notes : Option String

unfoldable pub confirm_disbursement :
    ℕ → ℕ → ConfirmDisbursementDto → SavingsWithdrawal → Result SavingsError SavingsWithdrawal
confirm_disbursement now user dto w = do
  throw_if (not (is_at shopkeeper w.current_step)) not_at_shopkeeper
  throw_if (not (is_status w.status SavingsWithdrawalStatus.approved_waiting_disbursement))
      not_waiting_disbursement
  ok (record w {
    disbursement = some (record {
      processed_by = user;
      disbursement_date = given_or_now dto.disbursement_date now;
      disbursement_time = given_or_now dto.disbursement_time now;
      notes = dto.notes;
    });
    status = SavingsWithdrawalStatus.disbursement_in_progress;
    current_step = some ketua_auth;
  })

-- A month of interest on a balance, in whole rupiah: `toFixed(0)` of balance · rate / 100 / 12.
unfoldable pub monthly_interest : ℤ → ℕ → ℤ
unfolding round_div
monthly_interest (pos total) rate = pos (100 * round_div (total * rate) 12000000)
monthly_interest (negsuc n) rate = pos 0 -ℤ pos (100 * round_div (suc n * rate) 12000000)

-- What an authorization writes to the account.
unfoldable pub write_payment :
    Settings → ℕ → ℕ → ℕ → SavingsWithdrawal → SavingsAccount → SavingsAccount
unfolding monthly_interest get_setting_number
write_payment settings now new_id user w account =
    let new_saldo_sukarela = account.saldo_sukarela -ℤ pos w.withdrawal_amount in
    let total = pos account.saldo_pokok +ℤ pos account.saldo_wajib +ℤ new_saldo_sukarela in
    let interest =
      monthly_interest total (get_setting_number settings "deposit_interest_rate" 600) in
    record account {
      saldo_sukarela = account.saldo_sukarela -ℤ pos w.withdrawal_amount;
      bunga_deposito = interest;
      transactions =
          account.transactions
          ++ record {
            id = new_id;
            interest_rate = 0;
            iuran_pendaftaran = 0;
            iuran_bulanan = 0;
            tabungan_deposito = 0;
            shu = 0;
            penarikan = w.withdrawal_amount;
            bunga = interest -ℤ account.bunga_deposito;
            jumlah_bunga = interest;
            transaction_date = now;
            created_by = some user;
            payroll_period_id = none;
          }
            ∷ [];
    }

abbrev pub write_completion :
    ℕ → ℕ → ConfirmAuthorizationDto → SavingsWithdrawal → SavingsWithdrawal
write_completion now user dto w = record w {
  authorization = some (record {
    authorized_by = user;
    authorization_date = given_or_now dto.authorization_date now;
    authorization_time = given_or_now dto.authorization_time now;
    notes = dto.notes;
  });
  status = SavingsWithdrawalStatus.completed;
  completed_at = some now;
  current_step = none;
}

-- The end of the transaction, by whether the user has an account.
abbrev pub pay :
    Settings
    → ℕ
    → ℕ
    → ℕ
    → SavingsWithdrawal
    → Option SavingsAccount
    → SavingsWithdrawal × Option SavingsAccount
pay settings now new_id user w none = (w, none)
pay settings now new_id user w (some account) =
    (record w { activated_at = some now }, some (write_payment settings now new_id user w account))

unfoldable pub confirm_authorization :
    Settings
    → ℕ
    → ℕ
    → ℕ
    → ConfirmAuthorizationDto
    → SavingsWithdrawal
    → Option SavingsAccount
    → Result SavingsError (SavingsWithdrawal × Option SavingsAccount)
unfolding write_payment
confirm_authorization settings now new_id user dto w account = do
  throw_if (not (is_at ketua_auth w.current_step)) not_at_authorization
  throw_if (not (is_status w.status SavingsWithdrawalStatus.disbursement_in_progress))
      not_in_progress
  ok (pay settings now new_id user (write_completion now user dto w) account)
