-- ===== src/Deposit/Change/Approval.antt =====
-- The review of a change in backend/src/deposit/deposit-change.service.ts: at the last step the deposit
-- is changed or stopped, and the fee is taken from the owner's voluntary savings. The queued emails
-- and the texts of the notes on transactions are left out.
use kamorina.Base.{
  or_kept, ℕ, String, Option, none, some, List, [], ◌∷◌, ◌++◌, ltb, if◌then◌else◌, is_some, Result,
  ok, ◌>>=◌,
}
use kamorina.Base.Int.{pos, ◌+ℤ◌, ◌-ℤ◌}
use kamorina.Loan.Calculation.{Settings, get_setting_number}
use kamorina.Savings.Types.{SavingsAccount}
use kamorina.Savings.Payment.{monthly_interest}
use kamorina.Deposit.Types.{
  DepositStatus, DepositApprovalStep, DepositApprovalDecision, DepositApproval, DepositAction,
  DepositApplication, DepositError,
}
use kamorina.Deposit.Dates.{LocalDate, add_months}
use kamorina.Deposit.Review.{ApproveDepositDto, decide, check_review, next_step, is_last_step}
use kamorina.Deposit.Change.Types.{DepositChangeStatus, DepositChangeRequest, ChangeRow, is_stop}
use kamorina.Deposit.Change.Requests.{history_of}
use kamorina.Deposit.Change.Rules.{get_admin_fee}

-- `handleRejection`
unfoldable pub handle_rejection :
    ℕ → ℕ → Option String → DepositApproval → DepositChangeRequest → DepositChangeRequest
unfolding decide
handle_rejection now approver notes found r = record r {
  approvals = decide found.id DepositApprovalDecision.rejected now approver notes r.approvals;
  status = DepositChangeStatus.rejected;
  rejected_at = some now;
  rejection_reason = or_kept notes r.rejection_reason;
  current_step = none;
  history =
      r.history
      ++ history_of DepositChangeStatus.rejected DepositAction.rejected now approver notes r ∷ [];
}

abbrev pub status_after : DepositApprovalStep → DepositChangeStatus
status_after step =
    if is_last_step step
    then DepositChangeStatus.approved
    else DepositChangeStatus.under_review_ketua

-- What an approval writes to the request.
unfoldable pub approve_request :
    ℕ
    → ℕ
    → Option String
    → DepositApprovalStep
    → DepositApproval
    → DepositChangeRequest
    → DepositChangeRequest
unfolding decide
approve_request now approver notes step found r =
    let last = is_last_step step in
    record r {
      approvals = decide found.id DepositApprovalDecision.approved now approver notes r.approvals;
      status = status_after step;
      current_step = next_step step;
      approved_at = if last then some now else r.approved_at;
      effective_date = if last then some now else r.effective_date;
      history =
          r.history
          ++ history_of (status_after step) DepositAction.approved now approver notes r ∷ [];
    }

-- A fee is taken from the voluntary savings, and booked with a month's interest on what is left.
unfoldable pub charge_fee : Settings → ℕ → ℕ → ℕ → ℕ → SavingsAccount → SavingsAccount
unfolding monthly_interest get_setting_number
charge_fee settings now new_id approver fee account =
    let annual_rate = get_setting_number settings "deposit_interest_rate" 600 in
    let saldo_sukarela = account.saldo_sukarela -ℤ pos fee in
    let total_balance = pos account.saldo_pokok +ℤ pos account.saldo_wajib +ℤ saldo_sukarela in
    let interest = monthly_interest total_balance annual_rate in
    record account {
      saldo_sukarela = account.saldo_sukarela -ℤ pos fee;
      bunga_deposito = interest;
      transactions =
          account.transactions
          ++ record {
            id = new_id;
            interest_rate = annual_rate;
            iuran_pendaftaran = 0;
            iuran_bulanan = 0;
            tabungan_deposito = 0;
            shu = 0;
            penarikan = fee;
            bunga = interest -ℤ account.bunga_deposito;
            jumlah_bunga = interest;
            transaction_date = now;
            created_by = some approver;
            payroll_period_id = none;
          }
            ∷ [];
    }

abbrev pub charge : Settings → ℕ → ℕ → ℕ → ℕ → Option SavingsAccount → Option SavingsAccount
charge settings now new_id approver fee none = none
charge settings now new_id approver fee (some account) =
    some (charge_fee settings now new_id approver fee account)

unfoldable pub stop_deposit : ℕ → DepositApplication → DepositApplication
stop_deposit now d = record d {
  status = DepositStatus.completed;
  completed_at = some now;
  current_step = none;
}

-- The interest rate stays: `newInterestRate` is no column of a request, and an undefined value is
-- not written.
unfoldable pub change_deposit :
    LocalDate → DepositChangeRequest → DepositApplication → DepositApplication
unfolding add_months
change_deposit today r d = record d {
  amount_value = r.new_amount_value;
  tenor_months = r.new_tenor_months;
  maturity_date =
      if is_some d.maturity_date then some (add_months r.new_tenor_months today) else none;
}

-- The final approval, by the type of the change: a stop takes the request's fee, if it is positive,
-- and any other change the fee of the settings.
unfoldable pub apply_change :
    Settings → ℕ → LocalDate → ℕ → ℕ → DepositChangeRequest → ChangeRow → ChangeRow
unfolding charge_fee stop_deposit change_deposit get_admin_fee
apply_change settings now today new_id approver r row =
    if is_stop r.change_type
    then record row {
      deposit = stop_deposit now row.deposit;
      savings_account =
          if ltb 0 r.admin_fee
          then charge settings now new_id approver r.admin_fee row.savings_account
          else row.savings_account;
    }
    else record row {
      deposit = change_deposit today r row.deposit;
      savings_account =
          charge settings now new_id approver (get_admin_fee settings) row.savings_account;
    }

-- `handleApproval`
unfoldable pub handle_approval :
    Settings
    → ℕ
    → LocalDate
    → ℕ
    → ℕ
    → Option String
    → DepositApprovalStep
    → DepositApproval
    → ChangeRow
    → ChangeRow
unfolding approve_request apply_change
handle_approval settings now today new_id approver notes step found row =
    let applied =
      if is_last_step step
      then apply_change settings now today new_id approver row.request row
      else row in
    record applied { request = approve_request now approver notes step found row.request }

abbrev pub conclude :
    Settings
    → ℕ
    → LocalDate
    → ℕ
    → ℕ
    → Option String
    → DepositApprovalStep
    → DepositApproval
    → ChangeRow
    → DepositApprovalDecision
    → ChangeRow
conclude settings now today new_id approver notes step found row DepositApprovalDecision.rejected =
    record row { request = handle_rejection now approver notes found row.request }
conclude settings now today new_id approver notes step found row DepositApprovalDecision.approved =
    handle_approval settings now today new_id approver notes step found row

-- `processApproval` on the request that was found; the booking of a fee has the id `new_id`.
unfoldable pub process_approval :
    Settings
    → ℕ
    → LocalDate
    → ℕ
    → ℕ
    → List String
    → ApproveDepositDto
    → ChangeRow
    → Result DepositError ChangeRow
unfolding check_review handle_rejection handle_approval
process_approval settings now today new_id approver roles dto row = do
  (step, found) ← check_review roles row.request.current_step row.request.approvals
  ok (conclude settings now today new_id approver dto.notes step found row dto.decision)
