-- ===== src/Payroll/DepositSavings.antt =====
-- backend/src/payroll/services/deposit-savings.processor.ts: the month's amount of every running
-- deposit goes to its owner's voluntary savings. The texts of the notes are left out.
use kamorina.Base.{
  ℕ, ◌+◌, Bool, ◌&&◌, ◌||◌, Option, none, some, List, [], ◌∷◌, ◌++◌, leb, if◌then◌else◌,
}
use kamorina.Base.Int.{pos, ◌+ℤ◌}
use kamorina.Savings.Types.{SavingsTransaction, SavingsAccount}
use kamorina.Repayment.Settlement.{PayrollContext, is_before}
use kamorina.Deposit.Types.{DepositStatus, DepositAction, DepositApplication, is_status}
use kamorina.Deposit.Dates.{LocalDate}
use kamorina.Deposit.Application.{history_of}
use kamorina.Payroll.Types.{PayrollSettings, ProcessorDetail, upsert, new_transaction}

-- The `where` of `depositApplication.findMany`.
abbrev pub is_running : PayrollContext → DepositApplication → Bool
is_running context d =
    (is_status d.status DepositStatus.approved || is_status d.status DepositStatus.active)
    && is_before context.cutoff_end d.approved_at

abbrev pub is_complete : DepositApplication → Bool
is_complete d = leb d.tenor_months d.installment_count

-- The new status, with `is_completed` of the code.
abbrev pub status_after : Bool → DepositStatus → DepositStatus
status_after completed status =
    if completed
    then DepositStatus.completed
    else if is_status status DepositStatus.approved
    then DepositStatus.active
    else status

-- `context.processDate` as a time, and as a date.
unfoldable pub collect : PayrollContext → LocalDate → DepositApplication → DepositApplication
collect context process_day d =
    let new_count = d.installment_count + 1 in
    let is_completed = leb d.tenor_months new_count in
    let new_status = status_after is_completed d.status in
    record d {
      status = new_status;
      collected_amount = d.collected_amount + d.amount_value;
      installment_count = new_count;
      activated_at =
          if is_status d.status DepositStatus.approved then some process_day else d.activated_at;
      completed_at = if is_completed then some context.process_date else none;
      history =
          d.history
          ++ history_of new_status
              (if is_completed
                then DepositAction.completed
                else DepositAction.installment new_count)
              context.process_date none none d
            ∷ [];
    }

abbrev pub add_deposit : ℕ → SavingsTransaction → SavingsTransaction
add_deposit amount t = record t { tabungan_deposito = t.tabungan_deposito + amount }

unfoldable pub credit :
    ℕ → ℕ → PayrollSettings → PayrollContext → ℕ → SavingsAccount → SavingsAccount
credit now new_id settings context amount account = record account {
  saldo_sukarela = account.saldo_sukarela +ℤ pos amount;
  transactions =
      upsert context.payroll_period_id (add_deposit amount)
        (add_deposit amount (new_transaction now new_id context.payroll_period_id settings))
        account.transactions;
}

-- The run's figures so far, with the account that the deposits of one member are credited to.
pub record Collected : Type 0 where
  pub processed_count : ℕ
  pub total_amount : ℕ
  pub errors : List ℕ
  pub details : List ProcessorDetail
  pub savings_account : Option SavingsAccount
  pub deposits : List DepositApplication

-- The body of the loop, for a running deposit of a member with or without an account; `later` is
-- the rest of the loop, from the account on.
abbrev pub collect_one :
    ℕ
    → ℕ
    → PayrollSettings
    → PayrollContext
    → LocalDate
    → DepositApplication
    → Option SavingsAccount
    → (Option SavingsAccount → Collected)
    → Collected
collect_one now new_id settings context day d none later =
    let rest = later none in
    record rest { errors = d.user_id ∷ rest.errors; deposits = d ∷ rest.deposits }
collect_one now new_id settings context day d (some account) later =
    let skipped = later (some account) in
    let rest = later (some (credit now new_id settings context d.amount_value account)) in
    if is_complete d then record skipped { deposits = d ∷ skipped.deposits } else record {
      processed_count = rest.processed_count + 1;
      total_amount = d.amount_value + rest.total_amount;
      errors = rest.errors;
      details = record { user_id = d.user_id; amount = d.amount_value } ∷ rest.details;
      savings_account = rest.savings_account;
      deposits = collect context day d ∷ rest.deposits;
    }

-- The loop over one member's deposits; one that the query does not find stays as it is. `new_ids`
-- gives the id of a new transaction for a deposit.
unfoldable pub collect_all :
    ℕ
    → (ℕ → ℕ)
    → PayrollSettings
    → PayrollContext
    → LocalDate
    → List DepositApplication
    → Option SavingsAccount
    → Collected
unfolding collect credit
collect_all now new_ids settings context day [] account = record {
  processed_count = 0;
  total_amount = 0;
  errors = [];
  details = [];
  savings_account = account;
  deposits = [];
}
collect_all now new_ids settings context day (d ∷ ds) account =
    let later = collect_all now new_ids settings context day ds in
    let skipped = later account in
    if is_running context d
    then collect_one now (new_ids d.id) settings context day d account later
    else record skipped { deposits = d ∷ skipped.deposits }
