-- ===== src/Payroll/MandatorySavings.antt =====
-- backend/src/payroll/services/mandatory-savings.processor.ts: the monthly fee of every verified
-- member with an account.
use kamorina.Base.{ℕ, ◌+◌, Bool, Option, none, some, List, [], ◌∷◌, if◌then◌else◌}
use kamorina.Savings.Types.{SavingsTransaction, SavingsAccount}
use kamorina.Repayment.Settlement.{PayrollContext}
use kamorina.Payroll.Types.{PayrollSettings, ProcessorResult, to_column, upsert, new_transaction}

pub record User : Type 0 where
  pub id : ℕ
  pub member_verified : Bool
  pub savings_account : Option SavingsAccount

abbrev pub set_monthly_fee : ℕ → SavingsTransaction → SavingsTransaction
set_monthly_fee fee t = record t { iuran_bulanan = to_column fee }

unfoldable pub pay_monthly_fee :
    ℕ → ℕ → PayrollSettings → PayrollContext → SavingsAccount → SavingsAccount
pay_monthly_fee now new_id settings context account =
    let fee = settings.monthly_membership_fee in
    record account {
      saldo_wajib = account.saldo_wajib + fee;
      transactions =
          upsert context.payroll_period_id (set_monthly_fee fee)
            (set_monthly_fee fee (new_transaction now new_id context.payroll_period_id settings))
            account.transactions;
    }

-- The query finds only users with an account, so that the error for one without is never reported.
abbrev pub collect_from :
    ℕ
    → ℕ
    → PayrollSettings
    → PayrollContext
    → User
    → Option SavingsAccount
    → ProcessorResult User
    → ProcessorResult User
collect_from now new_id settings context user none rest = record rest { rows = user ∷ rest.rows }
collect_from now new_id settings context user (some account) rest = record {
  processed_count = rest.processed_count + 1;
  total_amount = settings.monthly_membership_fee + rest.total_amount;
  errors = rest.errors;
  details = record { user_id = user.id; amount = settings.monthly_membership_fee } ∷ rest.details;
  rows =
      record user { savings_account = some (pay_monthly_fee now new_id settings context account) }
      ∷ rest.rows;
}

unfoldable pub process_monthly_fees :
    ℕ → (ℕ → ℕ) → PayrollSettings → PayrollContext → List User → ProcessorResult User
unfolding pay_monthly_fee
process_monthly_fees now new_ids settings context [] = record {
  processed_count = 0;
  total_amount = 0;
  errors = [];
  details = [];
  rows = [];
}
process_monthly_fees now new_ids settings context (user ∷ users) =
    let rest = process_monthly_fees now new_ids settings context users in
    if user.member_verified
    then collect_from now (new_ids user.id) settings context user user.savings_account rest
    else record rest { rows = user ∷ rest.rows }
