-- ===== src/Payroll/Reprocessed.antt =====
-- What a forced second run of the same period (`processPayroll` with `force`, in
-- backend/src/payroll/payroll.service.ts) does to a monthly fee.
use kamorina.Base.{ℕ, ◌+◌, ◌≡◌, refl, ap, true, some, List, [], ◌∷◌, arith, Bool-cases, inl, inr}
use kamorina.Savings.Types.{SavingsTransaction, SavingsAccount}
use kamorina.Repayment.Settlement.{PayrollContext}
use kamorina.Payroll.Types.{PayrollSettings, is_of_period, upsert, new_transaction}
use kamorina.Payroll.MandatorySavings.{pay_monthly_fee, set_monthly_fee}

upsert_again :
    (now new_id now' new_id' period : ℕ) (settings : PayrollSettings) (ts : List SavingsTransaction)
    → let set = set_monthly_fee settings.monthly_membership_fee in
      let once = upsert period set (set (new_transaction now new_id period settings)) ts in
      upsert period set (set (new_transaction now' new_id' period settings)) once ≡ once
upsert_again now new_id now' new_id' period settings [] =
    let e : is_of_period period (some period) ≡ true = ground arith in rw e refl
upsert_again now new_id now' new_id' period settings (t ∷ ts) =
    let h = upsert_again now new_id now' new_id' period settings ts in
    elim (Bool-cases (is_of_period period t.payroll_period_id)) [
      | inl e ↦ rw e (rw e refl)
      | inr e ↦ rw e (rw e (ap (λ l. t ∷ l) h))
    ]

-- When a run of a period is repeated for an account, the monthly fee is added to the mandatory
-- savings a second time, while the account's transactions stay what the first run left of them.
pub pay_monthly_fee_again :
    (now new_id now' new_id' : ℕ) (settings : PayrollSettings) (context : PayrollContext)
    (account : SavingsAccount)
    → let fee = settings.monthly_membership_fee in
      let once = pay_monthly_fee now new_id settings context account in
      let twice = pay_monthly_fee now' new_id' settings context once in
      (twice.saldo_wajib ≡ account.saldo_wajib + fee + fee)
      × (twice.transactions ≡ once.transactions)
unfolding pay_monthly_fee
pay_monthly_fee_again now new_id now' new_id' settings context account = (
  refl,
  upsert_again now new_id now' new_id' context.payroll_period_id settings account.transactions,
)
