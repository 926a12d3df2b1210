-- ===== src/Loan/Installment.antt =====
-- The schedule of backend/src/loan/services/loan-installment.service.ts. Its date library enters
-- as a `Calendar`.
use kamorina.Base.{
  ℕ, zero, suc, ◌+◌, ◌-◌, ◌*◌, ◌/◌, ◌≡◌, String, true, false, not, Option, none, some, List, [],
  ◌∷◌, ltb, ◌==◌, length, if◌then◌else◌, Result, ok, ◌>>◌, throw_if, filter, sum, map,
}
use kamorina.Loan.Types.{
  Day, LoanStatus, LoanInstallment, LoanApplication, LoanError, not_disbursed, is_status,
}
use kamorina.Loan.Calculation.{Settings, get_setting_number}

-- `dayjs(time)`, `.set('date', n)` and `.add(k, 'month')`. Adding months moves the month by that
-- many; setting a date stays in the month if the month has that date, as it has up to 28.
pub record Calendar : Type 0 where
  pub day_of : ℕ → Day
  pub set_date : ℕ → Day → Day
  pub add_months : ℕ → Day → Day
  pub month-add_months : (k : ℕ) (d : Day) → (add_months k d).month ≡ d.month + k

pub record PayrollDates : Type 0 where
  pub cutoff_date : ℕ
  pub payroll_date : ℕ

-- `parseInt(value || d) || d`
abbrev whole_setting : Settings → String → ℕ → ℕ
whole_setting settings key d =
    let value = get_setting_number settings key (d * 100) / 100 in if value == 0 then d else value

unfoldable pub get_payroll_settings : Settings → PayrollDates
get_payroll_settings settings = record {
  cutoff_date = whole_setting settings "cooperative_cutoff_date" 15;
  payroll_date = whole_setting settings "cooperative_payroll_date" 27;
}

unfoldable pub calculate_next_due_date : Calendar → Day → PayrollDates → Day
calculate_next_due_date calendar from dates =
    let due_date = calendar.set_date dates.payroll_date from in
    if ltb dates.cutoff_date from.date then calendar.add_months 1 due_date else due_date

-- The loop `for (let i = 1; i <= loanTenor; i++)`, from `i` on with `n` rounds left.
unfoldable pub installments_from : Calendar → Day → ℕ → ℕ → ℕ → List LoanInstallment
installments_from calendar first_due amount i zero = []
installments_from calendar first_due amount i (suc n) =
    record {
      installment_number = i;
      due_date = calendar.add_months (i - 1) first_due;
      amount = amount;
      is_paid = false;
      paid_at = none;
      paid_amount = none;
      payroll_period_id = none;
    }
    ∷ installments_from calendar first_due amount (i + 1) n

-- `loan.monthlyInstallment || 0`, `loan.disbursedAt || new Date()`
abbrev pub or_else : Option ℕ → ℕ → ℕ
or_else none d = d
or_else (some x) d = x

unfoldable pub first_due_date : Calendar → Settings → ℕ → LoanApplication → Day
unfolding calculate_next_due_date get_payroll_settings
first_due_date calendar settings now loan =
    calculate_next_due_date calendar (calendar.day_of (or_else loan.disbursed_at now))
      (get_payroll_settings settings)

unfoldable pub generate_installment_schedule :
    Calendar → Settings → ℕ → LoanApplication → Result LoanError LoanApplication
unfolding installments_from first_due_date
generate_installment_schedule calendar settings now loan = do
  throw_if (not (is_status loan.status LoanStatus.disbursed)) not_disbursed
  ok (
      if ltb 0 (length loan.loan_installments) then loan else record loan {
        loan_installments =
            installments_from calendar (first_due_date calendar settings now loan)
              (or_else loan.monthly_installment 0) 1 loan.loan_tenor;
      })

-- `markAsPaid`, on the installment that was found
unfoldable pub mark_as_paid : ℕ → ℕ → LoanInstallment → LoanInstallment
mark_as_paid now payroll_period installment = record installment {
  is_paid = true;
  paid_at = some now;
  paid_amount = some installment.amount;
  payroll_period_id = some payroll_period;
}

pub record InstallmentSummary : Type 0 where
  pub total_installments : ℕ
  pub paid_installments : ℕ
  pub unpaid_installments : ℕ
  pub total_paid_amount : ℕ
  pub total_unpaid_amount : ℕ

unfoldable pub get_loan_installment_summary : List LoanInstallment → InstallmentSummary
get_loan_installment_summary installments = record {
  total_installments = length installments;
  paid_installments = length (filter (λ i. i.is_paid) installments);
  unpaid_installments = length (filter (λ i. not i.is_paid) installments);
  total_paid_amount =
      sum (map (λ i. or_else i.paid_amount 0) (filter (λ i. i.is_paid) installments));
  total_unpaid_amount = sum (map (λ i. i.amount) (filter (λ i. not i.is_paid) installments));
}
