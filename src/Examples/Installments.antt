-- ===== src/Examples/Installments.antt =====
-- The last installment of the disbursed loan of kamorina.Examples.Repayments, in a payroll run.
use kamorina.Base.{◌+◌, ◌≡◌, refl, [], ◌∷◌, map, sum, length}
use kamorina.Repayment.Replenished.{IsReplenished}
use kamorina.Payroll.LoanInstallments.{process_installments}
use kamorina.Payroll.MonthPaid.{month_of, due_of, disbursed, process_installments-after_month}
use kamorina.Payroll.MonthFund.{excess_due, process_installments-IsReplenished}
use kamorina.Examples.Funds.{first_fund, first_fund-IsSolvent}
use kamorina.Examples.Repayments.{lent, run}
use kamorina.Loan.Types.{LoanStatus}

process_installments-after_month_example :
    (process_installments 40 (λ loan n. n + 50) run 2 (lent ∷ []) first_fund).loans
    ≡ map (month_of run 2) (lent ∷ [])
process_installments-after_month_example =
    process_installments-after_month 40 (λ loan n. n + 50) run 2 (lent ∷ []) first_fund

process_installments-IsReplenished_example :
    let result = process_installments 40 (λ loan n. n + 50) run 2 (lent ∷ []) first_fund in
    (result.total_amount ≡ sum (map (due_of 2) (disbursed (lent ∷ []))))
    × (sum (map (λ d. d.amount) result.details) ≡ result.total_amount)
    × (length result.details ≡ result.processed_count)
    × IsReplenished (sum (map (excess_due 2) (disbursed (lent ∷ [])))) first_fund result.fund
process_installments-IsReplenished_example =
    process_installments-IsReplenished 40 (λ loan n. n + 50) run 2 (lent ∷ []) first_fund
      first_fund-IsSolvent

-- The loan is completed by it.
last_installment :
    map
      (λ loan. loan.status)
      (process_installments 40 (λ loan n. n + 50) run 2 (lent ∷ []) first_fund).loans
    ≡ LoanStatus.completed ∷ []
unfolding process_installments
last_installment = refl
