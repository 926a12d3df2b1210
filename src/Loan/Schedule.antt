-- ===== src/Loan/Schedule.antt =====
-- What `generateInstallmentSchedule` makes: one installment a month, numbered from 1, for the whole
-- tenor, and once only.
use kamorina.Base.{
  subst, ◌∙◌, ap, ℕ, zero, suc, ◌+◌, ◌-◌, ◌*◌, ◌<◌, ◌≡◌, refl, false, List, [], ◌∷◌, arith, length,
  sum, map, ok,
}
use kamorina.Loan.Types.{Day, LoanStatus, LoanInstallment, LoanApplication}
use kamorina.Loan.Calculation.{Settings}
use kamorina.Loan.Installment.{
  Calendar, installments_from, or_else, first_due_date, generate_installment_schedule,
}

module _ (calendar : Calendar) (first_due : Day) (amount : ℕ) where
  pub length-installments_from :
      (i n : ℕ) → length (installments_from calendar first_due amount i n) ≡ n
  unfolding installments_from
  length-installments_from i zero = refl
  length-installments_from i (suc n) = omega (arith, length-installments_from (i + 1) n)

  -- The installment at place `k` has the number `i + k`, is unpaid, is of the given amount, and is
  -- due `i + k - 1` months after the first.
  abbrev pub IsPlanned : ℕ → List LoanInstallment → Type 0
  IsPlanned i [] = Unit
  IsPlanned i (x ∷ xs) =
      (x.installment_number ≡ i)
      × (x.amount ≡ amount)
      × (x.is_paid ≡ false)
      × (x.due_date.month + 1 ≡ first_due.month + i)
      × IsPlanned (suc i) xs

  pub installments_from-IsPlanned :
      (i n : ℕ) → IsPlanned (suc i) (installments_from calendar first_due amount (suc i) n)
  unfolding installments_from
  installments_from-IsPlanned i zero = tt
  installments_from-IsPlanned i (suc n) = (
    refl,
    refl,
    refl,
    omega (arith, calendar.month-add_months (suc i - 1) first_due),
    subst (λ k. IsPlanned (suc (suc i)) (installments_from calendar first_due amount k n))
        (let e : suc (suc i) ≡ suc i + 1 = omega arith in e)
        (installments_from-IsPlanned (suc i) n),
  )

abbrev pub amounts : List LoanInstallment → ℕ
amounts l = sum (map (λ x. x.amount) l)

amounts_of_IsPlanned :
    (calendar : Calendar) (first_due : Day) (amount i : ℕ) (l : List LoanInstallment)
    → IsPlanned calendar first_due amount i l
    → amounts l ≡ length l * amount
amounts_of_IsPlanned calendar first_due amount i [] h = omega arith
amounts_of_IsPlanned calendar first_due amount i (x ∷ l) h =
    grind (arith, amounts_of_IsPlanned calendar first_due amount (suc i) l h.4)

module _ (calendar : Calendar) (settings : Settings) (now : ℕ) (loan : LoanApplication) where
  abbrev pub planned : List LoanInstallment
  planned =
      installments_from calendar (first_due_date calendar settings now loan)
        (or_else loan.monthly_installment 0) 1 loan.loan_tenor

  written :
      loan.status ≡ LoanStatus.disbursed
      → loan.loan_installments ≡ []
      → generate_installment_schedule calendar settings now loan
        ≡ ok (record loan { loan_installments = planned })
  unfolding generate_installment_schedule
  written s e = ground arith

  -- The first schedule of a disbursed loan has one unpaid installment for each month of the tenor,
  -- numbered from 1 and a month apart, and the amounts add up to the tenor times the monthly
  -- installment. It replaces the installments and nothing else of the loan.
  pub generate_installment_schedule-IsPlanned :
      loan.status ≡ LoanStatus.disbursed
      → loan.loan_installments ≡ []
      → (generate_installment_schedule calendar settings now loan
          ≡ ok (record loan { loan_installments = planned }))
        × (length planned ≡ loan.loan_tenor)
        × IsPlanned calendar
            (first_due_date calendar settings now loan)
            (or_else loan.monthly_installment 0)
            1
            planned
        × (amounts planned ≡ loan.loan_tenor * or_else loan.monthly_installment 0)
  generate_installment_schedule-IsPlanned s e =
      let first = first_due_date calendar settings now loan in
      let amount = or_else loan.monthly_installment 0 in
      let long = length-installments_from calendar first amount 1 loan.loan_tenor in
      let good = installments_from-IsPlanned calendar first amount 0 loan.loan_tenor in
      (
        written s e,
        long,
        good,
        amounts_of_IsPlanned calendar first amount 1 planned good ∙ ap (λ n. n * amount) long,
      )

  -- A loan that has installments keeps them: a second run changes nothing.
  pub generate_installment_schedule_again :
      loan.status ≡ LoanStatus.disbursed
      → 0 < length loan.loan_installments
      → generate_installment_schedule calendar settings now loan ≡ ok loan
  unfolding generate_installment_schedule
  generate_installment_schedule_again s h = ground arith
