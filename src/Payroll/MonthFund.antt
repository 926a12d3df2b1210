-- ===== src/Payroll/MonthFund.antt =====
-- What a run of backend/src/payroll/services/loan-installment.processor.ts reports, and what it brings
-- the social fund.
use kamorina.Base.{
  ℕ, ◌+◌, ◌≡◌, refl, subst, ap, ◌∙◌, List, [], ◌∷◌, ◌++◌, map, sum, length, arith, if◌then◌else◌,
  Bool-cases, inl, inr,
}
use kamorina.Base.Int.{ℤ, pos, ◌+ℤ◌, int_laws}
use kamorina.SocialFund.Types.{SocialFund, money}
use kamorina.SocialFund.Solvency.{IsSolvent}
use kamorina.Loan.Types.{LoanStatus, LoanInstallment, LoanApplication, is_excess, is_status}
use kamorina.Repayment.Settlement.{PayrollContext}
use kamorina.Repayment.Replenished.{
  IsReplenished, replenish_found-IsReplenished, then-IsReplenished,
}
use kamorina.Payroll.Types.{ProcessorDetail}
use kamorina.Payroll.LoanInstallments.{
  is_due_in, mark_paid, replenish_social_fund, complete_if_paid, pay_loan, Paid,
  process_installments,
}
use kamorina.Payroll.MonthPaid.{due_amount, disbursed, due_of}

-- What an amount of a loan brings to the fund.
abbrev pub to_fund : LoanApplication → ℕ → ℕ
to_fund loan amount = if is_excess loan.loan_type then amount else 0

completed-loan_type :
    (context : PayrollContext) (loan : LoanApplication)
    → (complete_if_paid context loan).loan_type ≡ loan.loan_type
unfolding complete_if_paid
completed-loan_type context loan = ground arith

to_fund-add :
    (loan : LoanApplication) (a b : ℕ) → to_fund loan a + to_fund loan b ≡ to_fund loan (a + b)
to_fund-add loan a b = ground arith

no_money : (loan : LoanApplication) (z : ℤ) → z ≡ z +ℤ pos (to_fund loan 0)
no_money loan z = elim (Bool-cases (is_excess loan.loan_type)) [
  | inl e ↦ rw e (omega int_laws)
  | inr e ↦ rw e (omega int_laws)
]

-- The figures of one loan's loop, and what it brings to the fund.
abbrev HasPaid : ℕ → List LoanInstallment → LoanApplication → SocialFund → Paid → Type 0
HasPaid month rest loan fund paid =
    (paid.total_amount ≡ due_amount month rest)
    × (sum (map (λ d. d.amount) paid.details) ≡ paid.total_amount)
    × (length paid.details ≡ paid.processed_count)
    × IsReplenished (to_fund loan paid.total_amount) fund paid.fund

module _ (now : ℕ) (new_ids : ℕ → ℕ) (context : PayrollContext) (month : ℕ) where
  paid_one-IsReplenished :
      (loan : LoanApplication) (id amount : ℕ) (fund : SocialFund)
      → IsSolvent fund
      → IsReplenished
          (to_fund loan amount)
          fund
          (if is_excess loan.loan_type then replenish_social_fund now id amount fund else fund)
  unfolding replenish_social_fund
  paid_one-IsReplenished loan id amount fund s = elim (Bool-cases (is_excess loan.loan_type)) [
    | inl e ↦ rw e (replenish_found-IsReplenished _ now id amount fund fund.balance refl s)
    | inr e ↦ rw e (refl, inr (omega int_laws), s)
  ]

  pay_loan-HasPaid :
      (before rest : List LoanInstallment) (loan : LoanApplication) (fund : SocialFund)
      → IsSolvent fund
      → HasPaid month rest loan fund (pay_loan now new_ids context month before rest loan fund)
  unfolding pay_loan
  pay_loan-HasPaid before [] loan fund s =
      (refl, refl, refl, (refl, inr (no_money loan (money fund.balance)), s))
  pay_loan-HasPaid before (i ∷ rest) loan fund s = elim (Bool-cases (is_due_in month i)) [
    | inl t ↦
        let done = before ++ mark_paid context i ∷ [] in
        let pl = complete_if_paid context (record loan { loan_installments = done ++ rest }) in
        let next =
          if is_excess loan.loan_type
          then replenish_social_fund now (new_ids i.installment_number) i.amount fund
          else fund in
        let first = paid_one-IsReplenished loan (new_ids i.installment_number) i.amount fund s in
        let after = pay_loan now new_ids context month done rest pl next in
        let (a, b, c, f) = pay_loan-HasPaid done rest pl next first.2 in
        let same : to_fund pl after.total_amount ≡ to_fund loan after.total_amount =
          ap (λ k. if is_excess k then after.total_amount else 0)
            (completed-loan_type context (record loan { loan_installments = done ++ rest })) in
        rw t (
          omega (arith, a),
          omega (arith, b),
          omega (arith, c),
          subst (λ k. IsReplenished k fund after.fund)
              (ap (λ k. to_fund loan i.amount + k) same
                ∙ to_fund-add loan i.amount after.total_amount)
              (then-IsReplenished (to_fund loan i.amount) (to_fund pl after.total_amount) fund next
                after.fund first f),
        )
    | inr t ↦ rw t (pay_loan-HasPaid (before ++ i ∷ []) rest loan fund s)
  ]

sum-details :
    (ds es : List ProcessorDetail)
    → (sum (map (λ d. d.amount) (ds ++ es))
        ≡ sum (map (λ d. d.amount) ds) + sum (map (λ d. d.amount) es))
      × (length (ds ++ es) ≡ length ds + length es)
sum-details [] es = (omega arith, omega arith)
sum-details (d ∷ ds) es = let (a, b) = sum-details ds es in (omega arith, omega arith)

-- What the due installments of a disbursed loan bring to the fund.
abbrev pub excess_due : ℕ → LoanApplication → ℕ
excess_due month loan = to_fund loan (due_of month loan)

-- A run reports the sum of what is due of the disbursed loans, as the sum of its details, of which
-- there is one for each installment; and it keeps the social fund solvent and brings it, if it has a
-- balance, what is due of the excess loans and nothing else.
pub process_installments-IsReplenished :
    (now : ℕ) (new_ids : ℕ → ℕ → ℕ) (context : PayrollContext) (month : ℕ)
    (loans : List LoanApplication) (fund : SocialFund)
    → IsSolvent fund
    → let result = process_installments now new_ids context month loans fund in
      (result.total_amount ≡ sum (map (due_of month) (disbursed loans)))
      × (sum (map (λ d. d.amount) result.details) ≡ result.total_amount)
      × (length result.details ≡ result.processed_count)
      × IsReplenished (sum (map (excess_due month) (disbursed loans))) fund result.fund
unfolding process_installments
process_installments-IsReplenished now new_ids context month [] fund s =
    (refl, refl, refl, (refl, inr (omega int_laws), s))
process_installments-IsReplenished now new_ids context month (loan ∷ loans) fund s =
    elim (Bool-cases (is_status loan.status LoanStatus.disbursed)) [
      | inl t ↦
          let paid =
            pay_loan now (new_ids loan.id) context month [] loan.loan_installments loan fund in
          let (a, b, c, f) =
            pay_loan-HasPaid now (new_ids loan.id) context month [] loan.loan_installments loan fund
              s in
          let after = process_installments now new_ids context month loans paid.fund in
          let (a', b', c', f') =
            process_installments-IsReplenished now new_ids context month loans paid.fund f.2 in
          let (d, e) = sum-details paid.details after.details in
          simp t (
            omega arith,
            omega arith,
            omega arith,
            then-IsReplenished (excess_due month loan)
                (sum (map (excess_due month) (disbursed loans))) fund paid.fund after.fund
                (subst (λ k. IsReplenished (to_fund loan k) fund paid.fund) a f) f',
          )
      | inr t ↦ simp t (process_installments-IsReplenished now new_ids context month loans fund s)
    ]
