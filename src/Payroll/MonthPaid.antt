-- ===== src/Payroll/MonthPaid.antt =====
-- What a run of backend/src/payroll/services/loan-installment.processor.ts leaves of the loans and of
-- the social fund, loan by loan.
use kamorina.Base.{
  ℕ, ◌≡◌, refl, sym, ap, ◌∙◌, true, false, List, [], ◌∷◌, ◌++◌, map, any, sum, arith, if◌then◌else◌,
  Bool-cases, inl, inr, filter,
}
use mathlib.Core.List.{append_assoc}
use kamorina.SocialFund.Types.{SocialFund}
use kamorina.Loan.Types.{LoanStatus, is_status, LoanInstallment, LoanApplication, is_excess}
use kamorina.Repayment.Settlement.{PayrollContext}
use kamorina.Payroll.LoanInstallments.{
  is_due_in, mark_paid, replenish_social_fund, is_unpaid, complete_if_paid, pay_loan,
  process_installments,
}

-- One pass over the installments.
abbrev pub pay_due : PayrollContext → ℕ → LoanInstallment → LoanInstallment
pay_due context month i = if is_due_in month i then mark_paid context i else i

-- A loan after the month, in one go: its due installments are paid, and then it is completed if none
-- is unpaid; a loan with nothing due stays as it is.
unfoldable pub after_month : PayrollContext → ℕ → LoanApplication → LoanApplication
unfolding complete_if_paid
after_month context month loan =
    if any (is_due_in month) loan.loan_installments
    then complete_if_paid context
        (record loan { loan_installments = map (pay_due context month) loan.loan_installments })
    else loan

-- The amounts that are due.
abbrev pub due_amount : ℕ → List LoanInstallment → ℕ
due_amount month l = sum (map (λ i. i.amount) (filter (is_due_in month) l))

module _ (context : PayrollContext) (month : ℕ) where
  nothing_due :
      (l : List LoanInstallment)
      → any (is_due_in month) l ≡ false
      → map (pay_due context month) l ≡ l
  nothing_due [] h = refl
  nothing_due (i ∷ l) h = elim (Bool-cases (is_due_in month i)) [
    | inl t ↦ absurd (ground arith)
    | inr t ↦ rw t (ap (λ k. i ∷ k) (nothing_due l (ground arith)))
  ]

  due_unpaid :
      (before l : List LoanInstallment)
      → any (is_due_in month) l ≡ true
      → any is_unpaid (before ++ l) ≡ true
  due_unpaid [] [] h = cc
  due_unpaid [] (i ∷ l) h = elim (Bool-cases (is_due_in month i)) [
    | inl t ↦ ground arith
    | inr t ↦ ground (arith, due_unpaid [] l)
  ]
  due_unpaid (i ∷ before) l h = ground (arith, due_unpaid before l h)

module _ (now : ℕ) (new_ids : ℕ → ℕ) (context : PayrollContext) (month : ℕ) where
  abbrev paid_to : List LoanInstallment → LoanApplication → LoanApplication
  paid_to l loan = record loan { loan_installments = l }

  complete_unpaid :
      (loan : LoanApplication)
      → any is_unpaid loan.loan_installments ≡ true
      → complete_if_paid context loan ≡ loan
  unfolding complete_if_paid
  complete_unpaid loan h = rw h refl

  pay_loan-after :
      (before rest : List LoanInstallment) (loan : LoanApplication) (fund : SocialFund)
      → (pay_loan now new_ids context month before rest loan fund).loan ≡ (
          if any (is_due_in month) rest
          then complete_if_paid context (paid_to (before ++ map (pay_due context month) rest) loan)
          else loan)
  unfolding pay_loan
  pay_loan-after before [] loan fund = refl
  pay_loan-after before (i ∷ rest) loan fund = elim (Bool-cases (is_due_in month i)) [
    | inl t ↦
        let m = mark_paid context i in
        let done = before ++ m ∷ [] in
        let pl = complete_if_paid context (paid_to (done ++ rest) loan) in
        let next =
          if is_excess loan.loan_type
          then replenish_social_fund now (new_ids i.installment_number) i.amount fund
          else fund in
        let ih = pay_loan-after done rest pl next in
        let tail = map (pay_due context month) rest in
        rw t (elim (Bool-cases (any (is_due_in month) rest)) [
          | inl u ↦
              ih
              ∙ rw u (
                  ap (λ k. complete_if_paid context (paid_to (done ++ tail) k))
                    (complete_unpaid (paid_to (done ++ rest) loan)
                      (due_unpaid context month done rest u))
                  ∙ ap (λ k. complete_if_paid context (paid_to k loan))
                      (append_assoc before (m ∷ []) tail))
          | inr u ↦
              ih
              ∙ rw u (
                  ap (λ k. complete_if_paid context (paid_to k loan))
                    (append_assoc before (m ∷ []) rest
                      ∙ ap (λ k. before ++ m ∷ k) (sym (nothing_due context month rest u))))
        ])
    | inr t ↦ rw t (
        pay_loan-after (before ++ i ∷ []) rest loan fund
        ∙ ap
            (λ k.
              if any (is_due_in month) rest
              then complete_if_paid context (paid_to k loan)
              else loan)
            (append_assoc before (i ∷ []) (map (pay_due context month) rest)))
  ]

-- Of a list of loans, those that a run looks at.
abbrev pub disbursed : List LoanApplication → List LoanApplication
disbursed = filter (λ loan. is_status loan.status LoanStatus.disbursed)

abbrev pub month_of : PayrollContext → ℕ → LoanApplication → LoanApplication
month_of context month loan =
    if is_status loan.status LoanStatus.disbursed then after_month context month loan else loan

abbrev pub due_of : ℕ → LoanApplication → ℕ
due_of month loan = due_amount month loan.loan_installments

pay_loan-after_month :
    (now : ℕ) (new_ids : ℕ → ℕ) (context : PayrollContext) (month : ℕ) (loan : LoanApplication)
    (fund : SocialFund)
    → (pay_loan now new_ids context month [] loan.loan_installments loan fund).loan
      ≡ after_month context month loan
unfolding after_month
pay_loan-after_month now new_ids context month loan fund =
    pay_loan-after now new_ids context month [] loan.loan_installments loan fund

module _ (now : ℕ) (new_ids : ℕ → ℕ → ℕ) (context : PayrollContext) (month : ℕ) where
  -- A run on the installments of a month is one pass over the loans: each
  -- disbursed loan with something due has its due installments paid, and is completed if nothing of
  -- it is left unpaid, and every other loan stays as it is.
  pub process_installments-after_month :
      (loans : List LoanApplication) (fund : SocialFund)
      → (process_installments now new_ids context month loans fund).loans
        ≡ map (month_of context month) loans
  unfolding process_installments
  process_installments-after_month [] fund = refl
  process_installments-after_month (loan ∷ loans) fund =
      elim (Bool-cases (is_status loan.status LoanStatus.disbursed)) [
        | inl t ↦
            let paid =
              pay_loan now (new_ids loan.id) context month [] loan.loan_installments loan fund in
            simp t (
              ap (λ k. k ∷ (process_installments now new_ids context month loans paid.fund).loans)
                (pay_loan-after_month now (new_ids loan.id) context month loan fund)
              ∙ ap (λ k. after_month context month loan ∷ k)
                  (process_installments-after_month loans paid.fund))
        | inr t ↦ simp t (ap (λ k. loan ∷ k) (process_installments-after_month loans fund))
      ]
