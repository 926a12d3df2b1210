-- ===== src/Repayment/Settled.antt =====
-- What a request for a repayment promises, and what a payroll run leaves of the approved ones.
use kamorina.Base.{
  ℕ, ◌+◌, ◌<◌, ◌≡◌, ◌≢◌, refl, true, false, List, [], ◌∷◌, arith, ok, subst, sym, ap, ◌∙◌, All, map,
  sum, filter, length, any, Bool-cases, inl, inr, length-map,
}
use kamorina.Base.Int.{pos, ◌-ℤ◌, ◌≤ℤ◌, pos_part}
use kamorina.SocialFund.Types.{SocialFund}
use kamorina.Loan.Types.{LoanStatus, LoanApplication, LoanInstallment}
use kamorina.Loan.Installment.{or_else}
use kamorina.Loan.Invariant.{IsPhase as IsLoanPhase, IsValid as IsLoanValid}
use kamorina.Repayment.Types.{completed, approved, LoanRepayment}
use kamorina.Repayment.Creation.{
  CreateRepaymentDto, calculate_repayment_amount, is_under_review, new_repayment, create_repayment,
}
use kamorina.Repayment.Settlement.{
  PayrollContext, Rows, replenish_for, pay_installment, complete_loan, is_due, settle, process_rows,
  process,
}
use kamorina.Repayment.Phases.{IsPhase, IsValid, is_status_sound}

rest_of :
    (t p : ℕ)
    → pos 1 ≤ℤ pos t -ℤ pos p
    → (0 < pos_part (pos t -ℤ pos p)) × (pos_part (pos t -ℤ pos p) + p ≡ t)
unfolding ◌-ℤ◌
rest_of t p h = (ground arith, ground arith)

-- A repayment that is created is asked for by the loan's owner, who agreed, of a disbursed loan that
-- no other repayment under review is for; its amount is positive and, with what was paid, makes the
-- whole repayment of the loan; and it is valid, if the ids of the two approval records differ.
pub create_repayment-eq-ok :
    (now new_id first second user : ℕ) (dto : CreateRepaymentDto) (repayments : List LoanRepayment)
    (loan : LoanApplication) {r : LoanRepayment}
    → first ≢ second
    → create_repayment now new_id first second user dto repayments loan ≡ ok r
    → (loan.user_id ≡ user)
      × (dto.is_agreed_by_member ≡ true)
      × (loan.status ≡ LoanStatus.disbursed)
      × (any is_under_review repayments ≡ false)
      × (0 < r.total_amount)
      × (r.total_amount + (calculate_repayment_amount loan).total_paid
          ≡ or_else loan.total_repayment 0)
      × IsValid r
unfolding create_repayment
create_repayment-eq-ok now new_id first second user dto repayments loan {r} d h =
    let e : r ≡ new_repayment now new_id first second user dto loan = ground arith in
    let total = or_else loan.total_repayment 0 in
    let paid = (calculate_repayment_amount loan).total_paid in
    let open_amount : pos 1 ≤ℤ pos total -ℤ pos paid = ground arith in
    (
      ground arith,
      ground arith,
      ground arith,
      ground arith,
      rw e (rest_of total paid open_amount).0,
      rw e (rest_of total paid open_amount).1,
      rw e (refl, (refl, refl, d, refl, refl)),
    )

-- An approved repayment of a disbursed loan, both valid.
abbrev pub IsApproved : LoanRepayment × LoanApplication → Type 0
IsApproved (r, loan) = IsValid r × IsLoanValid loan × (loan.status ≡ LoanStatus.disbursed)

-- A completed repayment of a completed loan, both valid, with every installment paid.
abbrev pub IsSettled : LoanRepayment × LoanApplication → Type 0
IsSettled (r, loan) =
    (r.status ≡ completed)
    × IsValid r
    × (loan.status ≡ LoanStatus.completed)
    × IsLoanValid loan
    × All (λ i. i.is_paid ≡ true) loan.loan_installments

paid_installments :
    (context : PayrollContext) (loan : LoanApplication) (l : List LoanInstallment)
    → All (λ i. i.is_paid ≡ true) (map (pay_installment context loan) l)
unfolding pay_installment
paid_installments context loan [] = tt
paid_installments context loan (i ∷ l) = (
  elim (Bool-cases i.is_paid) [ inl e ↦ rw e (cc) | inr e ↦ rw e ],
  paid_installments context loan l,
)

settle-IsSettled :
    (context : PayrollContext) (row : LoanRepayment × LoanApplication)
    → row.0.status ≡ approved
    → IsApproved row
    → IsSettled (settle context row)
unfolding complete_loan
settle-IsSettled context (r, loan) s (v, w, d) =
    let (all, a, b, n) = subst (λ k. IsLoanPhase k loan) d w in
    (
      refl,
      subst (λ k. IsPhase k r) s v,
      refl,
      (all, a, b, length-map _ loan.loan_installments ∙ n),
      paid_installments context loan loan.loan_installments,
    )

module _ (context : PayrollContext) (now : ℕ) (new_ids : ℕ → ℕ) where
  process_rows-settled :
      (rows : Rows) (fund : SocialFund)
      → let result = process_rows context now new_ids rows fund in
        (result.settled ≡ map (settle context) rows)
        × (result.processed_count ≡ length rows)
        × (result.total_amount ≡ sum (map (λ row. row.0.total_amount) rows))
  unfolding process_rows
  process_rows-settled [] fund = (refl, refl, refl)
  process_rows-settled (row ∷ rows) fund =
      let (s, n, t) = process_rows-settled rows (replenish_for now new_ids row fund) in
      (ap (λ l. settle context row ∷ l) s, omega (arith, n), omega (arith, t))

  due-IsApproved :
      (rows : Rows)
      → All IsApproved rows
      → All (λ row. IsApproved row × (row.0.status ≡ approved)) (filter (is_due context) rows)
  due-IsApproved [] h = tt
  due-IsApproved ((r, loan) ∷ rows) (h, hs) = elim (Bool-cases (is_due context (r, loan))) [
    | inl e ↦ rw e ((h, is_status_sound r.status approved (ground arith)), due-IsApproved rows hs)
    | inr e ↦ rw e (due-IsApproved rows hs)
  ]

  All-IsSettled :
      (rows : Rows)
      → All (λ row. IsApproved row × (row.0.status ≡ approved)) rows
      → All IsSettled (map (settle context) rows)
  All-IsSettled [] h = tt
  All-IsSettled (row ∷ rows) ((a, s), h) = (settle-IsSettled context row s a, All-IsSettled rows h)

  -- A payroll run on repayments and their loans, which are valid and disbursed: it counts the due
  -- repayments, sums their amounts, and leaves each of them and its loan completed and valid, with
  -- every installment paid.
  pub process-IsSettled :
      (rows : Rows) (fund : SocialFund)
      → All IsApproved rows
      → let result = process context now new_ids rows fund in
        let due = filter (is_due context) rows in
        All IsSettled result.settled
        × (result.processed_count ≡ length due)
        × (result.total_amount ≡ sum (map (λ row. row.0.total_amount) due))
  unfolding process
  process-IsSettled rows fund h =
      let due = filter (is_due context) rows in
      let (s, n, t) = process_rows-settled due fund in
      (subst (All IsSettled) (sym s) (All-IsSettled due (due-IsApproved rows h)), n, t)
