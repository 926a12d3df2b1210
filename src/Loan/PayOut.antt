-- ===== src/Loan/PayOut.antt =====
-- The authorization of a prepared disbursement: what it writes, and what it takes from the fund.
use kamorina.Base.{
  Bool-cases, length-append, false, ℕ, ◌+◌, ◌≡◌, refl, subst, true, Option, none, some, arith,
  length, ok, inl, inr, ◌⊎◌,
}
use kamorina.Base.Int.{pos, ◌+ℤ◌, ◌≤ℤ◌, int_laws}
use kamorina.SocialFund.Types.{money, SocialFund, SocialFundBalance}
use kamorina.Loan.Types.{pending_authorization, LoanApplication, is_excess}
use kamorina.Loan.Calculation.{Settings}
use kamorina.Loan.Installment.{Calendar, generate_installment_schedule}
use kamorina.Loan.Disbursement.{
  ProcessAuthorizationDto, process_authorization, write_authorization, add_disbursed_history,
  deduct_from, write_deduction, deduct_for, deduct_from,
}
use kamorina.Loan.Invariant.{IsPhase, IsValid}
use kamorina.Loan.Schedule.{planned, generate_installment_schedule-IsPlanned}

module _ (calendar : Calendar) (settings : Settings) (now new_id ketua : ℕ)
    (dto : ProcessAuthorizationDto) (fund : SocialFund) (loan : LoanApplication) where
  abbrev pub authorized : LoanApplication
  authorized = write_authorization now ketua dto loan

  -- The loan as an authorization leaves it.
  abbrev pub paid_out : LoanApplication
  paid_out =
      add_disbursed_history now ketua dto loan
        (record authorized { loan_installments = planned calendar settings now authorized })

  scheduled :
      IsPhase pending_authorization loan
      → generate_installment_schedule calendar settings now authorized
        ≡ ok (record authorized { loan_installments = planned calendar settings now authorized })
  unfolding write_authorization
  scheduled v =
      (generate_installment_schedule-IsPlanned calendar settings now authorized refl v.3).0

  process_authorization-status :
      {result : LoanApplication × SocialFund}
      → process_authorization calendar settings now new_id ketua dto fund loan ≡ ok result
      → loan.status ≡ pending_authorization
  unfolding process_authorization
  process_authorization-status h = ground arith

  process_authorization-result :
      {result : LoanApplication × SocialFund}
      → IsPhase pending_authorization loan
      → process_authorization calendar settings now new_id ketua dto fund loan ≡ ok result
      → (result.0 ≡ paid_out) × (deduct_for now new_id ketua loan fund ≡ ok result.1)
  unfolding process_authorization
  process_authorization-result v h = ground (arith, scheduled v)

  paid_out-IsValid : IsPhase pending_authorization loan → IsValid paid_out
  unfolding write_authorization
  paid_out-IsValid v = (
    v.0,
    v.1,
    refl,
    (generate_installment_schedule-IsPlanned calendar settings now authorized refl v.3).1,
  )

  -- An authorization that succeeds takes a valid loan to a valid loan.
  pub process_authorization-IsValid :
      {result : LoanApplication × SocialFund}
      → IsValid loan
      → process_authorization calendar settings now new_id ketua dto fund loan ≡ ok result
      → IsValid result.0
  process_authorization-IsValid v h =
      let p = subst (λ k. IsPhase k loan) (process_authorization-status h) v in
      rw (process_authorization-result p h).0 (paid_out-IsValid p)

  pub process_authorization-deduct :
      {result : LoanApplication × SocialFund}
      → IsValid loan
      → process_authorization calendar settings now new_id ketua dto fund loan ≡ ok result
      → deduct_for now new_id ketua loan fund ≡ ok result.1
  process_authorization-deduct v h =
      (process_authorization-result (subst (λ k. IsPhase k loan) (process_authorization-status h) v)
        h).1

module _ (now new_id ketua : ℕ) (loan : LoanApplication) (fund : SocialFund) where
  written_deduction-money :
      (b : SocialFundBalance)
      → let fund' = write_deduction now new_id loan.loan_amount ketua fund b in
        (money fund'.balance +ℤ pos loan.loan_amount ≡ b.current_balance)
        × (length fund'.transactions ≡ length fund.transactions + 1)
  unfolding write_deduction
  written_deduction-money b = (omega int_laws, length-append fund.transactions _)

  deducted :
      {fund' : SocialFund} (o : Option SocialFundBalance)
      → deduct_from now new_id loan.loan_amount ketua fund o ≡ ok fund'
      → (pos loan.loan_amount ≤ℤ money o)
        × (money fund'.balance +ℤ pos loan.loan_amount ≡ money o)
        × (length fund'.transactions ≡ length fund.transactions + 1)
  deducted none h = cc
  deducted {fund'} (some b) h =
      let covered : pos loan.loan_amount ≤ℤ b.current_balance = ground arith in
      let e : fund' ≡ write_deduction now new_id loan.loan_amount ketua fund b = ground arith in
      let (m, l) = written_deduction-money b in (covered, rw e m, rw e l)

  deduct_for-excess :
      {fund' : SocialFund}
      → is_excess loan.loan_type ≡ true
      → deduct_for now new_id ketua loan fund ≡ ok fund'
      → deduct_from now new_id loan.loan_amount ketua fund fund.balance ≡ ok fund'
  unfolding deduct_for
  deduct_for-excess e h = ground arith

  -- The deduction at an authorization, if it succeeds: for a loan that is no excess loan the fund is
  -- the same; for an excess loan the fund covered the amount, has that much less, and has one more
  -- transaction.
  pub deduct_for-money :
      {fund' : SocialFund}
      → deduct_for now new_id ketua loan fund ≡ ok fund'
      → ((is_excess loan.loan_type ≡ false) × (fund' ≡ fund))
        ⊎ ((is_excess loan.loan_type ≡ true)
            × (pos loan.loan_amount ≤ℤ money fund.balance)
            × (money fund'.balance +ℤ pos loan.loan_amount ≡ money fund.balance)
            × (length fund'.transactions ≡ length fund.transactions + 1))
  unfolding deduct_for
  deduct_for-money h = elim (Bool-cases (is_excess loan.loan_type)) [
    | inl e ↦ let (c, m, l) = deducted fund.balance (deduct_for-excess e h) in inr (e, c, m, l)
    | inr e ↦ inl (e, ground arith)
  ]
