-- ===== src/Loan/Bulk.antt =====
-- The bulk requests of loan-approval.service.ts, loan-disbursement.service.ts and
-- loan-authorization.service.ts in backend/src/loan/services, and what they keep.
use kamorina.Base.{
  Option-cases, Result-cases, inl, inr, subst, sym, save-AllRows, ℕ, String, ◌≡◌, Option, none,
  some, List, Result, ok, err, Store, BulkResults, bulk, on_row, AllRows, on_row-AllRows,
  bulk_keeps, bulk-reported, reported, length, arith,
}
use kamorina.Base.Int.{pos, ◌≤ℤ◌, nonneg_of_covered}
use kamorina.SocialFund.Types.{money, SocialFund}
use kamorina.Loan.Types.{LoanStatus, LoanApplication, LoanError, loan_not_found}
use kamorina.Loan.Calculation.{Settings}
use kamorina.Loan.Approval.{ApproveLoanDto, ApprovalOutcome, process_approval}
use kamorina.Loan.Installment.{Calendar}
use kamorina.Loan.Disbursement.{
  ProcessDisbursementDto, ProcessAuthorizationDto, process_disbursement, process_authorization,
}
use kamorina.Loan.Invariant.{IsValid}
use kamorina.Loan.Review.{process_approval-IsValid}
use kamorina.Loan.PayOut.{
  process_authorization-IsValid, deduct_for-money, process_authorization-deduct,
}
use kamorina.Loan.Workflow.{process_disbursement-IsValid}

-- `newStatus || LoanStatus.REJECTED`
abbrev status_or_rejected : Option LoanStatus → LoanStatus
status_or_rejected none = LoanStatus.rejected
status_or_rejected (some status) = status

abbrev reported_approval :
    Result LoanError (LoanApplication × ApprovalOutcome)
    → Result LoanError (LoanApplication × LoanStatus)
reported_approval (ok (loan, outcome)) = ok (loan, status_or_rejected outcome.new_status)
reported_approval (err e) = err e

reported_approval-eq-ok :
    (r : Result LoanError (LoanApplication × ApprovalOutcome)) {loan : LoanApplication}
    {s : LoanStatus}
    → reported_approval r ≡ ok (loan, s)
    → (outcome : ApprovalOutcome) × (r ≡ ok (loan, outcome))
reported_approval-eq-ok (ok (l, outcome)) h = (outcome, ground arith)
reported_approval-eq-ok (err e) h = cc

abbrev reported_disbursement :
    Result LoanError LoanApplication → Result LoanError (LoanApplication × LoanStatus)
reported_disbursement (ok loan) = ok (loan, LoanStatus.pending_authorization)
reported_disbursement (err e) = err e

reported_disbursement-eq-ok :
    (r : Result LoanError LoanApplication) {loan : LoanApplication} {s : LoanStatus}
    → reported_disbursement r ≡ ok (loan, s)
    → r ≡ ok loan
reported_disbursement-eq-ok (ok l) h = ground arith
reported_disbursement-eq-ok (err e) h = cc

module _ (store : Store LoanApplication) (now user : ℕ) where
  open store use {State, find_unique, save}

  unfoldable pub bulk_process_approval :
      List String → ApproveLoanDto → List ℕ → State → BulkResults LoanError LoanStatus × State
  bulk_process_approval roles dto = bulk (
      on_row store loan_not_found
        (λ loan. reported_approval (process_approval now user roles dto loan)))

  unfoldable pub bulk_process_disbursement :
      ProcessDisbursementDto → List ℕ → State → BulkResults LoanError LoanStatus × State
  bulk_process_disbursement dto = bulk (
      on_row store loan_not_found
        (λ loan. reported_disbursement (process_disbursement now user dto loan)))

  -- `processAuthorization` by id: its transaction writes the loan and the social fund.
  abbrev authorize_row :
      Calendar
      → Settings
      → ℕ
      → ProcessAuthorizationDto
      → ℕ
      → State × SocialFund
      → Result LoanError ((State × SocialFund) × LoanStatus)
  authorize_row calendar settings new_id dto id (s, fund) = elim (find_unique id s) [
    | none ↦ err loan_not_found
    | some loan ↦ elim (process_authorization calendar settings now new_id user dto fund loan) [
      | ok (loan', fund') ↦ ok ((save id loan' s, fund'), LoanStatus.disbursed)
      | err e ↦ err e
    ]
  ]

  -- `new_ids` gives the id of the fund's transaction for a loan.
  unfoldable pub bulk_process_authorization :
      Calendar
      → Settings
      → (ℕ → ℕ)
      → ProcessAuthorizationDto
      → List ℕ
      → State × SocialFund
      → BulkResults LoanError LoanStatus × (State × SocialFund)
  bulk_process_authorization calendar settings new_ids dto =
      bulk (λ id. authorize_row calendar settings (new_ids id) dto id)

  -- A bulk approval reports every id that was asked for, and leaves every loan valid.
  pub bulk_process_approval-AllRows :
      (roles : List String) (dto : ApproveLoanDto) (ids : List ℕ) (s : State)
      → AllRows store IsValid s
      → let (results, s') = bulk_process_approval roles dto ids s in
        (reported results ≡ length ids) × AllRows store IsValid s'
  unfolding bulk_process_approval
  bulk_process_approval-AllRows roles dto ids s h = (
    bulk-reported _ ids s,
    bulk_keeps (AllRows store IsValid) _
        (on_row-AllRows store IsValid loan_not_found _ (λ loan loan' status v e.
          let (outcome, done) = reported_approval-eq-ok _ e in
          process_approval-IsValid now user roles dto loan v done))
        ids s h,
  )

  -- So does a bulk disbursement.
  pub bulk_process_disbursement-AllRows :
      (dto : ProcessDisbursementDto) (ids : List ℕ) (s : State)
      → AllRows store IsValid s
      → let (results, s') = bulk_process_disbursement dto ids s in
        (reported results ≡ length ids) × AllRows store IsValid s'
  unfolding bulk_process_disbursement
  bulk_process_disbursement-AllRows dto ids s h = (
    bulk-reported _ ids s,
    bulk_keeps (AllRows store IsValid) _
        (on_row-AllRows store IsValid loan_not_found _ (λ loan loan' status v e.
          process_disbursement-IsValid now user loan dto v (reported_disbursement-eq-ok _ e)))
        ids s h,
  )

  -- The loans are valid, and the social fund is not overdrawn.
  abbrev pub IsSound : State × SocialFund → Type 0
  IsSound (s, fund) = AllRows store IsValid s × (pos 0 ≤ℤ money fund.balance)

  authorize_row-IsSound :
      (calendar : Calendar) (settings : Settings) (new_id : ℕ) (dto : ProcessAuthorizationDto)
      (id : ℕ) (p p' : State × SocialFund) (status : LoanStatus)
      → IsSound p
      → authorize_row calendar settings new_id dto id p ≡ ok (p', status)
      → IsSound p'
  authorize_row-IsSound calendar settings new_id dto id (s, fund) p' status h e =
      elim (Option-cases (find_unique id s)) [
        | inl missing ↦ absurd (ground arith)
        | inr (loan, found) ↦
            elim (Result-cases
              (process_authorization calendar settings now new_id user dto fund loan)) [
                | inl ((loan', fund'), done) ↦
                    let v = h.0 id loan found in
                    let saved : p' ≡ (save id loan' s, fund') = ground arith in
                    subst IsSound (sym saved) (
                      save-AllRows store IsValid id loan' s
                          (process_authorization-IsValid calendar settings now new_id user dto fund
                            loan v done)
                          h.0,
                      elim (deduct_for-money now new_id user loan fund (
                          process_authorization-deduct calendar settings now new_id user dto fund
                            loan v done)) [
                              | inl (_, same) ↦ rw same h.1
                              | inr (_, covered, taken, _) ↦ nonneg_of_covered _ _ _ taken covered
                            ],
                    )
                | inr (x, failed) ↦ absurd (ground arith)
              ]
      ]

  -- A bulk authorization reports every id, leaves every loan valid, and never overdraws the fund,
  -- whatever the number of excess loans that are paid out in one go.
  pub bulk_process_authorization-IsSound :
      (calendar : Calendar) (settings : Settings) (new_ids : ℕ → ℕ) (dto : ProcessAuthorizationDto)
      (ids : List ℕ) (p : State × SocialFund)
      → IsSound p
      → let (results, p') = bulk_process_authorization calendar settings new_ids dto ids p in
        (reported results ≡ length ids) × IsSound p'
  unfolding bulk_process_authorization
  bulk_process_authorization-IsSound calendar settings new_ids dto ids p h = (
    bulk-reported _ ids p,
    bulk_keeps IsSound _
        (λ id q q' status. authorize_row-IsSound calendar settings (new_ids id) dto id q q' status)
        ids p h,
  )
