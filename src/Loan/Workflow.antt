-- ===== src/Loan/Workflow.antt =====
-- The life of a loan as a sequence of successful requests, and what holds of every loan that is
-- reached: the phases are kept, so money leaves only after three approvals.
use kamorina.Base.{
  Result-cases, ℕ, String, ◌≡◌, refl, ◌≢◌, inl, inr, subst, sym, Option, none, some, List, [], ◌∷◌,
  ◌++◌, arith, ok,
}
use kamorina.Loan.Types.{
  ReviseLoanDto, draft, LoanApprovalDecision, revise, LoanApproval, LoanApplication, LoanDetails,
  divisi_simpan_pinjam, ketua, pengawas, under_review_dsp,
}
use kamorina.Loan.Calculation.{LoanCalculation, calculate_loan_details}
use kamorina.Loan.Validation.{HandlerContext}
use kamorina.Loan.Revision.{
  revise_loan, write_revision, new_loan_amount, revise_type_specific_details,
}
use kamorina.Loan.Submission.{NewIds, submit_loan, write_submission, new_approval}
use kamorina.Loan.Disbursement.{ProcessDisbursementDto, process_disbursement}
use kamorina.Loan.Records.{HasDecisions, record_revision-HasDecisions}
use kamorina.Loan.Invariant.{IsPhase, IsValid}

-- The ids that the database gives to new rows differ.
abbrev pub AreDistinct : NewIds → Type 0
AreDistinct ids = (ids.first ≢ ids.second) × (ids.first ≢ ids.third) × (ids.second ≢ ids.third)

abbrev new_records : NewIds → List LoanApproval
new_records ids =
    new_approval ids.first divisi_simpan_pinjam
    ∷ new_approval ids.second ketua
    ∷ new_approval ids.third pengawas
    ∷ []

module _ (context : HandlerContext) (now user : ℕ) (loan : LoanApplication) where
  written_submission-IsValid :
      (ids : NewIds)
      → AreDistinct ids
      → IsPhase draft loan
      → IsValid (write_submission now user ids loan)
  unfolding write_submission
  written_submission-IsValid ids d v =
      let records : HasDecisions ([] ++ new_records ids) none none none =
        (refl, refl, refl, d.0, d.1, d.2, refl, refl, refl) in
      (
        refl,
        inl (subst (λ l. HasDecisions (l ++ new_records ids) none none none) (sym v.1) records),
        v.2,
      )

  submit_loan-eq-ok :
      (ids : NewIds) (roles : List String) {result : LoanApplication}
      → submit_loan context now ids user roles loan ≡ ok result
      → (loan.status ≡ draft) × (result ≡ write_submission now user ids loan)
  unfolding submit_loan
  submit_loan-eq-ok ids roles h = ground arith

  -- A submission that succeeds takes a valid loan to a valid loan, if the ids of the three new
  -- approval records differ.
  pub submit_loan-IsValid :
      (ids : NewIds) (roles : List String) {result : LoanApplication}
      → AreDistinct ids
      → IsValid loan
      → submit_loan context now ids user roles loan ≡ ok result
      → IsValid result
  submit_loan-IsValid ids roles d v h =
      let (s, e) = submit_loan-eq-ok ids roles h in
      rw e (written_submission-IsValid ids d (subst (λ k. IsPhase k loan) s v))

  pub revise_loan-written :
      (dto : ReviseLoanDto) {result : LoanApplication}
      → revise_loan context now user dto loan ≡ ok result
      → let amount = new_loan_amount loan.loan_type dto in
        let figures =
          calculate_loan_details context.settings amount dto.loan_tenor loan.loan_type in
        (loan.status ≡ under_review_dsp)
        × (written : LoanDetails) × (revise_type_specific_details loan.loan_type dto
              figures.shop_margin_rate loan.details
            ≡ ok written)
        × (result ≡ write_revision now user dto amount figures written loan)
  unfolding revise_loan
  revise_loan-written dto h =
      let amount = new_loan_amount loan.loan_type dto in
      let figures = calculate_loan_details context.settings amount dto.loan_tenor loan.loan_type in
      elim (Result-cases
        (revise_type_specific_details loan.loan_type dto figures.shop_margin_rate loan.details)) [
          | inl (d, e) ↦ (ground arith, d, e, ground arith)
          | inr (x, e) ↦ absurd (ground arith)
        ]

  written_revision-IsValid :
      (dto : ReviseLoanDto) (amount : ℕ) (calculations : LoanCalculation) (written : LoanDetails)
      → loan.status ≡ under_review_dsp
      → IsPhase under_review_dsp loan
      → IsValid (write_revision now user dto amount calculations written loan)
  unfolding write_revision
  written_revision-IsValid dto amount calculations written s v =
      subst (λ k. IsPhase k (write_revision now user dto amount calculations written loan)) (sym s)
        (v.0, inr (elim v.1 [ inl p ↦ revised none p | inr p ↦ revised (some revise) p ]), v.2)
    where
      revised :
          (x : Option LoanApprovalDecision)
          → HasDecisions loan.approvals x none none
          → HasDecisions
              (write_revision now user dto amount calculations written loan).approvals
              (some revise)
              none
              none
      revised x p =
          record_revision-HasDecisions now user dto.revision_notes _ loan.approvals x none none p

  -- A revision that succeeds takes a valid loan to a valid loan.
  pub revise_loan-IsValid :
      (dto : ReviseLoanDto) {result : LoanApplication}
      → IsValid loan
      → revise_loan context now user dto loan ≡ ok result
      → IsValid result
  revise_loan-IsValid dto v h =
      let (s, written, _, e) = revise_loan-written dto h in
      rw e (written_revision-IsValid dto _ _ written s (subst (λ k. IsPhase k loan) s v))

-- A disbursement that succeeds takes a valid loan to a valid loan.
pub process_disbursement-IsValid :
    (now user : ℕ) (loan : LoanApplication) (dto : ProcessDisbursementDto)
    {result : LoanApplication}
    → IsValid loan
    → process_disbursement now user dto loan ≡ ok result
    → IsValid result
unfolding process_disbursement
process_disbursement-IsValid now user loan dto v h = ground arith
