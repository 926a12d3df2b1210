-- ===== src/Examples/Review.antt =====
-- The theorems about the review at the loan of kamorina.Examples.Loans.
use kamorina.Base.{◌+◌, ◌≡◌, refl, true, some, [], ◌∷◌, arith, ok, err, length, inl}
use kamorina.Loan.Types.{
  ReviseLoanDto, LoanApplication, approve, under_review_dsp, LoanDetails, divisi_simpan_pinjam,
  LoanApprovalStep, excess_loan, no_access_to_step,
}
use kamorina.Loan.Calculation.{
  calculate_loan_details, get_setting_number, total_repayment_of, round_div,
}
use kamorina.Loan.Validation.{validate_loan_amount, validate_excess_loan, validate_loan_tenor}
use kamorina.Loan.Approval.{
  ApprovalOutcome, process_approval, process_approval_decision, has_role_for, role_step_map,
  get_status_for_step, find_approval,
}
use kamorina.Loan.Revised.{IsRevised, revise_loan-IsRevised}
use kamorina.Loan.Revision.{
  revise_loan, new_loan_amount, revise_type_specific_details, write_revision,
}
use kamorina.Loan.Submission.{write_submission}
use kamorina.Loan.Invariant.{IsValid}
use kamorina.Loan.Review.{process_approval-IsValid}
use kamorina.Loan.Workflow.{revise_loan-IsValid}
use kamorina.Loan.Progress.{
  process_approval_total, process_approval-IsDecided, IsDecided, HasSameFigures,
}
use kamorina.Examples.Sample.{context, no_settings}
use kamorina.Examples.Loans.{yes_dto, submitted_loan, after_dsp}

abbrev pub submitted_loan-IsValid : IsValid submitted_loan
unfolding write_submission
submitted_loan-IsValid = (
  refl,
  inl (
    refl,
    refl,
    refl,
    (λ e. omega (arith, e)),
    (λ e. omega (arith, e)),
    (λ e. omega (arith, e)),
    refl,
    refl,
    refl,
  ),
  (refl, refl, refl),
)

process_approval-IsValid_example : IsValid after_dsp
unfolding process_approval has_role_for role_step_map get_status_for_step process_approval_decision
    find_approval write_submission
process_approval-IsValid_example =
    process_approval-IsValid 101 8 ("divisi_simpan_pinjam" ∷ []) yes_dto submitted_loan
      submitted_loan-IsValid refl

process_approval_total_example :
    (result : LoanApplication × ApprovalOutcome) × (process_approval 101 8
        ("divisi_simpan_pinjam" ∷ [])
        yes_dto
        submitted_loan
      ≡ ok result)
unfolding write_submission has_role_for role_step_map
process_approval_total_example =
    process_approval_total 101 8 ("divisi_simpan_pinjam" ∷ []) yes_dto submitted_loan
      divisi_simpan_pinjam submitted_loan-IsValid refl refl

-- The reviewer of the second step has no say in the first.
wrong_role : process_approval 101 9 ("ketua" ∷ []) yes_dto submitted_loan ≡ err no_access_to_step
unfolding process_approval has_role_for role_step_map write_submission
wrong_role = refl

abbrev revision : ReviseLoanDto
revision = record {
  loan_tenor = 6;
  revision_notes = "Tenor lebih pendek";
  loan_amount = 240000;
  item_price = 0;
  retail_price = 0;
  cooperative_price = 0;
}

abbrev revised_loan : LoanApplication
revised_loan =
    write_revision 101 8 revision 240000 (calculate_loan_details no_settings 240000 6 excess_loan)
      LoanDetails.excess_loan_details submitted_loan

-- The amount, the tenor and the installment after the revision.
revised_figures :
    (revised_loan.loan_amount ≡ 240000)
    × (revised_loan.loan_tenor ≡ 6)
    × (revised_loan.monthly_installment ≡ some 40000)
unfolding write_revision calculate_loan_details total_repayment_of round_div
revised_figures = (refl, refl, refl)

revise_loan-IsValid_example : IsValid revised_loan
unfolding revise_loan validate_loan_amount validate_excess_loan validate_loan_tenor
    get_setting_number write_submission new_loan_amount revise_type_specific_details
revise_loan-IsValid_example =
    revise_loan-IsValid context 101 8 submitted_loan revision submitted_loan-IsValid refl

revise_loan-IsRevised_example :
    (submitted_loan.current_step ≡ some divisi_simpan_pinjam)
    × (submitted_loan.status ≡ under_review_dsp)
    × IsRevised context revision submitted_loan revised_loan
unfolding revise_loan validate_loan_amount validate_excess_loan validate_loan_tenor
    get_setting_number write_submission new_loan_amount revise_type_specific_details
revise_loan-IsRevised_example = revise_loan-IsRevised context 101 8 submitted_loan revision refl

process_approval-IsDecided_example :
    (step : LoanApprovalStep) × (submitted_loan.current_step ≡ some step)
    × (has_role_for step ("divisi_simpan_pinjam" ∷ []) ≡ true)
    × (submitted_loan.status ≡ get_status_for_step step)
    × IsDecided step approve submitted_loan after_dsp
    × HasSameFigures submitted_loan after_dsp
    × (length after_dsp.history ≡ length submitted_loan.history + 1)
unfolding process_approval has_role_for role_step_map get_status_for_step process_approval_decision
    find_approval write_submission
process_approval-IsDecided_example =
    process_approval-IsDecided 101 8 ("divisi_simpan_pinjam" ∷ []) yes_dto submitted_loan refl
