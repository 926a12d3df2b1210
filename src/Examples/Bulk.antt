-- ===== src/Examples/Bulk.antt =====
-- The bulk requests on a database in memory.
use kamorina.Base.{
  ℕ, ◌+◌, ◌≡◌, refl, Option, none, [], ◌∷◌, length, reported, bulk, AllRows, save-AllRows,
}
use kamorina.Base.Int.{int_laws}
use kamorina.Loan.Types.{LoanApplication}
use kamorina.Loan.Invariant.{IsValid}
use kamorina.Loan.Approval.{
  process_approval, has_role_for, role_step_map, get_status_for_step, find_approval,
}
use kamorina.Loan.Submission.{write_submission}
use kamorina.Loan.Bulk.{
  bulk_process_approval, bulk_process_authorization, IsSound, bulk_process_authorization-IsSound,
}
use kamorina.Examples.Sample.{memory, calendar, no_settings, new_fund}
use kamorina.Examples.Loans.{yes_dto, key_dto, submitted_loan, prepared_loan}
use kamorina.Examples.Payout.{prepared_loan-IsValid}

abbrev loans : ℕ → LoanApplication → ℕ → Option LoanApplication
loans id loan = (memory LoanApplication).save id loan (λ _. none)

loans-AllRows :
    (id : ℕ) (loan : LoanApplication)
    → IsValid loan
    → AllRows (memory LoanApplication) IsValid (loans id loan)
loans-AllRows id loan v =
    save-AllRows (memory LoanApplication) IsValid id loan (λ _. none) v (λ k r h. cc)

bulk_process_authorization-IsSound_example :
    let (results, p) =
      bulk_process_authorization
        (memory LoanApplication)
        105
        9
        calendar
        no_settings
        (λ id. id + 20)
        key_dto
        (1 ∷ [])
        (loans 1 prepared_loan, new_fund) in
    (reported results ≡ length {A = ℕ} (1 ∷ [])) × IsSound (memory LoanApplication) 105 9 p
bulk_process_authorization-IsSound_example =
    bulk_process_authorization-IsSound (memory LoanApplication) 105 9 calendar no_settings
      (λ id. id + 20) key_dto (1 ∷ []) (loans 1 prepared_loan, new_fund)
      (loans-AllRows 1 prepared_loan prepared_loan-IsValid, omega int_laws)

-- One loan is handled and the missing one is reported as failed.
one_of_two :
    let (results, s) =
      bulk_process_approval
        (memory LoanApplication)
        101
        8
        ("divisi_simpan_pinjam" ∷ [])
        yes_dto
        (1 ∷ 2 ∷ [])
        (loans 1 submitted_loan) in
    (length results.success ≡ 1) × (length results.failed ≡ 1)
unfolding bulk bulk_process_approval process_approval has_role_for role_step_map get_status_for_step
    find_approval write_submission
one_of_two = (refl, refl)
