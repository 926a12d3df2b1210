-- ===== src/Examples/Members.antt =====
-- An employee applies, becomes a member and pays the entrance fee.
use kamorina.Base.{
  ℕ, ◌+◌, ◌≡◌, ◌≢◌, refl, String, true, false, none, some, List, [], ◌∷◌, arith, ok, err, inr,
  str_eq, if◌then◌else◌,
}
use kamorina.Loan.Calculation.{Settings}
use kamorina.Deposit.Types.{DepositApprovalDecision, divisi_simpan_pinjam, ketua}
use kamorina.Deposit.Review.{ApproveDepositDto, new_approval, role_step_map}
use kamorina.Membership.Types.{User, MemberApplication, tetap, nik_taken}
use kamorina.Membership.Submission.{
  SubmitApplicationDto, put_user, submit_for, submit_application, write_submission, new_application,
}
use kamorina.Membership.Review.{new_account, approve_first, approve_last, process_approval}
use kamorina.Membership.Unique.{IsUnique, submit_application-IsUnique}
use kamorina.Membership.Phases.{IsValid, reviewed_user-IsValid, submitted_user-IsValid}
use kamorina.Membership.Progress.{waiting_user_total}
use kamorina.Membership.Settling.{IsSettled, joined_member-IsSettled}
use kamorina.Examples.Payroll.{fees, january, february}

abbrev rules : Settings
rules key = if str_eq key "initial_membership_fee" then some 50000000 else none

abbrev employee : ℕ → User
employee id = record {
  id = id;
  employee_type = some tetap;
  nik = none;
  npwp = none;
  date_of_birth = none;
  birth_place = none;
  installment_plan = none;
  member_verified = false;
  member_verified_at = none;
  application = none;
  savings_account = none;
}

abbrev form : SubmitApplicationDto
form = record {
  nik = "3201010101010001";
  npwp = "0901010101010001";
  date_of_birth = "1990-01-01";
  birth_place = "Bogor";
  installment_plan = 2;
}

abbrev staff : List User
staff = employee 7 ∷ employee 8 ∷ []

abbrev applicant : User
applicant = write_submission 3 50000000 1 11 12 form (employee 7)

submit_application-IsUnique_example :
    IsUnique (λ u. u.nik) (put_user applicant staff)
    × IsUnique (λ u. u.npwp) (put_user applicant staff)
unfolding submit_application submit_for
submit_application-IsUnique_example =
    submit_application-IsUnique rules 3 1 11 12 form 7 staff ((λ v e. refl), ((λ v e. refl), tt))
      ((λ v e. refl), ((λ v e. refl), tt)) refl

abbrev distinct : ◌≢◌ {A = ℕ} 11 12
distinct e = omega (arith, e)

employee-IsValid : IsValid (employee 7)
employee-IsValid = (refl, refl)

applicant-IsValid : IsValid applicant
unfolding submit_for
applicant-IsValid =
    submitted_user-IsValid rules 3 1 11 12 form staff (employee 7) employee-IsValid distinct refl

abbrev vote : ApproveDepositDto
vote = record { decision = DepositApprovalDecision.approved; notes = none }

abbrev sent : MemberApplication
sent = new_application 3 50000000 1 11 12 form (employee 7)

abbrev seen : MemberApplication
seen = approve_first 4 8 none (new_approval 11 divisi_simpan_pinjam) sent

abbrev candidate : User
candidate = record applicant { application = some seen }

abbrev member : User
member = record candidate {
  member_verified = true;
  member_verified_at = some 5;
  application = some (approve_last 5 9 none (new_approval 12 ketua) candidate seen);
  savings_account = some new_account;
}

abbrev dsp : List String
dsp = "divisi_simpan_pinjam" ∷ []

abbrev chair : List String
chair = "ketua" ∷ []

reviewed_user-IsValid_example : IsValid candidate
unfolding process_approval role_step_map write_submission
reviewed_user-IsValid_example = reviewed_user-IsValid 4 8 dsp vote applicant applicant-IsValid refl

waiting_user_total_example : (u : User) × (process_approval 4 8 dsp vote applicant ≡ ok u)
unfolding write_submission new_application
waiting_user_total_example =
    waiting_user_total 4 8 dsp vote applicant sent divisi_simpan_pinjam applicant-IsValid refl refl
      refl

joined_member-IsSettled_example :
    IsSettled 27 58
      (λ id. id)
      (λ id. id + 10)
      fees
      fees
      january
      february
      (omega arith)
      50000000
      member
unfolding submit_for process_approval role_step_map
joined_member-IsSettled_example =
    joined_member-IsSettled 27 58 (λ id. id) (λ id. id + 10) fees fees january february
      (omega arith) rules 3 1 11 12 form staff (employee 7) 4 8 dsp vote 5 9 chair vote 50000000
      employee-IsValid (inr refl) refl (omega arith) refl refl refl refl refl (omega arith)

-- A number that another employee has is refused.
taken_nik : submit_application rules 4 2 13 14 form 8 (put_user applicant staff) ≡ err nik_taken
unfolding submit_application
taken_nik = refl
