-- ===== src/Membership/Submission.antt =====
-- `submitApplication` of backend/src/member-application/member-application.service.ts: an application
-- is submitted, or submitted again after a rejection. The queued emails are left out.
use kamorina.Base.{
  ℕ, ◌+◌, ◌*◌, String, Bool, true, false, not, ◌&&◌, Option, none, some, List, [], ◌∷◌, ◌++◌, map,
  any, find, ◌==◌, str_eq, if◌then◌else◌, Result, ok, err, ◌>>=◌, ◌>>◌, throw_if,
}
use kamorina.Loan.Calculation.{Settings}
use kamorina.Deposit.Types.{divisi_simpan_pinjam, ketua, DepositApproval}
use kamorina.Deposit.Review.{new_approval}
use kamorina.Membership.Types.{
  EmployeeType, tetap, kontrak, ApplicationStatus, is_approved, is_under_review, is_rejected,
  ApplicationHistory, MemberApplication, User, ApplicationError, user_not_found, not_permanent,
  already_member, nik_taken, npwp_taken, already_submitted, already_approved, fee_not_set,
}

pub record SubmitApplicationDto : Type 0 where
  pub nik : String
  pub npwp : String
  pub date_of_birth : String
  pub birth_place : String
  pub installment_plan : ℕ

abbrev pub is_permanent : Option EmployeeType → Bool
is_permanent none = false
is_permanent (some tetap) = true
is_permanent (some kontrak) = false

-- A column with this value.
abbrev pub holds : String → Option String → Bool
holds value none = false
holds value (some s) = str_eq s value

-- `user.findFirst` for another user with the value in a unique column.
abbrev pub taken : (User → Option String) → String → ℕ → List User → Bool
taken column value id users = any (λ u. holds value (column u) && not (u.id == id)) users

-- The check of a unique column, which is skipped if the user has the value already.
abbrev pub check_unique :
    (User → Option String)
    → ApplicationError
    → String
    → List User
    → User
    → Result ApplicationError (Unit {0})
check_unique column error value users u =
    throw_if (not (holds value (column u)) && taken column value u.id users) error

abbrev pub has_status : (ApplicationStatus → Bool) → Option MemberApplication → Bool
has_status test none = false
has_status test (some app) = test app.status

abbrev pub or_now : ℕ → Option ℕ → ℕ
or_now now none = now
or_now now (some t) = t

abbrev pub history_of :
    ApplicationStatus
    → ℕ
    → Option ℕ
    → Option ℕ
    → Option String
    → Option ℕ
    → User
    → MemberApplication
    → ApplicationHistory
history_of status now rejected_at approved_at reason by u app = record {
  status = status;
  nik = u.nik;
  npwp = u.npwp;
  date_of_birth = u.date_of_birth;
  birth_place = u.birth_place;
  installment_plan = u.installment_plan;
  submitted_at = or_now now app.submitted_at;
  rejected_at = rejected_at;
  approved_at = approved_at;
  rejection_reason = reason;
  processed_by = by;
  submission_number = app.submission_count;
}

abbrev new_approvals : ℕ → ℕ → List DepositApproval
new_approvals first second =
    new_approval first divisi_simpan_pinjam ∷ new_approval second ketua ∷ []

-- The row of a first submission. The fee of the settings counts hundredths.
unfoldable pub new_application : ℕ → ℕ → ℕ → ℕ → ℕ → SubmitApplicationDto → User → MemberApplication
new_application now fee new_id first second dto u = record {
  id = new_id;
  user_id = u.id;
  installment_plan = dto.installment_plan;
  entrance_fee = 2 * fee;
  paid_amount = 0;
  remaining_amount = 2 * fee;
  is_paid_off = false;
  status = ApplicationStatus.under_review;
  current_step = some divisi_simpan_pinjam;
  submitted_at = some now;
  approved_at = none;
  rejected_at = none;
  rejection_reason = none;
  submission_count = 1;
  last_submitted_at = some now;
  approvals = new_approvals first second;
  history = [];
}

-- Another submission: of a rejected application the history is kept, with the user's old data.
unfoldable pub resubmitted :
    ℕ → ℕ → ℕ → ℕ → SubmitApplicationDto → User → MemberApplication → MemberApplication
resubmitted now fee first second dto u app = record app {
  status = ApplicationStatus.under_review;
  current_step = some divisi_simpan_pinjam;
  submitted_at = some now;
  last_submitted_at = some now;
  submission_count = app.submission_count + 1;
  rejected_at = none;
  rejection_reason = none;
  approved_at = none;
  installment_plan = dto.installment_plan;
  entrance_fee = 2 * fee;
  remaining_amount = 2 * fee;
  approvals = new_approvals first second;
  history =
      if is_rejected app.status
      then app.history
        ++ history_of app.status now app.rejected_at none app.rejection_reason none u app ∷ []
      else app.history;
}

abbrev pub application_after :
    ℕ → ℕ → ℕ → ℕ → ℕ → SubmitApplicationDto → User → Option MemberApplication → MemberApplication
application_after now fee new_id first second dto u none =
    new_application now fee new_id first second dto u
application_after now fee new_id first second dto u (some app) =
    resubmitted now fee first second dto u app

unfoldable pub write_submission : ℕ → ℕ → ℕ → ℕ → ℕ → SubmitApplicationDto → User → User
unfolding new_application resubmitted
write_submission now fee new_id first second dto u = record u {
  nik = some dto.nik;
  npwp = some dto.npwp;
  date_of_birth = some dto.date_of_birth;
  birth_place = some dto.birth_place;
  installment_plan = some dto.installment_plan;
  application = some (application_after now fee new_id first second dto u u.application);
}

abbrev pub entrance_fee_of : Option ℕ → Result ApplicationError ℕ
entrance_fee_of none = err fee_not_set
entrance_fee_of (some fee) = ok fee

-- `submitApplication` for the user that was found.
unfoldable pub submit_for :
    Settings
    → ℕ
    → ℕ
    → ℕ
    → ℕ
    → SubmitApplicationDto
    → List User
    → User
    → Result ApplicationError User
unfolding write_submission
submit_for settings now new_id first second dto users u = do
  throw_if (not (is_permanent u.employee_type)) not_permanent
  throw_if u.member_verified already_member
  check_unique (λ x. x.nik) nik_taken dto.nik users u
  check_unique (λ x. x.npwp) npwp_taken dto.npwp users u
  throw_if (has_status is_under_review u.application) already_submitted
  throw_if (has_status is_approved u.application) already_approved
  fee ← entrance_fee_of (settings "initial_membership_fee")
  ok (write_submission now fee new_id first second dto u)

abbrev pub put_user : User → List User → List User
put_user new = map (λ u. if u.id == new.id then new else u)

abbrev pub found_user : Option User → Result ApplicationError User
found_user none = err user_not_found
found_user (some u) = ok u

-- `submitApplication`, on all the users.
unfoldable pub submit_application :
    Settings
    → ℕ
    → ℕ
    → ℕ
    → ℕ
    → SubmitApplicationDto
    → ℕ
    → List User
    → Result ApplicationError (List User)
unfolding submit_for
submit_application settings now new_id first second dto user_id users = do
  u ← found_user (find (λ x. x.id == user_id) users)
  new ← submit_for settings now new_id first second dto users u
  ok (put_user new users)
