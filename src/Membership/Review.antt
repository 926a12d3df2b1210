-- ===== src/Membership/Review.antt =====
-- `processApproval` of backend/src/member-application/member-application.service.ts: an application is
-- reviewed in two steps. The queued emails are left out.
use kamorina.Base.{
  or_kept, ℕ, String, true, not, Option, none, some, List, [], ◌∷◌, ◌++◌, is_some, Result, ok, err,
  ◌>>=◌, ◌>>◌, throw_if,
}
use kamorina.Base.Int.{pos}
use kamorina.Savings.Types.{SavingsAccount}
use kamorina.Deposit.Types.{
  DepositApprovalStep, divisi_simpan_pinjam, ketua, DepositApprovalDecision, DepositApproval,
  DepositError,
}
use kamorina.Deposit.Review.{ApproveDepositDto as ApproveRejectDto, Found, decide, check_review}
use kamorina.Membership.Types.{
  ApplicationStatus, is_under_review, MemberApplication, User, ApplicationError,
  application_not_found, already_decided, failed, refused,
}
use kamorina.Membership.Submission.{history_of}

abbrev pub refused_by : Result DepositError Found → Result ApplicationError Found
refused_by (ok w) = ok w
refused_by (err e) = err (refused e)

unfoldable pub reject :
    ℕ → ℕ → Option String → DepositApproval → User → MemberApplication → MemberApplication
unfolding decide
reject now approver notes found u app = record app {
  approvals = decide found.id DepositApprovalDecision.rejected now approver notes app.approvals;
  status = ApplicationStatus.rejected;
  rejected_at = some now;
  rejection_reason = or_kept notes app.rejection_reason;
  current_step = none;
  history =
      app.history
      ++ history_of ApplicationStatus.rejected now (some now) none notes (some approver) u app ∷ [];
}

-- An approval that is not the last one moves the application to the second step.
unfoldable pub approve_first :
    ℕ → ℕ → Option String → DepositApproval → MemberApplication → MemberApplication
unfolding decide
approve_first now approver notes found app = record app {
  approvals = decide found.id DepositApprovalDecision.approved now approver notes app.approvals;
  current_step = some ketua;
}

unfoldable pub approve_last :
    ℕ → ℕ → Option String → DepositApproval → User → MemberApplication → MemberApplication
unfolding decide
approve_last now approver notes found u app = record app {
  approvals = decide found.id DepositApprovalDecision.approved now approver notes app.approvals;
  status = ApplicationStatus.approved;
  approved_at = some now;
  current_step = none;
  history =
      app.history
      ++ history_of ApplicationStatus.approved now none (some now) none (some approver) u app ∷ [];
}

-- An account with the defaults of its columns.
abbrev pub new_account : SavingsAccount
new_account = record {
  saldo_pokok = 0;
  saldo_wajib = 0;
  saldo_sukarela = pos 0;
  bunga_deposito = pos 0;
  transactions = [];
}

-- The transactions of the three branches. A second account of a user cannot be created: that fails,
-- and the transaction with it.
abbrev pub conclude :
    ℕ
    → ℕ
    → Option String
    → DepositApprovalStep
    → DepositApproval
    → User
    → MemberApplication
    → DepositApprovalDecision
    → Result ApplicationError User
conclude now approver notes step found u app DepositApprovalDecision.rejected =
    ok (record u { application = some (reject now approver notes found u app) })
conclude now approver notes divisi_simpan_pinjam found u app DepositApprovalDecision.approved =
    ok (record u { application = some (approve_first now approver notes found app) })
conclude now approver notes ketua found u app DepositApprovalDecision.approved =
    throw_if (is_some u.savings_account) failed
    >> ok (record u {
      member_verified = true;
      member_verified_at = some now;
      application = some (approve_last now approver notes found u app);
      savings_account = some new_account;
    })

unfoldable pub review_application :
    ℕ → ℕ → List String → ApproveRejectDto → User → MemberApplication → Result ApplicationError User
unfolding check_review reject approve_first approve_last
review_application now approver roles dto u app = do
  throw_if (not (is_under_review app.status)) already_decided
  (step, found) ← refused_by (check_review roles app.current_step app.approvals)
  conclude now approver dto.notes step found u app dto.decision

abbrev pub review_found :
    ℕ
    → ℕ
    → List String
    → ApproveRejectDto
    → User
    → Option MemberApplication
    → Result ApplicationError User
review_found now approver roles dto u none = err application_not_found
review_found now approver roles dto u (some app) = review_application now approver roles dto u app

-- `processApproval` on the user whose application was found.
unfoldable pub process_approval :
    ℕ → ℕ → List String → ApproveRejectDto → User → Result ApplicationError User
unfolding review_application
process_approval now approver roles dto u = review_found now approver roles dto u u.application
