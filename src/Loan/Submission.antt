-- ===== src/Loan/Submission.antt =====
-- backend/src/loan/services/loan-submission.service.ts, and `deleteDraft` of loan-crud.service.ts,
-- which asks for the same access.
use kamorina.Base.{
  ℕ, String, Bool, ◌&&◌, ◌||◌, not, none, some, List, [], ◌∷◌, ◌++◌, ◌==◌, any, str_eq,
  if◌then◌else◌, Result, ok, ◌>>◌, throw_if,
}
use kamorina.Loan.Types.{
  LoanStatus, LoanApprovalStep, divisi_simpan_pinjam, ketua, pengawas, LoanApproval,
  LoanApplication, LoanError, no_access_to_loan, only_drafts, is_status, is_excess, is_phone,
}
use kamorina.Loan.Validation.{HandlerContext, validate_loan_amount, validate_loan_tenor}
use kamorina.Loan.Approval.{history_of}

-- `['ketua', 'divisi_simpan_pinjam'].includes(r)`
abbrev is_admin_role : String → Bool
is_admin_role r = str_eq r "ketua" || str_eq r "divisi_simpan_pinjam"

-- An excess loan may be handled by an administrator too.
unfoldable pub may_access : ℕ → List String → LoanApplication → Bool
may_access user roles loan =
    loan.user_id == user || (is_excess loan.loan_type && any is_admin_role roles)

-- A row of `loanApproval.createMany`; the database gives the id.
abbrev pub new_approval : ℕ → LoanApprovalStep → LoanApproval
new_approval id step = record {
  id = id;
  step = step;
  decision = none;
  decided_at = none;
  approver_id = none;
  notes = none;
  revised_data = none;
}

-- The ids of three new rows.
pub record NewIds : Type 0 where
  pub first : ℕ
  pub second : ℕ
  pub third : ℕ

unfoldable pub write_submission : ℕ → ℕ → NewIds → LoanApplication → LoanApplication
write_submission now user ids loan = record loan {
  status = LoanStatus.under_review_dsp;
  current_step = some divisi_simpan_pinjam;
  submitted_at = some now;
  approvals =
      loan.approvals
      ++ new_approval ids.first divisi_simpan_pinjam
        ∷ new_approval ids.second ketua
        ∷ new_approval ids.third pengawas
        ∷ [];
  history =
      loan.history
      ++ history_of loan LoanStatus.submitted "SUBMITTED" now user none
        ∷ history_of loan LoanStatus.under_review_dsp "STATUS_CHANGED" now user
            (some "Pinjaman masuk ke review Divisi Simpan Pinjam")
        ∷ [];
}

-- A phone's price is still open, so its amount is not checked.
unfoldable pub revalidate : HandlerContext → LoanApplication → Result LoanError (Unit {0})
revalidate context loan =
    if is_phone loan.loan_type
    then ok tt
    else validate_loan_amount context loan.loan_type loan.loan_amount

unfoldable pub submit_loan :
    HandlerContext
    → ℕ
    → NewIds
    → ℕ
    → List String
    → LoanApplication
    → Result LoanError LoanApplication
unfolding may_access write_submission revalidate
submit_loan context now ids user roles loan = do
  throw_if (not (may_access user roles loan)) no_access_to_loan
  throw_if (not (is_status loan.status LoanStatus.draft)) only_drafts
  revalidate context loan
  validate_loan_tenor context.settings loan.loan_tenor
  ok (write_submission now user ids loan)

-- `deleteDraft` up to the delete: whether the row may go.
unfoldable pub delete_draft : ℕ → List String → LoanApplication → Result LoanError (Unit {0})
unfolding may_access
delete_draft user roles loan = do
  throw_if (not (may_access user roles loan)) no_access_to_loan
  throw_if (not (is_status loan.status LoanStatus.draft)) only_drafts
  ok tt
