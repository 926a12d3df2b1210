-- ===== src/Loan/Approval.antt =====
-- backend/src/loan/services/loan-approval.service.ts: the review of a loan in three steps.
-- A method is given the loan that `findUnique` loaded, and returns the loan as its transaction
-- leaves it. The queued emails are not modelled: a failure to queue one is caught and logged.
use kamorina.Base.{
  ℕ, String, Bool, true, false, Option, none, some, List, [], ◌∷◌, ◌++◌, map, ◌==◌, find, truthy,
  or_text, or_kept, if◌then◌else◌, Result, ok, err, ◌>>◌, throw_if, not, is_some, str_eq,
}
use kamorina.Loan.Types.{
  LoanStatus, LoanApprovalStep, divisi_simpan_pinjam, ketua, pengawas, LoanApprovalDecision,
  approve, reject, revise, LoanApproval, LoanHistory, LoanApplication, LoanError, not_in_review,
  no_access_to_step, no_approval_record, already_processed, status_mismatch, is_status, is_step,
}
use Prim.Native.String.{◌++◌ as append}

pub record ApproveLoanDto : Type 0 where
  pub decision : LoanApprovalDecision
  pub notes : Option String

-- What `processApproval` reports to its caller; a rejection has no new status.
pub record ApprovalOutcome : Type 0 where
  pub new_status : Option LoanStatus
  pub next_step : Option LoanApprovalStep

unfoldable pub get_status_for_step : LoanApprovalStep → LoanStatus
get_status_for_step divisi_simpan_pinjam = LoanStatus.under_review_dsp
get_status_for_step ketua = LoanStatus.under_review_ketua
get_status_for_step pengawas = LoanStatus.under_review_pengawas

unfoldable pub get_next_step : LoanApprovalStep → Option LoanApprovalStep
get_next_step divisi_simpan_pinjam = some ketua
get_next_step ketua = some pengawas
get_next_step pengawas = none

unfoldable pub is_last_step : LoanApprovalStep → Bool
is_last_step pengawas = true
is_last_step _ = false

unfoldable pub get_step_display_name : LoanApprovalStep → String
get_step_display_name divisi_simpan_pinjam = "Divisi Simpan Pinjam"
get_step_display_name ketua = "Ketua"
get_step_display_name pengawas = "Pengawas"

unfoldable pub role_step_map : String → Option LoanApprovalStep
role_step_map role =
    if str_eq role "divisi_simpan_pinjam"
    then some divisi_simpan_pinjam
    else if str_eq role "ketua"
    then some ketua
    else if str_eq role "pengawas"
    then some pengawas
    else none

abbrev is_mapped_to : LoanApprovalStep → Option LoanApprovalStep → Bool
is_mapped_to step none = false
is_mapped_to step (some s) = is_step s step

-- Whether one of the roles is mapped to the step.
unfoldable pub has_role_for : LoanApprovalStep → List String → Bool
has_role_for step roles = is_some (find (is_mapped_to step) (map role_step_map roles))

-- `loan.approvals.find((a) => a.step === step)`
unfoldable pub find_approval : LoanApprovalStep → List LoanApproval → Option LoanApproval
find_approval step = find (λ a. is_step a.step step)

-- `tx.loanApproval.update({ where: { id } })` with a decision
unfoldable pub decide :
    ℕ → LoanApprovalDecision → ℕ → ℕ → Option String → List LoanApproval → List LoanApproval
decide id decision now approver notes = map λ a.
    if a.id == id
    then record a {
      decision = some decision;
      decided_at = some now;
      approver_id = some approver;
      notes = or_kept notes a.notes;
    }
    else a

-- The common part of the history rows, taken from the loan.
abbrev pub history_of : LoanApplication → LoanStatus → String → ℕ → ℕ → Option String → LoanHistory
history_of loan status action now user notes = record {
  status = status;
  loan_type = loan.loan_type;
  loan_amount = loan.loan_amount;
  loan_tenor = loan.loan_tenor;
  loan_purpose = loan.loan_purpose;
  interest_rate = loan.interest_rate;
  monthly_installment = loan.monthly_installment;
  action = action;
  action_at = now;
  action_by = some user;
  notes = notes;
}

abbrev rejection_note : LoanApprovalStep → Option String → String
rejection_note step notes =
    append "Ditolak oleh "
      (append (get_step_display_name step) (append ": " (or_text notes "Tidak ada catatan")))

abbrev approval_note : LoanApprovalStep → Option String → String
approval_note step notes = append "Disetujui oleh " (
    append (get_step_display_name step)
      (if truthy notes then append ": " (or_text notes "") else ""))

unfoldable pub process_rejection :
    LoanApprovalStep → ℕ → ℕ → Option String → LoanApproval → LoanApplication → LoanApplication
unfolding decide get_step_display_name
process_rejection step now approver notes approval loan = record loan {
  approvals = decide approval.id reject now approver notes loan.approvals;
  status = LoanStatus.rejected;
  rejected_at = some now;
  rejection_reason = or_kept notes loan.rejection_reason;
  current_step = none;
  history =
      loan.history
      ++ history_of loan LoanStatus.rejected "REJECTED" now approver
          (some (rejection_note step notes))
        ∷ [];
}

-- The status after an approval; the last case is the fallback that should not happen.
unfoldable pub status_after_approval : LoanApprovalStep → LoanStatus → LoanStatus
unfolding is_last_step get_next_step get_status_for_step
status_after_approval step status =
    if is_last_step step
    then LoanStatus.approved_pending_disbursement
    else elim (get_next_step step) [ some next ↦ get_status_for_step next | none ↦ status ]

unfoldable pub process_approval_decision :
    LoanApprovalStep → ℕ → ℕ → Option String → LoanApproval → LoanApplication → LoanApplication
unfolding decide status_after_approval get_step_display_name
process_approval_decision step now approver notes approval loan = record loan {
  approvals = decide approval.id approve now approver notes loan.approvals;
  status = status_after_approval step loan.status;
  current_step = get_next_step step;
  approved_at = if is_last_step step then some now else loan.approved_at;
  history =
      loan.history
      ++ history_of loan (status_after_approval step loan.status) "APPROVED" now approver
          (some (approval_note step notes))
        ∷ [];
}

-- A decision that blocks a second one: any but a revision.
abbrev pub is_processed : Option LoanApprovalDecision → Bool
is_processed none = false
is_processed (some revise) = false
is_processed (some _) = true

-- The tail of `processApproval`, by the decision.
abbrev pub conclude :
    LoanApprovalStep
    → ℕ
    → ℕ
    → ApproveLoanDto
    → LoanApproval
    → LoanApplication
    → LoanApprovalDecision
    → LoanApplication × ApprovalOutcome
conclude step now approver dto approval loan reject = (
  process_rejection step now approver dto.notes approval loan,
  record { new_status = none; next_step = none },
)
conclude step now approver dto approval loan _ = (
  process_approval_decision step now approver dto.notes approval loan,
  record {
    new_status = some (status_after_approval step loan.status);
    next_step = get_next_step step;
  },
)

-- With the approval record of the step, if there is one.
abbrev pub with_record :
    LoanApprovalStep
    → ℕ
    → ℕ
    → ApproveLoanDto
    → LoanApplication
    → Option LoanApproval
    → Result LoanError (LoanApplication × ApprovalOutcome)
with_record step now approver dto loan none = err no_approval_record
with_record step now approver dto loan (some approval) =
    throw_if (is_processed approval.decision) already_processed
    >> ok (conclude step now approver dto approval loan dto.decision)

-- `processApproval` from the test of `loan.currentStep` on.
abbrev pub at_step :
    ℕ
    → ℕ
    → List String
    → ApproveLoanDto
    → LoanApplication
    → Option LoanApprovalStep
    → Result LoanError (LoanApplication × ApprovalOutcome)
at_step now approver roles dto loan none = err not_in_review
at_step now approver roles dto loan (some step) = do
  throw_if (not (has_role_for step roles)) no_access_to_step
  let expected = get_status_for_step step
  throw_if (not (is_status loan.status expected)) (status_mismatch expected loan.status)
  with_record step now approver dto loan (find_approval step loan.approvals)

unfoldable pub process_approval :
    ℕ
    → ℕ
    → List String
    → ApproveLoanDto
    → LoanApplication
    → Result LoanError (LoanApplication × ApprovalOutcome)
unfolding get_status_for_step process_rejection process_approval_decision
process_approval now approver roles dto loan = at_step now approver roles dto loan loan.current_step
