-- ===== src/Savings/Approval.antt =====
-- The review of a withdrawal in backend/src/savings/savings-withdrawal.service.ts, and its
-- cancellation. A method is given the row that `findUnique` loaded and returns it as its
-- transaction leaves it. The queued emails are not modelled.
use kamorina.Base.{
  or_kept, ℕ, String, Bool, not, ◌||◌, Option, none, some, List, [], ◌∷◌, ◌++◌, map, find, ◌==◌,
  str_eq, if◌then◌else◌, is_some, Result, ok, err, ◌>>◌, throw_if,
}
use kamorina.Savings.Types.{
  SavingsWithdrawalStatus, SavingsWithdrawalStep, ApprovalDecision, approved, rejected,
  divisi_simpan_pinjam, ketua, shopkeeper, ketua_auth, SavingsWithdrawal, SavingsWithdrawalApproval,
  SavingsError, not_in_review, no_access_to_step, already_processed, no_access_to_withdrawal,
  no_longer_cancellable, is_status, is_step, is_at,
}

pub record ApproveSavingsWithdrawalDto : Type 0 where
  pub decision : ApprovalDecision
  pub notes : Option String

unfoldable pub role_step_map : String → Option SavingsWithdrawalStep
role_step_map role =
    if str_eq role "divisi_simpan_pinjam"
    then some divisi_simpan_pinjam
    else if str_eq role "ketua"
    then some ketua
    else none

unfoldable pub has_role_for : SavingsWithdrawalStep → List String → Bool
has_role_for step roles = is_some (find (is_at step) (map role_step_map roles))

-- `withdrawal.approvals.find(…)`: every approval of the table has a decision.
unfoldable pub existing_approval :
    SavingsWithdrawalStep → List SavingsWithdrawalApproval → Option SavingsWithdrawalApproval
existing_approval step = find (λ a. is_step a.step step)

abbrev pub new_approval :
    SavingsWithdrawalStep → ApprovalDecision → ℕ → ℕ → Option String → SavingsWithdrawalApproval
new_approval step decision now approver notes = record {
  step = step;
  decision = decision;
  approver_id = approver;
  notes = notes;
  decided_at = now;
}

unfoldable pub handle_rejection :
    SavingsWithdrawalStep → ℕ → ℕ → Option String → SavingsWithdrawal → SavingsWithdrawal
handle_rejection step now approver notes w = record w {
  approvals = w.approvals ++ new_approval step rejected now approver notes ∷ [];
  status = SavingsWithdrawalStatus.rejected;
  rejected_at = some now;
  rejection_reason = or_kept notes w.rejection_reason;
  current_step = none;
}

-- `stepOrder[currentIndex + 1]`
unfoldable pub next_step : SavingsWithdrawalStep → Option SavingsWithdrawalStep
next_step divisi_simpan_pinjam = some ketua
next_step ketua = some shopkeeper
next_step shopkeeper = some ketua_auth
next_step ketua_auth = none

unfoldable pub status_before :
    Option SavingsWithdrawalStep → SavingsWithdrawalStatus → SavingsWithdrawalStatus
status_before (some ketua) status = SavingsWithdrawalStatus.under_review_ketua
status_before (some shopkeeper) status = SavingsWithdrawalStatus.approved_waiting_disbursement
status_before _ status = status

-- An update with `undefined` leaves the column as it is.
abbrev or_unchanged :
    Option SavingsWithdrawalStep → Option SavingsWithdrawalStep → Option SavingsWithdrawalStep
or_unchanged none current = current
or_unchanged (some next) current = some next

unfoldable pub handle_approval :
    SavingsWithdrawalStep → ℕ → ℕ → Option String → SavingsWithdrawal → SavingsWithdrawal
unfolding next_step status_before
handle_approval step now approver notes w = record w {
  approvals = w.approvals ++ new_approval step approved now approver notes ∷ [];
  status = status_before (next_step step) w.status;
  current_step = or_unchanged (next_step step) w.current_step;
}

-- The tail of `processApproval`, by the decision.
abbrev pub conclude :
    SavingsWithdrawalStep
    → ℕ
    → ℕ
    → Option String
    → SavingsWithdrawal
    → ApprovalDecision
    → SavingsWithdrawal
conclude step now approver notes w rejected = handle_rejection step now approver notes w
conclude step now approver notes w approved = handle_approval step now approver notes w

-- `processApproval` from the test of `withdrawal.currentStep` on.
abbrev pub at_step :
    ℕ
    → ℕ
    → List String
    → ApproveSavingsWithdrawalDto
    → SavingsWithdrawal
    → Option SavingsWithdrawalStep
    → Result SavingsError SavingsWithdrawal
at_step now approver roles dto w none = err not_in_review
at_step now approver roles dto w (some step) = do
  throw_if (not (has_role_for step roles)) no_access_to_step
  throw_if (is_some (existing_approval step w.approvals)) already_processed
  ok (conclude step now approver dto.notes w dto.decision)

unfoldable pub process_approval :
    ℕ
    → ℕ
    → List String
    → ApproveSavingsWithdrawalDto
    → SavingsWithdrawal
    → Result SavingsError SavingsWithdrawal
unfolding has_role_for existing_approval handle_rejection handle_approval
process_approval now approver roles dto w = at_step now approver roles dto w w.current_step

abbrev pub is_cancellable : SavingsWithdrawalStatus → Bool
is_cancellable status =
    is_status status SavingsWithdrawalStatus.submitted
    || is_status status SavingsWithdrawalStatus.under_review_dsp
    || is_status status SavingsWithdrawalStatus.under_review_ketua

unfoldable pub cancel_withdrawal : ℕ → SavingsWithdrawal → Result SavingsError SavingsWithdrawal
cancel_withdrawal user w = do
  throw_if (not (w.user_id == user)) no_access_to_withdrawal
  throw_if (not (is_cancellable w.status)) no_longer_cancellable
  ok (record w { status = SavingsWithdrawalStatus.cancelled; current_step = none })
