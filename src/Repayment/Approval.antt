-- ===== src/Repayment/Approval.antt =====
-- backend/src/loan-repayment/services/repayment-approval.service.ts: the review in two steps. The
-- queued emails are not modelled.
use kamorina.Base.{
  or_kept, ℕ, String, Bool, true, false, not, Option, none, some, List, find, map, ◌==◌, str_eq,
  if◌then◌else◌, is_some, Result, ok, err, ◌>>◌, throw_if,
}
use kamorina.Savings.Types.{ApprovalDecision, approved, rejected}
use kamorina.Repayment.Types.{
  RepaymentStatus, RepaymentApprovalStep, divisi_simpan_pinjam, ketua, RepaymentApproval,
  LoanRepayment, RepaymentError, not_in_review, no_access_to_step, no_approval_record,
  already_processed, status_mismatch, is_status, is_step,
}

pub record ApproveRepaymentDto : Type 0 where
  pub decision : ApprovalDecision
  pub notes : Option String

unfoldable pub get_status_for_step : RepaymentApprovalStep → RepaymentStatus
get_status_for_step divisi_simpan_pinjam = RepaymentStatus.under_review_dsp
get_status_for_step ketua = RepaymentStatus.under_review_ketua

unfoldable pub get_next_step : RepaymentApprovalStep → Option RepaymentApprovalStep
get_next_step divisi_simpan_pinjam = some ketua
get_next_step ketua = none

unfoldable pub is_last_step : RepaymentApprovalStep → Bool
is_last_step ketua = true
is_last_step divisi_simpan_pinjam = false

unfoldable pub role_step_map : String → Option RepaymentApprovalStep
role_step_map role =
    if str_eq role "divisi_simpan_pinjam"
    then some divisi_simpan_pinjam
    else if str_eq role "ketua"
    then some ketua
    else none

abbrev is_mapped_to : RepaymentApprovalStep → Option RepaymentApprovalStep → Bool
is_mapped_to step none = false
is_mapped_to step (some s) = is_step s step

unfoldable pub has_role_for : RepaymentApprovalStep → List String → Bool
has_role_for step roles = is_some (find (is_mapped_to step) (map role_step_map roles))

unfoldable pub find_approval :
    RepaymentApprovalStep → List RepaymentApproval → Option RepaymentApproval
find_approval step = find (λ a. is_step a.step step)

-- `tx.repaymentApproval.update({ where: { id } })`
unfoldable pub decide :
    ℕ → ApprovalDecision → ℕ → ℕ → Option String → List RepaymentApproval → List RepaymentApproval
decide id decision now approver notes = map λ a.
    if a.id == id
    then record a {
      decision = some decision;
      decided_at = some now;
      approver_id = some approver;
      notes = or_kept notes a.notes;
    }
    else a

unfoldable pub process_rejection :
    ℕ → ℕ → Option String → RepaymentApproval → LoanRepayment → LoanRepayment
unfolding decide
process_rejection now approver notes record_found r = record r {
  approvals = decide record_found.id rejected now approver notes r.approvals;
  status = RepaymentStatus.rejected;
  rejected_at = some now;
  rejection_reason = or_kept notes r.rejection_reason;
  current_step = none;
}

unfoldable pub status_after_approval : RepaymentApprovalStep → RepaymentStatus → RepaymentStatus
unfolding is_last_step get_next_step get_status_for_step
status_after_approval step status =
    if is_last_step step
    then RepaymentStatus.approved
    else elim (get_next_step step) [ some next ↦ get_status_for_step next | none ↦ status ]

unfoldable pub process_approval_decision :
    RepaymentApprovalStep
    → ℕ
    → ℕ
    → Option String
    → RepaymentApproval
    → LoanRepayment
    → LoanRepayment
unfolding decide status_after_approval
process_approval_decision step now approver notes record_found r = record r {
  approvals = decide record_found.id approved now approver notes r.approvals;
  status = status_after_approval step r.status;
  current_step = get_next_step step;
  approved_at = if is_last_step step then some now else r.approved_at;
}

-- The tail of `processApproval`, by the decision.
abbrev pub conclude :
    RepaymentApprovalStep
    → ℕ
    → ℕ
    → Option String
    → RepaymentApproval
    → LoanRepayment
    → ApprovalDecision
    → LoanRepayment
conclude step now approver notes record_found r rejected =
    process_rejection now approver notes record_found r
conclude step now approver notes record_found r approved =
    process_approval_decision step now approver notes record_found r

abbrev pub with_record :
    RepaymentApprovalStep
    → ℕ
    → ℕ
    → ApproveRepaymentDto
    → LoanRepayment
    → Option RepaymentApproval
    → Result RepaymentError LoanRepayment
with_record step now approver dto r none = err no_approval_record
with_record step now approver dto r (some found) =
    throw_if (is_some found.decision) already_processed
    >> ok (conclude step now approver dto.notes found r dto.decision)

abbrev pub at_step :
    ℕ
    → ℕ
    → List String
    → ApproveRepaymentDto
    → LoanRepayment
    → Option RepaymentApprovalStep
    → Result RepaymentError LoanRepayment
at_step now approver roles dto r none = err not_in_review
at_step now approver roles dto r (some step) = do
  throw_if (not (has_role_for step roles)) no_access_to_step
  let expected = get_status_for_step step
  throw_if (not (is_status r.status expected)) (status_mismatch expected r.status)
  with_record step now approver dto r (find_approval step r.approvals)

unfoldable pub process_approval :
    ℕ → ℕ → List String → ApproveRepaymentDto → LoanRepayment → Result RepaymentError LoanRepayment
unfolding get_status_for_step process_rejection process_approval_decision has_role_for find_approval
process_approval now approver roles dto r = at_step now approver roles dto r r.current_step
