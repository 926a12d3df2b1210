-- ===== src/Deposit/Review.antt =====
-- What the reviews of a deposit and of a change share, in backend/src/deposit/deposit.service.ts and
-- deposit-change.service.ts: the steps, the roles and the approval records.
use kamorina.Base.{
  or_kept, ℕ, String, Bool, true, false, not, Option, none, some, List, find, map, ◌==◌, str_eq,
  if◌then◌else◌, is_some, Result, ok, err, ◌>>◌, throw_if,
}
use kamorina.Deposit.Types.{
  DepositApprovalStep, divisi_simpan_pinjam, ketua, DepositApprovalDecision, DepositApproval,
  DepositError, not_in_review, no_access_to_step, no_approval_record, already_processed, is_step,
}

pub record ApproveDepositDto : Type 0 where
  pub decision : DepositApprovalDecision
  pub notes : Option String

unfoldable pub role_step_map : String → Option DepositApprovalStep
role_step_map role =
    if str_eq role "divisi_simpan_pinjam"
    then some divisi_simpan_pinjam
    else if str_eq role "ketua"
    then some ketua
    else none

abbrev pub is_mapped_to : DepositApprovalStep → Option DepositApprovalStep → Bool
is_mapped_to step none = false
is_mapped_to step (some s) = is_step s step

unfoldable pub has_role_for : DepositApprovalStep → List String → Bool
has_role_for step roles = is_some (find (is_mapped_to step) (map role_step_map roles))

unfoldable pub find_approval : DepositApprovalStep → List DepositApproval → Option DepositApproval
find_approval step = find (λ a. is_step a.step step)

-- `stepOrder`
abbrev pub next_step : DepositApprovalStep → Option DepositApprovalStep
next_step divisi_simpan_pinjam = some ketua
next_step ketua = none

abbrev pub is_last_step : DepositApprovalStep → Bool
is_last_step divisi_simpan_pinjam = false
is_last_step ketua = true

-- The `update` of the record with this id.
unfoldable pub decide :
    ℕ
    → DepositApprovalDecision
    → ℕ
    → ℕ
    → Option String
    → List DepositApproval
    → List DepositApproval
decide id decision now approver notes = map λ a.
    if a.id == id
    then record a {
      decision = some decision;
      decided_at = some now;
      approver_id = some approver;
      notes = or_kept notes a.notes;
    }
    else a

-- A step with its record: where the guards of a review end.
abbrev pub Found : Type 0
Found = DepositApprovalStep × DepositApproval

abbrev pub undecided : DepositApprovalStep → Option DepositApproval → Result DepositError Found
undecided step none = err no_approval_record
undecided step (some a) = throw_if (is_some a.decision) already_processed >> ok (step, a)

-- The guards at the start of `processApproval`.
unfoldable pub check_review :
    List String → Option DepositApprovalStep → List DepositApproval → Result DepositError Found
unfolding has_role_for find_approval
check_review roles none approvals = err not_in_review
check_review roles (some step) approvals = do
  throw_if (not (has_role_for step roles)) no_access_to_step
  undecided step (find_approval step approvals)

-- An approval record with the defaults of its columns.
abbrev pub new_approval : ℕ → DepositApprovalStep → DepositApproval
new_approval id step = record {
  id = id;
  step = step;
  decision = none;
  decided_at = none;
  approver_id = none;
  notes = none;
}
