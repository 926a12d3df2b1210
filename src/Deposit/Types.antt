-- ===== src/Deposit/Types.antt =====
-- The deposit models and enums of backend/prisma/schema.prisma, a deposit with its approvals and its
-- history. A change of a deposit is reviewed in the same steps, by the same decisions and on the same
-- kind of records as a deposit. Display numbers are left out.
use kamorina.Base.{ℕ, String, Bool, true, false, Option, List}
use kamorina.Deposit.Dates.{LocalDate}

pub data DepositStatus : Type 0 where
  under_review_dsp under_review_ketua approved active completed rejected cancelled : DepositStatus

pub data DepositApprovalStep : Type 0 where
  divisi_simpan_pinjam ketua : DepositApprovalStep

pub data DepositApprovalDecision : Type 0 where
  approved rejected : DepositApprovalDecision

pub record DepositApproval : Type 0 where
  pub id : ℕ
  pub step : DepositApprovalStep
  pub decision : Option DepositApprovalDecision
  pub decided_at : Option ℕ
  pub approver_id : Option ℕ
  pub notes : Option String

-- The texts of the column `action`; `installment n` is INSTALLMENT_n.
pub data DepositAction : Type 0 where
  submitted approved rejected completed : DepositAction
  installment : ℕ → DepositAction

pub record DepositHistory : Type 0 where
  pub status : DepositStatus
  pub amount_value : ℕ
  pub tenor_months : ℕ
  pub action : DepositAction
  pub action_at : ℕ
  pub action_by : Option ℕ
  pub notes : Option String

pub record DepositApplication : Type 0 where
  pub id : ℕ
  pub user_id : ℕ
  pub interest_rate : ℕ
  pub amount_value : ℕ
  pub tenor_months : ℕ
  pub collected_amount : ℕ
  pub installment_count : ℕ
  pub agreed_to_terms : Bool
  pub status : DepositStatus
  pub current_step : Option DepositApprovalStep
  pub submitted_at : Option ℕ
  pub approved_at : Option ℕ
  pub activated_at : Option LocalDate
  pub maturity_date : Option LocalDate
  pub completed_at : Option ℕ
  pub rejected_at : Option ℕ
  pub rejection_reason : Option String
  pub approvals : List DepositApproval
  pub history : List DepositHistory

-- What the services throw, by the message.
pub data DepositError : Type 0 where
  not_agreed amount_option_not_found amount_option_inactive : DepositError
  tenor_option_not_found tenor_option_inactive : DepositError
  deposit_not_found not_in_review no_access_to_step no_approval_record : DepositError
  already_processed : DepositError
  change_not_found no_access_to_deposit not_changeable already_in_change : DepositError
  not_agreed_to_fee tenor_too_short no_change no_access_to_change not_draft : DepositError

-- `===` on the enums.
abbrev pub is_status : DepositStatus → DepositStatus → Bool
is_status DepositStatus.under_review_dsp DepositStatus.under_review_dsp = true
is_status DepositStatus.under_review_ketua DepositStatus.under_review_ketua = true
is_status DepositStatus.approved DepositStatus.approved = true
is_status DepositStatus.active DepositStatus.active = true
is_status DepositStatus.completed DepositStatus.completed = true
is_status DepositStatus.rejected DepositStatus.rejected = true
is_status DepositStatus.cancelled DepositStatus.cancelled = true
is_status _ _ = false

abbrev pub is_step : DepositApprovalStep → DepositApprovalStep → Bool
is_step DepositApprovalStep.divisi_simpan_pinjam DepositApprovalStep.divisi_simpan_pinjam = true
is_step DepositApprovalStep.ketua DepositApprovalStep.ketua = true
is_step _ _ = false
