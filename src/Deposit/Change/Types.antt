-- ===== src/Deposit/Change/Types.antt =====
-- The models of a change in backend/prisma/schema.prisma, a request with its approvals and history,
-- and the rows that a review of it writes.
use kamorina.Base.{ℕ, String, Bool, true, false, Option, List}
use kamorina.Savings.Types.{SavingsAccount}
use kamorina.Deposit.Types.{DepositApprovalStep, DepositApproval, DepositAction, DepositApplication}

pub data DepositChangeType : Type 0 where
  amount_change tenor_change both stop : DepositChangeType

pub data DepositChangeStatus : Type 0 where
  draft submitted under_review_dsp under_review_ketua approved rejected cancelled :
      DepositChangeStatus

pub record DepositChangeHistory : Type 0 where
  pub status : DepositChangeStatus
  pub change_type : DepositChangeType
  pub current_amount_value : ℕ
  pub current_tenor_months : ℕ
  pub new_amount_value : ℕ
  pub new_tenor_months : ℕ
  pub admin_fee : ℕ
  pub action : DepositAction
  pub action_at : ℕ
  pub action_by : Option ℕ
  pub notes : Option String

pub record DepositChangeRequest : Type 0 where
  pub id : ℕ
  pub deposit_application_id : ℕ
  pub user_id : ℕ
  pub change_type : DepositChangeType
  pub current_amount_value : ℕ
  pub current_tenor_months : ℕ
  pub new_amount_value : ℕ
  pub new_tenor_months : ℕ
  pub admin_fee : ℕ
  pub agreed_to_terms : Bool
  pub agreed_to_admin_fee : Bool
  pub status : DepositChangeStatus
  pub current_step : Option DepositApprovalStep
  pub submitted_at : Option ℕ
  pub approved_at : Option ℕ
  pub rejected_at : Option ℕ
  pub rejection_reason : Option String
  pub effective_date : Option ℕ
  pub approvals : List DepositApproval
  pub history : List DepositChangeHistory

-- A request with its deposit and the account of the deposit's owner.
pub record ChangeRow : Type 0 where
  pub request : DepositChangeRequest
  pub deposit : DepositApplication
  pub savings_account : Option SavingsAccount

abbrev pub is_stop : DepositChangeType → Bool
is_stop stop = true
is_stop _ = false

abbrev pub is_draft : DepositChangeStatus → Bool
is_draft draft = true
is_draft _ = false

-- The statuses of a request that is still open.
abbrev pub is_open : DepositChangeStatus → Bool
is_open draft = true
is_open submitted = true
is_open under_review_dsp = true
is_open under_review_ketua = true
is_open _ = false
