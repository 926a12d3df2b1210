-- ===== src/Savings/Types.antt =====
-- The savings models and enums of backend/prisma/schema.prisma. Amounts and rates are whole
-- hundredths. An account comes with its transactions, a withdrawal with its approvals, its
-- disbursement and its authorization.
use kamorina.Base.{
  ℕ, String, Bool, true, false, Option, none, some, List, truthy, or_text, if◌then◌else◌,
}
use kamorina.Base.Int.{ℤ}

pub data SavingsWithdrawalStatus : Type 0 where
  submitted under_review_dsp under_review_ketua : SavingsWithdrawalStatus
  approved_waiting_disbursement disbursement_in_progress : SavingsWithdrawalStatus
  completed rejected cancelled : SavingsWithdrawalStatus

pub data SavingsWithdrawalStep : Type 0 where
  divisi_simpan_pinjam ketua shopkeeper ketua_auth : SavingsWithdrawalStep

pub data ApprovalDecision : Type 0 where
  approved rejected : ApprovalDecision

pub record SavingsWithdrawalApproval : Type 0 where
  pub step : SavingsWithdrawalStep
  pub decision : ApprovalDecision
  pub approver_id : ℕ
  pub notes : Option String
  pub decided_at : ℕ

-- A date or a time of day, as the request has it, or that of the moment.
pub data Moment : Type 0 where
  given : String → Moment
  current : ℕ → Moment

-- `text ? … : now`, `text || now`
abbrev pub given_or_now : Option String → ℕ → Moment
given_or_now text now = if truthy text then given (or_text text "") else current now

pub record SavingsWithdrawalDisbursement : Type 0 where
  pub processed_by : ℕ
  pub disbursement_date : Moment
  pub disbursement_time : Moment
  pub notes : Option String

pub record SavingsWithdrawalAuthorization : Type 0 where
  pub authorized_by : ℕ
  pub authorization_date : Moment
  pub authorization_time : Moment
  pub notes : Option String

pub record SavingsWithdrawal : Type 0 where
  pub id : ℕ
  pub user_id : ℕ
  pub withdrawal_amount : ℕ
  pub has_early_deposit_penalty : Bool
  pub penalty_rate : ℕ
  pub penalty_amount : ℕ
  pub net_amount : ℤ
  pub notes : Option String
  pub status : SavingsWithdrawalStatus
  pub current_step : Option SavingsWithdrawalStep
  pub submitted_at : Option ℕ
  pub rejected_at : Option ℕ
  pub completed_at : Option ℕ
  pub activated_at : Option ℕ
  pub rejection_reason : Option String
  pub approvals : List SavingsWithdrawalApproval
  pub disbursement : Option SavingsWithdrawalDisbursement
  pub authorization : Option SavingsWithdrawalAuthorization

pub record SavingsTransaction : Type 0 where
  pub id : ℕ
  pub interest_rate : ℕ
  pub iuran_pendaftaran : ℕ
  pub iuran_bulanan : ℕ
  pub tabungan_deposito : ℕ
  pub shu : ℕ
  pub penarikan : ℕ
  pub bunga : ℤ
  pub jumlah_bunga : ℤ
  pub transaction_date : ℕ
  pub created_by : Option ℕ
  pub payroll_period_id : Option ℕ

pub record SavingsAccount : Type 0 where
  pub saldo_pokok : ℕ
  pub saldo_wajib : ℕ
  pub saldo_sukarela : ℤ
  pub bunga_deposito : ℤ
  pub transactions : List SavingsTransaction

-- What the service throws, by the message.
pub data SavingsError : Type 0 where
  account_not_found withdrawal_not_found insufficient insufficient_after_penalty : SavingsError
  still_pending not_in_review no_access_to_step already_processed : SavingsError
  not_at_shopkeeper not_waiting_disbursement not_at_authorization not_in_progress : SavingsError
  no_access_to_withdrawal no_longer_cancellable : SavingsError

-- `===` on the enums.
abbrev pub is_status : SavingsWithdrawalStatus → SavingsWithdrawalStatus → Bool
is_status SavingsWithdrawalStatus.submitted SavingsWithdrawalStatus.submitted = true
is_status SavingsWithdrawalStatus.under_review_dsp SavingsWithdrawalStatus.under_review_dsp = true
is_status SavingsWithdrawalStatus.under_review_ketua SavingsWithdrawalStatus.under_review_ketua =
    true
is_status SavingsWithdrawalStatus.approved_waiting_disbursement
      SavingsWithdrawalStatus.approved_waiting_disbursement =
    true
is_status SavingsWithdrawalStatus.disbursement_in_progress
      SavingsWithdrawalStatus.disbursement_in_progress =
    true
is_status SavingsWithdrawalStatus.completed SavingsWithdrawalStatus.completed = true
is_status SavingsWithdrawalStatus.rejected SavingsWithdrawalStatus.rejected = true
is_status SavingsWithdrawalStatus.cancelled SavingsWithdrawalStatus.cancelled = true
is_status _ _ = false

abbrev pub is_step : SavingsWithdrawalStep → SavingsWithdrawalStep → Bool
is_step SavingsWithdrawalStep.divisi_simpan_pinjam SavingsWithdrawalStep.divisi_simpan_pinjam = true
is_step SavingsWithdrawalStep.ketua SavingsWithdrawalStep.ketua = true
is_step SavingsWithdrawalStep.shopkeeper SavingsWithdrawalStep.shopkeeper = true
is_step SavingsWithdrawalStep.ketua_auth SavingsWithdrawalStep.ketua_auth = true
is_step _ _ = false

abbrev pub is_at : SavingsWithdrawalStep → Option SavingsWithdrawalStep → Bool
is_at step none = false
is_at step (some s) = is_step s step
