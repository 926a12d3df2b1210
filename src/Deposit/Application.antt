-- ===== src/Deposit/Application.antt =====
-- backend/src/deposit/deposit.service.ts: a deposit is asked for and reviewed in two steps. The
-- queued emails are left out.
use kamorina.Base.{
  or_kept, ℕ, String, Bool, not, Option, none, some, List, [], ◌∷◌, ◌++◌, if◌then◌else◌, Result, ok,
  err, ◌>>=◌, ◌>>◌, throw_if,
}
use kamorina.Loan.Calculation.{Settings, get_setting_number}
use kamorina.Deposit.Types.{
  DepositStatus, DepositApprovalStep, divisi_simpan_pinjam, ketua, DepositApprovalDecision,
  DepositApproval, DepositAction, DepositHistory, DepositApplication, DepositError, not_agreed,
  amount_option_not_found, amount_option_inactive, tenor_option_not_found, tenor_option_inactive,
}
use kamorina.Deposit.Dates.{LocalDate, activation_date, maturity_date}
use kamorina.Deposit.Review.{
  ApproveDepositDto, decide, check_review, next_step, is_last_step, new_approval,
}

pub record CreateDepositDto : Type 0 where
  pub deposit_amount_code : String
  pub deposit_tenor_code : String
  pub agreed_to_terms : Bool

pub record AmountOption : Type 0 where
  pub amount : ℕ
  pub is_active : Bool

pub record TenorOption : Type 0 where
  pub months : ℕ
  pub is_active : Bool

-- The tables of options, by their unique codes.
pub record Options : Type 0 where
  pub amount_option : String → Option AmountOption
  pub tenor_option : String → Option TenorOption

abbrev or_throw : {A : Type 0} → DepositError → Option A → Result DepositError A
or_throw e none = err e
or_throw e (some a) = ok a

-- `findAmountOptionByCode`, and the check that the option is active.
unfoldable pub active_amount : Options → String → Result DepositError ℕ
active_amount options code = do
  option ← or_throw amount_option_not_found (options.amount_option code)
  throw_if (not option.is_active) amount_option_inactive
  ok option.amount

-- `findTenorOptionByCode`, and the check that the option is active.
unfoldable pub active_tenor : Options → String → Result DepositError ℕ
active_tenor options code = do
  option ← or_throw tenor_option_not_found (options.tenor_option code)
  throw_if (not option.is_active) tenor_option_inactive
  ok option.months

abbrev pub history_of :
    DepositStatus
    → DepositAction
    → ℕ
    → Option ℕ
    → Option String
    → DepositApplication
    → DepositHistory
history_of status action now by notes d = record {
  status = status;
  amount_value = d.amount_value;
  tenor_months = d.tenor_months;
  action = action;
  action_at = now;
  action_by = by;
  notes = notes;
}

-- The row that `create` writes, with its two approval records and its first history.
unfoldable pub new_deposit : Settings → ℕ → ℕ → ℕ → ℕ → ℕ → Bool → ℕ → ℕ → DepositApplication
unfolding get_setting_number
new_deposit settings now new_id first second user agreed amount months = record {
  id = new_id;
  user_id = user;
  interest_rate = get_setting_number settings "deposit_interest_rate" 600;
  amount_value = amount;
  tenor_months = months;
  collected_amount = 0;
  installment_count = 0;
  agreed_to_terms = agreed;
  status = DepositStatus.under_review_dsp;
  current_step = some divisi_simpan_pinjam;
  submitted_at = some now;
  approved_at = none;
  activated_at = none;
  maturity_date = none;
  completed_at = none;
  rejected_at = none;
  rejection_reason = none;
  approvals = new_approval first divisi_simpan_pinjam ∷ new_approval second ketua ∷ [];
  history =
      record {
        status = DepositStatus.under_review_dsp;
        amount_value = amount;
        tenor_months = months;
        action = DepositAction.submitted;
        action_at = now;
        action_by = some user;
        notes = none;
      }
      ∷ [];
}

unfoldable pub create :
    Settings
    → Options
    → ℕ
    → ℕ
    → ℕ
    → ℕ
    → ℕ
    → CreateDepositDto
    → Result DepositError DepositApplication
unfolding active_amount active_tenor new_deposit
create settings options now new_id first second user dto = do
  throw_if (not dto.agreed_to_terms) not_agreed
  amount ← active_amount options dto.deposit_amount_code
  months ← active_tenor options dto.deposit_tenor_code
  ok (new_deposit settings now new_id first second user dto.agreed_to_terms amount months)

-- The branch of a rejection.
unfoldable pub reject :
    ℕ → ℕ → Option String → DepositApproval → DepositApplication → DepositApplication
unfolding decide
reject now approver notes found d = record d {
  approvals = decide found.id DepositApprovalDecision.rejected now approver notes d.approvals;
  status = DepositStatus.rejected;
  rejected_at = some now;
  rejection_reason = or_kept notes d.rejection_reason;
  current_step = none;
  history =
      d.history
      ++ history_of DepositStatus.rejected DepositAction.rejected now (some approver) notes d ∷ [];
}

abbrev pub status_after : DepositApprovalStep → DepositStatus
status_after step =
    if is_last_step step then DepositStatus.approved else DepositStatus.under_review_ketua

-- The branch of an approval; the dates are computed at the last step only.
unfoldable pub approve :
    Settings
    → ℕ
    → LocalDate
    → ℕ
    → Option String
    → DepositApprovalStep
    → DepositApproval
    → DepositApplication
    → DepositApplication
unfolding decide activation_date maturity_date
approve settings now today approver notes step found d =
    let start_date = activation_date settings today in
    let last = is_last_step step in
    record d {
      approvals = decide found.id DepositApprovalDecision.approved now approver notes d.approvals;
      status = status_after step;
      current_step = next_step step;
      approved_at = if last then some now else d.approved_at;
      activated_at = if last then some start_date else d.activated_at;
      maturity_date =
          if last then some (maturity_date d.tenor_months start_date) else d.maturity_date;
      history =
          d.history
          ++ history_of (status_after step) DepositAction.approved now (some approver) notes d ∷ [];
    }

abbrev pub conclude :
    Settings
    → ℕ
    → LocalDate
    → ℕ
    → Option String
    → DepositApprovalStep
    → DepositApproval
    → DepositApplication
    → DepositApprovalDecision
    → DepositApplication
conclude settings now today approver notes step found d DepositApprovalDecision.rejected =
    reject now approver notes found d
conclude settings now today approver notes step found d DepositApprovalDecision.approved =
    approve settings now today approver notes step found d

-- `processApproval` on the deposit that was found, at the time `now` on the date `today`.
unfoldable pub process_approval :
    Settings
    → ℕ
    → LocalDate
    → ℕ
    → List String
    → ApproveDepositDto
    → DepositApplication
    → Result DepositError DepositApplication
unfolding check_review reject approve
process_approval settings now today approver roles dto d = do
  (step, found) ← check_review roles d.current_step d.approvals
  ok (conclude settings now today approver dto.notes step found d dto.decision)
