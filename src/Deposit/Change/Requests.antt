-- ===== src/Deposit/Change/Requests.antt =====
-- The member's side of backend/src/deposit/deposit-change.service.ts: a draft of a change, its update,
-- submission and cancellation, and the request to stop. The queued emails are left out.
use kamorina.Base.{
  ℕ, String, Bool, not, Option, none, some, List, [], ◌∷◌, ◌++◌, leb, ◌==◌, Result, ok, ◌>>=◌, ◌>>◌,
  throw_if,
}
use kamorina.Loan.Calculation.{Settings}
use kamorina.Deposit.Types.{
  divisi_simpan_pinjam, ketua, DepositAction, DepositApplication, DepositError, not_agreed,
  not_agreed_to_fee, tenor_too_short, no_access_to_change, not_draft,
}
use kamorina.Deposit.Review.{new_approval}
use kamorina.Deposit.Application.{Options, active_amount, active_tenor}
use kamorina.Deposit.Change.Types.{
  DepositChangeType, DepositChangeStatus, DepositChangeHistory, DepositChangeRequest, is_draft,
}
use kamorina.Deposit.Change.Rules.{
  get_admin_fee, get_stop_penalty_fee, determine_change_type, validate_deposit_for_change,
}

pub record CreateDepositChangeDto : Type 0 where
  pub new_amount_code : String
  pub new_tenor_code : String
  pub agreed_to_terms : Bool
  pub agreed_to_admin_fee : Bool

pub record CreateDepositStopDto : Type 0 where
  pub agreed_to_terms : Bool
  pub agreed_to_admin_fee : Bool
  pub notes : Option String

pub record UpdateDepositChangeDto : Type 0 where
  pub new_amount_code : Option String
  pub new_tenor_code : Option String
  pub agreed_to_terms : Option Bool
  pub agreed_to_admin_fee : Option Bool

-- The row that `createDraft` writes.
unfoldable pub new_draft :
    Settings
    → ℕ
    → ℕ
    → CreateDepositChangeDto
    → DepositApplication
    → ℕ
    → ℕ
    → DepositChangeType
    → DepositChangeRequest
unfolding get_admin_fee
new_draft settings new_id user dto deposit amount months change_type = record {
  id = new_id;
  deposit_application_id = deposit.id;
  user_id = user;
  change_type = change_type;
  current_amount_value = deposit.amount_value;
  current_tenor_months = deposit.tenor_months;
  new_amount_value = amount;
  new_tenor_months = months;
  admin_fee = get_admin_fee settings;
  agreed_to_terms = dto.agreed_to_terms;
  agreed_to_admin_fee = dto.agreed_to_admin_fee;
  status = DepositChangeStatus.draft;
  current_step = none;
  submitted_at = none;
  approved_at = none;
  rejected_at = none;
  rejection_reason = none;
  effective_date = none;
  approvals = [];
  history = [];
}

unfoldable pub create_draft :
    Settings
    → Options
    → ℕ
    → ℕ
    → CreateDepositChangeDto
    → DepositApplication
    → List DepositChangeRequest
    → Result DepositError DepositChangeRequest
unfolding validate_deposit_for_change active_amount active_tenor determine_change_type new_draft
create_draft settings options new_id user dto deposit requests = do
  validate_deposit_for_change user deposit requests
  throw_if (not dto.agreed_to_terms) not_agreed
  throw_if (not dto.agreed_to_admin_fee) not_agreed_to_fee
  amount ← active_amount options dto.new_amount_code
  months ← active_tenor options dto.new_tenor_code
  throw_if (leb months deposit.installment_count) tenor_too_short
  change_type ← determine_change_type deposit.amount_value deposit.tenor_months amount months
  ok (new_draft settings new_id user dto deposit amount months change_type)

abbrev pub history_of :
    DepositChangeStatus
    → DepositAction
    → ℕ
    → ℕ
    → Option String
    → DepositChangeRequest
    → DepositChangeHistory
history_of status action now by notes r = record {
  status = status;
  change_type = r.change_type;
  current_amount_value = r.current_amount_value;
  current_tenor_months = r.current_tenor_months;
  new_amount_value = r.new_amount_value;
  new_tenor_months = r.new_tenor_months;
  admin_fee = r.admin_fee;
  action = action;
  action_at = now;
  action_by = some by;
  notes = notes;
}

-- What a submission writes: the first step, the two approval records and the history.
unfoldable pub write_submission :
    ℕ → ℕ → ℕ → ℕ → Option String → DepositChangeRequest → DepositChangeRequest
write_submission now first second user notes r = record r {
  status = DepositChangeStatus.submitted;
  current_step = some divisi_simpan_pinjam;
  submitted_at = some now;
  approvals =
      r.approvals ++ new_approval first divisi_simpan_pinjam ∷ new_approval second ketua ∷ [];
  history =
      r.history
      ++ history_of DepositChangeStatus.submitted DepositAction.submitted now user notes r ∷ [];
}

-- The row of a stop before its submission, which `createStopRequest` writes in one go.
abbrev pub stop_row :
    Settings → ℕ → ℕ → CreateDepositStopDto → DepositApplication → DepositChangeRequest
stop_row settings new_id user dto deposit = record {
  id = new_id;
  deposit_application_id = deposit.id;
  user_id = user;
  change_type = DepositChangeType.stop;
  current_amount_value = deposit.amount_value;
  current_tenor_months = deposit.tenor_months;
  new_amount_value = 0;
  new_tenor_months = 0;
  admin_fee = get_stop_penalty_fee settings;
  agreed_to_terms = dto.agreed_to_terms;
  agreed_to_admin_fee = dto.agreed_to_admin_fee;
  status = DepositChangeStatus.draft;
  current_step = none;
  submitted_at = none;
  approved_at = none;
  rejected_at = none;
  rejection_reason = none;
  effective_date = none;
  approvals = [];
  history = [];
}

unfoldable pub create_stop_request :
    Settings
    → ℕ
    → ℕ
    → ℕ
    → ℕ
    → ℕ
    → CreateDepositStopDto
    → DepositApplication
    → List DepositChangeRequest
    → Result DepositError DepositChangeRequest
unfolding validate_deposit_for_change get_stop_penalty_fee write_submission
create_stop_request settings now new_id first second user dto deposit requests = do
  validate_deposit_for_change user deposit requests
  throw_if (not dto.agreed_to_terms) not_agreed
  throw_if (not dto.agreed_to_admin_fee) not_agreed_to_fee
  ok (write_submission now first second user dto.notes (stop_row settings new_id user dto deposit))

-- The value of an optional code, or the value that is there.
abbrev pub given_amount : Options → ℕ → Option String → Result DepositError ℕ
given_amount options old none = ok old
given_amount options old (some code) = active_amount options code

abbrev pub given_tenor : Options → ℕ → Option String → Result DepositError ℕ
given_tenor options old none = ok old
given_tenor options old (some code) = active_tenor options code

abbrev pub given_flag : Bool → Option Bool → Bool
given_flag old none = old
given_flag old (some new) = new

abbrev pub write_update :
    UpdateDepositChangeDto → ℕ → ℕ → DepositChangeType → DepositChangeRequest → DepositChangeRequest
write_update dto amount months change_type r = record r {
  new_amount_value = amount;
  new_tenor_months = months;
  change_type = change_type;
  agreed_to_terms = given_flag r.agreed_to_terms dto.agreed_to_terms;
  agreed_to_admin_fee = given_flag r.agreed_to_admin_fee dto.agreed_to_admin_fee;
}

unfoldable pub update_draft :
    Options
    → ℕ
    → UpdateDepositChangeDto
    → DepositApplication
    → DepositChangeRequest
    → Result DepositError DepositChangeRequest
unfolding active_amount active_tenor determine_change_type
update_draft options user dto deposit r = do
  throw_if (not (r.user_id == user)) no_access_to_change
  throw_if (not (is_draft r.status)) not_draft
  amount ← given_amount options r.new_amount_value dto.new_amount_code
  months ← given_tenor options r.new_tenor_months dto.new_tenor_code
  throw_if (leb months deposit.installment_count) tenor_too_short
  change_type ← determine_change_type r.current_amount_value r.current_tenor_months amount months
  ok (write_update dto amount months change_type r)

unfoldable pub submit_change_request :
    ℕ → ℕ → ℕ → ℕ → DepositChangeRequest → Result DepositError DepositChangeRequest
unfolding write_submission
submit_change_request now first second user r = do
  throw_if (not (r.user_id == user)) no_access_to_change
  throw_if (not (is_draft r.status)) not_draft
  throw_if (not r.agreed_to_terms) not_agreed
  throw_if (not r.agreed_to_admin_fee) not_agreed_to_fee
  ok (write_submission now first second user none r)

-- `none` is the request that was deleted.
unfoldable pub cancel_change_request :
    ℕ → DepositChangeRequest → Result DepositError (Option DepositChangeRequest)
cancel_change_request user r = do
  throw_if (not (r.user_id == user)) no_access_to_change
  throw_if (not (is_draft r.status)) not_draft
  ok none
