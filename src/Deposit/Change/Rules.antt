-- ===== src/Deposit/Change/Rules.antt =====
-- What a change of a deposit may be, in backend/src/deposit/deposit-change.service.ts: its fees, its type, and
-- the deposits that can be changed.
use kamorina.Base.{
  ℕ, Bool, not, ◌&&◌, ◌||◌, List, any, ◌==◌, if◌then◌else◌, Result, ok, err, ◌>>◌, throw_if,
}
use kamorina.Loan.Calculation.{Settings, get_setting_number}
use kamorina.Deposit.Types.{
  DepositStatus, DepositApplication, DepositError, no_access_to_deposit, not_changeable,
  already_in_change, no_change, is_status,
}
use kamorina.Deposit.Change.Types.{DepositChangeType, DepositChangeRequest, is_open}

-- 15000.00, if the setting is missing.
unfoldable pub get_admin_fee : Settings → ℕ
unfolding get_setting_number
get_admin_fee settings = get_setting_number settings "deposit_change_admin_fee" 1500000

unfoldable pub get_stop_penalty_fee : Settings → ℕ
unfolding get_setting_number
get_stop_penalty_fee settings = get_setting_number settings "deposit_change_admin_fee" 0

unfoldable pub determine_change_type : ℕ → ℕ → ℕ → ℕ → Result DepositError DepositChangeType
determine_change_type current_amount current_tenor new_amount new_tenor =
    let amount_changed = not (current_amount == new_amount) in
    let tenor_changed = not (current_tenor == new_tenor) in
    if amount_changed && tenor_changed
    then ok DepositChangeType.both
    else if amount_changed
    then ok DepositChangeType.amount_change
    else if tenor_changed
    then ok DepositChangeType.tenor_change
    else err no_change

abbrev pub is_eligible_for_change : DepositStatus → Bool
is_eligible_for_change status =
    is_status status DepositStatus.approved || is_status status DepositStatus.active

-- On the deposit that was found, with all its requests.
unfoldable pub validate_deposit_for_change :
    ℕ → DepositApplication → List DepositChangeRequest → Result DepositError (Unit {0})
validate_deposit_for_change user deposit requests = do
  throw_if (not (deposit.user_id == user)) no_access_to_deposit
  throw_if (not (is_eligible_for_change deposit.status)) not_changeable
  throw_if (any (λ r. is_open r.status) requests) already_in_change
