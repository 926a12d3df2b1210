-- ===== src/Savings/Creation.antt =====
-- The creation of a withdrawal in backend/src/savings/savings-withdrawal.service.ts, with the
-- penalty for open deposits. A column of decimals keeps hundredths, halves away from 0.
use kamorina.Base.{
  ℕ, ◌-◌, ◌*◌, String, Bool, true, false, not, Option, none, some, List, [], any, ltb, leb, ◌&&◌,
  ◌||◌, if◌then◌else◌, Result, ok, err, ◌>>◌, throw_if,
}
use kamorina.Base.Int.{ℤ, pos, ◌-ℤ◌, ltb_ℤ}
use kamorina.Loan.Calculation.{Settings, get_setting_number, round_div}
use kamorina.Savings.Types.{
  SavingsWithdrawalStatus, divisi_simpan_pinjam, SavingsWithdrawal, SavingsAccount, SavingsError,
  account_not_found, insufficient, insufficient_after_penalty, still_pending, is_status,
}

pub record CreateSavingsWithdrawalDto : Type 0 where
  pub withdrawal_amount : ℕ
  pub notes : Option String

-- A deposit, as far as the penalty looks at it: whether its status is ACTIVE or APPROVED, and when
-- it matures.
pub record Deposit : Type 0 where
  pub is_open : Bool
  pub maturity_date : Option ℕ

abbrev pub matures_after : ℕ → Option ℕ → Bool
matures_after now none = false
matures_after now (some date) = ltb now date

abbrev pub is_early : ℕ → Deposit → Bool
is_early now deposit = deposit.is_open && matures_after now deposit.maturity_date

pub record Penalty : Type 0 where
  pub has_early_deposit_penalty : Bool
  pub penalty_rate : ℕ
  pub penalty_amount : ℕ
  pub net_amount : ℤ

-- `withdrawalAmount - penaltyAmount`, which is negative for a rate above 100 %.
unfoldable pub net_after : ℕ → ℕ → ℤ
unfolding round_div
net_after amount rate =
    if leb rate 10000
    then pos (round_div (amount * (10000 - rate)) 10000)
    else pos 0 -ℤ pos (round_div (amount * (rate - 10000)) 10000)

unfoldable pub check_early_deposit_penalty : Settings → ℕ → List Deposit → ℕ → Penalty
unfolding net_after round_div get_setting_number
check_early_deposit_penalty settings now deposits amount =
    let rate = get_setting_number settings "deposit_early_withdrawal_penalty_rate" 300 in
    if any (is_early now) deposits
    then record {
      has_early_deposit_penalty = true;
      penalty_rate = rate;
      penalty_amount = round_div (amount * rate) 10000;
      net_amount = net_after amount rate;
    }
    else record {
      has_early_deposit_penalty = false;
      penalty_rate = 0;
      penalty_amount = 0;
      net_amount = pos amount;
    }

-- `status: { notIn: [COMPLETED, REJECTED, CANCELLED] }`
abbrev pub is_pending : SavingsWithdrawal → Bool
is_pending w = not (
    is_status w.status SavingsWithdrawalStatus.completed
    || is_status w.status SavingsWithdrawalStatus.rejected
    || is_status w.status SavingsWithdrawalStatus.cancelled)

abbrev pub new_withdrawal : ℕ → ℕ → ℕ → CreateSavingsWithdrawalDto → Penalty → SavingsWithdrawal
new_withdrawal now new_id user dto penalty = record {
  id = new_id;
  user_id = user;
  withdrawal_amount = dto.withdrawal_amount;
  has_early_deposit_penalty = penalty.has_early_deposit_penalty;
  penalty_rate = penalty.penalty_rate;
  penalty_amount = penalty.penalty_amount;
  net_amount = penalty.net_amount;
  notes = dto.notes;
  status = SavingsWithdrawalStatus.submitted;
  current_step = some divisi_simpan_pinjam;
  submitted_at = some now;
  rejected_at = none;
  completed_at = none;
  activated_at = none;
  rejection_reason = none;
  approvals = [];
  disbursement = none;
  authorization = none;
}

-- `createWithdrawal`, on the account that was found; the withdrawals are the user's.
abbrev pub create_on :
    Settings
    → ℕ
    → ℕ
    → ℕ
    → CreateSavingsWithdrawalDto
    → List Deposit
    → List SavingsWithdrawal
    → Option SavingsAccount
    → Result SavingsError SavingsWithdrawal
create_on settings now new_id user dto deposits withdrawals none = err account_not_found
create_on settings now new_id user dto deposits withdrawals (some account) = do
  let available_balance = account.saldo_sukarela
  throw_if (ltb_ℤ available_balance (pos dto.withdrawal_amount)) insufficient
  throw_if (any is_pending withdrawals) still_pending
  let penalty = check_early_deposit_penalty settings now deposits dto.withdrawal_amount
  throw_if (ltb_ℤ available_balance penalty.net_amount) insufficient_after_penalty
  ok (new_withdrawal now new_id user dto penalty)

unfoldable pub create_withdrawal :
    Settings
    → ℕ
    → ℕ
    → ℕ
    → CreateSavingsWithdrawalDto
    → List Deposit
    → List SavingsWithdrawal
    → Option SavingsAccount
    → Result SavingsError SavingsWithdrawal
unfolding check_early_deposit_penalty
create_withdrawal settings now new_id user dto deposits withdrawals account =
    create_on settings now new_id user dto deposits withdrawals account
