-- ===== src/SocialFund/Service.antt =====
-- backend/src/social-fund/social-fund.service.ts: the operations that change the fund. Each runs
-- in a transaction; ids and times of new rows are arguments. The queries of the service only read.
use kamorina.Base.{
  ℕ, String, Bool, false, not, Option, none, some, [], ◌∷◌, ◌++◌, ◌==◌, or_text, Result, ok, err,
  ◌>>◌, throw_if,
}
use kamorina.Base.Int.{ℤ, pos, ◌+ℤ◌, ◌-ℤ◌, ltb_ℤ}
use kamorina.SocialFund.Types.{
  initial_balance, santunan, SocialFundTransaction, SocialFundBalance, SocialFund,
}
use kamorina.SocialFund.Rows.{
  is_initial_balance, is_santunan, find_transaction, delete_transaction, update_transaction,
  recalculate_balances_after,
}

-- What the service throws, by the message.
pub data FundError : Type 0 where
  transaction_not_found not_initial_balance not_santunan : FundError
  would_be_negative insufficient empty : FundError
  recipient_not_found recipient_not_verified recipient_without_employee : FundError
  recipient_not_permanent recipient_not_active : FundError

pub record Recipient : Type 0 where
  pub member_verified : Bool
  pub employee : Option (Bool × Bool)  -- whether TETAP, and whether active

pub record CreateInitialBalanceDto : Type 0 where
  pub amount : ℕ
  pub description : Option String

pub record UpdateInitialBalanceDto : Type 0 where
  pub amount : Option ℕ
  pub description : Option String

pub record CreateSantunanDto : Type 0 where
  pub recipient_user_id : ℕ
  pub amount : ℕ
  pub description : String

-- The balance row, created with 0 and the given id if there is none.
unfoldable pub get_or_create_balance : ℕ → Option SocialFundBalance → SocialFundBalance
get_or_create_balance new_id none = record {
  id = new_id;
  current_balance = pos 0;
  updated_by = none;
}
get_or_create_balance new_id (some balance) = balance

abbrev pub set_balance : ℤ → ℕ → SocialFundBalance → Option SocialFundBalance
set_balance amount user balance =
    some (record balance { current_balance = amount; updated_by = some user })

unfoldable pub create_initial_balance :
    ℕ → ℕ → ℕ → CreateInitialBalanceDto → ℕ → SocialFund → SocialFund
unfolding get_or_create_balance
create_initial_balance now balance_id new_id dto user fund =
    let balance = get_or_create_balance balance_id fund.balance in
    let new_balance = balance.current_balance +ℤ pos dto.amount in
    record {
      balance = set_balance new_balance user balance;
      transactions =
          fund.transactions
          ++ record {
            id = new_id;
            kind = initial_balance;
            amount = dto.amount;
            balance_after = new_balance;
            description = some (or_text dto.description "Saldo Awal Dana Sosial");
            recipient_user_id = none;
            created_by = user;
            created_at = now;
          }
            ∷ [];
    }

abbrev pub given_or : Option ℕ → ℕ → ℕ
given_or none d = d
given_or (some x) d = x

abbrev text_or : Option String → Option String → Option String
text_or none d = d
text_or (some x) d = some x

-- What the update writes to the row that was found as `existing`.
abbrev pub apply_update :
    UpdateInitialBalanceDto → SocialFundTransaction → SocialFundTransaction → SocialFundTransaction
apply_update dto existing t =
    let new_amount = given_or dto.amount existing.amount in
    record t {
      amount = new_amount;
      balance_after = existing.balance_after +ℤ (pos new_amount -ℤ pos existing.amount);
      description = text_or dto.description existing.description;
    }

unfoldable pub write_update :
    UpdateInitialBalanceDto
    → ℕ
    → SocialFundBalance
    → SocialFundTransaction
    → SocialFund
    → SocialFund
unfolding update_transaction recalculate_balances_after
write_update dto user balance existing fund =
    let new_amount = given_or dto.amount existing.amount in
    let diff = pos new_amount -ℤ pos existing.amount in
    record {
      balance = set_balance (balance.current_balance +ℤ diff) user balance;
      transactions =
          recalculate_balances_after existing.created_at
            (update_transaction existing.id (apply_update dto existing) fund.transactions);
    }

-- `updateInitialBalance`, on the transaction that was found
abbrev pub update_found :
    ℕ
    → UpdateInitialBalanceDto
    → ℕ
    → SocialFund
    → Option SocialFundTransaction
    → Result FundError SocialFund
update_found balance_id dto user fund none = err transaction_not_found
update_found balance_id dto user fund (some existing) = do
  throw_if (not (is_initial_balance existing.kind)) not_initial_balance
  let balance = get_or_create_balance balance_id fund.balance
  let diff = pos (given_or dto.amount existing.amount) -ℤ pos existing.amount
  throw_if (ltb_ℤ (balance.current_balance +ℤ diff) (pos 0)) would_be_negative
  ok (write_update dto user balance existing fund)

unfoldable pub update_initial_balance :
    ℕ → ℕ → UpdateInitialBalanceDto → ℕ → SocialFund → Result FundError SocialFund
unfolding find_transaction write_update get_or_create_balance
update_initial_balance balance_id id dto user fund =
    update_found balance_id dto user fund (find_transaction id fund.transactions)

-- The end of both deletions: the new balance, the row gone, and the later rows recalculated.
unfoldable pub write_deletion :
    ℤ → ℕ → SocialFundBalance → SocialFundTransaction → SocialFund → SocialFund
unfolding delete_transaction recalculate_balances_after
write_deletion new_balance user balance existing fund = record {
  balance = set_balance new_balance user balance;
  transactions =
      recalculate_balances_after existing.created_at
        (delete_transaction existing.id fund.transactions);
}

abbrev pub delete_found_balance :
    ℕ → ℕ → SocialFund → Option SocialFundTransaction → Result FundError SocialFund
delete_found_balance balance_id user fund none = err transaction_not_found
delete_found_balance balance_id user fund (some existing) = do
  throw_if (not (is_initial_balance existing.kind)) not_initial_balance
  let balance = get_or_create_balance balance_id fund.balance
  let new_balance = balance.current_balance -ℤ pos existing.amount
  throw_if (ltb_ℤ new_balance (pos 0)) would_be_negative
  ok (write_deletion new_balance user balance existing fund)

unfoldable pub delete_initial_balance : ℕ → ℕ → ℕ → SocialFund → Result FundError SocialFund
unfolding find_transaction write_deletion get_or_create_balance
delete_initial_balance balance_id id user fund =
    delete_found_balance balance_id user fund (find_transaction id fund.transactions)

-- The checks of the recipient: found, verified, an employee, permanent, active.
abbrev check_employee : Option (Bool × Bool) → Result FundError (Unit {0})
check_employee none = err recipient_without_employee
check_employee (some (is_permanent, is_active)) = do
  throw_if (not is_permanent) recipient_not_permanent
  throw_if (not is_active) recipient_not_active
  ok tt

unfoldable pub check_recipient : Option Recipient → Result FundError (Unit {0})
check_recipient none = err recipient_not_found
check_recipient (some recipient) = do
  throw_if (not recipient.member_verified) recipient_not_verified
  check_employee recipient.employee

unfoldable pub write_santunan :
    ℕ → ℕ → CreateSantunanDto → ℕ → SocialFundBalance → SocialFund → SocialFund
write_santunan now new_id dto user balance fund =
    let new_balance = balance.current_balance -ℤ pos dto.amount in
    record {
      balance = set_balance new_balance user balance;
      transactions =
          fund.transactions
          ++ record {
            id = new_id;
            kind = santunan;
            amount = dto.amount;
            balance_after = new_balance;
            description = some dto.description;
            recipient_user_id = some dto.recipient_user_id;
            created_by = user;
            created_at = now;
          }
            ∷ [];
    }

abbrev is_zero : ℤ → Bool
is_zero (pos n) = n == 0
is_zero _ = false

unfoldable pub create_santunan :
    ℕ → ℕ → ℕ → CreateSantunanDto → Option Recipient → ℕ → SocialFund → Result FundError SocialFund
unfolding write_santunan get_or_create_balance check_recipient
create_santunan now balance_id new_id dto recipient user fund = do
  let balance = get_or_create_balance balance_id fund.balance
  throw_if (ltb_ℤ balance.current_balance (pos dto.amount)) insufficient
  throw_if (is_zero balance.current_balance) empty
  check_recipient recipient
  ok (write_santunan now new_id dto user balance fund)

abbrev pub delete_found_santunan :
    ℕ → ℕ → SocialFund → Option SocialFundTransaction → Result FundError SocialFund
delete_found_santunan balance_id user fund none = err transaction_not_found
delete_found_santunan balance_id user fund (some existing) = do
  throw_if (not (is_santunan existing.kind)) not_santunan
  let balance = get_or_create_balance balance_id fund.balance
  ok (write_deletion (balance.current_balance +ℤ pos existing.amount) user balance existing fund)

unfoldable pub delete_santunan : ℕ → ℕ → ℕ → SocialFund → Result FundError SocialFund
unfolding find_transaction write_deletion get_or_create_balance
delete_santunan balance_id id user fund =
    delete_found_santunan balance_id user fund (find_transaction id fund.transactions)
