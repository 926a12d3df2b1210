-- ===== src/Savings/Member.antt =====
-- One member's savings account and withdrawals, and the requests of
-- backend/src/savings/savings-withdrawal.service.ts on them: each loads a withdrawal by its id and
-- writes it back, with the account in the same transaction.
use kamorina.Base.{
  ℕ, ◌≡◌, String, Option, none, some, List, [], ◌∷◌, find, ◌==◌, if◌then◌else◌, Result, ok, err,
  ◌>>=◌,
}
use kamorina.Loan.Calculation.{Settings}
use kamorina.Savings.Types.{SavingsWithdrawal, SavingsAccount, SavingsError, withdrawal_not_found}
use kamorina.Savings.Approval.{ApproveSavingsWithdrawalDto, process_approval, cancel_withdrawal}
use kamorina.Savings.Creation.{CreateSavingsWithdrawalDto, Deposit, create_withdrawal}
use kamorina.Savings.Payment.{
  ConfirmDisbursementDto, ConfirmAuthorizationDto, confirm_disbursement, confirm_authorization,
}

pub record Member : Type 0 where
  pub account : Option SavingsAccount
  pub withdrawals : List SavingsWithdrawal

-- `findUnique` and `update` by id; ids are unique.
unfoldable pub find_withdrawal : ℕ → List SavingsWithdrawal → Option SavingsWithdrawal
find_withdrawal id = find (λ w. w.id == id)

unfoldable pub update_withdrawal :
    ℕ → SavingsWithdrawal → List SavingsWithdrawal → List SavingsWithdrawal
update_withdrawal id w' [] = []
update_withdrawal id w' (w ∷ ws) = if w.id == id then w' ∷ ws else w ∷ update_withdrawal id w' ws

-- A request that writes the withdrawal and the account.
abbrev pub pay_found :
    ℕ
    → (SavingsWithdrawal
        → Option SavingsAccount
        → Result SavingsError (SavingsWithdrawal × Option SavingsAccount))
    → Member
    → Option SavingsWithdrawal
    → Result SavingsError Member
pay_found id request m none = err withdrawal_not_found
pay_found id request m (some w) = do
  (w', account') ← request w m.account
  ok (record { account = account'; withdrawals = update_withdrawal id w' m.withdrawals })

-- A request that writes the withdrawal only.
abbrev pub write_found :
    ℕ
    → (SavingsWithdrawal → Result SavingsError SavingsWithdrawal)
    → Member
    → Option SavingsWithdrawal
    → Result SavingsError Member
write_found id request m none = err withdrawal_not_found
write_found id request m (some w) = do
  w' ← request w
  ok (record m { withdrawals = update_withdrawal id w' m.withdrawals })

unfoldable pub create_by :
    Settings
    → ℕ
    → ℕ
    → ℕ
    → CreateSavingsWithdrawalDto
    → List Deposit
    → Member
    → Result SavingsError Member
create_by settings now new_id user dto deposits m = do
  w ← create_withdrawal settings now new_id user dto deposits m.withdrawals m.account
  ok (record m { withdrawals = w ∷ m.withdrawals })

unfoldable pub write_by :
    ℕ
    → (SavingsWithdrawal → Result SavingsError SavingsWithdrawal)
    → Member
    → Result SavingsError Member
unfolding find_withdrawal update_withdrawal
write_by id request m = write_found id request m (find_withdrawal id m.withdrawals)

unfoldable pub pay_by :
    ℕ
    → (SavingsWithdrawal
        → Option SavingsAccount
        → Result SavingsError (SavingsWithdrawal × Option SavingsAccount))
    → Member
    → Result SavingsError Member
unfolding find_withdrawal update_withdrawal
pay_by id request m = pay_found id request m (find_withdrawal id m.withdrawals)

-- One request that succeeds, with any arguments. `user` is the owner where a withdrawal is created.
pub data Step (m m' : Member) : Type 0 where
  create :
      (settings : Settings) (now new_id user : ℕ) (dto : CreateSavingsWithdrawalDto)
      (deposits : List Deposit)
      → create_by settings now new_id user dto deposits m ≡ ok m'
      → Step m m'
  review :
      (id now approver : ℕ) (roles : List String) (dto : ApproveSavingsWithdrawalDto)
      → write_by id (process_approval now approver roles dto) m ≡ ok m'
      → Step m m'
  cancel : (id user : ℕ) → write_by id (cancel_withdrawal user) m ≡ ok m' → Step m m'
  disburse :
      (id now user : ℕ) (dto : ConfirmDisbursementDto)
      → write_by id (confirm_disbursement now user dto) m ≡ ok m'
      → Step m m'
  authorize :
      (settings : Settings) (id now new_id user : ℕ) (dto : ConfirmAuthorizationDto)
      → pay_by id (confirm_authorization settings now new_id user dto) m ≡ ok m'
      → Step m m'

pub data Reach (m : Member) : Member → Type 0 where
  here : Reach m m
  next : {m' m'' : Member} → Reach m m' → Step m' m'' → Reach m m''
