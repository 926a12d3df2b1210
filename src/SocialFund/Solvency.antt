-- ===== src/SocialFund/Solvency.antt =====
-- The fund stays solvent: its balance is the sum of its ledger and is never negative, through every
-- operation of the service.
use kamorina.Base.{
  ℕ, ◌≡◌, refl, sym, ap, subst, ◌∙◌, true, Option, none, some, List, [], ◌∷◌, arith, ok,
}
use mathlib.Core.Path.{subst₂}
use kamorina.Base.Int.{ℤ, pos, ◌+ℤ◌, ◌-ℤ◌, ◌≤ℤ◌, int_laws, +ℤ_cancel_left, +ℤ_shift}
use kamorina.SocialFund.Types.{SocialFundTransaction, SocialFundBalance, SocialFund, money}
use kamorina.SocialFund.Rows.{is_initial_balance, is_santunan, find_transaction, update_transaction}
use kamorina.SocialFund.Service.{
  CreateInitialBalanceDto, UpdateInitialBalanceDto, CreateSantunanDto, Recipient,
  get_or_create_balance, create_initial_balance, update_found, write_update, update_initial_balance,
  write_deletion, delete_found_balance, delete_initial_balance, write_santunan, create_santunan,
  delete_found_santunan, delete_santunan, given_or, apply_update,
}
use kamorina.SocialFund.Balance.{
  signed_amount, total, total-append, total-recalculate_balances_after, total-delete_transaction,
  total-update_transaction,
}

abbrev pub IsSolvent : SocialFund → Type 0
IsSolvent fund = (money fund.balance ≡ total fund.transactions) × (pos 0 ≤ℤ money fund.balance)

get_or_create_balance-money :
    (id : ℕ) (o : Option SocialFundBalance) → (get_or_create_balance id o).current_balance ≡ money o
unfolding get_or_create_balance
get_or_create_balance-money id none = refl
get_or_create_balance-money id (some b) = refl

-- Adding an initial balance keeps a fund solvent: its balance is the sum of its ledger, and is not
-- negative.
pub create_initial_balance-IsSolvent :
    (now balance_id new_id : ℕ) (dto : CreateInitialBalanceDto) (user : ℕ) (fund : SocialFund)
    → IsSolvent fund
    → IsSolvent (create_initial_balance now balance_id new_id dto user fund)
unfolding create_initial_balance signed_amount
create_initial_balance-IsSolvent now balance_id new_id dto user fund (e, p) =
    let same = get_or_create_balance-money balance_id fund.balance in
    (rw (same, e, total-append fund.transactions _) (omega int_laws), rw same (omega int_laws))

create_santunan-eq-ok :
    (now balance_id new_id : ℕ) (dto : CreateSantunanDto) (recipient : Option Recipient) (user : ℕ)
    (fund : SocialFund) {fund' : SocialFund}
    → create_santunan now balance_id new_id dto recipient user fund ≡ ok fund'
    → let balance = get_or_create_balance balance_id fund.balance in
      (pos dto.amount ≤ℤ balance.current_balance)
      × (fund' ≡ write_santunan now new_id dto user balance fund)
unfolding create_santunan
create_santunan-eq-ok now balance_id new_id dto recipient user fund h = (ground arith, ground arith)

-- A santunan that is created keeps a fund solvent.
pub create_santunan-IsSolvent :
    (now balance_id new_id : ℕ) (dto : CreateSantunanDto) (recipient : Option Recipient) (user : ℕ)
    (fund : SocialFund) {fund' : SocialFund}
    → IsSolvent fund
    → create_santunan now balance_id new_id dto recipient user fund ≡ ok fund'
    → IsSolvent fund'
unfolding write_santunan signed_amount
create_santunan-IsSolvent now balance_id new_id dto recipient user fund (e, p) h =
    let same = get_or_create_balance-money balance_id fund.balance in
    let (covered, written) =
      create_santunan-eq-ok now balance_id new_id dto recipient user fund h in
    rw written (rw (same, e, total-append fund.transactions _) (omega int_laws), omega int_laws)

-- A deletion that sets the balance to the old one without the row's amount.
write_deletion-IsSolvent :
    (new_balance : ℤ) (user : ℕ) (balance : SocialFundBalance) (t : SocialFundTransaction)
    (fund : SocialFund)
    → find_transaction t.id fund.transactions ≡ some t
    → signed_amount t +ℤ new_balance ≡ total fund.transactions
    → pos 0 ≤ℤ new_balance
    → IsSolvent (write_deletion new_balance user balance t fund)
unfolding write_deletion
write_deletion-IsSolvent new_balance user balance t fund f e p = (
  +ℤ_cancel_left (signed_amount t) _ _ (
      e
      ∙ sym (
          ap (λ x. signed_amount t +ℤ x) (total-recalculate_balances_after t.created_at _)
          ∙ total-delete_transaction t.id t fund.transactions f)),
  p,
)

find_transaction-id :
    (id : ℕ) (ts : List SocialFundTransaction) (t : SocialFundTransaction)
    → find_transaction id ts ≡ some t
    → t.id ≡ id
unfolding find_transaction
find_transaction-id id [] t h = cc
find_transaction-id id (u ∷ ts) t h = ground (arith, find_transaction-id id ts t)

-- `findUnique` by the row's own id.
find_transaction_self :
    (id : ℕ) (ts : List SocialFundTransaction) (t : SocialFundTransaction)
    → find_transaction id ts ≡ some t
    → find_transaction t.id ts ≡ some t
find_transaction_self id ts t h =
    subst (λ k. find_transaction k ts ≡ some t) (sym (find_transaction-id id ts t h)) h

module _ (balance_id user : ℕ) (fund : SocialFund) where
  abbrev current : SocialFundBalance
  current = get_or_create_balance balance_id fund.balance

  deleted_balance :
      (o : Option SocialFundTransaction) {fund' : SocialFund}
      → delete_found_balance balance_id user fund o ≡ ok fund'
      → (t : SocialFundTransaction) × (o ≡ some t)
        × (is_initial_balance t.kind ≡ true)
        × (pos 0 ≤ℤ current.current_balance -ℤ pos t.amount)
        × (fund' ≡ write_deletion (current.current_balance -ℤ pos t.amount) user current t fund)
  deleted_balance none h = cc
  deleted_balance (some t) h = (t, refl, ground arith, ground arith, ground arith)

  deleted_santunan :
      (o : Option SocialFundTransaction) {fund' : SocialFund}
      → delete_found_santunan balance_id user fund o ≡ ok fund'
      → (t : SocialFundTransaction) × (o ≡ some t)
        × (is_santunan t.kind ≡ true)
        × (fund' ≡ write_deletion (current.current_balance +ℤ pos t.amount) user current t fund)
  deleted_santunan none h = cc
  deleted_santunan (some t) h = (t, refl, ground arith, ground arith)

  signed_initial :
      (t : SocialFundTransaction)
      → is_initial_balance t.kind ≡ true
      → signed_amount t ≡ pos t.amount
  unfolding signed_amount
  signed_initial t k = ground arith

  signed_santunan :
      (t : SocialFundTransaction)
      → is_santunan t.kind ≡ true
      → signed_amount t ≡ pos 0 -ℤ pos t.amount
  unfolding signed_amount
  signed_santunan t k = ground arith

  -- The deletion of an initial balance, if it succeeds, keeps a fund solvent.
  pub delete_initial_balance-IsSolvent :
      (id : ℕ) {fund' : SocialFund}
      → IsSolvent fund
      → delete_initial_balance balance_id id user fund ≡ ok fund'
      → IsSolvent fund'
  unfolding delete_initial_balance
  delete_initial_balance-IsSolvent id (e, p) h =
      let (t, f, k, nonneg, written) = deleted_balance (find_transaction id fund.transactions) h in
      let same = get_or_create_balance-money balance_id fund.balance in
      rw written (
        write_deletion-IsSolvent _ user current t fund
          (find_transaction_self id fund.transactions t f)
          (rw (signed_initial t k, same, ← e) (omega int_laws)) nonneg)

  -- The deletion of a santunan, if it succeeds, keeps a fund solvent.
  pub delete_santunan-IsSolvent :
      (id : ℕ) {fund' : SocialFund}
      → IsSolvent fund
      → delete_santunan balance_id id user fund ≡ ok fund'
      → IsSolvent fund'
  unfolding delete_santunan
  delete_santunan-IsSolvent id (e, p) h =
      let (t, f, k, written) = deleted_santunan (find_transaction id fund.transactions) h in
      let same = get_or_create_balance-money balance_id fund.balance in
      rw written (
        write_deletion-IsSolvent _ user current t fund
          (find_transaction_self id fund.transactions t f)
          (rw (signed_santunan t k, same, ← e) (omega int_laws)) (rw same (omega int_laws)))

  updated_balance :
      (dto : UpdateInitialBalanceDto) (o : Option SocialFundTransaction) {fund' : SocialFund}
      → update_found balance_id dto user fund o ≡ ok fund'
      → (t : SocialFundTransaction) × (o ≡ some t)
        × (is_initial_balance t.kind ≡ true)
        × (pos 0 ≤ℤ current.current_balance +ℤ (pos (given_or dto.amount t.amount) -ℤ pos t.amount))
        × (fund' ≡ write_update dto user current t fund)
  updated_balance dto none h = cc
  updated_balance dto (some t) h = (t, refl, ground arith, ground arith, ground arith)

  updated_total :
      (dto : UpdateInitialBalanceDto) (t : SocialFundTransaction)
      → find_transaction t.id fund.transactions ≡ some t
      → is_initial_balance t.kind ≡ true
      → total fund.transactions +ℤ (pos (given_or dto.amount t.amount) -ℤ pos t.amount)
        ≡ total (write_update dto user current t fund).transactions
  unfolding write_update
  updated_total dto t f k =
      let change = apply_update dto t in
      let new_amount = given_or dto.amount t.amount in
      let moved = total-update_transaction t.id t fund.transactions change f in
      let moved' : total (update_transaction t.id change fund.transactions) +ℤ pos t.amount
          ≡ total fund.transactions +ℤ pos new_amount =
        subst₂
          (λ x y.
            total (update_transaction t.id change fund.transactions) +ℤ x
            ≡ total fund.transactions +ℤ y)
          (signed_initial t k) (signed_initial (change t) k) moved in
      +ℤ_shift _ (pos t.amount) _ (pos new_amount) moved'
      ∙ sym (total-recalculate_balances_after t.created_at _)

  -- The change of an initial balance, if it succeeds, keeps a fund solvent.
  pub update_initial_balance-IsSolvent :
      (id : ℕ) (dto : UpdateInitialBalanceDto) {fund' : SocialFund}
      → IsSolvent fund
      → update_initial_balance balance_id id dto user fund ≡ ok fund'
      → IsSolvent fund'
  unfolding update_initial_balance
  update_initial_balance-IsSolvent id dto (e, p) h =
      let (t, f, k, nonneg, written) =
        updated_balance dto (find_transaction id fund.transactions) h in
      let same = get_or_create_balance-money balance_id fund.balance in
      rw written (
        ap (λ x. x +ℤ (pos (given_or dto.amount t.amount) -ℤ pos t.amount)) (same ∙ e)
            ∙ updated_total dto t (find_transaction_self id fund.transactions t f) k,
        nonneg,
      )
