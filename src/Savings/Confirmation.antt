-- ===== src/Savings/Confirmation.antt =====
-- What the creation, the disbursement and the authorization of a withdrawal do, in
-- backend/src/savings/savings-withdrawal.service.ts.
use kamorina.Base.{
  ℕ, ◌+◌, ◌*◌, ◌-◌, ◌≤◌, ◌≡◌, refl, ap, sum, map, ◌∙◌, leb, true, false, Option, none, some, List,
  [], ◌∷◌, ◌++◌, arith, ok, subst, sym, inl, inr, Bool-cases, any,
}
use kamorina.Base.Int.{pos, ◌+ℤ◌, ◌≤ℤ◌, int_laws}
use kamorina.Savings.Types.{
  SavingsWithdrawalStatus, submitted, approved_waiting_disbursement, disbursement_in_progress,
  completed, SavingsWithdrawal, SavingsAccount, SavingsTransaction, is_status,
}
use kamorina.Loan.Calculation.{Settings, round_div, get_setting_number}
use kamorina.Loan.Figures.{round_div_bounds}
use kamorina.Savings.Creation.{
  CreateSavingsWithdrawalDto, Deposit, net_after, check_early_deposit_penalty, new_withdrawal,
  create_withdrawal, is_pending, is_early,
}
use kamorina.Savings.Payment.{
  ConfirmDisbursementDto, ConfirmAuthorizationDto, confirm_disbursement, confirm_authorization, pay,
  write_payment, write_completion,
}
use kamorina.Savings.Phases.{IsPhase, IsValid, IsKept, IsPaid, pending_amount, paid_amount}

abbrev penalty_rate_of : Settings → ℕ
penalty_rate_of settings = get_setting_number settings "deposit_early_withdrawal_penalty_rate" 300

shares : (a r s : ℕ) → r + s ≡ 10000 → a * r + a * s ≡ 10000 * a
shares a r s e =
    let split : a * r + a * s ≡ a * (r + s) = omega arith in
    let whole : a * 10000 ≡ 10000 * a = omega arith in split ∙ ap (λ n. a * n) e ∙ whole

leb_of_le : (a b : ℕ) → a ≤ b → leb a b ≡ true
leb_of_le a b h = ground arith

split_bounds :
    (a r : ℕ)
    → r ≤ 10000
    → let penalty = round_div (a * r) 10000 in
      let net = round_div (a * (10000 - r)) 10000 in (a ≤ penalty + net) × (penalty + net ≤ a + 1)
split_bounds a r h =
    let (p, p') = round_div_bounds (a * r) 10000 (omega arith) in
    let (n, n') = round_div_bounds (a * (10000 - r)) 10000 (omega arith) in
    let e = shares a r (10000 - r) (omega arith) in
    (omega (arith, p, n, e), omega (arith, p', n', e))

-- For a penalty rate of at most 100 %, the penalty and the net amount add up to the withdrawal, or
-- to a hundredth more, since both are rounded.
pub check_early_deposit_penalty_split :
    (settings : Settings) (now : ℕ) (deposits : List Deposit) (amount : ℕ)
    → penalty_rate_of settings ≤ 10000
    → let p = check_early_deposit_penalty settings now deposits amount in
      (pos amount ≤ℤ pos p.penalty_amount +ℤ p.net_amount)
      × (pos p.penalty_amount +ℤ p.net_amount ≤ℤ pos (amount + 1))
unfolding check_early_deposit_penalty net_after
check_early_deposit_penalty_split settings now deposits amount h =
    let (low, high) = split_bounds amount (penalty_rate_of settings) h in
    elim (Bool-cases (any (is_early now) deposits)) [
      | inl e ↦ rw e (
          rw (leb_of_le (penalty_rate_of settings) 10000 h)
            (omega (int_laws, low), omega (int_laws, high)))
      | inr e ↦ rw e (omega int_laws, omega int_laws)
    ]

module _ (settings : Settings) (now new_id user : ℕ) (dto : CreateSavingsWithdrawalDto)
    (deposits : List Deposit) (withdrawals : List SavingsWithdrawal) where
  -- A withdrawal that is created asks for no more than the account's voluntary savings, while no
  -- other of the user's withdrawals is pending; it is valid and waits for the first reviewer.
  pub create_withdrawal-eq-ok :
      (o : Option SavingsAccount) {w : SavingsWithdrawal}
      → create_withdrawal settings now new_id user dto deposits withdrawals o ≡ ok w
      → (account : SavingsAccount) × (o ≡ some account)
        × (pos w.withdrawal_amount ≤ℤ account.saldo_sukarela)
        × (any is_pending withdrawals ≡ false)
        × (w.status ≡ submitted)
        × IsValid w
  unfolding create_withdrawal
  create_withdrawal-eq-ok none h = cc
  create_withdrawal-eq-ok (some account) {w} h =
      let penalty = check_early_deposit_penalty settings now deposits dto.withdrawal_amount in
      let e : w ≡ new_withdrawal now new_id user dto penalty = ground arith in
      let covered : pos dto.withdrawal_amount ≤ℤ account.saldo_sukarela = ground arith in
      (account, refl, rw e covered, ground arith, rw e, rw e (refl, refl, (refl, refl)))

is_status_sound : (a b : SavingsWithdrawalStatus) → is_status a b ≡ true → a ≡ b
is_status_sound a b h = ground arith

-- A disbursement that succeeds keeps a withdrawal valid, asks for no more than before, and pays
-- nothing.
pub confirm_disbursement-IsKept :
    (now user : ℕ) (dto : ConfirmDisbursementDto) (w : SavingsWithdrawal) {w' : SavingsWithdrawal}
    → IsValid w
    → confirm_disbursement now user dto w ≡ ok w'
    → IsKept w w'
unfolding confirm_disbursement
confirm_disbursement-IsKept now user dto w v h =
    let s = is_status_sound w.status approved_waiting_disbursement (ground arith) in
    let p = subst (λ k. IsPhase k w) s v in ground (arith, s, p)

-- What all transactions of an account have withdrawn.
abbrev pub withdrawn : List SavingsTransaction → ℕ
withdrawn l = sum (map (λ t. t.penarikan) l)

withdrawn-append :
    (l : List SavingsTransaction) (t : SavingsTransaction)
    → withdrawn (l ++ t ∷ []) ≡ withdrawn l + t.penarikan
withdrawn-append [] t = omega arith
withdrawn-append (u ∷ l) t = omega (arith, withdrawn-append l t)

-- What an authorization does to the withdrawal: it was pending and not paid, and is paid, after
-- both approvals and the disbursement.
abbrev pub IsCompleted : SavingsWithdrawal → SavingsWithdrawal → Type 0
IsCompleted w w' =
    (w'.status ≡ completed)
    × IsPaid w'
    × (pending_amount w ≡ w.withdrawal_amount)
    × (paid_amount w ≡ 0)
    × (paid_amount w' ≡ w.withdrawal_amount)

-- What it does to the user's account, if there is one: the voluntary savings go down by the
-- amount, the others stay, and the amount is booked as one more transaction.
abbrev pub IsDebited : ℕ → Option SavingsAccount → Option SavingsAccount → Type 0
IsDebited amount none o = o ≡ none
IsDebited amount (some account) o =
    (account' : SavingsAccount) × (o ≡ some account')
    × (account'.saldo_sukarela +ℤ pos amount ≡ account.saldo_sukarela)
    × (account'.saldo_pokok ≡ account.saldo_pokok)
    × (account'.saldo_wajib ≡ account.saldo_wajib)
    × (withdrawn account'.transactions ≡ withdrawn account.transactions + amount)

module _ (settings : Settings) (now new_id user : ℕ) (dto : ConfirmAuthorizationDto)
    (w : SavingsWithdrawal) where
  IsCompleted-by :
      IsPhase disbursement_in_progress w
      → w.status ≡ disbursement_in_progress
      → (o : Option SavingsAccount)
      → let (w', o') = pay settings now new_id user (write_completion now user dto w) o in
        IsCompleted w w' × IsDebited w.withdrawal_amount o o'
  unfolding write_payment
  IsCompleted-by p s none = ((refl, (refl, p.1, p.2, refl), ground arith, ground arith, refl), refl)
  IsCompleted-by p s (some account) = (
    (refl, (refl, p.1, p.2, refl), ground arith, ground arith, refl),
    (_, refl, omega int_laws, refl, refl, withdrawn-append account.transactions _),
  )

  -- An authorization that succeeds completes a valid withdrawal and debits the account.
  pub confirm_authorization-IsCompleted :
      (o : Option SavingsAccount) {w' : SavingsWithdrawal} {o' : Option SavingsAccount}
      → IsValid w
      → confirm_authorization settings now new_id user dto w o ≡ ok (w', o')
      → IsCompleted w w' × IsDebited w.withdrawal_amount o o'
  unfolding confirm_authorization
  confirm_authorization-IsCompleted o {w'} {o'} v h =
      let s = is_status_sound w.status disbursement_in_progress (ground arith) in
      let e : (w', o') ≡ pay settings now new_id user (write_completion now user dto w) o =
        ground arith in
      subst (λ r. IsCompleted w r.0 × IsDebited w.withdrawal_amount o r.1) (sym e)
        (IsCompleted-by (subst (λ k. IsPhase k w) s v) s o)
