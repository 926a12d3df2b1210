-- ===== src/Deposit/Booked.antt =====
-- The bookings of a deposit on its owner's account: the payroll's credits and the fees of changes.
use kamorina.Base.{
  ℕ, ◌+◌, ◌≡◌, refl, sym, ap, ◌∙◌, subst, Option, none, some, List, [], ◌∷◌, ◌++◌, arith, sum, map,
  Bool-cases, inl, inr,
}
use kamorina.Base.Int.{ℤ, pos, pos_part, neg_part, ◌+ℤ◌, ◌-ℤ◌, int_laws}
use kamorina.Loan.Calculation.{Settings}
use kamorina.Savings.Types.{SavingsTransaction, SavingsAccount}
use kamorina.Repayment.Settlement.{PayrollContext}
use kamorina.Payroll.Types.{PayrollSettings, is_of_period, upsert, new_transaction}
use kamorina.Payroll.DepositSavings.{add_deposit, credit}
use kamorina.Deposit.Change.Approval.{charge_fee, charge}

-- An upsert that adds `k` to a figure of the period's transaction adds it to the figure's total.
pub sum-upsert :
    (figure : SavingsTransaction → ℕ) (k period : ℕ)
    (update : SavingsTransaction → SavingsTransaction) (create : SavingsTransaction)
    → ((t : SavingsTransaction) → figure (update t) ≡ figure t + k)
    → figure create ≡ k
    → (ts : List SavingsTransaction)
    → sum (map figure (upsert period update create ts)) ≡ sum (map figure ts) + k
sum-upsert figure k period update create u c [] = omega (arith, c)
sum-upsert figure k period update create u c (t ∷ ts) =
    elim (Bool-cases (is_of_period period t.payroll_period_id)) [
      | inl e ↦ rw e (omega (arith, u t))
      | inr e ↦ rw e (omega (arith, sum-upsert figure k period update create u c ts))
    ]

sum-append :
    (figure : SavingsTransaction → ℕ) (ts : List SavingsTransaction) (t : SavingsTransaction)
    → sum (map figure (ts ++ t ∷ [])) ≡ sum (map figure ts) + figure t
sum-append figure [] t = omega arith
sum-append figure (x ∷ ts) t = omega (arith, sum-append figure ts t)

abbrev pub paid_in : SavingsAccount → ℕ
paid_in a = sum (map (λ t. t.tabungan_deposito) a.transactions)

abbrev pub paid_out : SavingsAccount → ℕ
paid_out a = sum (map (λ t. t.penarikan) a.transactions)

more_in :
    (saldo : ℤ) (out collected amount : ℕ)
    → saldo +ℤ pos out ≡ pos collected
    → saldo +ℤ pos amount +ℤ pos out ≡ pos (collected + amount)
more_in saldo out collected amount h = omega (int_laws, ap pos_part h, ap neg_part h)

more_out :
    (saldo : ℤ) (out collected fee : ℕ)
    → saldo +ℤ pos out ≡ pos collected
    → saldo -ℤ pos fee +ℤ pos (out + fee) ≡ pos collected
more_out saldo out collected fee h = omega (int_laws, ap pos_part h, ap neg_part h)

-- The account of a member with one deposit, of which `collected` was collected: the transactions have
-- booked that, and the voluntary savings are what they booked in, less what they booked out.
abbrev pub IsBooked : ℕ → Option SavingsAccount → Type 0
IsBooked collected none = collected ≡ 0
IsBooked collected (some a) =
    (paid_in a ≡ collected) × (a.saldo_sukarela +ℤ pos (paid_out a) ≡ pos collected)

pub credit-IsBooked :
    (now new_id : ℕ) (settings : PayrollSettings) (context : PayrollContext) (amount collected : ℕ)
    (a : SavingsAccount)
    → IsBooked collected (some a)
    → IsBooked (collected + amount) (some (credit now new_id settings context amount a))
unfolding credit
credit-IsBooked now new_id settings context amount collected a (i, o) =
    let p = context.payroll_period_id in
    let new = add_deposit amount (new_transaction now new_id p settings) in
    let into =
      sum-upsert (λ t. t.tabungan_deposito) amount p (add_deposit amount) new (λ t. refl)
        (omega arith) a.transactions in
    let out =
      sum-upsert (λ t. t.penarikan) 0 p (add_deposit amount) new (λ t. omega arith) refl
        a.transactions in
    (
      omega arith,
      subst (λ k. a.saldo_sukarela +ℤ pos amount +ℤ pos k ≡ pos (collected + amount))
          (sym (out ∙ omega arith)) (more_in a.saldo_sukarela (paid_out a) collected amount o),
    )

pub charge_fee-IsBooked :
    (settings : Settings) (now new_id approver fee collected : ℕ) (a : SavingsAccount)
    → IsBooked collected (some a)
    → IsBooked collected (some (charge_fee settings now new_id approver fee a))
unfolding charge_fee
charge_fee-IsBooked settings now new_id approver fee collected a (i, o) = (
  sum-append (λ t. t.tabungan_deposito) a.transactions _ ∙ omega (arith, i),
  subst (λ k. a.saldo_sukarela -ℤ pos fee +ℤ pos k ≡ pos collected)
      (sym (sum-append (λ t. t.penarikan) a.transactions _))
      (more_out a.saldo_sukarela (paid_out a) collected fee o),
)

pub charge-IsBooked :
    (settings : Settings) (now new_id approver fee collected : ℕ) (o : Option SavingsAccount)
    → IsBooked collected o
    → IsBooked collected (charge settings now new_id approver fee o)
charge-IsBooked settings now new_id approver fee collected none h = h
charge-IsBooked settings now new_id approver fee collected (some a) h =
    charge_fee-IsBooked settings now new_id approver fee collected a h
