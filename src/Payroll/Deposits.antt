-- ===== src/Payroll/Deposits.antt =====
-- A run of the payroll on all the deposits of a member, and a deposit that a change has overtaken
-- (backend/src/payroll/services/deposit-savings.processor.ts).
use kamorina.Base.{
  ℕ, ◌+◌, ◌≤◌, ◌≡◌, refl, ap, true, Option, none, some, List, [], ◌∷◌, arith, length, sum, map,
  Bool-cases, inl, inr,
}
use kamorina.Base.Int.{ℤ, pos, ◌+ℤ◌, int_laws, pos_part, neg_part}
use kamorina.Savings.Types.{SavingsAccount}
use kamorina.Repayment.Settlement.{PayrollContext}
use kamorina.Payroll.Types.{PayrollSettings}
use kamorina.Payroll.DepositSavings.{
  Collected, collect_all, collect_one, credit, is_running, is_complete,
}
use kamorina.Payroll.Months.{run_months, credit-saldo}
use kamorina.Deposit.Types.{DepositApplication}
use kamorina.Deposit.Dates.{LocalDate}
use kamorina.Deposit.Accepted.{collect-collected_amount}
use kamorina.Deposit.Change.Types.{DepositChangeRequest}
use kamorina.Deposit.Change.Approval.{change_deposit}

abbrev pub all_collected : List DepositApplication → ℕ
all_collected ds = sum (map (λ d. d.collected_amount) ds)

-- What an account has in voluntary savings; a member without one has nothing.
abbrev pub sukarela : Option SavingsAccount → ℤ
sukarela none = pos 0
sukarela (some a) = a.saldo_sukarela

-- The figures of a run on these deposits and this account.
abbrev pub IsBalanced : List DepositApplication → Option SavingsAccount → Collected → Type 0
IsBalanced ds o c =
    (all_collected c.deposits ≡ all_collected ds + c.total_amount)
    × (sukarela c.savings_account ≡ sukarela o +ℤ pos c.total_amount)
    × (sum (map (λ x. x.amount) c.details) ≡ c.total_amount)
    × (length c.details ≡ c.processed_count)
    × (length c.deposits ≡ length ds)

nothing_added : (z : ℤ) → z ≡ z +ℤ pos 0
nothing_added z = omega int_laws

added_twice : (z y x : ℤ) (a b : ℕ) → y ≡ z +ℤ pos a → x ≡ y +ℤ pos b → x ≡ z +ℤ pos (a + b)
added_twice z y x a b e f =
    omega (int_laws, ap pos_part e, ap neg_part e, ap pos_part f, ap neg_part f)

module _ (now : ℕ) (new_ids : ℕ → ℕ) (settings : PayrollSettings) (context : PayrollContext)
    (day : LocalDate) where
  collected_one-IsBalanced :
      (d : DepositApplication) (ds : List DepositApplication) (o : Option SavingsAccount)
      (later : Option SavingsAccount → Collected)
      → ((x : Option SavingsAccount) → IsBalanced ds x (later x))
      → IsBalanced (d ∷ ds) o (collect_one now (new_ids d.id) settings context day d o later)
  collected_one-IsBalanced d ds none later h =
      let (a, b, c, e, f) = h none in (omega arith, b, c, e, omega arith)
  collected_one-IsBalanced d ds (some acc) later h = elim (Bool-cases (is_complete d)) [
    | inl t ↦ let (a, b, c, e, f) = h (some acc) in rw t (omega arith, b, c, e, omega arith)
    | inr t ↦
        let acc' = credit now (new_ids d.id) settings context d.amount_value acc in
        let (a, b, c, e, f) = h (some acc') in
        let g = collect-collected_amount context day d in
        rw t (
          omega arith,
          added_twice acc.saldo_sukarela acc'.saldo_sukarela
              (sukarela (later (some acc')).savings_account) d.amount_value
              (later (some acc')).total_amount
              (credit-saldo now (new_ids d.id) settings context d.amount_value acc) b,
          omega arith,
          omega arith,
          omega arith,
        )
  ]

  -- A run adds what it reports, and nothing else: to the deposits' collected amounts, taken together,
  -- and to the voluntary savings of the member who owns them; the total is the sum of the details, of
  -- which there is one for each deposit that is counted, and no deposit is dropped.
  pub collect_all-IsBalanced :
      (ds : List DepositApplication) (o : Option SavingsAccount)
      → IsBalanced ds o (collect_all now new_ids settings context day ds o)
  unfolding collect_all
  collect_all-IsBalanced [] o = (omega arith, nothing_added (sukarela o), refl, refl, refl)
  collect_all-IsBalanced (d ∷ ds) o = elim (Bool-cases (is_running context d)) [
    | inl t ↦ rw t (
        collected_one-IsBalanced d ds o (collect_all now new_ids settings context day ds)
          (collect_all-IsBalanced ds))
    | inr t ↦
        let (a, b, c, e, f) = collect_all-IsBalanced ds o in
        rw t (omega arith, b, c, e, omega arith)
  ]

  -- A deposit of which as many months are paid as its tenor has is left as it is.
  full_untouched :
      (d : DepositApplication) (o : Option SavingsAccount)
      → is_complete d ≡ true
      → let c = collect_all now new_ids settings context day (d ∷ []) o in
        (c.deposits ≡ d ∷ []) × (c.savings_account ≡ o)
  unfolding collect_all
  full_untouched d none t = elim (Bool-cases (is_running context d)) [
    | inl u ↦ (rw u refl, rw u refl)
    | inr u ↦ (rw u refl, rw u refl)
  ]
  full_untouched d (some a) t = elim (Bool-cases (is_running context d)) [
    | inl u ↦ (rw u (rw t refl), rw u (rw t refl))
    | inr u ↦ (rw u refl, rw u refl)
  ]

changed-is_complete :
    (today : LocalDate) (r : DepositChangeRequest) (d : DepositApplication)
    → r.new_tenor_months ≤ d.installment_count
    → (is_complete (change_deposit today r d) ≡ true)
      × ((change_deposit today r d).status ≡ d.status)
unfolding change_deposit
changed-is_complete today r d h = (ground arith, refl)

full_stays :
    (now : ℕ) (new_ids : ℕ → ℕ) (settings : PayrollSettings)
    (runs : List (PayrollContext × LocalDate)) (d : DepositApplication) (o : Option SavingsAccount)
    → is_complete d ≡ true
    → run_months now new_ids settings runs (d ∷ []) o ≡ (d ∷ [], o)
unfolding run_months
full_stays now new_ids settings [] d o t = refl
full_stays now new_ids settings ((context, day) ∷ rest) d o t =
    let (same, kept) = full_untouched now new_ids settings context day d o t in
    rw same (rw kept (full_stays now new_ids settings rest d o t))

-- A change of the tenor that is approved when as many months are already paid leaves the deposit in
-- its status, and no run of the payroll ever moves it on: it is never completed, and nothing more is
-- collected.
pub change_deposit-overtaken :
    (now : ℕ) (new_ids : ℕ → ℕ) (settings : PayrollSettings)
    (runs : List (PayrollContext × LocalDate)) (today : LocalDate) (r : DepositChangeRequest)
    (d : DepositApplication) (o : Option SavingsAccount)
    → r.new_tenor_months ≤ d.installment_count
    → let changed = change_deposit today r d in
      (changed.status ≡ d.status)
      × (run_months now new_ids settings runs (changed ∷ []) o ≡ (changed ∷ [], o))
change_deposit-overtaken now new_ids settings runs today r d o h =
    let (full, same) = changed-is_complete today r d h in
    (same, full_stays now new_ids settings runs (change_deposit today r d) o full)
