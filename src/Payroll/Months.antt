-- ===== src/Payroll/Months.antt =====
-- A deposit through the months: what the runs of the payroll on it
-- (backend/src/payroll/services/deposit-savings.processor.ts) collect until its tenor is over.
use kamorina.Base.{
  ℕ, ◌+◌, ◌*◌, ◌≤◌, ◌<◌, ◌≡◌, refl, ap, subst, true, false, Option, some, List, [], ◌∷◌, arith,
  length, All, leb, ltb, ◌==◌, if◌then◌else◌, Bool-cases, inl, inr,
}
use kamorina.Base.Int.{ℤ, pos, ◌+ℤ◌, int_laws, pos_part, neg_part}
use kamorina.Savings.Types.{SavingsAccount}
use kamorina.Repayment.Settlement.{PayrollContext}
use kamorina.Payroll.Types.{PayrollSettings}
use kamorina.Payroll.DepositSavings.{collect_all, credit, is_running, is_complete, collect}
use kamorina.Deposit.Types.{DepositStatus, DepositApplication}
use kamorina.Deposit.Dates.{LocalDate}
use kamorina.Deposit.Accepted.{collect-collected_amount, IsCollected}

-- The status of a deposit of which this many months are paid.
abbrev pub status_at : ℕ → ℕ → DepositStatus
status_at tenor months =
    if leb tenor months
    then DepositStatus.completed
    else if months == 0
    then DepositStatus.approved
    else DepositStatus.active

-- A deposit of this amount and tenor, approved at `at`, of which so many months are paid.
pub record IsPaid (amount tenor at months : ℕ) (d : DepositApplication) : Type 0 where
  pub amount_value : d.amount_value ≡ amount
  pub tenor_months : d.tenor_months ≡ tenor
  pub approved_at : d.approved_at ≡ some at
  pub installment_count : d.installment_count ≡ months
  pub collected_amount : d.collected_amount ≡ amount * months
  pub status : d.status ≡ status_at tenor months

abbrev pub min : ℕ → ℕ → ℕ
min a b = if leb a b then a else b

module _ (amount tenor at : ℕ) where
  -- The collection of a month that is still open.
  IsPaid-collect :
      (months : ℕ) (context : PayrollContext) (day : LocalDate) (d : DepositApplication)
      → months < tenor
      → IsPaid amount tenor at months d
      → IsPaid amount tenor at (months + 1) (collect context day d)
  unfolding collect
  IsPaid-collect months context day d lt p = record {
    amount_value = p.amount_value;
    tenor_months = p.tenor_months;
    approved_at = p.approved_at;
    installment_count = omega arith;
    collected_amount = rw (p.collected_amount, p.amount_value) (grind arith);
    status = ground arith;
  }

  paid-running :
      (months : ℕ) (context : PayrollContext) (d : DepositApplication)
      → months < tenor
      → at ≤ context.cutoff_end
      → IsPaid amount tenor at months d
      → (is_running context d ≡ true) × (is_complete d ≡ false)
  paid-running months context d lt le p = (rw p.approved_at (ground arith), ground arith)

  paid-finished :
      (context : PayrollContext) (d : DepositApplication)
      → IsPaid amount tenor at tenor d
      → is_running context d ≡ false
  paid-finished context d p = ground arith

-- The runs of several months, one after the other, on deposits that share an account.
unfoldable pub run_months :
    ℕ
    → (ℕ → ℕ)
    → PayrollSettings
    → List (PayrollContext × LocalDate)
    → List DepositApplication
    → Option SavingsAccount
    → List DepositApplication × Option SavingsAccount
run_months now new_ids settings [] ds account = (ds, account)
run_months now new_ids settings ((context, day) ∷ rest) ds account =
    let c = collect_all now new_ids settings context day ds account in
    run_months now new_ids settings rest c.deposits c.savings_account

module _ (now : ℕ) (new_ids : ℕ → ℕ) (settings : PayrollSettings) (day : LocalDate)
    (context : PayrollContext) (d : DepositApplication) (a : SavingsAccount) where
  due :
      is_running context d ≡ true
      → is_complete d ≡ false
      → IsCollected now new_ids settings context day d a
          (collect_all now new_ids settings context day (d ∷ []) (some a))
  unfolding collect_all
  due t u = record {
    is_due = t;
    is_unfinished = u;
    collected = rw t (rw u refl);
    credited = rw t (rw u refl);
  }

  not_due :
      is_running context d ≡ false
      → let c = collect_all now new_ids settings context day (d ∷ []) (some a) in
        (c.deposits ≡ d ∷ []) × (c.savings_account ≡ some a)
  unfolding collect_all
  not_due t = (rw t refl, rw t refl)

more_saldo :
    (before after later : ℤ) (amount c c' c'' : ℕ)
    → after ≡ before +ℤ pos amount
    → c' ≡ c + amount
    → later +ℤ pos c' ≡ after +ℤ pos c''
    → later +ℤ pos c ≡ before +ℤ pos c''
more_saldo before after later amount c c' c'' e f h =
    omega (int_laws, ap pos_part e, ap neg_part e, f, ap pos_part h, ap neg_part h)

pub credit-saldo :
    (now new_id : ℕ) (settings : PayrollSettings) (context : PayrollContext) (amount : ℕ)
    (a : SavingsAccount)
    → (credit now new_id settings context amount a).saldo_sukarela ≡ a.saldo_sukarela +ℤ pos amount
unfolding credit
credit-saldo now new_id settings context amount a = refl

-- The deposit and the account after some months, from the deposit and the account before.
abbrev pub IsCollectedTo :
    ℕ
    → ℕ
    → ℕ
    → ℕ
    → DepositApplication
    → SavingsAccount
    → List DepositApplication × Option SavingsAccount
    → Type 0
IsCollectedTo amount tenor at months d a result =
    (d' : DepositApplication) × (a' : SavingsAccount) × (result ≡ (d' ∷ [], some a'))
    × IsPaid amount tenor at months d'
    × (a'.saldo_sukarela +ℤ pos d.collected_amount ≡ a.saldo_sukarela +ℤ pos d'.collected_amount)

module _ (now : ℕ) (new_ids : ℕ → ℕ) (settings : PayrollSettings) (amount tenor at : ℕ) where
  -- The runs of the payroll on a deposit, of which some months are paid, with cutoffs on or after its
  -- approval: each collects one more month until the tenor is over, when the deposit is completed,
  -- and later ones collect nothing; the voluntary savings grow by what is collected.
  pub run_months-IsPaid :
      (runs : List (PayrollContext × LocalDate)) (months : ℕ) (d : DepositApplication)
      (a : SavingsAccount)
      → IsPaid amount tenor at months d
      → months ≤ tenor
      → All (λ run. at ≤ run.0.cutoff_end) runs
      → IsCollectedTo amount tenor at
          (min (months + length runs) tenor)
          d
          a
          (run_months now new_ids settings runs (d ∷ []) (some a))
  unfolding run_months
  run_months-IsPaid [] months d a p le h =
      (d, a, refl, subst (λ k. IsPaid amount tenor at k d) (ground arith) p, refl)
  run_months-IsPaid ((context, day) ∷ rest) months d a p le h =
      elim (Bool-cases (ltb months tenor)) [
        | inl t ↦
            let (running, unfinished) =
              paid-running amount tenor at months context d (ground arith) h.0 p in
            let w = due now new_ids settings day context d a running unfinished in
            let a1 = credit now (new_ids d.id) settings context d.amount_value a in
            let (d', a', e, p', s) =
              run_months-IsPaid rest (months + 1) (collect context day d) a1
                (IsPaid-collect amount tenor at months context day d (ground arith) p)
                (ground arith) h.1 in
            (
              d',
              a',
              rw (w.collected) (rw (w.credited) e),
              subst (λ k. IsPaid amount tenor at k d') (ap (λ k. min k tenor) (omega arith)) p',
              more_saldo a.saldo_sukarela a1.saldo_sukarela a'.saldo_sukarela d.amount_value
                  d.collected_amount (collect context day d).collected_amount d'.collected_amount
                  (credit-saldo now (new_ids d.id) settings context d.amount_value a)
                  (collect-collected_amount context day d) s,
            )
        | inr t ↦
            let full : months ≡ tenor = ground arith in
            let finished =
              paid-finished amount tenor at context d
                (subst (λ k. IsPaid amount tenor at k d) full p) in
            let (same, kept) = not_due now new_ids settings day context d a finished in
            let (d', a', e, p', s) = run_months-IsPaid rest months d a p le h.1 in
            (
              d',
              a',
              rw same (rw kept e),
              subst (λ k. IsPaid amount tenor at k d') (ground arith) p',
              s,
            )
      ]
