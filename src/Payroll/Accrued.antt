-- ===== src/Payroll/Accrued.antt =====
-- What a run of backend/src/payroll/services/interest-calculator.processor.ts adds to the accounts.
use kamorina.Base.{
  is_some, ℕ, ◌+◌, ◌≡◌, refl, ap, ◌∙◌, Bool, true, Option, none, some, List, [], ◌∷◌, map, sum,
  length, find, arith, if◌then◌else◌, Bool-cases, Option-cases, inl, inr,
}
use kamorina.Base.Int.{ℤ, pos, ◌+ℤ◌, int_laws, pos_part, neg_part}
use kamorina.Savings.Types.{SavingsTransaction, SavingsAccount}
use kamorina.Repayment.Settlement.{PayrollContext}
use kamorina.Payroll.Types.{PayrollSettings, ProcessorResult, is_of_period, upsert, new_transaction}
use kamorina.Payroll.Interest.{
  AccountRow, total_balance, with_interest, credit_interest, add_interest, process_interest,
}

abbrev pub all_bunga : List AccountRow → ℤ
all_bunga [] = pos 0
all_bunga (row ∷ rows) = row.account.bunga_deposito +ℤ all_bunga rows

-- The savings of an account, which bear the interest.
abbrev pub savings : AccountRow → ℤ
savings row = total_balance row.account

abbrev pub IsAccrued : List AccountRow → ProcessorResult AccountRow → Type 0
IsAccrued rows result =
    (all_bunga result.rows ≡ all_bunga rows +ℤ pos result.total_amount)
    × (map savings result.rows ≡ map savings rows)
    × (sum (map (λ d. d.amount) result.details) ≡ result.total_amount)
    × (length result.details ≡ result.processed_count)

with_none : (b x y : ℤ) (total : ℕ) → x ≡ y +ℤ pos total → b +ℤ x ≡ b +ℤ y +ℤ pos total
with_none b x y total e = omega (int_laws, ap pos_part e, ap neg_part e)

with_some :
    (b x y : ℤ) (interest total : ℕ)
    → x ≡ y +ℤ pos total
    → b +ℤ pos interest +ℤ x ≡ b +ℤ y +ℤ pos (interest + total)
with_some b x y interest total e = omega (int_laws, ap pos_part e, ap neg_part e)

module _ (now : ℕ) (settings : PayrollSettings) (context : PayrollContext) where
  add_interest-IsAccrued :
      (new_id : ℕ) (row : AccountRow) (rows : List AccountRow) (o : Option ℕ)
      (rest : ProcessorResult AccountRow)
      → IsAccrued rows rest
      → IsAccrued (row ∷ rows) (add_interest now new_id settings context row o rest)
  unfolding credit_interest
  add_interest-IsAccrued new_id row rows none rest (a, b, c, d) =
      (with_none _ _ _ _ a, ap (λ l. savings row ∷ l) b, c, d)
  add_interest-IsAccrued new_id row rows (some interest) rest (a, b, c, d) =
      (with_some _ _ _ _ _ a, ap (λ l. savings row ∷ l) b, omega (arith, c), omega (arith, d))

  -- A run adds to the interest of the accounts, taken together, exactly the total that it reports,
  -- which is the sum of the details that it lists, one for each account that it counts; it drops no
  -- account, keeps their order, and leaves the savings that bear the interest as they are.
  pub process_interest-IsAccrued :
      (new_ids : ℕ → ℕ) (rows : List AccountRow)
      → IsAccrued rows (process_interest now new_ids settings context rows)
  unfolding process_interest
  process_interest-IsAccrued new_ids [] = (omega int_laws, refl, refl, refl)
  process_interest-IsAccrued new_ids (row ∷ rows) =
      let rest = process_interest now new_ids settings context rows in
      let ih = process_interest-IsAccrued new_ids rows in
      elim (Bool-cases row.member_verified) [
        | inl t ↦ simp t (add_interest-IsAccrued (new_ids row.user_id) row rows _ rest ih)
        | inr t ↦ simp t (add_interest-IsAccrued (new_ids row.user_id) row rows none rest ih)
      ]

-- An account's transaction of a period.
abbrev pub is_of : ℕ → SavingsTransaction → Bool
is_of period t = is_of_period period t.payroll_period_id

-- What an upsert leaves of the period: the updated transaction, or the new one if there is none.
find-upsert :
    (period : ℕ) (update : SavingsTransaction → SavingsTransaction) (create : SavingsTransaction)
    (ts : List SavingsTransaction)
    → ((t : SavingsTransaction) → (update t).payroll_period_id ≡ t.payroll_period_id)
    → is_of period create ≡ true
    → find (is_of period) (upsert period update create ts)
      ≡ some (elim (find (is_of period) ts) [ some t ↦ update t | none ↦ create ])
find-upsert period update create [] keeps new = rw new refl
find-upsert period update create (t ∷ ts) keeps new = elim (Bool-cases (is_of period t)) [
  | inl e ↦
      let k : is_of period (update t) ≡ true = ap (is_of_period period) (keeps t) ∙ e in
      simp (e, k) refl
  | inr e ↦ simp e (find-upsert period update create ts keeps new)
]

-- A transaction of the period, if there is one, with an account that has this interest.
abbrev pub IsCredited : ℕ → ℕ → SavingsAccount → SavingsAccount → Type 0
IsCredited period interest before after =
    (t : SavingsTransaction) × (find (is_of period) after.transactions ≡ some t)
    × (t.bunga ≡ pos interest)
    × (t.jumlah_bunga ≡ (
        if is_some (find (is_of period) before.transactions)
        then after.bunga_deposito
        else pos interest))

-- The period's transaction after the credit shows the interest of the month, and as the total the
-- account's interest if the account had a transaction of the period; if not, it shows the month's
-- interest as the total, whatever the account has.
pub credit_interest-IsCredited :
    (now new_id : ℕ) (settings : PayrollSettings) (context : PayrollContext) (interest : ℕ)
    (account : SavingsAccount)
    → IsCredited context.payroll_period_id interest account
        (credit_interest now new_id settings context interest account)
unfolding credit_interest
credit_interest-IsCredited now new_id settings context interest account =
    let period = context.payroll_period_id in
    let total = account.bunga_deposito +ℤ pos interest in
    let create =
      with_interest (pos interest) interest (new_transaction now new_id period settings) in
    let written =
      find-upsert period (with_interest total interest) create account.transactions (λ t. refl)
        (ground arith) in
    elim (Option-cases (find (is_of period) account.transactions)) [
      | inl e ↦ (create, written ∙ rw e refl, refl, rw e refl)
      | inr (t, e) ↦ (with_interest total interest t, written ∙ rw e refl, refl, rw e refl)
    ]
