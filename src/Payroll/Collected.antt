-- ===== src/Payroll/Collected.antt =====
-- What a payroll run on the fees collects, and what it adds to the accounts.
use kamorina.Base.{
  ℕ, ◌+◌, ◌≡◌, refl, sym, ap, Option, none, some, List, [], ◌∷◌, leb, map, sum, length, arith,
  Bool-cases, inl, inr,
}
use kamorina.Savings.Types.{SavingsAccount}
use kamorina.Repayment.Settlement.{PayrollContext}
use kamorina.Payroll.Types.{PayrollSettings, ProcessorResult}
use kamorina.Payroll.MembershipFee.{
  Member, at_account, calculate_deduction, is_pending, process_fees,
}
use kamorina.Payroll.MandatorySavings.{User, collect_from, pay_monthly_fee, process_monthly_fees}

abbrev pub pokok : Option SavingsAccount → ℕ
pokok none = 0
pokok (some account) = account.saldo_pokok

abbrev pub wajib : Option SavingsAccount → ℕ
wajib none = 0
wajib (some account) = account.saldo_wajib

abbrev pub all_pokok : List Member → ℕ
all_pokok members = sum (map (λ m. pokok m.savings_account) members)

abbrev pub all_wajib : List User → ℕ
all_wajib users = sum (map (λ u. wajib u.savings_account) users)

-- The figures of a run, of rows that had `before` on their accounts and now have `after`.
abbrev pub Balanced : {Row : Type 0} → ℕ → ℕ → List Row → ProcessorResult Row → Type 0
Balanced before after rows result =
    (after ≡ before + result.total_amount)
    × (sum (map (λ d. d.amount) result.details) ≡ result.total_amount)
    × (length result.details ≡ result.processed_count)
    × (length result.rows ≡ length rows)

at_account-Balanced :
    (now new_id : ℕ) (settings : PayrollSettings) (context : PayrollContext) (m : Member)
    (ms : List Member) (o : Option SavingsAccount) (rest : ProcessorResult Member)
    → o ≡ m.savings_account
    → Balanced (all_pokok ms) (all_pokok rest.rows) ms rest
    → let r = at_account now new_id settings context m o rest in
      Balanced (all_pokok (m ∷ ms)) (all_pokok r.rows) (m ∷ ms) r
at_account-Balanced now new_id settings context m ms none rest e (a, b, c, d) =
    (omega arith, b, c, omega arith)
at_account-Balanced now new_id settings context m ms (some account) rest e (a, b, c, d) =
    let p : pokok m.savings_account ≡ account.saldo_pokok = ap pokok (sym e) in
    elim (Bool-cases (leb (calculate_deduction m.application) 0)) [
      | inl t ↦ rw t (omega arith, b, c, omega arith)
      | inr f ↦ rw f (omega arith, omega arith, omega arith, omega arith)
    ]

-- A run on the entrance fees adds to the members' principal savings, taken together, exactly the
-- total that it reports, which is the sum of the details that it lists; it lists one detail for
-- each member that it counts, and drops no member.
pub process_fees-Balanced :
    (now : ℕ) (new_ids : ℕ → ℕ) (settings : PayrollSettings) (context : PayrollContext)
    (members : List Member)
    → let result = process_fees now new_ids settings context members in
      Balanced (all_pokok members) (all_pokok result.rows) members result
unfolding process_fees
process_fees-Balanced now new_ids settings context [] = (refl, refl, refl, refl)
process_fees-Balanced now new_ids settings context (m ∷ ms) =
    let rest = process_fees now new_ids settings context ms in
    let (a, b, c, d) = process_fees-Balanced now new_ids settings context ms in
    elim (Bool-cases (is_pending context m.application)) [
      | inl t ↦ rw t (
          at_account-Balanced now (new_ids m.application.id) settings context m ms m.savings_account
            rest refl (a, b, c, d))
      | inr f ↦ rw f (omega arith, b, c, omega arith)
    ]

collect_from-Balanced :
    (now new_id : ℕ) (settings : PayrollSettings) (context : PayrollContext) (u : User)
    (us : List User) (o : Option SavingsAccount) (rest : ProcessorResult User)
    → o ≡ u.savings_account
    → Balanced (all_wajib us) (all_wajib rest.rows) us rest
    → let r = collect_from now new_id settings context u o rest in
      Balanced (all_wajib (u ∷ us)) (all_wajib r.rows) (u ∷ us) r
unfolding pay_monthly_fee
collect_from-Balanced now new_id settings context u us none rest e (a, b, c, d) =
    (omega arith, b, c, omega arith)
collect_from-Balanced now new_id settings context u us (some account) rest e (a, b, c, d) =
    let p : wajib u.savings_account ≡ account.saldo_wajib = ap wajib (sym e) in
    (omega arith, omega arith, omega arith, omega arith)

-- A run on the monthly fees adds to the members' mandatory savings, taken together, exactly the
-- total that it reports, which is the sum of the details that it lists; it lists one detail for
-- each member that it counts, and drops no member.
pub process_monthly_fees-Balanced :
    (now : ℕ) (new_ids : ℕ → ℕ) (settings : PayrollSettings) (context : PayrollContext)
    (users : List User)
    → let result = process_monthly_fees now new_ids settings context users in
      Balanced (all_wajib users) (all_wajib result.rows) users result
unfolding process_monthly_fees
process_monthly_fees-Balanced now new_ids settings context [] = (refl, refl, refl, refl)
process_monthly_fees-Balanced now new_ids settings context (u ∷ us) =
    let rest = process_monthly_fees now new_ids settings context us in
    let (a, b, c, d) = process_monthly_fees-Balanced now new_ids settings context us in
    elim (Bool-cases u.member_verified) [
      | inl t ↦ simp t (
          collect_from-Balanced now (new_ids u.id) settings context u us u.savings_account rest refl
            (a, b, c, d))
      | inr f ↦ simp f (omega arith, b, c, omega arith)
    ]
