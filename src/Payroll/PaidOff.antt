-- ===== src/Payroll/PaidOff.antt =====
-- What two payroll runs leave of a new member's entrance fee.
use kamorina.Base.{
  ℕ, ◌+◌, ◌-◌, ◌/◌, ◌%◌, ◌<◌, ◌≤◌, ◌≡◌, ◌⊎◌, refl, true, false, some, List, [], ◌∷◌, leb, All, inl,
  inr, arith,
}
use kamorina.Savings.Types.{SavingsAccount}
use kamorina.Repayment.Settlement.{PayrollContext}
use kamorina.Payroll.Types.{PayrollSettings, to_column}
use kamorina.Payroll.Collected.{pokok}
use kamorina.Membership.Types.{MemberApplication, approved}
use kamorina.Payroll.MembershipFee.{
  Member, calculate_deduction, is_pending, pay_application, pay_account, process_fees,
}

-- A new member who still owes the whole fee, and is due in a run that ends at `cutoff`. The fee
-- counts half hundredths.
pub record IsOpen (cutoff : ℕ) (m : Member) : Type 0 where
  pub account : SavingsAccount
  pub has_account : m.savings_account ≡ some account
  pub is_empty : account.saldo_pokok ≡ 0
  pub is_approved : m.application.status ≡ approved
  pub approved_at : ℕ
  pub has_approved_at : m.application.approved_at ≡ some approved_at
  pub is_in_time : approved_at ≤ cutoff
  pub is_unsettled : m.application.is_paid_off ≡ false
  pub plan : (m.application.installment_plan ≡ 1) ⊎ (m.application.installment_plan ≡ 2)
  pub is_charged : 0 < m.application.entrance_fee
  pub has_halves : m.application.entrance_fee % 4 ≡ 0
  pub is_unpaid : m.application.paid_amount ≡ 0
  pub remains : m.application.remaining_amount ≡ m.application.entrance_fee

abbrev pub IsPaidOff : Member → Type 0
IsPaidOff m =
    let app = m.application in
    (app.is_paid_off ≡ true)
    × (app.remaining_amount ≡ 0)
    × (app.paid_amount ≡ app.entrance_fee)
    × (pokok m.savings_account ≡ app.entrance_fee)

module _ (now : ℕ) (new_ids : ℕ → ℕ) (settings : PayrollSettings) (context : PayrollContext) where
  abbrev fee_paid : Member → SavingsAccount → Member
  fee_paid m account =
      let deduction = calculate_deduction m.application in
      record {
        application = pay_application deduction m.application;
        savings_account =
            some (pay_account now (new_ids m.application.id) settings context deduction account);
      }

  process_fees-paid :
      (m : Member) (ms : List Member) (account : SavingsAccount)
      → is_pending context m.application ≡ true
      → m.savings_account ≡ some account
      → leb (calculate_deduction m.application) 0 ≡ false
      → (process_fees now new_ids settings context (m ∷ ms)).rows
        ≡ fee_paid m account ∷ (process_fees now new_ids settings context ms).rows
  unfolding process_fees
  process_fees-paid m ms account t e f = rw t (rw e (rw f refl))

  process_fees-nil : (process_fees now new_ids settings context []).rows ≡ []
  unfolding process_fees
  process_fees-nil = refl

  process_fees-skipped :
      (m : Member) (ms : List Member)
      → is_pending context m.application ≡ false
      → (process_fees now new_ids settings context (m ∷ ms)).rows
        ≡ m ∷ (process_fees now new_ids settings context ms).rows
  unfolding process_fees
  process_fees-skipped m ms f = rw f refl

  -- A pending member whose plan is 1, or who has paid a part of the fee, pays what remains.
  pays_rest :
      (m : Member) (ms : List Member) (account : SavingsAccount)
      → is_pending context m.application ≡ true
      → m.savings_account ≡ some account
      → 0 < m.application.remaining_amount
      → calculate_deduction m.application ≡ m.application.remaining_amount
      → (process_fees now new_ids settings context (m ∷ ms)).rows
        ≡ fee_paid m account ∷ (process_fees now new_ids settings context ms).rows
  pays_rest m ms account t e p d = process_fees-paid m ms account t e (ground arith)

pending :
    (context : PayrollContext) (m : Member) (at : ℕ)
    → m.application.status ≡ approved
    → m.application.approved_at ≡ some at
    → at ≤ context.cutoff_end
    → m.application.is_paid_off ≡ false
    → is_pending context m.application ≡ true
pending context m at s e l p = rw s (rw e (rw p (ground arith)))

-- The halves of a fee that has them in whole hundredths.
halves :
    (fee : ℕ)
    → fee % 4 ≡ 0
    → (to_column (0 + fee / 2) ≡ fee / 2)
      × (to_column (fee - fee / 2) ≡ fee / 2)
      × (fee / 2 + fee / 2 ≡ fee)
      × (to_column (0 + fee) ≡ fee)
halves fee h = (omega arith, omega arith, omega arith, omega arith)

full_deduction :
    (app : MemberApplication)
    → app.installment_plan ≡ 1
    → calculate_deduction app ≡ app.remaining_amount
unfolding calculate_deduction
full_deduction app e = ground arith

first_deduction :
    (app : MemberApplication)
    → app.installment_plan ≡ 2
    → app.paid_amount ≡ 0
    → calculate_deduction app ≡ app.entrance_fee / 2
unfolding calculate_deduction
first_deduction app e p = ground arith

second_deduction :
    (app : MemberApplication)
    → app.installment_plan ≡ 2
    → 0 < app.paid_amount
    → calculate_deduction app ≡ app.remaining_amount
unfolding calculate_deduction
second_deduction app e p = ground arith

-- A payment of all that remains.
pays_rest-IsPaidOff :
    (now : ℕ) (new_ids : ℕ → ℕ) (settings : PayrollSettings) (context : PayrollContext) (m : Member)
    (account : SavingsAccount)
    → calculate_deduction m.application ≡ m.application.remaining_amount
    → to_column (m.application.paid_amount + m.application.remaining_amount)
      ≡ m.application.entrance_fee
    → account.saldo_pokok + m.application.remaining_amount ≡ m.application.entrance_fee
    → IsPaidOff (fee_paid now new_ids settings context m account)
pays_rest-IsPaidOff now new_ids settings context m account e p q =
    rw e (ground arith, omega arith, p, q)

paid_off-skipped :
    (context : PayrollContext) (m : Member) → IsPaidOff m → is_pending context m.application ≡ false
paid_off-skipped context m (a, b, p, q) = ground arith

module _ (now now' : ℕ) (new_ids new_ids' : ℕ → ℕ) (settings settings' : PayrollSettings)
    (context context' : PayrollContext) (later : context.cutoff_end ≤ context'.cutoff_end) where
  abbrev pub first_run : List Member → List Member
  first_run ms = (process_fees now new_ids settings context ms).rows

  abbrev pub second_run : List Member → List Member
  second_run ms = (process_fees now' new_ids' settings' context' ms).rows

  abbrev paid_first : Member → SavingsAccount → Member
  paid_first = fee_paid now new_ids settings context

  -- Two runs, the second with no earlier cutoff, pay off new members, in either plan, who were
  -- approved by the first one's cutoff, owe the whole of a fee that is positive and has halves of
  -- whole hundredths, and have an account without principal savings: nothing remains, the amount
  -- paid is the fee, and so are the principal savings.
  pub process_fees_twice-IsPaidOff :
      (ms : List Member)
      → All (IsOpen context.cutoff_end) ms
      → All IsPaidOff (second_run (first_run ms))
  process_fees_twice-IsPaidOff [] h =
      rw (process_fees-nil now new_ids settings context)
        (rw (process_fees-nil now' new_ids' settings' context') tt)
  process_fees_twice-IsPaidOff (m ∷ ms) (o, os) =
      let rest = process_fees_twice-IsPaidOff ms os in
      let t =
        pending context m o.approved_at o.is_approved o.has_approved_at o.is_in_time
          o.is_unsettled in
      let app = m.application in
      let once = paid_first m o.account in
      let (to_half, to_rest, whole, to_fee) = halves app.entrance_fee o.has_halves in
      elim o.plan [
        | inl p ↦
            let d : calculate_deduction app ≡ app.remaining_amount = full_deduction app p in
            let f : leb (calculate_deduction app) 0 ≡ false = rw (d, o.remains) (ground arith) in
            let w : IsPaidOff once =
              pays_rest-IsPaidOff now new_ids settings context m o.account d
                (rw (o.is_unpaid, o.remains) to_fee) (rw (o.is_empty, o.remains) (omega arith)) in
            rw (process_fees-paid now new_ids settings context m ms o.account t o.has_account f) (
              rw
                (process_fees-skipped now' new_ids' settings' context' once (first_run ms)
                  (paid_off-skipped context' once w))
                (w, rest))
        | inr p ↦
            let d : calculate_deduction app ≡ app.entrance_fee / 2 =
              first_deduction app p o.is_unpaid in
            let f : leb (calculate_deduction app) 0 ≡ false = rw d (ground arith) in
            let paid : once.application.paid_amount ≡ app.entrance_fee / 2 =
              rw (d, o.is_unpaid) to_half in
            let remaining : once.application.remaining_amount ≡ app.entrance_fee / 2 =
              rw (d, o.remains) to_rest in
            let off : once.application.is_paid_off ≡ false = rw (d, o.remains) (ground arith) in
            let d' : calculate_deduction once.application ≡ once.application.remaining_amount =
              second_deduction once.application p (rw paid (omega arith)) in
            let account' =
              pay_account now (new_ids app.id) settings context (calculate_deduction app)
                o.account in
            let w : IsPaidOff (fee_paid now' new_ids' settings' context' once account') =
              pays_rest-IsPaidOff now' new_ids' settings' context' once account' d'
                (rw (paid, remaining, whole) (omega arith))
                (rw (remaining, d, o.is_empty) (omega arith)) in
            let t' =
              pending context' once o.approved_at o.is_approved o.has_approved_at (omega arith)
                off in
            let f' : leb (calculate_deduction once.application) 0 ≡ false =
              rw (d', remaining) (ground arith) in
            rw (process_fees-paid now new_ids settings context m ms o.account t o.has_account f) (
              rw
                (process_fees-paid now' new_ids' settings' context' once (first_run ms) account' t'
                  refl f')
                (w, rest))
      ]
