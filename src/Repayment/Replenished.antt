-- ===== src/Repayment/Replenished.antt =====
-- What a payroll run on repayments brings the social fund.
use kamorina.Base.{
  ℕ, String, ◌+◌, ◌≡◌, refl, false, Option, none, some, [], ◌∷◌, is_some, sym, ap, ◌∙◌, map, sum,
  filter, if◌then◌else◌, Bool-cases, ◌⊎◌, inl, inr,
}
use kamorina.Base.Int.{ℤ, pos, ◌+ℤ◌, int_laws, pos_part, neg_part}
use kamorina.SocialFund.Types.{SocialFund, SocialFundBalance, money}
use kamorina.SocialFund.Balance.{signed_amount, total-append}
use kamorina.SocialFund.Solvency.{IsSolvent}
use kamorina.Loan.Types.{LoanApplication, is_excess}
use kamorina.Repayment.Types.{LoanRepayment}
use kamorina.Repayment.Settlement.{
  PayrollContext, Rows, replenish_found, replenish_social_fund, replenish_for, is_due, process_rows,
  process,
}

added : (x : ℤ) (a b : ℕ) (y z : ℤ) → y ≡ x +ℤ pos a → z ≡ y +ℤ pos b → z ≡ x +ℤ pos (a + b)
added x a b y z p q = rw (q, p) (omega int_laws)

-- The fund's money after a payroll run, and whether it has a balance.
abbrev pub IsReplenished : ℕ → SocialFund → SocialFund → Type 0
IsReplenished amount fund fund' =
    (is_some fund'.balance ≡ is_some fund.balance)
    × ((is_some fund.balance ≡ false) ⊎ (money fund'.balance ≡ money fund.balance +ℤ pos amount))
    × IsSolvent fund'

pub replenish_found-IsReplenished :
    (description : String) (now id amount : ℕ) (fund : SocialFund) (o : Option SocialFundBalance)
    → fund.balance ≡ o
    → IsSolvent fund
    → IsReplenished amount fund (replenish_found description now id amount fund o)
unfolding signed_amount
replenish_found-IsReplenished description now id amount fund none e s = (refl, inl (rw e), s)
replenish_found-IsReplenished description now id amount fund (some b) e (t, p) =
    let m : money fund.balance ≡ b.current_balance = rw e in
    (
      rw e,
      inr (rw m),
      (
        (rw (total-append fund.transactions _, ← t, m) (omega int_laws)),
        omega (int_laws, p, ap pos_part m, ap neg_part m),
      ),
    )

pub then-IsReplenished :
    (a b : ℕ) (f g h : SocialFund)
    → IsReplenished a f g
    → IsReplenished b g h
    → IsReplenished (a + b) f h
then-IsReplenished a b f g h (i, m, _) (j, n, s) = (
  j ∙ i,
  elim m [
    | inl e ↦ inl e
    | inr p ↦ elim n [ inl e ↦ inl (sym i ∙ e) | inr q ↦ inr (added (money f.balance) a b _ _ p q) ]
  ],
  s,
)

module _ (context : PayrollContext) (now : ℕ) (new_ids : ℕ → ℕ) where
  -- What the due repayments of excess loans bring to the fund.
  abbrev pub excess_amount : LoanRepayment × LoanApplication → ℕ
  excess_amount (r, loan) = if is_excess loan.loan_type then r.total_amount else 0

  replenish_for-IsReplenished :
      (row : LoanRepayment × LoanApplication) (fund : SocialFund)
      → IsSolvent fund
      → IsReplenished (excess_amount row) fund (replenish_for now new_ids row fund)
  unfolding replenish_social_fund
  replenish_for-IsReplenished (r, loan) fund s = elim (Bool-cases (is_excess loan.loan_type)) [
    | inl e ↦
        rw e (
          replenish_found-IsReplenished _ now (new_ids r.id) r.total_amount fund fund.balance refl
            s)
    | inr e ↦ rw e (refl, inr (omega int_laws), s)
  ]

  process_rows-IsReplenished :
      (rows : Rows) (fund : SocialFund)
      → IsSolvent fund
      → IsReplenished
          (sum (map excess_amount rows))
          fund
          (process_rows context now new_ids rows fund).fund
  unfolding process_rows
  process_rows-IsReplenished [] fund s = (refl, inr (omega int_laws), s)
  process_rows-IsReplenished (row ∷ rows) fund s =
      let first = replenish_for-IsReplenished row fund s in
      then-IsReplenished (excess_amount row) (sum (map excess_amount rows)) fund
        (replenish_for now new_ids row fund) _ first
        (process_rows-IsReplenished rows (replenish_for now new_ids row fund) first.2)

  -- A payroll run on repayments keeps the social fund solvent and brings it, if it has a balance,
  -- the amounts of the due repayments of excess loans and nothing else.
  pub process-IsReplenished :
      (rows : Rows) (fund : SocialFund)
      → IsSolvent fund
      → IsReplenished
          (sum (map excess_amount (filter (is_due context) rows)))
          fund
          (process context now new_ids rows fund).fund
  unfolding process
  process-IsReplenished rows fund s =
      process_rows-IsReplenished (filter (is_due context) rows) fund s
