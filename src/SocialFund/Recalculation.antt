-- ===== src/SocialFund/Recalculation.antt =====
-- When `recalculateBalancesAfter` leaves a right ledger: its loop takes a santunan off and adds
-- everything else, also the disbursement of an excess loan, which took money out.
use kamorina.Base.{
  ℕ, ◌≡◌, ap, ◌↔◌, ◌⊎◌, inl, inr, Bool-cases, Bool, true, false, List, [], ◌∷◌, arith, All,
}
use kamorina.Base.Int.{ℤ, pos, ◌+ℤ◌, ◌-ℤ◌, pos_part, neg_part, int_laws}
use kamorina.SocialFund.Types.{
  SocialFundTransactionType, excess_loan_disbursement, SocialFundTransaction,
}
use kamorina.SocialFund.Rows.{next_running_balance, rebalance}
use kamorina.SocialFund.Balance.{signed_amount}

-- Every row's `balanceAfter` is the balance before it with the row's money moved.
abbrev pub IsLedger : ℤ → List SocialFundTransaction → Type 0
IsLedger running [] = Unit
IsLedger running (t ∷ ts) =
    (t.balance_after ≡ running +ℤ signed_amount t) × IsLedger t.balance_after ts

abbrev pub is_disbursement : SocialFundTransactionType → Bool
is_disbursement excess_loan_disbursement = true
is_disbursement _ = false

-- A row that is no disbursement, or one of nothing.
abbrev pub IsNoDisbursement : SocialFundTransaction → Type 0
IsNoDisbursement t = (is_disbursement t.kind ≡ false) ⊎ (t.amount ≡ 0)

minus_eq : (a : ℤ) (n : ℕ) → a -ℤ pos n ≡ a +ℤ (pos 0 -ℤ pos n)
minus_eq a n = omega int_laws

plus_eq_minus : (a : ℤ) (n : ℕ) → n ≡ 0 → a +ℤ pos n ≡ a +ℤ (pos 0 -ℤ pos n)
plus_eq_minus a n e = omega int_laws

zero_of_plus_eq_minus : (a : ℤ) (n : ℕ) → a +ℤ pos n ≡ a +ℤ (pos 0 -ℤ pos n) → n ≡ 0
zero_of_plus_eq_minus a n e = omega (int_laws, ap pos_part e, ap neg_part e)

next_running_balance_right :
    (running : ℤ) (t : SocialFundTransaction)
    → IsNoDisbursement t
    → next_running_balance running t ≡ running +ℤ signed_amount t
unfolding next_running_balance signed_amount
next_running_balance_right running t (inl h) = ground (arith, minus_eq running t.amount)
next_running_balance_right running t (inr h) =
    ground (arith, minus_eq running t.amount, plus_eq_minus running t.amount h)

next_running_balance_needs :
    (running : ℤ) (t : SocialFundTransaction)
    → next_running_balance running t ≡ running +ℤ signed_amount t
    → IsNoDisbursement t
unfolding next_running_balance signed_amount
next_running_balance_needs running t e = elim (Bool-cases (is_disbursement t.kind)) [
  | inl d ↦ inr (zero_of_plus_eq_minus running t.amount (ground arith))
  | inr d ↦ inl d
]

-- The recalculated rows are a right ledger exactly if none of them is the disbursement of an
-- excess loan of a positive amount.
pub rebalance-IsLedger_iff :
    (running : ℤ) (ts : List SocialFundTransaction)
    → IsLedger running (rebalance running ts) ↔ All IsNoDisbursement ts
unfolding rebalance signed_amount
rebalance-IsLedger_iff running [] = (λ _. tt, λ _. tt)
rebalance-IsLedger_iff running (t ∷ ts) =
    let (left, right) = rebalance-IsLedger_iff (next_running_balance running t) ts in
    (
      λ h. (next_running_balance_needs running t h.0, left h.1),
      λ h. (next_running_balance_right running t h.0, right h.1),
    )
