-- ===== src/SocialFund/Balance.antt =====
-- The balance is the sum of the ledger, whatever is created, changed or deleted.
use kamorina.Base.{
  ℕ, ◌≡◌, refl, ap, ◌∙◌, Bool, true, false, some, List, [], ◌∷◌, ◌++◌, arith, ltb, leb, filter,
  if◌then◌else◌,
}
use kamorina.Base.Int.{ℤ, pos, ◌+ℤ◌, ◌-ℤ◌, int_laws, +ℤ_assoc, +ℤ_left_comm, +ℤ_swap}
use kamorina.SocialFund.Types.{
  santunan, excess_loan_disbursement, SocialFundTransactionType, SocialFundTransaction,
}
use kamorina.SocialFund.Rows.{
  find_transaction, delete_transaction, update_transaction, next_running_balance, rebalance,
  recalculate_balances_after,
}

-- What a transaction means: money that comes in, or goes out.
abbrev pub is_outgoing : SocialFundTransactionType → Bool
is_outgoing santunan = true
is_outgoing excess_loan_disbursement = true
is_outgoing _ = false

unfoldable pub signed_amount : SocialFundTransaction → ℤ
signed_amount t = if is_outgoing t.kind then pos 0 -ℤ pos t.amount else pos t.amount

abbrev pub total : List SocialFundTransaction → ℤ
total [] = pos 0
total (t ∷ ts) = signed_amount t +ℤ total ts

pub total-append : (ts us : List SocialFundTransaction) → total (ts ++ us) ≡ total ts +ℤ total us
total-append [] us = omega int_laws
total-append (t ∷ ts) us = rw (total-append ts us) (omega int_laws)

total-rebalance :
    (running : ℤ) (ts : List SocialFundTransaction) → total (rebalance running ts) ≡ total ts
unfolding rebalance signed_amount
total-rebalance running [] = refl
total-rebalance running (t ∷ ts) =
    ap (λ x. signed_amount t +ℤ x) (total-rebalance (next_running_balance running t) ts)

total-split :
    (d : ℕ) (ts : List SocialFundTransaction)
    → total (filter (λ t. leb t.created_at d) ts) +ℤ total (filter (λ t. ltb d t.created_at) ts)
      ≡ total ts
total-split d [] = omega int_laws
total-split d (t ∷ ts) =
    let early = total (filter (λ x. leb x.created_at d) ts) in
    let late = total (filter (λ x. ltb d x.created_at) ts) in
    ground (
      arith,
      total-split d ts,
      +ℤ_left_comm early (signed_amount t) late,
      +ℤ_assoc (signed_amount t) early late,
    )

pub total-recalculate_balances_after :
    (d : ℕ) (ts : List SocialFundTransaction) → total (recalculate_balances_after d ts) ≡ total ts
unfolding recalculate_balances_after
total-recalculate_balances_after d ts =
    let earlier = filter (λ t. leb t.created_at d) ts in
    total-append earlier _ ∙ ap (λ x. total earlier +ℤ x) (total-rebalance _ _) ∙ total-split d ts

pub total-delete_transaction :
    (id : ℕ) (t : SocialFundTransaction) (ts : List SocialFundTransaction)
    → find_transaction id ts ≡ some t
    → signed_amount t +ℤ total (delete_transaction id ts) ≡ total ts
unfolding find_transaction delete_transaction
total-delete_transaction id t [] e = cc
total-delete_transaction id t (u ∷ ts) e = ground (
  arith,
  total-delete_transaction id t ts,
  +ℤ_left_comm (signed_amount t) (signed_amount u) (total (delete_transaction id ts)),
)

pub total-update_transaction :
    (id : ℕ) (t : SocialFundTransaction) (ts : List SocialFundTransaction)
    (change : SocialFundTransaction → SocialFundTransaction)
    → find_transaction id ts ≡ some t
    → total (update_transaction id change ts) +ℤ signed_amount t
      ≡ total ts +ℤ signed_amount (change t)
unfolding find_transaction update_transaction
total-update_transaction id t [] change e = cc
total-update_transaction id t (u ∷ ts) change e = ground (
  arith,
  total-update_transaction id t ts change,
  +ℤ_swap (signed_amount (change u)) (total ts) (signed_amount u),
  +ℤ_assoc (signed_amount u) (total (update_transaction id change ts)) (signed_amount t),
  +ℤ_assoc (signed_amount u) (total ts) (signed_amount (change t)),
)
