-- ===== src/SocialFund/Rows.antt =====
-- The rows of the fund's ledger in backend/src/social-fund/social-fund.service.ts: how a row is found,
-- changed and deleted, and how `recalculateBalancesAfter` sets the later rows.
use kamorina.Base.{
  ℕ, Bool, true, false, Option, List, [], ◌∷◌, ◌++◌, ltb, leb, ◌==◌, find, filter, if◌then◌else◌,
}
use kamorina.Base.Int.{ℤ, pos, ◌+ℤ◌, ◌-ℤ◌}
use kamorina.SocialFund.Types.{
  SocialFundTransactionType, initial_balance, santunan, SocialFundTransaction,
}

abbrev pub is_initial_balance : SocialFundTransactionType → Bool
is_initial_balance initial_balance = true
is_initial_balance _ = false

abbrev pub is_santunan : SocialFundTransactionType → Bool
is_santunan santunan = true
is_santunan _ = false

-- `findUnique`, `update` and `delete` by id; ids are unique.
unfoldable pub find_transaction : ℕ → List SocialFundTransaction → Option SocialFundTransaction
find_transaction id = find (λ t. t.id == id)

unfoldable pub delete_transaction : ℕ → List SocialFundTransaction → List SocialFundTransaction
delete_transaction id [] = []
delete_transaction id (t ∷ ts) = if t.id == id then ts else t ∷ delete_transaction id ts

unfoldable pub update_transaction :
    ℕ
    → (SocialFundTransaction → SocialFundTransaction)
    → List SocialFundTransaction
    → List SocialFundTransaction
update_transaction id change [] = []
update_transaction id change (t ∷ ts) =
    if t.id == id then change t ∷ ts else t ∷ update_transaction id change ts

-- One round of the loop: a santunan is taken off, everything else is added.
unfoldable pub next_running_balance : ℤ → SocialFundTransaction → ℤ
next_running_balance running t =
    if is_santunan t.kind then running -ℤ pos t.amount else running +ℤ pos t.amount

-- The loop over the later transactions, which sets `balanceAfter` of each.
unfoldable pub rebalance : ℤ → List SocialFundTransaction → List SocialFundTransaction
unfolding next_running_balance
rebalance running [] = []
rebalance running (t ∷ ts) =
    record t { balance_after = next_running_balance running t }
    ∷ rebalance (next_running_balance running t) ts

-- `balanceAfter` of the last one, or 0.
unfoldable pub last_balance : ℤ → List SocialFundTransaction → ℤ
last_balance running [] = running
last_balance running (t ∷ ts) = last_balance t.balance_after ts

-- The rows stand in the order of `createdAt`, which is the order of both queries.
unfoldable pub recalculate_balances_after :
    ℕ → List SocialFundTransaction → List SocialFundTransaction
unfolding rebalance last_balance
recalculate_balances_after after_date ts =
    let earlier = filter (λ t. leb t.created_at after_date) ts in
    earlier
    ++ rebalance (last_balance (pos 0) earlier) (filter (λ t. ltb after_date t.created_at) ts)
