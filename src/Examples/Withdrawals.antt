-- ===== src/Examples/Withdrawals.antt =====
-- The bulk requests on withdrawals in memory.
use kamorina.Base.{ℕ, Option, none, AllRows, save-AllRows}
use kamorina.Savings.Types.{SavingsWithdrawal, SavingsAccount}
use kamorina.Savings.Phases.{IsValid}
use kamorina.Examples.Sample.{memory}
use kamorina.Examples.Savings.{account}

abbrev rows : SavingsWithdrawal → ℕ → Option SavingsWithdrawal
rows w = (memory SavingsWithdrawal).save 1 w (λ _. none)

rows-AllRows :
    (w : SavingsWithdrawal) → IsValid w → AllRows (memory SavingsWithdrawal) IsValid (rows w)
rows-AllRows w v = save-AllRows (memory SavingsWithdrawal) IsValid 1 w (λ _. none) v (λ k r h. cc)

abbrev accounts : ℕ → Option SavingsAccount
accounts = (memory SavingsAccount).save 7 account (λ _. none)
