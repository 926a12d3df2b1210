-- ===== src/Payroll/Interest.antt =====
-- backend/src/payroll/services/interest-calculator.processor.ts: a month's interest on the members'
-- savings. The texts of the notes are left out; here an amount counts hundredths.
use kamorina.Base.{ℕ, zero, suc, ◌+◌, ◌*◌, Bool, Option, none, some, List, [], ◌∷◌, if◌then◌else◌}
use kamorina.Base.Int.{ℤ, pos, negsuc, ◌+ℤ◌}
use kamorina.Loan.Calculation.{round_div}
use kamorina.Savings.Types.{SavingsTransaction, SavingsAccount}
use kamorina.Repayment.Settlement.{PayrollContext}
use kamorina.Payroll.Types.{PayrollSettings, ProcessorResult, upsert, new_transaction}

-- An account with its user's state.
pub record AccountRow : Type 0 where
  pub user_id : ℕ
  pub member_verified : Bool
  pub account : SavingsAccount

abbrev pub total_balance : SavingsAccount → ℤ
total_balance a = pos a.saldo_pokok +ℤ pos a.saldo_wajib +ℤ a.saldo_sukarela

-- The month's interest on a balance, in whole units, at a rate per cent; none on an empty one.
unfoldable pub interest_on : ℤ → ℕ → Option ℕ
unfolding round_div
interest_on (pos zero) rate = none
interest_on (pos (suc n)) rate = some (100 * round_div (suc n * rate) 12000000)
interest_on (negsuc n) rate = none

abbrev pub with_interest : ℤ → ℕ → SavingsTransaction → SavingsTransaction
with_interest total interest t = record t { bunga = pos interest; jumlah_bunga = total }

-- The period's transaction gets the interest, with the total of the account so far; a new one only
-- has the interest itself.
unfoldable pub credit_interest :
    ℕ → ℕ → PayrollSettings → PayrollContext → ℕ → SavingsAccount → SavingsAccount
credit_interest now new_id settings context interest account = record account {
  bunga_deposito = account.bunga_deposito +ℤ pos interest;
  transactions =
      upsert context.payroll_period_id
        (with_interest (account.bunga_deposito +ℤ pos interest) interest)
        (with_interest (pos interest) interest
          (new_transaction now new_id context.payroll_period_id settings))
        account.transactions;
}

-- The body of the loop for an account that the query finds, by the interest on its balance.
abbrev pub add_interest :
    ℕ
    → ℕ
    → PayrollSettings
    → PayrollContext
    → AccountRow
    → Option ℕ
    → ProcessorResult AccountRow
    → ProcessorResult AccountRow
add_interest now new_id settings context row none rest = record rest { rows = row ∷ rest.rows }
add_interest now new_id settings context row (some interest) rest = record {
  processed_count = rest.processed_count + 1;
  total_amount = interest + rest.total_amount;
  errors = rest.errors;
  details = record { user_id = row.user_id; amount = interest } ∷ rest.details;
  rows =
      record row { account = credit_interest now new_id settings context interest row.account }
      ∷ rest.rows;
}

-- The loop over all the accounts; one that the query does not find stays as it is. `new_ids` gives the
-- id of a new transaction for a user.
unfoldable pub process_interest :
    ℕ → (ℕ → ℕ) → PayrollSettings → PayrollContext → List AccountRow → ProcessorResult AccountRow
unfolding interest_on credit_interest
process_interest now new_ids settings context [] = record {
  processed_count = 0;
  total_amount = 0;
  errors = [];
  details = [];
  rows = [];
}
process_interest now new_ids settings context (row ∷ rows) =
    let rest = process_interest now new_ids settings context rows in
    if row.member_verified
    then add_interest now (new_ids row.user_id) settings context row
        (interest_on (total_balance row.account) settings.deposit_interest_rate) rest
    else record rest { rows = row ∷ rest.rows }
