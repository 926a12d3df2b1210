-- ===== src/Payroll/Types.antt =====
-- backend/src/payroll/interfaces/payroll.interface.ts and the rows that the run loads, of
-- backend/prisma/schema.prisma. An amount of kamorina.Payroll.MembershipFee and MandatorySavings
-- counts half hundredths, so that half of a column's amount is a number; a column Decimal(15, 2)
-- rounds what is written to it, a plain Decimal keeps it.
use kamorina.Base.{ℕ, ◌+◌, ◌%◌, Bool, false, Option, none, some, List, [], ◌∷◌, ◌==◌, if◌then◌else◌}
use kamorina.Base.Int.{pos}
use kamorina.Savings.Types.{SavingsTransaction}

pub record PayrollSettings : Type 0 where
  pub monthly_membership_fee : ℕ
  pub deposit_interest_rate : ℕ

pub record ProcessorDetail : Type 0 where
  pub user_id : ℕ
  pub amount : ℕ

-- `rows` holds what the run leaves of the rows; an error is the user's id.
pub record ProcessorResult (Row : Type 0) : Type 0 where
  pub processed_count : ℕ
  pub total_amount : ℕ
  pub errors : List ℕ
  pub details : List ProcessorDetail
  pub rows : List Row

-- A column Decimal(15, 2), which rounds a half away from zero.
abbrev pub to_column : ℕ → ℕ
to_column amount = amount + amount % 2

-- The `where` of the upsert: the account's transaction of this payroll period.
abbrev pub is_of_period : ℕ → Option ℕ → Bool
is_of_period period none = false
is_of_period period (some id) = id == period

-- `savingsTransaction.upsert` on the transactions of one account.
abbrev pub upsert :
    ℕ
    → (SavingsTransaction → SavingsTransaction)
    → SavingsTransaction
    → List SavingsTransaction
    → List SavingsTransaction
upsert period update create [] = create ∷ []
upsert period update create (t ∷ ts) =
    let rest = upsert period update create ts in
    if is_of_period period t.payroll_period_id then update t ∷ ts else t ∷ rest

-- A transaction with the defaults of its columns.
abbrev pub new_transaction : ℕ → ℕ → ℕ → PayrollSettings → SavingsTransaction
new_transaction now new_id period settings = record {
  id = new_id;
  interest_rate = settings.deposit_interest_rate;
  iuran_pendaftaran = 0;
  iuran_bulanan = 0;
  tabungan_deposito = 0;
  shu = 0;
  penarikan = 0;
  bunga = pos 0;
  jumlah_bunga = pos 0;
  transaction_date = now;
  created_by = none;
  payroll_period_id = some period;
}
