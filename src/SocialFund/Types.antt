-- ===== src/SocialFund/Types.antt =====
-- The social fund models of backend/prisma/schema.prisma. The balance is one row, if it exists;
-- the transactions stand in the order of their creation.
use kamorina.Base.{ℕ, String, Option, none, some, List}
use kamorina.Base.Int.{ℤ, pos}

pub data SocialFundTransactionType : Type 0 where
  initial_balance adjustment santunan : SocialFundTransactionType
  excess_loan_disbursement excess_loan_repayment : SocialFundTransactionType

pub record SocialFundTransaction : Type 0 where
  pub id : ℕ
  pub kind : SocialFundTransactionType
  pub amount : ℕ
  pub balance_after : ℤ
  pub description : Option String
  pub recipient_user_id : Option ℕ
  pub created_by : ℕ
  pub created_at : ℕ

pub record SocialFundBalance : Type 0 where
  pub id : ℕ
  pub current_balance : ℤ
  pub updated_by : Option ℕ

pub record SocialFund : Type 0 where
  pub balance : Option SocialFundBalance
  pub transactions : List SocialFundTransaction

-- The fund's money, with no row counted as nothing.
abbrev pub money : Option SocialFundBalance → ℤ
money none = pos 0
money (some balance) = balance.current_balance
