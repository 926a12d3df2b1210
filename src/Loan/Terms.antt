-- ===== src/Loan/Terms.antt =====
-- What a loan of each type is for: its amount, its figures and its details by the loan's type, as
-- the requests of backend/src/loan name them.
use kamorina.Base.{true, false, inl, inr, refl, ℕ, ◌≡◌, ◌≢◌, ◌<◌, ◌⊎◌, Option, none, some}
use kamorina.Loan.Types.{
  LoanType, cash_loan, excess_loan, goods_reimburse, goods_online, goods_phone, is_phone,
  LoanDetails, cash_loan_details, excess_loan_details, goods_reimburse_details,
  goods_online_details, goods_phone_details, LoanApplication,
}
use kamorina.Loan.Calculation.{Settings, get_setting_number, calculate_loan_details}

-- The figures of a loan are those of its own amount, tenor and type.
abbrev pub HasFigures : Settings → LoanApplication → Type 0
HasFigures settings loan =
    let c = calculate_loan_details settings loan.loan_amount loan.loan_tenor loan.loan_type in
    (loan.interest_rate ≡ some c.interest_rate)
    × (loan.monthly_installment ≡ some c.monthly_installment)
    × (loan.total_repayment ≡ some c.total_repayment)

abbrev pub HasNoFigures : LoanApplication → Type 0
HasNoFigures loan =
    (loan.interest_rate ≡ none) × (loan.monthly_installment ≡ none) × (loan.total_repayment ≡ none)

-- A draft has figures unless it is for a phone, whose price is not known, or for nothing.
abbrev pub IsFigured : Settings → LoanApplication → Type 0
IsFigured settings loan =
    ((loan.loan_type ≢ goods_phone) × (0 < loan.loan_amount) × HasFigures settings loan)
    ⊎ (((loan.loan_type ≡ goods_phone) ⊎ (loan.loan_amount ≡ 0)) × HasNoFigures loan)

-- Money for a loan of money, a price for goods.
abbrev pub asked_amount : LoanType → ℕ → ℕ → ℕ → ℕ
asked_amount cash_loan money price phone_price = money
asked_amount excess_loan money price phone_price = money
asked_amount goods_reimburse money price phone_price = price
asked_amount goods_online money price phone_price = price
asked_amount goods_phone money price phone_price = phone_price

-- The details of a loan by its type: the price of the goods, the shop's margin from the settings,
-- and the two prices of a phone.
abbrev pub AreDetailsFor : Settings → LoanType → ℕ → ℕ → ℕ → LoanDetails → Type 0
AreDetailsFor settings cash_loan price retail cooperative details = details ≡ cash_loan_details
AreDetailsFor settings excess_loan price retail cooperative details = details ≡ excess_loan_details
AreDetailsFor settings goods_reimburse price retail cooperative details =
    details ≡ goods_reimburse_details price
AreDetailsFor settings goods_online price retail cooperative details =
    details ≡ goods_online_details price (get_setting_number settings "shop_margin_rate" 500)
AreDetailsFor settings goods_phone price retail cooperative details =
    details ≡ goods_phone_details retail cooperative

-- The owner of an excess loan is its recipient, if one is named.
abbrev pub asked_owner : LoanType → ℕ → Option ℕ → ℕ
asked_owner excess_loan user (some recipient) = recipient
asked_owner _ user _ = user

pub is_phone-cases :
    (t : LoanType)
    → ((t ≡ goods_phone) × (is_phone t ≡ true)) ⊎ ((t ≢ goods_phone) × (is_phone t ≡ false))
is_phone-cases cash_loan = inr (λ e. cc, refl)
is_phone-cases excess_loan = inr (λ e. cc, refl)
is_phone-cases goods_reimburse = inr (λ e. cc, refl)
is_phone-cases goods_online = inr (λ e. cc, refl)
is_phone-cases goods_phone = inl (refl, refl)
