-- ===== src/Examples/Interest.antt =====
-- A month's interest on two accounts, one of which has no transaction of the period.
use kamorina.Base.{◌≡◌, refl, true, List, [], ◌∷◌}
use kamorina.Base.Int.{pos, ◌+ℤ◌}
use kamorina.Savings.Types.{SavingsAccount}
use kamorina.Payroll.MandatorySavings.{pay_monthly_fee}
use kamorina.Payroll.Interest.{AccountRow, credit_interest, process_interest}
use kamorina.Payroll.Accrued.{
  IsAccrued, IsCredited, process_interest-IsAccrued, credit_interest-IsCredited,
}
use kamorina.Examples.Payroll.{empty_account, fees, january}

-- 1,200,000.00 in savings, and a transaction of this month.
abbrev saver : SavingsAccount
saver = record (pay_monthly_fee 27 1 fees january empty_account) {
  saldo_pokok = 110000000;
  saldo_wajib = 10000000;
}

abbrev rows : List AccountRow
rows =
    record { user_id = 7; member_verified = true; account = saver }
    ∷ record {
      user_id = 8;
      member_verified = true;
      account = record empty_account { bunga_deposito = pos 900 };
    }
    ∷ []

process_interest-IsAccrued_example :
    IsAccrued rows (process_interest 27 (λ id. id) fees january rows)
process_interest-IsAccrued_example = process_interest-IsAccrued 27 fees january (λ id. id) rows

credit_interest-IsCredited_example :
    IsCredited january.payroll_period_id 400000
      (record empty_account { bunga_deposito = pos 900 })
      (credit_interest 27 1 fees january 400000 (record empty_account { bunga_deposito = pos 900 }))
credit_interest-IsCredited_example =
    credit_interest-IsCredited 27 1 fees january 400000
      (record empty_account { bunga_deposito = pos 900 })

-- 4 per cent a year of 1,200,000.00 are 4,000.00 a month.
a_month : (process_interest 27 (λ id. id) fees january rows).total_amount ≡ 400000
unfolding process_interest ◌+ℤ◌ pay_monthly_fee
a_month = refl
