-- ===== src/Examples/Funds.antt =====
-- The social fund's theorems at a concrete fund.
use kamorina.Base.{◌≡◌, refl, true, Option, none, some, [], ◌∷◌, ok, err, Result, ◌↔◌, All}
use kamorina.Base.Int.{pos, ◌+ℤ◌, ◌-ℤ◌, int_laws}
use kamorina.SocialFund.Types.{SocialFund, SocialFundTransaction, excess_loan_disbursement}
use kamorina.SocialFund.Rows.{find_transaction, rebalance}
use kamorina.SocialFund.Service.{
  CreateInitialBalanceDto, UpdateInitialBalanceDto, CreateSantunanDto, Recipient, FundError,
  would_be_negative, create_initial_balance, update_initial_balance, delete_initial_balance,
  create_santunan, delete_santunan, get_or_create_balance, write_santunan, check_recipient,
}
use kamorina.SocialFund.Solvency.{
  IsSolvent, create_initial_balance-IsSolvent, create_santunan-IsSolvent,
}
use kamorina.SocialFund.Recalculation.{IsLedger, IsNoDisbursement, rebalance-IsLedger_iff}
use kamorina.SocialFund.Reachable.{Step, Reach, Reach-IsSolvent}
use kamorina.SocialFund.Rows.{
  find_transaction, update_transaction, delete_transaction, recalculate_balances_after,
  next_running_balance, last_balance,
}
use kamorina.SocialFund.Service.{
  write_update, write_deletion, check_recipient, update_initial_balance, delete_santunan,
}

abbrev pub empty_fund : SocialFund
empty_fund = record { balance = none; transactions = [] }

abbrev pub empty_fund-IsSolvent : IsSolvent empty_fund
empty_fund-IsSolvent = (refl, omega int_laws)

abbrev deposit_dto : CreateInitialBalanceDto
deposit_dto = record { amount = 100000; description = none }

abbrev pub first_fund : SocialFund
first_fund = create_initial_balance 10 1 1 deposit_dto 5 empty_fund

abbrev pub first_fund-IsSolvent : IsSolvent first_fund
first_fund-IsSolvent =
    create_initial_balance-IsSolvent 10 1 1 deposit_dto 5 empty_fund empty_fund-IsSolvent

abbrev santunan_dto : CreateSantunanDto
santunan_dto = record { recipient_user_id = 7; amount = 40000; description = "Duka" }

abbrev member : Option Recipient
member = some (record { member_verified = true; employee = some (true, true) })

abbrev pub second_fund : SocialFund
second_fund =
    write_santunan 20 2 santunan_dto 5 (get_or_create_balance 1 first_fund.balance) first_fund

abbrev pub second_fund-IsSolvent : IsSolvent second_fund
unfolding create_santunan create_initial_balance get_or_create_balance check_recipient ◌+ℤ◌ ◌-ℤ◌
second_fund-IsSolvent =
    create_santunan-IsSolvent 20 1 2 santunan_dto member 5 first_fund first_fund-IsSolvent refl

abbrev half_dto : UpdateInitialBalanceDto
half_dto = record { amount = some 50000; description = none }

abbrev fund_of : Result FundError SocialFund → SocialFund
fund_of (ok f) = f
fund_of (err _) = empty_fund

-- The first balance cannot go while a santunan was paid from it.
still_needed : delete_initial_balance 1 1 5 second_fund ≡ err would_be_negative
unfolding delete_initial_balance create_initial_balance get_or_create_balance write_santunan
    find_transaction ◌+ℤ◌ ◌-ℤ◌
still_needed = refl

abbrev payout : SocialFundTransaction
payout = record {
  id = 3;
  kind = excess_loan_disbursement;
  amount = 30000;
  balance_after = pos 70000;
  description = none;
  recipient_user_id = none;
  created_by = 5;
  created_at = 30;
}

-- The loop adds what the disbursement took.
payout_added :
    rebalance (pos 100000) (payout ∷ []) ≡ record payout { balance_after = pos 130000 } ∷ []
unfolding rebalance ◌+ℤ◌ ◌-ℤ◌
payout_added = refl

rebalance-IsLedger_iff_example :
    IsLedger (pos 100000) (rebalance (pos 100000) (payout ∷ []))
    ↔ All IsNoDisbursement (payout ∷ [])
rebalance-IsLedger_iff_example = rebalance-IsLedger_iff (pos 100000) (payout ∷ [])

-- Added, paid out, changed, revoked and dropped.
abbrev third_fund : SocialFund
third_fund = fund_of (update_initial_balance 1 1 half_dto 5 second_fund)

abbrev fourth_fund : SocialFund
fourth_fund = fund_of (delete_santunan 1 2 5 third_fund)

abbrev last_fund : SocialFund
last_fund = fund_of (delete_initial_balance 1 1 5 fourth_fund)

abbrev way : Reach empty_fund last_fund
unfolding create_santunan create_initial_balance get_or_create_balance check_recipient
    update_initial_balance delete_initial_balance delete_santunan write_santunan write_update
    write_deletion find_transaction update_transaction delete_transaction recalculate_balances_after
    rebalance next_running_balance last_balance ◌+ℤ◌ ◌-ℤ◌
way =
    Reach.next
      (Reach.next
        (Reach.next
          (Reach.next (Reach.next Reach.here (Step.add 10 1 1 deposit_dto 5 refl))
            (Step.grant 20 1 2 santunan_dto member 5 refl))
          (Step.change 1 1 5 half_dto refl))
        (Step.revoke 1 2 5 refl))
      (Step.drop 1 1 5 refl)

Reach-IsSolvent_example : IsSolvent last_fund
Reach-IsSolvent_example = Reach-IsSolvent empty_fund-IsSolvent way
