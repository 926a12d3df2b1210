-- ===== src/Examples/Savings.antt =====
-- One member's withdrawal from the request to the payment, and the theorems about withdrawals.
use kamorina.Base.{◌≡◌, refl, true, Option, none, some, List, [], ◌∷◌, ok, err, Result}
use kamorina.Base.Int.{pos, ◌+ℤ◌, int_laws}
use kamorina.Loan.Calculation.{get_setting_number, round_div}
use kamorina.Savings.Types.{
  SavingsWithdrawal, SavingsAccount, SavingsError, approved, divisi_simpan_pinjam, ketua,
  still_pending, no_longer_cancellable,
}
use kamorina.Savings.Approval.{
  ApproveSavingsWithdrawalDto, process_approval, cancel_withdrawal, conclude, has_role_for,
  role_step_map, existing_approval, handle_approval, next_step, status_before,
}
use kamorina.Savings.Creation.{
  CreateSavingsWithdrawalDto, Deposit, create_withdrawal, check_early_deposit_penalty, net_after,
  new_withdrawal,
}
use kamorina.Savings.Payment.{
  ConfirmDisbursementDto, ConfirmAuthorizationDto, confirm_disbursement, confirm_authorization, pay,
  write_completion,
}
use kamorina.Savings.Phases.{IsValid}
use kamorina.Savings.Member.{
  Member, create_by, write_by, pay_by, find_withdrawal, update_withdrawal, Step, Reach,
}
use kamorina.Savings.Coverage.{IsSettled, Reach-IsSettled}
use kamorina.Examples.Sample.{no_settings}

abbrev pub account : SavingsAccount
account = record {
  saldo_pokok = 1000000;
  saldo_wajib = 2000000;
  saldo_sukarela = pos 900000;
  bunga_deposito = pos 0;
  transactions = [];
}

abbrev ask : CreateSavingsWithdrawalDto
ask = record { withdrawal_amount = 400000; notes = none }

abbrev early : List Deposit
early = record { is_open = true; maturity_date = some 1000 } ∷ []

abbrev pub yes_dto : ApproveSavingsWithdrawalDto
yes_dto = record { decision = approved; notes = none }

abbrev pub bank_dto : ConfirmDisbursementDto
bank_dto = record { disbursement_date = none; disbursement_time = none; notes = none }

abbrev pub key_dto : ConfirmAuthorizationDto
key_dto = record { authorization_date = none; authorization_time = none; notes = none }

abbrev member_of : Result SavingsError Member → Member → Member
member_of (ok m) _ = m
member_of (err _) m = m

abbrev start : Member
start = record { account = some account; withdrawals = [] }

abbrev asked : Member
asked = member_of (create_by no_settings 10 1 7 ask early start) start

abbrev by_dsp : Member
by_dsp =
    member_of (write_by 1 (process_approval 11 8 ("divisi_simpan_pinjam" ∷ []) yes_dto) asked) asked

abbrev by_ketua : Member
by_ketua = member_of (write_by 1 (process_approval 12 9 ("ketua" ∷ []) yes_dto) by_dsp) by_dsp

abbrev by_shopkeeper : Member
by_shopkeeper = member_of (write_by 1 (confirm_disbursement 13 10 bank_dto) by_ketua) by_ketua

abbrev paid : Member
paid =
    member_of (pay_by 1 (confirm_authorization no_settings 14 2 9 key_dto) by_shopkeeper)
      by_shopkeeper

abbrev way : Reach start paid
unfolding create_by create_withdrawal check_early_deposit_penalty write_by process_approval
    has_role_for role_step_map existing_approval handle_approval next_step status_before
    confirm_disbursement pay_by confirm_authorization find_withdrawal update_withdrawal net_after
way =
    Reach.next
      (Reach.next
        (Reach.next
          (Reach.next (Reach.next Reach.here (Step.create no_settings 10 1 7 ask early refl))
            (Step.review 1 11 8 ("divisi_simpan_pinjam" ∷ []) yes_dto refl))
          (Step.review 1 12 9 ("ketua" ∷ []) yes_dto refl))
        (Step.disburse 1 13 10 bank_dto refl))
      (Step.authorize no_settings 1 14 2 9 key_dto refl)

Reach-IsSettled_example : IsSettled (pos 900000) 0 paid
unfolding ◌+ℤ◌
Reach-IsSettled_example = Reach-IsSettled (pos 900000) 0 (tt, (omega int_laws, refl, refl)) way

-- The withdrawal on its way: asked for, approved twice, and disbursed.
abbrev pub row₀ : SavingsWithdrawal
row₀ = new_withdrawal 10 1 7 ask (check_early_deposit_penalty no_settings 10 early 400000)

abbrev row₁ : SavingsWithdrawal
row₁ = conclude divisi_simpan_pinjam 11 8 none row₀ approved

abbrev pub row₂ : SavingsWithdrawal
row₂ = conclude ketua 12 9 none row₁ approved

abbrev row_of : Result SavingsError SavingsWithdrawal → SavingsWithdrawal
row_of (ok w) = w
row_of (err _) = row₀

abbrev pub row₃ : SavingsWithdrawal
row₃ = row_of (confirm_disbursement 13 10 bank_dto row₂)

-- 3 % of 4000.00 is kept back.
penalty_kept : (row₀.penalty_amount ≡ 12000) × (row₀.net_amount ≡ pos 388000)
unfolding check_early_deposit_penalty net_after get_setting_number round_div
penalty_kept = (refl, refl)

-- A second request waits for the first.
one_at_a_time :
    create_withdrawal no_settings 20 2 7 ask [] (row₀ ∷ []) (some account) ≡ err still_pending
unfolding create_withdrawal
one_at_a_time = refl

abbrev pub row₀-IsValid : IsValid row₀
row₀-IsValid = (refl, refl, (refl, refl))

abbrev pub row₂-IsValid : IsValid row₂
unfolding handle_approval next_step status_before
row₂-IsValid = (refl, (refl, refl, (refl, refl, tt)), (refl, refl))

abbrev pub row₃-IsValid : IsValid row₃
unfolding confirm_disbursement handle_approval next_step status_before
row₃-IsValid = (refl, (refl, refl, (refl, refl, tt)), refl, refl)

-- An approved withdrawal cannot be cancelled any more.
too_late : cancel_withdrawal 7 row₂ ≡ err no_longer_cancellable
unfolding cancel_withdrawal handle_approval next_step status_before
too_late = refl

abbrev after_payment : SavingsWithdrawal × Option SavingsAccount
after_payment = pay no_settings 14 2 9 (write_completion 14 9 key_dto row₃) (some account)
