-- ===== src/Examples/Changes.antt =====
-- The deposit of kamorina.Examples.Deposits is approved, collected from and changed.
use kamorina.Base.{◌≤◌, ◌≡◌, refl, true, none, some, [], ◌∷◌, arith, ok, inl}
use kamorina.Base.Int.{int_laws}
use kamorina.Payroll.DepositSavings.{collect, collect_all}
use kamorina.Payroll.Months.{IsPaid, IsCollectedTo, run_months, run_months-IsPaid}
use kamorina.Payroll.Deposits.{IsBalanced, collect_all-IsBalanced, change_deposit-overtaken}
use kamorina.Deposit.Types.{DepositApplication, divisi_simpan_pinjam, ketua}
use kamorina.Deposit.Review.{role_step_map, new_approval}
use kamorina.Deposit.Application.{new_deposit, approve, process_approval}
use kamorina.Deposit.Change.Types.{DepositChangeRequest, DepositChangeType}
use kamorina.Deposit.Change.Requests.{CreateDepositChangeDto, create_draft, new_draft}
use kamorina.Deposit.Change.Approval.{change_deposit}
use kamorina.Deposit.Case.{Case, Step, Reach, here, next}
use kamorina.Deposit.Sound.{IsSound}
use kamorina.Deposit.Reachable.{Reach-IsSound}
use kamorina.Examples.Sample.{no_settings}
use kamorina.Examples.Payroll.{empty_account, fees, january, february}
use kamorina.Examples.Deposits.{today, yes_vote, asked, asked-IsValid, dsp, table}

abbrev seen_once : DepositApplication
seen_once =
    approve no_settings 4 today 8 none divisi_simpan_pinjam (new_approval 11 divisi_simpan_pinjam)
      asked

abbrev accepted : DepositApplication
accepted = approve no_settings 5 today 9 none ketua (new_approval 12 ketua) seen_once

first_review : process_approval no_settings 4 today 8 dsp yes_vote asked ≡ ok seen_once
unfolding process_approval new_deposit role_step_map
first_review = refl

second_review :
    process_approval no_settings 5 today 9 ("ketua" ∷ []) yes_vote seen_once ≡ ok accepted
unfolding process_approval new_deposit role_step_map
second_review = refl

abbrev paid_once : DepositApplication
paid_once = collect january today accepted

first_payment :
    (collect_all 27 (λ id. id) fees january today (accepted ∷ []) (some empty_account)).deposits
    ≡ paid_once ∷ []
unfolding collect_all approve new_deposit
first_payment = refl

abbrev longer : CreateDepositChangeDto
longer = record {
  new_amount_code = "A";
  new_tenor_code = "U";
  agreed_to_terms = true;
  agreed_to_admin_fee = true;
}

abbrev drafted : DepositChangeRequest
drafted = new_draft no_settings 30 7 longer paid_once 50000000 6 DepositChangeType.tenor_change

first_draft : create_draft no_settings table 30 7 longer paid_once [] ≡ ok drafted
unfolding create_draft collect approve new_deposit
first_draft = refl

abbrev start : Case
start = record { deposit = asked; requests = []; savings_account = some empty_account }

start-IsSound : IsSound start
unfolding new_deposit
start-IsSound = record {
  deposit = asked-IsValid;
  requested = (tt, omega arith);
  accepted = inl refl;
  booked = (refl, omega int_laws);
}

abbrev end : Case
end = record {
  deposit = paid_once;
  requests = drafted ∷ [];
  savings_account =
      (collect_all 27 (λ id. id) fees january today (accepted ∷ [])
        (some empty_account)).savings_account;
}

journey : Reach start end
journey =
    next
      (next
        (next (next here (Step.review no_settings 4 today 8 dsp yes_vote seen_once first_review))
          (Step.review no_settings 5 today 9 ("ketua" ∷ []) yes_vote accepted second_review))
        (Step.payroll 27 (λ id. id) fees january today paid_once first_payment))
      (Step.draft no_settings table 30 7 longer drafted first_draft)

Reach-IsSound_example : IsSound end
Reach-IsSound_example = Reach-IsSound journey start-IsSound

accepted-IsPaid : IsPaid 50000000 2 5 0 accepted
unfolding approve new_deposit
accepted-IsPaid = record {
  amount_value = refl;
  tenor_months = refl;
  approved_at = refl;
  installment_count = refl;
  collected_amount = refl;
  status = refl;
}

run_months-IsPaid_example : IsCollectedTo 50000000 2 5 2 accepted empty_account (
    run_months 27
      (λ id. id)
      fees
      ((january, today) ∷ (february, today) ∷ [])
      (accepted ∷ [])
      (some empty_account))
run_months-IsPaid_example =
    run_months-IsPaid 27 (λ id. id) fees 50000000 2 5 ((january, today) ∷ (february, today) ∷ []) 0
      accepted empty_account accepted-IsPaid (omega arith) (omega arith)

collect_all-IsBalanced_example :
    IsBalanced
      (accepted ∷ asked ∷ [])
      (some empty_account)
      (collect_all 27 (λ id. id) fees january today (accepted ∷ asked ∷ []) (some empty_account))
collect_all-IsBalanced_example =
    collect_all-IsBalanced 27 (λ id. id) fees january today (accepted ∷ asked ∷ [])
      (some empty_account)

-- A request for a tenor of one month, approved after the first payment.
abbrev shorter : DepositChangeRequest
shorter = record drafted { new_tenor_months = 1 }

one_paid : 1 ≤ paid_once.installment_count
unfolding collect approve new_deposit
one_paid = omega arith

change_deposit-overtaken_example :
    ((change_deposit today shorter paid_once).status ≡ paid_once.status)
    × (run_months 58
          (λ id. id)
          fees
          ((february, today) ∷ [])
          (change_deposit today shorter paid_once ∷ [])
          (some empty_account)
        ≡ (change_deposit today shorter paid_once ∷ [], some empty_account))
change_deposit-overtaken_example =
    change_deposit-overtaken 58 (λ id. id) fees ((february, today) ∷ []) today shorter paid_once
      (some empty_account) one_paid
