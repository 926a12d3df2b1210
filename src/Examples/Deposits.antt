-- ===== src/Examples/Deposits.antt =====
-- A deposit from the request through the review to the payroll's runs and a change.
use kamorina.Base.{
  ok, ℕ, Option, reported, length, AllRows, save-AllRows, ◌≡◌, refl, String, true, none, some, List,
  [], ◌∷◌, arith, str_eq, if◌then◌else◌,
}
use kamorina.Deposit.Types.{DepositApprovalDecision, DepositApplication}
use kamorina.Deposit.Dates.{LocalDate, set_date, days_in_month}
use kamorina.Deposit.Review.{ApproveDepositDto}
use kamorina.Deposit.Application.{CreateDepositDto, Options, create, new_deposit, process_approval}
use kamorina.Deposit.Options.{
  OptionRow, CreateOptionDto, new_option, create_option, find_by_code, tables,
}
use kamorina.Deposit.Offered.{create_option-create}
use kamorina.Deposit.Phases.{IsValid}
use kamorina.Deposit.Creation.{needs, answer, requested, create-answer}
use kamorina.Deposit.Standing.{seen, standing, review, process_approval-review}
use kamorina.Deposit.Schedule.{
  IsScheduled, IsTerm, activation_date-IsScheduled, activation_date-IsTerm,
}
use kamorina.Loan.Calculation.{Settings}
use kamorina.Examples.Sample.{no_settings, memory}
use kamorina.Deposit.Bulk.{bulk_process_approval, bulk_process_approval-keeps_deposits}

abbrev pub table : Options
table = record {
  amount_option = λ code.
      if str_eq code "A" then some (record { amount = 50000000; is_active = true }) else none;
  tenor_option = λ code.
      if str_eq code "T"
      then some (record { months = 2; is_active = true })
      else if str_eq code "U"
      then some (record { months = 6; is_active = true })
      else none;
}

abbrev wish : CreateDepositDto
wish = record { deposit_amount_code = "A"; deposit_tenor_code = "T"; agreed_to_terms = true }

create-answer_example :
    (create no_settings table 3 1 11 12 7 wish
      ≡ answer (needs table wish) (requested no_settings table 3 1 11 12 7 wish))
    × IsValid (requested no_settings table 3 1 11 12 7 wish)
create-answer_example = create-answer no_settings table 3 1 11 12 7 wish (ground arith)

-- The third of January 2026.
abbrev pub today : LocalDate
today = record { month = 24312; date = 3; time = 1000 }

abbrev pub yes_vote : ApproveDepositDto
yes_vote = record { decision = DepositApprovalDecision.approved; notes = none }

abbrev pub asked : DepositApplication
asked = new_deposit no_settings 3 1 11 12 7 true 50000000 2

abbrev pub dsp : List String
dsp = "divisi_simpan_pinjam" ∷ []

pub asked-IsValid : IsValid asked
asked-IsValid = (create-answer no_settings table 3 1 11 12 7 wish (ground arith)).1

process_approval-review_example :
    seen standing (process_approval no_settings 4 today 8 dsp yes_vote asked)
    ≡ review dsp DepositApprovalDecision.approved (standing asked)
process_approval-review_example =
    process_approval-review no_settings 4 today 8 dsp yes_vote asked asked-IsValid

activation_date-IsScheduled_example : IsScheduled no_settings 2 today
activation_date-IsScheduled_example =
    activation_date-IsScheduled no_settings 2 today (omega arith) (omega arith)

-- A pay day on the 31st, and an approval on the 30th of January 2026, after the cutoff.
abbrev last_day : Settings
last_day = λ key. if str_eq key "cooperative_payroll_date" then some 3100 else none

abbrev late : LocalDate
late = record { month = 24312; date = 30; time = 1000 }

activation_date-IsTerm_example : IsTerm last_day 2 late
unfolding days_in_month
activation_date-IsTerm_example = activation_date-IsTerm last_day 2 late (omega arith, omega arith)

-- A date past the month's end: the 31st of February 2024 is the 2nd of March.
leap_year_overflow :
    set_date 31 (record { month = 24289; date = 1; time = 0 })
    ≡ record { month = 24290; date = 2; time = 0 }
unfolding set_date
leap_year_overflow = refl

abbrev store : ℕ → Option DepositApplication
store = (memory DepositApplication).save 1 asked (λ _. none)

bulk_process_approval-keeps_deposits_example :
    let (results, s) =
      bulk_process_approval
        (memory DepositApplication)
        no_settings
        4
        today
        8
        dsp
        yes_vote
        (1 ∷ 2 ∷ [])
        store in
    (reported results ≡ length {A = ℕ} (1 ∷ 2 ∷ [])) × AllRows (memory DepositApplication) IsValid s
bulk_process_approval-keeps_deposits_example =
    bulk_process_approval-keeps_deposits (memory DepositApplication) no_settings 4 today 8 dsp
      yes_vote (1 ∷ 2 ∷ []) store
      (save-AllRows (memory DepositApplication) IsValid 1 asked (λ _. none) asked-IsValid
        (λ k r h. cc))

abbrev amount_dto : CreateOptionDto
amount_dto = record {
  code = "A";
  label = "Rp 500.000";
  content = 50000000;
  is_active = none;
  sort_order = none;
}

abbrev tenor_dto : CreateOptionDto
tenor_dto = record {
  code = "T";
  label = "2 Bulan";
  content = 2;
  is_active = none;
  sort_order = none;
}

create_option-create_example :
    (create no_settings
        (tables (new_option 1 amount_dto ∷ []) (new_option 2 tenor_dto ∷ []))
        3
        1
        11
        12
        7
        wish
      ≡ ok (new_deposit no_settings 3 1 11 12 7 true 50000000 2))
    × ((code : String) (row : OptionRow)
        → find_by_code code [] ≡ some row
        → find_by_code code (new_option 1 amount_dto ∷ []) ≡ some row)
    × ((code : String) (row : OptionRow)
        → find_by_code code [] ≡ some row
        → find_by_code code (new_option 2 tenor_dto ∷ []) ≡ some row)
unfolding create_option
create_option-create_example =
    create_option-create no_settings 3 1 11 12 7 1 2 amount_dto tenor_dto wish [] [] refl refl refl
      refl refl refl refl
