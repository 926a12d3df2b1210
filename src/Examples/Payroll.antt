-- ===== src/Examples/Payroll.antt =====
-- Two payroll runs on two new members, one per installment plan.
use kamorina.Base.{◌+◌, ◌≡◌, refl, false, none, some, List, [], ◌∷◌, arith, inl, inr, All}
use kamorina.Base.Int.{pos}
use kamorina.Savings.Types.{SavingsAccount}
use kamorina.Repayment.Settlement.{PayrollContext}
use kamorina.Payroll.Types.{PayrollSettings}
use kamorina.Membership.Types.{ApplicationStatus, MemberApplication}
use kamorina.Payroll.MembershipFee.{Member, process_fees}
use kamorina.Payroll.MandatorySavings.{pay_monthly_fee}
use kamorina.Payroll.Collected.{all_pokok, Balanced, process_fees-Balanced}
use kamorina.Payroll.PaidOff.{IsOpen, IsPaidOff, process_fees_twice-IsPaidOff}
use kamorina.Payroll.Reprocessed.{pay_monthly_fee_again}

abbrev pub empty_account : SavingsAccount
empty_account = record {
  saldo_pokok = 0;
  saldo_wajib = 0;
  saldo_sukarela = pos 0;
  bunga_deposito = pos 0;
  transactions = [];
}

abbrev pub fees : PayrollSettings
fees = record { monthly_membership_fee = 10000000; deposit_interest_rate = 400 }

abbrev pub january : PayrollContext
january = record { payroll_period_id = 1; process_date = 27; cutoff_end = 15 }

abbrev pub february : PayrollContext
february = record { payroll_period_id = 2; process_date = 58; cutoff_end = 46 }

abbrev at_once : MemberApplication
at_once = record {
  id = 1;
  user_id = 7;
  installment_plan = 1;
  entrance_fee = 100000000;
  paid_amount = 0;
  remaining_amount = 100000000;
  is_paid_off = false;
  status = ApplicationStatus.approved;
  current_step = none;
  submitted_at = some 1;
  approved_at = some 10;
  rejected_at = none;
  rejection_reason = none;
  submission_count = 1;
  last_submitted_at = some 1;
  approvals = [];
  history = [];
}

abbrev in_two : MemberApplication
in_two = record at_once { id = 2; user_id = 8; installment_plan = 2 }

abbrev new_members : List Member
new_members =
    record { application = at_once; savings_account = some empty_account }
    ∷ record { application = in_two; savings_account = some empty_account }
    ∷ []

first_run_total : (process_fees 27 (λ id. id) fees january new_members).total_amount ≡ 150000000
unfolding process_fees
first_run_total = refl

new_members-IsOpen : All (IsOpen january.cutoff_end) new_members
new_members-IsOpen = (
  record {
    account = empty_account;
    has_account = refl;
    is_empty = refl;
    is_approved = refl;
    approved_at = 10;
    has_approved_at = refl;
    is_in_time = omega arith;
    is_unsettled = refl;
    plan = inl refl;
    is_charged = omega arith;
    has_halves = refl;
    is_unpaid = refl;
    remains = refl;
  },
  (
    record {
      account = empty_account;
      has_account = refl;
      is_empty = refl;
      is_approved = refl;
      approved_at = 10;
      has_approved_at = refl;
      is_in_time = omega arith;
      is_unsettled = refl;
      plan = inr refl;
      is_charged = omega arith;
      has_halves = refl;
      is_unpaid = refl;
      remains = refl;
    },
    tt,
  ),
)

process_fees_twice-IsPaidOff_example :
    All IsPaidOff
      (process_fees 58
        (λ id. id + 10)
        fees
        february
        (process_fees 27 (λ id. id) fees january new_members).rows).rows
process_fees_twice-IsPaidOff_example =
    process_fees_twice-IsPaidOff 27 58 (λ id. id) (λ id. id + 10) fees fees january february
      (omega arith) new_members new_members-IsOpen

process_fees-Balanced_example :
    Balanced
      (all_pokok new_members)
      (all_pokok (process_fees 27 (λ id. id) fees january new_members).rows)
      new_members
      (process_fees 27 (λ id. id) fees january new_members)
process_fees-Balanced_example = process_fees-Balanced 27 (λ id. id) fees january new_members

abbrev once : SavingsAccount
once = pay_monthly_fee 27 1 fees january empty_account

pay_monthly_fee_again_example :
    ((pay_monthly_fee 28 2 fees january once).saldo_wajib ≡ 0 + 10000000 + 10000000)
    × ((pay_monthly_fee 28 2 fees january once).transactions ≡ once.transactions)
pay_monthly_fee_again_example = pay_monthly_fee_again 27 1 28 2 fees january empty_account
