-- ===== src/Examples/Sample.antt =====
-- A database in memory, a calendar of 28-day use, settings, and a loan to begin with.
use kamorina.Base.{
  ℕ, ◌+◌, ◌≡◌, refl, ◌≢◌, Option, none, some, [], arith, ◌==◌, if◌then◌else◌, Store,
}
use kamorina.Base.Int.{pos}
use kamorina.SocialFund.Types.{SocialFund}
use kamorina.Loan.Types.{LoanApplication, excess_loan, draft, excess_loan_details}
use kamorina.Loan.Calculation.{Settings}
use kamorina.Loan.Validation.{HandlerContext}
use kamorina.Loan.Submission.{NewIds}
use kamorina.Loan.Installment.{Calendar}

abbrev put : {R : Type 0} → ℕ → R → (ℕ → Option R) → ℕ → Option R
put id r s k = if k == id then some r else s k

pub put_self : {R : Type 0} (id : ℕ) (r : R) (s : ℕ → Option R) → put id r s id ≡ some r
put_self id r s = ground arith

pub put_ne : {R : Type 0} (id k : ℕ) (r : R) (s : ℕ → Option R) → id ≢ k → put id r s k ≡ s k
put_ne id k r s h = ground arith

-- Rows as a function of their id.
abbrev pub memory : (R : Type 0) → Store R
memory R = record {
  State = ℕ → Option R;
  find_unique = λ id s. s id;
  save = put;
  find_unique-save_self = put_self;
  find_unique-save_ne = put_ne;
}

abbrev pub calendar : Calendar
calendar = record {
  day_of = λ t. record { month = t; date = 10 };
  set_date = λ n d. record d { date = n };
  add_months = λ k d. record d { month = d.month + k };
  month-add_months = λ k d. refl;
}

abbrev pub no_settings : Settings
no_settings key = none

abbrev pub context : HandlerContext
context = record {
  settings = no_settings;
  today = record { year = 2026; month = 3 };
  employee = none;
  loan_limit_matrix = [];
  social_fund_balance = some (pos 500000);
}

abbrev pub ids : NewIds
ids = record { first = 11; second = 12; third = 13 }

-- An excess loan of 3000.00 over 12 months, as a new draft.
abbrev pub sample_loan : LoanApplication
sample_loan = record {
  id = 1;
  user_id = 7;
  loan_type = excess_loan;
  loan_amount = 300000;
  loan_tenor = 12;
  loan_purpose = "Biaya sekolah";
  interest_rate = some 0;
  monthly_installment = some 25000;
  total_repayment = some 300000;
  status = draft;
  current_step = none;
  submitted_at = none;
  approved_at = none;
  rejected_at = none;
  disbursed_at = none;
  rejection_reason = none;
  revision_count = 0;
  last_revised_at = none;
  last_revised_by = none;
  revision_notes = none;
  approvals = [];
  history = [];
  disbursement = none;
  authorization = none;
  loan_installments = [];
  details = excess_loan_details;
}

abbrev pub new_fund : SocialFund
new_fund = record {
  balance = some (record { id = 1; current_balance = pos 500000; updated_by = none });
  transactions = [];
}
