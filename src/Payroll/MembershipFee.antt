-- ===== src/Payroll/MembershipFee.antt =====
-- backend/src/payroll/services/membership-fee.processor.ts: the entrance fee of the new members,
-- which is paid at once or in two installments. The texts of the notes are left out.
use kamorina.Base.{
  ℕ, ◌+◌, ◌-◌, ◌/◌, Bool, not, ◌&&◌, Option, none, some, List, [], ◌∷◌, leb, ◌==◌, if◌then◌else◌,
}
use kamorina.Savings.Types.{SavingsTransaction, SavingsAccount}
use kamorina.Repayment.Settlement.{PayrollContext, is_before}
use kamorina.Membership.Types.{MemberApplication, is_approved}
use kamorina.Payroll.Types.{PayrollSettings, ProcessorResult, to_column, upsert, new_transaction}

-- An application with its user's account.
pub record Member : Type 0 where
  pub application : MemberApplication
  pub savings_account : Option SavingsAccount

abbrev pub full_payment : ℕ
full_payment = 1

abbrev pub two_installments : ℕ
two_installments = 2

-- The `where` of `memberApplication.findMany`.
abbrev pub is_pending : PayrollContext → MemberApplication → Bool
is_pending context app =
    is_approved app.status && not app.is_paid_off && is_before context.cutoff_end app.approved_at

unfoldable pub calculate_deduction : MemberApplication → ℕ
calculate_deduction app =
    if app.installment_plan == full_payment
    then app.remaining_amount
    else if app.installment_plan == two_installments
    then (if app.paid_amount == 0 then app.entrance_fee / 2 else app.remaining_amount)
    else 0

-- A remaining amount that would be negative is written as 0, which `-` on ℕ gives.
abbrev pub pay_application : ℕ → MemberApplication → MemberApplication
pay_application deduction app = record app {
  paid_amount = to_column (app.paid_amount + deduction);
  remaining_amount = to_column (app.remaining_amount - deduction);
  is_paid_off = leb app.remaining_amount deduction;
}

abbrev add_entrance_fee : ℕ → SavingsTransaction → SavingsTransaction
add_entrance_fee deduction t = record t {
  iuran_pendaftaran = to_column (t.iuran_pendaftaran + deduction);
}

abbrev pub pay_account :
    ℕ → ℕ → PayrollSettings → PayrollContext → ℕ → SavingsAccount → SavingsAccount
pay_account now new_id settings context deduction account = record account {
  saldo_pokok = account.saldo_pokok + deduction;
  transactions =
      upsert context.payroll_period_id (add_entrance_fee deduction)
        (add_entrance_fee deduction (new_transaction now new_id context.payroll_period_id settings))
        account.transactions;
}

abbrev pub skip_row : {Row : Type 0} → Row → ProcessorResult Row → ProcessorResult Row
skip_row row rest = record rest { rows = row ∷ rest.rows }

-- The body of the loop for a member with an account.
abbrev pub pay_member :
    ℕ
    → ℕ
    → PayrollSettings
    → PayrollContext
    → Member
    → SavingsAccount
    → ProcessorResult Member
    → ProcessorResult Member
pay_member now new_id settings context member account rest =
    let app = member.application in
    let deduction = calculate_deduction app in
    if leb deduction 0 then skip_row member rest else record {
      processed_count = rest.processed_count + 1;
      total_amount = deduction + rest.total_amount;
      errors = rest.errors;
      details = record { user_id = app.user_id; amount = deduction } ∷ rest.details;
      rows =
          record {
            application = pay_application deduction app;
            savings_account = some (pay_account now new_id settings context deduction account);
          }
          ∷ rest.rows;
    }

abbrev pub at_account :
    ℕ
    → ℕ
    → PayrollSettings
    → PayrollContext
    → Member
    → Option SavingsAccount
    → ProcessorResult Member
    → ProcessorResult Member
at_account now new_id settings context member none rest = record rest {
  errors = member.application.user_id ∷ rest.errors;
  rows = member ∷ rest.rows;
}
at_account now new_id settings context member (some account) rest =
    pay_member now new_id settings context member account rest

-- The loop, over all the applications; one that is not found by the query stays as it is. `new_ids`
-- gives the id of a new transaction for an application.
unfoldable pub process_fees :
    ℕ → (ℕ → ℕ) → PayrollSettings → PayrollContext → List Member → ProcessorResult Member
unfolding calculate_deduction
process_fees now new_ids settings context [] = record {
  processed_count = 0;
  total_amount = 0;
  errors = [];
  details = [];
  rows = [];
}
process_fees now new_ids settings context (member ∷ members) =
    let rest = process_fees now new_ids settings context members in
    if is_pending context member.application
    then at_account now (new_ids member.application.id) settings context member
        member.savings_account rest
    else skip_row member rest
