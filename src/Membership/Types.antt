-- ===== src/Membership/Types.antt =====
-- The rows of an application in backend/prisma/schema.prisma, a user with the application and the
-- account. The schema declares the steps, the decisions and the approval records of an application
-- with the columns of a deposit's; they are modelled once, in kamorina.Deposit.Types. The fees count
-- half hundredths, as in kamorina.Payroll.Types; a date of birth is its text.
use kamorina.Base.{ℕ, String, Bool, true, false, Option, List}
use kamorina.Savings.Types.{SavingsAccount}
use kamorina.Deposit.Types.{DepositApprovalStep, DepositApproval, DepositError}

pub data EmployeeType : Type 0 where
  tetap kontrak : EmployeeType

pub data ApplicationStatus : Type 0 where
  under_review approved rejected : ApplicationStatus

abbrev pub is_approved : ApplicationStatus → Bool
is_approved approved = true
is_approved under_review = false
is_approved rejected = false

abbrev pub is_under_review : ApplicationStatus → Bool
is_under_review under_review = true
is_under_review approved = false
is_under_review rejected = false

abbrev pub is_rejected : ApplicationStatus → Bool
is_rejected rejected = true
is_rejected under_review = false
is_rejected approved = false

pub record ApplicationHistory : Type 0 where
  pub status : ApplicationStatus
  pub nik : Option String
  pub npwp : Option String
  pub date_of_birth : Option String
  pub birth_place : Option String
  pub installment_plan : Option ℕ
  pub submitted_at : ℕ
  pub rejected_at : Option ℕ
  pub approved_at : Option ℕ
  pub rejection_reason : Option String
  pub processed_by : Option ℕ
  pub submission_number : ℕ

pub record MemberApplication : Type 0 where
  pub id : ℕ
  pub user_id : ℕ
  pub installment_plan : ℕ
  pub entrance_fee : ℕ
  pub paid_amount : ℕ
  pub remaining_amount : ℕ
  pub is_paid_off : Bool
  pub status : ApplicationStatus
  pub current_step : Option DepositApprovalStep
  pub submitted_at : Option ℕ
  pub approved_at : Option ℕ
  pub rejected_at : Option ℕ
  pub rejection_reason : Option String
  pub submission_count : ℕ
  pub last_submitted_at : Option ℕ
  pub approvals : List DepositApproval
  pub history : List ApplicationHistory

-- `employee_type` is that of the user's employee, if there is one.
pub record User : Type 0 where
  pub id : ℕ
  pub employee_type : Option EmployeeType
  pub nik : Option String
  pub npwp : Option String
  pub date_of_birth : Option String
  pub birth_place : Option String
  pub installment_plan : Option ℕ
  pub member_verified : Bool
  pub member_verified_at : Option ℕ
  pub application : Option MemberApplication
  pub savings_account : Option SavingsAccount

-- What the service throws, by the message; `refused` is an error of the guards that the reviews share.
pub data ApplicationError : Type 0 where
  user_not_found not_permanent already_member nik_taken npwp_taken : ApplicationError
  already_submitted already_approved fee_not_set : ApplicationError
  application_not_found already_decided failed none_selected : ApplicationError
  refused : DepositError → ApplicationError
