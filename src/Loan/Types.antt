-- ===== src/Loan/Types.antt =====
-- The loan models and enums of backend/prisma/schema.prisma, a loan with the relations that the
-- services include. Amounts and rates are whole hundredths, times are milliseconds, and ids are
-- numbers, since they are only compared.
use kamorina.Base.{ℕ, String, Bool, true, false, Option, List}

pub data LoanType : Type 0 where
  cash_loan goods_reimburse goods_online goods_phone excess_loan : LoanType

pub data LoanStatus : Type 0 where
  draft submitted under_review_dsp under_review_ketua under_review_pengawas : LoanStatus
  approved_pending_disbursement disbursement_in_progress pending_authorization : LoanStatus
  disbursed completed rejected cancelled : LoanStatus

pub data LoanApprovalStep : Type 0 where
  divisi_simpan_pinjam ketua pengawas : LoanApprovalStep

pub data LoanApprovalDecision : Type 0 where
  approve reject revise : LoanApprovalDecision

-- The request has the price fields of the loan's own type.
pub record ReviseLoanDto : Type 0 where
  pub loan_tenor : ℕ
  pub revision_notes : String
  pub loan_amount : ℕ
  pub item_price : ℕ
  pub retail_price : ℕ
  pub cooperative_price : ℕ

-- The figures that a revision leaves in its approval record.
pub record RevisedData : Type 0 where
  pub loan_amount : ℕ
  pub loan_tenor : ℕ
  pub interest_rate : ℕ
  pub monthly_installment : ℕ
  pub total_repayment : ℕ
  pub shop_margin_rate : Option ℕ
  pub type_specific_data : ReviseLoanDto

pub record LoanApproval : Type 0 where
  pub id : ℕ
  pub step : LoanApprovalStep
  pub decision : Option LoanApprovalDecision
  pub decided_at : Option ℕ
  pub approver_id : Option ℕ
  pub notes : Option String
  pub revised_data : Option RevisedData

pub record LoanHistory : Type 0 where
  pub status : LoanStatus
  pub loan_type : LoanType
  pub loan_amount : ℕ
  pub loan_tenor : ℕ
  pub loan_purpose : String
  pub interest_rate : Option ℕ
  pub monthly_installment : Option ℕ
  pub action : String
  pub action_at : ℕ
  pub action_by : Option ℕ
  pub notes : Option String

pub record LoanDisbursement : Type 0 where
  pub processed_by : ℕ
  pub disbursement_date : String
  pub disbursement_time : String
  pub notes : Option String

pub record LoanAuthorization : Type 0 where
  pub authorized_by : ℕ
  pub authorization_date : String
  pub authorization_time : String
  pub notes : Option String

-- A day of the month, with the months counted through the years.
pub record Day : Type 0 where
  pub month : ℕ
  pub date : ℕ

pub record LoanInstallment : Type 0 where
  pub installment_number : ℕ
  pub due_date : Day
  pub amount : ℕ
  pub is_paid : Bool
  pub paid_at : Option ℕ
  pub paid_amount : Option ℕ
  pub payroll_period_id : Option ℕ

-- The row of the table that belongs to the loan's type, if it was created.
pub data LoanDetails : Type 0 where
  no_details : LoanDetails
  cash_loan_details excess_loan_details : LoanDetails
  goods_reimburse_details : (item_price : ℕ) → LoanDetails
  goods_online_details : (item_price shop_margin_rate : ℕ) → LoanDetails
  goods_phone_details : (retail_price cooperative_price : ℕ) → LoanDetails

pub record LoanApplication : Type 0 where
  pub id : ℕ
  pub user_id : ℕ
  pub loan_type : LoanType
  pub loan_amount : ℕ
  pub loan_tenor : ℕ
  pub loan_purpose : String
  pub interest_rate : Option ℕ
  pub monthly_installment : Option ℕ
  pub total_repayment : Option ℕ
  pub status : LoanStatus
  pub current_step : Option LoanApprovalStep
  pub submitted_at : Option ℕ
  pub approved_at : Option ℕ
  pub rejected_at : Option ℕ
  pub disbursed_at : Option ℕ
  pub rejection_reason : Option String
  pub revision_count : ℕ
  pub last_revised_at : Option ℕ
  pub last_revised_by : Option ℕ
  pub revision_notes : Option String
  pub approvals : List LoanApproval
  pub history : List LoanHistory
  pub disbursement : Option LoanDisbursement
  pub authorization : Option LoanAuthorization
  pub loan_installments : List LoanInstallment
  pub details : LoanDetails

-- What the services throw, by the message.
pub data LoanError : Type 0 where
  loan_not_found : LoanError
  not_in_review no_access_to_step no_approval_record already_processed : LoanError
  status_mismatch : (expected got : LoanStatus) → LoanError
  only_at_dsp_step not_under_review_dsp : LoanError
  no_access_to_loan only_drafts : LoanError
  not_pending_disbursement not_pending_authorization : (got : LoanStatus) → LoanError
  no_disbursement_data not_disbursed : LoanError
  tenor_below_minimum : LoanError
  tenor_above_maximum : (max_tenor : ℕ) → LoanError
  employee_not_found limit_not_found : LoanError
  amount_above_maximum amount_below_minimum : (limit : ℕ) → LoanError
  fund_not_set fund_empty amount_above_fund amount_not_positive fund_insufficient : LoanError
  cooperative_price_above_retail prices_not_positive details_not_found : LoanError
  user_not_found not_permanent_employee not_verified_member : LoanError

-- `===` on the enums.
abbrev pub is_status : LoanStatus → LoanStatus → Bool
is_status LoanStatus.draft LoanStatus.draft = true
is_status LoanStatus.submitted LoanStatus.submitted = true
is_status LoanStatus.under_review_dsp LoanStatus.under_review_dsp = true
is_status LoanStatus.under_review_ketua LoanStatus.under_review_ketua = true
is_status LoanStatus.under_review_pengawas LoanStatus.under_review_pengawas = true
is_status LoanStatus.approved_pending_disbursement LoanStatus.approved_pending_disbursement = true
is_status LoanStatus.disbursement_in_progress LoanStatus.disbursement_in_progress = true
is_status LoanStatus.pending_authorization LoanStatus.pending_authorization = true
is_status LoanStatus.disbursed LoanStatus.disbursed = true
is_status LoanStatus.completed LoanStatus.completed = true
is_status LoanStatus.rejected LoanStatus.rejected = true
is_status LoanStatus.cancelled LoanStatus.cancelled = true
is_status _ _ = false

abbrev pub is_step : LoanApprovalStep → LoanApprovalStep → Bool
is_step LoanApprovalStep.divisi_simpan_pinjam LoanApprovalStep.divisi_simpan_pinjam = true
is_step LoanApprovalStep.ketua LoanApprovalStep.ketua = true
is_step LoanApprovalStep.pengawas LoanApprovalStep.pengawas = true
is_step _ _ = false

abbrev pub is_excess : LoanType → Bool
is_excess LoanType.excess_loan = true
is_excess _ = false

abbrev pub is_phone : LoanType → Bool
is_phone LoanType.goods_phone = true
is_phone _ = false
