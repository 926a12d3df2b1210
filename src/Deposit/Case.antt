-- ===== src/Deposit/Case.antt =====
-- One deposit with its requests for changes and its owner's account, the operations of
-- backend/src/deposit on them as steps, and the payroll's run on the deposit.
use kamorina.Base.{ℕ, ◌≡◌, ◌≢◌, String, Option, none, List, [], ◌∷◌, ◌++◌, ok}
use kamorina.Loan.Calculation.{Settings}
use kamorina.Savings.Types.{SavingsAccount}
use kamorina.Repayment.Settlement.{PayrollContext}
use kamorina.Payroll.Types.{PayrollSettings}
use kamorina.Payroll.DepositSavings.{collect_all}
use kamorina.Deposit.Types.{DepositApplication}
use kamorina.Deposit.Dates.{LocalDate}
use kamorina.Deposit.Review.{ApproveDepositDto}
use kamorina.Deposit.Application.{Options, process_approval as review_deposit}
use kamorina.Deposit.Change.Types.{DepositChangeRequest, ChangeRow}
use kamorina.Deposit.Change.Requests.{
  CreateDepositChangeDto, CreateDepositStopDto, UpdateDepositChangeDto, create_draft,
  create_stop_request, update_draft, submit_change_request, cancel_change_request,
}
use kamorina.Deposit.Change.Approval.{process_approval as review_change}

pub record Case : Type 0 where
  pub deposit : DepositApplication
  pub requests : List DepositChangeRequest
  pub savings_account : Option SavingsAccount

abbrev pub row_of : DepositChangeRequest → Case → ChangeRow
row_of r s = record { request = r; deposit = s.deposit; savings_account = s.savings_account }

-- A successful call, or a run of the payroll. A request that is handled is between `xs` and `ys`; the
-- ids of new approval records differ.
pub data Step (s : Case) : Case → Type 0 where
  review :
      (settings : Settings) (now : ℕ) (today : LocalDate) (approver : ℕ) (roles : List String)
      (dto : ApproveDepositDto) (d : DepositApplication)
      → review_deposit settings now today approver roles dto s.deposit ≡ ok d
      → Step s (record s { deposit = d })
  payroll :
      (now : ℕ) (new_ids : ℕ → ℕ) (settings : PayrollSettings) (context : PayrollContext)
      (day : LocalDate) (d : DepositApplication)
      → (collect_all now new_ids settings context day (s.deposit ∷ []) s.savings_account).deposits
        ≡ d ∷ []
      → Step s (record s {
        deposit = d;
        savings_account =
            (collect_all now new_ids settings context day
              (s.deposit ∷ [])
              s.savings_account).savings_account;
      })
  draft :
      (settings : Settings) (options : Options) (new_id user : ℕ) (dto : CreateDepositChangeDto)
      (r : DepositChangeRequest)
      → create_draft settings options new_id user dto s.deposit s.requests ≡ ok r
      → Step s (record s { requests = s.requests ++ r ∷ [] })
  stop :
      (settings : Settings) (now new_id first second user : ℕ) (dto : CreateDepositStopDto)
      (r : DepositChangeRequest)
      → first ≢ second
      → create_stop_request settings now new_id first second user dto s.deposit s.requests ≡ ok r
      → Step s (record s { requests = s.requests ++ r ∷ [] })
  update :
      (options : Options) (user : ℕ) (dto : UpdateDepositChangeDto)
      (xs ys : List DepositChangeRequest) (r r' : DepositChangeRequest)
      → s.requests ≡ xs ++ r ∷ ys
      → update_draft options user dto s.deposit r ≡ ok r'
      → Step s (record s { requests = xs ++ r' ∷ ys })
  submit :
      (now first second user : ℕ) (xs ys : List DepositChangeRequest) (r r' : DepositChangeRequest)
      → first ≢ second
      → s.requests ≡ xs ++ r ∷ ys
      → submit_change_request now first second user r ≡ ok r'
      → Step s (record s { requests = xs ++ r' ∷ ys })
  change :
      (settings : Settings) (now : ℕ) (today : LocalDate) (new_id approver : ℕ)
      (roles : List String) (dto : ApproveDepositDto) (xs ys : List DepositChangeRequest)
      (r : DepositChangeRequest) (row : ChangeRow)
      → s.requests ≡ xs ++ r ∷ ys
      → review_change settings now today new_id approver roles dto (row_of r s) ≡ ok row
      → Step s (record {
        deposit = row.deposit;
        requests = xs ++ row.request ∷ ys;
        savings_account = row.savings_account;
      })
  cancel :
      (user : ℕ) (xs ys : List DepositChangeRequest) (r : DepositChangeRequest)
      → s.requests ≡ xs ++ r ∷ ys
      → cancel_change_request user r ≡ ok none
      → Step s (record s { requests = xs ++ ys })

pub data Reach (s : Case) : Case → Type 0 where
  here : Reach s s
  next : {t u : Case} → Reach s t → Step t u → Reach s u
