-- ===== src/Loan/Reachable.antt =====
-- Every loan that a sequence of successful requests reaches from a new draft.
use kamorina.Base.{ℕ, String, ◌≡◌, sym, List, ok, subst}
use kamorina.SocialFund.Types.{SocialFund}
use kamorina.Loan.Types.{ReviseLoanDto, draft, disbursed, LoanApplication}
use kamorina.Loan.Calculation.{Settings}
use kamorina.Loan.Validation.{HandlerContext}
use kamorina.Loan.Approval.{ApproveLoanDto, ApprovalOutcome, process_approval}
use kamorina.Loan.Revision.{revise_loan}
use kamorina.Loan.Submission.{NewIds, submit_loan}
use kamorina.Loan.Installment.{Calendar}
use kamorina.Loan.Disbursement.{
  ProcessDisbursementDto, ProcessAuthorizationDto, process_disbursement, process_authorization,
}
use kamorina.Loan.Draft.{UpdateLoanDto}
use kamorina.Loan.DraftUpdate.{update_draft}
use kamorina.Loan.Drafting.{update_draft-IsValid}
use kamorina.Loan.Invariant.{IsPhase, IsValid, IsPaidOut}
use kamorina.Loan.Review.{process_approval-IsValid}
use kamorina.Loan.Workflow.{
  AreDistinct, submit_loan-IsValid, revise_loan-IsValid, process_disbursement-IsValid,
}
use kamorina.Loan.PayOut.{process_authorization-IsValid}

-- One request that the loan accepts, with any arguments.
pub data Step (s t : LoanApplication) : Type 0 where
  submit :
      (context : HandlerContext) (now : ℕ) (ids : NewIds) (user : ℕ) (roles : List String)
      → AreDistinct ids
      → submit_loan context now ids user roles s ≡ ok t
      → Step s t
  update :
      (context : HandlerContext) (user : ℕ) (roles : List String) (dto : UpdateLoanDto)
      → update_draft context user roles dto s ≡ ok t
      → Step s t
  revise :
      (context : HandlerContext) (now user : ℕ) (dto : ReviseLoanDto)
      → revise_loan context now user dto s ≡ ok t
      → Step s t
  review :
      (now user : ℕ) (roles : List String) (dto : ApproveLoanDto) (outcome : ApprovalOutcome)
      → process_approval now user roles dto s ≡ ok (t, outcome)
      → Step s t
  prepare :
      (now user : ℕ) (dto : ProcessDisbursementDto)
      → process_disbursement now user dto s ≡ ok t
      → Step s t
  authorize :
      (calendar : Calendar) (settings : Settings) (now new_id user : ℕ)
      (dto : ProcessAuthorizationDto) (fund fund' : SocialFund)
      → process_authorization calendar settings now new_id user dto fund s ≡ ok (t, fund')
      → Step s t

pub data Reach (s : LoanApplication) : LoanApplication → Type 0 where
  here : Reach s s
  next : {t u : LoanApplication} → Reach s t → Step t u → Reach s u

-- A loan as `createDraft` leaves it.
abbrev pub IsNew : LoanApplication → Type 0
IsNew loan = (loan.status ≡ draft) × IsPhase draft loan

Step-IsValid : {s t : LoanApplication} → Step s t → IsValid s → IsValid t
Step-IsValid {s} (submit context now ids user roles d h) v =
    submit_loan-IsValid context now user s ids roles d v h
Step-IsValid {s} (update context user roles dto h) v =
    update_draft-IsValid context user roles dto s v h
Step-IsValid {s} (revise context now user dto h) v = revise_loan-IsValid context now user s dto v h
Step-IsValid {s} (review now user roles dto outcome h) v =
    process_approval-IsValid now user roles dto s v h
Step-IsValid {s} (prepare now user dto h) v = process_disbursement-IsValid now user s dto v h
Step-IsValid {s} (authorize calendar settings now new_id user dto fund fund' h) v =
    process_authorization-IsValid calendar settings now new_id user dto fund s v h

pub Reach-IsValid : {s t : LoanApplication} → IsNew s → Reach s t → IsValid t
Reach-IsValid {s} n here = subst (λ k. IsPhase k s) (sym n.0) n.1
Reach-IsValid n (next r st) = Step-IsValid st (Reach-IsValid n r)

-- Money is paid out only after the three approvals: a loan that is reached and disbursed has been
-- approved at each of the three steps, has a disbursement and an authorization, and has one
-- installment for each month of its tenor.
pub Reach-disbursed :
    {s t : LoanApplication} → IsNew s → Reach s t → t.status ≡ disbursed → IsPaidOut t
Reach-disbursed {t} n r e = subst (λ k. IsPhase k t) e (Reach-IsValid n r)
