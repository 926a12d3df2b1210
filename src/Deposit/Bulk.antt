-- ===== src/Deposit/Bulk.antt =====
-- `bulkProcessApproval` of backend/src/deposit/deposit.service.ts.
use kamorina.Base.{
  ℕ, String, ◌≡◌, List, by_id, by_id-eq-ok, Store, BulkResults, bulk, on_row, AllRows,
  on_row-AllRows, bulk_keeps, bulk-reported, reported, length,
}
use kamorina.Loan.Calculation.{Settings}
use kamorina.Deposit.Types.{DepositApplication, DepositError, deposit_not_found}
use kamorina.Deposit.Dates.{LocalDate}
use kamorina.Deposit.Review.{ApproveDepositDto}
use kamorina.Deposit.Application.{process_approval}
use kamorina.Deposit.Phases.{IsValid, reviewed_deposit-IsValid}

module _ (store : Store DepositApplication) (settings : Settings) (now : ℕ) (today : LocalDate)
    (user : ℕ) where
  open store use {State}

  unfoldable pub bulk_process_approval :
      List String → ApproveDepositDto → List ℕ → State → BulkResults DepositError (Unit {0}) × State
  bulk_process_approval roles dto = bulk (
      on_row store deposit_not_found
        (λ d. by_id (process_approval settings now today user roles dto d)))

  -- A bulk approval of deposits reports every id that was asked for, and leaves every deposit valid.
  pub bulk_process_approval-keeps_deposits :
      (roles : List String) (dto : ApproveDepositDto) (ids : List ℕ) (s : State)
      → AllRows store IsValid s
      → let (results, s') = bulk_process_approval roles dto ids s in
        (reported results ≡ length ids) × AllRows store IsValid s'
  unfolding bulk_process_approval
  bulk_process_approval-keeps_deposits roles dto ids s h = (
    bulk-reported _ ids s,
    bulk_keeps (AllRows store IsValid) _
        (on_row-AllRows store IsValid deposit_not_found _ (λ d d' t v e.
          reviewed_deposit-IsValid settings now today user roles dto d v (by_id-eq-ok _ e)))
        ids s h,
  )
