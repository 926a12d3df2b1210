-- ===== src/Deposit/Change/Bulk.antt =====
-- `bulkProcessApproval` of backend/src/deposit/deposit-change.service.ts. The rows of two changes can
-- share a deposit or an account, so that the database is given by how a change is loaded with what
-- its review needs, and how that is written back.
use kamorina.Base.{
  ℕ, String, ◌≡◌, refl, Option, none, some, List, Result, ok, err, ◌>>=◌, BulkResults, bulk,
  bulk_keeps, bulk-reported, reported, length, >>=-eq-ok, ok-injective, subst, ap,
}
use kamorina.Loan.Calculation.{Settings}
use kamorina.Deposit.Types.{DepositError, change_not_found}
use kamorina.Deposit.Dates.{LocalDate}
use kamorina.Deposit.Review.{ApproveDepositDto}
use kamorina.Deposit.Change.Types.{ChangeRow}
use kamorina.Deposit.Change.Approval.{process_approval}
use kamorina.Deposit.Change.Phases.{IsValid}
use kamorina.Deposit.Change.Reviewed.{process_approval-IsValid}

-- The database of the changes: `write` ends the transaction of a review.
pub record ChangeStore : Type 1 where
  pub State : Type 0
  pub load : ℕ → State → Option ChangeRow
  pub write : ChangeRow → State → State

module _ (store : ChangeStore) (settings : Settings) (now : ℕ) (today : LocalDate) (new_ids : ℕ → ℕ)
    (approver : ℕ) (roles : List String) (dto : ApproveDepositDto) where
  open store use {State, load, write}

  abbrev review_loaded : ℕ → State → Option ChangeRow → Result DepositError (State × Unit {0})
  review_loaded id s none = err change_not_found
  review_loaded id s (some row) = do
    row' ← process_approval settings now today (new_ids id) approver roles dto row
    ok (write row' s, tt)

  unfoldable pub bulk_process_approval :
      List ℕ → State → BulkResults DepositError (Unit {0}) × State
  bulk_process_approval = bulk (λ id s. review_loaded id s (load id s))

  module _ (P : State → Type 0)
      (valid : (id : ℕ) (s : State) (row : ChangeRow)
        → P s
        → load id s ≡ some row
        → IsValid row.request)
      (kept : (id : ℕ) (s : State) (row row' : ChangeRow)
        → P s
        → load id s ≡ some row
        → IsValid row'.request
        → P (write row' s)) where
    review_loaded_keeps :
        (id : ℕ) (s : State) (o : Option ChangeRow) {s' : State} {u : Unit {0}}
        → P s
        → load id s ≡ o
        → review_loaded id s o ≡ ok (s', u)
        → P s'
    review_loaded_keeps id s none p l e = cc
    review_loaded_keeps id s (some row) p l e =
        let (row', reviewed, done) =
          >>=-eq-ok (process_approval settings now today (new_ids id) approver roles dto row)
            (λ k. ok (write k s, tt)) e in
        let v =
          process_approval-IsValid settings now today (new_ids id) approver roles dto row
            (valid id s row p l) reviewed in
        subst P (ap (λ k. k.0) (ok-injective done)) (kept id s row row' p l v)

    -- A bulk review of changes reports every id that was asked for, and keeps what every write of a
    -- valid change keeps, if what it keeps says that the changes that are loaded are valid.
    pub bulk_process_approval-keeps_changes :
        (ids : List ℕ) (s : State)
        → P s
        → let (results, s') = bulk_process_approval ids s in (reported results ≡ length ids) × P s'
    unfolding bulk_process_approval
    bulk_process_approval-keeps_changes ids s h = (
      bulk-reported _ ids s,
      bulk_keeps P _ (λ id t t' u p e. review_loaded_keeps id t (load id t) p refl e) ids s h,
    )
