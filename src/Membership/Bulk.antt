-- ===== src/Membership/Bulk.antt =====
-- `bulkProcessApproval` of backend/src/member-application/member-application.service.ts, over the
-- users by the ids of their applications.
use kamorina.Base.{
  ℕ, String, ◌≡◌, Bool, true, false, List, [], ◌∷◌, Result, ok, Store, BulkResults, bulk, on_row,
  by_id, by_id-eq-ok, AllRows, on_row-AllRows, bulk_keeps, bulk-reported, reported, length, ◌>>◌,
  throw_if, passed, ok-injective, subst,
}
use kamorina.Deposit.Review.{ApproveDepositDto}
use kamorina.Membership.Types.{User, ApplicationError, application_not_found, none_selected}
use kamorina.Membership.Review.{process_approval}
use kamorina.Membership.Phases.{IsValid, reviewed_user-IsValid}

abbrev is_empty : List ℕ → Bool
is_empty [] = true
is_empty (_ ∷ _) = false

module _ (store : Store User) (now approver : ℕ) where
  open store use {State}

  abbrev bulk_review :
      List String
      → ApproveDepositDto
      → List ℕ
      → State
      → BulkResults ApplicationError (Unit {0}) × State
  bulk_review roles dto =
      bulk (
        on_row store application_not_found (λ u. by_id (process_approval now approver roles dto u)))

  unfoldable pub bulk_process_approval :
      List String
      → ApproveDepositDto
      → List ℕ
      → State
      → Result ApplicationError (BulkResults ApplicationError (Unit {0}) × State)
  bulk_process_approval roles dto ids s =
      throw_if (is_empty ids) none_selected >> ok (bulk_review roles dto ids s)

  -- A bulk review of applications that does not fail as a whole reports every id that was asked for,
  -- and leaves every user valid.
  pub bulk_process_approval-keeps_users :
      (roles : List String) (dto : ApproveDepositDto) (ids : List ℕ) (s : State)
      {r : BulkResults ApplicationError (Unit {0}) × State}
      → AllRows store IsValid s
      → bulk_process_approval roles dto ids s ≡ ok r
      → (reported r.0 ≡ length ids) × AllRows store IsValid r.1
  unfolding bulk_process_approval
  bulk_process_approval-keeps_users roles dto ids s h e =
      let (_, done) = passed (is_empty ids) none_selected _ e in
      subst (λ k. (reported k.0 ≡ length ids) × AllRows store IsValid k.1) (ok-injective done)
        (
          bulk-reported _ ids s,
          bulk_keeps (AllRows store IsValid) _
              (on_row-AllRows store IsValid application_not_found _
                (λ u u' t v q. reviewed_user-IsValid now approver roles dto u v (by_id-eq-ok _ q)))
              ids s h,
        )
