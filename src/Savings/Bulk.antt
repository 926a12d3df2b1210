-- ===== src/Savings/Bulk.antt =====
-- The bulk requests of backend/src/savings/savings-withdrawal.service.ts, over the withdrawals of
-- all members.
use kamorina.Base.{
  by_id, by_id-eq-ok, ℕ, String, ◌≡◌, Option, none, some, List, Result, ok, err, Store, BulkResults,
  bulk, on_row, AllRows, on_row-AllRows, save-AllRows, bulk_keeps, bulk-reported, reported, length,
  arith, inl, inr, subst, sym, Option-cases, Result-cases,
}
use kamorina.Loan.Calculation.{Settings}
use kamorina.Savings.Types.{SavingsWithdrawal, SavingsAccount, SavingsError, withdrawal_not_found}
use kamorina.Savings.Approval.{ApproveSavingsWithdrawalDto, process_approval}
use kamorina.Savings.Payment.{
  ConfirmDisbursementDto, ConfirmAuthorizationDto, confirm_disbursement, confirm_authorization,
}
use kamorina.Savings.Phases.{IsPhase, IsValid}
use kamorina.Savings.Review.{process_approval-IsKept}
use kamorina.Savings.Confirmation.{confirm_disbursement-IsKept, confirm_authorization-IsCompleted}

module _ (store : Store SavingsWithdrawal) (now user : ℕ) where
  open store use {State, find_unique, save}

  unfoldable pub bulk_process_approval :
      List String
      → ApproveSavingsWithdrawalDto
      → List ℕ
      → State
      → BulkResults SavingsError (Unit {0}) × State
  bulk_process_approval roles dto =
      bulk (on_row store withdrawal_not_found (λ w. by_id (process_approval now user roles dto w)))

  unfoldable pub bulk_confirm_disbursement :
      ConfirmDisbursementDto → List ℕ → State → BulkResults SavingsError (Unit {0}) × State
  bulk_confirm_disbursement dto =
      bulk (on_row store withdrawal_not_found (λ w. by_id (confirm_disbursement now user dto w)))

  -- A bulk approval of withdrawals reports every id that was asked for, and leaves every withdrawal
  -- valid.
  pub bulk_process_approval-IsValid :
      (roles : List String) (dto : ApproveSavingsWithdrawalDto) (ids : List ℕ) (s : State)
      → AllRows store IsValid s
      → let (results, s') = bulk_process_approval roles dto ids s in
        (reported results ≡ length ids) × AllRows store IsValid s'
  unfolding bulk_process_approval
  bulk_process_approval-IsValid roles dto ids s h = (
    bulk-reported _ ids s,
    bulk_keeps (AllRows store IsValid) _
        (on_row-AllRows store IsValid withdrawal_not_found _
          (λ w w' u v e. (process_approval-IsKept now user roles dto w v (by_id-eq-ok _ e)).0))
        ids s h,
  )

  -- A bulk disbursement of withdrawals reports every id that was asked for, and leaves every
  -- withdrawal valid.
  pub bulk_confirm_disbursement-IsValid :
      (dto : ConfirmDisbursementDto) (ids : List ℕ) (s : State)
      → AllRows store IsValid s
      → let (results, s') = bulk_confirm_disbursement dto ids s in
        (reported results ≡ length ids) × AllRows store IsValid s'
  unfolding bulk_confirm_disbursement
  bulk_confirm_disbursement-IsValid dto ids s h = (
    bulk-reported _ ids s,
    bulk_keeps (AllRows store IsValid) _
        (on_row-AllRows store IsValid withdrawal_not_found _
          (λ w w' u v e. (confirm_disbursement-IsKept now user dto w v (by_id-eq-ok _ e)).0))
        ids s h,
  )

  module _ (accounts : Store SavingsAccount) where
    -- The account's row is written only if there is one.
    abbrev save_account : ℕ → Option SavingsAccount → accounts.State → accounts.State
    save_account owner none a = a
    save_account owner (some account) a = accounts.save owner account a

    abbrev authorize_row :
        Settings
        → ℕ
        → ConfirmAuthorizationDto
        → ℕ
        → State × accounts.State
        → Result SavingsError ((State × accounts.State) × Unit {0})
    authorize_row settings new_id dto id (s, a) = elim (find_unique id s) [
      | none ↦ err withdrawal_not_found
      | some w ↦
          elim (confirm_authorization settings now new_id user dto w
            (accounts.find_unique w.user_id a)) [
              | ok (w', account') ↦ ok ((save id w' s, save_account w.user_id account' a), tt)
              | err e ↦ err e
            ]
    ]

    -- `new_ids` gives the id of the transaction for a withdrawal.
    unfoldable pub bulk_confirm_authorization :
        Settings
        → (ℕ → ℕ)
        → ConfirmAuthorizationDto
        → List ℕ
        → State × accounts.State
        → BulkResults SavingsError (Unit {0}) × (State × accounts.State)
    bulk_confirm_authorization settings new_ids dto =
        bulk (λ id. authorize_row settings (new_ids id) dto id)

    authorize_row-IsValid :
        (settings : Settings) (new_id : ℕ) (dto : ConfirmAuthorizationDto) (id : ℕ)
        (p p' : State × accounts.State) (u : Unit {0})
        → AllRows store IsValid p.0
        → authorize_row settings new_id dto id p ≡ ok (p', u)
        → AllRows store IsValid p'.0
    authorize_row-IsValid settings new_id dto id (s, a) p' u h e =
        elim (Option-cases (find_unique id s)) [
          | inl missing ↦ absurd (ground arith)
          | inr (w, found) ↦
              let o = accounts.find_unique w.user_id a in
              elim (Result-cases (confirm_authorization settings now new_id user dto w o)) [
                | inl ((w', o'), written) ↦
                    let saved : p' ≡ (save id w' s, save_account w.user_id o' a) = ground arith in
                    let ((status, paid, _, _, _), _) =
                      confirm_authorization-IsCompleted settings now new_id user dto w o
                        (h id w found) written in
                    subst (λ q. AllRows store IsValid q.0) (sym saved)
                      (save-AllRows store IsValid id w' s
                        (subst (λ k. IsPhase k w') (sym status) paid) h)
                | inr (x, failed) ↦ absurd (ground arith)
              ]
        ]

    -- A bulk authorization of withdrawals reports every id that was asked for, and leaves every
    -- withdrawal valid.
    pub bulk_confirm_authorization-IsValid :
        (settings : Settings) (new_ids : ℕ → ℕ) (dto : ConfirmAuthorizationDto) (ids : List ℕ)
        (p : State × accounts.State)
        → AllRows store IsValid p.0
        → let (results, p') = bulk_confirm_authorization settings new_ids dto ids p in
          (reported results ≡ length ids) × AllRows store IsValid p'.0
    unfolding bulk_confirm_authorization
    bulk_confirm_authorization-IsValid settings new_ids dto ids p h = (
      bulk-reported _ ids p,
      bulk_keeps (λ q. AllRows store IsValid q.0) _
          (λ id q q' u. authorize_row-IsValid settings (new_ids id) dto id q q' u) ids p h,
    )
