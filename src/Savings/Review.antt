-- ===== src/Savings/Review.antt =====
-- That a review and a cancellation of backend/src/savings/savings-withdrawal.service.ts keep a
-- withdrawal's phase, and that a reviewer can decide.
use kamorina.Base.{
  ℕ, String, ◌≡◌, refl, true, false, Option, none, some, List, [], ◌∷◌, ◌++◌, arith, is_some, ok,
  subst, sym, inl, inr,
}
use kamorina.Savings.Types.{
  SavingsWithdrawalStatus, submitted, under_review_dsp, under_review_ketua,
  approved_waiting_disbursement, disbursement_in_progress, completed, SavingsWithdrawalStep,
  divisi_simpan_pinjam, ketua, shopkeeper, ketua_auth, ApprovalDecision, approved, rejected,
  SavingsWithdrawal, SavingsWithdrawalApproval,
}
use kamorina.Savings.Approval.{
  ApproveSavingsWithdrawalDto, has_role_for, existing_approval, handle_rejection, handle_approval,
  conclude, at_step, process_approval, cancel_withdrawal, new_approval, is_cancellable,
}
use kamorina.Savings.Phases.{
  IsApprovedAt, IsPhase, IsValid, IsKept, status_at, status_of_step, no_reviewer,
}

module _ (now approver : ℕ) (roles : List String) (dto : ApproveSavingsWithdrawalDto)
    (w : SavingsWithdrawal) where
  -- What a successful review has passed, and what it returned.
  record Reviewed (w' : SavingsWithdrawal) : Type 0 where
    step : SavingsWithdrawalStep
    at_current_step : w.current_step ≡ some step
    has_role : has_role_for step roles ≡ true
    is_open : is_some (existing_approval step w.approvals) ≡ false
    concluded : w' ≡ conclude step now approver dto.notes w dto.decision

  at_step-Reviewed :
      (o : Option SavingsWithdrawalStep) {w' : SavingsWithdrawal}
      → w.current_step ≡ o
      → at_step now approver roles dto w o ≡ ok w'
      → Reviewed w'
  at_step-Reviewed none c h = cc
  at_step-Reviewed (some step) c h = record {
    step = step;
    at_current_step = c;
    has_role = ground arith;
    is_open = ground arith;
    concluded = ground arith;
  }

  process_approval-Reviewed :
      {w' : SavingsWithdrawal} → process_approval now approver roles dto w ≡ ok w' → Reviewed w'
  unfolding process_approval
  process_approval-Reviewed h = at_step-Reviewed w.current_step refl h

module _ (now approver : ℕ) (notes : Option String) (w : SavingsWithdrawal) where
  IsApprovedAt-append :
      (ss : List SavingsWithdrawalStep) (l : List SavingsWithdrawalApproval)
      (s : SavingsWithdrawalStep) (a : SavingsWithdrawalApproval)
      → IsApprovedAt ss l
      → a.step ≡ s
      → a.decision ≡ approved
      → IsApprovedAt (ss ++ s ∷ []) (l ++ a ∷ [])
  IsApprovedAt-append [] [] s a h e d = (e, d, tt)
  IsApprovedAt-append (t ∷ ss) (b ∷ l) s a h e d = (h.0, h.1, IsApprovedAt-append ss l s a h.2 e d)
  IsApprovedAt-append [] (b ∷ l) s a h e d = absurd h
  IsApprovedAt-append (t ∷ ss) [] s a h e d = absurd h

  concluded-IsKept :
      (roles : List String) (step : SavingsWithdrawalStep) (d : ApprovalDecision)
      → w.status ≡ status_at step
      → IsPhase (status_at step) w
      → has_role_for step roles ≡ true
      → IsKept w (conclude step now approver notes w d)
  unfolding handle_rejection handle_approval
  concluded-IsKept roles divisi_simpan_pinjam rejected s p r =
      ((refl, p.2), ground arith, ground arith)
  concluded-IsKept roles ketua rejected s p r = ((refl, p.2), ground arith, ground arith)
  concluded-IsKept roles divisi_simpan_pinjam approved s p r = (
    (
      refl,
      IsApprovedAt-append [] w.approvals divisi_simpan_pinjam
          (new_approval divisi_simpan_pinjam approved now approver notes)
          (subst (IsApprovedAt []) (sym p.1) tt) refl refl,
      p.2,
    ),
    ground arith,
    ground arith,
  )
  concluded-IsKept roles ketua approved s p r = (
    (
      refl,
      IsApprovedAt-append (divisi_simpan_pinjam ∷ []) w.approvals ketua
          (new_approval ketua approved now approver notes) p.1 refl refl,
      p.2,
    ),
    ground arith,
    ground arith,
  )
  concluded-IsKept roles shopkeeper d s p r =
      absurd (ground (arith, no_reviewer shopkeeper (inl refl) roles))
  concluded-IsKept roles ketua_auth d s p r =
      absurd (ground (arith, no_reviewer ketua_auth (inr refl) roles))

module _ (now approver : ℕ) (roles : List String) (dto : ApproveSavingsWithdrawalDto)
    (w : SavingsWithdrawal) where
  -- A review that succeeds keeps a withdrawal valid, asks for no more than before, and pays
  -- nothing.
  pub process_approval-IsKept :
      {w' : SavingsWithdrawal}
      → IsValid w
      → process_approval now approver roles dto w ≡ ok w'
      → IsKept w w'
  process_approval-IsKept v h =
      let r = process_approval-Reviewed now approver roles dto w h in
      let s = status_of_step w r.step w.status v r.at_current_step in
      subst (IsKept w) (sym r.concluded) (
        concluded-IsKept now approver dto.notes w roles r.step dto.decision s
          (subst (λ k. IsPhase k w) s v) r.has_role)

  -- Nobody has decided the step of a valid withdrawal that waits for a reviewer.
  is_open :
      (step : SavingsWithdrawalStep)
      → IsPhase (status_at step) w
      → has_role_for step roles ≡ true
      → existing_approval step w.approvals ≡ none
  unfolding existing_approval
  is_open step p r = go step w.approvals p r
    where
      go :
          (step : SavingsWithdrawalStep) (l : List SavingsWithdrawalApproval)
          → IsPhase (status_at step) (record w { approvals = l })
          → has_role_for step roles ≡ true
          → existing_approval step l ≡ none
      go divisi_simpan_pinjam [] p r = refl
      go divisi_simpan_pinjam (a ∷ l) p r = cc
      go ketua [] p r = refl
      go ketua (a ∷ []) p r = ground arith
      go ketua (a ∷ b ∷ l) p r = absurd p.1.2
      go shopkeeper l p r = absurd (ground (arith, no_reviewer shopkeeper (inl refl) roles))
      go ketua_auth l p r = absurd (ground (arith, no_reviewer ketua_auth (inr refl) roles))

  at_open_step :
      (step : SavingsWithdrawalStep)
      → has_role_for step roles ≡ true
      → existing_approval step w.approvals ≡ none
      → at_step now approver roles dto w (some step)
        ≡ ok (conclude step now approver dto.notes w dto.decision)
  at_open_step step r f = rw (r, f)

  -- A valid withdrawal that waits at a step is decided by any request of a user with the step's
  -- role.
  pub process_approval_succeeds :
      (step : SavingsWithdrawalStep)
      → IsValid w
      → w.current_step ≡ some step
      → has_role_for step roles ≡ true
      → process_approval now approver roles dto w
        ≡ ok (conclude step now approver dto.notes w dto.decision)
  unfolding process_approval
  process_approval_succeeds step v c r =
      let s = status_of_step w step w.status v c in
      subst
        (λ o.
          at_step now approver roles dto w o
          ≡ ok (conclude step now approver dto.notes w dto.decision))
        (sym c) (at_open_step step r (is_open step (subst (λ k. IsPhase k w) s v) r))

abbrev cancelled_of : SavingsWithdrawal → SavingsWithdrawal
cancelled_of w = record w { status = SavingsWithdrawalStatus.cancelled; current_step = none }

cancelled-IsKept :
    (w : SavingsWithdrawal) (k : SavingsWithdrawalStatus)
    → w.status ≡ k
    → IsPhase k w
    → is_cancellable k ≡ true
    → IsKept w (cancelled_of w)
cancelled-IsKept w submitted e p c = ((refl, p.2), ground arith, ground arith)
cancelled-IsKept w under_review_dsp e p c = absurd p
cancelled-IsKept w under_review_ketua e p c = ((refl, p.2), ground arith, ground arith)
cancelled-IsKept w approved_waiting_disbursement e p c = cc
cancelled-IsKept w disbursement_in_progress e p c = cc
cancelled-IsKept w completed e p c = cc
cancelled-IsKept w SavingsWithdrawalStatus.rejected e p c = cc
cancelled-IsKept w SavingsWithdrawalStatus.cancelled e p c = cc

-- A cancellation that succeeds was asked for by the owner, and keeps a withdrawal valid, asks for
-- no more than before, and pays nothing.
pub cancel_withdrawal-IsKept :
    (user : ℕ) (w : SavingsWithdrawal) {w' : SavingsWithdrawal}
    → IsValid w
    → cancel_withdrawal user w ≡ ok w'
    → (w.user_id ≡ user) × IsKept w w'
unfolding cancel_withdrawal
cancel_withdrawal-IsKept user w {w'} v h =
    let e : w' ≡ cancelled_of w = ground arith in
    (ground arith, subst (IsKept w) (sym e) (cancelled-IsKept w w.status refl v (ground arith)))
