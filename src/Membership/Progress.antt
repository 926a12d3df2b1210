-- ===== src/Membership/Progress.antt =====
-- An application that waits at a step can be decided there.
use kamorina.Base.{
  is_some, Result, ℕ, String, ◌≡◌, refl, sym, subst, ◌∙◌, true, Option, none, some, List, ok, any,
  str_eq, ◌>>◌, throw_if,
}
use kamorina.Savings.Types.{SavingsAccount}
use kamorina.Deposit.Types.{
  DepositApprovalStep, divisi_simpan_pinjam, ketua, DepositApprovalDecision, DepositApproval,
}
use kamorina.Deposit.Review.{ApproveDepositDto, check_review}
use kamorina.Deposit.Standing.{check_review-awaited, reviewer}
use kamorina.Membership.Types.{
  failed, ApplicationError, ApplicationStatus, under_review, approved, rejected, is_under_review,
  MemberApplication, User,
}
use kamorina.Membership.Review.{conclude, process_approval, review_application, review_found}
use kamorina.Membership.Phases.{IsValid, IsStage, IsPhase, waiting}

-- A step is a step of the review.
step_open :
    (s : ApplicationStatus) (u : User) (app : MemberApplication) {step : DepositApprovalStep}
    → IsPhase s u app
    → app.current_step ≡ some step
    → s ≡ under_review
step_open under_review u app p c = refl
step_open approved u app p c = cc
step_open rejected u app p c = cc

cleared :
    (o : Option SavingsAccount)
    → o ≡ none
    → (new : User)
    → (u' : User) × (◌≡◌ {A = Result ApplicationError User}
        (throw_if (is_some o) failed >> ok new)
        (ok u'))
cleared none e new = (new, refl)
cleared (some a) e new = cc

module _ (now approver : ℕ) (roles : List String) (dto : ApproveDepositDto) (u : User) where
  conclude_total :
      (notes : Option String) (app : MemberApplication) (step : DepositApprovalStep)
      (a : DepositApproval) (decision : DepositApprovalDecision)
      → u.savings_account ≡ none
      → (u' : User) × (conclude now approver notes step a u app decision ≡ ok u')
  conclude_total notes app step a DepositApprovalDecision.rejected e = (_, refl)
  conclude_total notes app divisi_simpan_pinjam a DepositApprovalDecision.approved e = (_, refl)
  conclude_total notes app ketua a DepositApprovalDecision.approved e =
      cleared u.savings_account e _

  concluded :
      (app : MemberApplication) (step : DepositApprovalStep) (a : DepositApproval) (u' : User)
      → u.application ≡ some app
      → is_under_review app.status ≡ true
      → check_review roles app.current_step app.approvals ≡ ok (step, a)
      → conclude now approver dto.notes step a u app dto.decision ≡ ok u'
      → process_approval now approver roles dto u ≡ ok u'
  unfolding process_approval review_application
  concluded app step a u' e s c h =
      let reviewed : review_application now approver roles dto u app ≡ ok u' = simp (s, c) h in
      subst (λ o. review_found now approver roles dto u o ≡ ok u') (sym e) reviewed

  -- An application of a valid user that waits at a step is decided, either way, by any request of
  -- someone with the step's role.
  pub waiting_user_total :
      (app : MemberApplication) (step : DepositApprovalStep)
      → IsValid u
      → u.application ≡ some app
      → app.current_step ≡ some step
      → any (λ role. str_eq role (reviewer step)) roles ≡ true
      → (u' : User) × (process_approval now approver roles dto u ≡ ok u')
  waiting_user_total app step v e c r =
      let p : IsPhase app.status u app = subst (λ o. IsStage o u) e v in
      let s = step_open app.status u app p c in
      let (w, o, out) = waiting app.status u app step p c (rw s refl) in
      let (a, found, checked) = check_review-awaited roles step app.approvals w in
      let (u', done) = conclude_total dto.notes app step a dto.decision out.1 in
      (
        u',
        concluded app step a u' e (rw s refl)
            (subst (λ k. check_review roles k app.approvals ≡ ok (step, a)) (sym c)
              (checked ∙ rw r refl))
            done,
      )
