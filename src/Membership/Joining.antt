-- ===== src/Membership/Joining.antt =====
-- How a user becomes a member in backend/src/member-application/member-application.service.ts, owing the
-- entrance fee.
use kamorina.Base.{
  ℕ, ◌*◌, String, ◌≡◌, refl, sym, subst, ◌∙◌, true, false, Option, none, some, List, ok, ◌⊎◌, inl,
  inr, passed, ok-injective, is_some, arith,
}
use kamorina.Deposit.Types.{
  DepositApprovalStep, divisi_simpan_pinjam, ketua, DepositApprovalDecision, DepositApproval,
}
use kamorina.Deposit.Review.{ApproveDepositDto}
use kamorina.Membership.Types.{
  ApplicationStatus, approved, MemberApplication, User, failed, is_under_review,
}
use kamorina.Membership.Submission.{
  SubmitApplicationDto, has_status, new_application, resubmitted, application_after,
  write_submission,
}
use kamorina.Membership.Review.{
  new_account, reject, approve_first, approve_last, conclude, process_approval,
}
use kamorina.Membership.Phases.{IsValid, IsStage, unpaid}
use kamorina.Membership.Reviewed.{process_approval-Reviewed}

-- An application with the whole of this fee to pay, in this plan.
abbrev pub Owes : ℕ → ℕ → MemberApplication → Type 0
Owes fee plan app =
    (app.entrance_fee ≡ 2 * fee)
    × (app.remaining_amount ≡ 2 * fee)
    × (app.paid_amount ≡ 0)
    × (app.is_paid_off ≡ false)
    × (app.installment_plan ≡ plan)

clash : (s : ApplicationStatus) → s ≡ approved → is_under_review s ≡ true → ⊥
clash s e h = ground (arith, e, h)

-- A user whose application may still be approved.
pub record Pending (fee plan : ℕ) (u : User) : Type 0 where
  pub app : MemberApplication
  pub has_app : u.application ≡ some app
  pub owes : Owes fee plan app
  pub no_member : u.member_verified ≡ false

-- A user who became a member at this time.
pub record Joined (fee plan time : ℕ) (u : User) : Type 0 where
  pub app : MemberApplication
  pub has_app : u.application ≡ some app
  pub owes : Owes fee plan app
  pub accepted : app.status ≡ approved
  pub at_time : app.approved_at ≡ some time
  pub account : u.savings_account ≡ some new_account

some-injective : {a b : MemberApplication} → some a ≡ some b → a ≡ b
some-injective e = ground arith

module _ {fee plan : ℕ} (now approver : ℕ) (notes : Option String) (a : DepositApproval) (u : User)
    (app : MemberApplication) where
  conclude-Joined :
      (step : DepositApprovalStep) (decision : DepositApprovalDecision) {u' : User}
      → Owes fee plan app
      → u.member_verified ≡ false
      → conclude now approver notes step a u app decision ≡ ok u'
      → Pending fee plan u' ⊎ Joined fee plan now u'
  unfolding reject approve_first approve_last
  conclude-Joined step DepositApprovalDecision.rejected o v h = inl (
      subst (Pending fee plan) (ok-injective h) (record {
        app = reject now approver notes a u app;
        has_app = refl;
        owes = o;
        no_member = v;
      }))
  conclude-Joined divisi_simpan_pinjam DepositApprovalDecision.approved o v h = inl (
      subst (Pending fee plan) (ok-injective h) (record {
        app = approve_first now approver notes a app;
        has_app = refl;
        owes = o;
        no_member = v;
      }))
  conclude-Joined ketua DepositApprovalDecision.approved o v h =
      let (_, done) = passed (is_some u.savings_account) failed _ h in
      inr (
        subst (Joined fee plan now) (ok-injective done) (record {
          app = approve_last now approver notes a u app;
          has_app = refl;
          owes = o;
          accepted = refl;
          at_time = refl;
          account = refl;
        }))

module _ {fee plan : ℕ} (now approver : ℕ) (roles : List String) (dto : ApproveDepositDto)
    (u : User) where
  -- A review of what may still be approved.
  pub reviewed-Joined :
      {u' : User}
      → Pending fee plan u
      → process_approval now approver roles dto u ≡ ok u'
      → Pending fee plan u' ⊎ Joined fee plan now u'
  reviewed-Joined p h =
      let r = process_approval-Reviewed now approver roles dto u h in
      let same : p.app ≡ r.app = some-injective (sym p.has_app ∙ r.has_app) in
      conclude-Joined now approver dto.notes r.found.1 u r.app r.found.0 dto.decision
        (subst (Owes fee plan) same p.owes) p.no_member r.concluded

  -- A member's application is not reviewed again.
  pub not_reviewed_again :
      {u' : User} {time : ℕ} {A : Type 0}
      → Joined fee plan time u
      → process_approval now approver roles dto u ≡ ok u'
      → A
  not_reviewed_again j h =
      let r = process_approval-Reviewed now approver roles dto u h in
      let same : j.app ≡ r.app = some-injective (sym j.has_app ∙ r.has_app) in
      let accepted : r.app.status ≡ approved = subst (λ k. k.status ≡ approved) same j.accepted in
      absurd (clash r.app.status accepted r.is_open)

module _ (now fee new_id first second : ℕ) (dto : SubmitApplicationDto) (u : User) where
  application_after-Owes :
      (o : Option MemberApplication)
      → has_status is_under_review o ≡ false
      → u.member_verified ≡ false
      → IsStage o u
      → Owes fee dto.installment_plan (application_after now fee new_id first second dto u o)
  unfolding new_application resubmitted
  application_after-Owes none h v p = (refl, refl, refl, refl, refl)
  application_after-Owes (some app) h v p =
      let (paid, settled, _) = unpaid u app.status app h v p in (refl, refl, paid, settled, refl)

  pub written-Pending :
      has_status is_under_review u.application ≡ false
      → u.member_verified ≡ false
      → IsValid u
      → Pending fee dto.installment_plan (write_submission now fee new_id first second dto u)
  unfolding write_submission
  written-Pending h v p = record {
    app = application_after now fee new_id first second dto u u.application;
    has_app = refl;
    owes = application_after-Owes u.application h v p;
    no_member = v;
  }
