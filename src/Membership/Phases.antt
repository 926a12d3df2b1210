-- ===== src/Membership/Phases.antt =====
-- What the status of an application says of the rest of it and of its user, and what the requests of
-- backend/src/member-application do to that.
use kamorina.Base.{
  ℕ, String, ◌≡◌, ◌≢◌, refl, sym, subst, true, false, Option, none, some, List, is_some, ok, ◌⊎◌,
  inl, inr, passed, ok-injective, arith,
}
use kamorina.Loan.Calculation.{Settings}
use kamorina.Deposit.Types.{
  DepositApprovalStep, divisi_simpan_pinjam, ketua, DepositApprovalDecision, DepositApproval,
}
use kamorina.Deposit.Review.{ApproveDepositDto, find_approval}
use kamorina.Deposit.Decisions.{IsAwaiting, IsPassed, decide-IsPassed, check_review-Reviewable}
use kamorina.Membership.Types.{
  ApplicationStatus, under_review, approved, rejected, MemberApplication, User, failed,
  is_under_review,
}
use kamorina.Membership.Submission.{
  SubmitApplicationDto, new_application, resubmitted, write_submission, submit_for, has_status,
}
use kamorina.Membership.Review.{reject, approve_first, approve_last, conclude, process_approval}
use kamorina.Membership.Submitted.{submit_for-Submitted}
use kamorina.Membership.Reviewed.{process_approval-Reviewed}

-- The whole entrance fee is left to pay.
abbrev pub IsOwing : MemberApplication → Type 0
IsOwing app =
    (app.remaining_amount ≡ app.entrance_fee) × (app.paid_amount ≡ 0) × (app.is_paid_off ≡ false)

-- The user is no member, and has no account.
abbrev pub IsOutside : User → Type 0
IsOutside u = (u.member_verified ≡ false) × (u.savings_account ≡ none)

abbrev pub IsAt : DepositApprovalStep → MemberApplication → Type 0
IsAt step app = (app.current_step ≡ some step) × IsAwaiting step app.approvals

-- A user is a member, with an account, exactly if both reviewers have approved.
abbrev pub IsPhase : ApplicationStatus → User → MemberApplication → Type 0
IsPhase under_review u app =
    (IsAt divisi_simpan_pinjam app ⊎ IsAt ketua app) × IsOwing app × IsOutside u
IsPhase approved u app =
    (app.current_step ≡ none)
    × IsPassed ketua app.approvals
    × (is_some app.approved_at ≡ true)
    × (u.member_verified ≡ true)
    × (is_some u.savings_account ≡ true)
IsPhase rejected u app = (app.current_step ≡ none) × IsOwing app × IsOutside u

abbrev pub IsStage : Option MemberApplication → User → Type 0
IsStage none u = IsOutside u
IsStage (some app) u = IsPhase app.status u app

abbrev pub IsValid : User → Type 0
IsValid u = IsStage u.application u

status_open : (s : ApplicationStatus) → is_under_review s ≡ true → s ≡ under_review
status_open under_review h = refl
status_open approved h = cc
status_open rejected h = cc

-- Nothing is paid for an application of someone who is no member.
pub unpaid :
    (u : User) (s : ApplicationStatus) (app : MemberApplication)
    → is_under_review s ≡ false
    → u.member_verified ≡ false
    → IsPhase s u app
    → (app.paid_amount ≡ 0) × (app.is_paid_off ≡ false) × (u.savings_account ≡ none)
unpaid u under_review app h v p = cc
unpaid u approved app h v p = absurd (ground (arith, v, p.3))
unpaid u rejected app h v p = (p.1.1, p.1.2, p.2.1)

module _ (now fee new_id first second : ℕ) (dto : SubmitApplicationDto) (u : User) where
  written-IsValid :
      (o : Option MemberApplication)
      → u.application ≡ o
      → first ≢ second
      → has_status is_under_review o ≡ false
      → u.member_verified ≡ false
      → IsStage o u
      → IsValid (write_submission now fee new_id first second dto u)
  unfolding write_submission new_application resubmitted
  written-IsValid none e d open_status v out =
      rw e (inl (refl, (refl, refl, d, refl, refl)), (refl, refl, refl), out)
  written-IsValid (some app) e d open_status v p =
      let (paid, settled, no_account) = unpaid u app.status app open_status v p in
      rw e (inl (refl, (refl, refl, d, refl, refl)), (refl, paid, settled), (v, no_account))

module _ (now approver : ℕ) (notes : Option String) (a : DepositApproval) (u : User)
    (app : MemberApplication) where
  conclude-IsValid :
      (step : DepositApprovalStep) (decision : DepositApprovalDecision) {u' : User}
      → find_approval step app.approvals ≡ some a
      → app.status ≡ under_review
      → IsAwaiting step app.approvals
      → IsOwing app
      → IsOutside u
      → conclude now approver notes step a u app decision ≡ ok u'
      → IsValid u'
  unfolding reject approve_first approve_last
  conclude-IsValid step DepositApprovalDecision.rejected f s w o out h =
      subst IsValid (ok-injective h) (refl, o, out)
  conclude-IsValid divisi_simpan_pinjam DepositApprovalDecision.approved f s w o out h =
      subst IsValid (ok-injective h) (
        subst
          (λ k.
            IsPhase k (record u { application = some (approve_first now approver notes a app) })
              (approve_first now approver notes a app))
          (sym s)
          (
            inr (refl, decide-IsPassed divisi_simpan_pinjam now approver notes a app.approvals w f),
            o,
            out,
          ))
  conclude-IsValid ketua DepositApprovalDecision.approved f s w o out h =
      let (c, done) = passed (is_some u.savings_account) failed _ h in
      subst IsValid (ok-injective done)
        (refl, decide-IsPassed ketua now approver notes a app.approvals w f, refl, refl, refl)

-- An open application of a valid user waits at one of the two steps.
pub waiting :
    (s : ApplicationStatus) (u : User) (app : MemberApplication) (step : DepositApprovalStep)
    → IsPhase s u app
    → app.current_step ≡ some step
    → is_under_review s ≡ true
    → IsAwaiting step app.approvals × IsOwing app × IsOutside u
waiting under_review u app divisi_simpan_pinjam (inl (e, w), o, out) c h = (w, o, out)
waiting under_review u app ketua (inl (e, w), o, out) c h = cc
waiting under_review u app divisi_simpan_pinjam (inr (e, w), o, out) c h = cc
waiting under_review u app ketua (inr (e, w), o, out) c h = (w, o, out)
waiting approved u app step p c h = cc
waiting rejected u app step p c h = cc

-- A submission that succeeds takes a valid user to a valid user whose application is under review,
-- if the ids of the two approval records differ.
pub submitted_user-IsValid :
    (settings : Settings) (now new_id first second : ℕ) (dto : SubmitApplicationDto)
    (users : List User) (u : User) {new : User}
    → IsValid u
    → first ≢ second
    → submit_for settings now new_id first second dto users u ≡ ok new
    → IsValid new
submitted_user-IsValid settings now new_id first second dto users u v d h =
    let s = submit_for-Submitted settings now new_id first second dto users u h in
    subst IsValid (sym s.written) (
      written-IsValid now s.fee new_id first second dto u u.application refl d s.not_open
        s.no_member v)

module _ (now approver : ℕ) (roles : List String) (dto : ApproveDepositDto) (u : User) where
  -- A review that succeeds takes a valid user to a valid user: the user becomes a member, with an
  -- account, only when the second reviewer approves what the first one has approved.
  pub reviewed_user-IsValid :
      {u' : User} → IsValid u → process_approval now approver roles dto u ≡ ok u' → IsValid u'
  reviewed_user-IsValid v h =
      let r = process_approval-Reviewed now approver roles dto u h in
      let c = check_review-Reviewable roles r.app.approvals r.app.current_step r.checked in
      let p : IsPhase r.app.status u r.app = subst (λ o. IsStage o u) r.has_app v in
      let (w, o, out) = waiting r.app.status u r.app r.found.0 p c.is_current r.is_open in
      conclude-IsValid now approver dto.notes r.found.1 u r.app r.found.0 dto.decision c.found
        (status_open r.app.status r.is_open) w o out r.concluded
