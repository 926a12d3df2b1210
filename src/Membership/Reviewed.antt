-- ===== src/Membership/Reviewed.antt =====
-- What a review of an application that succeeds has passed, in `processApproval` of
-- backend/src/member-application/member-application.service.ts.
use kamorina.Base.{
  ℕ, String, ◌≡◌, refl, true, not, Option, none, some, List, Result, ok, err, passed, >>=-eq-ok,
  arith,
}
use kamorina.Deposit.Types.{DepositError}
use kamorina.Deposit.Review.{ApproveDepositDto, Found, check_review}
use kamorina.Membership.Types.{User, MemberApplication, is_under_review, already_decided}
use kamorina.Membership.Review.{
  refused_by, conclude, review_application, review_found, process_approval,
}

-- The application, the step and the record of a review, and what it returned.
pub record Reviewed (now approver : ℕ) (roles : List String) (dto : ApproveDepositDto) (u u' : User)
    : Type 0 where
  pub app : MemberApplication
  pub has_app : u.application ≡ some app
  pub is_open : is_under_review app.status ≡ true
  pub found : Found
  pub checked : check_review roles app.current_step app.approvals ≡ ok found
  pub concluded : conclude now approver dto.notes found.0 found.1 u app dto.decision ≡ ok u'

refused_by-eq-ok : (r : Result DepositError Found) {w : Found} → refused_by r ≡ ok w → r ≡ ok w
refused_by-eq-ok (ok x) h = ground arith
refused_by-eq-ok (err e) h = cc

module _ (now approver : ℕ) (roles : List String) (dto : ApproveDepositDto) (u : User) where
  review_found-Reviewed :
      (o : Option MemberApplication) {u' : User}
      → u.application ≡ o
      → review_found now approver roles dto u o ≡ ok u'
      → Reviewed now approver roles dto u u'
  unfolding review_application
  review_found-Reviewed none e h = cc
  review_found-Reviewed (some app) e h =
      let (open_status, h1) = passed (not (is_under_review app.status)) already_decided _ h in
      let (w, c, h2) =
        >>=-eq-ok (refused_by (check_review roles app.current_step app.approvals))
          (λ w. conclude now approver dto.notes w.0 w.1 u app dto.decision) h1 in
      record {
        app = app;
        has_app = e;
        is_open = ground (arith, open_status);
        found = w;
        checked = refused_by-eq-ok _ c;
        concluded = h2;
      }

  pub process_approval-Reviewed :
      {u' : User}
      → process_approval now approver roles dto u ≡ ok u'
      → Reviewed now approver roles dto u u'
  unfolding process_approval
  process_approval-Reviewed h = review_found-Reviewed u.application refl h
