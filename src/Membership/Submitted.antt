-- ===== src/Membership/Submitted.antt =====
-- What a submission that succeeds has passed, in `submitApplication` of
-- backend/src/member-application/member-application.service.ts.
use kamorina.Base.{
  ℕ, ◌≡◌, ap, true, false, not, ◌&&◌, Option, none, some, List, ok, find, ◌==◌, >>=-eq-ok,
  ok-injective, passed, sym, arith, ◌>>=◌,
}
use kamorina.Loan.Calculation.{Settings}
use kamorina.Membership.Types.{
  User, is_approved, is_under_review, not_permanent, already_member, nik_taken, npwp_taken,
  already_submitted, already_approved,
}
use kamorina.Membership.Submission.{
  SubmitApplicationDto, holds, taken, is_permanent, has_status, entrance_fee_of, put_user,
  found_user, write_submission, submit_for, submit_application,
}

pub record Submitted (settings : Settings) (now new_id first second : ℕ)
    (dto : SubmitApplicationDto) (users : List User) (u new : User) : Type 0 where
  pub permanent : is_permanent u.employee_type ≡ true
  pub no_member : u.member_verified ≡ false
  pub nik_free : (not (holds dto.nik u.nik) && taken (λ x. x.nik) dto.nik u.id users) ≡ false
  pub npwp_free : (not (holds dto.npwp u.npwp) && taken (λ x. x.npwp) dto.npwp u.id users) ≡ false
  pub not_open : has_status is_under_review u.application ≡ false
  pub not_accepted : has_status is_approved u.application ≡ false
  pub fee : ℕ
  pub has_fee : settings "initial_membership_fee" ≡ some fee
  pub written : new ≡ write_submission now fee new_id first second dto u

fee_found : (o : Option ℕ) {fee : ℕ} → entrance_fee_of o ≡ ok fee → o ≡ some fee
fee_found none h = cc
fee_found (some f) h = ap some (ok-injective h)

user_found : (o : Option User) {u : User} → found_user o ≡ ok u → o ≡ some u
user_found none h = cc
user_found (some f) h = ap some (ok-injective h)

module _ (settings : Settings) (now new_id first second : ℕ) (dto : SubmitApplicationDto) where
  pub submit_for-Submitted :
      (users : List User) (u : User) {new : User}
      → submit_for settings now new_id first second dto users u ≡ ok new
      → Submitted settings now new_id first second dto users u new
  unfolding submit_for
  submit_for-Submitted users u h =
      let (a, h1) = passed (not (is_permanent u.employee_type)) not_permanent _ h in
      let (b, h2) = passed u.member_verified already_member _ h1 in
      let (c, h3) =
        passed (not (holds dto.nik u.nik) && taken (λ x. x.nik) dto.nik u.id users) nik_taken _
          h2 in
      let (d, h4) =
        passed (not (holds dto.npwp u.npwp) && taken (λ x. x.npwp) dto.npwp u.id users) npwp_taken _
          h3 in
      let (e, h5) = passed (has_status is_under_review u.application) already_submitted _ h4 in
      let (f, h6) = passed (has_status is_approved u.application) already_approved _ h5 in
      let (fee, g, h7) =
        >>=-eq-ok (entrance_fee_of (settings "initial_membership_fee"))
          (λ k. ok (write_submission now k new_id first second dto u)) h6 in
      record {
        permanent = ground (arith, a);
        no_member = b;
        nik_free = c;
        npwp_free = d;
        not_open = e;
        not_accepted = f;
        fee = fee;
        has_fee = fee_found _ g;
        written = sym (ok-injective h7);
      }

  -- The user who was found, and the row that was put.
  pub submit_application-Submitted :
      (user_id : ℕ) (users : List User) {after : List User}
      → submit_application settings now new_id first second dto user_id users ≡ ok after
      → (u : User) × (new : User) × (find (λ x. x.id == user_id) users ≡ some u)
        × Submitted settings now new_id first second dto users u new
        × (after ≡ put_user new users)
  unfolding submit_application
  submit_application-Submitted user_id users h =
      let found = find (λ x. x.id == user_id) users in
      let (u, e, h1) =
        >>=-eq-ok (found_user found)
          (λ x.
            submit_for settings now new_id first second dto users x
            >>= (λ y. ok (put_user y users)))
          h in
      let (new, s, h2) =
        >>=-eq-ok (submit_for settings now new_id first second dto users u)
          (λ y. ok (put_user y users)) h1 in
      (u, new, user_found found e, submit_for-Submitted users u s, sym (ok-injective h2))
