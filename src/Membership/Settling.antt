-- ===== src/Membership/Settling.antt =====
-- From the application in backend/src/member-application/member-application.service.ts to the entrance
-- fee that is paid in the payroll runs of backend/src/payroll/services/membership-fee.processor.ts.
use kamorina.Base.{
  ℕ, ◌*◌, ◌%◌, ◌<◌, ◌≤◌, String, ◌≡◌, refl, sym, subst, ap, ◌∙◌, true, Option, none, some, List, [],
  ◌∷◌, All, ok, ◌⊎◌, inl, inr, arith,
}
use kamorina.Loan.Calculation.{Settings}
use kamorina.Deposit.Review.{ApproveDepositDto}
use kamorina.Repayment.Settlement.{PayrollContext}
use kamorina.Payroll.Types.{PayrollSettings}
use kamorina.Payroll.MembershipFee.{Member, process_fees}
use kamorina.Payroll.PaidOff.{IsOpen, IsPaidOff, process_fees_twice-IsPaidOff}
use kamorina.Membership.Types.{MemberApplication, User}
use kamorina.Membership.Submission.{SubmitApplicationDto, submit_for}
use kamorina.Membership.Review.{new_account, process_approval}
use kamorina.Membership.Phases.{IsValid}
use kamorina.Membership.Submitted.{submit_for-Submitted}
use kamorina.Membership.Joining.{
  Pending, Joined, written-Pending, reviewed-Joined, not_reviewed_again,
}

fee-injective : {a b : ℕ} → some a ≡ some b → a ≡ b
fee-injective e = ground arith

-- What the payroll's query makes of a user with an application.
abbrev pub fee_member : User → Option MemberApplication → Option Member
fee_member u none = none
fee_member u (some app) = some (record { application = app; savings_account = u.savings_account })

-- A user who joined in time is an open member of the run.
Joined-IsOpen :
    {fee plan time : ℕ} (cutoff : ℕ) (u : User) (j : Joined fee plan time u)
    → (plan ≡ 1) ⊎ (plan ≡ 2)
    → 0 < fee
    → fee % 2 ≡ 0
    → time ≤ cutoff
    → IsOpen cutoff (record { application = j.app; savings_account = u.savings_account })
Joined-IsOpen {fee} {plan} {time} cutoff u j plans positive even in_time =
    let (entrance, remaining, unpaid_yet, unsettled, chosen) = j.owes in
    record {
      account = new_account;
      has_account = j.account;
      is_empty = refl;
      is_approved = j.accepted;
      approved_at = time;
      has_approved_at = j.at_time;
      is_in_time = in_time;
      is_unsettled = unsettled;
      plan = subst (λ k. (k ≡ 1) ⊎ (k ≡ 2)) (sym chosen) plans;
      is_charged = omega (arith, entrance);
      has_halves = subst (λ k. k % 4 ≡ 0) (sym entrance) (omega (arith, even));
      is_unpaid = unpaid_yet;
      remains = remaining ∙ sym entrance;
    }

module _ (now now' : ℕ) (new_ids new_ids' : ℕ → ℕ) (settings settings' : PayrollSettings)
    (context context' : PayrollContext) (later : context.cutoff_end ≤ context'.cutoff_end) where
  -- What the two runs leave of a user who joined.
  abbrev pub IsSettled : ℕ → User → Type 0
  IsSettled fee u =
      (m : Member) × (fee_member u u.application ≡ some m)
      × (m.application.entrance_fee ≡ 2 * fee)
      × All IsPaidOff
          (process_fees now' new_ids' settings' context'
            (process_fees now new_ids settings context (m ∷ [])).rows).rows

  Joined-IsSettled :
      {fee plan time : ℕ} (u : User)
      → (plan ≡ 1) ⊎ (plan ≡ 2)
      → 0 < fee
      → fee % 2 ≡ 0
      → time ≤ context.cutoff_end
      → Joined fee plan time u
      → IsSettled fee u
  Joined-IsSettled {fee} {plan} u plans positive even in_time j =
      let m : Member = record { application = j.app; savings_account = u.savings_account } in
      (
        m,
        ap (fee_member u) j.has_app,
        j.owes.0,
        process_fees_twice-IsPaidOff now now' new_ids new_ids' settings settings' context context'
            later (m ∷ []) (Joined-IsOpen context.cutoff_end u j plans positive even in_time, tt),
      )

  -- From the application to the fee that is paid: a valid user submits an application with the plan 1
  -- or 2, while the entrance fee of the settings is positive and has halves of whole hundredths; two
  -- reviews succeed, after which the user is a member, by the first run's cutoff. Then two payroll
  -- runs, the second with no earlier cutoff, pay off the fee of the settings.
  pub joined_member-IsSettled :
      (rules : Settings) (submitted_at new_id first second : ℕ) (dto : SubmitApplicationDto)
      (users : List User) (u : User) (seen_at reviewer : ℕ) (roles : List String)
      (vote : ApproveDepositDto) (joined_at reviewer' : ℕ) (roles' : List String)
      (vote' : ApproveDepositDto) (fee : ℕ) {u₁ u₂ u₃ : User}
      → IsValid u
      → (dto.installment_plan ≡ 1) ⊎ (dto.installment_plan ≡ 2)
      → rules "initial_membership_fee" ≡ some fee
      → 0 < fee
      → fee % 2 ≡ 0
      → submit_for rules submitted_at new_id first second dto users u ≡ ok u₁
      → process_approval seen_at reviewer roles vote u₁ ≡ ok u₂
      → process_approval joined_at reviewer' roles' vote' u₂ ≡ ok u₃
      → u₃.member_verified ≡ true
      → joined_at ≤ context.cutoff_end
      → IsSettled fee u₃
  joined_member-IsSettled rules submitted_at new_id first second dto users u seen_at reviewer roles
        vote joined_at reviewer' roles' vote' fee {u₁} {u₂} {u₃} valid plans has_fee positive even
        sent seen accepted member in_time =
      let s = submit_for-Submitted rules submitted_at new_id first second dto users u sent in
      let same : s.fee ≡ fee = fee-injective (sym s.has_fee ∙ has_fee) in
      let pending : Pending fee dto.installment_plan u₁ =
        subst (λ k. Pending k dto.installment_plan u₁) same
          (subst (Pending s.fee dto.installment_plan) (sym s.written) (
            written-Pending submitted_at s.fee new_id first second dto u s.not_open s.no_member
              valid)) in
      elim (reviewed-Joined seen_at reviewer roles vote u₁ pending seen) [
        | inr j ↦ not_reviewed_again joined_at reviewer' roles' vote' u₂ j accepted
        | inl p ↦ elim (reviewed-Joined joined_at reviewer' roles' vote' u₂ p accepted) [
          | inl q ↦ absurd (ground (arith, q.no_member, member))
          | inr j ↦ Joined-IsSettled u₃ plans positive even in_time j
        ]
      ]
