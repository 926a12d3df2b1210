-- ===== src/Deposit/Phases.antt =====
-- What the status of a deposit says of the rest of it, and what the review in
-- backend/src/deposit/deposit.service.ts does to that.
use kamorina.Base.{
  ℕ, ◌<◌, String, ◌≡◌, refl, sym, subst, true, Option, none, some, List, is_some, ok, >>=-eq-ok,
}
use kamorina.Loan.Calculation.{Settings}
use kamorina.Deposit.Types.{
  DepositStatus, under_review_dsp, under_review_ketua, active, completed, cancelled,
  DepositApprovalStep, divisi_simpan_pinjam, ketua, DepositApprovalDecision, DepositApproval,
  DepositApplication,
}
use kamorina.Deposit.Dates.{LocalDate}
use kamorina.Deposit.Review.{ApproveDepositDto, Found, find_approval, check_review}
use kamorina.Deposit.Application.{reject, approve, conclude, process_approval}
use kamorina.Deposit.Decisions.{IsAwaiting, IsPassed, decide-IsPassed, check_review-Reviewable}

-- Nothing has been collected for the deposit.
abbrev pub IsEmpty : DepositApplication → Type 0
IsEmpty d = (d.installment_count ≡ 0) × (d.collected_amount ≡ 0)

-- Both reviewers have approved, and the dates are set.
abbrev pub IsAccepted : DepositApplication → Type 0
IsAccepted d =
    (d.current_step ≡ none)
    × IsPassed ketua d.approvals
    × (is_some d.approved_at ≡ true)
    × (is_some d.activated_at ≡ true)
    × (is_some d.maturity_date ≡ true)

abbrev pub IsPhase : DepositStatus → DepositApplication → Type 0
IsPhase under_review_dsp d =
    (d.current_step ≡ some divisi_simpan_pinjam)
    × IsAwaiting divisi_simpan_pinjam d.approvals
    × IsEmpty d
IsPhase under_review_ketua d =
    (d.current_step ≡ some ketua) × IsAwaiting ketua d.approvals × IsEmpty d
IsPhase DepositStatus.approved d = IsAccepted d × IsEmpty d
IsPhase active d = IsAccepted d × (0 < d.installment_count)
IsPhase completed d = IsAccepted d × (is_some d.completed_at ≡ true)
IsPhase DepositStatus.rejected d = (d.current_step ≡ none) × IsEmpty d
IsPhase cancelled d = ⊥

abbrev pub IsValid : DepositApplication → Type 0
IsValid d = IsPhase d.status d

-- A valid deposit is at a step only in the status of that step.
pub at_step :
    (step : DepositApprovalStep) (s : DepositStatus) (d : DepositApplication)
    → IsPhase s d
    → d.current_step ≡ some step
    → IsAwaiting step d.approvals × IsEmpty d
at_step divisi_simpan_pinjam under_review_dsp d v e = (v.1, v.2)
at_step ketua under_review_ketua d v e = (v.1, v.2)
at_step ketua under_review_dsp d v e = cc
at_step divisi_simpan_pinjam under_review_ketua d v e = cc
at_step _ DepositStatus.approved d v e = cc
at_step _ active d v e = cc
at_step _ completed d v e = cc
at_step _ DepositStatus.rejected d v e = cc
at_step _ cancelled d v e = absurd v

conclude-IsValid :
    (settings : Settings) (now : ℕ) (today : LocalDate) (approver : ℕ) (notes : Option String)
    (step : DepositApprovalStep) (a : DepositApproval) (d : DepositApplication)
    (decision : DepositApprovalDecision)
    → find_approval step d.approvals ≡ some a
    → IsAwaiting step d.approvals
    → IsEmpty d
    → IsValid (conclude settings now today approver notes step a d decision)
unfolding reject approve
conclude-IsValid settings now today approver notes step a d DepositApprovalDecision.rejected f w e =
    (refl, e)
conclude-IsValid settings now today approver notes divisi_simpan_pinjam a d
      DepositApprovalDecision.approved f w e =
    (refl, decide-IsPassed divisi_simpan_pinjam now approver notes a d.approvals w f, e)
conclude-IsValid settings now today approver notes ketua a d DepositApprovalDecision.approved f w
      e =
    ((refl, decide-IsPassed ketua now approver notes a d.approvals w f, refl, refl, refl), e)

module _ (settings : Settings) (now : ℕ) (today : LocalDate) (approver : ℕ) (roles : List String)
    (dto : ApproveDepositDto) (d : DepositApplication) where
  -- What a review returns that has passed its guards.
  pub process_approval-reviewed :
      {d' : DepositApplication}
      → process_approval settings now today approver roles dto d ≡ ok d'
      → (w : Found) × (check_review roles d.current_step d.approvals ≡ ok w)
        × (d' ≡ conclude settings now today approver dto.notes w.0 w.1 d dto.decision)
  unfolding process_approval
  process_approval-reviewed h =
      let (w, e, done) =
        >>=-eq-ok (check_review roles d.current_step d.approvals)
          (λ w. ok (conclude settings now today approver dto.notes w.0 w.1 d dto.decision)) h in
      (w, e, cc done)

  -- A review that succeeds keeps a deposit valid.
  pub reviewed_deposit-IsValid :
      {d' : DepositApplication}
      → IsValid d
      → process_approval settings now today approver roles dto d ≡ ok d'
      → IsValid d'
  reviewed_deposit-IsValid v h =
      let (w, e, done) = process_approval-reviewed h in
      let r = check_review-Reviewable roles d.approvals d.current_step e in
      let (awaiting, empty) = at_step w.0 d.status d v r.is_current in
      subst IsValid (sym done) (
        conclude-IsValid settings now today approver dto.notes w.0 w.1 d dto.decision r.found
          awaiting empty)
