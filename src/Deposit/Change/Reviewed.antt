-- ===== src/Deposit/Change/Reviewed.antt =====
-- What a review of a change in backend/src/deposit/deposit-change.service.ts has passed, and that it keeps the request
-- valid.
use kamorina.Base.{ℕ, String, ◌≡◌, refl, sym, subst, Option, some, List, ok, >>=-eq-ok}
use kamorina.Loan.Calculation.{Settings}
use kamorina.Deposit.Types.{
  DepositApprovalStep, divisi_simpan_pinjam, ketua, DepositApprovalDecision, DepositApproval,
}
use kamorina.Deposit.Dates.{LocalDate}
use kamorina.Deposit.Review.{ApproveDepositDto, find_approval, check_review}
use kamorina.Deposit.Decisions.{IsAwaiting, decide-IsPassed, check_review-Reviewable}
use kamorina.Deposit.Change.Types.{
  DepositChangeStatus, draft, submitted, under_review_dsp, under_review_ketua, cancelled,
  DepositChangeRequest, ChangeRow,
}
use kamorina.Deposit.Change.Approval.{
  handle_rejection, approve_request, handle_approval, conclude, process_approval,
}
use kamorina.Deposit.Change.Phases.{IsPhase, IsTyped, IsValid}

-- The request that a review leaves.
module _ (now approver : ℕ) (notes : Option String) (a : DepositApproval)
    (r : DepositChangeRequest) where
  approve_request-IsValid :
      (step : DepositApprovalStep)
      → find_approval step r.approvals ≡ some a
      → IsAwaiting step r.approvals
      → IsTyped r
      → IsValid (approve_request now approver notes step a r)
  unfolding approve_request
  approve_request-IsValid divisi_simpan_pinjam f w t = record {
    phase = (refl, decide-IsPassed divisi_simpan_pinjam now approver notes a r.approvals w f);
    typed = t;
  }
  approve_request-IsValid ketua f w t = record {
    phase = (refl, decide-IsPassed ketua now approver notes a r.approvals w f, refl, refl);
    typed = t;
  }

  handle_rejection-IsValid : IsTyped r → IsValid (handle_rejection now approver notes a r)
  unfolding handle_rejection
  handle_rejection-IsValid t = record { phase = refl; typed = t }

-- A valid request is at a step only in the status of that step.
pub at_step :
    (step : DepositApprovalStep) (s : DepositChangeStatus) (r : DepositChangeRequest)
    → IsPhase s r
    → r.current_step ≡ some step
    → IsAwaiting step r.approvals
at_step divisi_simpan_pinjam submitted r v e = v.1
at_step ketua under_review_ketua r v e = v.1
at_step ketua submitted r v e = cc
at_step divisi_simpan_pinjam under_review_ketua r v e = cc
at_step _ under_review_dsp r v e = absurd v
at_step _ draft r v e = cc
at_step _ DepositChangeStatus.approved r v e = cc
at_step _ DepositChangeStatus.rejected r v e = cc
at_step _ cancelled r v e = absurd v

conclude-IsValid :
    (settings : Settings) (now : ℕ) (today : LocalDate) (new_id approver : ℕ)
    (notes : Option String) (step : DepositApprovalStep) (a : DepositApproval) (row : ChangeRow)
    (decision : DepositApprovalDecision)
    → find_approval step row.request.approvals ≡ some a
    → IsAwaiting step row.request.approvals
    → IsTyped row.request
    → IsValid (conclude settings now today new_id approver notes step a row decision).request
unfolding handle_approval
conclude-IsValid settings now today new_id approver notes step a row
      DepositApprovalDecision.rejected f w t =
    handle_rejection-IsValid now approver notes a row.request t
conclude-IsValid settings now today new_id approver notes step a row
      DepositApprovalDecision.approved f w t =
    approve_request-IsValid now approver notes a row.request step f w t

module _ (settings : Settings) (now : ℕ) (today : LocalDate) (new_id approver : ℕ)
    (roles : List String) (dto : ApproveDepositDto) (row : ChangeRow) where
  -- What a review of a valid request has passed, and what it returns.
  pub record Reviewed (row' : ChangeRow) : Type 0 where
    pub step : DepositApprovalStep
    pub record_found : DepositApproval
    pub is_current : row.request.current_step ≡ some step
    pub found : find_approval step row.request.approvals ≡ some record_found
    pub awaiting : IsAwaiting step row.request.approvals
    pub concluded :
        row'
        ≡ conclude settings now today new_id approver dto.notes step record_found row dto.decision

  pub process_approval-Reviewed :
      {row' : ChangeRow}
      → IsValid row.request
      → process_approval settings now today new_id approver roles dto row ≡ ok row'
      → Reviewed row'
  unfolding process_approval
  process_approval-Reviewed v h =
      let r = row.request in
      let (w, e, done) =
        >>=-eq-ok (check_review roles r.current_step r.approvals)
          (λ w. ok (conclude settings now today new_id approver dto.notes w.0 w.1 row dto.decision))
          h in
      let p = check_review-Reviewable roles r.approvals r.current_step e in
      record {
        step = w.0;
        record_found = w.1;
        is_current = p.is_current;
        found = p.found;
        awaiting = at_step w.0 r.status r v.phase p.is_current;
        concluded = cc done;
      }

  -- A review that succeeds keeps a request valid.
  pub process_approval-IsValid :
      {row' : ChangeRow}
      → IsValid row.request
      → process_approval settings now today new_id approver roles dto row ≡ ok row'
      → IsValid row'.request
  process_approval-IsValid v h =
      let w = process_approval-Reviewed v h in
      subst (λ k. IsValid k.request) (sym w.concluded)
        (conclude-IsValid settings now today new_id approver dto.notes w.step w.record_found row
          dto.decision w.found w.awaiting v.typed)
