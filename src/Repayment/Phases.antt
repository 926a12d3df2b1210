-- ===== src/Repayment/Phases.antt =====
-- What the status of a repayment says of its two approvals, and what a review in
-- backend/src/loan-repayment/services/repayment-approval.service.ts does to that.
use kamorina.Base.{
  ℕ, String, ◌≡◌, ◌≢◌, refl, true, Option, none, some, List, [], ◌∷◌, arith, is_some, ok, subst,
  sym,
}
use kamorina.Savings.Types.{ApprovalDecision, approved, rejected}
use kamorina.Repayment.Types.{
  RepaymentStatus, under_review_dsp, under_review_ketua, completed, RepaymentApprovalStep,
  divisi_simpan_pinjam, ketua, RepaymentApproval, LoanRepayment, is_status,
}
use kamorina.Repayment.Approval.{
  ApproveRepaymentDto, get_status_for_step, has_role_for, find_approval, decide, process_rejection,
  process_approval_decision, conclude, with_record, at_step, process_approval, get_next_step,
  status_after_approval, is_last_step,
}

-- The records stand in the order of the steps, have different ids, and have these decisions.
abbrev pub HasDecisions :
    List RepaymentApproval → Option ApprovalDecision → Option ApprovalDecision → Type 0
HasDecisions (a ∷ b ∷ []) x y =
    (a.step ≡ divisi_simpan_pinjam)
    × (b.step ≡ ketua)
    × (a.id ≢ b.id)
    × (a.decision ≡ x)
    × (b.decision ≡ y)
HasDecisions _ x y = ⊥

abbrev pub IsPhase : RepaymentStatus → LoanRepayment → Type 0
IsPhase under_review_dsp r =
    (r.current_step ≡ some divisi_simpan_pinjam) × HasDecisions r.approvals none none
IsPhase under_review_ketua r =
    (r.current_step ≡ some ketua) × HasDecisions r.approvals (some approved) none
IsPhase RepaymentStatus.approved r =
    (r.current_step ≡ none)
    × HasDecisions r.approvals (some approved) (some approved)
    × (is_some r.approved_at ≡ true)
IsPhase completed r =
    (r.current_step ≡ none)
    × HasDecisions r.approvals (some approved) (some approved)
    × (is_some r.approved_at ≡ true)
IsPhase RepaymentStatus.rejected r = r.current_step ≡ none

abbrev pub IsValid : LoanRepayment → Type 0
IsValid r = IsPhase r.status r

abbrev HasApproved :
    RepaymentApprovalStep
    → List RepaymentApproval
    → Option ApprovalDecision
    → Option ApprovalDecision
    → Type 0
HasApproved divisi_simpan_pinjam l x y = HasDecisions l (some approved) y
HasApproved ketua l x y = HasDecisions l x (some approved)

-- An approval of a step's record changes that record's decision only.
decide-HasApproved :
    (step : RepaymentApprovalStep) (now approver : ℕ) (notes : Option String)
    (a : RepaymentApproval) (l : List RepaymentApproval) (x y : Option ApprovalDecision)
    → HasDecisions l x y
    → find_approval step l ≡ some a
    → HasApproved step (decide a.id approved now approver notes l) x y
unfolding find_approval decide
decide-HasApproved divisi_simpan_pinjam now approver notes a (b ∷ c ∷ []) x y h f = ground arith
decide-HasApproved ketua now approver notes a (b ∷ c ∷ []) x y h f = ground arith
decide-HasApproved _ now approver notes a [] x y h f = absurd h
decide-HasApproved _ now approver notes a (b ∷ []) x y h f = absurd h
decide-HasApproved _ now approver notes a (b ∷ c ∷ d ∷ l) x y h f = absurd h

module _ (now approver : ℕ) (notes : Option String) (a : RepaymentApproval)
    (r : LoanRepayment) where
  conclude-IsValid :
      (step : RepaymentApprovalStep) (d : ApprovalDecision)
      → find_approval step r.approvals ≡ some a
      → IsPhase (get_status_for_step step) r
      → IsValid (conclude step now approver notes a r d)
  unfolding process_approval_decision process_rejection get_status_for_step status_after_approval
      is_last_step get_next_step
  conclude-IsValid step rejected f p = refl
  conclude-IsValid divisi_simpan_pinjam approved f p = (
    refl,
    decide-HasApproved divisi_simpan_pinjam now approver notes a r.approvals none none p.1 f,
  )
  conclude-IsValid ketua approved f p = (
    refl,
    decide-HasApproved ketua now approver notes a r.approvals (some approved) none p.1 f,
    refl,
  )

pub is_status_sound : (a b : RepaymentStatus) → is_status a b ≡ true → a ≡ b
is_status_sound a b h = ground arith

module _ (now approver : ℕ) (roles : List String) (dto : ApproveRepaymentDto)
    (r : LoanRepayment) where
  -- What a successful review has passed, and what it returned.
  record Reviewed (r' : LoanRepayment) : Type 0 where
    step : RepaymentApprovalStep
    record_found : RepaymentApproval
    has_role : has_role_for step roles ≡ true
    has_status : r.status ≡ get_status_for_step step
    found : find_approval step r.approvals ≡ some record_found
    concluded : r' ≡ conclude step now approver dto.notes record_found r dto.decision

  Reviewed-with_record :
      (step : RepaymentApprovalStep) (o : Option RepaymentApproval) {r' : LoanRepayment}
      → has_role_for step roles ≡ true
      → r.status ≡ get_status_for_step step
      → find_approval step r.approvals ≡ o
      → with_record step now approver dto r o ≡ ok r'
      → Reviewed r'
  Reviewed-with_record step none c s f h = cc
  Reviewed-with_record step (some a) c s f h = record {
    step = step;
    record_found = a;
    has_role = c;
    has_status = s;
    found = f;
    concluded = ground arith;
  }

  Reviewed-at_step :
      (o : Option RepaymentApprovalStep) {r' : LoanRepayment}
      → at_step now approver roles dto r o ≡ ok r'
      → Reviewed r'
  Reviewed-at_step none h = cc
  Reviewed-at_step (some step) h =
      Reviewed-with_record step (find_approval step r.approvals) (ground arith)
        (is_status_sound r.status (get_status_for_step step) (ground arith)) refl (ground arith)

  -- A review of a repayment that succeeds takes a valid repayment to a valid one: it is approved
  -- only by both reviewers, one after the other.
  pub reviewed_repayment-IsValid :
      {r' : LoanRepayment}
      → IsValid r
      → process_approval now approver roles dto r ≡ ok r'
      → IsValid r'
  unfolding process_approval
  reviewed_repayment-IsValid v h =
      let w = Reviewed-at_step r.current_step h in
      subst IsValid (sym w.concluded) (
        conclude-IsValid now approver dto.notes w.record_found r w.step dto.decision w.found
          (subst (λ k. IsPhase k r) w.has_status v))
