-- ===== src/Savings/Phases.antt =====
-- What the status of a withdrawal says of the rest of it, and what a review, a cancellation and the
-- two confirmations of backend/src/savings/savings-withdrawal.service.ts do to that.
use kamorina.Base.{
  ℕ, ◌≤◌, String, ◌≡◌, refl, ◌⊎◌, true, false, none, some, List, [], ◌∷◌, arith, is_some,
  if◌then◌else◌,
}
use kamorina.Savings.Types.{
  SavingsWithdrawalStatus, submitted, under_review_dsp, under_review_ketua,
  approved_waiting_disbursement, disbursement_in_progress, completed, SavingsWithdrawalStep,
  divisi_simpan_pinjam, ketua, shopkeeper, ketua_auth, approved, SavingsWithdrawal,
  SavingsWithdrawalApproval, is_status,
}
use kamorina.Savings.Approval.{role_step_map, has_role_for}
use kamorina.Savings.Creation.{is_pending}

-- The approvals are those of the given steps, in their order.
abbrev pub IsApprovedAt : List SavingsWithdrawalStep → List SavingsWithdrawalApproval → Type 0
IsApprovedAt [] [] = Unit
IsApprovedAt (s ∷ ss) (a ∷ rest) = (a.step ≡ s) × (a.decision ≡ approved) × IsApprovedAt ss rest
IsApprovedAt _ _ = ⊥

abbrev pub IsUnpaid : SavingsWithdrawal → Type 0
IsUnpaid w = (w.disbursement ≡ none) × (w.authorization ≡ none)

abbrev pub both_steps : List SavingsWithdrawalStep
both_steps = divisi_simpan_pinjam ∷ ketua ∷ []

-- Approved by both reviewers, recorded by the shopkeeper and authorized.
abbrev pub IsPaid : SavingsWithdrawal → Type 0
IsPaid w =
    (w.current_step ≡ none)
    × IsApprovedAt both_steps w.approvals
    × (is_some w.disbursement ≡ true)
    × (is_some w.authorization ≡ true)

abbrev pub IsPhase : SavingsWithdrawalStatus → SavingsWithdrawal → Type 0
IsPhase submitted w = (w.current_step ≡ some divisi_simpan_pinjam) × (w.approvals ≡ []) × IsUnpaid w
IsPhase under_review_dsp w = ⊥
IsPhase under_review_ketua w =
    (w.current_step ≡ some ketua)
    × IsApprovedAt (divisi_simpan_pinjam ∷ []) w.approvals
    × IsUnpaid w
IsPhase approved_waiting_disbursement w =
    (w.current_step ≡ some shopkeeper) × IsApprovedAt both_steps w.approvals × IsUnpaid w
IsPhase disbursement_in_progress w =
    (w.current_step ≡ some ketua_auth)
    × IsApprovedAt both_steps w.approvals
    × (is_some w.disbursement ≡ true)
    × (w.authorization ≡ none)
IsPhase completed w = IsPaid w
IsPhase SavingsWithdrawalStatus.rejected w = (w.current_step ≡ none) × IsUnpaid w
IsPhase SavingsWithdrawalStatus.cancelled w = (w.current_step ≡ none) × IsUnpaid w

abbrev pub IsValid : SavingsWithdrawal → Type 0
IsValid w = IsPhase w.status w

-- What is asked for and not yet paid or given up, and what was paid.
abbrev pub pending_amount : SavingsWithdrawal → ℕ
pending_amount w = if is_pending w then w.withdrawal_amount else 0

abbrev pub paid_amount : SavingsWithdrawal → ℕ
paid_amount w = if is_status w.status completed then w.withdrawal_amount else 0

-- A change that keeps a withdrawal valid, asks for no more, and pays nothing.
abbrev pub IsKept : SavingsWithdrawal → SavingsWithdrawal → Type 0
IsKept w w' = IsValid w' × (pending_amount w' ≤ pending_amount w) × (paid_amount w' ≡ paid_amount w)

abbrev pub status_at : SavingsWithdrawalStep → SavingsWithdrawalStatus
status_at divisi_simpan_pinjam = submitted
status_at ketua = under_review_ketua
status_at shopkeeper = approved_waiting_disbursement
status_at ketua_auth = disbursement_in_progress

pub status_of_step :
    (w : SavingsWithdrawal) (step : SavingsWithdrawalStep) (k : SavingsWithdrawalStatus)
    → IsPhase k w
    → w.current_step ≡ some step
    → k ≡ status_at step
status_of_step w step submitted p c = ground arith
status_of_step w step under_review_dsp p c = absurd p
status_of_step w step under_review_ketua p c = ground arith
status_of_step w step approved_waiting_disbursement p c = ground arith
status_of_step w step disbursement_in_progress p c = ground arith
status_of_step w step completed p c = cc
status_of_step w step SavingsWithdrawalStatus.rejected p c = cc
status_of_step w step SavingsWithdrawalStatus.cancelled p c = cc

-- No role is mapped to the two last steps.
pub no_reviewer :
    (step : SavingsWithdrawalStep)
    → (step ≡ shopkeeper) ⊎ (step ≡ ketua_auth)
    → (roles : List String) → has_role_for step roles ≡ false
unfolding has_role_for role_step_map
no_reviewer step h [] = refl
no_reviewer step h (r ∷ roles) = ground (arith, no_reviewer step h roles)
