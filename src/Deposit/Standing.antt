-- ===== src/Deposit/Standing.antt =====
-- The review of a deposit as its users see it: a machine on where the deposit stands, that knows
-- nothing of approval records, dates and history. `processApproval` of
-- backend/src/deposit/deposit.service.ts implements it.
use kamorina.Base.{
  ℕ, String, ◌≡◌, refl, sym, ap, subst, ◌∙◌, ◌>>=◌, Option, none, some, List, [], ◌∷◌, arith, any,
  str_eq, Result, ok, err, Bool-cases, inl, inr, if◌then◌else◌,
}
use text.Mathlib.TextEquality.{eq_iff}
use kamorina.Loan.Calculation.{Settings}
use kamorina.Deposit.Types.{
  DepositStatus, under_review_dsp, under_review_ketua, active, completed, cancelled,
  DepositApprovalStep, divisi_simpan_pinjam, ketua, DepositApprovalDecision, DepositApproval,
  DepositApplication, no_access_to_step, not_in_review,
}
use kamorina.Deposit.Dates.{LocalDate}
use kamorina.Deposit.Review.{
  ApproveDepositDto, find_approval, check_review, role_step_map, has_role_for, is_mapped_to,
}
use kamorina.Deposit.Application.{reject, approve, conclude, process_approval}
use kamorina.Deposit.Decisions.{IsAwaiting}
use kamorina.Deposit.Phases.{IsPhase, IsValid}

pub data Standing : Type 0 where
  waiting : DepositApprovalStep → Standing
  accepted refused : Standing

abbrev pub reviewer : DepositApprovalStep → String
reviewer divisi_simpan_pinjam = "divisi_simpan_pinjam"
reviewer ketua = "ketua"

abbrev pub after_approval : DepositApprovalStep → Standing
after_approval divisi_simpan_pinjam = waiting ketua
after_approval ketua = accepted

abbrev pub after : DepositApprovalDecision → DepositApprovalStep → Standing
after DepositApprovalDecision.approved step = after_approval step
after DepositApprovalDecision.rejected step = refused

-- A decision of someone with these roles; `none` is a refusal of the request.
abbrev pub review : List String → DepositApprovalDecision → Standing → Option Standing
review roles decision (waiting step) =
    if any (λ role. str_eq role (reviewer step)) roles then some (after decision step) else none
review roles decision accepted = none
review roles decision refused = none

abbrev pub standing_of_status : DepositStatus → Standing
standing_of_status under_review_dsp = waiting divisi_simpan_pinjam
standing_of_status under_review_ketua = waiting ketua
standing_of_status DepositStatus.approved = accepted
standing_of_status active = accepted
standing_of_status completed = accepted
standing_of_status DepositStatus.rejected = refused
standing_of_status cancelled = refused

abbrev pub standing : DepositApplication → Standing
standing d = standing_of_status d.status

-- What of a result the machine sees.
abbrev pub seen {ℓ} : {E : Type 0} {A : Type ℓ} → (A → Standing) → Result E A → Option Standing
seen view (ok a) = some (view a)
seen view (err e) = none

-- A role is read as the step whose reviewer it names.
names_step :
    (step : DepositApprovalStep) (role : String)
    → is_mapped_to step (role_step_map role) ≡ str_eq role (reviewer step)
unfolding role_step_map
names_step divisi_simpan_pinjam role = ground arith
names_step ketua role = elim (Bool-cases (str_eq role "divisi_simpan_pinjam")) [
  | inl e ↦ rw ((eq_iff role "divisi_simpan_pinjam").0 e) refl
  | inr e ↦ rw e (elim (Bool-cases (str_eq role "ketua")) [ inl k ↦ rw k refl | inr k ↦ rw k refl ])
]

pub has_role_for-any :
    (step : DepositApprovalStep) (roles : List String)
    → has_role_for step roles ≡ any (λ role. str_eq role (reviewer step)) roles
unfolding has_role_for
has_role_for-any step [] = refl
has_role_for-any step (r ∷ rs) = ground (arith, names_step step r, has_role_for-any step rs)

-- The record that an awaited step has.
awaited :
    (step : DepositApprovalStep) (l : List DepositApproval)
    → IsAwaiting step l
    → (a : DepositApproval) × (find_approval step l ≡ some a) × (a.decision ≡ none)
unfolding find_approval
awaited divisi_simpan_pinjam (a ∷ b ∷ []) h = (a, ground arith, ground arith)
awaited ketua (a ∷ b ∷ []) h = (b, ground arith, ground arith)
awaited divisi_simpan_pinjam [] h = absurd h
awaited divisi_simpan_pinjam (b ∷ []) h = absurd h
awaited divisi_simpan_pinjam (b ∷ c ∷ d ∷ l) h = absurd h
awaited ketua [] h = absurd h
awaited ketua (b ∷ []) h = absurd h
awaited ketua (b ∷ c ∷ d ∷ l) h = absurd h

-- The guards of a review at an awaited step: only the role is left to check.
pub check_review-awaited :
    (roles : List String) (step : DepositApprovalStep) (l : List DepositApproval)
    → IsAwaiting step l
    → (a : DepositApproval) × (find_approval step l ≡ some a)
      × (check_review roles (some step) l ≡ (
          if any (λ role. str_eq role (reviewer step)) roles
          then ok (step, a)
          else err no_access_to_step))
unfolding check_review
check_review-awaited roles step l h =
    let (a, found, open_record) = awaited step l h in
    (a, found, rw (← has_role_for-any step roles) (rw found (rw open_record (ground arith))))

not_reviewed :
    (roles : List String) (l : List DepositApproval) → check_review roles none l ≡ err not_in_review
unfolding check_review
not_reviewed roles l = refl

module _ (settings : Settings) (now : ℕ) (today : LocalDate) (approver : ℕ) (roles : List String)
    (dto : ApproveDepositDto) (d : DepositApplication) where
  standing-conclude :
      (step : DepositApprovalStep) (a : DepositApproval) (decision : DepositApprovalDecision)
      → standing (conclude settings now today approver dto.notes step a d decision)
        ≡ after decision step
  unfolding reject approve
  standing-conclude step a DepositApprovalDecision.rejected = refl
  standing-conclude divisi_simpan_pinjam a DepositApprovalDecision.approved = refl
  standing-conclude ketua a DepositApprovalDecision.approved = refl

  abbrev Refines : Type 0
  Refines =
      seen standing (process_approval settings now today approver roles dto d)
      ≡ review roles dto.decision (standing d)

  refines_waiting :
      (step : DepositApprovalStep)
      → d.current_step ≡ some step
      → standing d ≡ waiting step
      → IsAwaiting step d.approvals
      → Refines
  unfolding process_approval
  refines_waiting step e s h =
      let (a, found, checked) = check_review-awaited roles step d.approvals h in
      elim (Bool-cases (any (λ role. str_eq role (reviewer step)) roles)) [
        | inl t ↦
            let q : check_review roles d.current_step d.approvals ≡ ok (step, a) =
              subst (λ k. check_review roles k d.approvals ≡ ok (step, a)) (sym e)
                (checked ∙ rw t refl) in
            rw (q, ◌>>=◌) (rw s (rw t (ap some (standing-conclude step a dto.decision))))
        | inr t ↦
            let q : check_review roles d.current_step d.approvals ≡ err no_access_to_step =
              subst (λ k. check_review roles k d.approvals ≡ err no_access_to_step) (sym e)
                (checked ∙ rw t refl) in
            rw (q, ◌>>=◌) (rw s (rw t refl))
      ]

  refines_done : d.current_step ≡ none → review roles dto.decision (standing d) ≡ none → Refines
  unfolding process_approval
  refines_done e c =
      let q : check_review roles d.current_step d.approvals ≡ err not_in_review =
        subst (λ k. check_review roles k d.approvals ≡ err not_in_review) (sym e)
          (not_reviewed roles d.approvals) in
      rw (q, ◌>>=◌) (sym c)

  by_status : (s : DepositStatus) → d.status ≡ s → IsPhase s d → Refines
  by_status under_review_dsp e v =
      refines_waiting divisi_simpan_pinjam v.0 (ap standing_of_status e) v.1
  by_status under_review_ketua e v = refines_waiting ketua v.0 (ap standing_of_status e) v.1
  by_status DepositStatus.approved e v =
      refines_done v.0.0 (ap (λ k. review roles dto.decision (standing_of_status k)) e)
  by_status active e v =
      refines_done v.0.0 (ap (λ k. review roles dto.decision (standing_of_status k)) e)
  by_status completed e v =
      refines_done v.0.0 (ap (λ k. review roles dto.decision (standing_of_status k)) e)
  by_status DepositStatus.rejected e v =
      refines_done v.0 (ap (λ k. review roles dto.decision (standing_of_status k)) e)
  by_status cancelled e v = absurd v

  -- The review of a valid deposit is a step of the machine: it succeeds exactly if the deposit waits
  -- for a reviewer whose role the approver has, and then it leaves the deposit where the decision
  -- takes it.
  pub process_approval-review : IsValid d → Refines
  process_approval-review v = by_status d.status refl v
