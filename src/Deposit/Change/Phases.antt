-- ===== src/Deposit/Change/Phases.antt =====
-- What the status of a request for a change says of the rest of it, and how each operation of
-- backend/src/deposit/deposit-change.service.ts keeps that.
use kamorina.Base.{
  ℕ, ◌<◌, String, ◌≡◌, ◌≢◌, ◌⊎◌, refl, sym, subst, true, false, Option, none, some, List, [], arith,
  is_some, ok, >>=-eq-ok, >>-eq-ok, passed, leb, not, ◌==◌, ok-injective, inl, inr,
}
use kamorina.Loan.Calculation.{Settings}
use kamorina.Deposit.Types.{
  not_agreed, not_agreed_to_fee, tenor_too_short, no_access_to_change, not_draft,
  divisi_simpan_pinjam, ketua, DepositApplication,
}
use kamorina.Deposit.Application.{Options, active_amount, active_tenor}
use kamorina.Deposit.Decisions.{IsAwaiting, IsPassed}
use kamorina.Deposit.Change.Types.{
  DepositChangeStatus, draft, submitted, under_review_dsp, under_review_ketua, cancelled,
  DepositChangeType, stop, DepositChangeRequest, is_draft,
}
use kamorina.Deposit.Change.Requests.{
  CreateDepositChangeDto, CreateDepositStopDto, UpdateDepositChangeDto, new_draft, create_draft,
  write_submission, create_stop_request, stop_row, given_amount, given_tenor, update_draft,
  write_update, submit_change_request,
}
use kamorina.Deposit.Change.Rules.{determine_change_type, validate_deposit_for_change}

abbrev pub IsPhase : DepositChangeStatus → DepositChangeRequest → Type 0
IsPhase draft r = (r.current_step ≡ none) × (r.approvals ≡ [])
IsPhase submitted r =
    (r.current_step ≡ some divisi_simpan_pinjam) × IsAwaiting divisi_simpan_pinjam r.approvals
IsPhase under_review_dsp r = ⊥
IsPhase under_review_ketua r = (r.current_step ≡ some ketua) × IsAwaiting ketua r.approvals
IsPhase DepositChangeStatus.approved r =
    (r.current_step ≡ none)
    × IsPassed ketua r.approvals
    × (is_some r.approved_at ≡ true)
    × (is_some r.effective_date ≡ true)
IsPhase DepositChangeStatus.rejected r = r.current_step ≡ none
IsPhase cancelled r = ⊥

-- The type names what changes: a stop leaves nothing, and any other request asks for another amount
-- or another tenor.
abbrev pub IsTyped : DepositChangeRequest → Type 0
IsTyped r =
    ((r.change_type ≡ stop) × (r.new_amount_value ≡ 0) × (r.new_tenor_months ≡ 0))
    ⊎ (determine_change_type r.current_amount_value r.current_tenor_months r.new_amount_value
          r.new_tenor_months
        ≡ ok r.change_type)

pub record IsValid (r : DepositChangeRequest) : Type 0 where
  pub phase : IsPhase r.status r
  pub typed : IsTyped r

-- A row that a request leaves, as the proofs below state it.
abbrev IsDrafted : DepositApplication → DepositChangeRequest → Type 0
IsDrafted d r = IsValid r × (r.status ≡ draft) × (d.installment_count < r.new_tenor_months)

new_draft-IsDrafted :
    (settings : Settings) (new_id user : ℕ) (dto : CreateDepositChangeDto) (d : DepositApplication)
    (amount months : ℕ) (t : DepositChangeType)
    → determine_change_type d.amount_value d.tenor_months amount months ≡ ok t
    → leb months d.installment_count ≡ false
    → IsDrafted d (new_draft settings new_id user dto d amount months t)
unfolding new_draft
new_draft-IsDrafted settings new_id user dto d amount months t typed long =
    (record { phase = (refl, refl); typed = inr typed }, refl, ground arith)

-- A draft of a change asks for a change of the deposit as it is, in a tenor that is longer than what
-- is paid.
pub create_draft-IsValid :
    (settings : Settings) (options : Options) (new_id user : ℕ) (dto : CreateDepositChangeDto)
    (d : DepositApplication) (requests : List DepositChangeRequest) {r : DepositChangeRequest}
    → create_draft settings options new_id user dto d requests ≡ ok r
    → (validate_deposit_for_change user d requests ≡ ok tt) × IsDrafted d r
unfolding create_draft
create_draft-IsValid settings options new_id user dto d requests h =
    let (ready, h1) = >>-eq-ok (validate_deposit_for_change user d requests) _ h in
    let (_, h2) = passed (not dto.agreed_to_terms) not_agreed _ h1 in
    let (_, h3) = passed (not dto.agreed_to_admin_fee) not_agreed_to_fee _ h2 in
    let (amount, _, h4) = >>=-eq-ok (active_amount options dto.new_amount_code) _ h3 in
    let (months, _, h5) = >>=-eq-ok (active_tenor options dto.new_tenor_code) _ h4 in
    let (long, h6) = passed (leb months d.installment_count) tenor_too_short _ h5 in
    let (t, typed, h7) =
      >>=-eq-ok (determine_change_type d.amount_value d.tenor_months amount months) _ h6 in
    (
      ready,
      subst (IsDrafted d) (ok-injective h7)
          (new_draft-IsDrafted settings new_id user dto d amount months t typed long),
    )

-- A submission of a valid draft, with new approval records.
write_submission-IsValid :
    (now first second user : ℕ) (notes : Option String) (r : DepositChangeRequest)
    → first ≢ second
    → r.approvals ≡ []
    → IsTyped r
    → IsValid (write_submission now first second user notes r)
      × ((write_submission now first second user notes r).status ≡ submitted)
unfolding write_submission
write_submission-IsValid now first second user notes r ne e t =
    (record { phase = (refl, rw e (refl, refl, ne, refl, refl)); typed = t }, refl)

abbrev IsSubmitted : DepositChangeRequest → Type 0
IsSubmitted r = IsValid r × (r.status ≡ submitted)

pub create_stop_request-IsValid :
    (settings : Settings) (now new_id first second user : ℕ) (dto : CreateDepositStopDto)
    (d : DepositApplication) (requests : List DepositChangeRequest) {r : DepositChangeRequest}
    → first ≢ second
    → create_stop_request settings now new_id first second user dto d requests ≡ ok r
    → (validate_deposit_for_change user d requests ≡ ok tt) × IsSubmitted r
unfolding create_stop_request
create_stop_request-IsValid settings now new_id first second user dto d requests ne h =
    let (ready, h1) = >>-eq-ok (validate_deposit_for_change user d requests) _ h in
    let (_, h2) = passed (not dto.agreed_to_terms) not_agreed _ h1 in
    let (_, h3) = passed (not dto.agreed_to_admin_fee) not_agreed_to_fee _ h2 in
    (
      ready,
      subst IsSubmitted (ok-injective h3) (
          write_submission-IsValid now first second user dto.notes
            (stop_row settings new_id user dto d) ne refl (inl (refl, refl, refl))),
    )

draft-IsDraft : (s : DepositChangeStatus) → not (is_draft s) ≡ false → s ≡ draft
draft-IsDraft s h = ground arith

pub update_draft-IsValid :
    (options : Options) (user : ℕ) (dto : UpdateDepositChangeDto) (d : DepositApplication)
    (r : DepositChangeRequest) {r' : DepositChangeRequest}
    → IsValid r
    → update_draft options user dto d r ≡ ok r'
    → (r.status ≡ draft) × IsDrafted d r'
unfolding update_draft
update_draft-IsValid options user dto d r v h =
    let (_, h1) = passed (not (r.user_id == user)) no_access_to_change _ h in
    let (open_draft, h2) = passed (not (is_draft r.status)) not_draft _ h1 in
    let (amount, _, h3) =
      >>=-eq-ok (given_amount options r.new_amount_value dto.new_amount_code) _ h2 in
    let (months, _, h4) =
      >>=-eq-ok (given_tenor options r.new_tenor_months dto.new_tenor_code) _ h3 in
    let (long, h5) = passed (leb months d.installment_count) tenor_too_short _ h4 in
    let (t, typed, h6) =
      >>=-eq-ok (determine_change_type r.current_amount_value r.current_tenor_months amount months)
        _ h5 in
    let e = draft-IsDraft r.status open_draft in
    let p : IsPhase draft r = subst (λ k. IsPhase k r) e v.phase in
    let kept : IsPhase r.status (write_update dto amount months t r) =
      subst (λ k. IsPhase k (write_update dto amount months t r)) (sym e) p in
    (
      e,
      subst (IsDrafted d) (ok-injective h6)
          (record { phase = kept; typed = inr typed }, e, ground arith),
    )

pub submit_change_request-IsValid :
    (now first second user : ℕ) (r : DepositChangeRequest) {r' : DepositChangeRequest}
    → first ≢ second
    → IsValid r
    → submit_change_request now first second user r ≡ ok r'
    → (r.status ≡ draft) × IsSubmitted r'
unfolding submit_change_request
submit_change_request-IsValid now first second user r ne v h =
    let (_, h1) = passed (not (r.user_id == user)) no_access_to_change _ h in
    let (open_draft, h2) = passed (not (is_draft r.status)) not_draft _ h1 in
    let (_, h3) = passed (not r.agreed_to_terms) not_agreed _ h2 in
    let (_, h4) = passed (not r.agreed_to_admin_fee) not_agreed_to_fee _ h3 in
    let e = draft-IsDraft r.status open_draft in
    let p : IsPhase draft r = subst (λ k. IsPhase k r) e v.phase in
    (
      e,
      subst IsSubmitted (ok-injective h4)
          (write_submission-IsValid now first second user none r ne p.1 v.typed),
    )
