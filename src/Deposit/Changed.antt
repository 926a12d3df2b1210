-- ===== src/Deposit/Changed.antt =====
-- What the review of a change in backend/src/deposit/deposit-change.service.ts leaves of the deposit
-- and of the account.
use kamorina.Base.{
  ℕ, String, ◌≤◌, ◌≡◌, refl, sym, subst, true, Option, some, arith, inl, inr, ltb, Bool-cases,
}
use kamorina.Loan.Calculation.{Settings}
use kamorina.Savings.Types.{SavingsAccount}
use kamorina.Deposit.Types.{
  DepositApplication, DepositApproval, DepositApprovalStep, divisi_simpan_pinjam, ketua,
  DepositApprovalDecision,
}
use kamorina.Deposit.Dates.{LocalDate}
use kamorina.Deposit.Phases.{IsPhase, IsValid, IsAccepted}
use kamorina.Deposit.Booked.{IsBooked, charge-IsBooked}
use kamorina.Deposit.Accepted.{
  change_deposit-IsAccepted, change_deposit-IsValid, stop_deposit-IsValid,
}
use kamorina.Deposit.Requested.{weight}
use kamorina.Deposit.Change.Types.{
  DepositChangeRequest, ChangeRow, is_stop, DepositChangeStatus, draft, submitted, under_review_dsp,
  under_review_ketua, approved, rejected, cancelled, is_open,
}
use kamorina.Deposit.Change.Rules.{get_admin_fee}
use kamorina.Deposit.Change.Approval.{
  conclude, apply_change, handle_approval, change_deposit, stop_deposit, charge,
}
use kamorina.Deposit.Change.Phases

-- An accepted deposit and its account.
pub record IsKept (row : ChangeRow) : Type 0 where
  pub deposit : IsValid row.deposit
  pub accepted : IsAccepted row.deposit
  pub booked : IsBooked row.deposit.collected_amount row.savings_account

change_deposit-collected_amount :
    (today : LocalDate) (r : DepositChangeRequest) (d : DepositApplication)
    → ((change_deposit today r d).collected_amount ≡ d.collected_amount)
      × ((change_deposit today r d).status ≡ d.status)
unfolding change_deposit
change_deposit-collected_amount today r d = (refl, refl)

stop_deposit-collected_amount :
    (now : ℕ) (d : DepositApplication) → (stop_deposit now d).collected_amount ≡ d.collected_amount
unfolding stop_deposit
stop_deposit-collected_amount now d = refl

module _ (settings : Settings) (now : ℕ) (today : LocalDate) (new_id approver : ℕ) where
  changed-IsValid :
      (r : DepositChangeRequest) (d : DepositApplication)
      → IsAccepted d
      → IsValid d
      → IsValid (change_deposit today r d)
  changed-IsValid r d a v =
      subst (λ k. IsPhase k (change_deposit today r d))
        (sym (change_deposit-collected_amount today r d).1)
        (change_deposit-IsValid today r d d.status a v)

  stopped-IsKept :
      (row : ChangeRow) (o : Option SavingsAccount)
      → IsKept row
      → IsBooked row.deposit.collected_amount o
      → IsKept (record row { deposit = stop_deposit now row.deposit; savings_account = o })
  stopped-IsKept row o k b =
      let (accepted, valid) = stop_deposit-IsValid now row.deposit k.accepted in
      record {
        deposit = valid;
        accepted = accepted;
        booked = subst (λ c. IsBooked c o) (sym (stop_deposit-collected_amount now row.deposit)) b;
      }

  -- A stop, and any other change.
  pub apply_change-IsKept :
      (r : DepositChangeRequest) (row : ChangeRow)
      → IsKept row
      → IsKept (apply_change settings now today new_id approver r row)
  unfolding apply_change
  apply_change-IsKept r row k = elim (Bool-cases (is_stop r.change_type)) [
    | inl t ↦ elim (Bool-cases (ltb 0 r.admin_fee)) [
      | inl u ↦ rw t (
          rw u (
            stopped-IsKept row _ k (
              charge-IsBooked settings now new_id approver r.admin_fee row.deposit.collected_amount
                row.savings_account k.booked)))
      | inr u ↦ rw t (rw u (stopped-IsKept row row.savings_account k k.booked))
    ]
    | inr t ↦ rw t (record {
      deposit = changed-IsValid r row.deposit k.accepted k.deposit;
      accepted = change_deposit-IsAccepted today r row.deposit k.accepted;
      booked =
          subst
            (λ c.
              IsBooked c
                (charge settings now new_id approver (get_admin_fee settings) row.savings_account))
            (sym (change_deposit-collected_amount today r row.deposit).0)
            (charge-IsBooked settings now new_id approver (get_admin_fee settings)
              row.deposit.collected_amount row.savings_account k.booked);
    })
  ]

  -- A review of either decision, at either step.
  pub conclude-IsKept :
      (notes : Option String) (step : DepositApprovalStep) (a : DepositApproval) (row : ChangeRow)
      (decision : DepositApprovalDecision)
      → IsKept row
      → IsKept (conclude settings now today new_id approver notes step a row decision)
  unfolding handle_approval
  conclude-IsKept notes step a row DepositApprovalDecision.rejected k = record {
    deposit = k.deposit;
    accepted = k.accepted;
    booked = k.booked;
  }
  conclude-IsKept notes divisi_simpan_pinjam a row DepositApprovalDecision.approved k = record {
    deposit = k.deposit;
    accepted = k.accepted;
    booked = k.booked;
  }
  conclude-IsKept notes ketua a row DepositApprovalDecision.approved k =
      let w = apply_change-IsKept row.request row k in
      record { deposit = w.deposit; accepted = w.accepted; booked = w.booked }

-- A valid request at a step is open, so that whatever replaces it leaves no more open requests.
reviewed_weight :
    (step : DepositApprovalStep) (s : DepositChangeStatus) (r : DepositChangeRequest)
    → Phases.IsPhase s r
    → r.current_step ≡ some step
    → is_open s ≡ true
reviewed_weight _ submitted r v e = refl
reviewed_weight _ under_review_ketua r v e = refl
reviewed_weight _ under_review_dsp r v e = refl
reviewed_weight _ draft r v e = refl
reviewed_weight _ approved r v e = cc
reviewed_weight _ rejected r v e = cc
reviewed_weight _ cancelled r v e = absurd v

pub weight-le :
    (step : DepositApprovalStep) (r r' : DepositChangeRequest)
    → Phases.IsValid r
    → r.current_step ≡ some step
    → weight r' ≤ weight r
weight-le step r r' v e = let opened = reviewed_weight step r.status r v.phase e in ground arith
