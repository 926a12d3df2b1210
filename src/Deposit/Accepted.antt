-- ===== src/Deposit/Accepted.antt =====
-- What the payroll and the changes do to an accepted deposit.
use kamorina.Base.{
  ℕ, ◌+◌, ◌≡◌, ◌⊎◌, refl, sym, subst, ◌∙◌, true, false, Option, none, some, [], ◌∷◌, arith, leb,
  Bool-cases, inl, inr,
}
use kamorina.Savings.Types.{SavingsAccount}
use kamorina.Repayment.Settlement.{PayrollContext}
use kamorina.Payroll.Types.{PayrollSettings}
use kamorina.Payroll.DepositSavings.{
  is_running, is_complete, status_after, collect, credit, collect_all, Collected,
}
use kamorina.Deposit.Types.{
  DepositStatus, active, completed, under_review_dsp, under_review_ketua, cancelled,
  DepositApplication,
}
use kamorina.Deposit.Dates.{LocalDate}
use kamorina.Deposit.Phases.{IsPhase, IsValid, IsAccepted}
use kamorina.Deposit.Change.Types.{DepositChangeRequest}
use kamorina.Deposit.Change.Rules.{is_eligible_for_change}
use kamorina.Deposit.Change.Approval.{change_deposit, stop_deposit}

-- A valid deposit that is approved or active is accepted.
pub eligible-IsAccepted :
    (s : DepositStatus) (d : DepositApplication)
    → is_eligible_for_change s ≡ true
    → IsPhase s d
    → IsAccepted d
eligible-IsAccepted DepositStatus.approved d e v = v.0
eligible-IsAccepted active d e v = v.0
eligible-IsAccepted completed d e v = cc
eligible-IsAccepted under_review_dsp d e v = cc
eligible-IsAccepted under_review_ketua d e v = cc
eligible-IsAccepted DepositStatus.rejected d e v = cc
eligible-IsAccepted cancelled d e v = cc

status_after-active :
    (s : DepositStatus) → is_eligible_for_change s ≡ true → status_after false s ≡ active
status_after-active s e = ground arith

module _ (context : PayrollContext) (day : LocalDate) where
  pub collect-IsAccepted :
      (d : DepositApplication) → IsAccepted d → IsAccepted (collect context day d)
  unfolding collect
  collect-IsAccepted d (a, b, c, e, f) = (a, b, c, ground arith, f)

  collect-status :
      (d : DepositApplication)
      → (collect context day d).status
        ≡ status_after (leb d.tenor_months (d.installment_count + 1)) d.status
  unfolding collect
  collect-status d = refl

  -- A collection from an approved or active deposit leaves a valid one.
  pub collect-IsValid :
      (d : DepositApplication)
      → is_eligible_for_change d.status ≡ true
      → IsAccepted d
      → IsValid (collect context day d)
  unfolding collect
  collect-IsValid d e a =
      let a' = collect-IsAccepted d a in
      elim (Bool-cases (leb d.tenor_months (d.installment_count + 1))) [
        | inl t ↦
            let done : (collect context day d).status ≡ completed = collect-status d ∙ rw t refl in
            subst (λ k. IsPhase k (collect context day d)) (sym done) (a', rw t refl)
        | inr t ↦
            let running : (collect context day d).status ≡ active =
              collect-status d ∙ (rw t (status_after-active d.status e)) in
            subst (λ k. IsPhase k (collect context day d)) (sym running) (a', omega arith)
      ]

pub collect-collected_amount :
    (context : PayrollContext) (day : LocalDate) (d : DepositApplication)
    → (collect context day d).collected_amount ≡ d.collected_amount + d.amount_value
unfolding collect
collect-collected_amount context day d = refl

pub change_deposit-IsAccepted :
    (today : LocalDate) (r : DepositChangeRequest) (d : DepositApplication)
    → IsAccepted d
    → IsAccepted (change_deposit today r d)
unfolding change_deposit
change_deposit-IsAccepted today r d (a, b, c, e, f) = (a, b, c, e, ground arith)

pub change_deposit-IsValid :
    (today : LocalDate) (r : DepositChangeRequest) (d : DepositApplication) (s : DepositStatus)
    → IsAccepted d
    → IsPhase s d
    → IsPhase s (change_deposit today r d)
unfolding change_deposit
change_deposit-IsValid today r d DepositStatus.approved a v =
    (change_deposit-IsAccepted today r d a, v.1)
change_deposit-IsValid today r d active a v = (change_deposit-IsAccepted today r d a, v.1)
change_deposit-IsValid today r d completed a v = (change_deposit-IsAccepted today r d a, v.1)
change_deposit-IsValid today r d under_review_dsp a v = v
change_deposit-IsValid today r d under_review_ketua a v = v
change_deposit-IsValid today r d DepositStatus.rejected a v = v
change_deposit-IsValid today r d cancelled a v = v

pub stop_deposit-IsValid :
    (now : ℕ) (d : DepositApplication)
    → IsAccepted d
    → IsAccepted (stop_deposit now d) × IsValid (stop_deposit now d)
unfolding stop_deposit
stop_deposit-IsValid now d (a, b, c, e, f) = ((refl, b, c, e, f), ((refl, b, c, e, f), refl))

-- A run on one deposit: it stays as it is, or one amount is collected and credited.
module _ (now : ℕ) (new_ids : ℕ → ℕ) (settings : PayrollSettings) (context : PayrollContext)
    (day : LocalDate) (d : DepositApplication) where
  pub record IsCollected (a : SavingsAccount) (c : Collected) : Type 0 where
    pub is_due : is_running context d ≡ true
    pub is_unfinished : is_complete d ≡ false
    pub collected : c.deposits ≡ collect context day d ∷ []
    pub credited :
        c.savings_account ≡ some (credit now (new_ids d.id) settings context d.amount_value a)

  pub collect_all-one :
      (o : Option SavingsAccount)
      → let c = collect_all now new_ids settings context day (d ∷ []) o in
        ((c.deposits ≡ d ∷ []) × (c.savings_account ≡ o))
        ⊎ ((a : SavingsAccount) × (o ≡ some a) × IsCollected a c)
  unfolding collect_all
  collect_all-one none = elim (Bool-cases (is_running context d)) [
    | inl t ↦ inl (rw t refl, rw t refl)
    | inr t ↦ inl (rw t refl, rw t refl)
  ]
  collect_all-one (some a) = elim (Bool-cases (is_running context d)) [
    | inl t ↦ elim (Bool-cases (is_complete d)) [
      | inl u ↦ inl (rw t (rw u refl), rw t (rw u refl))
      | inr u ↦ inr (
        a,
        refl,
        record {
          is_due = t;
          is_unfinished = u;
          collected = rw t (rw u refl);
          credited = rw t (rw u refl);
        },
      )
    ]
    | inr t ↦ inl (rw t refl, rw t refl)
  ]
