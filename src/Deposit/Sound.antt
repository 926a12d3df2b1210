-- ===== src/Deposit/Sound.antt =====
-- What keeps a deposit, its requests for changes and its owner's account sound: a review of the
-- deposit in backend/src/deposit/deposit.service.ts, a run of the payroll, and a request that is added
-- or replaced.
use kamorina.Base.{
  ℕ, String, ◌≤◌, ◌≡◌, ◌⊎◌, refl, sym, subst, ap, true, Option, some, List, [], ◌∷◌, ◌++◌, ok,
  arith, inl, inr, ◌∙◌,
}
use kamorina.Loan.Calculation.{Settings}
use kamorina.Savings.Types.{SavingsAccount}
use kamorina.Repayment.Settlement.{PayrollContext}
use kamorina.Payroll.Types.{PayrollSettings}
use kamorina.Payroll.DepositSavings.{collect, credit, collect_all, is_running}
use kamorina.Deposit.Types.{
  DepositApplication, DepositApproval, DepositApprovalStep, DepositApprovalDecision,
}
use kamorina.Deposit.Dates.{LocalDate}
use kamorina.Deposit.Review.{ApproveDepositDto}
use kamorina.Deposit.Application.{
  conclude as conclude_deposit, process_approval as review_deposit, reject, approve,
}
use kamorina.Deposit.Decisions.{check_review-Reviewable}
use kamorina.Deposit.Phases.{
  IsValid, IsAccepted, process_approval-reviewed, reviewed_deposit-IsValid,
}
use kamorina.Deposit.Booked.{IsBooked, credit-IsBooked}
use kamorina.Deposit.Accepted.{
  collect-collected_amount, eligible-IsAccepted, collect-IsAccepted, collect-IsValid,
  collect_all-one,
}
use kamorina.Deposit.Requested.{IsRequested, replaced-IsRequested, ready, added-IsRequested, weight}
use kamorina.Deposit.Change.Types.{DepositChangeRequest}
use kamorina.Deposit.Change.Rules.{validate_deposit_for_change, is_eligible_for_change}
use kamorina.Deposit.Change.Phases
use kamorina.Deposit.Case.{Case}

-- The deposit is valid; the requests are valid, at most one of them is open, and there are some only
-- if both reviewers have accepted the deposit; and the account agrees with its bookings.
pub record IsSound (s : Case) : Type 0 where
  pub deposit : IsValid s.deposit
  pub requested : IsRequested s.requests
  pub accepted : (s.requests ≡ []) ⊎ IsAccepted s.deposit
  pub booked : IsBooked s.deposit.collected_amount s.savings_account

-- A review of the deposit leaves what was collected, and is only of a deposit that is not accepted.
conclude-collected_amount :
    (settings : Settings) (now : ℕ) (today : LocalDate) (approver : ℕ) (notes : Option String)
    (step : DepositApprovalStep) (a : DepositApproval) (d : DepositApplication)
    (decision : DepositApprovalDecision)
    → (conclude_deposit settings now today approver notes step a d decision).collected_amount
      ≡ d.collected_amount
unfolding reject approve
conclude-collected_amount settings now today approver notes step a d
      DepositApprovalDecision.rejected =
    refl
conclude-collected_amount settings now today approver notes step a d
      DepositApprovalDecision.approved =
    refl

unrequested :
    (d : DepositApplication) {rs : List DepositChangeRequest} {step : DepositApprovalStep}
    → d.current_step ≡ some step
    → (rs ≡ []) ⊎ IsAccepted d
    → rs ≡ []
unrequested d e (inl n) = n
unrequested d e (inr a) = absurd (ground arith)

pub review-IsSound :
    (s : Case) (settings : Settings) (now : ℕ) (today : LocalDate) (approver : ℕ)
    (roles : List String) (dto : ApproveDepositDto) (d : DepositApplication)
    → IsSound s
    → review_deposit settings now today approver roles dto s.deposit ≡ ok d
    → IsSound (record s { deposit = d })
review-IsSound s settings now today approver roles dto d v h =
    let (w, e, done) =
      process_approval-reviewed settings now today approver roles dto s.deposit h in
    let p = check_review-Reviewable roles s.deposit.approvals s.deposit.current_step e in
    let kept : d.collected_amount ≡ s.deposit.collected_amount =
      ap (λ k. k.collected_amount) done
      ∙ conclude-collected_amount settings now today approver dto.notes w.0 w.1 s.deposit
          dto.decision in
    record {
      deposit =
          reviewed_deposit-IsValid settings now today approver roles dto s.deposit v.deposit h;
      requested = v.requested;
      accepted = inl (unrequested s.deposit p.is_current v.accepted);
      booked = subst (λ k. IsBooked k s.savings_account) (sym kept) v.booked;
    }

running-eligible :
    (context : PayrollContext) (d : DepositApplication)
    → is_running context d ≡ true
    → is_eligible_for_change d.status ≡ true
running-eligible context d h = ground arith

-- What a step on the deposit and the account has to keep.
pub settled-IsSound :
    (s : Case) (d : DepositApplication) (o : Option SavingsAccount)
    → IsSound s
    → IsValid d
    → (IsAccepted s.deposit → IsAccepted d)
    → IsBooked d.collected_amount o
    → IsSound (record s { deposit = d; savings_account = o })
settled-IsSound s d o v valid accepted booked = record {
  deposit = valid;
  requested = v.requested;
  accepted = elim v.accepted [ inl n ↦ inl n | inr a ↦ inr (accepted a) ];
  booked = booked;
}

pub payroll-IsSound :
    (s : Case) (now : ℕ) (new_ids : ℕ → ℕ) (settings : PayrollSettings) (context : PayrollContext)
    (day : LocalDate) (d : DepositApplication)
    → IsSound s
    → let c = collect_all now new_ids settings context day (s.deposit ∷ []) s.savings_account in
      c.deposits ≡ d ∷ [] → IsSound (record s { deposit = d; savings_account = c.savings_account })
payroll-IsSound s now new_ids settings context day d v h =
    let c = collect_all now new_ids settings context day (s.deposit ∷ []) s.savings_account in
    elim (collect_all-one now new_ids settings context day s.deposit s.savings_account) [
      | inl (same, kept) ↦
          let e : s.deposit ≡ d = cc in
          settled-IsSound s d c.savings_account v (subst IsValid e v.deposit) (subst IsAccepted e) (
            subst (λ o. IsBooked d.collected_amount o) (sym kept)
              (subst (λ k. IsBooked k.collected_amount s.savings_account) e v.booked))
      | inr (a, has, w) ↦
          let e : collect context day s.deposit ≡ d = cc (w.collected) in
          let eligible = running-eligible context s.deposit w.is_due in
          let accepted = eligible-IsAccepted s.deposit.status s.deposit eligible v.deposit in
          let credited =
            credit-IsBooked now (new_ids s.deposit.id) settings context s.deposit.amount_value
              s.deposit.collected_amount a
              (subst (λ o. IsBooked s.deposit.collected_amount o) has v.booked) in
          settled-IsSound s d c.savings_account v
            (subst IsValid e (collect-IsValid context day s.deposit eligible accepted))
            (λ x. subst IsAccepted e (collect-IsAccepted context day s.deposit x))
            (subst (λ o. IsBooked d.collected_amount o) (sym w.credited)
              (subst
                (λ k. IsBooked k (
                  some
                    (credit now (new_ids s.deposit.id) settings context s.deposit.amount_value a)))
                (sym (collect-collected_amount context day s.deposit)
                  ∙ ap (λ k. k.collected_amount) e)
                credited))
    ]

-- A new request of a deposit that may have one.
pub added-IsSound :
    (s : Case) (user : ℕ) (r : DepositChangeRequest)
    → IsSound s
    → validate_deposit_for_change user s.deposit s.requests ≡ ok tt
    → Phases.IsValid r
    → IsSound (record s { requests = s.requests ++ r ∷ [] })
added-IsSound s user r v h w =
    let (eligible, closed) = ready user s.deposit s.requests h in
    record {
      deposit = v.deposit;
      requested = added-IsRequested s.requests r closed v.requested.0 w;
      accepted = inr (eligible-IsAccepted s.deposit.status s.deposit eligible v.deposit);
      booked = v.booked;
    }

-- A deposit that has a request is accepted.
pub has_request-IsAccepted :
    (xs ys : List DepositChangeRequest) (r : DepositChangeRequest) {rs : List DepositChangeRequest}
    {A : Type 0}
    → rs ≡ xs ++ r ∷ ys
    → (rs ≡ []) ⊎ A
    → A
has_request-IsAccepted [] ys r e (inl n) = cc
has_request-IsAccepted (x ∷ xs) ys r e (inl n) = cc
has_request-IsAccepted _ ys r e (inr a) = a

-- A request is replaced by one that is open only if it was.
pub replaced-IsSound :
    (s : Case) (xs ys : List DepositChangeRequest) (r r' : DepositChangeRequest)
    → IsSound s
    → s.requests ≡ xs ++ r ∷ ys
    → Phases.IsValid r'
    → weight r' ≤ weight r
    → IsSound (record s { requests = xs ++ r' ∷ ys })
replaced-IsSound s xs ys r r' v e w n = record {
  deposit = v.deposit;
  requested = replaced-IsRequested xs ys r r' (subst IsRequested e v.requested) w n;
  accepted = inr (has_request-IsAccepted xs ys r e v.accepted);
  booked = v.booked;
}
