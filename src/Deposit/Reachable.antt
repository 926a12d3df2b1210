-- ===== src/Deposit/Reachable.antt =====
-- A deposit, its requests for changes and its owner's account, through every sequence of the calls of
-- backend/src/deposit and of the payroll's runs.
use kamorina.Base.{◌≡◌, sym, subst, inr, List, ◌++◌, ◌∷◌, arith}
use kamorina.Deposit.Case.{
  Case, row_of, Step, review, payroll, draft, stop, update, submit, change, cancel, Reach, here,
  next,
}
use kamorina.Deposit.Requested.{
  IsRequested, middle-IsValid, removed-IsRequested, replaced-IsRequested,
}
use kamorina.Deposit.Sound.{
  IsSound, review-IsSound, payroll-IsSound, added-IsSound, has_request-IsAccepted, replaced-IsSound,
}
use kamorina.Deposit.Changed.{IsKept, conclude-IsKept, weight-le}
use kamorina.Deposit.Change.Types.{DepositChangeRequest}
use kamorina.Deposit.Change.Phases
use kamorina.Deposit.Change.Phases.{
  create_draft-IsValid, create_stop_request-IsValid, update_draft-IsValid,
  submit_change_request-IsValid,
}
use kamorina.Deposit.Change.Reviewed.{process_approval-Reviewed, process_approval-IsValid}

requested_one :
    (s : Case) (xs ys : List DepositChangeRequest) (r : DepositChangeRequest)
    → IsSound s
    → s.requests ≡ xs ++ r ∷ ys
    → Phases.IsValid r
requested_one s xs ys r v e = middle-IsValid xs ys r (subst IsRequested e v.requested)

Step-IsSound : {s t : Case} → Step s t → IsSound s → IsSound t
Step-IsSound {s} (review settings now today approver roles dto d h) v =
    review-IsSound s settings now today approver roles dto d v h
Step-IsSound {s} (payroll now new_ids settings context day d h) v =
    payroll-IsSound s now new_ids settings context day d v h
Step-IsSound {s} (draft settings options new_id user dto r h) v =
    let (ready, w) = create_draft-IsValid settings options new_id user dto s.deposit s.requests h in
    added-IsSound s user r v ready w.0
Step-IsSound {s} (stop settings now new_id first second user dto r ne h) v =
    let (ready, w) =
      create_stop_request-IsValid settings now new_id first second user dto s.deposit s.requests ne
        h in
    added-IsSound s user r v ready w.0
Step-IsSound {s} (update options user dto xs ys r r' e h) v =
    let (was, w) =
      update_draft-IsValid options user dto s.deposit r (requested_one s xs ys r v e) h in
    replaced-IsSound s xs ys r r' v e w.0 (ground arith)
Step-IsSound {s} (submit now first second user xs ys r r' ne e h) v =
    let (was, w) =
      submit_change_request-IsValid now first second user r ne (requested_one s xs ys r v e) h in
    replaced-IsSound s xs ys r r' v e w.0 (ground arith)
Step-IsSound {s} (change settings now today new_id approver roles dto xs ys r row e h) v =
    let one = requested_one s xs ys r v e in
    let w =
      process_approval-Reviewed settings now today new_id approver roles dto (row_of r s) one h in
    let k : IsKept row = subst IsKept (sym w.concluded) (
      conclude-IsKept settings now today new_id approver dto.notes w.step w.record_found
        (row_of r s) dto.decision
        (record {
          deposit = v.deposit;
          accepted = has_request-IsAccepted xs ys r e v.accepted;
          booked = v.booked;
        })) in
    record {
      deposit = k.deposit;
      requested =
          replaced-IsRequested xs ys r row.request (subst IsRequested e v.requested)
            (process_approval-IsValid settings now today new_id approver roles dto (row_of r s) one
              h)
            (weight-le w.step r row.request one w.is_current);
      accepted = inr k.accepted;
      booked = k.booked;
    }
Step-IsSound {s} (cancel user xs ys r e h) v = record {
  deposit = v.deposit;
  requested = removed-IsRequested xs ys r (subst IsRequested e v.requested);
  accepted = inr (has_request-IsAccepted xs ys r e v.accepted);
  booked = v.booked;
}

-- Through every sequence of successful calls and payroll runs on a deposit: the deposit and its
-- requests are valid; at most one request is open, and there is one only if both reviewers have
-- accepted the deposit; and the account's voluntary savings are what was collected for the deposit,
-- less the fees that its transactions have booked.
pub Reach-IsSound : {s t : Case} → Reach s t → IsSound s → IsSound t
Reach-IsSound here v = v
Reach-IsSound (next r step) v = Step-IsSound step (Reach-IsSound r v)
