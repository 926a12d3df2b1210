-- ===== src/Savings/Coverage.antt =====
-- What holds of a member's account through every sequence of withdrawal requests: what is pending
-- is covered, and what was paid is booked.
use kamorina.Base.{
  ℕ, ◌+◌, ◌≤◌, ◌≡◌, refl, sym, subst, Option, none, some, List, [], ◌∷◌, arith, All, Result, ok,
  Result-cases, inl, inr, any, false, ap, ◌∙◌,
}
use kamorina.Base.Int.{pos_part, neg_part, ℤ, pos, ◌+ℤ◌, ◌≤ℤ◌, int_laws}
use kamorina.Loan.Calculation.{Settings}
use kamorina.Savings.Types.{submitted, SavingsWithdrawal, SavingsAccount, SavingsError}
use kamorina.Savings.Creation.{is_pending, create_withdrawal}
use kamorina.Savings.Payment.{ConfirmAuthorizationDto, confirm_authorization}
use kamorina.Savings.Phases.{IsPhase, IsValid, IsKept, pending_amount, paid_amount}
use kamorina.Savings.Review.{process_approval-IsKept, cancel_withdrawal-IsKept}
use kamorina.Savings.Confirmation.{
  create_withdrawal-eq-ok, confirm_disbursement-IsKept, confirm_authorization-IsCompleted,
  IsDebited, withdrawn,
}
use kamorina.Savings.Member.{
  Member, find_withdrawal, update_withdrawal, write_found, pay_found, write_by, pay_by, create_by,
  Step, create, review, cancel, disburse, authorize, Reach, here, next,
}
use kamorina.Savings.Rows.{
  total, total-update_withdrawal, All-find_withdrawal, All-update_withdrawal,
}

total-nothing_pending :
    (ws : List SavingsWithdrawal) → any is_pending ws ≡ false → total pending_amount ws ≡ 0
total-nothing_pending [] h = refl
total-nothing_pending (w ∷ ws) h = ground (arith, total-nothing_pending ws)

-- What the account says of the withdrawals: the voluntary savings cover what is pending; with what
-- was paid, they are `start`; and the withdrawals that are booked are those that were paid, and
-- `before`.
abbrev pub IsAccounted : ℤ → ℕ → Option SavingsAccount → List SavingsWithdrawal → Type 0
IsAccounted start before none ws = Unit
IsAccounted start before (some account) ws =
    (pos (total pending_amount ws) ≤ℤ account.saldo_sukarela)
    × (account.saldo_sukarela +ℤ pos (total paid_amount ws) ≡ start)
    × (withdrawn account.transactions ≡ before + total paid_amount ws)

abbrev pub IsSettled : ℤ → ℕ → Member → Type 0
IsSettled start before m =
    All IsValid m.withdrawals × IsAccounted start before m.account m.withdrawals

moved :
    (saldo : ℤ) (amount paid' paid : ℕ) (saldo₀ : ℤ)
    → paid' ≡ paid + amount
    → saldo +ℤ pos amount ≡ saldo₀
    → saldo +ℤ pos paid' ≡ saldo₀ +ℤ pos paid
moved saldo amount paid' paid saldo₀ q e = omega (int_laws, q, ap pos_part e, ap neg_part e)

module _ (start : ℤ) (before : ℕ) where
  fewer_pending :
      (o : Option SavingsAccount) (ws ws' : List SavingsWithdrawal)
      → total pending_amount ws' ≤ total pending_amount ws
      → total paid_amount ws' ≡ total paid_amount ws
      → IsAccounted start before o ws
      → IsAccounted start before o ws'
  fewer_pending none ws ws' le e h = tt
  fewer_pending (some account) ws ws' le e (c, b, t) = (omega (arith, le, c), rw e b, rw e t)

  write_found-IsSettled :
      (id : ℕ) (request : SavingsWithdrawal → Result SavingsError SavingsWithdrawal) (m : Member)
      → ((w w' : SavingsWithdrawal) → IsValid w → request w ≡ ok w' → IsKept w w')
      → (o : Option SavingsWithdrawal) {m' : Member} → find_withdrawal id m.withdrawals ≡ o
      → IsSettled start before m
      → write_found id request m o ≡ ok m'
      → IsSettled start before m'
  write_found-IsSettled id request m keeps none f s h = cc
  write_found-IsSettled id request m keeps (some w) {m'} f (v, a) h =
      elim (Result-cases (request w)) [
        | inl (w', done) ↦
            let (v', le, same) =
              keeps w w' (All-find_withdrawal IsValid id w m.withdrawals f v) done in
            let written : m' ≡ record m { withdrawals = update_withdrawal id w' m.withdrawals } =
              ground arith in
            subst (IsSettled start before) (sym written) (
              All-update_withdrawal IsValid id w' m.withdrawals v' v,
              fewer_pending m.account m.withdrawals _
                  (omega
                    (arith, le, total-update_withdrawal pending_amount id w w' m.withdrawals f))
                  (omega (arith, same, total-update_withdrawal paid_amount id w w' m.withdrawals f))
                  a,
            )
        | inr (x, failed) ↦ absurd (ground arith)
      ]

  debited :
      (amount : ℕ) (ws ws' : List SavingsWithdrawal) (o o' : Option SavingsAccount)
      → total pending_amount ws' + amount ≤ total pending_amount ws
      → total paid_amount ws' ≡ total paid_amount ws + amount
      → IsDebited amount o o'
      → IsAccounted start before o ws
      → IsAccounted start before o' ws'
  debited amount ws ws' none o' p q d a = rw d tt
  debited amount ws ws' (some account) o' p q (account', e, saldo, _, _, booked) (c, b, t) = rw e (
    omega (int_laws, p, c, ap pos_part saldo, ap neg_part saldo),
    moved account'.saldo_sukarela amount _ _ account.saldo_sukarela q saldo ∙ b,
    omega (arith, q, t, booked),
  )

  pay_found-IsSettled :
      (settings : Settings) (id now new_id user : ℕ) (dto : ConfirmAuthorizationDto) (m : Member)
      (o : Option SavingsWithdrawal) {m' : Member}
      → find_withdrawal id m.withdrawals ≡ o
      → IsSettled start before m
      → pay_found id (confirm_authorization settings now new_id user dto) m o ≡ ok m'
      → IsSettled start before m'
  pay_found-IsSettled settings id now new_id user dto m none f s h = cc
  pay_found-IsSettled settings id now new_id user dto m (some w) {m'} f (v, a) h =
      elim (Result-cases (confirm_authorization settings now new_id user dto w m.account)) [
        | inl ((w', o'), done) ↦
            let ((status, paid, asked, unpaid, now_paid), d) =
              confirm_authorization-IsCompleted settings now new_id user dto w m.account
                (All-find_withdrawal IsValid id w m.withdrawals f v) done in
            let written : m'
                ≡ record { account = o'; withdrawals = update_withdrawal id w' m.withdrawals } =
              ground arith in
            subst (IsSettled start before) (sym written) (
              All-update_withdrawal IsValid id w' m.withdrawals
                  (subst (λ k. IsPhase k w') (sym status) paid) v,
              debited w.withdrawal_amount m.withdrawals _ m.account o'
                  (let gone : pending_amount w' ≡ 0 = ground arith in
                    omega (
                      arith,
                      asked,
                      gone,
                      total-update_withdrawal pending_amount id w w' m.withdrawals f,
                    ))
                  (omega (
                    arith,
                    unpaid,
                    now_paid,
                    total-update_withdrawal paid_amount id w w' m.withdrawals f,
                  ))
                  d a,
            )
        | inr (x, failed) ↦ absurd (ground arith)
      ]

  created-IsSettled :
      (m : Member) (w : SavingsWithdrawal) (o : Option SavingsAccount) (account : SavingsAccount)
      → o ≡ some account
      → pos w.withdrawal_amount ≤ℤ account.saldo_sukarela
      → any is_pending m.withdrawals ≡ false
      → w.status ≡ submitted
      → IsAccounted start before o m.withdrawals
      → IsAccounted start before o (w ∷ m.withdrawals)
  created-IsSettled m w o account e c n s a =
      let none_pending = total-nothing_pending m.withdrawals n in
      let asked : pending_amount w ≡ w.withdrawal_amount = ground arith in
      let unpaid : paid_amount w ≡ 0 = ground arith in
      let same : total paid_amount (w ∷ m.withdrawals) ≡ total paid_amount m.withdrawals =
        omega (arith, unpaid) in
      subst (λ x. IsAccounted start before x (w ∷ m.withdrawals)) (sym e)
        (let (_, b, t) = subst (λ x. IsAccounted start before x m.withdrawals) e a in
          (
            omega (arith, none_pending, asked, c),
            subst (λ n. account.saldo_sukarela +ℤ pos n ≡ start) (sym same) b,
            subst (λ n. withdrawn account.transactions ≡ before + n) (sym same) t,
          ))

  Step-IsSettled :
      {m m' : Member} → Step m m' → IsSettled start before m → IsSettled start before m'
  unfolding create_by write_by pay_by
  Step-IsSettled {m} {m'} (create settings now new_id user dto deposits h) (v, a) =
      elim (Result-cases
        (create_withdrawal settings now new_id user dto deposits m.withdrawals m.account)) [
          | inl (w, done) ↦
              let (account, e, c, n, s, valid) =
                create_withdrawal-eq-ok settings now new_id user dto deposits m.withdrawals
                  m.account done in
              let written : m' ≡ record m { withdrawals = w ∷ m.withdrawals } = ground arith in
              subst (IsSettled start before) (sym written)
                ((valid, v), created-IsSettled m w m.account account e c n s a)
          | inr (x, failed) ↦ absurd (ground arith)
        ]
  Step-IsSettled {m} (review id now approver roles dto h) s =
      write_found-IsSettled id _ m
        (λ w w' v e. process_approval-IsKept now approver roles dto w v e)
        (find_withdrawal id m.withdrawals) refl s h
  Step-IsSettled {m} (cancel id user h) s =
      write_found-IsSettled id _ m (λ w w' v e. (cancel_withdrawal-IsKept user w v e).1)
        (find_withdrawal id m.withdrawals) refl s h
  Step-IsSettled {m} (disburse id now user dto h) s =
      write_found-IsSettled id _ m (λ w w' v e. confirm_disbursement-IsKept now user dto w v e)
        (find_withdrawal id m.withdrawals) refl s h
  Step-IsSettled {m} (authorize settings id now new_id user dto h) s =
      pay_found-IsSettled settings id now new_id user dto m (find_withdrawal id m.withdrawals) refl
        s h

  -- Through every sequence of successful requests on a member's withdrawals: each withdrawal is
  -- valid; the voluntary savings cover all that is pending; what left them is what was paid; and
  -- that is what the transactions have booked.
  pub Reach-IsSettled :
      {m m' : Member} → IsSettled start before m → Reach m m' → IsSettled start before m'
  Reach-IsSettled s here = s
  Reach-IsSettled s (next r st) = Step-IsSettled st (Reach-IsSettled s r)
