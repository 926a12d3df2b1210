-- ===== src/Deposit/Decisions.antt =====
-- What a successful review of a deposit or of a change has passed, and what it does to the two
-- approval records.
use kamorina.Base.{ℕ, String, ◌≡◌, ◌≢◌, refl, true, Option, none, some, List, [], ◌∷◌, arith, ok}
use kamorina.Deposit.Types.{
  DepositApprovalStep, divisi_simpan_pinjam, ketua, DepositApprovalDecision, approved,
  DepositApproval,
}
use kamorina.Deposit.Review.{Found, has_role_for, find_approval, decide, undecided, check_review}

-- The records stand in the order of the steps, have different ids, and have these decisions.
abbrev pub HasDecisions :
    List DepositApproval → Option DepositApprovalDecision → Option DepositApprovalDecision → Type 0
HasDecisions (a ∷ b ∷ []) x y =
    (a.step ≡ divisi_simpan_pinjam)
    × (b.step ≡ ketua)
    × (a.id ≢ b.id)
    × (a.decision ≡ x)
    × (b.decision ≡ y)
HasDecisions _ x y = ⊥

-- What the records say when a review at this step begins, and when it has approved.
abbrev pub IsAwaiting : DepositApprovalStep → List DepositApproval → Type 0
IsAwaiting divisi_simpan_pinjam l = HasDecisions l none none
IsAwaiting ketua l = HasDecisions l (some approved) none

abbrev pub IsPassed : DepositApprovalStep → List DepositApproval → Type 0
IsPassed divisi_simpan_pinjam l = HasDecisions l (some approved) none
IsPassed ketua l = HasDecisions l (some approved) (some approved)

-- An approval of the awaited record passes the step.
pub decide-IsPassed :
    (step : DepositApprovalStep) (now approver : ℕ) (notes : Option String) (a : DepositApproval)
    (l : List DepositApproval)
    → IsAwaiting step l
    → find_approval step l ≡ some a
    → IsPassed step (decide a.id approved now approver notes l)
unfolding find_approval decide
decide-IsPassed divisi_simpan_pinjam now approver notes a (b ∷ c ∷ []) h f = ground arith
decide-IsPassed ketua now approver notes a (b ∷ c ∷ []) h f = ground arith
decide-IsPassed divisi_simpan_pinjam now approver notes a [] h f = absurd h
decide-IsPassed divisi_simpan_pinjam now approver notes a (b ∷ []) h f = absurd h
decide-IsPassed divisi_simpan_pinjam now approver notes a (b ∷ c ∷ d ∷ l) h f = absurd h
decide-IsPassed ketua now approver notes a [] h f = absurd h
decide-IsPassed ketua now approver notes a (b ∷ []) h f = absurd h
decide-IsPassed ketua now approver notes a (b ∷ c ∷ d ∷ l) h f = absurd h

module _ (roles : List String) (l : List DepositApproval) where
  -- What the guards of a review have passed.
  pub record Reviewable (current : Option DepositApprovalStep) (w : Found) : Type 0 where
    pub is_current : current ≡ some w.0
    pub has_role : has_role_for w.0 roles ≡ true
    pub found : find_approval w.0 l ≡ some w.1
    pub is_undecided : w.1.decision ≡ none

  Reviewable-undecided :
      (step : DepositApprovalStep) (o : Option DepositApproval) {w : Found}
      → has_role_for step roles ≡ true
      → find_approval step l ≡ o
      → undecided step o ≡ ok w
      → Reviewable (some step) w
  Reviewable-undecided step none c f h = cc
  Reviewable-undecided step (some a) {w} c f h =
      let e : w ≡ (step, a) = ground arith in
      record {
        is_current = rw e refl;
        has_role = rw e c;
        found = rw e f;
        is_undecided = rw e (ground arith);
      }

  pub check_review-Reviewable :
      (current : Option DepositApprovalStep) {w : Found}
      → check_review roles current l ≡ ok w
      → Reviewable current w
  unfolding check_review
  check_review-Reviewable none h = cc
  check_review-Reviewable (some step) h =
      Reviewable-undecided step (find_approval step l) (ground arith) refl (ground arith)
