-- ===== src/Loan/Records.antt =====
-- The three approval records of a submitted loan, and what a decision or a revision does to them.
use kamorina.Base.{ℕ, String, ◌≡◌, ◌≢◌, Option, some, List, [], ◌∷◌, arith}
use kamorina.Loan.Types.{
  LoanApprovalStep, divisi_simpan_pinjam, ketua, pengawas, LoanApprovalDecision, revise,
  LoanApproval, RevisedData,
}
use kamorina.Loan.Approval.{find_approval, decide}
use kamorina.Loan.Revision.{record_revision}

-- The records stand in the order of the steps, have different ids, and have these decisions.
abbrev pub HasDecisions :
    List LoanApproval
    → Option LoanApprovalDecision
    → Option LoanApprovalDecision
    → Option LoanApprovalDecision
    → Type 0
HasDecisions (a ∷ b ∷ c ∷ []) x y z =
    (a.step ≡ divisi_simpan_pinjam)
    × (b.step ≡ ketua)
    × (c.step ≡ pengawas)
    × (a.id ≢ b.id)
    × (a.id ≢ c.id)
    × (b.id ≢ c.id)
    × (a.decision ≡ x)
    × (b.decision ≡ y)
    × (c.decision ≡ z)
HasDecisions _ x y z = ⊥

abbrev Decision : Type 0
Decision = Option LoanApprovalDecision

-- The decision of a step, and the decisions after that step is decided.
abbrev pub decision_at : LoanApprovalStep → Decision → Decision → Decision → Decision
decision_at divisi_simpan_pinjam x y z = x
decision_at ketua x y z = y
decision_at pengawas x y z = z

abbrev pub HasDecided :
    LoanApprovalStep → Decision → List LoanApproval → Decision → Decision → Decision → Type 0
HasDecided divisi_simpan_pinjam d l x y z = HasDecisions l d y z
HasDecided ketua d l x y z = HasDecisions l x d z
HasDecided pengawas d l x y z = HasDecisions l x y d

-- The record of a step is found.
pub find_approval-HasDecisions :
    (step : LoanApprovalStep) (l : List LoanApproval) (x y z : Decision)
    → HasDecisions l x y z
    → (r : LoanApproval) × (find_approval step l ≡ some r) × (r.decision ≡ decision_at step x y z)
unfolding find_approval
find_approval-HasDecisions divisi_simpan_pinjam (a ∷ b ∷ c ∷ []) x y z h =
    (a, ground arith, ground arith)
find_approval-HasDecisions ketua (a ∷ b ∷ c ∷ []) x y z h = (b, ground arith, ground arith)
find_approval-HasDecisions pengawas (a ∷ b ∷ c ∷ []) x y z h = (c, ground arith, ground arith)
find_approval-HasDecisions _ [] x y z h = absurd h
find_approval-HasDecisions _ (a ∷ []) x y z h = absurd h
find_approval-HasDecisions _ (a ∷ b ∷ []) x y z h = absurd h
find_approval-HasDecisions _ (a ∷ b ∷ c ∷ d ∷ l) x y z h = absurd h

-- Deciding on that record changes the decision of its step and no other.
pub decide-HasDecisions :
    (step : LoanApprovalStep) (d : LoanApprovalDecision) (now approver : ℕ) (notes : Option String)
    (r : LoanApproval) (l : List LoanApproval) (x y z : Decision)
    → HasDecisions l x y z
    → find_approval step l ≡ some r
    → HasDecided step (some d) (decide r.id d now approver notes l) x y z
unfolding find_approval decide
decide-HasDecisions divisi_simpan_pinjam d now approver notes r (a ∷ b ∷ c ∷ []) x y z h e =
    ground arith
decide-HasDecisions ketua d now approver notes r (a ∷ b ∷ c ∷ []) x y z h e = ground arith
decide-HasDecisions pengawas d now approver notes r (a ∷ b ∷ c ∷ []) x y z h e = ground arith
decide-HasDecisions _ d now approver notes r [] x y z h e = absurd h
decide-HasDecisions _ d now approver notes r (a ∷ []) x y z h e = absurd h
decide-HasDecisions _ d now approver notes r (a ∷ b ∷ []) x y z h e = absurd h
decide-HasDecisions _ d now approver notes r (a ∷ b ∷ c ∷ k ∷ l) x y z h e = absurd h

-- A revision marks the first record as revised.
pub record_revision-HasDecisions :
    (now approver : ℕ) (notes : String) (figures : RevisedData) (l : List LoanApproval)
    (x y z : Decision)
    → HasDecisions l x y z
    → HasDecisions
        (record_revision (find_approval divisi_simpan_pinjam l) now approver notes figures l)
        (some revise)
        y
        z
unfolding find_approval record_revision
record_revision-HasDecisions now approver notes figures (a ∷ b ∷ c ∷ []) x y z h = ground arith
record_revision-HasDecisions now approver notes figures [] x y z h = absurd h
record_revision-HasDecisions now approver notes figures (a ∷ []) x y z h = absurd h
record_revision-HasDecisions now approver notes figures (a ∷ b ∷ []) x y z h = absurd h
record_revision-HasDecisions now approver notes figures (a ∷ b ∷ c ∷ d ∷ l) x y z h = absurd h
