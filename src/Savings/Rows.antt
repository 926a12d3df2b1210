-- ===== src/Savings/Rows.antt =====
-- Totals and properties of a list of withdrawals when one of them is found and updated.
use kamorina.Base.{
  ℕ, ◌+◌, ◌≡◌, Bool-cases, ◌==◌, subst, some, List, [], ◌∷◌, arith, sum, map, All, inl, inr,
}
use kamorina.Savings.Types.{SavingsWithdrawal}
use kamorina.Savings.Member.{find_withdrawal, update_withdrawal}

abbrev pub total : (SavingsWithdrawal → ℕ) → List SavingsWithdrawal → ℕ
total f ws = sum (map f ws)

-- An update of a row that is there replaces its part of a total.
pub total-update_withdrawal :
    (f : SavingsWithdrawal → ℕ) (id : ℕ) (w w' : SavingsWithdrawal) (ws : List SavingsWithdrawal)
    → find_withdrawal id ws ≡ some w
    → total f (update_withdrawal id w' ws) + f w ≡ total f ws + f w'
unfolding find_withdrawal update_withdrawal
total-update_withdrawal f id w w' [] h = cc
total-update_withdrawal f id w w' (x ∷ ws) h = ground (arith, total-update_withdrawal f id w w' ws)

module _ (P : SavingsWithdrawal → Type 0) where
  pub All-find_withdrawal :
      (id : ℕ) (w : SavingsWithdrawal) (ws : List SavingsWithdrawal)
      → find_withdrawal id ws ≡ some w
      → All P ws
      → P w
  unfolding find_withdrawal
  All-find_withdrawal id w [] h v = cc
  All-find_withdrawal id w (x ∷ ws) h v = elim (Bool-cases (x.id == id)) [
    | inl e ↦ let same : x ≡ w = ground arith in subst P same v.0
    | inr e ↦ All-find_withdrawal id w ws (ground arith) v.1
  ]

  pub All-update_withdrawal :
      (id : ℕ) (w' : SavingsWithdrawal) (ws : List SavingsWithdrawal)
      → P w'
      → All P ws
      → All P (update_withdrawal id w' ws)
  unfolding update_withdrawal
  All-update_withdrawal id w' [] v h = tt
  All-update_withdrawal id w' (x ∷ ws) v h = elim (Bool-cases (x.id == id)) [
    | inl e ↦ rw e (v, h.1)
    | inr e ↦ rw e (h.0, All-update_withdrawal id w' ws v h.1)
  ]
