-- ===== src/Numbers/Sequence.antt =====
-- The sequence number that a display number is printed with is the one that is read from it.
use kamorina.Base.{
  ℕ, zero, suc, ◌+◌, ◌-◌, ◌*◌, ◌/◌, ◌%◌, ◌≤◌, ◌≡◌, refl, ◌∙◌, true, false, [], ◌∷◌, ◌++◌, All, ltb,
  ◌==◌, Bool-cases, inl, inr, arith,
}
use kamorina.Numbers.Generator

abbrev pub IsDigits : Generator.Text → Type 0
IsDigits = All (λ c. Generator.is_digit c ≡ true)

-- A text without a dash.
abbrev pub IsPlain : Generator.Text → Type 0
IsPlain = All (λ c. (c == Generator.dash) ≡ false)

pub IsDigits-IsPlain : (text : Generator.Text) → IsDigits text → IsPlain text
IsDigits-IsPlain [] h = tt
IsDigits-IsPlain (c ∷ text) (h, hs) = (ground (arith, h), IsDigits-IsPlain text hs)

IsDigits-append : (a b : Generator.Text) → IsDigits a → IsDigits b → IsDigits (a ++ b)
IsDigits-append [] b h k = k
IsDigits-append (c ∷ a) b (h, hs) k = (h, IsDigits-append a b hs k)

last_digit : (n : ℕ) → Generator.is_digit (48 + n % 10) ≡ true
last_digit n = ground arith

pub digits-IsDigits : (rounds n : ℕ) → IsDigits (Generator.digits rounds n)
unfolding Generator.digits
digits-IsDigits zero n = (last_digit n, tt)
digits-IsDigits (suc rounds) n = elim (Bool-cases (ltb n 10)) [
  | inl t ↦ rw t (ground (arith, t), tt)
  | inr t ↦ rw t (
      IsDigits-append (Generator.digits rounds (n / 10)) ((48 + n % 10) ∷ [])
        (digits-IsDigits rounds (n / 10)) (last_digit n, tt))
]

-- One digit more.
value-append :
    (v c : ℕ) (text : Generator.Text)
    → IsDigits text
    → Generator.is_digit c ≡ true
    → Generator.value v (text ++ c ∷ []) ≡ Generator.value v text * 10 + (c - 48)
unfolding Generator.value
value-append v c [] h k = rw k refl
value-append v c (d ∷ text) (h, hs) k = rw h (value-append (v * 10 + (d - 48)) c text hs k)

pub value-digits : (rounds n : ℕ) → n ≤ rounds → Generator.value 0 (Generator.digits rounds n) ≡ n
unfolding Generator.digits Generator.value
value-digits zero n h = ground (arith, h)
value-digits (suc rounds) n h = elim (Bool-cases (ltb n 10)) [
  | inl t ↦ rw t (ground (arith, t))
  | inr t ↦ rw t (
      value-append 0 (48 + n % 10) (Generator.digits rounds (n / 10))
        (digits-IsDigits rounds (n / 10)) (last_digit n)
      ∙ rw (value-digits rounds (n / 10) (omega arith)) (omega arith))
]
