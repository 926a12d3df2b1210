-- ===== src/Numbers/RoundTrip.antt =====
-- A display number is read back as it was printed, and the generators count on.
use kamorina.Base.{
  ◌≢◌, ℕ, zero, suc, ◌+◌, ◌-◌, ◌≡◌, refl, sym, ap, ◌∙◌, some, [], ◌∷◌, ◌++◌, length, Bool-cases,
  inl, inr, arith, ltb, ◌/◌, ◌%◌,
}
use kamorina.Loan.Types.{cash_loan, goods_reimburse, goods_online, goods_phone, excess_loan}
use kamorina.Numbers.Generator.{
  Text, dash, digits, to_string, repeat, pad_start, split, value, parse_int, read_third,
  sequence_of, NumberKind, loan, repayment, deposit, change, withdrawal, get_prefix, number_with,
  generate, next_of,
}
use kamorina.Numbers.Sequence.{IsDigits, IsPlain, IsDigits-IsPlain, digits-IsDigits, value-digits}

IsDigits-repeat : (n : ℕ) (text : Text) → IsDigits text → IsDigits (repeat n text)
IsDigits-repeat zero text h = h
IsDigits-repeat (suc n) text h = (refl, IsDigits-repeat n text h)

value-repeat : (n : ℕ) (text : Text) → value 0 (repeat n text) ≡ value 0 text
unfolding value
value-repeat zero text = refl
value-repeat (suc n) text = value-repeat n text

-- Of a text of digits that is not empty, the whole is read.
parse_int-IsDigits :
    (c : ℕ) (text : Text) → IsDigits (c ∷ text) → parse_int (c ∷ text) ≡ some (value 0 (c ∷ text))
unfolding parse_int
parse_int-IsDigits c text (h, hs) = rw h refl

split-IsPlain : (text : Text) → IsPlain text → split text ≡ text ∷ []
unfolding split
split-IsPlain [] h = refl
split-IsPlain (c ∷ text) (h, hs) = rw h (rw (split-IsPlain text hs) refl)

split-dash : (word text : Text) → IsPlain word → split (word ++ dash ∷ text) ≡ word ∷ split text
unfolding split
split-dash [] text h = refl
split-dash (c ∷ word) text (h, hs) = rw h (rw (split-dash word text hs) refl)

get_prefix-IsPlain : (kind : NumberKind) → IsPlain (get_prefix kind)
get_prefix-IsPlain (loan cash_loan) = (refl, (refl, (refl, (refl, tt))))
get_prefix-IsPlain (loan goods_reimburse) = (refl, (refl, (refl, (refl, tt))))
get_prefix-IsPlain (loan goods_online) = (refl, (refl, (refl, (refl, tt))))
get_prefix-IsPlain (loan goods_phone) = (refl, (refl, (refl, (refl, tt))))
get_prefix-IsPlain (loan excess_loan) = (refl, (refl, (refl, (refl, tt))))
get_prefix-IsPlain repayment = (refl, (refl, (refl, (refl, tt))))
get_prefix-IsPlain deposit = (refl, (refl, (refl, (refl, tt))))
get_prefix-IsPlain change = (refl, (refl, (refl, (refl, tt))))
get_prefix-IsPlain withdrawal = (refl, (refl, (refl, (refl, tt))))

parse_int-filled :
    (text : Text) → IsDigits text → 0 ≢ length text → parse_int text ≡ some (value 0 text)
parse_int-filled [] h e = absurd (e refl)
parse_int-filled (c ∷ text) h e = parse_int-IsDigits c text h

append-filled : (text : Text) (c : ℕ) → 0 ≢ length (text ++ c ∷ [])
append-filled [] c e = omega (arith, e)
append-filled (d ∷ text) c e = omega (arith, e)

digits-filled : (rounds n : ℕ) → 0 ≢ length (digits rounds n)
unfolding digits
digits-filled zero n = λ e. omega (arith, e)
digits-filled (suc rounds) n = elim (Bool-cases (ltb n 10)) [
  | inl t ↦ rw t (λ e. omega (arith, e))
  | inr t ↦ rw t (append-filled (digits rounds (n / 10)) (48 + n % 10))
]

repeat-filled : (n : ℕ) (text : Text) → 0 ≢ length text → 0 ≢ length (repeat n text)
repeat-filled zero text h = h
repeat-filled (suc n) text h = λ e. omega (arith, e)

-- What is read of the number `n` of a day.
sequence_of-number :
    (kind : NumberKind) (date : Text) (n : ℕ)
    → IsPlain date
    → sequence_of (number_with kind date (some n)) ≡ some n
unfolding sequence_of read_third number_with pad_start to_string
sequence_of-number kind date n plain =
    let front = repeat (4 - length (digits n n)) (digits n n) in
    let h : IsDigits front = IsDigits-repeat _ (digits n n) (digits-IsDigits n n) in
    let cut : split (number_with kind date (some n)) ≡ get_prefix kind ∷ date ∷ front ∷ [] =
      split-dash (get_prefix kind) (date ++ dash ∷ front) (get_prefix-IsPlain kind)
      ∙ ap (λ k. get_prefix kind ∷ k)
          (split-dash date front plain
            ∙ ap (λ k. date ∷ k) (split-IsPlain front (IsDigits-IsPlain front h))) in
    ap read_third cut
    ∙ (parse_int-filled front h (repeat-filled _ (digits n n) (digits-filled n n))
        ∙ ap some
            (value-repeat (4 - length (digits n n)) (digits n n) ∙ value-digits n n (omega arith)))

number-injective : {a b : ℕ} → some a ≡ some b → a ≡ b
number-injective e = ground arith

-- The number that is generated after the number `n` of a day is the number `n + 1` of the day.
generate-next :
    (kind : NumberKind) (date : Text) (n : ℕ)
    → IsPlain date
    → generate kind date (some (number_with kind date (some n)))
      ≡ number_with kind date (some (n + 1))
unfolding generate
generate-next kind date n plain =
    ap (λ k. number_with kind date (next_of k)) (sequence_of-number kind date n plain)

-- For each kind of number and a date without a dash: the sequence number that is read from a display
-- number is the one it was printed with, also beyond the four digits that it is padded to; the
-- generator counts on from it; and two sequence numbers of a day have different display numbers.
pub number_with-RoundTrip :
    (kind : NumberKind) (date : Text) (n : ℕ)
    → IsPlain date
    → (sequence_of (number_with kind date (some n)) ≡ some n)
      × (generate kind date (some (number_with kind date (some n)))
          ≡ number_with kind date (some (n + 1)))
      × ((m : ℕ) → number_with kind date (some m) ≡ number_with kind date (some n) → m ≡ n)
number_with-RoundTrip kind date n plain = (
  sequence_of-number kind date n plain,
  generate-next kind date n plain,
  λ m e. number-injective (
      sym (sequence_of-number kind date m plain)
      ∙ ap sequence_of e
      ∙ sequence_of-number kind date n plain),
)
