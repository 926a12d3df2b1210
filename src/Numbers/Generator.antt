-- ===== src/Numbers/Generator.antt =====
-- `generateLoanNumber` of backend/src/loan/services/loan-number.service.ts, and the generators of the
-- other services, which differ in the prefix.
use kamorina.Base.{
  ℕ, zero, suc, ◌+◌, ◌-◌, ◌*◌, ◌/◌, ◌%◌, Bool, ◌&&◌, Option, none, some, List, [], ◌∷◌, ◌++◌,
  length, leb, ltb, ◌==◌, if◌then◌else◌,
}
use kamorina.Loan.Types.{
  LoanType, cash_loan, goods_reimburse, goods_online, goods_phone, excess_loan,
}

abbrev pub Text : Type 0
Text = List ℕ

-- The characters `-` and `0`.
abbrev pub dash : ℕ
dash = 45

abbrev pub zero_digit : ℕ
zero_digit = 48

abbrev pub is_digit : ℕ → Bool
is_digit c = leb 48 c && leb c 57

-- `sequence.toString()`, in as many rounds as the number says, which are enough.
unfoldable pub digits : ℕ → ℕ → Text
digits zero n = (zero_digit + n % 10) ∷ []
digits (suc rounds) n =
    let front = digits rounds (n / 10) in
    if ltb n 10 then (zero_digit + n) ∷ [] else front ++ (zero_digit + n % 10) ∷ []

unfoldable pub to_string : ℕ → Text
unfolding digits
to_string n = digits n n

abbrev pub repeat : ℕ → Text → Text
repeat zero text = text
repeat (suc n) text = zero_digit ∷ repeat n text

-- `text.padStart(width, '0')`
unfoldable pub pad_start : ℕ → Text → Text
pad_start width text = repeat (width - length text) text

abbrev pub push : ℕ → List Text → List Text
push c [] = (c ∷ []) ∷ []
push c (word ∷ words) = (c ∷ word) ∷ words

-- `text.split('-')`
unfoldable pub split : Text → List Text
split [] = [] ∷ []
split (c ∷ text) = let rest = split text in if c == dash then [] ∷ rest else push c rest

-- The digits at the start, on from a value.
unfoldable pub value : ℕ → Text → ℕ
value v [] = v
value v (c ∷ text) =
    let next = value (v * 10 + (c - zero_digit)) text in if is_digit c then next else v

-- `parseInt(text)`, for a text that does not begin with blanks or a sign; `none` is NaN.
unfoldable pub parse_int : Text → Option ℕ
unfolding value
parse_int [] = none
parse_int (c ∷ text) = if is_digit c then some (value 0 (c ∷ text)) else none

-- `parseInt(words[2])`
unfoldable pub read_third : List Text → Option ℕ
unfolding parse_int
read_third (a ∷ b ∷ c ∷ words) = parse_int c
read_third _ = none

-- `parseInt(number.split('-')[2])`
unfoldable pub sequence_of : Text → Option ℕ
unfolding split read_third
sequence_of number = read_third (split number)

pub data NumberKind : Type 0 where
  loan : LoanType → NumberKind
  repayment deposit change withdrawal : NumberKind

-- LOAN, REIM, ONLN, PHNE, EXCS, and REPM, DEPO, CHDP, SVWD.
abbrev pub get_prefix : NumberKind → Text
get_prefix (loan cash_loan) = 76 ∷ 79 ∷ 65 ∷ 78 ∷ []
get_prefix (loan goods_reimburse) = 82 ∷ 69 ∷ 73 ∷ 77 ∷ []
get_prefix (loan goods_online) = 79 ∷ 78 ∷ 76 ∷ 78 ∷ []
get_prefix (loan goods_phone) = 80 ∷ 72 ∷ 78 ∷ 69 ∷ []
get_prefix (loan excess_loan) = 69 ∷ 88 ∷ 67 ∷ 83 ∷ []
get_prefix repayment = 82 ∷ 69 ∷ 80 ∷ 77 ∷ []
get_prefix deposit = 68 ∷ 69 ∷ 80 ∷ 79 ∷ []
get_prefix change = 67 ∷ 72 ∷ 68 ∷ 80 ∷ []
get_prefix withdrawal = 83 ∷ 86 ∷ 87 ∷ 68 ∷ []

-- The text of a sequence number; NaN is a text as well.
abbrev pub sequence_text : Option ℕ → Text
sequence_text none = 78 ∷ 97 ∷ 78 ∷ []
sequence_text (some n) = to_string n

unfoldable pub number_with : NumberKind → Text → Option ℕ → Text
unfolding pad_start to_string
number_with kind date sequence =
    get_prefix kind ++ (dash ∷ (date ++ (dash ∷ pad_start 4 (sequence_text sequence))))

abbrev pub next_of : Option ℕ → Option ℕ
next_of none = none
next_of (some n) = some (n + 1)

-- The number after the last one of the day, `last`.
unfoldable pub generate : NumberKind → Text → Option Text → Text
unfolding number_with sequence_of
generate kind date none = number_with kind date (some 1)
generate kind date (some last) = number_with kind date (next_of (sequence_of last))

abbrev pub generate_loan_number : LoanType → Text → Option Text → Text
generate_loan_number loan_type = generate (loan loan_type)

abbrev pub generate_repayment_number : Text → Option Text → Text
generate_repayment_number = generate repayment

abbrev pub generate_deposit_number : Text → Option Text → Text
generate_deposit_number = generate deposit

abbrev pub generate_change_number : Text → Option Text → Text
generate_change_number = generate change

abbrev pub generate_withdrawal_number : Text → Option Text → Text
generate_withdrawal_number = generate withdrawal
