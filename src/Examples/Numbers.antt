-- ===== src/Examples/Numbers.antt =====
-- Display numbers of a day.
use kamorina.Base.{ℕ, ◌≡◌, refl, none, some, [], ◌∷◌}
use kamorina.Loan.Types.{LoanType}
use kamorina.Numbers.Generator.{
  Text, sequence_of, number_with, generate, generate_loan_number, deposit,
}
use kamorina.Numbers.RoundTrip.{number_with-RoundTrip}

-- 20260103
abbrev day : Text
day = 50 ∷ 48 ∷ 50 ∷ 54 ∷ 48 ∷ 49 ∷ 48 ∷ 51 ∷ []

number_with-RoundTrip_example :
    (sequence_of (number_with deposit day (some 9999)) ≡ some 9999)
    × (generate deposit day (some (number_with deposit day (some 9999)))
        ≡ number_with deposit day (some 10000))
    × ((m : ℕ) → number_with deposit day (some m) ≡ number_with deposit day (some 9999) → m ≡ 9999)
number_with-RoundTrip_example =
    number_with-RoundTrip deposit day 9999
      (refl, (refl, (refl, (refl, (refl, (refl, (refl, (refl, tt))))))))

-- LOAN-20260103-0001 is the first one.
first_of_day :
    generate_loan_number LoanType.cash_loan day none
    ≡ 76 ∷ 79 ∷ 65 ∷ 78 ∷ 45 ∷ 50 ∷ 48 ∷ 50 ∷ 54 ∷ 48 ∷ 49 ∷ 48 ∷ 51 ∷ 45 ∷ 48 ∷ 48 ∷ 48 ∷ 49 ∷ []
unfolding generate
first_of_day = refl
