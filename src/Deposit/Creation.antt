-- ===== src/Deposit/Creation.antt =====
-- What a request for a deposit (`create` in backend/src/deposit/deposit.service.ts) answers.
use kamorina.Base.{
  ℕ, ◌≡◌, ◌≢◌, refl, Bool, false, Option, none, some, List, [], ◌∷◌, Result, ok, err, arith,
  if◌then◌else◌, is_some,
}
use kamorina.Loan.Calculation.{Settings}
use kamorina.Deposit.Types.{
  DepositApplication, DepositError, not_agreed, amount_option_not_found, amount_option_inactive,
  tenor_option_not_found, tenor_option_inactive,
}
use kamorina.Deposit.Application.{
  CreateDepositDto, AmountOption, TenorOption, Options, new_deposit, create,
}
use kamorina.Deposit.Phases.{IsValid}

abbrev is_active_amount : Option AmountOption → Bool
is_active_amount none = false
is_active_amount (some option) = option.is_active

abbrev is_active_tenor : Option TenorOption → Bool
is_active_tenor none = false
is_active_tenor (some option) = option.is_active

abbrev amount_of : Option AmountOption → ℕ
amount_of none = 0
amount_of (some option) = option.amount

abbrev months_of : Option TenorOption → ℕ
months_of none = 0
months_of (some option) = option.months

-- What a request needs, each with the error for a request that lacks it, in the order of the answers.
abbrev pub needs : Options → CreateDepositDto → List (Bool × DepositError)
needs options dto =
    let amount = options.amount_option dto.deposit_amount_code in
    let tenor = options.tenor_option dto.deposit_tenor_code in
    (dto.agreed_to_terms, not_agreed)
    ∷ (is_some amount, amount_option_not_found)
    ∷ (is_active_amount amount, amount_option_inactive)
    ∷ (is_some tenor, tenor_option_not_found)
    ∷ (is_active_tenor tenor, tenor_option_inactive)
    ∷ []

-- The answer to a request: the error of the first need that it lacks, or the deposit.
abbrev pub answer :
    List (Bool × DepositError) → DepositApplication → Result DepositError DepositApplication
answer [] d = ok d
answer ((met, error) ∷ rest) d = if met then answer rest d else err error

new_deposit-IsValid :
    (settings : Settings) (now new_id first second user : ℕ) (agreed : Bool) (amount months : ℕ)
    → first ≢ second
    → IsValid (new_deposit settings now new_id first second user agreed amount months)
unfolding new_deposit
new_deposit-IsValid settings now new_id first second user agreed amount months ne =
    (refl, (refl, refl, ne, refl, refl), (refl, refl))

module _ (settings : Settings) (options : Options) (now new_id first second user : ℕ)
    (dto : CreateDepositDto) where
  abbrev pub requested : DepositApplication
  requested =
      new_deposit settings now new_id first second user dto.agreed_to_terms
        (amount_of (options.amount_option dto.deposit_amount_code))
        (months_of (options.tenor_option dto.deposit_tenor_code))

  with_options :
      (a : Option AmountOption) (t : Option TenorOption)
      → options.amount_option dto.deposit_amount_code ≡ a
      → options.tenor_option dto.deposit_tenor_code ≡ t
      → create settings options now new_id first second user dto
        ≡ answer (needs options dto) requested
  unfolding create
  with_options none t e f = ground arith
  with_options (some a) none e f = ground arith
  with_options (some a) (some t) e f = ground arith

  -- A request for a deposit is refused with the error of the first thing that it lacks, of the
  -- agreement, an amount that exists and is active, and a tenor that exists and is active; one that
  -- lacks nothing gets the deposit of that amount and tenor, which is valid, if the ids of the two
  -- approval records differ.
  pub create-answer :
      first ≢ second
      → (create settings options now new_id first second user dto
          ≡ answer (needs options dto) requested)
        × IsValid requested
  create-answer ne = (
    with_options (options.amount_option dto.deposit_amount_code)
        (options.tenor_option dto.deposit_tenor_code) refl refl,
    new_deposit-IsValid settings now new_id first second user dto.agreed_to_terms
        (amount_of (options.amount_option dto.deposit_amount_code))
        (months_of (options.tenor_option dto.deposit_tenor_code)) ne,
  )
