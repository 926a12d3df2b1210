-- ===== src/Deposit/Offered.antt =====
-- The options that backend/src/deposit/deposit-option.service.ts writes, as the requests of
-- backend/src/deposit/deposit.service.ts find them.
use kamorina.Base.{
  none, sym, ℕ, String, ◌≡◌, refl, subst, true, false, some, List, [], ◌∷◌, ◌++◌, is_some, ok,
  passed, ok-injective, Bool-cases, inl, inr, arith,
}
use text.Mathlib.TextEquality.{eq_iff}
use kamorina.Loan.Calculation.{Settings}
use kamorina.Deposit.Application.{
  CreateDepositDto, create, active_amount, active_tenor, new_deposit,
}
use kamorina.Deposit.Options.{
  OptionRow, CreateOptionDto, code_exists, has_code, find_by_code, new_option, create_option,
  create_tenor_option, tables,
}

-- A row that is added last is found if no other has its code.
find-last :
    (code : String) (rows : List OptionRow) (row : OptionRow)
    → is_some (find_by_code code rows) ≡ false
    → has_code code row ≡ true
    → find_by_code code (rows ++ row ∷ []) ≡ some row
find-last code [] row h c = rw c refl
find-last code (r ∷ rows) row h c = elim (Bool-cases (has_code code r)) [
  | inl t ↦ absurd (ground (arith, t, h))
  | inr t ↦ simp t (find-last code rows row (ground (arith, t, h)) c)
]

find-kept :
    (code : String) (rows : List OptionRow) (row : OptionRow) {found : OptionRow}
    → find_by_code code rows ≡ some found
    → find_by_code code (rows ++ row ∷ []) ≡ some found
find-kept code [] row h = cc
find-kept code (r ∷ rows) row h = elim (Bool-cases (has_code code r)) [
  | inl t ↦ simp t (ground (arith, t, h))
  | inr t ↦ simp t (find-kept code rows row (ground (arith, t, h)))
]

-- An option that was created is found by its code, and all others as before.
create_option-find :
    (new_id : ℕ) (dto : CreateOptionDto) (rows : List OptionRow) {rows' : List OptionRow}
    → create_option new_id dto rows ≡ ok rows'
    → (find_by_code dto.code rows' ≡ some (new_option new_id dto))
      × ((code : String) (row : OptionRow)
          → find_by_code code rows ≡ some row
          → find_by_code code rows' ≡ some row)
unfolding create_option
create_option-find new_id dto rows h =
    let (free, done) = passed (is_some (find_by_code dto.code rows)) code_exists _ h in
    subst
      (λ k.
        (find_by_code dto.code k ≡ some (new_option new_id dto))
        × ((code : String) (row : OptionRow)
            → find_by_code code rows ≡ some row
            → find_by_code code k ≡ some row))
      (ok-injective done)
      (
        find-last dto.code rows (new_option new_id dto) free ((eq_iff dto.code dto.code).1 refl),
        λ code row e. find-kept code rows (new_option new_id dto) e,
      )

module _ (settings : Settings) (now new_id first second user : ℕ) (amounts tenors : List OptionRow)
    (amount tenor : OptionRow) (dto : CreateDepositDto) where
  -- A request for options that are found and active.
  create-found :
      find_by_code dto.deposit_amount_code amounts ≡ some amount
      → find_by_code dto.deposit_tenor_code tenors ≡ some tenor
      → amount.is_active ≡ true
      → tenor.is_active ≡ true
      → dto.agreed_to_terms ≡ true
      → create settings (tables amounts tenors) now new_id first second user dto
        ≡ ok (new_deposit settings now new_id first second user true amount.content tenor.content)
  unfolding create active_amount active_tenor
  create-found a t p q agreed = rw agreed (rw a (rw p (rw t (rw q refl))))

-- What is offered can be asked for: after the creation of an amount and of a tenor, each active as by
-- default, a member who agrees to the terms gets a deposit of this amount and this tenor by their
-- codes, while every option that was found by its code before still is.
pub create_option-create :
    (settings : Settings) (now new_id first second user amount_id tenor_id : ℕ)
    (amount tenor : CreateOptionDto) (dto : CreateDepositDto) (amounts tenors : List OptionRow)
    {amounts' tenors' : List OptionRow}
    → create_option amount_id amount amounts ≡ ok amounts'
    → create_tenor_option tenor_id tenor tenors ≡ ok tenors'
    → amount.is_active ≡ none
    → tenor.is_active ≡ none
    → dto.deposit_amount_code ≡ amount.code
    → dto.deposit_tenor_code ≡ tenor.code
    → dto.agreed_to_terms ≡ true
    → (create settings (tables amounts' tenors') now new_id first second user dto
        ≡ ok (new_deposit settings now new_id first second user true amount.content tenor.content))
      × ((code : String) (row : OptionRow)
          → find_by_code code amounts ≡ some row
          → find_by_code code amounts' ≡ some row)
      × ((code : String) (row : OptionRow)
          → find_by_code code tenors ≡ some row
          → find_by_code code tenors' ≡ some row)
create_option-create settings now new_id first second user amount_id tenor_id amount tenor dto
      amounts tenors {amounts'} {tenors'} a t p q ca ct agreed =
    let (found, kept) = create_option-find amount_id amount amounts a in
    let (found', kept') = create_option-find tenor_id tenor tenors t in
    (
      create-found settings now new_id first second user amounts' tenors'
          (new_option amount_id amount) (new_option tenor_id tenor) dto
          (subst (λ k. find_by_code k amounts' ≡ some (new_option amount_id amount)) (sym ca) found)
          (subst (λ k. find_by_code k tenors' ≡ some (new_option tenor_id tenor)) (sym ct) found')
          (rw p refl) (rw q refl) agreed,
      kept,
      kept',
    )
