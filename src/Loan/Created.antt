-- ===== src/Loan/Created.antt =====
-- What `createDraft` of backend/src/loan/services/loan-crud.service.ts leaves.
use kamorina.Base.{
  if◌then◌else◌, zero, suc, ◌≢◌, ok-injective, ◌⊎◌, ◌<◌, inl, inr, true, >>-eq-ok, ltb, ℕ, ◌≡◌,
  refl, Option, none, some, arith, ok, sym,
}
use kamorina.Loan.Types.{
  draft, LoanApplication, LoanType, cash_loan, excess_loan, goods_reimburse, goods_online,
  goods_phone, is_phone,
}
use kamorina.Loan.Validation.{HandlerContext, validate_loan_amount, validate_loan_tenor}
use kamorina.Loan.Draft.{
  CreateLoanDto, User, Figures, draft_figures, loan_owner, amount_of, new_loan,
  create_type_specific_details, figures_of, no_figures, create_draft, check_member_status,
  extract_loan_amount,
}
use kamorina.Loan.Invariant.{IsPhase}
use kamorina.Loan.Terms.{is_phone-cases, IsFigured, AreDetailsFor, asked_amount, asked_owner}
use kamorina.Loan.Calculation.{Settings, calculate_loan_details}

-- A member with an employee record for good, verified.
abbrev pub IsPermitted : Option User → Type 0
IsPermitted none = ⊥
IsPermitted (some user) =
    (user.has_employee ≡ true) × (user.is_permanent ≡ true) × (user.member_verified ≡ true)

-- The amount and the tenor passed their checks; a phone has no amount yet.
abbrev pub IsWithin : HandlerContext → LoanApplication → Type 0
IsWithin context loan =
    ((loan.loan_type ≡ goods_phone)
      ⊎ (validate_loan_amount context loan.loan_type loan.loan_amount ≡ ok tt))
    × (validate_loan_tenor context.settings loan.loan_tenor ≡ ok tt)

-- The draft that a user's request asks for.
abbrev pub IsDrafted : HandlerContext → ℕ → CreateLoanDto → LoanApplication → Type 0
IsDrafted context user dto loan =
    (loan.status ≡ draft)
    × IsPhase draft loan
    × (loan.loan_type ≡ dto.loan_type)
    × (loan.loan_tenor ≡ dto.loan_tenor)
    × (loan.user_id ≡ asked_owner dto.loan_type user dto.recipient_user_id)
    × (loan.loan_amount ≡ asked_amount dto.loan_type dto.loan_amount dto.item_price 0)
    × AreDetailsFor context.settings dto.loan_type dto.item_price 0 0 loan.details
    × IsFigured context.settings loan
    × IsWithin context loan

check_member_status-eq-ok :
    (owner : Option User) → check_member_status owner ≡ ok tt → IsPermitted owner
unfolding check_member_status
check_member_status-eq-ok none h = absurd (ground arith)
check_member_status-eq-ok (some user) h = ground arith

loan_owner-eq :
    (user : ℕ) (dto : CreateLoanDto)
    → loan_owner user dto ≡ asked_owner dto.loan_type user dto.recipient_user_id
unfolding loan_owner
loan_owner-eq user dto = of_type dto.loan_type dto.recipient_user_id
  where
    of_type :
        (t : LoanType) (r : Option ℕ)
        → loan_owner user (record dto { loan_type = t; recipient_user_id = r })
          ≡ asked_owner t user r
    of_type cash_loan r = refl
    of_type goods_reimburse r = refl
    of_type goods_online r = refl
    of_type goods_phone r = refl
    of_type excess_loan none = refl
    of_type excess_loan (some recipient) = refl

extract_loan_amount-eq :
    (t : LoanType) (money price : ℕ)
    → extract_loan_amount money price 0 t ≡ asked_amount t money price 0
unfolding extract_loan_amount
extract_loan_amount-eq cash_loan money price = refl
extract_loan_amount-eq excess_loan money price = refl
extract_loan_amount-eq goods_reimburse money price = refl
extract_loan_amount-eq goods_online money price = refl
extract_loan_amount-eq goods_phone money price = refl

draft_figures-cases :
    (settings : Settings) (amount tenor : ℕ) (t : LoanType)
    → ((t ≢ goods_phone)
        × (0 < amount)
        × (draft_figures settings amount tenor t
            ≡ figures_of (calculate_loan_details settings amount tenor t)))
      ⊎ (((t ≡ goods_phone) ⊎ (amount ≡ 0)) × (draft_figures settings amount tenor t ≡ no_figures))
unfolding draft_figures
draft_figures-cases settings zero tenor t = elim (is_phone-cases t) [
  | inl (e, p) ↦ inr (inl e, rw p refl)
  | inr (n, p) ↦ inr (inr refl, rw p refl)
]
draft_figures-cases settings (suc amount) tenor t = elim (is_phone-cases t) [
  | inl (e, p) ↦ inr (inl e, rw p refl)
  | inr (n, p) ↦
      let positive : ltb 0 (suc amount) ≡ true = ground arith in
      inl (n, omega arith, rw p (rw positive refl))
]

module _ (context : HandlerContext) (new_id user : ℕ) (dto : CreateLoanDto) where
  abbrev drafted : LoanApplication
  drafted =
      let figures = draft_figures context.settings (amount_of dto) dto.loan_tenor dto.loan_type in
      new_loan new_id (loan_owner user dto) dto (amount_of dto) figures
        (create_type_specific_details context.settings dto figures.shop_margin_rate dto.loan_type)

  drafted-IsFigured : IsFigured context.settings drafted
  drafted-IsFigured =
      elim (draft_figures-cases context.settings (amount_of dto) dto.loan_tenor dto.loan_type) [
        | inl (n, p, e) ↦ inl (n, p, rw e (refl, refl, refl))
        | inr (n, e) ↦ inr (n, rw e (refl, refl, refl))
      ]

  drafted-AreDetailsFor :
      AreDetailsFor context.settings dto.loan_type dto.item_price 0 0 drafted.details
  unfolding create_type_specific_details calculate_loan_details
  drafted-AreDetailsFor =
      of_type dto.loan_type
        (draft_figures context.settings (amount_of dto) dto.loan_tenor dto.loan_type)
        (draft_figures-cases context.settings (amount_of dto) dto.loan_tenor dto.loan_type)
    where
      of_type :
          (t : LoanType) (f : Figures)
          → ((t ≢ goods_phone)
              × (0 < amount_of dto)
              × (f
                  ≡ figures_of
                      (calculate_loan_details context.settings (amount_of dto) dto.loan_tenor t)))
            ⊎ (((t ≡ goods_phone) ⊎ (amount_of dto ≡ 0)) × (f ≡ no_figures))
          → AreDetailsFor context.settings t dto.item_price 0 0
              (create_type_specific_details context.settings dto f.shop_margin_rate t)
      of_type cash_loan f c = refl
      of_type excess_loan f c = refl
      of_type goods_reimburse f c = refl
      of_type goods_online f (inl (_, _, e)) = rw e refl
      of_type goods_online f (inr (_, e)) = rw e refl
      of_type goods_phone f c = refl

  -- The tests of the creation, in order.
  create_draft-eq-ok :
      (owner : Option User) {loan : LoanApplication}
      → create_draft context owner new_id user dto ≡ ok loan
      → IsPermitted owner × IsWithin context drafted × (loan ≡ drafted)
  unfolding create_draft
  create_draft-eq-ok owner h =
      let (member, h1) = >>-eq-ok (check_member_status owner) _ h in
      let (amount, h2) =
        >>-eq-ok
          (if is_phone dto.loan_type
            then ok tt
            else validate_loan_amount context dto.loan_type (amount_of dto))
          _ h1 in
      let (tenor, h3) = >>-eq-ok (validate_loan_tenor context.settings dto.loan_tenor) _ h2 in
      let allowed : (dto.loan_type ≡ goods_phone)
          ⊎ (validate_loan_amount context dto.loan_type (amount_of dto) ≡ ok tt) =
        elim (is_phone-cases dto.loan_type) [
          | inl (e, p) ↦ inl e
          | inr (n, p) ↦ inr (ground arith)
        ] in
      (check_member_status-eq-ok owner member, (allowed, tenor), sym (ok-injective h3))

-- A draft is created only for a verified member with a permanent employee record, from an amount and
-- a tenor that pass their checks. It has the request's type and tenor and belongs to the user, or to
-- the recipient that an excess loan names. Its amount is the money that is asked for, or the price of
-- the goods, or nothing for a phone; its details have that price. It has the figures of its own
-- amount, tenor and type, or none if it is for a phone or for nothing; and nothing of it is
-- submitted, approved or paid.
pub create_draft-IsDrafted :
    (context : HandlerContext) (owner : Option User) (new_id user : ℕ) (dto : CreateLoanDto)
    {loan : LoanApplication}
    → create_draft context owner new_id user dto ≡ ok loan
    → IsPermitted owner × IsDrafted context user dto loan
create_draft-IsDrafted context owner new_id user dto {loan} h =
    let (member, within, e) = create_draft-eq-ok context new_id user dto owner h in
    (
      member,
      rw e (
        refl,
        (refl, refl, (refl, refl, refl)),
        refl,
        refl,
        loan_owner-eq user dto,
        extract_loan_amount-eq dto.loan_type dto.loan_amount dto.item_price,
        drafted-AreDetailsFor context new_id user dto,
        drafted-IsFigured context new_id user dto,
        within,
      ),
    )
