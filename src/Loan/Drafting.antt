-- ===== src/Loan/Drafting.antt =====
-- What a change of a draft in backend/src/loan/services/loan-crud.service.ts leaves.
use kamorina.Base.{
  ◌≢◌, ◌<◌, ◌⊎◌, inl, inr, ltb, Bool-cases, ℕ, String, ◌≡◌, refl, Option, none, some, List, arith,
  ok, subst, sym, ◌∙◌,
}
use kamorina.Loan.Terms.{HasFigures, is_phone-cases}
use kamorina.Loan.Calculation.{Settings, calculate_loan_details}
use kamorina.Loan.Installment.{or_else}
use kamorina.Loan.Types.{
  goods_phone, draft, LoanApplication, LoanDetails, cash_loan_details, excess_loan_details,
  goods_reimburse_details, goods_online_details, goods_phone_details, no_details,
}
use kamorina.Loan.Validation.{HandlerContext}
use kamorina.Loan.Draft.{UpdateLoanDto, Figures, figures_of}
use kamorina.Loan.DraftUpdate.{
  updated_figures, written_amount, update_type_specific_details, write_figures, write_draft,
  update_draft, new_draft_amount, margin_of,
}
use kamorina.Loan.Invariant.{IsPhase, IsValid}

written_figures-IsPhase :
    (loan : LoanApplication) (f : Option Figures)
    → IsPhase draft loan
    → (IsPhase draft (write_figures f loan)) × ((write_figures f loan).status ≡ loan.status)
written_figures-IsPhase loan none p = (p, refl)
written_figures-IsPhase loan (some f) p = (p, refl)

-- Goods have the new price, other details are as they were.
abbrev pub IsRepriced : ℕ → LoanDetails → LoanDetails → Type 0
IsRepriced price (goods_reimburse_details _) details = details ≡ goods_reimburse_details price
IsRepriced price (goods_online_details _ _) details =
    (margin : ℕ) × (details ≡ goods_online_details price margin)
IsRepriced price old details = details ≡ old

-- The figures are calculated again from the loan's own amount, or kept.
abbrev pub IsRefigured : Settings → LoanApplication → LoanApplication → Type 0
IsRefigured settings loan result =
    ((loan.loan_type ≢ goods_phone) × (0 < loan.loan_amount) × HasFigures settings result)
    ⊎ (((loan.loan_type ≡ goods_phone) ⊎ (loan.loan_amount ≡ 0))
        × (result.interest_rate ≡ loan.interest_rate)
        × (result.monthly_installment ≡ loan.monthly_installment)
        × (result.total_repayment ≡ loan.total_repayment))

update_type_specific_details-IsRepriced :
    (dto : UpdateLoanDto) (price : ℕ) (rate : Option ℕ) (old : LoanDetails)
    → dto.item_price ≡ some price
    → IsRepriced price old (update_type_specific_details dto rate old)
unfolding update_type_specific_details
update_type_specific_details-IsRepriced dto price rate (goods_reimburse_details _) p = rw p refl
update_type_specific_details-IsRepriced dto price rate (goods_online_details _ margin) p =
    rw p (_, refl)
update_type_specific_details-IsRepriced dto price rate cash_loan_details p = refl
update_type_specific_details-IsRepriced dto price rate excess_loan_details p = refl
update_type_specific_details-IsRepriced dto price rate (goods_phone_details _ _) p = refl
update_type_specific_details-IsRepriced dto price rate no_details p = refl

module _ (context : HandlerContext) (user : ℕ) (roles : List String) (dto : UpdateLoanDto)
    (loan : LoanApplication) where
  update_draft-eq-ok :
      {result : LoanApplication}
      → update_draft context user roles dto loan ≡ ok result
      → (loan.status ≡ draft) × (result ≡ write_draft context dto loan)
  unfolding update_draft
  update_draft-eq-ok h = ground arith

  kept :
      (price : ℕ)
      → dto.loan_amount ≡ none
      → dto.item_price ≡ some price
      → (written_amount dto loan ≡ some loan.loan_amount)
        × (new_draft_amount dto loan ≡ some loan.loan_amount)
  unfolding written_amount new_draft_amount
  kept price n p = (rw (n, p) refl, rw n refl)

  updated_figures-cases :
      (price : ℕ)
      → dto.loan_amount ≡ none
      → dto.item_price ≡ some price
      → ((loan.loan_type ≢ goods_phone)
          × (0 < loan.loan_amount)
          × (updated_figures context dto loan
              ≡ some (
                  figures_of (
                    calculate_loan_details context.settings loan.loan_amount
                      (or_else dto.loan_tenor loan.loan_tenor)
                      loan.loan_type))))
        ⊎ (((loan.loan_type ≡ goods_phone) ⊎ (loan.loan_amount ≡ 0))
            × (updated_figures context dto loan ≡ none))
  unfolding updated_figures
  updated_figures-cases price n p =
      let (written, given) = kept price n p in
      elim (is_phone-cases loan.loan_type) [
        | inl (e, q) ↦ inr (inl e, rw (written, given, q) refl)
        | inr (e, q) ↦ elim (Bool-cases (ltb 0 loan.loan_amount)) [
          | inl t ↦ inl (e, ground arith, rw (written, given, q, t) refl)
          | inr t ↦ inr (inr (ground arith), rw (written, given, q, t) refl)
        ]
      ]

  refigured :
      (price : ℕ)
      → dto.loan_amount ≡ none
      → dto.item_price ≡ some price
      → IsRefigured context.settings loan (write_draft context dto loan)
  unfolding write_draft
  refigured price n p =
      let (written, _) = kept price n p in
      elim (updated_figures-cases price n p) [
        | inl (e, q, f) ↦ inl (e, q, rw (f, written) (refl, refl, refl))
        | inr (e, f) ↦ inr (rw f (e, refl, refl, refl))
      ]

  -- A change of a draft that succeeds takes a valid loan to a valid loan.
  pub update_draft-IsValid :
      {result : LoanApplication}
      → IsValid loan
      → update_draft context user roles dto loan ≡ ok result
      → IsValid result
  unfolding write_draft
  update_draft-IsValid v h =
      let (s, e) = update_draft-eq-ok h in
      let (p, s') =
        written_figures-IsPhase loan (updated_figures context dto loan)
          (subst (λ k. IsPhase k loan) s v) in
      rw e (subst (λ k. IsPhase k (write_draft context dto loan)) (sym (s' ∙ s)) p)

  -- A change that names a price and no amount, and succeeds, keeps the loan's amount, whatever the
  -- price, while the details of the goods get the price. The figures are those of the amount that is
  -- kept, or as they were if the loan is for a phone or for nothing.
  pub update_draft_keeps_amount :
      (price : ℕ) {result : LoanApplication}
      → dto.loan_amount ≡ none
      → dto.item_price ≡ some price
      → update_draft context user roles dto loan ≡ ok result
      → (result.loan_amount ≡ loan.loan_amount)
        × IsRepriced price loan.details result.details
        × IsRefigured context.settings loan result
  unfolding write_draft
  update_draft_keeps_amount price n p h =
      let (_, e) = update_draft-eq-ok h in
      rw e (
        rw (kept price n p).0 refl,
        update_type_specific_details-IsRepriced dto price
            (margin_of (updated_figures context dto loan)) loan.details p,
        refigured price n p,
      )
