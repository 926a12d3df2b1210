-- ===== src/Loan/Revised.antt =====
-- What a revision in backend/src/loan/services/loan-approval.service.ts leaves of a loan.
use kamorina.Base.{
  ℕ, ◌+◌, ◌≤◌, ◌<◌, ◌≡◌, refl, some, arith, length, length-append, not, ok, passed, >>-eq-ok,
}
use kamorina.Loan.Types.{
  ReviseLoanDto, LoanApplication, LoanDetails, LoanType, is_status, only_at_dsp_step,
  not_under_review_dsp, divisi_simpan_pinjam, under_review_dsp, cash_loan, excess_loan,
  goods_reimburse, goods_online, goods_phone, goods_reimburse_details, goods_online_details,
  goods_phone_details,
}
use kamorina.Loan.Calculation.{Settings, get_setting_number, calculate_loan_details}
use kamorina.Loan.Validation.{HandlerContext, validate_loan_amount, validate_loan_tenor}
use kamorina.Loan.Revision.{
  is_dsp_step, revise_loan, write_revision, new_loan_amount, revise_type_specific_details,
}
use kamorina.Loan.Terms.{HasFigures, asked_amount}
use kamorina.Loan.Workflow.{revise_loan-written}

-- The details after a revision: a new price of goods, with the shop's margin of the settings, and two
-- new prices of a phone, the cooperative's positive and at most the retail price.
abbrev pub AreRevised : Settings → ReviseLoanDto → LoanType → LoanDetails → LoanDetails → Type 0
AreRevised settings dto cash_loan old new = new ≡ old
AreRevised settings dto excess_loan old new = new ≡ old
AreRevised settings dto goods_reimburse old new = new ≡ goods_reimburse_details dto.item_price
AreRevised settings dto goods_online old new =
    new ≡ goods_online_details dto.item_price (get_setting_number settings "shop_margin_rate" 500)
AreRevised settings dto goods_phone old new =
    (new ≡ goods_phone_details dto.retail_price dto.cooperative_price)
    × (0 < dto.cooperative_price)
    × (dto.cooperative_price ≤ dto.retail_price)

-- The loan is still the user's and in its first review, and it has the figures that the revision
-- gives.
abbrev pub IsRevised : HandlerContext → ReviseLoanDto → LoanApplication → LoanApplication → Type 0
IsRevised context dto loan result =
    ((result.status ≡ loan.status)
      × (result.current_step ≡ loan.current_step)
      × (result.user_id ≡ loan.user_id)
      × (result.loan_type ≡ loan.loan_type))
    × (result.loan_amount
        ≡ asked_amount loan.loan_type dto.loan_amount dto.item_price dto.retail_price)
    × (validate_loan_amount context loan.loan_type result.loan_amount ≡ ok tt)
    × (result.loan_tenor ≡ dto.loan_tenor)
    × (validate_loan_tenor context.settings result.loan_tenor ≡ ok tt)
    × HasFigures context.settings result
    × AreRevised context.settings dto loan.loan_type loan.details result.details
    × (result.revision_count ≡ loan.revision_count + 1)
    × (length result.history ≡ length loan.history + 1)

new_loan_amount-eq :
    (t : LoanType) (dto : ReviseLoanDto)
    → new_loan_amount t dto ≡ asked_amount t dto.loan_amount dto.item_price dto.retail_price
unfolding new_loan_amount
new_loan_amount-eq cash_loan dto = refl
new_loan_amount-eq excess_loan dto = refl
new_loan_amount-eq goods_reimburse dto = refl
new_loan_amount-eq goods_online dto = refl
new_loan_amount-eq goods_phone dto = refl

revise_type_specific_details-AreRevised :
    (settings : Settings) (dto : ReviseLoanDto) (t : LoanType) (amount tenor : ℕ)
    (old : LoanDetails) {new : LoanDetails}
    → revise_type_specific_details t dto
        (calculate_loan_details settings amount tenor t).shop_margin_rate
        old
      ≡ ok new
    → AreRevised settings dto t old new
unfolding revise_type_specific_details calculate_loan_details
revise_type_specific_details-AreRevised settings dto cash_loan amount tenor old h = ground arith
revise_type_specific_details-AreRevised settings dto excess_loan amount tenor old h = ground arith
revise_type_specific_details-AreRevised settings dto goods_reimburse amount tenor old h =
    ground arith
revise_type_specific_details-AreRevised settings dto goods_online amount tenor old h = ground arith
revise_type_specific_details-AreRevised settings dto goods_phone amount tenor old h = ground arith

module _ (context : HandlerContext) (now user : ℕ) (loan : LoanApplication) (dto : ReviseLoanDto)
    {result : LoanApplication} where
  revise_loan-passed :
      revise_loan context now user dto loan ≡ ok result
      → let amount = new_loan_amount loan.loan_type dto in
        (loan.current_step ≡ some divisi_simpan_pinjam)
        × (loan.status ≡ under_review_dsp)
        × (validate_loan_amount context loan.loan_type amount ≡ ok tt)
        × (validate_loan_tenor context.settings dto.loan_tenor ≡ ok tt)
  unfolding revise_loan
  revise_loan-passed h =
      let amount = new_loan_amount loan.loan_type dto in
      let (at, h1) = passed (not (is_dsp_step loan.current_step)) only_at_dsp_step _ h in
      let (reviewed, h2) =
        passed (not (is_status loan.status under_review_dsp)) not_under_review_dsp _ h1 in
      let (allowed, h3) = >>-eq-ok (validate_loan_amount context loan.loan_type amount) _ h2 in
      let (tenor, h4) = >>-eq-ok (validate_loan_tenor context.settings dto.loan_tenor) _ h3 in
      (ground arith, ground arith, allowed, tenor)

  -- A revision succeeds only at the first step and during the first review, with an amount and a
  -- tenor that pass their checks. The loan's amount is then the money, the price of the goods or the
  -- retail price of the phone that the revision gives, and its tenor the one that it gives; its
  -- interest, installment and total are those of this amount and tenor; its details have the new
  -- prices. Its owner, type, status and step stay, and the revision is counted and is one more row of
  -- the history.
  pub revise_loan-IsRevised :
      revise_loan context now user dto loan ≡ ok result
      → (loan.current_step ≡ some divisi_simpan_pinjam)
        × (loan.status ≡ under_review_dsp)
        × IsRevised context dto loan result
  unfolding write_revision
  revise_loan-IsRevised h =
      let (at, reviewed, allowed, tenor) = revise_loan-passed h in
      let (_, written, d, e) = revise_loan-written context now user loan dto h in
      (
        at,
        reviewed,
        rw e (
          (refl, refl, refl, refl),
          new_loan_amount-eq loan.loan_type dto,
          allowed,
          refl,
          tenor,
          (refl, refl, refl),
          revise_type_specific_details-AreRevised context.settings dto loan.loan_type _ _
              loan.details d,
          refl,
          length-append loan.history _,
        ),
      )
