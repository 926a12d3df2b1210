-- ===== src/Deposit/Schedule.antt =====
-- When a deposit starts and ends: the dates of an approval in backend/src/deposit/deposit.service.ts.
use kamorina.Base.{
  ℕ, zero, suc, ◌+◌, ◌-◌, ◌≤◌, ◌<◌, ◌≡◌, ◌⊎◌, refl, true, arith, leb, ltb, inl, inr, if◌then◌else◌,
  Bool-cases, String, none, some, Option, ◌/◌, ◌==◌,
}
use kamorina.Loan.Calculation.{Settings}
use kamorina.Deposit.Dates.{
  LocalDate, day_setting, days_in_month, carry, set_date, add_months, cutoff_day, payroll_day,
  activation_date, maturity_date,
}

-- A day that the month has.
abbrev pub IsDate : LocalDate → Type 0
IsDate d = (1 ≤ d.date) × (d.date ≤ days_in_month d.month)

days_in_month-ge : (m : ℕ) → 28 ≤ days_in_month m
unfolding days_in_month
days_in_month-ge m = ground arith

carry-IsDate :
    (fuel month date time : ℕ) → 1 ≤ date → date ≤ fuel + 28 → IsDate (carry fuel month date time)
unfolding carry
carry-IsDate zero month date time h k = (h, omega (arith, days_in_month-ge month))
carry-IsDate (suc fuel) month date time h k = elim (Bool-cases (leb date (days_in_month month))) [
  | inl t ↦ rw t (h, ground arith)
  | inr t ↦
      let big : days_in_month month < date = ground arith in
      rw t (
        carry-IsDate fuel (month + 1) (date - days_in_month month) time (omega arith)
          (omega (arith, days_in_month-ge month)))
]

-- Setting a day of the month, from 1 on, and adding months to a date both end on a day that the month
-- has, however far the day runs past the month's end.
set_date-add_months-IsDate :
    (n k : ℕ) (d : LocalDate) → 1 ≤ n → IsDate d → IsDate (set_date n d) × IsDate (add_months k d)
unfolding set_date add_months
set_date-add_months-IsDate n k d h v = (
  carry-IsDate n d.month n d.time h (omega arith),
  carry-IsDate d.date (d.month + k) d.date d.time v.0 (omega arith),
)

carry_fits :
    (fuel month date time : ℕ)
    → date ≤ 28
    → carry fuel month date time ≡ record { month = month; date = date; time = time }
unfolding carry
carry_fits zero month date time h = refl
carry_fits (suc fuel) month date time h =
    let fits : leb date (days_in_month month) ≡ true = ground (arith, days_in_month-ge month) in
    rw fits refl

pub set_date-add_months_fits :
    (n k : ℕ) (d : LocalDate)
    → n ≤ 28
    → (set_date n d ≡ record d { date = n })
      × (add_months k (record d { date = n })
          ≡ record { month = d.month + k; date = n; time = d.time })
unfolding set_date add_months
set_date-add_months_fits n k d h =
    (carry_fits n d.month n d.time h, carry_fits n (d.month + k) n d.time h)

-- The start and the end of a deposit that is approved today.
abbrev pub IsScheduled : Settings → ℕ → LocalDate → Type 0
IsScheduled settings tenor today =
    let start = activation_date settings today in
    let end = maturity_date tenor start in
    (start.month ≡ (if ltb (cutoff_day settings) today.date then today.month + 1 else today.month))
    × (start.date ≡ payroll_day settings)
    × (start.time ≡ 0)
    × ((today.month < start.month) ⊎ ((today.month ≡ start.month) × (today.date ≤ start.date)))
    × (end.month ≡ start.month + tenor)
    × (end.date ≡ payroll_day settings)

activation_date-eq :
    (settings : Settings) (today : LocalDate)
    → payroll_day settings ≤ 28
    → activation_date settings today ≡ record {
      month = if ltb (cutoff_day settings) today.date then today.month + 1 else today.month;
      date = payroll_day settings;
      time = 0;
    }
unfolding activation_date
activation_date-eq settings today p =
    let day = payroll_day settings in
    let (set, one) = set_date-add_months_fits day 1 today p in
    elim (Bool-cases (ltb (cutoff_day settings) today.date)) [
      | inl t ↦ rw t (rw set (rw one refl))
      | inr t ↦ rw t (rw set refl)
    ]

maturity_date-eq :
    (tenor month date : ℕ)
    → date ≤ 28
    → maturity_date tenor (record { month = month; date = date; time = 0 })
      ≡ record { month = month + tenor; date = date; time = 0 }
unfolding maturity_date
maturity_date-eq tenor month date p =
    (set_date-add_months_fits date tenor (record { month = month; date = date; time = 0 }) p).1

-- If the cutoff is not after the pay day and every month has a pay day, a deposit that is approved
-- starts at midnight of a pay day, this month's up to the cutoff and next month's after it, which is
-- never before today, and ends on the pay day as many months later as its tenor.
pub activation_date-IsScheduled :
    (settings : Settings) (tenor : ℕ) (today : LocalDate)
    → cutoff_day settings ≤ payroll_day settings
    → payroll_day settings ≤ 28
    → IsScheduled settings tenor today
activation_date-IsScheduled settings tenor today c p =
    let month = if ltb (cutoff_day settings) today.date then today.month + 1 else today.month in
    let not_before : (today.month < month)
        ⊎ ((today.month ≡ month) × (today.date ≤ payroll_day settings)) =
      elim (Bool-cases (ltb (cutoff_day settings) today.date)) [
        | inl t ↦ inl (rw t (omega arith))
        | inr t ↦ inr (rw t (refl, ground arith))
      ] in
    rw (activation_date-eq settings today p) (
      rw (maturity_date-eq tenor month (payroll_day settings) p)
        (refl, refl, refl, not_before, refl, refl))

carry-le :
    (fuel month date time : ℕ)
    → let d = carry fuel month date time in (month ≤ d.month) × (d.date ≤ date)
unfolding carry
carry-le zero month date time = (omega arith, omega arith)
carry-le (suc fuel) month date time =
    let (m, d) = carry-le fuel (month + 1) (date - days_in_month month) time in
    elim (Bool-cases (leb date (days_in_month month))) [
      | inl t ↦ rw t (omega arith, omega arith)
      | inr t ↦ rw t (omega arith, omega arith)
    ]

set_date-le : (n : ℕ) (d : LocalDate) → (d.month ≤ (set_date n d).month) × ((set_date n d).date ≤ n)
unfolding set_date
set_date-le n d = carry-le n d.month n d.time

add_months-le :
    (k : ℕ) (d : LocalDate)
    → (d.month + k ≤ (add_months k d).month) × ((add_months k d).date ≤ d.date)
unfolding add_months
add_months-le k d = carry-le d.date (d.month + k) d.date d.time

day_setting-pos :
    (key : String) (fallback : ℕ) (v : Option ℕ)
    → 1 ≤ fallback
    → 1 ≤ day_setting (λ _. v) key fallback
day_setting-pos key fallback none h = h
day_setting-pos key fallback (some value) h = elim (Bool-cases (value / 100 == 0)) [
  | inl t ↦ rw t h
  | inr t ↦ rw t (ground arith)
]

payroll_day-pos : (settings : Settings) → 1 ≤ payroll_day settings
payroll_day-pos settings =
    day_setting-pos "cooperative_payroll_date" 27 (settings "cooperative_payroll_date")
      (omega arith)

-- The start and the end are days that their months have; the start is at midnight, in a later month
-- than an approval after the cutoff, and the end is at least the tenor later. Neither day is after
-- the pay day.
abbrev pub IsTerm : Settings → ℕ → LocalDate → Type 0
IsTerm settings tenor today =
    let start = activation_date settings today in
    let end = maturity_date tenor start in
    IsDate start
    × IsDate end
    × (start.time ≡ 0)
    × (today.month + (if ltb (cutoff_day settings) today.date then 1 else 0) ≤ start.month)
    × (start.date ≤ payroll_day settings)
    × (start.month + tenor ≤ end.month)
    × (end.date ≤ start.date)

activation_date-IsStart :
    (settings : Settings) (today : LocalDate)
    → IsDate today
    → let start = activation_date settings today in
      IsDate start
      × (start.time ≡ 0)
      × (today.month + (if ltb (cutoff_day settings) today.date then 1 else 0) ≤ start.month)
      × (start.date ≤ payroll_day settings)
unfolding activation_date
activation_date-IsStart settings today v =
    let pay = payroll_day settings in
    let (set, _) = set_date-add_months-IsDate pay 0 today (payroll_day-pos settings) v in
    let (later, day) = set_date-le pay today in
    let (_, moved) = set_date-add_months-IsDate 1 1 (set_date pay today) (omega arith) set in
    let (next, earlier) = add_months-le 1 (set_date pay today) in
    elim (Bool-cases (ltb (cutoff_day settings) today.date)) [
      | inl t ↦ rw t (moved, refl, omega arith, omega arith)
      | inr t ↦ rw t (set, refl, omega arith, day)
    ]

-- Whatever the settings say, a pay day that some months do not have included, a deposit that is
-- approved on a date starts and ends on days that the calendar has. It starts at midnight, in the
-- month of the approval or a later one, after the cutoff surely in a later one, and on a day of the
-- month that is not after the pay day; it ends at least its tenor of months later, on a day of the
-- month that is not after the one of the start.
pub activation_date-IsTerm :
    (settings : Settings) (tenor : ℕ) (today : LocalDate)
    → IsDate today
    → IsTerm settings tenor today
unfolding maturity_date
activation_date-IsTerm settings tenor today v =
    let start = activation_date settings today in
    let (date, midnight, later, day) = activation_date-IsStart settings today v in
    let (_, end) = set_date-add_months-IsDate 1 tenor start (omega arith) date in
    let (ends, last) = add_months-le tenor start in (date, end, midnight, later, day, ends, last)
