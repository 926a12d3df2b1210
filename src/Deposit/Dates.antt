-- ===== src/Deposit/Dates.antt =====
-- The dates of a deposit in backend/src/deposit/deposit.service.ts, over the JavaScript `Date` in
-- local time: its month counted from January of year 0, its day of the month, and the milliseconds
-- of the day. A date past the end of its month runs on into the next months.
use kamorina.Base.{
  ℕ, zero, suc, ◌+◌, ◌-◌, ◌/◌, ◌%◌, String, Bool, not, ◌&&◌, ◌||◌, none, some, ltb, leb, ◌==◌,
  if◌then◌else◌,
}
use kamorina.Loan.Calculation.{Settings}

pub record LocalDate : Type 0 where
  pub month : ℕ
  pub date : ℕ
  pub time : ℕ

abbrev is_leap_year : ℕ → Bool
is_leap_year y = y % 4 == 0 && (not (y % 100 == 0) || y % 400 == 0)

unfoldable pub days_in_month : ℕ → ℕ
days_in_month m =
    let k = m % 12 in
    if k == 1
    then (if is_leap_year (m / 12) then 29 else 28)
    else if k == 3 || k == 5 || k == 8 || k == 10
    then 30
    else 31

-- A day of the month, counted on past the month's end. A month has a day, so that as many rounds as
-- the date are enough.
unfoldable pub carry : ℕ → ℕ → ℕ → ℕ → LocalDate
carry zero month date time = record { month = month; date = date; time = time }
carry (suc fuel) month date time =
    let next = carry fuel (month + 1) (date - days_in_month month) time in
    if leb date (days_in_month month)
    then record { month = month; date = date; time = time }
    else next

-- `setDate(n)`, for n from 1 on.
unfoldable pub set_date : ℕ → LocalDate → LocalDate
unfolding carry days_in_month
set_date n d = carry n d.month n d.time

-- `setMonth(getMonth() + n)`
unfoldable pub add_months : ℕ → LocalDate → LocalDate
unfolding carry days_in_month
add_months n d = carry d.date (d.month + n) d.date d.time

-- `Number(setting?.value) || fallback`, for a setting that is a whole number.
abbrev pub day_setting : Settings → String → ℕ → ℕ
day_setting settings key fallback = elim (settings key) [
  | some value ↦ if value / 100 == 0 then fallback else value / 100
  | none ↦ fallback
]

abbrev pub cutoff_day : Settings → ℕ
cutoff_day settings = day_setting settings "cooperative_cutoff_date" 15

abbrev pub payroll_day : Settings → ℕ
payroll_day settings = day_setting settings "cooperative_payroll_date" 27

unfoldable pub activation_date : Settings → LocalDate → LocalDate
unfolding set_date add_months
activation_date settings now =
    let start_date = set_date (payroll_day settings) now in
    let moved =
      if ltb (cutoff_day settings) now.date then add_months 1 start_date else start_date in
    record moved { time = 0 }

unfoldable pub maturity_date : ℕ → LocalDate → LocalDate
unfolding add_months
maturity_date tenor_months start_date = add_months tenor_months start_date
