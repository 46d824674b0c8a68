-- ===== src/Audit/Calendar.antt =====
-- `civil_from_days` of crates/audit/src/lib.rs against its inverse.
use timelakedb.Base.{
  ℕ, ◌+◌, ◌-◌, ◌*◌, ◌/◌, ◌%◌, ◌≤◌, ◌<◌, ◌≡◌, ◌∙◌, refl, Bool, true, not, ◌&&◌, ◌||◌, ◌==◌, inl, inr,
  Bool-cases, leb, if◌then◌else◌, arith,
}
use timelakedb.Audit.Date.{year_of_era, day_of_year, month_of, civil_from_days}

-- The days from 1970 to a date of the Gregorian calendar: the years count from March, every fourth is
-- longer by a day, but for every hundredth, but for every four hundredth.
abbrev pub days_from_civil : ℕ × ℕ × ℕ → ℕ
days_from_civil (year, month, day) =
    let y = if leb month 2 then year - 1 else year in
    let mp = if leb month 2 then month + 9 else month - 3 in
    365 * y + y / 4 - y / 100 + y / 400 + ((153 * mp + 2) / 5 + day - 1) - 719468

abbrev pub is_leap : ℕ → Bool
is_leap year = (year % 4 == 0) && (not (year % 100 == 0) || (year % 400 == 0))

-- April, June, September and November.
abbrev pub is_short : ℕ → Bool
is_short month = (month == 4) || (month == 6) || (month == 9) || (month == 11)

abbrev pub days_in_month : ℕ → ℕ → ℕ
days_in_month year month =
    if month == 2 then (if is_leap year then 29 else 28) else (if is_short month then 30 else 31)

abbrev pub IsDate : ℕ × ℕ × ℕ → Type 0
IsDate (year, month, day) =
    (1 ≤ month) × (month ≤ 12) × (1 ≤ day) × (day ≤ days_in_month year month)

days_of_years :
    (doe : ℕ)
    → doe < 146097
    → 365 * year_of_era doe + year_of_era doe / 4 - year_of_era doe / 100 ≤ doe
days_of_years doe h = omega arith

year_of_era-le : (doe : ℕ) → doe < 146097 → year_of_era doe ≤ 399
year_of_era-le doe h = omega arith

day_of_year-le : (doe : ℕ) → doe < 146097 → day_of_year doe (year_of_era doe) ≤ 365
day_of_year-le doe h = omega arith

-- A date whose month counts `mp` from March, in the year `y` from March.
from_march :
    (y mp doy : ℕ)
    → mp ≤ 11
    → (153 * mp + 2) / 5 ≤ doy
    → days_from_civil
        (if leb (month_of mp) 2 then y + 1 else y, month_of mp, doy - (153 * mp + 2) / 5 + 1)
      ≡ 365 * y + y / 4 - y / 100 + y / 400 + doy - 719468
from_march y mp doy h k = ground arith

-- A year from March has 365 days, or 366 before a leap day.
next_year :
    (doe : ℕ)
    → doe < 146097
    → doe
      < 365 * (year_of_era doe + 1)
        + (year_of_era doe + 1) / 4
        - (year_of_era doe + 1) / 100
        + (year_of_era doe + 1) / 400
next_year doe h = omega arith

last_day-leap :
    (yoe doe : ℕ)
    → yoe ≤ 399
    → doe < 365 * (yoe + 1) + (yoe + 1) / 4 - (yoe + 1) / 100 + (yoe + 1) / 400
    → 365 ≤ day_of_year doe yoe
    → is_leap (yoe + 1) ≡ true
last_day-leap yoe doe h k e = ground arith

is_leap-era : (era yoe : ℕ) → is_leap (yoe + 1) ≡ true → is_leap (yoe + era * 400 + 1) ≡ true
is_leap-era era yoe h = ground arith

-- The days of the month `mp` from March, in the year `y` from March.
month_days :
    (y mp doy : ℕ)
    → doy ≤ 365
    → (365 ≤ doy → is_leap (y + 1) ≡ true)
    → mp ≡ (5 * doy + 2) / 153
    → doy - (153 * mp + 2) / 5 + 1
      ≤ days_in_month (if leb (month_of mp) 2 then y + 1 else y) (month_of mp)
month_days y mp doy h k e = elim (Bool-cases (leb mp 10)) [
  | inl early ↦ ground (arith, early, e, h)
  | inr late ↦ elim (Bool-cases (leb 365 doy)) [
    | inl last ↦ ground (arith, k (ground arith), late, e, h)
    | inr less ↦ ground (arith, less, late, e, h)
  ]
]

in_bounds :
    (y doy : ℕ)
    → doy ≤ 365
    → (365 ≤ doy → is_leap (y + 1) ≡ true)
    → let mp = (5 * doy + 2) / 153 in
      IsDate (if leb (month_of mp) 2 then y + 1 else y, month_of mp, doy - (153 * mp + 2) / 5 + 1)
in_bounds y doy h k =
    (ground arith, ground arith, omega arith, month_days y ((5 * doy + 2) / 153) doy h k refl)

in_era :
    (era yoe doe days : ℕ)
    → yoe ≤ 399
    → 365 * yoe + yoe / 4 - yoe / 100 ≤ doe
    → days + 719468 ≡ era * 146097 + doe
    → 365 * (yoe + era * 400)
        + (yoe + era * 400) / 4
        - (yoe + era * 400) / 100
        + (yoe + era * 400) / 400
        + day_of_year doe yoe
        - 719468
      ≡ days
in_era era yoe doe days h k e = omega arith

-- From 1970 on, the days of a date that stands for a number of days are that number, and its month and
-- its day are of the Gregorian calendar: no day is past the length of its month, and February has 29
-- days in leap years alone.
pub civil_from_days-days :
    (days : ℕ) → (days_from_civil (civil_from_days days) ≡ days) × IsDate (civil_from_days days)
unfolding civil_from_days
civil_from_days-days days =
    let z = days + 719468 in
    let era = z / 146097 in
    let doe = z % 146097 in
    let small : doe < 146097 = omega arith in
    let yoe = year_of_era doe in
    let doy = day_of_year doe yoe in
    let mp = (5 * doy + 2) / 153 in
    let last : doy ≤ 365 = day_of_year-le doe small in
    (
      from_march (yoe + era * 400) mp doy (omega (arith, last)) (omega (arith, last))
          ∙ in_era era yoe doe days (year_of_era-le doe small) (days_of_years doe small)
              (omega arith),
      in_bounds (yoe + era * 400) doy last (λ e.
          is_leap-era era yoe
            (last_day-leap yoe doe (year_of_era-le doe small) (next_year doe small) e)),
    )
