-- ===== src/Tools/Calendar.antt =====
-- The dates of Python's `datetime` that python/analytics/tools/compare.py computes with. No date is
-- past the year 9999, where Python raises.
pub mod Ordinals
use quer_project_q.Common.{
  ℕ, zero, suc, ◌+◌, ◌-◌, ◌*◌, ◌/◌, ◌%◌, ◌≤◌, Bool, true, false, not, ◌&&◌, ◌||◌, ltb, ◌==◌,
  if◌then◌else◌,
}

-- A `datetime.date`.
pub record Date : Type 0 where
  pub year : ℕ
  pub month : ℕ
  pub day : ℕ

abbrev pub date : ℕ → ℕ → ℕ → Date
date year month day = record { year = year; month = month; day = day }

unfoldable pub is_leap : ℕ → Bool
is_leap year = year % 4 == 0 && (not (year % 100 == 0) || year % 400 == 0)

-- The months of 30 days: April, June, September and November.
abbrev is_short : ℕ → Bool
is_short month = month == 4 || month == 6 || month == 9 || month == 11

unfoldable pub days_in_month : ℕ → ℕ → ℕ
unfolding is_leap
days_in_month year month =
    if month == 2 && is_leap year
    then 29
    else if month == 2
    then 28
    else if is_short month
    then 30
    else 31

-- The days of a year before its month.
unfoldable pub days_before_month : ℕ → ℕ → ℕ
unfolding days_in_month
days_before_month y zero = 0
days_before_month y (suc zero) = 0
days_before_month y (suc (suc m)) = days_before_month y (suc m) + days_in_month y (suc m)

unfoldable pub days_before_year : ℕ → ℕ
days_before_year year =
    let past = year - 1 in
    let leap_days = past / 4 - past / 100 + past / 400 in past * 365 + leap_days

-- `date.toordinal`: the number of the day, 1 for January 1 of year 1.
unfoldable pub ordinal : Date → ℕ
unfolding days_before_year days_before_month
ordinal t = days_before_year t.year + days_before_month t.year t.month + t.day

-- The day after.
unfoldable pub next_day : Date → Date
unfolding days_in_month
next_day t =
    if ltb t.day (days_in_month t.year t.month)
    then date t.year t.month (t.day + 1)
    else if ltb t.month 12
    then date t.year (t.month + 1) 1
    else date (t.year + 1) 1 1

-- `t + timedelta(days=n)`
unfoldable pub plus_days : ℕ → Date → Date
unfolding next_day
plus_days zero t = t
plus_days (suc n) t = plus_days n (next_day t)
