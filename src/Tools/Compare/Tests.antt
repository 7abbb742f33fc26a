-- ===== src/Tools/Compare/Tests.antt =====
-- Runs of the comparison of periods. A REAL is an integer.
use quer_project_q.Common.{
  ℕ, ◌-◌, ◌*◌, ◌/◌, ◌≤◌, ◌≡◌, refl, ◌==◌, false, none, some, List, [], ◌∷◌, All, arith, sum_of, ℤ,
  pos, ltb_ℤ, eqb_ℤ, mod_ℤ, ◌-ℤ◌,
}
use quer_project_q.Agent.Config.{Number, whole, real}
use quer_project_q.Store.{Clause, between}
use quer_project_q.Tools.{Event, Reals}
use quer_project_q.Tools.Calendar.{date, ordinal, plus_days, days_in_month}
use quer_project_q.Tools.Compare.{month, next_start, calendar_days, date_of, Arithmetic}
use quer_project_q.Tools.Compare.Buckets.{compare_periods}
use quer_project_q.Tools.Compare.Days.{starts, start_after, sum_of-calendar_days}
use quer_project_q.Tools.Compare.Totals.{IsResult, compare_periods-IsResult}

-- A closure of a torque on a day since the epoch.
abbrev row : ℕ → ℤ → ℤ → Event ℤ
row day torque status = record {
  head_id = pos 1;
  ts = day * 86400000000;
  cap_seq = pos 1;
  app_torque = some torque;
  status = some status;
  is_reset = false;
}

abbrev rows : List (Event ℤ)
rows = row 3 (pos 2) (pos 0) ∷ row 40 (pos 2) (pos 65) ∷ row 40 (pos 0) (pos 2) ∷ []

abbrev number : Number ℤ → ℤ
number (whole n) = n
number (real n) = n

abbrev reals : Reals ℤ
reals = record {
  positive = λ x. ltb_ℤ (pos 0) x;
  over = λ x n. ltb_ℤ (number n) x;
  under = λ x n. ltb_ℤ x (number n);
  equals = λ x n. eqb_ℤ x (number n);
  odd = λ x. mod_ℤ x 2 == 1;
}

abbrev integers : Arithmetic ℤ
integers = record {
  ratio = λ a b. pos (a / b);
  minus = ◌-ℤ◌;
  percent = λ a b. pos 0;
  is_zero = λ a. eqb_ℤ a (pos 0);
  less = ltb_ℤ;
  average = λ xs. none;
  median = λ xs. none;
  deviation = λ xs. none;
}

-- January and February of 1970.
abbrev clause : Clause
clause = between (record { year = 1970; mon = 1 }) (record { year = 1970; mon = 3 })

leap_day : date_of (789 * 86400000000) ≡ date 1972 2 29
unfolding date_of plus_days
leap_day = refl

compare_periods-IsResult_example :
    IsResult reals integers
      (whole (pos 0))
      (whole (pos 2))
      "month"
      clause
      rows
      (compare_periods reals integers (whole (pos 0)) (whole (pos 2)) "month" clause rows)
compare_periods-IsResult_example =
    compare_periods-IsResult reals integers (whole (pos 0)) (whole (pos 2)) "month" clause rows

raised :
    compare_periods reals integers
      (whole (pos 0))
      (whole (pos 2))
      "week"
      (between (record { year = 0; mon = 1 }) (record { year = 0; mon = 3 }))
      rows
    ≡ none
unfolding compare_periods
raised = refl

-- From January 15 to March 10 of a leap year.
sum_of-calendar_days_example :
    (sum_of (calendar_days month (date 2024 1 15) (date 2024 3 10)) (starts month 3 (date 2024 1 1))
      ≡ ordinal (date 2024 3 10) - ordinal (date 2024 1 15))
    × All
        (λ t. calendar_days month (date 2024 1 15) (date 2024 3 10) t ≤ 31)
        (starts month 3 (date 2024 1 1))
unfolding ordinal next_start start_after days_in_month
sum_of-calendar_days_example =
    sum_of-calendar_days month (date 2024 1 15) (date 2024 3 10) 3 (date 2024 1 1)
      ((omega arith, omega arith, omega arith, omega arith, omega arith), refl) (omega arith)
      (omega arith) (omega arith)
