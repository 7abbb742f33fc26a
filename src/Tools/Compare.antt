-- ===== src/Tools/Compare.antt =====
-- python/analytics/tools/compare.py, on the rows in scope. What is computed in floats is a parameter.
pub mod Buckets
pub mod Days
pub mod Totals
mod Tests
use quer_project_q.Common.{
  ℕ, zero, suc, ◌+◌, ◌-◌, ◌*◌, ◌/◌, ◌%◌, Bool, true, false, not, ◌&&◌, ◌||◌, String, str_eq, Option,
  none, some, ◌>>=◌, List, [], ◌∷◌, map, ltb, leb, ◌==◌, if◌then◌else◌, where_holds, sum_of, length,
  ℤ, pos, ◌-ℤ◌,
}
use quer_project_q.Agent.Config.{Number, whole}
use quer_project_q.Store.{Clause, everything, between, Month}
use quer_project_q.Tools.{Event, Answer, found, no_data, bad_argument, Reals, holds}
use quer_project_q.Tools.Calendar.{Date, date, ordinal, plus_days}
use quer_project_q.Tools.Gaps.{add_poll}
use quer_project_q.Tools.Grouping.{groups, count_where}
use quer_project_q.Tools.Overview.{earliest, latest}

-- The keys of `_BUCKETS`.
pub data Bucket : Type 0 where
  month week : Bucket

-- `_BUCKETS[by]`, if it is there
unfoldable pub bucket_by : String → Option Bucket
bucket_by s = if str_eq s "month" then some month else if str_eq s "week" then some week else none

-- The Monday before the epoch, three days earlier.
abbrev pub first_monday : Date
first_monday = date 1969 12 29

abbrev pub days_since_monday : ℕ → ℕ
days_since_monday ts = ts / 86400000000 + 3

-- The date of a timestamp: `_as_date`, and CAST(ts AS DATE).
unfoldable pub date_of : ℕ → Date
date_of ts = plus_days (days_since_monday ts) first_monday

-- What DATE_TRUNC groups by, as a number: the months from year 0, the weeks from the first Monday.
unfoldable pub bucket_number : Bucket → ℕ → ℕ
unfolding date_of
bucket_number month ts = let t = date_of ts in t.year * 12 + (t.month - 1)
bucket_number week ts = days_since_monday ts / 7

-- DATE_TRUNC: the first day of a bucket, by its number.
unfoldable pub start_of : Bucket → ℕ → Date
start_of month n = date (n / 12) (n % 12 + 1) 1
start_of week n = plus_days (n * 7) first_monday

-- `_next_start`
unfoldable pub next_start : Bucket → Date → Date
next_start week start = plus_days 7 start
next_start month start = date (start.year + start.month / 12) (start.month % 12 + 1) 1

abbrev min_of : ℕ → ℕ → ℕ
min_of a b = if ltb b a then b else a

abbrev max_of : ℕ → ℕ → ℕ
max_of a b = if ltb a b then b else a

-- `_calendar_days`: subtraction stops at 0, as max(…, 0) makes it.
unfoldable pub calendar_days : Bucket → Date → Date → Date → ℕ
unfolding next_start
calendar_days by lo hi start =
    min_of (ordinal (next_start by start)) (ordinal hi) - max_of (ordinal start) (ordinal lo)

-- date.fromisoformat of a month's first day; `none` is its ValueError.
unfoldable pub iso_date : Month → Option Date
iso_date t = if leb 1 t.year && leb t.year 9999 then some (date t.year t.mon 1) else none

abbrev both_dates : Option Date → Option Date → Option (Date × Date)
both_dates (some lo) (some hi) = some (lo, hi)
both_dates lo hi = none

pub record Arithmetic (Float : Type 0) : Type 0 where
  pub ratio : ℕ → ℕ → Float
  pub minus : Float → Float → Float
  pub percent : Float → Float → Float
  pub is_zero : Float → Bool
  pub less : Float → Float → Bool
  pub average : List Float → Option Float
  pub median : List Float → Option Float
  pub deviation : List Float → Option Float

pub record BucketRow (Float : Type 0) : Type 0 where
  pub bucket_start : Date
  pub events : ℕ
  pub caps : ℕ
  pub successful : ℕ
  pub rejected : ℕ
  pub no_load_cycles : ℕ
  pub calendar_days : ℕ
  pub active_days : ℕ
  pub torque_mean : Option Float
  pub torque_median : Option Float
  pub torque_stddev : Option Float
  pub caps_per_day : Option Float
  pub caps_per_active_day : Option Float
  pub reject_rate : Option Float
  pub no_load_share : Option Float

-- `change_first_to_last`
pub record Change (Float : Type 0) : Type 0 where
  pub from_start : Date
  pub to_start : Date
  pub caps_per_day : Option Float
  pub caps_per_day_pct : Option Float
  pub caps_per_active_day : Option Float
  pub reject_rate : Option Float
  pub no_load_share : Option Float
  pub active_days : ℤ
  pub torque_mean : Option Float
  pub torque_stddev : Option Float

pub record Compared (Float : Type 0) : Type 0 where
  pub buckets : List (BucketRow Float)
  pub change : Option (Change Float)
  pub lowest_volume_bucket : Option (BucketRow Float)
  pub rows_scanned : ℕ

abbrev pub values : {Float : Type 0} → List (Option Float) → List Float
values [] = []
values (none ∷ xs) = values xs
values (some x ∷ xs) = x ∷ values xs

-- COUNT(DISTINCT CAST(ts AS DATE)), on the number of the day: the days, in order.
unfoldable pub days_of : {Float : Type 0} → List (Event Float) → List ℕ
unfolding add_poll
days_of [] = []
days_of (e ∷ es) = add_poll (e.ts / 86400000000) (days_of es)

-- The days that the calendar days are clipped to.
unfoldable pub window :
    {Float : Type 0} → Clause → Event Float → List (Event Float) → Option (Date × Date)
unfolding iso_date earliest latest date_of
window (between t u) e es = both_dates (iso_date t) (iso_date u)
window clause e es = some (date_of (earliest e.ts es), plus_days 1 (date_of (latest e.ts es)))
