-- ===== src/Tools/Compare/Days.antt =====
-- The calendar days of the buckets of a period.
use quer_project_q.Common.{
  ℕ, zero, suc, ◌+◌, ◌-◌, ◌/◌, ◌%◌, ◌≤◌, ◌≡◌, refl, ap, sym, ◌∙◌, List, [], ◌∷◌, arith, ltb,
  if◌then◌else◌, sum_of, All,
}
use quer_project_q.Tools.Calendar.{Date, date, ordinal, days_in_month}
use quer_project_q.Tools.Calendar.Ordinals.{
  IsDate, days_in_month_bounds, plus_days-IsDate, ordinal-plus_days, ordinal-month,
}
use quer_project_q.Tools.Compare.{Bucket, month, week, next_start, calendar_days}

-- A day that a bucket starts on.
abbrev pub IsStart : Bucket → Date → Type 0
IsStart week s = IsDate s
IsStart month s = IsDate s × (s.day ≡ 1)

bucket_length : Bucket → Date → ℕ
bucket_length week s = 7
bucket_length month s = days_in_month s.year s.month

-- The starts of so many buckets in a row.
unfoldable pub starts : Bucket → ℕ → Date → List Date
starts by zero s = []
starts by (suc n) s = s ∷ starts by n (next_start by s)

-- The start of the bucket that follows them.
unfoldable pub start_after : Bucket → ℕ → Date → Date
start_after by zero s = s
start_after by (suc n) s = start_after by n (next_start by s)

next_start-IsStart : (by : Bucket) (s : Date) → IsStart by s → IsStart by (next_start by s)
unfolding next_start
next_start-IsStart week s h = plus_days-IsDate 7 s h
next_start-IsStart month s h =
    let bounds = days_in_month_bounds (s.year + s.month / 12) (s.month % 12 + 1) in
    let valid : (1 ≤ s.year) × (1 ≤ s.month) = (h.0.0, h.0.1) in
    ((omega arith, omega arith, omega arith, omega arith, omega (arith, bounds)), refl)

ordinal-next_start :
    (by : Bucket) (s : Date)
    → IsStart by s
    → ordinal (next_start by s) ≡ ordinal s + bucket_length by s
unfolding next_start bucket_length
ordinal-next_start week s h = ordinal-plus_days 7 s h
ordinal-next_start month s h =
    let first : date s.year s.month 1 ≡ s = ap (date s.year s.month) (sym h.1) in
    ordinal-month s.year s.month h.0.0 h.0.1 h.0.2
    ∙ ap (λ t. ordinal t + days_in_month s.year s.month) first

-- The starts do not go back.
start_after-later :
    (by : Bucket) (n : ℕ) (s : Date) → IsStart by s → ordinal s ≤ ordinal (start_after by n s)
unfolding start_after
start_after-later by zero s h = omega arith
start_after-later by (suc n) s h = omega (
  arith,
  start_after-later by n (next_start by s) (next_start-IsStart by s h),
  ordinal-next_start by s h,
)

-- The part of the period from `lo` to `hi` that lies from one day to another.
abbrev clipped : ℕ → ℕ → ℕ → ℕ → ℕ
clipped lo hi a b = (if ltb hi b then hi else b) - (if ltb a lo then lo else a)

clipped-join :
    (lo hi a b c : ℕ) → a ≤ b → b ≤ c → clipped lo hi a b + clipped lo hi b c ≡ clipped lo hi a c
clipped-join lo hi a b c h k = ground arith

one_bucket :
    (by : Bucket) (lo hi s : Date)
    → calendar_days by lo hi s
      ≡ clipped (ordinal lo) (ordinal hi) (ordinal s) (ordinal (next_start by s))
unfolding calendar_days
one_bucket by lo hi s = refl

calendar_days-clipped :
    (by : Bucket) (lo hi : Date) (n : ℕ) (s : Date)
    → IsStart by s
    → sum_of (calendar_days by lo hi) (starts by n s)
      ≡ clipped (ordinal lo) (ordinal hi) (ordinal s) (ordinal (start_after by n s))
unfolding start_after starts
calendar_days-clipped by lo hi zero s h = ground arith
calendar_days-clipped by lo hi (suc n) s h =
    let here : calendar_days by lo hi s
        ≡ clipped (ordinal lo) (ordinal hi) (ordinal s) (ordinal (next_start by s)) =
      one_bucket by lo hi s in
    let onward = next_start-IsStart by s h in
    omega (
      arith,
      here,
      calendar_days-clipped by lo hi n (next_start by s) onward,
      clipped-join (ordinal lo) (ordinal hi) (ordinal s) (ordinal (next_start by s))
          (ordinal (start_after by n (next_start by s))) (omega (arith, ordinal-next_start by s h))
          (start_after-later by n (next_start by s) onward),
    )

bucket_length-bound : (by : Bucket) (s : Date) → bucket_length by s ≤ 31
unfolding bucket_length
bucket_length-bound week s = omega arith
bucket_length-bound month s = (days_in_month_bounds s.year s.month).1

short :
    (by : Bucket) (lo hi : Date) (n : ℕ) (s : Date)
    → IsStart by s
    → All (λ t. calendar_days by lo hi t ≤ 31) (starts by n s)
unfolding starts
short by lo hi zero s h = tt
short by lo hi (suc n) s h = (
  ground (arith, one_bucket by lo hi s, ordinal-next_start by s h, bucket_length-bound by s),
  short by lo hi n (next_start by s) (next_start-IsStart by s h),
)

-- Of a run of months or weeks, each the next one of the one before, that starts no later than `lo`
-- and reaches `hi`, the calendar days add up to the days from `lo` to `hi`: no day of the period is
-- counted twice and none is left out. Each bucket has at most 31 of them.
pub sum_of-calendar_days :
    (by : Bucket) (lo hi : Date) (n : ℕ) (s : Date)
    → IsStart by s
    → ordinal s ≤ ordinal lo
    → ordinal lo ≤ ordinal hi
    → ordinal hi ≤ ordinal (start_after by n s)
    → (sum_of (calendar_days by lo hi) (starts by n s) ≡ ordinal hi - ordinal lo)
      × All (λ t. calendar_days by lo hi t ≤ 31) (starts by n s)
sum_of-calendar_days by lo hi n s h before order after =
    (ground (arith, calendar_days-clipped by lo hi n s h), short by lo hi n s h)
