-- ===== src/Tools/Calendar/Ordinals.antt =====
-- A day's number and the day after it.
use quer_project_q.Common.{
  ℕ, zero, suc, ◌+◌, ◌/◌, ◌%◌, ◌≤◌, ◌≡◌, refl, ap, ap₂, ◌∙◌, ltb→lt, ltb→le, Bool-cases, inl, inr,
  arith, ltb,
}
use quer_project_q.Tools.Calendar.{
  Date, date, is_leap, days_in_month, days_before_month, days_before_year, ordinal, next_day,
  plus_days,
}

abbrev pub IsDate : Date → Type 0
IsDate t =
    (1 ≤ t.year)
    × (1 ≤ t.month)
    × (t.month ≤ 12)
    × (1 ≤ t.day)
    × (t.day ≤ days_in_month t.year t.month)

pub days_in_month_bounds : (y m : ℕ) → (28 ≤ days_in_month y m) × (days_in_month y m ≤ 31)
unfolding days_in_month
days_in_month_bounds y m = ground arith

days_before_month-suc :
    (y m : ℕ) → 1 ≤ m → days_before_month y (m + 1) ≡ days_before_month y m + days_in_month y m
unfolding days_before_month
days_before_month-suc y zero h = absurd (omega arith)
days_before_month-suc y (suc m) h =
    let next : suc m + 1 ≡ suc (suc m) = omega arith in ap (days_before_month y) next

days_before_year-suc :
    (y : ℕ) → 1 ≤ y → days_before_year (y + 1) ≡ days_before_year y + days_before_month y 12 + 31
unfolding days_before_year days_before_month days_in_month is_leap
days_before_year-suc y h = ground arith

pub next_day-IsDate : (t : Date) → IsDate t → IsDate (next_day t)
unfolding next_day
next_day-IsDate t h =
    let bounds = days_in_month_bounds t.year (t.month + 1) in
    let january = days_in_month_bounds (t.year + 1) 1 in ground (arith, h, bounds, january)

pub ordinal-next_day : (t : Date) → IsDate t → ordinal (next_day t) ≡ suc (ordinal t)
unfolding ordinal next_day
ordinal-next_day t h =
    ground (arith, h, days_before_month-suc t.year t.month h.1, days_before_year-suc t.year h.0)

pub plus_days-IsDate : (n : ℕ) (t : Date) → IsDate t → IsDate (plus_days n t)
unfolding plus_days
plus_days-IsDate zero t h = h
plus_days-IsDate (suc n) t h = plus_days-IsDate n (next_day t) (next_day-IsDate t h)

pub ordinal-plus_days : (n : ℕ) (t : Date) → IsDate t → ordinal (plus_days n t) ≡ ordinal t + n
unfolding plus_days
ordinal-plus_days zero t h = omega arith
ordinal-plus_days (suc n) t h =
    omega (arith, ordinal-plus_days n (next_day t) (next_day-IsDate t h), ordinal-next_day t h)

january : (y : ℕ) → (days_before_month y 1 ≡ 0) × (days_in_month y 12 ≡ 31)
unfolding days_before_month days_in_month
january y = (refl, refl)

year-end :
    (y : ℕ)
    → 1 ≤ y
    → ordinal (date (y + 12 / 12) (12 % 12 + 1) 1) ≡ ordinal (date y 12 1) + days_in_month y 12
unfolding ordinal
year-end y h = omega (arith, days_before_year-suc y h, january y, january (y + 1))

-- From the first of a month to the first of the next one.
pub ordinal-month :
    (y m : ℕ)
    → 1 ≤ y
    → 1 ≤ m
    → m ≤ 12
    → ordinal (date (y + m / 12) (m % 12 + 1) 1) ≡ ordinal (date y m 1) + days_in_month y m
unfolding ordinal
ordinal-month y m hy hm hm' = elim (Bool-cases (ltb m 12)) [
  | inl early ↦
      let same : date (y + m / 12) (m % 12 + 1) 1 ≡ date y (m + 1) 1 =
        ap₂ (λ a b. date a b 1) (omega (arith, ltb→lt m 12 early))
          (omega (arith, ltb→lt m 12 early)) in
      ap ordinal same ∙ omega (arith, days_before_month-suc y m hm)
  | inr late ↦
      let december : m ≡ 12 = omega (arith, ltb→le m 12 late) in rw december (year-end y hy)
]
