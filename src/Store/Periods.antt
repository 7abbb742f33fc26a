-- ===== src/Store/Periods.antt =====
-- The bounds that `period_clause` of python/analytics/store.py gives.
use Prim.Native.String.{String}
use quer_project_q.Common.{
  ℕ, suc, ◌<◌, ◌≡◌, ap, ap₂, ◌∙◌, Bool-cases, inl, inr, List, [], ◌∷◌, Option, none, some, arith,
  leb, if◌then◌else◌, ◌&&◌,
}
use quer_project_q.Agent.Narrator.Text.{Chars, strip}
use quer_project_q.Store.{
  Month, MonthOf, month, between, reversed, next_month, split_dots, split_dash, checked_month,
  month_from, clause_of, parts_of, month_of, range, period_clause,
}
use quer_project_q.Store.Months.{IsMonth, month_number, first_day_before}

next_month-IsMonth :
    (t : Month)
    → IsMonth t
    → IsMonth (next_month t) × (month_number (next_month t) ≡ suc (month_number t))
unfolding next_month
next_month-IsMonth t h = ground (arith, h)

next_month-year : (t : Month) → t.year < 9999 → (next_month t).year < 10000
unfolding next_month
next_month-year t h = ground arith

-- A range comes to the months from its first to its last, or is refused if they are in the wrong order.
range-months :
    (t u : Month)
    → IsMonth t
    → IsMonth u
    → t.year < 10000
    → u.year < 9999
    → range (month t) (month u)
      ≡ (if leb (month_number t) (month_number u) then between t (next_month u) else reversed)
range-months t u ht hu hy hz =
    let later = next_month-IsMonth u hu in
    let year : (next_month u).year < 10000 = next_month-year u hz in
    rw (first_day_before t (next_month u) ht later.0 hy year) (ground (arith, later.1))

-- A text that is read as a month is one.
abbrev Read : MonthOf → Type 0
Read (month t) = IsMonth t
Read failure = Unit

checked_month-Read : (year mon : ℕ) → Read (checked_month year mon)
checked_month-Read year mon = elim (Bool-cases (leb 1 mon && leb mon 12)) [
  | inl inside ↦ rw inside (ground (arith, inside))
  | inr outside ↦ rw outside tt
]

month_from-Read : (year mon : Option ℕ) → Read (month_from year mon)
month_from-Read (some year) (some mon) = checked_month-Read year mon
month_from-Read none mon = tt
month_from-Read (some year) none = tt

module _ (chars : Chars) (int_of : String → Option ℕ) where
  parts_of-Read : (parts : List String) → Read (parts_of chars int_of parts)
  parts_of-Read [] = tt
  parts_of-Read (y ∷ []) = tt
  parts_of-Read (y ∷ m ∷ []) = month_from-Read (int_of y) (int_of m)
  parts_of-Read (y ∷ m ∷ d ∷ parts) = tt

  month_of-IsMonth : (text : String) (t : Month) → month_of chars int_of text ≡ month t → IsMonth t
  unfolding month_of
  month_of-IsMonth text t e = rw e at (parts_of-Read (split_dash text))

  -- A period "first..last" whose two parts are read as months, in years below 9999, comes to the
  -- bounds from the first month up to the one after the last, exclusive; or it is refused as
  -- reversed exactly if the last month is before the first. The texts' order, which the code tests,
  -- is that of the months.
  pub period_clause-range :
      (period first last : String) (t u : Month)
      → split_dots period ≡ some (first, last)
      → month_of chars int_of (strip chars first) ≡ month t
      → month_of chars int_of (strip chars last) ≡ month u
      → t.year < 9999
      → u.year < 9999
      → (period_clause chars int_of (some period)
          ≡ (if leb (month_number t) (month_number u) then between t (next_month u) else reversed))
        × (month_number (next_month u) ≡ suc (month_number u))
  unfolding period_clause
  period_clause-range period first last t u split reads_first reads_last hy hz =
      let ht = month_of-IsMonth (strip chars first) t reads_first in
      let hu = month_of-IsMonth (strip chars last) u reads_last in
      (
        ap (clause_of chars int_of period) split
            ∙ ap₂ range reads_first reads_last
            ∙ range-months t u ht hu (omega arith) hz,
        (next_month-IsMonth u hu).1,
      )
