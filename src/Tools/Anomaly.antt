-- ===== src/Tools/Anomaly.antt =====
-- python/analytics/tools/anomaly.py: `_sample`, on the list of a query's rows. The quotient whose
-- ceiling is the stride is a double, and exact for the counts of a store.
pub mod Strides
pub mod Records
pub mod Flags
mod Tests
use quer_project_q.Common.{
  ℕ, suc, ◌+◌, ◌-◌, ◌/◌, ◌%◌, Bool, Option, none, some, List, [], ◌∷◌, ltb, leb, ◌==◌,
  if◌then◌else◌, length, take, sort_by,
}

-- The rows of a sample, and how many there are in all.
pub record Sample (A : Type 0) : Type 0 where
  pub listed : List A
  pub total : ℕ

-- GREATEST(CEIL(total / limit), 1)
unfoldable pub stride_of : ℕ → ℕ → ℕ
stride_of total limit =
    let ceiling = (total + (limit - 1)) / limit in if ltb ceiling 1 then 1 else ceiling

module _ {A : Type 0} where
  -- WHERE (_mas_rn - 1) % stride = 0, from a row on that has so many before it
  unfoldable pub strided : ℕ → ℕ → List A → List A
  strided stride before [] = []
  strided stride before (x ∷ xs) =
      let rest = strided stride (suc before) xs in if before % stride == 0 then x ∷ rest else rest

  -- `fetched[0][-1]` is the total, and an IndexError if nothing was fetched.
  abbrev pub with_total : ℕ → List A → Option (Sample A)
  with_total total [] = none
  with_total total (x ∷ xs) = some (record { listed = x ∷ xs; total = total })

  -- The rows that come with the first query, if they are all; else every stride-th row.
  unfoldable pub sample : (A → A → Bool) → (A → A → Bool) → ℕ → List A → Option (Sample A)
  unfolding stride_of strided
  sample in_query in_rank limit found_rows =
      let rows = take (limit + 1) (sort_by in_query found_rows) in
      let ranked = sort_by in_rank found_rows in
      let total = length ranked in
      if leb (length rows) limit
      then some (record { listed = rows; total = length rows })
      else with_total total (take limit (strided (stride_of total limit) 0 ranked))
