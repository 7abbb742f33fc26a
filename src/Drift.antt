-- ===== src/Drift.antt =====
-- `_mann_kendall_s` of python/analytics/tools/trend.py: Kendall's sum, over blocks of rows. numpy's
-- `sign(v[j] - v[i])` is a parameter; the sum of signs is exact in floats, and is an integer here.
pub mod Pairs
mod Tests
use Prim.Native.Nat.{min}
use quer_project_q.Common.{
  ℕ, zero, suc, ◌+◌, ◌-◌, Option, none, some, List, [], ◌∷◌, ltb, if◌then◌else◌, length, get_elem?,
  ℤ, pos, ◌+ℤ◌,
}

-- `_TAU_CHUNK`
abbrev pub tau_chunk : ℕ
tau_chunk = 512

module _ {V : Type 0} (sign : V → V → ℤ) where
  -- A row of the block, summed where the column is after the row; the columns from `j` on.
  unfoldable pub masked : ℕ → ℕ → V → List V → ℤ
  masked i j x [] = pos 0
  masked i j x (y ∷ ys) = (if ltb i j then sign x y else pos 0) +ℤ masked i (suc j) x ys

  unfoldable pub row_sum : List V → ℕ → ℤ
  unfolding masked
  row_sum v i = elim (get_elem? v i) [ none ↦ pos 0 | some x ↦ masked i 0 x v ]

  -- `block[…].sum()`, for `k` rows from `start` on
  unfoldable pub block : List V → ℕ → ℕ → ℤ
  unfolding row_sum
  block v start zero = pos 0
  block v start (suc k) = row_sum v start +ℤ block v (suc start) k

  -- `for start in range(0, n - 1, _TAU_CHUNK)`, on fuel
  unfoldable pub blocks : ℕ → List V → ℕ → ℕ → ℤ
  unfolding block
  blocks chunk v zero start = pos 0
  blocks chunk v (suc fuel) start =
      let rest = blocks chunk v fuel (start + chunk) in
      let stop = length v - 1 in
      if ltb start stop then block v start (min (start + chunk) stop - start) +ℤ rest else pos 0

  unfoldable pub mann_kendall_s : List V → ℤ
  unfolding blocks
  mann_kendall_s values = blocks tau_chunk values (length values) 0
