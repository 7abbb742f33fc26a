-- ===== src/Cleaning/Kpi.antt =====
-- python/oracle_kpi.py: the headline counts straight from the raw rows. `none` is an exception.
pub mod Counts
use quer_project_q.Common.{
  ℕ, zero, suc, ◌+◌, String, Bool, true, false, not, ◌&&◌, Option, none, some, List, [], ◌∷◌, ◌++◌,
  ◌>>=◌, ◌==◌, leb, str_eq, if◌then◌else◌, map_option, length, get_elem?, drop, ℤ, pos, mod_ℤ,
}
use Prim.Native.Nat.{max}
use text.Mathlib.Text.{find?}
use quer_project_q.Cleaning.Floats.{Floats}

pub record Kpis : Type 0 where
  pub capping_operations : ℕ
  pub successful : ℕ
  pub failed : ℕ
  pub no_load_cycles : ℕ

abbrev pub no_kpis : Kpis
no_kpis = record { capping_operations = 0; successful = 0; failed = 0; no_load_cycles = 0 }

-- `part in h`
abbrev contains : String → String → Bool
contains part h = elim (find? h part) [ none ↦ false | some _ ↦ true ]

-- [i for i, h in enumerate(hdr) if part in h], the first index being `i`
unfoldable pub columns_with : String → ℕ → List String → List ℕ
columns_with part i [] = []
columns_with part i (h ∷ hdr) =
    let rest = columns_with part (suc i) hdr in if contains part h then i ∷ rest else rest

-- `max(xs)`; `none` is the ValueError on an empty list.
unfoldable pub max_of : List ℕ → Option ℕ
max_of [] = none
max_of (x ∷ xs) = elim (max_of xs) [ none ↦ some x | some m ↦ some (max x m) ]

module _ (F : Floats) where
  open F use {Float, parse, to_int, above, equals}

  -- A closure with torque: an operation, and its verdict.
  unfoldable pub count_cap : Kpis → Float → Option Kpis
  count_cap k status =
      let capped = record k { capping_operations = k.capping_operations + 1 } in
      if equals status (pos 0)
      then some (record capped { successful = k.successful + 1 })
      else (to_int status >>= λ n.
          some (if mod_ℤ n 2 == 1 then record capped { failed = k.failed + 1 } else capped))

  -- The counts after one closure of torque and status.
  unfoldable pub count_closure : Kpis → Float → Float → Option Kpis
  unfolding count_cap
  count_closure k torque status =
      (if above torque (pos 0) then count_cap k status else some k) >>= λ k'. some (
        if equals status (pos 2) && equals torque (pos 0)
        then record k' { no_load_cycles = k'.no_load_cycles + 1 }
        else k')

  -- A head whose counter cell changed; `t` and `s` are the heads of `tidx` and `sidx`.
  unfoldable pub count_head :
      Kpis → List String → String → String → Option ℕ → Option ℕ → Option Kpis
  unfolding count_closure
  count_head k row cur prev t s = if str_eq cur prev then some k else (do
    i ← t
    torque ← get_elem? row i >>= parse
    j ← s
    status ← get_elem? row j >>= parse
    count_closure k torque status)

  -- `for k in range(len(cidx))`: the counters of this row and the row before, and what is left of
  -- the column indices of torque and status.
  unfoldable pub count_row :
      Kpis → List String → List String → List String → List ℕ → List ℕ → Option Kpis
  unfolding count_head
  count_row k row [] prev tidx sidx = some k
  count_row k row (c ∷ cur) [] tidx sidx = none
  count_row k row (c ∷ cur) (p ∷ prev) tidx sidx =
      count_head k row c p (get_elem? tidx 0) (get_elem? sidx 0) >>= λ k'.
      count_row k' row cur prev (drop 1 tidx) (drop 1 sidx)

  -- `if prev is not None: …`
  unfoldable pub count_after :
      Kpis → List String → List String → Option (List String) → List ℕ → List ℕ → Option Kpis
  unfolding count_row
  count_after k row cur none tidx sidx = some k
  count_after k row cur (some prev) tidx sidx = count_row k row cur prev tidx sidx

  -- `for row in r`, with the three lists of column indices and `prev`.
  unfoldable pub count_rows :
      List ℕ → List ℕ → List ℕ → Option (List String) → Kpis → List (List String) → Option Kpis
  unfolding count_after max_of
  count_rows cidx tidx sidx prev k [] = some k
  count_rows cidx tidx sidx prev k (row ∷ rows) = max_of (cidx ++ tidx ++ sidx) >>= λ last.
      elim (leb (length row) last) [
        | true ↦ count_rows cidx tidx sidx prev k rows
        | false ↦ map_option (get_elem? row) cidx >>= λ cur.
            count_after k row cur prev tidx sidx >>= λ k'.
            count_rows cidx tidx sidx (some cur) k' rows
      ]

  unfoldable pub kpis : List (List String) → Option Kpis
  unfolding count_rows columns_with
  kpis [] = none
  kpis (hdr ∷ rows) =
      count_rows (columns_with "Count" 0 hdr) (columns_with "AppTorque" 0 hdr)
        (columns_with "Status" 0 hdr) none no_kpis rows
