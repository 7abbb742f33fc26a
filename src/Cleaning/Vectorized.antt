-- ===== src/Cleaning/Vectorized.antt =====
-- python/clean_vectorized.py: the same transform on whole columns. What pandas and numpy do is a
-- parameter; the arithmetic on arrays of int64 is written out, its wrap-around included.
pub mod Arithmetic
pub mod Lookup
pub mod Pairs
pub mod Agrees
pub mod Rows
pub mod Equivalence
use quer_project_q.Common.{
  ℕ, zero, suc, ◌+◌, ◌-◌, ◌/◌, ◌%◌, ◌^◌, ◌&&◌, str_append, String, Bool, true, false, ◌||◌, Option,
  none, some, List, [], ◌∷◌, ◌++◌, not, map, ◌>>=◌, ltb, ◌==◌, str_eq, if◌then◌else◌, map_option,
  get_elem?, get_or, take, drop, length, ℤ, pos, negsuc, ◌-ℤ◌, ltb_ℤ, eqb_ℤ,
}
use quer_project_q.Cleaning.Floats.{Floats}
use quer_project_q.Cleaning.Extract.{num_heads, Reading, CapEvent, is_reject, extract}

-- One row of the frame that `pandas.read_csv` yields; the timestamp may be missing (NaN). The 108
-- numeric cells stand grouped by head.
pub record FrameRow (Float : Type 0) : Type 0 where
  pub ts : Option String
  pub readings : List (Reading Float)

pub record Pandas (F : Floats) : Type 0 where
  -- `pd.read_csv(path, header=0, ...)` on the data rows; `none` is the ValueError.
  pub read_csv : List (List String) → Option (List (FrameRow (Floats.Float F)))
  -- `np.rint(x).astype(np.int64)`
  pub rint : Floats.Float F → ℤ

abbrev digits : List String
digits = "0" ∷ "1" ∷ "2" ∷ "3" ∷ "4" ∷ "5" ∷ "6" ∷ "7" ∷ "8" ∷ "9" ∷ []

-- f"{i:02d}" below 100
abbrev two_digits : ℕ → String
two_digits i = str_append (get_or digits (i / 10) "") (get_or digits (i % 10) "")

-- [f"H{i:02d} name" for i in range(start, start + n)]
abbrev columns : String → ℕ → ℕ → List String
columns name start zero = []
columns name start (suc n) =
    str_append "H" (str_append (two_digits start) (str_append " " name))
    ∷ columns name (start + 1) n

abbrev pub expected_header : List String
expected_header =
    "timestamp" ∷ columns "Count" 1 num_heads
    ++ columns "AppTorque" 1 num_heads
    ++ columns "Status" 1 num_heads

-- No column differs from the one expected there; the lengths are compared first.
unfoldable pub same_columns : List String → List String → Bool
same_columns [] [] = true
same_columns [] (w ∷ ws) = false
same_columns (g ∷ gs) [] = false
same_columns (g ∷ gs) (w ∷ ws) = str_eq g w && same_columns gs ws

module _ (F : Floats) (P : Pandas F) where
  open F use {Float, is_nan}
  open P use {read_csv, rint}

  -- `np.isnan(...).any()` over the three blocks, or `pd.isna(ts).any()`.
  unfoldable pub reading_has_nan : List (Reading Float) → Bool
  reading_has_nan [] = false
  reading_has_nan (r ∷ rs) =
      is_nan r.count || is_nan r.torque || is_nan r.status || reading_has_nan rs

  unfoldable pub frame_has_nan : List (FrameRow Float) → Bool
  unfolding reading_has_nan
  frame_has_nan [] = false
  frame_has_nan (r ∷ rs) =
      elim r.ts [ none ↦ true | some _ ↦ reading_has_nan r.readings ] || frame_has_nan rs

-- int64 subtraction, which wraps around.
unfoldable pub wrap64 : ℤ → ℤ
wrap64 (pos n) = let m = n % 2 ^ 64 in if ltb m (2 ^ 63) then pos m else negsuc (2 ^ 64 - 1 - m)
wrap64 (negsuc n) = let m = n % 2 ^ 64 in if ltb m (2 ^ 63) then negsuc m else pos (2 ^ 64 - 1 - m)

unfoldable pub sub_row : List ℤ → List ℤ → List ℤ
sub_row [] ys = []
sub_row (x ∷ xs) [] = []
sub_row (x ∷ xs) (y ∷ ys) = wrap64 (x -ℤ y) ∷ sub_row xs ys

-- `count[1:] - count[:-1]`, given the two as lists of rows.
unfoldable pub sub_rows : List (List ℤ) → List (List ℤ) → List (List ℤ)
unfolding sub_row
sub_rows [] ys = []
sub_rows (x ∷ xs) [] = []
sub_rows (x ∷ xs) (y ∷ ys) = sub_row x y ∷ sub_rows xs ys

-- `np.nonzero`: the places of what is not 0, in row-major order.
unfoldable pub nonzero_row : ℕ → ℕ → List ℤ → List (ℕ × ℕ)
nonzero_row i j [] = []
nonzero_row i j (x ∷ xs) =
    let rest = nonzero_row i (suc j) xs in if eqb_ℤ x (pos 0) then rest else (i, j) ∷ rest

unfoldable pub nonzero : ℕ → List (List ℤ) → List (ℕ × ℕ)
unfolding nonzero_row
nonzero i [] = []
nonzero i (x ∷ xs) = nonzero_row i 0 x ++ nonzero (suc i) xs

-- `m[i, j]`; `none` is the IndexError.
abbrev pub at {ℓ} : {A : Type ℓ} → List (List A) → ℕ → ℕ → Option A
at m i j = get_elem? m i >>= λ row. get_elem? row j

-- The arrays that `extract` gathers from, each without row 0.
pub record Arrays (Float : Type 0) : Type 0 where
  pub ts : List String
  pub delta : List (List ℤ)
  pub count : List (List ℤ)
  pub torque : List (List Float)
  pub status : List (List Float)

module _ (F : Floats) (P : Pandas F) where
  open F use {Float}
  open P use {read_csv, rint}

  -- The tuple of the place (row, head).
  unfoldable pub event_at : Arrays Float → ℕ × ℕ → Option (CapEvent Float)
  unfolding is_reject
  event_at a (i, j) = do
    d ← at a.delta i j
    cur ← at a.count i j
    tq ← at a.torque i j
    st ← at a.status i j
    ts ← get_elem? a.ts i
    let is_reset = ltb_ℤ d (pos 0)
    let out_delta = if is_reset then pos 0 else d
    fault ← is_reject F st
    some (record {
      head_id = j + 1;
      ts = ts;
      cap_seq = cur;
      torque = tq;
      status = st;
      delta = out_delta;
      is_fault = fault;
      aggregated = ltb_ℤ (pos 1) out_delta;
      reset = is_reset;
    })

  abbrev pub ts_or_empty : Option String → String
  ts_or_empty none = ""
  ts_or_empty (some t) = t

  abbrev pub counts : List (FrameRow Float) → List (List ℤ)
  counts df = map (λ r. map (λ x. rint (Reading.count x)) (FrameRow.readings r)) df

  unfoldable pub arrays : List (FrameRow Float) → Arrays Float
  unfolding sub_rows
  arrays df =
      let count = counts df in
      record {
        ts = map (λ r. ts_or_empty (FrameRow.ts r)) (drop 1 df);
        delta = sub_rows (drop 1 count) (take (length count - 1) count);
        count = drop 1 count;
        torque = map (λ r. map Reading.torque (FrameRow.readings r)) (drop 1 df);
        status = map (λ r. map Reading.status (FrameRow.readings r)) (drop 1 df);
      }

  unfoldable pub transform : List (FrameRow Float) → Option (List (CapEvent Float))
  unfolding nonzero event_at
  transform df = let a = arrays df in map_option (event_at a) (nonzero 0 a.delta)

  -- A file, as its first line split at the commas, the header row and the data rows of
  -- `csv.reader`. The events, or `none` if an exception leaves `extract`.
  unfoldable pub extract_frame :
      List String → List String → List (List String) → Option (List (CapEvent Float))
  unfolding same_columns
  extract_frame names header data_rows =
      if not (length names == length expected_header)
      then none
      else if not (same_columns names expected_header)
      then none
      else let reference = (extract F (header ∷ data_rows) >>= λ (es, _). some es) in
        elim (read_csv data_rows) [
          | none ↦ reference
          | some df ↦
              if ltb (length df) 2
              then some []
              else if frame_has_nan F P df
              then reference
              else transform df
        ]
