-- ===== src/Cleaning/Kpi/Counts.antt =====
-- The headline counts are parts of one another.
use quer_project_q.Common.{
  ℕ, suc, ◌+◌, ◌*◌, ◌≤◌, String, ◌≡◌, refl, true, false, Bool-cases, Option, none, some,
  Option-cases, inl, inr, List, [], ◌∷◌, ◌++◌, arith, ◌>>=◌, leb, map_option, length-map_option,
  length, get_elem?, drop,
}
use quer_project_q.Cleaning.Floats.{Floats}
use quer_project_q.Cleaning.Kpi.{
  Kpis, no_kpis, columns_with, max_of, count_closure, count_head, count_row, count_after,
  count_rows, kpis,
}

-- `closures` head closures have been looked at.
abbrev pub IsTally : ℕ → Kpis → Type 0
IsTally closures k =
    (k.successful + k.failed ≤ k.capping_operations)
    × (k.capping_operations ≤ closures)
    × (k.no_load_cycles ≤ closures)

abbrev Tally : ℕ → Option Kpis → Type 0
Tally n none = Unit
Tally n (some k) = IsTally n k

module _ (F : Floats) where
  open F use {Float, parse}

  count_closure-Tally :
      (n : ℕ) (k : Kpis) (torque status : Float)
      → IsTally n k
      → Tally (suc n) (count_closure F k torque status)
  unfolding count_closure
  count_closure-Tally n k torque status h = ground arith

  -- `none` makes no claim; what follows a count is judged from it.
  Tally-bind :
      (m n : ℕ) (o : Option Kpis) (f : Kpis → Option Kpis)
      → Tally m o
      → ((k : Kpis) → IsTally m k → Tally n (f k))
      → Tally n (o >>= f)
  Tally-bind m n none f h next = tt
  Tally-bind m n (some k) f h next = next k h

  count_head-Tally :
      (n : ℕ) (k : Kpis) (row : List String) (cur prev : String) (t s : Option ℕ)
      → IsTally n k
      → Tally (suc n) (count_head F k row cur prev t s)
  unfolding count_head
  count_head-Tally n k row cur prev none s h = ground arith
  count_head-Tally n k row cur prev (some i) none h = ground arith
  count_head-Tally n k row cur prev (some i) (some j) h =
      elim (Option-cases (get_elem? row i >>= parse)) [
        | inl bad ↦ ground (arith, bad)
        | inr (torque, et) ↦ elim (Option-cases (get_elem? row j >>= parse)) [
          | inl bad ↦ ground (arith, et, bad)
          | inr (status, es) ↦ ground (arith, et, es, count_closure-Tally n k torque status h)
        ]
      ]

  count_row-Tally :
      (m n : ℕ) (k : Kpis) (row cur prev : List String) (tidx sidx : List ℕ)
      → m ≡ n + length cur
      → IsTally n k
      → Tally m (count_row F k row cur prev tidx sidx)
  unfolding count_row
  count_row-Tally m n k row [] prev tidx sidx e h = ground arith
  count_row-Tally m n k row (c ∷ cur) [] tidx sidx e h = tt
  count_row-Tally m n k row (c ∷ cur) (p ∷ prev) tidx sidx e h =
      Tally-bind (suc n) m (count_head F k row c p (get_elem? tidx 0) (get_elem? sidx 0))
        (λ k'. count_row F k' row cur prev (drop 1 tidx) (drop 1 sidx))
        (count_head-Tally n k row c p (get_elem? tidx 0) (get_elem? sidx 0) h)
        (λ k' h'.
          count_row-Tally m (suc n) k' row cur prev (drop 1 tidx) (drop 1 sidx) (omega arith) h')

  count_after-Tally :
      (m n : ℕ) (k : Kpis) (row cur : List String) (prev : Option (List String))
      (tidx sidx : List ℕ)
      → m ≡ n + length cur
      → IsTally n k
      → Tally m (count_after F k row cur prev tidx sidx)
  unfolding count_after
  count_after-Tally m n k row cur none tidx sidx e h = ground arith
  count_after-Tally m n k row cur (some prev) tidx sidx e h =
      count_row-Tally m n k row cur prev tidx sidx e h

  module _ (cidx tidx sidx : List ℕ) where
    -- One row of the loop, by what it comes to.
    count_rows-no_column :
        (prev : Option (List String)) (k : Kpis) (row : List String) (rows : List (List String))
        → max_of (cidx ++ tidx ++ sidx) ≡ none
        → count_rows F cidx tidx sidx prev k (row ∷ rows) ≡ none
    unfolding count_rows
    count_rows-no_column prev k row rows e = ground (arith, e)

    module _ (last : ℕ) (largest : max_of (cidx ++ tidx ++ sidx) ≡ some last) where
      count_rows-short :
          (prev : Option (List String)) (k : Kpis) (row : List String) (rows : List (List String))
          → leb (length row) last ≡ true
          → count_rows F cidx tidx sidx prev k (row ∷ rows)
            ≡ count_rows F cidx tidx sidx prev k rows
      unfolding count_rows
      count_rows-short prev k row rows e = ground (arith, largest, e)

      count_rows-bad :
          (prev : Option (List String)) (k : Kpis) (row : List String) (rows : List (List String))
          → leb (length row) last ≡ false
          → map_option (get_elem? row) cidx ≡ none
          → count_rows F cidx tidx sidx prev k (row ∷ rows) ≡ none
      unfolding count_rows
      count_rows-bad prev k row rows e bad = ground (arith, largest, e, bad)

      count_rows-row :
          (prev : Option (List String)) (k : Kpis) (row : List String) (rows : List (List String))
          (cur : List String)
          → leb (length row) last ≡ false
          → map_option (get_elem? row) cidx ≡ some cur
          → count_rows F cidx tidx sidx prev k (row ∷ rows) ≡ (
              count_after F k row cur prev tidx sidx >>= λ k'.
              count_rows F cidx tidx sidx (some cur) k' rows)
      unfolding count_rows
      count_rows-row prev k row rows cur e c = ground (arith, largest, e, c)

    count_rows-Tally :
        (m n : ℕ) (prev : Option (List String)) (k : Kpis) (rows : List (List String))
        → n + length cidx * length rows ≤ m
        → IsTally n k
        → Tally m (count_rows F cidx tidx sidx prev k rows)
    count_rows-Tally m n prev k [] e h = unfold count_rows in ground arith
    count_rows-Tally m n prev k (row ∷ rows) e h =
        elim (Option-cases (max_of (cidx ++ tidx ++ sidx))) [
          | inl no_column ↦ rw (count_rows-no_column prev k row rows no_column) tt
          | inr (last, em) ↦ elim (Bool-cases (leb (length row) last)) [
            | inl short ↦
                rw (count_rows-short last em prev k row rows short)
                  (count_rows-Tally m n prev k rows (omega arith) h)
            | inr long ↦ elim (Option-cases (map_option (get_elem? row) cidx)) [
              | inl bad ↦ rw (count_rows-bad last em prev k row rows long bad) tt
              | inr (cur, ec) ↦
                  let size = length-map_option (get_elem? row) cidx cur ec in
                  rw (count_rows-row last em prev k row rows cur long ec) (
                    Tally-bind (n + length cur) m (count_after F k row cur prev tidx sidx)
                      (λ k'. count_rows F cidx tidx sidx (some cur) k' rows)
                      (count_after-Tally (n + length cur) n k row cur prev tidx sidx refl h)
                      (λ k' h'.
                        count_rows-Tally m (n + length cur) (some cur) k' rows
                          (rw size (omega arith)) h'))
            ]
          ]
        ]

  -- When `kpis` returns, the successful and the failed closures are disjoint parts of the capping
  -- operations, and neither these nor the no-load cycles are more than one for each counter
  -- column of each row after the header.
  pub kpis-IsTally :
      (hdr : List String) (rows : List (List String)) (k : Kpis)
      → kpis F (hdr ∷ rows) ≡ some k
      → (k.successful + k.failed ≤ k.capping_operations)
        × (k.capping_operations ≤ length (columns_with "Count" 0 hdr) * length rows)
        × (k.no_load_cycles ≤ length (columns_with "Count" 0 hdr) * length rows)
  unfolding kpis
  kpis-IsTally hdr rows k e = rw e at (
      count_rows-Tally (columns_with "Count" 0 hdr) (columns_with "AppTorque" 0 hdr)
        (columns_with "Status" 0 hdr) (length (columns_with "Count" 0 hdr) * length rows) 0 none
        no_kpis rows (omega arith) (omega arith))
