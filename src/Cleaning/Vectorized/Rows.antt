-- ===== src/Cleaning/Vectorized/Rows.antt =====
-- The rows of a file, one after the other, in both cleaners.
use quer_project_q.Common.{
  ℕ, suc, String, ◌≡◌, refl, sym, Option, none, some, List, [], ◌∷◌, map, arith, ◌∙◌, ◌>>=◌,
  map_option, Option-cases, inl, inr, length, length-map, drop, take, replicate, All, ℤ,
}
use quer_project_q.Cleaning.Floats.{Floats}
use quer_project_q.Cleaning.Extract.{Reading, Row, heads_step, parse_row, extract_rows, advance}
use quer_project_q.Cleaning.Extract.Parsed.{parsed_rows, parsed_rows-skip, parsed_rows-row}
use quer_project_q.Cleaning.Vectorized.{
  Pandas, FrameRow, Arrays, event_at, sub_row, sub_rows, nonzero, counts, ts_or_empty,
}
use quer_project_q.Cleaning.Vectorized.Arithmetic.{IsSmall}
use quer_project_q.Cleaning.Vectorized.Lookup.{get_elem?-drop, drop-suc, map_option-append}
use quer_project_q.Cleaning.Vectorized.Pairs.{
  IsRounded, rounded, pairs_row, pairs, heads_step-pairs,
}
use quer_project_q.Cleaning.Vectorized.Agrees.{row_agrees}

module _ (F : Floats) (P : Pandas F) where
  open F use {Float, round}
  open P use {rint}

  abbrev pub row_of : FrameRow Float → Row Float
  row_of r = record { ts = ts_or_empty F P r.ts; readings = r.readings }

  -- Every reading of a row of `n` heads is rounded.
  abbrev pub IsFull : ℕ → Row Float → Type 0
  IsFull n r = All (IsRounded F P) r.readings × (length r.readings ≡ n)

  pub rounded-IsSmall :
      (rs : List (Reading Float)) → All (IsRounded F P) rs → All IsSmall (rounded F P rs)
  rounded-IsSmall [] ok = tt
  rounded-IsSmall (r ∷ rs) ok = (ok.0.1, rounded-IsSmall rs ok.1)

  pub rows_agree :
      (a : Arrays Float) (i n : ℕ) (prev : List ℤ) (fs : List (FrameRow Float))
      → drop i a.ts ≡ map (λ r. ts_or_empty F P (FrameRow.ts r)) fs
      → drop i a.delta ≡ sub_rows (counts F P fs) (take (length fs) (prev ∷ counts F P fs))
      → drop i a.count ≡ counts F P fs
      → drop i a.torque ≡ map (λ r. map Reading.torque (FrameRow.readings r)) fs
      → drop i a.status ≡ map (λ r. map Reading.status (FrameRow.readings r)) fs
      → All IsSmall prev
      → length prev ≡ n
      → All (IsFull n) (map row_of fs)
      → map_option
          (event_at F P a)
          (nonzero i (sub_rows (counts F P fs) (take (length fs) (prev ∷ counts F P fs))))
        ≡ pairs F P prev (map row_of fs)
  unfolding nonzero sub_rows pairs
  rows_agree a i n prev [] et ed ec eq es small len full = refl
  rows_agree a i n prev (f ∷ fs) et ed ec eq es small len full =
      let here =
        row_agrees F P a i 0 (ts_or_empty F P f.ts) (sub_row (rounded F P f.readings) prev)
          (rounded F P f.readings) (map Reading.torque f.readings) (map Reading.status f.readings)
          prev f.readings
          (record {
            ts_at = get_elem?-drop a.ts i _ _ et;
            delta_at = get_elem?-drop a.delta i _ _ ed;
            count_at = get_elem?-drop a.count i _ _ ec;
            torque_at = get_elem?-drop a.torque i _ _ eq;
            status_at = get_elem?-drop a.status i _ _ es;
          })
          refl refl refl refl full.0.0 small (omega arith) in
      let ih =
        rows_agree a (suc i) n (rounded F P f.readings) fs (drop-suc a.ts i _ _ et)
          (drop-suc a.delta i _ _ ed) (drop-suc a.count i _ _ ec) (drop-suc a.torque i _ _ eq)
          (drop-suc a.status i _ _ es) (rounded-IsSmall f.readings full.0.0)
          (length-map f.readings (λ r. rint (Reading.count r)) ∙ full.0.1) full.1 in
      rw map_option-append (rw here (rw ih))

  -- The first row only sets the counters.
  pub heads_step-seed :
      (h : ℕ) (ts : String) (rs : List (Reading Float))
      → All (IsRounded F P) rs
      → heads_step F h ts (replicate (length rs) none) rs ≡ some (map some (rounded F P rs), [])
  unfolding heads_step advance
  heads_step-seed h ts [] ok = refl
  heads_step-seed h ts (r ∷ rs) ok = ground (arith, ok.0.0, heads_step-seed (suc h) ts rs ok.1)

  abbrev pub events : {A B : Type 0} → Option (A × B) → Option A
  events m = m >>= λ (es, _). some es

  pub extract_rows-pairs :
      (n : ℕ) (prev : List ℤ) (rows : List (List String))
      → length prev ≡ n
      → All (IsFull n) (parsed_rows F rows)
      → events (extract_rows F (map some prev) rows) ≡ pairs F P prev (parsed_rows F rows)
  unfolding extract_rows pairs
  extract_rows-pairs n prev [] len full = unfold parsed_rows in refl
  extract_rows-pairs n prev (row ∷ rows) len full = elim (Option-cases (parse_row F row)) [
    | inl skip ↦
        let same = parsed_rows-skip F row rows skip in
        ground (arith, skip, same, extract_rows-pairs n prev rows len (rw same at full))
    | inr (r, e) ↦
        let same = parsed_rows-row F row rows r e in
        let full' : All (IsFull n) (r ∷ parsed_rows F rows) = rw same at full in
        let own = rounded F P r.readings in
        let step = heads_step-pairs F P 0 r.ts prev r.readings full'.0.0 (len ∙ sym full'.0.1) in
        let ih =
          extract_rows-pairs n own rows
            (length-map r.readings (λ x. rint (Reading.count x)) ∙ full'.0.1) full'.1 in
        rw same (elim (Option-cases (pairs_row F P 0 r.ts prev r.readings)) [
          | inl raised ↦ ground (arith, e, step, raised)
          | inr (es, ee) ↦ ground (arith, e, step, ee, ih)
        ])
  ]
