-- ===== src/Cleaning/Vectorized/Equivalence.antt =====
-- The vectorised cleaner yields what the reference yields.
use quer_project_q.Common.{
  ℕ, suc, ◌-◌, ◌≤◌, ◌<◌, String, ◌≡◌, refl, ◌∙◌, false, Bool-cases, Option, none, some,
  Option-cases, inl, inr, List, [], ◌∷◌, map, arith, length, length-map, take, replicate, All, ltb,
  ltb→lt, ltb→le,
}
use quer_project_q.Cleaning.Floats.{Floats}
use quer_project_q.Cleaning.Extract.{
  num_heads, CapEvent, Reading, Row, parse_row, extract_rows, extract,
}
use quer_project_q.Cleaning.Extract.Width.{parse_row-length}
use quer_project_q.Cleaning.Extract.Parsed.{parsed_rows, parsed_rows-skip, parsed_rows-row}
use quer_project_q.Cleaning.Vectorized.{
  Pandas, FrameRow, frame_has_nan, counts, arrays, sub_rows, transform, expected_header,
  extract_frame,
}
use quer_project_q.Cleaning.Vectorized.Pairs.{IsRounded, rounded, pairs}
use quer_project_q.Cleaning.Vectorized.Rows.{
  row_of, IsFull, rounded-IsSmall, rows_agree, heads_step-seed, events, extract_rows-pairs,
}

module _ (F : Floats) (P : Pandas F) where
  open F use {Float}
  open P use {read_csv, rint}

  -- Every counter of a row rounds to an integer of fewer than 62 bits, to which numpy rounds too.
  abbrev pub IsCounted : Row Float → Type 0
  IsCounted r = All (IsRounded F P) r.readings

  -- What pandas documents of `read_csv` on these rows: a row that parses is not dropped, and a
  -- frame with nothing missing holds the rows that parse, in order.
  pub record ReadsCsv (data_rows : List (List String)) : Type 0 where
    pub covers :
        (df : List (FrameRow Float))
        → read_csv data_rows ≡ some df
        → length (parsed_rows F data_rows) ≤ length df
    pub exact :
        (df : List (FrameRow Float))
        → read_csv data_rows ≡ some df
        → frame_has_nan F P df ≡ false
        → map (row_of F P) df ≡ parsed_rows F data_rows

  -- The reference on the parsed rows: the first only sets the counters.
  abbrev seeded : List (Row Float) → Option (List (CapEvent Float))
  seeded [] = some []
  seeded (r ∷ rows) = pairs F P (rounded F P r.readings) rows

  IsCounted-IsFull :
      (rows : List (List String))
      → All IsCounted (parsed_rows F rows)
      → All (IsFull F P num_heads) (parsed_rows F rows)
  IsCounted-IsFull [] ok = unfold parsed_rows in tt
  IsCounted-IsFull (row ∷ rows) ok = elim (Option-cases (parse_row F row)) [
    | inl skip ↦
        let same = parsed_rows-skip F row rows skip in
        rw same (IsCounted-IsFull rows (rw same at ok))
    | inr (r, e) ↦
        let same = parsed_rows-row F row rows r e in
        let ok' : All IsCounted (r ∷ parsed_rows F rows) = rw same at ok in
        rw same ((ok'.0, parse_row-length F row r e), IsCounted-IsFull rows ok'.1)
  ]

  extract_rows-seeded :
      (n : ℕ) (rows : List (List String))
      → All (IsFull F P n) (parsed_rows F rows)
      → events F P (extract_rows F (replicate n none) rows) ≡ seeded (parsed_rows F rows)
  unfolding extract_rows
  extract_rows-seeded n [] full = unfold parsed_rows in refl
  extract_rows-seeded n (row ∷ rows) full = elim (Option-cases (parse_row F row)) [
    | inl skip ↦
        let same = parsed_rows-skip F row rows skip in
        rw same (ground (arith, skip, extract_rows-seeded n rows (rw same at full)))
    | inr (r, e) ↦
        let same = parsed_rows-row F row rows r e in
        let full' : All (IsFull F P n) (r ∷ parsed_rows F rows) = rw same at full in
        let seed = heads_step-seed F P 0 r.ts r.readings full'.0.0 in
        let rest =
          extract_rows-pairs F P n (rounded F P r.readings) rows
            (length-map r.readings (λ x. rint (Reading.count x)) ∙ full'.0.1) full'.1 in
        rw same (ground (arith, e, seed, full'.0.1, rest))
  ]

  delta-arrays :
      (f : FrameRow Float) (fs : List (FrameRow Float))
      → (arrays F P (f ∷ fs)).delta
        ≡ sub_rows (counts F P fs) (take (length fs) (rounded F P f.readings ∷ counts F P fs))
  unfolding arrays
  delta-arrays f fs =
      let size : suc (length (counts F P fs)) - 1 ≡ length fs =
        omega
          (arith, length-map fs (λ r. map (λ x. rint (Reading.count x)) (FrameRow.readings r))) in
      rw size

  transform-pairs :
      (n : ℕ) (f : FrameRow Float) (fs : List (FrameRow Float))
      → All (IsFull F P n) (map (row_of F P) (f ∷ fs))
      → transform F P (f ∷ fs) ≡ pairs F P (rounded F P f.readings) (map (row_of F P) fs)
  unfolding transform
  transform-pairs n f fs full = simp (delta-arrays f fs) (
      rows_agree F P (arrays F P (f ∷ fs)) 0 n (rounded F P f.readings) fs (unfold arrays in refl)
        (delta-arrays f fs) (unfold arrays in refl) (unfold arrays in refl) (unfold arrays in refl)
        (rounded-IsSmall F P f.readings full.0.0)
        (length-map f.readings (λ x. rint (Reading.count x)) ∙ full.0.1) full.1)

  transform-seeded :
      (n : ℕ) (df : List (FrameRow Float))
      → 2 ≤ length df
      → All (IsFull F P n) (map (row_of F P) df)
      → transform F P df ≡ seeded (map (row_of F P) df)
  transform-seeded n [] h full = absurd (omega arith)
  transform-seeded n (f ∷ fs) h full = transform-pairs n f fs full

  -- One parsed row, or none, makes no event.
  seeded-few : (rows : List (Row Float)) → length rows < 2 → seeded rows ≡ some []
  unfolding pairs
  seeded-few [] h = refl
  seeded-few (r ∷ []) h = refl
  seeded-few (r ∷ r' ∷ rows) h = absurd (omega arith)

  extract-seeded :
      (header : List String) (rows : List (List String))
      → All (IsFull F P num_heads) (parsed_rows F rows)
      → events F P (extract F (header ∷ rows)) ≡ seeded (parsed_rows F rows)
  unfolding extract
  extract-seeded header rows full = extract_rows-seeded num_heads rows full

  -- For a file with the expected header, counters that round to integers of fewer than 62 bits,
  -- and a `read_csv` that behaves as pandas documents, the vectorised cleaner and the reference
  -- yield the same events in the same order, or both raise.
  pub extract_frame-extract :
      (header : List String) (data_rows : List (List String))
      → ReadsCsv data_rows
      → All IsCounted (parsed_rows F data_rows)
      → extract_frame F P expected_header header data_rows
        ≡ events F P (extract F (header ∷ data_rows))
  unfolding extract_frame
  extract_frame-extract header data_rows reads ok =
      let full = IsCounted-IsFull data_rows ok in
      let reference = extract-seeded header data_rows full in
      elim (Option-cases (read_csv data_rows)) [
        | inl refused ↦ ground (arith, refused)
        | inr (df, e) ↦ elim (Bool-cases (ltb (length df) 2)) [
          | inl few ↦ ground (
            arith,
            e,
            few,
            reference,
            seeded-few (parsed_rows F data_rows)
                (omega (arith, reads.covers df e, ltb→lt (length df) 2 few)),
          )
          | inr many ↦ elim (Bool-cases (frame_has_nan F P df)) [
            | inl nan ↦ ground (arith, e, many, nan)
            | inr whole ↦
                let same = reads.exact df e whole in
                ground (
                  arith,
                  e,
                  many,
                  whole,
                  reference,
                  same,
                  transform-seeded num_heads df (ltb→le (length df) 2 many) (rw (← same) at full),
                )
          ]
        ]
      ]
