-- ===== src/Cleaning/Extract/Total.antt =====
-- When python/oracle.py returns.
use quer_project_q.Common.{
  ℕ, suc, ◌+◌, ◌*◌, ◌≤◌, String, ◌≡◌, refl, Option, none, some, Option-cases, inl, inr, List, [],
  ◌∷◌, ◌++◌, arith, length, replicate, All, ℤ,
}
use quer_project_q.Cleaning.Floats.{Floats}
use quer_project_q.Cleaning.Extract.{
  num_heads, CapEvent, Reading, Row, is_reject, advance, heads_step, parse_row, extract_rows,
  extract,
}
use quer_project_q.Cleaning.Extract.Parsed.{parsed_rows, parsed_rows-skip, parsed_rows-row}
use quer_project_q.Cleaning.Extract.Events.{IsEvent, extract-IsEvent}

module _ (F : Floats) where
  open F use {Float, round, to_int}

  -- The counter and the status are finite.
  abbrev pub IsFinite : Reading Float → Type 0
  IsFinite r = ((c : ℤ) × (round r.count ≡ some c)) × ((n : ℤ) × (to_int r.status ≡ some n))

  abbrev pub IsFiniteRow : Row Float → Type 0
  IsFiniteRow r = All IsFinite r.readings

  advance-returns :
      (h : ℕ) (ts : String) (l : Option ℤ) (c : ℤ) (r : Reading Float) (n : ℤ)
      → to_int r.status ≡ some n
      → (a : ℤ × List (CapEvent Float)) × (advance F h ts l c r ≡ some a)
  unfolding advance is_reject
  advance-returns h ts none c r n e = ((c, []), refl)
  advance-returns h ts (some l) c r n e = elim (Option-cases (advance F h ts (some l) c r)) [
    | inl raised ↦ absurd (ground (arith, e, raised))
    | inr found ↦ found
  ]

  heads_step-returns :
      (h : ℕ) (ts : String) (last : List (Option ℤ)) (rs : List (Reading Float))
      → All IsFinite rs
      → (a : List (Option ℤ) × List (CapEvent Float)) × (heads_step F h ts last rs ≡ some a)
  unfolding heads_step
  heads_step-returns h ts [] rs ok = (([], []), refl)
  heads_step-returns h ts (l ∷ ls) [] ok = ((l ∷ ls, []), refl)
  heads_step-returns h ts (l ∷ ls) (r ∷ rs) ok =
      let c = ok.0.0 in
      let stepped = advance-returns h ts l c.0 r ok.0.1.0 ok.0.1.1 in
      let rest = heads_step-returns (suc h) ts ls rs ok.1 in
      ((some stepped.0.0 ∷ rest.0.0, stepped.0.1 ++ rest.0.1), rw (c.1, stepped.1, rest.1) refl)

  extract_rows-returns :
      (last : List (Option ℤ)) (rows : List (List String))
      → All IsFiniteRow (parsed_rows F rows)
      → (a : List (CapEvent Float) × ℕ) × (extract_rows F last rows ≡ some a)
  unfolding extract_rows
  extract_rows-returns last [] ok = (([], 0), refl)
  extract_rows-returns last (row ∷ rows) ok = elim (Option-cases (parse_row F row)) [
    | inl skip ↦
        let rest = extract_rows-returns last rows (rw (parsed_rows-skip F row rows skip) at ok) in
        ((rest.0.0, rest.0.1 + 1), ground (arith, skip, rest.1))
    | inr (r, e) ↦
        let finite : All IsFiniteRow (r ∷ parsed_rows F rows) =
          rw (parsed_rows-row F row rows r e) at ok in
        let stepped = heads_step-returns 0 r.ts last r.readings finite.0 in
        let rest = extract_rows-returns stepped.0.0 rows finite.1 in
        ((stepped.0.1 ++ rest.0.0, rest.0.1), ground (arith, e, stepped.1, rest.1))
  ]

  -- If every counter and status of the rows that parse is finite, `extract` returns. Every event
  -- then names one of the 36 heads, carries the reject bit of its status, and is a reset that
  -- closes no cap or an advance of one or more caps, aggregated exactly above one. The parsed and
  -- the skipped rows are the file's rows, and the events are at most 36 for each parsed row.
  pub extract-returns :
      (header : List String) (rows : List (List String))
      → All IsFiniteRow (parsed_rows F rows)
      → (es : List (CapEvent Float)) × (skipped : ℕ) × (extract F (header ∷ rows)
          ≡ some (es, skipped))
        × All (IsEvent F num_heads) es
        × (length (parsed_rows F rows) + skipped ≡ length rows)
        × (length es ≤ num_heads * length (parsed_rows F rows))
  extract-returns header rows ok =
      let found = extract_rows-returns (replicate num_heads none) rows ok in
      let returned : extract F (header ∷ rows) ≡ some (found.0.0, found.0.1) =
        unfold extract in found.1 in
      let events = extract-IsEvent F header rows found.0.0 found.0.1 returned in
      (found.0.0, found.0.1, returned, events.0, events.1, events.2)
