-- ===== src/Cleaning/Extract/Events.antt =====
-- What every event of python/oracle.py is, and how the rows are accounted for.
use quer_project_q.Common.{
  ℕ, suc, ◌+◌, ◌*◌, ◌≤◌, String, ◌≡◌, refl, ◌⊎◌, true, false, Option, none, some, Option-cases, inl,
  inr, List, [], ◌∷◌, ◌++◌, arith, ◌∙◌, ◌>>=◌, length, length-append, replicate, All, All-append, ℤ,
  pos, ◌≤ℤ◌, -ℤ_parts, ltb_ℤ,
}
use quer_project_q.Cleaning.Floats.{Floats}
use quer_project_q.Cleaning.Extract.{
  num_heads, CapEvent, Reading, Row, is_reject, advance, heads_step, parse_row, extract_rows,
  extract,
}
use quer_project_q.Cleaning.Extract.Held.{heads_step-Stepped}
use quer_project_q.Cleaning.Extract.Parsed.{parsed_rows, parsed_rows-skip, parsed_rows-row}

module _ (F : Floats) where
  open F use {Float}

  -- A reset closes no cap; any other event closes at least one, and is aggregated above one.
  abbrev pub IsCounted : CapEvent Float → Type 0
  IsCounted e =
      ((e.reset ≡ true) × (e.delta ≡ pos 0) × (e.aggregated ≡ false))
      ⊎ ((e.reset ≡ false) × (pos 1 ≤ℤ e.delta) × (e.aggregated ≡ ltb_ℤ (pos 1) e.delta))

  pub record IsEvent (heads : ℕ) (e : CapEvent Float) : Type 0 where
    pub head_from : 1 ≤ e.head_id
    pub head_to : e.head_id ≤ heads
    pub fault : is_reject F e.status ≡ some e.is_fault
    pub counted : IsCounted e

  abbrev Advanced : ℕ → Option (ℤ × List (CapEvent Float)) → Type 0
  Advanced n none = Unit
  Advanced n (some (l, es)) = All (IsEvent n) es × (length es ≤ 1)

  advance-Advanced :
      (n h : ℕ) (ts : String) (l : Option ℤ) (c : ℤ) (r : Reading Float)
      → suc h ≤ n
      → Advanced n (advance F h ts l c r)
  unfolding advance
  advance-Advanced n h ts none c r hn = (tt, omega arith)
  advance-Advanced n h ts (some l) c r hn = ground (arith, -ℤ_parts c l)

  -- What a step over the heads has made of the counters `last`.
  abbrev pub AreEvents : ℕ → List (Option ℤ) → List (Option ℤ) → List (CapEvent Float) → Type 0
  AreEvents n last last' es =
      All (IsEvent n) es × (length es ≤ length last) × (length last' ≡ length last)

  no_events :
      (n : ℕ) (last last' : List (Option ℤ)) (es : List (CapEvent Float))
      → last' ≡ last
      → es ≡ []
      → AreEvents n last last' es
  no_events n last last' es same none_made = rw (same, none_made) (tt, omega arith, refl)

  heads_step-AreEvents :
      (n h : ℕ) (ts : String) (last last' : List (Option ℤ)) (rs : List (Reading Float))
      (es : List (CapEvent Float))
      → h + length last ≤ n
      → heads_step F h ts last rs ≡ some (last', es)
      → AreEvents n last last' es
  heads_step-AreEvents n h ts [] last' rs es hn e =
      no_events n [] last' es (unfold heads_step in ground arith)
        (unfold heads_step in ground arith)
  heads_step-AreEvents n h ts (l ∷ ls) last' [] es hn e =
      no_events n (l ∷ ls) last' es (unfold heads_step in ground arith)
        (unfold heads_step in ground arith)
  heads_step-AreEvents n h ts (l ∷ ls) last' (r ∷ rs) es hn e =
      let s = heads_step-Stepped F h ts l ls r rs last' es e in
      let own : Advanced n (some (s.c, s.own)) =
        rw s.advanced at (advance-Advanced n h ts l s.c r (omega arith)) in
      let rest = heads_step-AreEvents n (suc h) ts ls s.ls' rs s.rest (omega arith) s.stepped in
      rw (s.counters_eq, s.events_eq)
        (
          All-append (IsEvent n) s.own s.rest own.0 rest.0,
          omega (arith, length-append s.own s.rest, own.1, rest.1),
          omega (arith, rest.2),
        )

  -- The counts over the rest of a file, from `n` heads.
  abbrev Accounted : ℕ → List (List String) → List (CapEvent Float) → ℕ → Type 0
  Accounted n rows es skipped =
      All (IsEvent n) es
      × (length (parsed_rows F rows) + skipped ≡ length rows)
      × (length es ≤ n * length (parsed_rows F rows))

  abbrev Run : ℕ → List (List String) → Option (List (CapEvent Float) × ℕ) → Type 0
  Run n rows none = Unit
  Run n rows (some (es, skipped)) = Accounted n rows es skipped

  Run-skip :
      (n : ℕ) (row : List String) (rows : List (List String))
      (m : Option (List (CapEvent Float) × ℕ))
      → parsed_rows F (row ∷ rows) ≡ parsed_rows F rows
      → Run n rows m
      → Run n (row ∷ rows) (m >>= λ (es, skipped). some (es, skipped + 1))
  Run-skip n row rows none same h = tt
  Run-skip n row rows (some (es, skipped)) same h =
      (h.0, rw same (omega (arith, h.1)), rw same (omega (arith, h.2)))

  Run-row :
      (n : ℕ) (row : List String) (rows : List (List String)) (r : Row Float)
      (own : List (CapEvent Float)) (m : Option (List (CapEvent Float) × ℕ))
      → parsed_rows F (row ∷ rows) ≡ r ∷ parsed_rows F rows
      → All (IsEvent n) own
      → length own ≤ n
      → Run n rows m
      → Run n (row ∷ rows) (m >>= λ (es, skipped). some (own ++ es, skipped))
  Run-row n row rows r own none same ok few h = tt
  Run-row n row rows r own (some (es, skipped)) same ok few h = (
    All-append (IsEvent n) own es ok h.0,
    rw same (omega (arith, h.1)),
    rw same (omega (arith, h.2, length-append own es)),
  )

  extract_rows-Run :
      (n : ℕ) (last : List (Option ℤ)) (rows : List (List String))
      → length last ≡ n
      → Run n rows (extract_rows F last rows)
  unfolding extract_rows
  extract_rows-Run n last [] len = (tt, unfold parsed_rows in omega arith, omega arith)
  extract_rows-Run n last (row ∷ rows) len = elim (Option-cases (parse_row F row)) [
    | inl skip ↦
        rw (skip, extract_rows)
          (Run-skip n row rows (extract_rows F last rows) (parsed_rows-skip F row rows skip)
            (extract_rows-Run n last rows len))
    | inr (r, e) ↦ elim (Option-cases (heads_step F 0 r.ts last r.readings)) [
      | inl raised ↦ rw (e, extract_rows) (rw raised tt)
      | inr ((last', es), s) ↦
          let step = heads_step-AreEvents n 0 r.ts last last' r.readings es (omega arith) s in
          rw (e, extract_rows)
            (rw s (
              Run-row n row rows r es (extract_rows F last' rows) (parsed_rows-row F row rows r e)
                step.0 (omega (arith, step.1)) (extract_rows-Run n last' rows (step.2 ∙ len))))
    ]
  ]

  pub extract-IsEvent :
      (header : List String) (rows : List (List String)) (es : List (CapEvent Float)) (skipped : ℕ)
      → extract F (header ∷ rows) ≡ some (es, skipped)
      → All (IsEvent num_heads) es
        × (length (parsed_rows F rows) + skipped ≡ length rows)
        × (length es ≤ num_heads * length (parsed_rows F rows))
  unfolding extract
  extract-IsEvent header rows es skipped e =
      rw e at (extract_rows-Run num_heads (replicate num_heads none) rows refl)
