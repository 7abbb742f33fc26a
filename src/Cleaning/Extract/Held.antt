-- ===== src/Cleaning/Extract/Held.antt =====
-- A poll that repeats the counters of the poll before it: the deduplication of python/oracle.py.
use quer_project_q.Common.{
  ℕ, suc, String, ◌≡◌, Option, none, some, List, [], ◌∷◌, ◌++◌, map, arith, ℤ, Option-cases, inl,
  inr, eq_of_parts, replicate,
}
use quer_project_q.Cleaning.Floats.{Floats}
use quer_project_q.Cleaning.Extract.{
  num_heads, CapEvent, Reading, Row, advance, heads_step, parse_row, extract_rows, extract,
}

module _ (F : Floats) where
  open F use {Float, round}

  -- The counters of a row, rounded as `extract` rounds them.
  abbrev pub counters : List (Reading Float) → List (Option ℤ)
  counters rs = map (λ r. round r.count) rs

  -- Whatever the last counter was, it is the row's own afterwards.
  pub advance-last :
      (h : ℕ) (ts : String) (l : Option ℤ) (c : ℤ) (r : Reading Float) (l' : ℤ)
      (es : List (CapEvent Float))
      → advance F h ts l c r ≡ some (l', es)
      → l' ≡ c
  unfolding advance
  advance-last h ts none c r l' es e = ground arith
  advance-last h ts (some l) c r l' es e = ground (arith, eq_of_parts l c)

  advance-held :
      (h : ℕ) (ts : String) (c : ℤ) (r : Reading Float) → advance F h ts (some c) c r ≡ some (c, [])
  unfolding advance
  advance-held h ts c r = ground arith

  -- What a step over a head and the rest has computed, when nothing raised.
  pub record Stepped (h : ℕ) (ts : String) (l : Option ℤ) (ls : List (Option ℤ)) (r : Reading Float)
      (rs : List (Reading Float)) (last' : List (Option ℤ)) (es : List (CapEvent Float))
      : Type 0 where
    pub c : ℤ
    pub ls' : List (Option ℤ)
    pub own : List (CapEvent Float)
    pub rest : List (CapEvent Float)
    pub rounded : round r.count ≡ some c
    pub advanced : advance F h ts l c r ≡ some (c, own)
    pub stepped : heads_step F (suc h) ts ls rs ≡ some (ls', rest)
    pub counters_eq : last' ≡ some c ∷ ls'
    pub events_eq : es ≡ own ++ rest

  pub heads_step-Stepped :
      (h : ℕ) (ts : String) (l : Option ℤ) (ls : List (Option ℤ)) (r : Reading Float)
      (rs : List (Reading Float)) (last' : List (Option ℤ)) (es : List (CapEvent Float))
      → heads_step F h ts (l ∷ ls) (r ∷ rs) ≡ some (last', es)
      → Stepped h ts l ls r rs last' es
  unfolding heads_step
  heads_step-Stepped h ts l ls r rs last' es e = elim (Option-cases (round r.count)) [
    | inl raised ↦ absurd (ground arith)
    | inr (c, ec) ↦ elim (Option-cases (advance F h ts l c r)) [
      | inl raised ↦ absurd (ground arith)
      | inr ((l', own), ea) ↦ elim (Option-cases (heads_step F (suc h) ts ls rs)) [
        | inl raised ↦ absurd (ground arith)
        | inr ((ls', rest), es_rest) ↦ record {
          c = c;
          ls' = ls';
          own = own;
          rest = rest;
          rounded = ec;
          advanced = ground (arith, advance-last h ts l c r l' own ea);
          stepped = es_rest;
          counters_eq = ground (arith, advance-last h ts l c r l' own ea);
          events_eq = ground arith;
        }
      ]
    ]
  ]

  heads_step-held :
      (h : ℕ) (ts ts' : String) (last last' : List (Option ℤ)) (rs rs' : List (Reading Float))
      (es : List (CapEvent Float))
      → counters rs ≡ counters rs'
      → heads_step F h ts last rs ≡ some (last', es)
      → heads_step F h ts' last' rs' ≡ some (last', [])
  unfolding heads_step
  heads_step-held h ts ts' [] last' rs rs' es same e = ground arith
  heads_step-held h ts ts' (l ∷ ls) last' [] [] es same e = ground arith
  heads_step-held h ts ts' (l ∷ ls) last' [] (r' ∷ rs') es same e = absurd (cc)
  heads_step-held h ts ts' (l ∷ ls) last' (r ∷ rs) [] es same e = absurd (cc)
  heads_step-held h ts ts' (l ∷ ls) last' (r ∷ rs) (r' ∷ rs') es same e =
      let s = heads_step-Stepped h ts l ls r rs last' es e in
      rw s.counters_eq (
        ground (
          arith,
          s.rounded,
          advance-held h ts' s.c r',
          heads_step-held (suc h) ts ts' ls s.ls' rs rs' s.rest (ground arith) s.stepped,
        ))

  extract_rows-held :
      (last : List (Option ℤ)) (pre post : List (List String)) (row row' : List String)
      (r r' : Row Float)
      → parse_row F row ≡ some r
      → parse_row F row' ≡ some r'
      → counters r.readings ≡ counters r'.readings
      → extract_rows F last (pre ++ row ∷ row' ∷ post) ≡ extract_rows F last (pre ++ row ∷ post)
  unfolding extract_rows
  extract_rows-held last [] post row row' r r' p p' same =
      elim (Option-cases (heads_step F 0 r.ts last r.readings)) [
        | inl raised ↦ ground (arith, p)
        | inr ((last', es), e) ↦ ground (
          arith,
          p,
          p',
          e,
          heads_step-held 0 r.ts r'.ts last last' r.readings r'.readings es same e,
        )
      ]
  extract_rows-held last (q ∷ pre) post row row' r r' p p' same =
      elim (Option-cases (parse_row F q)) [
        | inl skip ↦ ground (arith, skip, extract_rows-held last pre post row row' r r' p p' same)
        | inr (x, e) ↦ elim (Option-cases (heads_step F 0 x.ts last x.readings)) [
          | inl raised ↦ ground (arith, e, raised)
          | inr ((last', es), s) ↦
              ground (arith, e, s, extract_rows-held last' pre post row row' r r' p p' same)
        ]
      ]

  -- A poll whose counters, rounded, are those of the poll before it adds no event and changes
  -- nothing later, wherever in the file it stands and whatever its time, torque and status are.
  pub extract-held :
      (header : List String) (pre post : List (List String)) (row row' : List String)
      (r r' : Row Float)
      → parse_row F row ≡ some r
      → parse_row F row' ≡ some r'
      → counters r.readings ≡ counters r'.readings
      → extract F (header ∷ pre ++ row ∷ row' ∷ post) ≡ extract F (header ∷ pre ++ row ∷ post)
  unfolding extract
  extract-held header = extract_rows-held (replicate num_heads none)
