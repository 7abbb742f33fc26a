-- ===== src/Cleaning/Vectorized/Pairs.antt =====
-- Both cleaners against one description: each row's events come from the row before it alone.
use quer_project_q.Common.{
  ℕ, suc, String, ◌≡◌, refl, Option, some, List, [], ◌∷◌, ◌++◌, map, arith, ◌>>=◌, Option-cases,
  inl, inr, length, get_elem?, All, ℤ, eqb_ℤ, pos, ◌-ℤ◌, -ℤ_parts, if◌then◌else◌,
}
use quer_project_q.Cleaning.Floats.{Floats}
use quer_project_q.Cleaning.Extract.{CapEvent, Reading, Row, is_reject, advance, heads_step}
use quer_project_q.Cleaning.Extract.Held.{advance-last}
use quer_project_q.Cleaning.Vectorized.{Pandas, Arrays, event_at, at}
use quer_project_q.Cleaning.Vectorized.Arithmetic.{IsSmall}

module _ (F : Floats) (P : Pandas F) where
  open F use {Float, round}
  open P use {rint}

  -- A reading whose counter rounds to a small integer, on which numpy's rounding agrees.
  abbrev pub IsRounded : Reading Float → Type 0
  IsRounded r = (round r.count ≡ some (rint r.count)) × IsSmall (rint r.count)

  abbrev pub rounded : List (Reading Float) → List ℤ
  rounded rs = map (λ r. rint (Reading.count r)) rs

  -- The events of one row, given the counters `prev` of the row before, from head `h` on.
  unfoldable pub pairs_row :
      ℕ → String → List ℤ → List (Reading Float) → Option (List (CapEvent Float))
  pairs_row h ts [] rs = some []
  pairs_row h ts (p ∷ ps) [] = some []
  pairs_row h ts (p ∷ ps) (r ∷ rs) = advance F h ts (some p) (rint r.count) r >>= λ (_, es).
      pairs_row (suc h) ts ps rs >>= λ fs. some (es ++ fs)

  unfoldable pub pairs : List ℤ → List (Row Float) → Option (List (CapEvent Float))
  unfolding pairs_row
  pairs prev [] = some []
  pairs prev (r ∷ rows) = pairs_row 0 r.ts prev r.readings >>= λ es.
      pairs (rounded r.readings) rows >>= λ fs. some (es ++ fs)

  -- The reference: a row's step is its pairs, and leaves its own counters.
  pub heads_step-pairs :
      (h : ℕ) (ts : String) (prev : List ℤ) (rs : List (Reading Float))
      → All IsRounded rs
      → length prev ≡ length rs
      → heads_step F h ts (map some prev) rs
        ≡ (pairs_row h ts prev rs >>= λ es. some (map some (rounded rs), es))
  unfolding heads_step pairs_row
  heads_step-pairs h ts [] [] ok len = refl
  heads_step-pairs h ts [] (r ∷ rs) ok len = absurd (omega arith)
  heads_step-pairs h ts (p ∷ ps) [] ok len = absurd (omega arith)
  heads_step-pairs h ts (p ∷ ps) (r ∷ rs) ok len =
      elim (Option-cases (advance F h ts (some p) (rint r.count) r)) [
        | inl raised ↦ ground (arith, ok.0.0, raised)
        | inr ((l', es), e) ↦ ground (
          arith,
          ok.0.0,
          e,
          advance-last F h ts (some p) (rint r.count) r l' es e,
          heads_step-pairs (suc h) ts ps rs ok.1 (omega arith),
        )
      ]

  -- The vectorised side, one place: the tuple is there exactly if the counter moved.
  pub advance-place :
      (a : Arrays Float) (i j : ℕ) (ts : String) (p : ℤ) (r : Reading Float)
      → get_elem? a.ts i ≡ some ts
      → at a.delta i j ≡ some (rint r.count -ℤ p)
      → at a.count i j ≡ some (rint r.count)
      → at a.torque i j ≡ some r.torque
      → at a.status i j ≡ some r.status
      → (advance F j ts (some p) (rint r.count) r >>= λ (_, es). some es) ≡ (
          if eqb_ℤ (rint r.count -ℤ p) (pos 0)
          then some []
          else (event_at F P a (i, j) >>= λ e. some (e ∷ [])))
  unfolding advance event_at
  advance-place a i j ts p r ets ed ec et es = elim (Option-cases (is_reject F r.status)) [
    | inl raised ↦ ground (arith, raised, -ℤ_parts (rint r.count) p)
    | inr (fault, e) ↦ ground (arith, e, -ℤ_parts (rint r.count) p)
  ]
