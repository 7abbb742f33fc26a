-- ===== src/Cleaning/Vectorized/Agrees.antt =====
-- The vectorised transform, place by place and row by row, is the row-pair description.
use quer_project_q.Common.{
  ℕ, suc, String, ◌≡◌, refl, some, List, [], ◌∷◌, map, arith, map_option, Option-cases, inl, inr,
  length, get_elem?, drop, All, ℤ, ◌-ℤ◌,
}
use quer_project_q.Cleaning.Floats.{Floats}
use quer_project_q.Cleaning.Extract.{Reading, advance}
use quer_project_q.Cleaning.Vectorized.{Pandas, Arrays, event_at, sub_row, nonzero_row}
use quer_project_q.Cleaning.Vectorized.Arithmetic.{IsSmall, wrap64-sub}
use quer_project_q.Cleaning.Vectorized.Lookup.{get_elem?-drop, drop-suc}
use quer_project_q.Cleaning.Vectorized.Pairs.{IsRounded, rounded, pairs_row, advance-place}

module _ (F : Floats) (P : Pandas F) where
  open F use {Float, round}
  open P use {rint}

  -- Row `i` of the arrays is the row `r` with the differences `ds`.
  pub record RowAt (a : Arrays Float) (i : ℕ) (ts : String) (D C : List ℤ) (T S : List Float)
      : Type 0 where
    pub ts_at : get_elem? a.ts i ≡ some ts
    pub delta_at : get_elem? a.delta i ≡ some D
    pub count_at : get_elem? a.count i ≡ some C
    pub torque_at : get_elem? a.torque i ≡ some T
    pub status_at : get_elem? a.status i ≡ some S

  -- From place `j` of row `i` on.
  pub row_agrees :
      (a : Arrays Float) (i j : ℕ) (ts : String) (D C : List ℤ) (T S : List Float) (prev : List ℤ)
      (rs : List (Reading Float))
      → RowAt a i ts D C T S
      → drop j D ≡ sub_row (rounded F P rs) prev
      → drop j C ≡ rounded F P rs
      → drop j T ≡ map Reading.torque rs
      → drop j S ≡ map Reading.status rs
      → All (IsRounded F P) rs
      → All IsSmall prev
      → length prev ≡ length rs
      → map_option (event_at F P a) (nonzero_row i j (sub_row (rounded F P rs) prev))
        ≡ pairs_row F P j ts prev rs
  unfolding sub_row nonzero_row pairs_row
  row_agrees a i j ts D C T S [] [] at_i eD eC eT eS ok small len = refl
  row_agrees a i j ts D C T S [] (r ∷ rs) at_i eD eC eT eS ok small len = absurd (omega arith)
  row_agrees a i j ts D C T S (p ∷ ps) [] at_i eD eC eT eS ok small len = absurd (omega arith)
  row_agrees a i j ts D C T S (p ∷ ps) (r ∷ rs) at_i eD eC eT eS ok small len =
      let w = wrap64-sub (rint r.count) p ok.0.1 small.0 in
      let d_at =
        get_elem?-drop D j (rint r.count -ℤ p) (sub_row (rounded F P rs) ps)
          (ground (arith, w, eD)) in
      let c_at = get_elem?-drop C j (rint r.count) (rounded F P rs) eC in
      let t_at = get_elem?-drop T j r.torque (map Reading.torque rs) eT in
      let s_at = get_elem?-drop S j r.status (map Reading.status rs) eS in
      let place =
        advance-place F P a i j ts p r at_i.ts_at (ground (arith, at_i.delta_at, d_at))
          (ground (arith, at_i.count_at, c_at)) (ground (arith, at_i.torque_at, t_at))
          (ground (arith, at_i.status_at, s_at)) in
      let ih =
        row_agrees a i (suc j) ts D C T S ps rs at_i
          (drop-suc D j _ (sub_row (rounded F P rs) ps) eD) (drop-suc C j _ (rounded F P rs) eC)
          (drop-suc T j _ (map Reading.torque rs) eT) (drop-suc S j _ (map Reading.status rs) eS)
          ok.1 small.1 (omega arith) in
      elim (Option-cases (advance F j ts (some p) (rint r.count) r)) [
        | inl raised ↦ rw w (ground (arith, raised, place))
        | inr (x, e) ↦ elim (Option-cases (event_at F P a (i, j))) [
          | inl raised ↦ rw w (ground (arith, e, raised, place, ih))
          | inr (y, ey) ↦ rw w (ground (arith, e, ey, place, ih))
        ]
      ]
