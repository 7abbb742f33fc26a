-- ===== src/Report/Figures/Names.antt =====
-- That no two figures of a report of python/analytics/report/render.py share a name.
use quer_project_q.Common.{
  ℕ, suc, ◌≡◌, ◌≢◌, refl, ap, sym, Bool, true, false, Bool-cases, ◌&&◌, inl, inr, List, [], ◌∷◌,
  arith, All, All-imp, All-append,
}
use quer_project_q.Agent.Json.{Json, Dict}
use quer_project_q.Agent.Plan.{PlanStep, effective_args}
use quer_project_q.Agent.Executor.{Execution, ToolResult}
use quer_project_q.Report.Figures.{
  FigureKey, Figure, same_key, was_seen, figure_at, figure_keys, step_figures, seen_after,
  figures_from, usable, planned_figures, drawn_figures,
}
use quer_project_q.Report.Figures.Fresh.{
  AreDistinct, distinct-append, AreUnlike, IsFresh, IsOfStep, forget_key, forget_keys, forget_step,
  same_key_refl, later_seen, apart,
}

module _ {Float : Type 0} (zero_float : Float → Bool)
    (there : FigureKey → ToolResult Float → Bool) where
  abbrev of_step : ToolResult Float → ℕ → List FigureKey → List FigureKey → List Figure
  of_step r index seen ks = step_figures zero_float there r index seen ks

  step_figures-All :
      (P : Figure → Type 0) (r : ToolResult Float) (index : ℕ) (k : FigureKey)
      (seen ks : List FigureKey)
      → P (figure_at index seen k)
      → All P (of_step r index (k ∷ seen) ks)
      → All P (of_step r index seen (k ∷ ks))
  unfolding step_figures
  step_figures-All P r index k seen ks h rest = elim (Bool-cases (there k r)) [
    | inl shown ↦ rw shown (h, rest)
    | inr hidden ↦ rw hidden rest
  ]

  figure_at-IsFresh :
      (index : ℕ) (seen : List FigureKey) (k : FigureKey)
      → IsFresh index seen (figure_at index seen k)
  figure_at-IsFresh index seen k = elim (Bool-cases (was_seen k seen)) [
    | inl again ↦ inr (index, rw again refl, omega arith)
    | inr first ↦ inl (rw first refl, first)
  ]

  step_figures-IsFresh :
      (r : ToolResult Float) (index : ℕ) (seen ks : List FigureKey)
      → All (IsFresh index seen) (of_step r index seen ks)
  unfolding step_figures
  step_figures-IsFresh r index seen [] = tt
  step_figures-IsFresh r index seen (k ∷ ks) =
      step_figures-All (IsFresh index seen) r index k seen ks (figure_at-IsFresh index seen k) (
        All-imp (IsFresh index (k ∷ seen)) (IsFresh index seen) (of_step r index (k ∷ seen) ks)
          (forget_key k index seen) (step_figures-IsFresh r index (k ∷ seen) ks))

  step_figures-keys :
      (P : FigureKey → Type 0) (r : ToolResult Float) (index : ℕ) (seen ks : List FigureKey)
      → All P ks
      → All (λ f. P f.key) (of_step r index seen ks)
  unfolding step_figures
  step_figures-keys P r index seen [] h = tt
  step_figures-keys P r index seen (k ∷ ks) h =
      step_figures-All (λ f. P f.key) r index k seen ks h.0
        (step_figures-keys P r index (k ∷ seen) ks h.1)

  step_figures-IsOfStep :
      (r : ToolResult Float) (index : ℕ) (later seen ks : List FigureKey)
      → All (λ k. was_seen k later ≡ true) ks
      → All (IsOfStep index later) (of_step r index seen ks)
  unfolding step_figures
  step_figures-IsOfStep r index later seen [] h = tt
  step_figures-IsOfStep r index later seen (k ∷ ks) h =
      step_figures-All (IsOfStep index later) r index k seen ks
        (elim (Bool-cases (was_seen k seen)) [
          | inl again ↦ (inr (rw again refl), h.0)
          | inr first ↦ (inl (rw first refl), h.0)
        ])
        (step_figures-IsOfStep r index later (k ∷ seen) ks h.1)

  unlike :
      (index : ℕ) (seen : List FigureKey) (k : FigureKey) (g : Figure)
      → same_key k g.key ≡ false
      → figure_at index seen k ≢ g
  unlike index seen k g h e =
      let same : k ≡ g.key = ap (λ x. x.key) e in
      absurd (ground (arith, rw (sym same) at h, same_key_refl k))

  step_figures-AreDistinct :
      (r : ToolResult Float) (index : ℕ) (seen ks : List FigureKey)
      → AreUnlike ks
      → AreDistinct (of_step r index seen ks)
  unfolding step_figures
  step_figures-AreDistinct r index seen [] h = tt
  step_figures-AreDistinct r index seen (k ∷ ks) h =
      let rest = step_figures-AreDistinct r index (k ∷ seen) ks h.1 in
      elim (Bool-cases (there k r)) [
        | inl shown ↦ rw shown (
          All-imp (λ g. same_key k g.key ≡ false) (λ g. figure_at index seen k ≢ g)
              (of_step r index (k ∷ seen) ks) (unlike index seen k)
              (step_figures-keys (λ j. same_key k j ≡ false) r index (k ∷ seen) ks h.0),
          rest,
        )
        | inr hidden ↦ rw hidden rest
      ]

  figure_keys-AreUnlike :
      (tool : Json Float) (args : Dict Float) → AreUnlike (figure_keys zero_float tool args)
  unfolding figure_keys
  figure_keys-AreUnlike tool args = ground arith

  figures_from-IsFresh :
      (index : ℕ) (seen : List FigureKey) (steps : List (PlanStep Float))
      (rs : List (ToolResult Float))
      → All (IsFresh index seen) (figures_from zero_float there index seen steps rs)
  unfolding figures_from
  figures_from-IsFresh index seen [] rs = tt
  figures_from-IsFresh index seen (s ∷ steps) [] = tt
  figures_from-IsFresh index seen (s ∷ steps) (r ∷ rs) =
      let ks = figure_keys zero_float r.tool (effective_args s) in
      let later = seen_after seen ks in
      let rest = figures_from zero_float there (suc index) later steps rs in
      All-append (IsFresh index seen) (of_step r index seen ks) rest
        (step_figures-IsFresh r index seen ks)
        (All-imp (IsFresh (suc index) later) (IsFresh index seen) rest
          (λ f h. forget_keys index ks seen f (forget_step index later f h))
          (figures_from-IsFresh (suc index) later steps rs))

  figures_from-AreDistinct :
      (index : ℕ) (seen : List FigureKey) (steps : List (PlanStep Float))
      (rs : List (ToolResult Float))
      → AreDistinct (figures_from zero_float there index seen steps rs)
  unfolding figures_from
  figures_from-AreDistinct index seen [] rs = tt
  figures_from-AreDistinct index seen (s ∷ steps) [] = tt
  figures_from-AreDistinct index seen (s ∷ steps) (r ∷ rs) =
      let ks = figure_keys zero_float r.tool (effective_args s) in
      let later = seen_after seen ks in
      let rest = figures_from zero_float there (suc index) later steps rs in
      distinct-append (of_step r index seen ks) rest
        (step_figures-AreDistinct r index seen ks (figure_keys-AreUnlike r.tool (effective_args s)))
        (figures_from-AreDistinct (suc index) later steps rs)
        (All-imp (IsOfStep index later) (λ f. All (λ g. f ≢ g) rest) (of_step r index seen ks)
          (λ f h.
            All-imp (IsFresh (suc index) later) (λ g. f ≢ g) rest (λ g k. apart index later f g h k)
              (figures_from-IsFresh (suc index) later steps rs))
          (step_figures-IsOfStep r index later seen ks (later_seen ks seen)))

module _ {Float : Type 0} (zero_float : Float → Bool)
    (has_data : FigureKey → Json Float → Bool) where
  -- No two of the figures that a report plans are the same figure with the same step in its suffix,
  -- and no two of those that it draws: a repeated figure does not overwrite an earlier one.
  pub figures-AreDistinct :
      (x : Execution Float)
      → AreDistinct (planned_figures zero_float x)
        × AreDistinct (drawn_figures zero_float has_data x)
  unfolding planned_figures drawn_figures
  figures-AreDistinct x = (
    figures_from-AreDistinct zero_float (λ k r. usable zero_float r) 1 [] x.plan.steps x.results,
    figures_from-AreDistinct zero_float (λ k r. usable zero_float r && has_data k r.values) 1 []
        x.plan.steps x.results,
  )
