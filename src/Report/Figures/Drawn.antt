-- ===== src/Report/Figures/Drawn.antt =====
-- How the figures that python/analytics/report/render.py plans relate to those that it draws.
use quer_project_q.Common.{
  ℕ, suc, ◌≡◌, refl, Bool, true, Bool-cases, ◌&&◌, inl, inr, ◌⊎◌, List, [], ◌∷◌, ◌++◌, arith,
}
use quer_project_q.Agent.Json.{Json}
use quer_project_q.Agent.Plan.{PlanStep, effective_args}
use quer_project_q.Agent.Executor.{Execution, ToolResult}
use quer_project_q.Report.Figures.{
  FigureKey, figure_at, figure_keys, usable, step_figures, seen_after, figures_from,
  planned_figures, drawn_figures,
}

-- The one list is the other with items left out.
abbrev pub IsSublist : {A : Type 0} → List A → List A → Type 0
IsSublist [] [] = Unit
IsSublist (x ∷ xs) [] = ⊥
IsSublist [] (y ∷ ys) = Unit
IsSublist (x ∷ xs) (y ∷ ys) = ((x ≡ y) × IsSublist xs ys) ⊎ IsSublist (x ∷ xs) ys

module _ {A : Type 0} where
  IsSublist-nil : (ys : List A) → IsSublist [] ys
  IsSublist-nil [] = tt
  IsSublist-nil (y ∷ ys) = tt

  IsSublist-skip : (y : A) (xs ys : List A) → IsSublist xs ys → IsSublist xs (y ∷ ys)
  IsSublist-skip y [] ys h = tt
  IsSublist-skip y (x ∷ xs) ys h = inr h

  IsSublist-after : (xs us vs : List A) → IsSublist us vs → IsSublist us (xs ++ vs)
  IsSublist-after [] us vs h = h
  IsSublist-after (x ∷ xs) us vs h = IsSublist-skip x us (xs ++ vs) (IsSublist-after xs us vs h)

  IsSublist-append :
      (xs ys us vs : List A) → IsSublist xs ys → IsSublist us vs → IsSublist (xs ++ us) (ys ++ vs)
  IsSublist-append [] ys us vs h k = IsSublist-after ys us vs k
  IsSublist-append (x ∷ xs) [] us vs h k = absurd h
  IsSublist-append (x ∷ xs) (y ∷ ys) us vs (inl h) k = inl (h.0, IsSublist-append xs ys us vs h.1 k)
  IsSublist-append (x ∷ xs) (y ∷ ys) us vs (inr h) k = inr (IsSublist-append (x ∷ xs) ys us vs h k)

module _ {Float : Type 0} (zero_float : Float → Bool)
    (there more : FigureKey → ToolResult Float → Bool)
    (implied : (k : FigureKey) (r : ToolResult Float) → there k r ≡ true → more k r ≡ true) where
  step_figures-IsSublist :
      (r : ToolResult Float) (index : ℕ) (seen ks : List FigureKey)
      → IsSublist
          (step_figures zero_float there r index seen ks)
          (step_figures zero_float more r index seen ks)
  unfolding step_figures
  step_figures-IsSublist r index seen [] = tt
  step_figures-IsSublist r index seen (k ∷ ks) =
      let rest = step_figures-IsSublist r index (k ∷ seen) ks in
      elim (Bool-cases (there k r)) [
        | inl shown ↦ rw (shown, implied k r shown) (inl (refl, rest))
        | inr hidden ↦ elim (Bool-cases (more k r)) [
          | inl planned ↦
              rw (hidden, planned)
                (IsSublist-skip (figure_at index seen k)
                  (step_figures zero_float there r index (k ∷ seen) ks)
                  (step_figures zero_float more r index (k ∷ seen) ks) rest)
          | inr neither ↦ rw (hidden, neither) rest
        ]
      ]

  figures_from-IsSublist :
      (index : ℕ) (seen : List FigureKey) (steps : List (PlanStep Float))
      (rs : List (ToolResult Float))
      → IsSublist
          (figures_from zero_float there index seen steps rs)
          (figures_from zero_float more index seen steps rs)
  unfolding figures_from
  figures_from-IsSublist index seen [] rs = tt
  figures_from-IsSublist index seen (s ∷ steps) [] = tt
  figures_from-IsSublist index seen (s ∷ steps) (r ∷ rs) =
      let ks = figure_keys zero_float r.tool (effective_args s) in
      let later = seen_after seen ks in
      IsSublist-append (step_figures zero_float there r index seen ks)
        (step_figures zero_float more r index seen ks)
        (figures_from zero_float there (suc index) later steps rs)
        (figures_from zero_float more (suc index) later steps rs)
        (step_figures-IsSublist r index seen ks) (figures_from-IsSublist (suc index) later steps rs)

module _ {Float : Type 0} (zero_float : Float → Bool)
    (has_data : FigureKey → Json Float → Bool) where
  has-usable :
      (k : FigureKey) (r : ToolResult Float)
      → (usable zero_float r && has_data k r.values) ≡ true
      → usable zero_float r ≡ true
  has-usable k r h = ground (arith, h)

  -- Whatever a plot needs of a result's values, every figure that the report draws is one that it
  -- plans, in the same order and under the same name: what is drawn is what is planned with some
  -- figures left out.
  pub drawn_figures-IsSublist :
      (x : Execution Float)
      → IsSublist (drawn_figures zero_float has_data x) (planned_figures zero_float x)
  unfolding drawn_figures planned_figures
  drawn_figures-IsSublist x =
      figures_from-IsSublist zero_float (λ k r. usable zero_float r && has_data k r.values)
        (λ k r. usable zero_float r) has-usable 1 [] x.plan.steps x.results
