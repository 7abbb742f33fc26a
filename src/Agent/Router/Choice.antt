-- ===== src/Agent/Router/Choice.antt =====
-- The router's choice, and its plans against the registry.
use quer_project_q.Common.{
  ◌⊎◌, inl, inr, Bool-cases, ◌==◌, ◌≤◌, ◌<◌, String, ◌≡◌, refl, Bool, Option, none, some, [], ◌∷◌,
  arith, All, ℤ,
}
use quer_project_q.Agent.Plan.{
  ReportType, kpi, drift, anomalies, no_keyword, keyword_matches, PlanStep, Plan, effective_args,
}
use quer_project_q.Agent.Registry.Validate.{validate, callable}
use quer_project_q.Agent.Router.{steps_of, period_json, canned_plan, score, best, best_of, route}

module _ {Float : Type 0} (below : Float → ℤ → Bool) where
  -- What the executor hands to `validate_step`.
  abbrev pub IsCallable : PlanStep Float → Type 0
  IsCallable s = validate below s.tool (effective_args s) ≡ callable

  steps_of-IsCallable :
      (r : ReportType) (p : Option String) → All IsCallable (steps_of r (period_json p))
  unfolding steps_of effective_args validate
  steps_of-IsCallable kpi none = (refl, (refl, (refl, (refl, (refl, tt)))))
  steps_of-IsCallable kpi (some p) = (refl, (refl, (refl, (refl, (refl, tt)))))
  steps_of-IsCallable drift none = (refl, (refl, (refl, (refl, tt))))
  steps_of-IsCallable drift (some p) = (refl, (refl, (refl, (refl, tt))))
  steps_of-IsCallable anomalies none = (refl, (refl, (refl, tt)))
  steps_of-IsCallable anomalies (some p) = (refl, (refl, (refl, tt)))

  -- Whatever the report type and the period, `validate_step` accepts every step of a fixed plan.
  pub canned_plan-IsCallable :
      (r : ReportType) (p : Option String) → All IsCallable (canned_plan r p).steps
  unfolding canned_plan
  canned_plan-IsCallable r p = steps_of-IsCallable r p

module _ (lower : String → String) where
  -- The types that stand before this one in `REPORT_TYPES` score lower than it.
  abbrev pub BeatsEarlier : String → ReportType → Type 0
  BeatsEarlier q kpi = Unit
  BeatsEarlier q drift = score lower q kpi < score lower q drift
  BeatsEarlier q anomalies =
      (score lower q kpi < score lower q anomalies)
      × (score lower q drift < score lower q anomalies)

  -- No report type scores higher, and the earlier ones score lower.
  abbrev pub IsChoice : String → ReportType → Type 0
  IsChoice q b = ((r : ReportType) → score lower q r ≤ score lower q b) × BeatsEarlier q b

  best-max : (q : String) (r : ReportType) → score lower q r ≤ score lower q (best lower q)
  unfolding best_of
  best-max q kpi = ground arith
  best-max q drift = ground arith
  best-max q anomalies = ground arith

  best-BeatsEarlier : (q : String) → BeatsEarlier q (best lower q)
  unfolding best_of
  best-BeatsEarlier q = ground arith

  choice_zero : (q : String) (b : ReportType) → BeatsEarlier q b → score lower q b ≡ 0 → b ≡ kpi
  choice_zero q kpi h e = refl
  choice_zero q drift h e = absurd (omega (arith, h))
  choice_zero q anomalies h e = absurd (omega (arith, h.0))

  -- The router runs the fixed plan of a report type that has the most keywords in the question,
  -- the first of these in `REPORT_TYPES`. If there is no keyword at all it is the KPI plan, and
  -- the note says so; else the note gives the type and the number of its keywords.
  pub route-IsChoice :
      {Float : Type 0} (q : String) (p : Option String)
      → let plan : Plan Float = route lower q p in
        let b = best lower q in
        IsChoice q b
        × (plan.steps ≡ steps_of b (period_json p))
        × (((score lower q b ≡ 0) × (b ≡ kpi) × (plan.note ≡ no_keyword ∷ []))
            ⊎ ((0 < score lower q b) × (plan.note ≡ keyword_matches b (score lower q b) ∷ [])))
  unfolding route canned_plan
  route-IsChoice q p =
      let choice = best-BeatsEarlier q in
      let none_is_kpi = choice_zero q (best lower q) choice in
      (
        (best-max q, choice),
        ground (arith, none_is_kpi),
        elim (Bool-cases (score lower q (best lower q) == 0)) [
          | inl none_matched ↦ inl (
            ground (arith, none_matched),
            none_is_kpi (ground (arith, none_matched)),
            ground (arith, none_matched),
          )
          | inr some_matched ↦ inr (ground (arith, some_matched), ground (arith, some_matched))
        ],
      )
