-- ===== src/Agent/Planner/Level.antt =====
-- The step that `_with_level_check` adds can be called, whatever the model's trend step held.
use quer_project_q.Common.{
  String, ◌≡◌, refl, ap, ◌&&◌, Bool, Bool-cases, true, none, some, Option-cases, inl, inr, ◌⊎◌,
  List, [], ◌∷◌, ◌++◌, arith, All, All-append, str_eq_iff, ℤ,
}
use quer_project_q.Agent.Json.{
  Json, null, bool, int, num, str, arr, obj, Dict, get, get_or_null, is_null,
}
use quer_project_q.Agent.Plan.{Bucket, month, week, PlanStep, Plan, drop_nulls, effective_args}
use quer_project_q.Agent.Registry.{Fragment, Params, period, param, trend_params}
use quer_project_q.Agent.Registry.Validate.{validate, callable, check_arg, check_args}
use quer_project_q.Agent.Router.Choice.{IsCallable}
use quer_project_q.Agent.Planner.{
  level_step, bucket_of, first_trend, has_compare, with_level_check, is_tool, is_text, reads_torque,
  bucket_name,
}

module _ {Float : Type 0} (below : Float → ℤ → Bool) where
  -- An argument that was validated is None, or passes its fragment.
  get-checked :
      (k : String) (v : Json Float) (d : Dict Float) (ps : Params) (f : Fragment)
      → check_args below (drop_nulls d) ps ≡ none
      → get k d ≡ some v
      → param k ps ≡ some f
      → (is_null v ≡ true) ⊎ (check_arg below k v f ≡ none)
  unfolding check_args
  get-checked k v [] ps f ok found known = absurd (ground arith)
  get-checked k v ((j, w) ∷ d) ps f ok found known = elim (Bool-cases (is_null w)) [
    | inl dropped ↦ ground (arith, dropped, str_eq_iff j k, get-checked k v d ps f)
    | inr kept ↦ ground (arith, kept, str_eq_iff j k, get-checked k v d ps f)
  ]

  -- None, or a text.
  IsPeriod : Json Float → Type 0
  IsPeriod v = (v ≡ null) ⊎ ((p : String) × (v ≡ str p))

  checked-IsPeriod : (v : Json Float) → check_arg below "period" v period ≡ none → IsPeriod v
  unfolding check_arg IsPeriod
  checked-IsPeriod null e = inl refl
  checked-IsPeriod (str p) e = inr (p, refl)
  checked-IsPeriod (bool b) e = absurd (ground (arith, e))
  checked-IsPeriod (int n) e = absurd (ground (arith, e))
  checked-IsPeriod (num x) e = absurd (ground (arith, e))
  checked-IsPeriod (arr xs) e = absurd (ground (arith, e))
  checked-IsPeriod (obj fs) e = absurd (ground (arith, e))

  null-IsPeriod : (v : Json Float) → is_null v ≡ true → IsPeriod v
  unfolding IsPeriod
  null-IsPeriod null e = inl refl
  null-IsPeriod (str p) e = inr (p, refl)
  null-IsPeriod (bool b) e = absurd (ground arith)
  null-IsPeriod (int n) e = absurd (ground arith)
  null-IsPeriod (num x) e = absurd (ground arith)
  null-IsPeriod (arr xs) e = absurd (ground arith)
  null-IsPeriod (obj fs) e = absurd (ground arith)

  -- The arguments of a callable `trend` step were checked.
  trend-checked :
      (d : Dict Float)
      → validate below (str "trend") d ≡ callable
      → check_args below d trend_params ≡ none
  unfolding validate
  trend-checked d h = elim (Option-cases (check_args below d trend_params)) [
    | inl passed ↦ passed
    | inr (r, e) ↦ absurd (ground (arith, e))
  ]

  compare-callable :
      (v : Json Float) (b : Bucket)
      → IsPeriod v
      → validate below
          (str "compare_periods")
          (drop_nulls (("period", v) ∷ ("by", str (bucket_name b)) ∷ []))
        ≡ callable
  unfolding IsPeriod validate
  compare-callable v month (inl e) = rw e refl
  compare-callable v week (inl e) = rw e refl
  compare-callable v month (inr (p, e)) = rw e refl
  compare-callable v week (inr (p, e)) = rw e refl

  level_step-IsCallable : (v : Json Float) → IsPeriod v → IsCallable below (level_step v)
  unfolding effective_args
  level_step-IsCallable v h = compare-callable v (bucket_of v) h

  is_text-eq : (text : String) (v : Json Float) → is_text text v ≡ true → v ≡ str text
  is_text-eq text (str t) h = ap str ((str_eq_iff t text).0 h)
  is_text-eq text null h = absurd (ground arith)
  is_text-eq text (bool b) h = absurd (ground arith)
  is_text-eq text (int n) h = absurd (ground arith)
  is_text-eq text (num x) h = absurd (ground arith)
  is_text-eq text (arr xs) h = absurd (ground arith)
  is_text-eq text (obj fs) h = absurd (ground arith)

  get_or_null-IsPeriod :
      (d : Dict Float)
      → check_args below (drop_nulls d) trend_params ≡ none
      → IsPeriod (get_or_null "period" d)
  get_or_null-IsPeriod d ok = elim (Option-cases (get "period" d)) [
    | inl missing ↦
        let e : get_or_null "period" d ≡ null = ground (arith, missing) in
        rw e (null-IsPeriod null refl)
    | inr (v, found) ↦
        let e : get_or_null "period" d ≡ v = ground (arith, found) in
        rw e (elim (get-checked "period" v d trend_params period ok found (unfold param in refl)) [
          | inl dropped ↦ null-IsPeriod v dropped
          | inr checked ↦ checked-IsPeriod v checked
        ])
  ]

  trend-IsPeriod :
      (t : PlanStep Float)
      → is_tool "trend" t ≡ true
      → IsCallable below t
      → IsPeriod (get_or_null "period" t.args)
  unfolding effective_args
  trend-IsPeriod t h ok =
      get_or_null-IsPeriod t.args
        (trend-checked (drop_nulls t.args) (rw (is_text-eq "trend" t.tool h) at ok))

  first_trend-IsTrend :
      (steps : List (PlanStep Float)) (t : PlanStep Float)
      → All (IsCallable below) steps
      → first_trend steps ≡ some t
      → (is_tool "trend" t ≡ true) × IsCallable below t
  unfolding first_trend
  first_trend-IsTrend [] t ok e = absurd (ground arith)
  first_trend-IsTrend (s ∷ steps) t ok e = elim (Bool-cases (is_tool "trend" s && reads_torque s)) [
    | inl is_trend ↦
        let same : s ≡ t = ground (arith, is_trend) in rw (← same) (ground (arith, is_trend), ok.0)
    | inr other ↦ first_trend-IsTrend steps t ok.1 (ground (arith, other))
  ]

  has_compare-append :
      (steps : List (PlanStep Float)) (v : Json Float)
      → has_compare (steps ++ level_step v ∷ []) ≡ true
  unfolding has_compare
  has_compare-append [] v = refl
  has_compare-append (s ∷ steps) v = ground (arith, has_compare-append steps v)

  -- If the executor's check accepts every step of a plan, it accepts every step of the plan with the
  -- level check, which has no torque trend without a comparison of periods.
  pub with_level_check-lem :
      (p : Plan Float)
      → All (IsCallable below) p.steps
      → All (IsCallable below) (with_level_check p).steps
        × ((first_trend (with_level_check p).steps ≡ none)
            ⊎ (has_compare (with_level_check p).steps ≡ true))
  unfolding with_level_check
  with_level_check-lem p ok = elim (Option-cases (first_trend p.steps)) [
    | inl no_trend ↦
        let same : with_level_check p ≡ p = ground (arith, no_trend) in rw same (ok, inl no_trend)
    | inr (t, e) ↦ elim (Bool-cases (has_compare p.steps)) [
      | inl compared ↦
          let same : with_level_check p ≡ p = ground (arith, e, compared) in
          rw same (ok, inr compared)
      | inr alone ↦
          let v = get_or_null "period" t.args in
          let longer : (with_level_check p).steps ≡ p.steps ++ level_step v ∷ [] =
            ground (arith, e, alone) in
          let is_trend = first_trend-IsTrend p.steps t ok e in
          let added = level_step-IsCallable v (trend-IsPeriod t is_trend.0 is_trend.1) in
          rw longer (
            All-append (IsCallable below) p.steps (level_step v ∷ []) ok (added, tt),
            inr (has_compare-append p.steps v),
          )
    ]
  ]
