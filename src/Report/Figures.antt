-- ===== src/Report/Figures.antt =====
-- `_figure_keys`, `planned_figures` and `_figures` of python/analytics/report/render.py. What a plot
-- needs of a result's values, beyond that they are there, is a parameter, as is the drawing.
pub mod Drawn
pub mod Fresh
pub mod Names
use quer_project_q.Common.{
  ℕ, suc, String, Bool, true, false, not, ◌&&◌, ◌||◌, Option, none, some, List, [], ◌∷◌, ◌++◌, map,
  str_eq, str_append, if◌then◌else◌, ◌==◌,
}
use quer_project_q.Agent.Json.{Json, str, Dict, get, get_or_null, truthy}
use quer_project_q.Agent.Plan.{PlanStep, effective_args}
use quer_project_q.Agent.Executor.{Status, ok, insufficient_data, error, Execution, ToolResult}

-- The keys of `_PLOTTERS`.
pub data FigureKey : Type 0 where
  success_by_head success_by_day speed torque_trend drift anomalies histogram failure_by_hour :
      FigureKey

-- `_FIGURE_STEMS`
abbrev pub stem : FigureKey → String
stem success_by_head = "success_rate_per_head"
stem success_by_day = "failed_closures_per_day"
stem speed = "capping_speed"
stem torque_trend = "torque_rolling_mean"
stem drift = "drift_ranking"
stem anomalies = "anomalies_over_time"
stem histogram = "torque_histogram"
stem failure_by_hour = "failure_by_hour"

abbrev key_number : FigureKey → ℕ
key_number success_by_head = 0
key_number success_by_day = 1
key_number speed = 2
key_number torque_trend = 3
key_number drift = 4
key_number anomalies = 5
key_number histogram = 6
key_number failure_by_hour = 7

-- Equality of keys.
abbrev pub same_key : FigureKey → FigureKey → Bool
same_key j k = key_number j == key_number k

-- `key in seen`
abbrev pub was_seen : FigureKey → List FigureKey → Bool
was_seen k [] = false
was_seen k (j ∷ seen) = same_key k j || was_seen k seen

-- What is seen after so many keys.
abbrev pub seen_after : List FigureKey → List FigureKey → List FigureKey
seen_after seen [] = seen
seen_after seen (k ∷ ks) = seen_after (k ∷ seen) ks

-- A figure: `step` is the number in its suffix, `none` for a plain name.
pub record Figure : Type 0 where
  pub key : FigureKey
  pub step : Option ℕ

-- The suffix of a figure, by the step's number and the keys that were seen.
abbrev pub figure_at : ℕ → List FigureKey → FigureKey → Figure
figure_at index seen k = record { key = k; step = if was_seen k seen then some index else none }

module _ {Float : Type 0} (zero_float : Float → Bool) where
  abbrev is_str : String → Json Float → Bool
  is_str s (str t) = str_eq t s
  is_str s v = false

  -- `args.get(key, default)`
  abbrev get_default : String → String → Dict Float → Json Float
  get_default key d args = elim (get key args) [ none ↦ str d | some v ↦ v ]

  -- `_figure_keys`
  unfoldable pub figure_keys : Json Float → Dict Float → List FigureKey
  figure_keys tool args =
      if is_str "success_rates" tool
      then (if is_str "head" (get_default "by" "head" args)
          then success_by_head ∷ []
          else if is_str "day" (get_default "by" "head" args)
          then success_by_day ∷ []
          else [])
      else if is_str "capping_speed" tool
      then speed ∷ []
      else if is_str "trend" tool && is_str "torque" (get_default "signal" "torque" args)
      then torque_trend ∷ drift ∷ []
      else if is_str "anomalies" tool
      then anomalies ∷ []
      else if is_str "torque_stats" tool && not (truthy zero_float (get_or_null "by" args))
      then histogram ∷ []
      else if is_str "failure_correlation" tool
          && is_str "hour_of_day" (get_default "by" "hour_of_day" args)
      then failure_by_hour ∷ []
      else []

  abbrev is_ok : Status → Bool
  is_ok ok = true
  is_ok insufficient_data = false
  is_ok error = false

  -- result.status == "ok" and result.values
  abbrev pub usable : ToolResult Float → Bool
  usable r = is_ok r.status && truthy zero_float r.values

  -- The loop over a step's keys and the loop over the steps: a key is seen whether or not its
  -- figure is there. `there k r` is whether it is.
  module _ (there : FigureKey → ToolResult Float → Bool) where
    unfoldable pub step_figures :
        ToolResult Float → ℕ → List FigureKey → List FigureKey → List Figure
    step_figures r index seen [] = []
    step_figures r index seen (k ∷ ks) =
        let rest = step_figures r index (k ∷ seen) ks in
        if there k r then figure_at index seen k ∷ rest else rest

    unfoldable pub figures_from :
        ℕ → List FigureKey → List (PlanStep Float) → List (ToolResult Float) → List Figure
    unfolding step_figures figure_keys
    figures_from index seen [] rs = []
    figures_from index seen (s ∷ steps) [] = []
    figures_from index seen (s ∷ steps) (r ∷ rs) =
        let ks = figure_keys r.tool (effective_args s) in
        step_figures r index seen ks ++ figures_from (suc index) (seen_after seen ks) steps rs

  -- `planned_figures`
  unfoldable pub planned_figures : Execution Float → List Figure
  unfolding figures_from
  planned_figures x = figures_from (λ k r. usable r) 1 [] x.plan.steps x.results

  -- `_figures`: `has_data` is the rest of a plot's own test.
  unfoldable pub drawn_figures : (FigureKey → Json Float → Bool) → Execution Float → List Figure
  unfolding figures_from
  drawn_figures has_data x =
      figures_from (λ k r. usable r && has_data k r.values) 1 [] x.plan.steps x.results

-- The file's name; `show` is `str` on an int.
unfoldable pub file_name : (ℕ → String) → Figure → String
file_name show f =
    str_append (stem f.key)
      (str_append (elim f.step [ none ↦ "" | some i ↦ str_append "_step" (show i) ]) ".png")
