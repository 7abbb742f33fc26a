-- ===== src/Agent/Router.antt =====
-- python/analytics/agent/router.py: the fixed plans, and the choice of one by keywords.
pub mod Choice
use Prim.Native.Nat.{max}
use text.Mathlib.Text.{find?}
use quer_project_q.Common.{
  ℕ, ◌+◌, String, str_append, Bool, true, false, Option, none, some, List, [], ◌∷◌, ◌==◌, leb, ltb,
  str_eq, if◌then◌else◌, ℤ, pos,
}
use quer_project_q.Agent.Json.{Json, str, int, null, Dict}
use quer_project_q.Agent.Plan.{
  ReportType, kpi, drift, anomalies, router, Sentence, no_keyword, keyword_matches, PlanStep, Plan,
}

-- `REPORT_TYPES`
abbrev pub report_types : List ReportType
report_types = kpi ∷ drift ∷ anomalies ∷ []

-- `_TITLES`
abbrev pub title : ReportType → String
title kpi = "Capping KPI report"
title drift = "Torque drift report"
title anomalies = "Anomaly report"

-- `_KEYWORDS`
abbrev pub keywords : ReportType → List String
keywords drift =
    "drift" ∷ "drifting" ∷ "trend" ∷ "over time" ∷ "evolve" ∷ "evolved" ∷ "change over"
    ∷ "changed over" ∷ "moving average" ∷ "walking" ∷ "correlate" ∷ "correlation" ∷ "differently"
    ∷ "compare" ∷ "worse" ∷ []
keywords anomalies =
    "anomaly" ∷ "anomalies" ∷ "anomalous" ∷ "abnormal" ∷ "outlier" ∷ "outside" ∷ "threshold"
    ∷ "fault" ∷ "faults" ∷ "reject" ∷ "rejected" ∷ "deviation" ∷ "unusual" ∷ "spike" ∷ []
keywords kpi =
    "kpi" ∷ "success" ∷ "successful" ∷ "rate" ∷ "how many" ∷ "percentage" ∷ "throughput" ∷ "speed"
    ∷ "pieces" ∷ "idle" ∷ "count" ∷ "overview" ∷ "summary" ∷ "performed" ∷ "stopped" ∷ "downtime"
    ∷ []

-- `period or "the whole store"`
abbrev scope : Option String → String
scope none = "the whole store"
scope (some p) = if str_eq p "" then "the whole store" else p

module _ {Float : Type 0} where
  -- None, or the text of the period
  abbrev pub period_json : Option String → Json Float
  period_json none = null
  period_json (some p) = str p

  abbrev pub text_arg : String → String → String × Json Float
  text_arg k v = (k, str v)

  abbrev pub step : String → Dict Float → String → PlanStep Float
  step tool args rationale = record { tool = str tool; args = args; rationale = str rationale }

  -- `_steps`
  unfoldable pub steps_of : ReportType → Json Float → List (PlanStep Float)
  steps_of kpi period =
      step "overview" (("period", period) ∷ [])
        "Establish the scope: counts, heads, time range, data-quality flags."
      ∷ step "success_rates" (("period", period) ∷ text_arg "by" "overall" ∷ [])
          "The headline KPI the brief asks for first."
      ∷ step "success_rates" (("period", period) ∷ text_arg "by" "head" ∷ [])
          "Per-head breakdown, to name the weakest head."
      ∷ step "capping_speed" (("period", period) ∷ text_arg "bucket" "day" ∷ [])
          "Production rate in pieces/hour, day by day."
      ∷ step "idle_periods" (("period", period) ∷ [])
          "Sustained No-Load runs, to separate downtime from failure."
      ∷ []
  steps_of drift period =
      step "trend"
        (("period", period)
          ∷ text_arg "signal" "torque"
          ∷ text_arg "by" "day"
          ∷ ("window", int (pos 7))
          ∷ [])
        "Rolling mean/sigma of torque per head, with Mann-Kendall drift."
      ∷ step "trend"
          (("period", period)
            ∷ text_arg "signal" "success_rate"
            ∷ text_arg "by" "day"
            ∷ ("window", int (pos 7))
            ∷ [])
          "Whether quality moved with torque, or independently of it."
      ∷ step "torque_stats"
          (("period", period) ∷ text_arg "outcome" "successful" ∷ text_arg "by" "head" ∷ [])
          "Variability ranking, to separate a drifting head from a noisy one."
      ∷ step "head_correlation" (("period", period) ∷ text_arg "by" "day" ∷ [])
          "Which head is out of step with the rest of the machine."
      ∷ []
  steps_of anomalies period =
      step "anomalies" (("period", period) ∷ text_arg "method" "both" ∷ [])
        "Threshold hits, robust per-head deviation, and rejected closures."
      ∷ step "overview" (("period", period) ∷ [])
          "Denominator for every count above, plus data-quality flags."
      ∷ step "success_rates" (("period", period) ∷ text_arg "by" "day" ∷ [])
          "Daily rates, to place any abnormal interval in context."
      ∷ []

  unfoldable pub canned_plan : ReportType → Option String → Plan Float
  unfolding steps_of
  canned_plan report_type period = record {
    goal =
        str (str_append (title report_type) (str_append " for " (str_append (scope period) ".")));
    steps = steps_of report_type (period_json period);
    source = router;
    note = [];
    question = "";
  }

-- `kw in lowered`
abbrev occurs : String → String → Bool
occurs kw lowered = elim (find? lowered kw) [ none ↦ false | some _ ↦ true ]

-- `sum(1 for kw in words if kw in lowered)`
unfoldable pub matches : String → List String → ℕ
matches lowered [] = 0
matches lowered (kw ∷ words) = (if occurs kw lowered then 1 else 0) + matches lowered words

-- `max` by the pair of the score and the place from the end: of equal scores the earlier one.
unfoldable pub best_of : (ReportType → ℕ) → ReportType → List ReportType → ReportType
best_of score best [] = best
best_of score best (r ∷ rs) = best_of score (if ltb (score best) (score r) then r else best) rs

-- `str.lower` is a parameter.
module _ (lower : String → String) where
  abbrev pub score : String → ReportType → ℕ
  score question r = matches (lower question) (keywords r)

  abbrev pub best : String → ReportType
  best question = best_of (score question) kpi (drift ∷ anomalies ∷ [])

  unfoldable pub route : {Float : Type 0} → String → Option String → Plan Float
  route question period =
      let none_matched = score question (best question) == 0 in
      let chosen = if none_matched then kpi else best question in
      record (canned_plan chosen period) {
        goal = str (str_append "Answer: " question);
        note =
            (if none_matched then no_keyword else keyword_matches chosen (score question chosen))
            ∷ [];
      }
