-- ===== src/Report/Tests.antt =====
-- Runs of the report's figures: a repeated trend, and a day without rejects. Floats are integers.
use quer_project_q.Common.{◌≡◌, refl, Bool, true, false, none, some, [], ◌∷◌, ℤ, pos, eqb_ℤ, String}
use quer_project_q.Agent.Json.{Json, null, str, int, obj, field, end}
use quer_project_q.Agent.Plan.{PlanStep, llm, effective_args}
use quer_project_q.Agent.Executor.{Execution, ToolResult, ok, text, unavailable}
use quer_project_q.Report.Figures.{
  FigureKey, success_by_day, torque_trend, drift, planned_figures, drawn_figures, file_name,
}
use quer_project_q.Report.Figures.Names.{figures-AreDistinct}
use quer_project_q.Report.Figures.Fresh.{AreDistinct}

abbrev step : String → String → PlanStep ℤ
step tool by = record { tool = str tool; args = ("by", str by) ∷ []; rationale = null }

abbrev result : String → ToolResult ℤ
result tool = record {
  tool = str tool;
  status = ok;
  values = obj (field "n" (int (pos 1)) end);
  provenance = record { period = null; rows_scanned = 1; filters = []; assumptions = [] };
  message = text "";
}

abbrev execution : Execution ℤ
execution = record {
  plan = record {
    goal = str "drift";
    steps = step "trend" "day" ∷ step "success_rates" "day" ∷ step "trend" "hour" ∷ [];
    source = llm;
    note = [];
    question = "why?";
  };
  results = result "trend" ∷ result "success_rates" ∷ result "trend" ∷ [];
  trace = [];
  store = unavailable "IOException";
}

abbrev is_zero : ℤ → Bool
is_zero n = eqb_ℤ n (pos 0)

-- No rejects: the plot by day draws nothing.
abbrev no_rejects : FigureKey → Json ℤ → Bool
no_rejects success_by_day v = false
no_rejects k v = true

figures-AreDistinct_example :
    AreDistinct (planned_figures is_zero execution)
    × AreDistinct (drawn_figures is_zero no_rejects execution)
figures-AreDistinct_example = figures-AreDistinct is_zero no_rejects execution

-- The day's figure is planned and not drawn.
drawn_less :
    drawn_figures is_zero no_rejects execution
    ≡ record { key = torque_trend; step = none }
      ∷ record { key = drift; step = none }
      ∷ record { key = torque_trend; step = some 3 }
      ∷ record { key = drift; step = some 3 }
      ∷ []
unfolding drawn_figures effective_args
drawn_less = refl

repeated_name :
    file_name (λ n. "3") (record { key = drift; step = some 3 }) ≡ "drift_ranking_step3.png"
unfolding file_name
repeated_name = refl
