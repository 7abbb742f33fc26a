-- ===== src/Agent/Plan.antt =====
-- python/analytics/agent/plan.py. A tool's name and a rationale are JSON: a reply of the model may
-- hold anything there. The sentences of a note are constructors, and a note is their list.
use quer_project_q.Common.{ℕ, String, List, [], ◌∷◌, if◌then◌else◌}
use quer_project_q.Agent.Json.{Json, Dict, is_null}

pub data ReportType : Type 0 where
  kpi drift anomalies : ReportType

pub data Bucket : Type 0 where
  month week : Bucket

pub data Source : Type 0 where
  router llm : Source

-- Why `validate_step` refuses a step, with the argument's name.
pub data Reason : Type 0 where
  unknown_tool : Reason
  no_argument not_allowed wrong_type below_minimum too_many item_type item_minimum : String → Reason

pub data Sentence : Type 0 where
  no_keyword : Sentence
  keyword_matches : ReportType → ℕ → Sentence
  no_client planning_failed not_a_report_type : Sentence
  unknown_tools no_tools not_shaped empty_plan : Sentence
  invalid_plan : Reason → Sentence
  model_chose : ReportType → Sentence
  model_selected : Sentence
  level_added : Bucket → Sentence

module _ (Float : Type 0) where
  pub record PlanStep : Type 0 where
    pub tool : Json Float
    pub args : Dict Float
    pub rationale : Json Float

  pub record Plan : Type 0 where
    pub goal : Json Float
    pub steps : List PlanStep
    pub source : Source
    pub note : List Sentence
    pub question : String

module _ {Float : Type 0} where
  -- { k: v for k, v in d.items() if v is not None }
  abbrev pub drop_nulls : Dict Float → Dict Float
  drop_nulls [] = []
  drop_nulls ((k, v) ∷ d) = let rest = drop_nulls d in if is_null v then rest else (k, v) ∷ rest

  unfoldable pub effective_args : PlanStep Float → Dict Float
  effective_args step = drop_nulls step.args
