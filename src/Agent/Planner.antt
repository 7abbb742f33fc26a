-- ===== src/Agent/Planner.antt =====
-- python/analytics/agent/planner.py. What `llm.json_call` does is an argument: it returns an
-- object, or a reason and no payload, or it raises. The texts of the prompts are left out. `none` as
-- a result is an exception that leaves `plan`.
pub mod Level
pub mod Calls
pub mod Selected
use text.Mathlib.Text.{find?}
use quer_project_q.Common.{
  String, str_append, Bool, true, false, not, ◌&&◌, ◌||◌, Option, none, some, List, [], ◌∷◌, ◌++◌,
  map, ◌>>=◌, map_option, str_eq, if◌then◌else◌, ℤ,
}
use quer_project_q.Agent.Json.{
  Json, null, bool, int, num, str, arr, obj, Items, nil, cons, items, Fields, end, field, fields,
  Dict, get, get_or_null, is_null, truthy,
}
use quer_project_q.Agent.Plan.{
  ReportType, kpi, drift, anomalies, Bucket, month, week, Source, router, llm, Sentence, no_client,
  planning_failed, not_a_report_type, unknown_tools, no_tools, not_shaped, empty_plan, invalid_plan,
  model_chose, model_selected, level_added, PlanStep, Plan, effective_args,
}
use quer_project_q.Agent.Registry.{tools, find_tool}
use quer_project_q.Agent.Registry.Validate.{Verdict, raises, callable, refused, validate}
use quer_project_q.Agent.Router.{canned_plan, route, period_json, step}

-- `cfg.planning`
pub data Tier : Type 0 where
  plan select classify : Tier

-- What the planner takes from Python: the order of a float and an int, whether a float is zero,
-- `dict(xs)` on a list that is not empty (`none` is its exception), and `str.lower`. In a dict of
-- pairs a key may be no text; it is given as a text that is no argument of any tool, which the
-- planner's check treats alike.
pub record Python (Float : Type 0) : Type 0 where
  pub below : Float → ℤ → Bool
  pub zero_float : Float → Bool
  pub dict_of_items : Items Float → Option (Dict Float)
  pub lower : String → String

-- What a call of the model does: an object, a reason and no payload, or an exception, which the
-- planner does not catch.
pub data Asked (Float : Type 0) : Type 0 where
  has_payload : Dict Float → Asked Float
  no_payload call_raised : Asked Float

abbrev bucket_name : Bucket → String
bucket_name month = "month"
bucket_name week = "week"

module _ {Float : Type 0} where
  -- `choice in REPORT_TYPES`
  unfoldable pub report_type : Json Float → Option ReportType
  report_type (str s) =
      if str_eq s "kpi"
      then some kpi
      else if str_eq s "drift"
      then some drift
      else if str_eq s "anomalies"
      then some anomalies
      else none
  report_type _ = none

  abbrev characters : String → List (Json Float)
  characters String.[] = []
  characters (String.◌∷◌ c s) = str (String.◌∷◌ c String.[]) ∷ characters s

  abbrev keys : Fields Float → List (Json Float)
  keys end = []
  keys (field k v fs) = str k ∷ keys fs

  -- `for x in v`; `none` is the TypeError of a value that cannot be iterated.
  unfoldable pub iterate : Json Float → Option (List (Json Float))
  iterate (arr xs) = some (items xs)
  iterate (obj fs) = some (keys fs)
  iterate (str s) = some (characters s)
  iterate _ = none

  -- `n in TOOLS`; `none` is the TypeError of a value that cannot be a key.
  unfoldable pub known_tool : Json Float → Option Bool
  known_tool (str name) = some (elim (find_tool name tools) [ none ↦ false | some t ↦ true ])
  known_tool (arr xs) = none
  known_tool (obj fs) = none
  known_tool _ = some false

  -- Whether a name is unknown, `bool([n for n in names if n not in TOOLS])`.
  unfoldable pub any_unknown : List (Json Float) → Option Bool
  unfolding known_tool
  any_unknown [] = some false
  any_unknown (n ∷ names) = do
    known ← known_tool n
    rest ← any_unknown names
    some (not known || rest)

  unfoldable pub selected_step : Option String → Json Float → PlanStep Float
  selected_step period name = record {
    tool = name;
    args = ("period", period_json period) ∷ [];
    rationale = str "selected by the model; arguments left at their defaults";
  }

  -- `v == text`
  abbrev pub is_text : String → Json Float → Bool
  is_text text (str t) = str_eq t text
  is_text text _ = false

  -- `s.tool == name`
  abbrev pub is_tool : String → PlanStep Float → Bool
  is_tool name s = is_text name s.tool

  -- `effective_args(s).get("signal", "torque") == "torque"`
  abbrev pub reads_torque : PlanStep Float → Bool
  reads_torque s = elim (get "signal" (effective_args s)) [
    | none ↦ true
    | some v ↦ is_text "torque" v
  ]

  -- `trends[0]`
  unfoldable pub first_trend : List (PlanStep Float) → Option (PlanStep Float)
  first_trend [] = none
  first_trend (s ∷ steps) =
      let rest = first_trend steps in if is_tool "trend" s && reads_torque s then some s else rest

  unfoldable pub has_compare : List (PlanStep Float) → Bool
  has_compare [] = false
  has_compare (s ∷ steps) = is_tool "compare_periods" s || has_compare steps

  -- `period is None or ".." in str(period)`: only a text can hold two dots in a plan whose steps
  -- were validated.
  abbrev pub bucket_of : Json Float → Bucket
  bucket_of null = month
  bucket_of (str p) = elim (find? p "..") [ none ↦ week | some i ↦ month ]
  bucket_of _ = week

  abbrev pub level_step : Json Float → PlanStep Float
  level_step period =
      step "compare_periods"
        (("period", period) ∷ ("by", str (bucket_name (bucket_of period))) ∷ [])
        (str_append "Added by the system: the torque of each " (
          str_append (bucket_name (bucket_of period))
            " side by side, because a drift test reads a steady trend and misses a step in level."))

  unfoldable pub with_level_check : Plan Float → Plan Float
  with_level_check p = elim (first_trend p.steps) [
    | none ↦ p
    | some t ↦
        if has_compare p.steps
        then p
        else (let period = get_or_null "period" t.args in
            record p {
              steps = p.steps ++ level_step period ∷ [];
              note = p.note ++ level_added (bucket_of period) ∷ [];
            })
  ]

  abbrev amend : Plan Float → Plan Float
  amend p = elim p.source [ llm ↦ with_level_check p | router ↦ p ]

module _ {Float : Type 0} (Py : Python Float) where
  open Py use {below, zero_float, dict_of_items, lower}

  unfoldable pub fallback : String → Option String → Sentence → Plan Float
  fallback question period why =
      let routed = route lower question period in record routed { note = why ∷ routed.note }

  unfoldable pub classify_plan : String → Option String → Asked Float → Option (Plan Float)
  unfolding fallback
  classify_plan question period call_raised = none
  classify_plan question period no_payload = some (fallback question period planning_failed)
  classify_plan question period (has_payload payload) =
      elim (report_type (get_or_null "report" payload)) [
        | none ↦ some (fallback question period not_a_report_type)
        | some choice ↦
            some
              (record (canned_plan choice period) { source = llm; note = model_chose choice ∷ [] })
      ]

  -- `payload.get("goal") or question`
  abbrev goal_or : String → Dict Float → Json Float
  goal_or question payload =
      let goal = get_or_null "goal" payload in if truthy zero_float goal then goal else str question

  unfoldable pub select_names :
      String → Option String → Dict Float → List (Json Float) → Option (Plan Float)
  unfolding fallback any_unknown
  select_names question period payload names = any_unknown names >>= λ unknown. some (
      if unknown then fallback question period unknown_tools else elim names [
        | [] ↦ fallback question period no_tools
        | n ∷ ns ↦ record {
          goal = goal_or question payload;
          steps = map (selected_step period) (n ∷ ns);
          source = llm;
          note = model_selected ∷ [];
          question = "";
        }
      ])

  unfoldable pub select_plan : String → Option String → Asked Float → Option (Plan Float)
  unfolding select_names
  select_plan question period call_raised = none
  select_plan question period no_payload = some (fallback question period planning_failed)
  select_plan question period (has_payload payload) =
      let names = get_or_null "tools" payload in
      (if truthy zero_float names then iterate names else some [])
      >>= select_names question period payload

  -- `dict(v)`; `none` is its exception, as it is in the two that follow.
  unfoldable pub dict_of : Json Float → Option (Dict Float)
  dict_of (obj fs) = some (fields fs)
  dict_of (arr nil) = some []
  dict_of (arr (cons x xs)) = dict_of_items (cons x xs)
  dict_of (str s) = if str_eq s "" then some [] else none
  dict_of _ = none

  unfoldable pub step_of : Json Float → Option (PlanStep Float)
  unfolding dict_of
  step_of (obj fs) = do
    tool ← get "tool" (fields fs)
    a ← get "args" (fields fs)
    args ← dict_of a
    some (record {
      tool = tool;
      args = args;
      rationale = elim (get "rationale" (fields fs)) [ none ↦ str "" | some r ↦ r ];
    })
  step_of _ = none

  unfoldable pub steps_of_payload : Dict Float → Option (List (PlanStep Float))
  unfolding step_of iterate
  steps_of_payload payload = do v ← get "steps" payload; vs ← iterate v; map_option step_of vs

  -- The loop over `validate_step`: the first refusal, if any.
  unfoldable pub first_refusal : List (PlanStep Float) → Verdict
  first_refusal [] = callable
  first_refusal (s ∷ steps) =
      let rest = first_refusal steps in
      elim (validate below s.tool (effective_args s)) [
        | raises ↦ raises
        | refused r ↦ refused r
        | callable ↦ rest
      ]

  unfoldable pub compose_plan : String → Option String → Asked Float → Option (Plan Float)
  unfolding fallback first_refusal
  compose_plan question period call_raised = none
  compose_plan question period no_payload = some (fallback question period planning_failed)
  compose_plan question period (has_payload payload) = elim (steps_of_payload payload) [
    | none ↦ some (fallback question period not_shaped)
    | some [] ↦ some (fallback question period empty_plan)
    | some (s ∷ steps) ↦ elim (first_refusal (s ∷ steps)) [
      | raises ↦ none
      | refused r ↦ some (fallback question period (invalid_plan r))
      | callable ↦ some (record {
        goal = goal_or question payload;
        steps = s ∷ steps;
        source = llm;
        note = [];
        question = "";
      })
    ]
  ]

  -- `_TIERS[cfg.planning]`, and the amendment of the `plan` tier
  unfoldable pub tier_plan : Tier → String → Option String → Asked Float → Option (Plan Float)
  unfolding classify_plan select_plan compose_plan with_level_check
  tier_plan classify question period reply = classify_plan question period reply
  tier_plan select question period reply = select_plan question period reply
  tier_plan plan question period reply = compose_plan question period reply >>= λ p. some (amend p)

  -- `plan`, given whether there is a client.
  unfoldable pub plan_question :
      Tier → Bool → String → Option String → Asked Float → Option (Plan Float)
  unfolding tier_plan fallback
  plan_question tier has_client question period reply =
      (if has_client
        then tier_plan tier question period reply
        else some (fallback question period no_client))
      >>= λ p. some (record p { question = question })
