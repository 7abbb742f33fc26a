-- ===== src/Agent/Tests.antt =====
-- Runs of the agent: floats are integers, and `str.lower` does nothing.
use quer_project_q.Common.{
  ◌<◌, String, ◌≡◌, refl, true, none, some, inl, ◌⊎◌, [], ◌∷◌, arith, All, ℤ, pos, ltb_ℤ, eqb_ℤ,
  false, ◌+◌,
}
use quer_project_q.Cleaning.Floats.{Floats}
use quer_project_q.Agent.Registry.Validate.{check_args, callable, validate}
use quer_project_q.Agent.Registry.Schema.{all_args}
use quer_project_q.Agent.Registry.Schema.Permissive.{validate-permissive}
use quer_project_q.Agent.Json.{int, Json, null, str, arr, obj, nil, cons, Fields, end, field, Dict}
use quer_project_q.Cleaning.Extract.{is_reject}
use quer_project_q.Agent.Registry.Strip.{unsupported}
use quer_project_q.Agent.Registry.{find_tool}
use quer_project_q.Agent.Status.{Decoded, decode}
use quer_project_q.Agent.Status.Bits.{bit_value, bits_of, decode-bits}
use quer_project_q.Agent.Plan.{
  ReportType, no_keyword, keyword_matches, llm, PlanStep, Plan, effective_args,
}
use quer_project_q.Agent.Router.{best, score, route, steps_of, period_json}
use quer_project_q.Agent.Router.Choice.{IsChoice, route-IsChoice}
use quer_project_q.Agent.Planner.{
  Python, has_payload, known_tool, plan, select, classify, selected_step, plan_question,
}
use quer_project_q.Agent.Planner.Calls.{Answered, plan_question-Answered}
use quer_project_q.Agent.Planner.Selected.Steps.{HasVerdict, verdict, selected_step-HasVerdict}
use quer_project_q.Agent.Planner.Selected.{ChosenFor, plan_question-Chosen}
use quer_project_q.Agent.Executor.{Outcome, raised, other, Fingerprint, unavailable, execute}
use quer_project_q.Agent.Executor.Traced.{Executed, execute-Executed}
use quer_project_q.Agent.Executor.Independence.{Agrees, execute-Agrees}
use quer_project_q.Agent.Executor.Answers.{
  answer, ClassifyAnswers, AnsweredBy, answer-plan, answer-classify,
}

abbrev whole : Python ℤ
whole = record {
  below = ltb_ℤ;
  zero_float = λ n. eqb_ℤ n (pos 0);
  dict_of_items = λ xs. none;
  lower = λ s. s;
}

-- A tool that raises, and one that returns no result.
abbrev raising : Json ℤ → Dict ℤ → Outcome ℤ
raising tool args = raised "ValueError"

abbrev useless : Json ℤ → Dict ℤ → Outcome ℤ
useless tool args = other "dict"

abbrev no_store : Fingerprint ℤ
no_store = unavailable "IOException"

-- A model's plan with a torque trend and no comparison.
abbrev trend_args : Fields ℤ
trend_args = field "period" (str "2026-03") (field "by" null end)

abbrev trend_reply : Dict ℤ
trend_reply =
    ("goal", str "the torque")
    ∷ (
      "steps",
      arr (cons (obj (field "tool" (str "trend") (field "args" (obj trend_args) end))) nil),
    )
    ∷ []

abbrev trend_step : PlanStep ℤ
trend_step = record {
  tool = str "trend";
  args = ("period", str "2026-03") ∷ ("by", null) ∷ [];
  rationale = str "";
}

abbrev trend_plan : Plan ℤ
trend_plan = record {
  goal = str "the torque";
  steps = trend_step ∷ [];
  source = llm;
  note = [];
  question = "";
}

abbrev bad_plan : Plan ℤ
bad_plan = record trend_plan {
  steps = selected_step (some "2026-03") (str "methodology") ∷ trend_step ∷ [];
}

plan_question-Answered_example :
    Answered whole true "did it drift?"
      (has_payload trend_reply)
      (plan_question whole plan true "did it drift?" (some "2026-03") (has_payload trend_reply))
plan_question-Answered_example =
    plan_question-Answered whole true "did it drift?" (some "2026-03") (has_payload trend_reply)

abbrev report_reply : Dict ℤ
report_reply = ("report", str "drift") ∷ []

abbrev names_reply : Dict ℤ
names_reply = ("tools", arr (cons (str "overview") (cons (str "methodology") nil))) ∷ []

plan_question-Chosen_example :
    ChosenFor whole true "how?"
      (has_payload names_reply)
      (plan_question whole select true "how?" (some "2026-03") (has_payload names_reply))
plan_question-Chosen_example =
    plan_question-Chosen whole true "how?" (some "2026-03") (has_payload names_reply)

selected_step-HasVerdict_example :
    HasVerdict ltb_ℤ (some "2026-03") "methodology" (verdict ltb_ℤ (some "2026-03") "methodology")
unfolding known_tool find_tool
selected_step-HasVerdict_example =
    selected_step-HasVerdict ltb_ℤ (some "2026-03") "methodology" refl

abbrev trend_question : String
trend_question = "did the trend drift?"

route-IsChoice_example :
    let q = trend_question in
    let plan : Plan ℤ = route (λ s. s) q none in
    let b = best (λ s. s) q in
    IsChoice (λ s. s) q b
    × (plan.steps ≡ steps_of b (period_json none))
    × (((score (λ s. s) q b ≡ 0) × (b ≡ ReportType.kpi) × (plan.note ≡ no_keyword ∷ []))
        ⊎ ((0 < score (λ s. s) q b) × (plan.note ≡ keyword_matches b (score (λ s. s) q b) ∷ [])))
route-IsChoice_example = route-IsChoice (λ s. s) trend_question none

execute-Executed_example :
    Executed ltb_ℤ raising bad_plan no_store (execute ltb_ℤ raising no_store bad_plan)
execute-Executed_example = execute-Executed ltb_ℤ raising bad_plan no_store

-- The tools differ, and the plan's one step is refused.
abbrev refused_plan : Plan ℤ
refused_plan = record trend_plan { steps = selected_step (some "2026-03") (str "methodology") ∷ [] }

refused_plan-Agrees : All (Agrees ltb_ℤ raising useless) refused_plan.steps
unfolding validate effective_args selected_step
refused_plan-Agrees = (inl (λ e. ground (arith, e)), tt)

execute-Agrees_example :
    execute ltb_ℤ raising no_store refused_plan ≡ execute ltb_ℤ useless no_store refused_plan
execute-Agrees_example =
    execute-Agrees ltb_ℤ raising useless no_store refused_plan refused_plan-Agrees

answer-plan_example : AnsweredBy whole raising true "did it drift?" (has_payload trend_reply) (
    answer whole raising plan true "did it drift?"
      (some "2026-03")
      (has_payload trend_reply)
      no_store)
answer-plan_example =
    answer-plan whole raising true "did it drift?" (some "2026-03") (has_payload trend_reply)
      no_store

answer-classify_example :
    ClassifyAnswers whole raising true "why?" none
      (has_payload report_reply)
      (answer whole raising classify true "why?" none (has_payload report_reply) no_store)
answer-classify_example =
    answer-classify whole raising true "why?" none (has_payload report_reply) no_store

-- A status is an integer.
abbrev statuses : Floats
statuses = record {
  Float = ℤ;
  parse = λ s. none;
  round = λ n. some n;
  to_int = λ n. some n;
  is_nan = λ n. false;
  above = λ n m. ltb_ℤ m n;
  equals = eqb_ℤ;
}

decode-run : decode statuses (pos 9) ≡ some (record { reject = true; names = "No InTorque" ∷ [] })
unfolding decode
decode-run = refl

decode-bits_example :
    (d : Decoded) × (decode statuses (pos 69) ≡ some d)
    × (bit_value d.reject 1 + bits_of d.names ≡ 69)
    × (is_reject statuses (pos 69) ≡ some d.reject)
decode-bits_example = decode-bits statuses (pos 69) (pos 69) refl

abbrev window_args : Dict ℤ
window_args = ("period", str "2026-03") ∷ ("by", str "hour") ∷ ("window", int (pos 7)) ∷ []

window_args-validate : validate ltb_ℤ (str "trend") window_args ≡ callable
unfolding validate
window_args-validate = refl

validate-permissive_example : check_args ltb_ℤ window_args all_args ≡ none
validate-permissive_example = validate-permissive ltb_ℤ "trend" window_args window_args-validate

-- A bounded integer's schema.
abbrev bounded : Fields ℤ
bounded = field "type" (str "integer") (field "minimum" (int (pos 1)) end)

type-unsupported : unsupported "type" ≡ false
unfolding unsupported
type-unsupported = refl
