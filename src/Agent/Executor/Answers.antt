-- ===== src/Agent/Executor/Answers.antt =====
-- From the question to the results: what the planner lets through, the executor runs.
use quer_project_q.Common.{
  suc, String, ◌≡◌, refl, Bool, true, Option, none, some, List, [], ◌∷◌, ℕ, arith, All, ◌>>=◌, map,
}
use quer_project_q.Agent.Json.{Json, Dict}
use quer_project_q.Agent.Plan.{ReportType, PlanStep, Plan, effective_args}
use quer_project_q.Agent.Router.{steps_of, period_json}
use quer_project_q.Agent.Router.Choice.{IsCallable}
use quer_project_q.Agent.Planner.{Python, Tier, Asked, call_raised, plan, classify, plan_question}
use quer_project_q.Agent.Planner.Calls.{
  IsSound, Escapes, Answered, Classified, plan_question-Answered, plan_question-classify,
}
use quer_project_q.Agent.Executor.{
  trace_entry, call_tool, step_result, run_steps, execute, Outcome, Fingerprint, Execution,
  ToolResult, TraceEntry,
}

module _ {Float : Type 0} (Py : Python Float) (run : Json Float → Dict Float → Outcome Float) where
  open Py use {below}

  -- What the tool of a step gives.
  abbrev pub call : PlanStep Float → ToolResult Float
  call s = call_tool below run s.tool (effective_args s)

  step_result-callable :
      (s : PlanStep Float) → IsCallable below s → step_result below run s ≡ some (call s)
  unfolding step_result
  step_result-callable s ok = ground (arith, ok)

  run_steps-callable :
      (i : ℕ) (steps : List (PlanStep Float))
      → All (IsCallable below) steps
      → (trace : List (TraceEntry Float)) × (run_steps below run i steps
          ≡ some (map call steps, trace))
  unfolding run_steps
  run_steps-callable i [] h = ([], refl)
  run_steps-callable i (s ∷ steps) h =
      let rest = run_steps-callable (suc i) steps h.1 in
      (trace_entry i s (call s) ∷ rest.0, rw (step_result-callable s h.0, rest.1) refl)

  execute-callable :
      (store : Fingerprint Float) (p : Plan Float)
      → All (IsCallable below) p.steps
      → (x : Execution Float) × (execute below run store p ≡ some x)
        × (x.results ≡ map call p.steps)
        × (x.plan ≡ p)
  unfolding execute
  execute-callable store p h =
      let ran = run_steps-callable 1 p.steps h in
      (
        record { plan = p; results = map call p.steps; trace = ran.0; store = store },
        rw ran.1 refl,
        refl,
        refl,
      )

  -- The results of a run are its steps' calls, and its plan is for the question.
  abbrev pub Answers : String → Execution Float → Type 0
  Answers q x = (x.results ≡ map call x.plan.steps) × (x.plan.question ≡ q)

  pub sound-Answers :
      (store : Fingerprint Float) (q : String) (p : Plan Float)
      → IsSound Py q p
      → (x : Execution Float) × (execute below run store p ≡ some x) × Answers q x
  sound-Answers store q p h =
      let ran = execute-callable store p h.0 in (ran.0, ran.1, (rw ran.3 ran.2, rw ran.3 h.1))

  -- `cli.main` on a question: the planner, then the executor.
  unfoldable pub answer :
      Tier
      → Bool
      → String
      → Option String
      → Asked Float
      → Fingerprint Float
      → Option (Execution Float)
  answer tier has_client q p reply store =
      plan_question Py tier has_client q p reply >>= execute below run store

  -- The execution, or the exception of the model's call or of its plan.
  abbrev pub AnsweredBy : Bool → String → Asked Float → Option (Execution Float) → Type 0
  AnsweredBy has_client q reply (some x) = Answers q x
  AnsweredBy has_client q reply none = Escapes Py has_client reply

  execute-Answered :
      (has_client : Bool) (q : String) (reply : Asked Float) (store : Fingerprint Float)
      (o : Option (Plan Float))
      → Answered Py has_client q reply o
      → AnsweredBy has_client q reply (o >>= execute below run store)
  execute-Answered has_client q reply store none h = h
  execute-Answered has_client q reply store (some pl) h =
      let ran = sound-Answers store q pl h.0 in rw ran.1 ran.2

  -- In the `plan` tier a question is answered, but where there is a client and either its call
  -- raises or the model's plan names a tool by a list or a dict. Each result is what the tool of
  -- its step gives: no step of the plan that was run is refused by the executor's check.
  pub answer-plan :
      (has_client : Bool) (q : String) (p : Option String) (reply : Asked Float)
      (store : Fingerprint Float)
      → AnsweredBy has_client q reply (answer plan has_client q p reply store)
  unfolding answer
  answer-plan has_client q p reply store =
      execute-Answered has_client q reply store (plan_question Py plan has_client q p reply)
        (plan_question-Answered Py has_client q p reply)

  -- The execution of the fixed plan of a report type; or there is none.
  abbrev pub ClassifyAnswers :
      Bool → String → Option String → Asked Float → Option (Execution Float) → Type 0
  ClassifyAnswers has_client q p reply (some x) =
      Answers q x × ((r : ReportType) × (x.plan.steps ≡ steps_of r (period_json p)))
  ClassifyAnswers has_client q p reply none = (has_client ≡ true) × (reply ≡ call_raised)

  execute-Classified :
      (has_client : Bool) (q : String) (p : Option String) (reply : Asked Float)
      (store : Fingerprint Float) (o : Option (Plan Float))
      → Classified Py has_client q p reply o
      → ClassifyAnswers has_client q p reply (o >>= execute below run store)
  execute-Classified has_client q p reply store none h = h
  execute-Classified has_client q p reply store (some pl) h =
      let ran = execute-callable store pl h.1.0 in
      rw ran.1 ((rw ran.3 ran.2, rw ran.3 h.1.1), rw ran.3 h.0)

  -- In the `classify` tier a question is answered by the fixed plan of a report type, whatever
  -- object the model replied, but where there is a client whose call raises; each result is what
  -- the tool of its step gives.
  pub answer-classify :
      (has_client : Bool) (q : String) (p : Option String) (reply : Asked Float)
      (store : Fingerprint Float)
      → ClassifyAnswers has_client q p reply (answer classify has_client q p reply store)
  unfolding answer
  answer-classify has_client q p reply store =
      execute-Classified has_client q p reply store (plan_question Py classify has_client q p reply)
        (plan_question-classify Py has_client q p reply)
