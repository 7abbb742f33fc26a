-- ===== src/Agent/Executor/Independence.antt =====
-- A step that the check refuses never reaches a tool.
use quer_project_q.Common.{
  suc, ◌≡◌, ◌≢◌, refl, Bool, inl, inr, ◌⊎◌, List, [], ◌∷◌, ℕ, arith, All, ℤ,
}
use quer_project_q.Agent.Json.{Json, Dict}
use quer_project_q.Agent.Plan.{PlanStep, Plan, effective_args}
use quer_project_q.Agent.Registry.Validate.{validate, callable}
use quer_project_q.Agent.Registry.Verdicts.{Verdict-cases}
use quer_project_q.Agent.Executor.{call_tool, step_result, run_steps, execute, Outcome, Fingerprint}

module _ {Float : Type 0} (below : Float → ℤ → Bool)
    (run other_run : Json Float → Dict Float → Outcome Float) where
  -- The tools do the same at a step, if the check accepts it.
  abbrev pub Agrees : PlanStep Float → Type 0
  Agrees s =
      (validate below s.tool (effective_args s) ≢ callable)
      ⊎ (run s.tool (effective_args s) ≡ other_run s.tool (effective_args s))

  call_tool-Agrees :
      (tool : Json Float) (args : Dict Float)
      → run tool args ≡ other_run tool args
      → call_tool below run tool args ≡ call_tool below other_run tool args
  unfolding call_tool
  call_tool-Agrees tool args e = ground (arith, e)

  step_result-Agrees :
      (s : PlanStep Float) → Agrees s → step_result below run s ≡ step_result below other_run s
  unfolding step_result
  step_result-Agrees s h = elim (Verdict-cases (validate below s.tool (effective_args s))) [
    | inl ok ↦ elim h [
      | inl refused ↦ absurd (refused ok)
      | inr same ↦ ground (arith, ok, call_tool-Agrees s.tool (effective_args s) same)
    ]
    | inr (inl bad) ↦ ground (arith, bad)
    | inr (inr (why, bad)) ↦ ground (arith, bad)
  ]

  run_steps-Agrees :
      (i : ℕ) (steps : List (PlanStep Float))
      → All Agrees steps
      → run_steps below run i steps ≡ run_steps below other_run i steps
  unfolding run_steps
  run_steps-Agrees i [] h = refl
  run_steps-Agrees i (s ∷ steps) h =
      rw (step_result-Agrees s h.0, run_steps-Agrees (suc i) steps h.1) refl

  -- What a run gives depends on the tools only at the steps that the check accepts: two registries
  -- of tool functions that do the same there give the same execution of the plan.
  pub execute-Agrees :
      (store : Fingerprint Float) (p : Plan Float)
      → All Agrees p.steps
      → execute below run store p ≡ execute below other_run store p
  unfolding execute
  execute-Agrees store p h = rw (run_steps-Agrees 1 p.steps h) refl
