-- ===== src/Agent/Executor/Traced.antt =====
-- The results and the trace of a run, against the steps of its plan.
use quer_project_q.Common.{
  ℕ, Bool, false, suc, ◌≡◌, refl, Option, none, some, inl, inr, ◌⊎◌, List, [], ◌∷◌, arith, ℤ, ◌>>=◌,
}
use quer_project_q.Agent.Json.{Json, Dict, is_hashable}
use quer_project_q.Agent.Plan.{Reason, PlanStep, Plan, effective_args}
use quer_project_q.Agent.Registry.Validate.{refused, validate}
use quer_project_q.Agent.Router.Choice.{IsCallable}
use quer_project_q.Agent.Registry.Verdicts.{Verdict-cases, validate-raises, HasUnhashable}
use quer_project_q.Agent.Executor.{
  refusal, error_result, trace_entry, call_tool, step_result, run_steps, execute, Outcome,
  ToolResult, TraceEntry, Fingerprint, Execution,
}

module _ {Float : Type 0} (below : Float → ℤ → Bool)
    (run : Json Float → Dict Float → Outcome Float) where
  -- A step that is accepted has its tool's result; a step that is refused has the refusal.
  abbrev pub IsResultOf : PlanStep Float → ToolResult Float → Type 0
  IsResultOf s r =
      (IsCallable below s × (r ≡ call_tool below run s.tool (effective_args s)))
      ⊎ ((why : Reason) × (validate below s.tool (effective_args s) ≡ refused why)
          × (r ≡ error_result s.tool (refusal why) (effective_args s)))

  -- The results and the entries stand for the steps, in their order, numbered from `i` on.
  abbrev pub Traces :
      ℕ → List (PlanStep Float) → List (ToolResult Float) → List (TraceEntry Float) → Type 0
  Traces i [] [] [] = Unit
  Traces i (s ∷ steps) (r ∷ rs) (t ∷ ts) =
      IsResultOf s r × (t ≡ trace_entry i s r) × Traces (suc i) steps rs ts
  Traces i _ _ _ = ⊥

  abbrev Ran :
      ℕ
      → List (PlanStep Float)
      → Option (List (ToolResult Float) × List (TraceEntry Float))
      → Type 0
  Ran i steps none = HasUnhashable steps
  Ran i steps (some done) = Traces i steps done.0 done.1

  step_result-cases :
      (s : PlanStep Float)
      → ((step_result below run s ≡ none) × (is_hashable s.tool ≡ false))
        ⊎ ((r : ToolResult Float) × (step_result below run s ≡ some r) × IsResultOf s r)
  unfolding step_result
  step_result-cases s = elim (Verdict-cases (validate below s.tool (effective_args s))) [
    | inl ok ↦
        inr (call_tool below run s.tool (effective_args s), ground (arith, ok), inl (ok, refl))
    | inr (inl bad) ↦ inl (ground (arith, bad), validate-raises below s.tool (effective_args s) bad)
    | inr (inr (why, bad)) ↦ inr (
      error_result s.tool (refusal why) (effective_args s),
      ground (arith, bad),
      inr (why, bad, refl),
    )
  ]

  cons-Ran :
      (i : ℕ) (s : PlanStep Float) (steps : List (PlanStep Float)) (r : ToolResult Float)
      (o : Option (List (ToolResult Float) × List (TraceEntry Float)))
      → IsResultOf s r
      → Ran (suc i) steps o
      → Ran i (s ∷ steps) (o >>= λ rest. some (r ∷ rest.0, trace_entry i s r ∷ rest.1))
  cons-Ran i s steps r none h k = inr k
  cons-Ran i s steps r (some rest) h k = (h, refl, k)

  run_steps-Ran :
      (i : ℕ) (steps : List (PlanStep Float)) → Ran i steps (run_steps below run i steps)
  unfolding run_steps
  run_steps-Ran i [] = tt
  run_steps-Ran i (s ∷ steps) = elim (step_result-cases s) [
    | inl (raised, h) ↦ rw raised (inl h)
    | inr (r, e, h) ↦
        rw e
          (cons-Ran i s steps r (run_steps below run (suc i) steps) h (run_steps-Ran (suc i) steps))
  ]

  -- A run, or the TypeError of a tool that cannot be looked up.
  abbrev pub Executed : Plan Float → Fingerprint Float → Option (Execution Float) → Type 0
  Executed p store none = HasUnhashable p.steps
  Executed p store (some x) = Traces 1 p.steps x.results x.trace × (x.plan ≡ p) × (x.store ≡ store)

  Ran-Executed :
      (p : Plan Float) (store : Fingerprint Float)
      (o : Option (List (ToolResult Float) × List (TraceEntry Float)))
      → Ran 1 p.steps o
      → Executed p store (
          o >>= λ done. some (record { plan = p; results = done.0; trace = done.1; store = store }))
  Ran-Executed p store none h = h
  Ran-Executed p store (some done) h = (h, refl, refl)

  -- `execute` raises only where a step's tool cannot be looked up. Else the results and the trace
  -- stand for the plan's steps one by one, in their order, and the entries are numbered from 1.
  -- A step that the check accepts has the result of its tool, or an error in its place; a step
  -- that it refuses has the error that says why. The plan and the fingerprint are kept.
  pub execute-Executed :
      (p : Plan Float) (store : Fingerprint Float) → Executed p store (execute below run store p)
  unfolding execute
  execute-Executed p store =
      Ran-Executed p store (run_steps below run 1 p.steps) (run_steps-Ran 1 p.steps)
