-- ===== src/Agent/Executor.antt =====
-- python/analytics/agent/executor.py and the results of python/analytics/result.py. The tools and
-- the store's fingerprint are parameters: what a call returns or raises.
pub mod Traced
pub mod Independence
pub mod Answers
use quer_project_q.Common.{ℕ, suc, String, Bool, Option, none, some, List, [], ◌∷◌, ◌>>=◌, ℤ}
use quer_project_q.Agent.Json.{Json, str, Dict, obj, end, get_or_null}
use quer_project_q.Agent.Plan.{Reason, PlanStep, Plan, effective_args}
use quer_project_q.Agent.Registry.Validate.{Verdict, raises, callable, refused, validate}

pub data Status : Type 0 where
  ok insufficient_data error : Status

-- A result's message: a tool's own, a refusal of `validate_step`, the text of an exception, or
-- that of a value that is no result, with its type's name.
pub data Message : Type 0 where
  text : String → Message
  refusal : Reason → Message
  exception : String → Message
  not_a_result : String → Message

module _ (Float : Type 0) where
  -- A filter: a tool's own, or the arguments of a call that failed.
  pub data Filter : Type 0 where
    clause : String → Filter
    args_of : Dict Float → Filter

  pub record Provenance : Type 0 where
    pub period : Json Float
    pub rows_scanned : ℕ
    pub filters : List Filter
    pub assumptions : List String

  pub record ToolResult : Type 0 where
    pub tool : Json Float
    pub status : Status
    pub values : Json Float
    pub provenance : Provenance
    pub message : Message

  -- What a call of a tool does.
  pub data Outcome : Type 0 where
    returned : ToolResult → Outcome
    other : String → Outcome
    raised : String → Outcome

  pub record TraceEntry : Type 0 where
    pub index : ℕ
    pub tool : Json Float
    pub args : Dict Float
    pub rationale : Json Float
    pub status : Status
    pub rows_scanned : ℕ
    pub message : Message

  -- `store`: the fingerprint, or the text of the exception.
  pub data Fingerprint : Type 0 where
    taken : Dict Float → Fingerprint
    unavailable : String → Fingerprint

  pub record Execution : Type 0 where
    pub plan : Plan Float
    pub results : List ToolResult
    pub trace : List TraceEntry
    pub store : Fingerprint

module _ {Float : Type 0} where
  -- `ToolResult.error`, as the executor calls it
  unfoldable pub error_result : Json Float → Message → Dict Float → ToolResult Float
  error_result tool message args = record {
    tool = tool;
    status = error;
    values = obj end;
    provenance = record {
      period = get_or_null "period" args;
      rows_scanned = 0;
      filters = args_of args ∷ [];
      assumptions = [];
    };
    message = message;
  }

  unfoldable pub trace_entry : ℕ → PlanStep Float → ToolResult Float → TraceEntry Float
  trace_entry i s r = record {
    index = i;
    tool = s.tool;
    args = effective_args s;
    rationale = s.rationale;
    status = r.status;
    rows_scanned = r.provenance.rows_scanned;
    message = r.message;
  }

-- `run tool args` is `TOOLS[tool].fn(cfg, **args)`.
module _ {Float : Type 0} (below : Float → ℤ → Bool)
    (run : Json Float → Dict Float → Outcome Float) where
  unfoldable pub call_tool : Json Float → Dict Float → ToolResult Float
  call_tool tool args = elim (run tool args) [
    | returned r ↦ r
    | other type_name ↦ error_result tool (not_a_result type_name) args
    | raised e ↦ error_result tool (exception e) args
  ]

  -- One step; `none` is the TypeError of `validate_step`, which nothing catches.
  unfoldable pub step_result : PlanStep Float → Option (ToolResult Float)
  unfolding call_tool
  step_result s = elim (validate below s.tool (effective_args s)) [
    | raises ↦ none
    | refused r ↦ some (error_result s.tool (refusal r) (effective_args s))
    | callable ↦ some (call_tool s.tool (effective_args s))
  ]

  -- The loop, from a step's number on.
  unfoldable pub run_steps :
      ℕ → List (PlanStep Float) → Option (List (ToolResult Float) × List (TraceEntry Float))
  unfolding step_result
  run_steps i [] = some ([], [])
  run_steps i (s ∷ steps) = do
    r ← step_result s
    rest ← run_steps (suc i) steps
    some (r ∷ rest.0, trace_entry i s r ∷ rest.1)

  unfoldable pub execute : Fingerprint Float → Plan Float → Option (Execution Float)
  unfolding run_steps
  execute fingerprint plan = run_steps 1 plan.steps >>= λ done.
      some (record { plan = plan; results = done.0; trace = done.1; store = fingerprint })
