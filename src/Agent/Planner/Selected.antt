-- ===== src/Agent/Planner/Selected.antt =====
-- The plan of the `select` tier: the steps that the executor's check accepts, and the one tool
-- whose arguments it does not.
pub mod Steps
use quer_project_q.Common.{
  String, ◌≡◌, refl, Bool, true, false, Option, none, some, Option-cases, inl, inr, ◌⊎◌, List, [],
  ◌∷◌, arith, All, map, ◌>>=◌, ap, sym, ◌∙◌, if◌then◌else◌, All-imp,
}
use quer_project_q.Agent.Json.{
  Json, null, bool, int, num, str, arr, obj, Dict, is_hashable, get_or_null, truthy,
}
use quer_project_q.Agent.Plan.{
  Sentence, no_client, planning_failed, unknown_tools, no_tools, PlanStep, Plan, effective_args,
}
use quer_project_q.Agent.Registry.{ToolSpec, tools, find_tool, param, period}
use quer_project_q.Agent.Registry.Verdicts.{find_tool-All}
use quer_project_q.Agent.Registry.Validate.{validate, check_args, check_arg}
use quer_project_q.Agent.Planner.Selected.Steps.{HasVerdict, verdict, selected_step-HasVerdict}
use quer_project_q.Agent.Router.Choice.{IsCallable}
use quer_project_q.Agent.Planner.Calls.{fallback-IsCallable}
use quer_project_q.Agent.Planner.{
  Python, Asked, has_payload, no_payload, call_raised, select, iterate, known_tool, any_unknown,
  selected_step, select_names, select_plan, tier_plan, plan_question, fallback,
}

module _ {Float : Type 0} (Py : Python Float) where
  open Py use {below, zero_float}

  -- A step that can be called, or one for `methodology`.
  abbrev pub IsSelected : PlanStep Float → Type 0
  IsSelected s = IsCallable below s ⊎ (s.tool ≡ str "methodology")

  verdict-IsSelected :
      (p : Option String) (name : String)
      → HasVerdict below p name (verdict below p name)
      → IsSelected (selected_step p (str name))
  unfolding selected_step
  verdict-IsSelected p name (inl ok) = inl ok.0
  verdict-IsSelected p name (inr refusal) = inr (ap str refusal.1)

  known-IsSelected :
      (p : Option String) (n : Json Float)
      → known_tool n ≡ some true
      → IsSelected (selected_step p n)
  unfolding known_tool
  known-IsSelected p (str name) e =
      verdict-IsSelected p name (selected_step-HasVerdict below p name e)
  known-IsSelected p null e = absurd (ground arith)
  known-IsSelected p (bool b) e = absurd (ground arith)
  known-IsSelected p (int b) e = absurd (ground arith)
  known-IsSelected p (num b) e = absurd (ground arith)
  known-IsSelected p (arr b) e = absurd (ground arith)
  known-IsSelected p (obj b) e = absurd (ground arith)

  -- A name that cannot be looked up.
  abbrev pub HasUnhashableName : List (Json Float) → Type 0
  HasUnhashableName [] = ⊥
  HasUnhashableName (n ∷ ns) = (is_hashable n ≡ false) ⊎ HasUnhashableName ns

  known_tool-none : (n : Json Float) → known_tool n ≡ none → is_hashable n ≡ false
  unfolding known_tool
  known_tool-none (arr xs) e = refl
  known_tool-none (obj xs) e = refl
  known_tool-none (str name) e = absurd (ground arith)
  known_tool-none null e = absurd (ground arith)
  known_tool-none (bool b) e = absurd (ground arith)
  known_tool-none (int b) e = absurd (ground arith)
  known_tool-none (num b) e = absurd (ground arith)

  any_unknown-none : (ns : List (Json Float)) → any_unknown ns ≡ none → HasUnhashableName ns
  unfolding any_unknown
  any_unknown-none [] e = absurd (ground arith)
  any_unknown-none (n ∷ ns) e = elim (Option-cases (known_tool n)) [
    | inl bad ↦ inl (known_tool-none n bad)
    | inr (b, known) ↦ elim (Option-cases (any_unknown ns)) [
      | inl bad ↦ inr (any_unknown-none ns bad)
      | inr (c, rest) ↦ absurd (ground (arith, known, rest))
    ]
  ]

  any_unknown-IsSelected :
      (p : Option String) (ns : List (Json Float))
      → any_unknown ns ≡ some false
      → All IsSelected (map (selected_step p) ns)
  unfolding any_unknown
  any_unknown-IsSelected p [] e = tt
  any_unknown-IsSelected p (n ∷ ns) e = elim (Option-cases (known_tool n)) [
    | inl bad ↦ absurd (ground (arith, bad))
    | inr (b, known) ↦ elim (Option-cases (any_unknown ns)) [
      | inl bad ↦ absurd (ground (arith, known, bad))
      | inr (c, rest) ↦ (
        known-IsSelected p n (ground (arith, known, rest)),
        any_unknown-IsSelected p ns (ground (arith, known, rest)),
      )
    ]
  ]

  -- `payload.get("tools") or []`, iterated.
  abbrev pub named : Dict Float → Option (List (Json Float))
  named payload =
      let names = get_or_null "tools" payload in
      if truthy zero_float names then iterate names else some []

  -- What `_select` returns, or its exception: of the call, or the TypeError of a reply whose names
  -- it cannot iterate or look up.
  abbrev pub Chosen : Asked Float → Option (Plan Float) → Type 0
  Chosen reply (some pl) = All IsSelected pl.steps
  Chosen call_raised none = Unit
  Chosen no_payload none = ⊥
  Chosen (has_payload payload) none =
      (named payload ≡ none)
      ⊎ ((ns : List (Json Float)) × (named payload ≡ some ns) × HasUnhashableName ns)

  fallback-IsSelected :
      (q : String) (p : Option String) (why : Sentence) → All IsSelected (fallback Py q p why).steps
  fallback-IsSelected q p why =
      All-imp (IsCallable below) IsSelected (fallback Py q p why).steps (λ s ok. inl ok)
        (fallback-IsCallable Py q p why)

  select_names-Chosen :
      (q : String) (p : Option String) (payload : Dict Float) (ns : List (Json Float))
      → named payload ≡ some ns
      → Chosen (has_payload payload) (select_names Py q p payload ns)
  unfolding select_names
  select_names-Chosen q p payload [] e = ground (arith, fallback-IsSelected q p no_tools)
  select_names-Chosen q p payload (n ∷ ns) e = elim (Option-cases (any_unknown (n ∷ ns))) [
    | inl bad ↦ ground (arith, bad, e, any_unknown-none (n ∷ ns) bad)
    | inr (true, known) ↦ ground (arith, known, fallback-IsSelected q p unknown_tools)
    | inr (false, known) ↦ ground (arith, known, any_unknown-IsSelected p (n ∷ ns) known)
  ]

  select_plan-Chosen :
      (q : String) (p : Option String) (reply : Asked Float)
      → Chosen reply (select_plan Py q p reply)
  unfolding select_plan
  select_plan-Chosen q p call_raised = tt
  select_plan-Chosen q p no_payload = fallback-IsSelected q p planning_failed
  select_plan-Chosen q p (has_payload payload) = elim (Option-cases (named payload)) [
    | inl bad ↦ ground (arith, bad)
    | inr (ns, e) ↦ ground (arith, e, select_names-Chosen q p payload ns e)
  ]

  -- What the `select` tier returns, or the exception of `_select`, which runs only with a client.
  abbrev pub ChosenFor : Bool → String → Asked Float → Option (Plan Float) → Type 0
  ChosenFor has_client q reply (some pl) = All IsSelected pl.steps × (pl.question ≡ q)
  ChosenFor has_client q reply none = (has_client ≡ true) × Chosen reply none

  question-Chosen :
      (q : String) (reply : Asked Float) (o : Option (Plan Float))
      → Chosen reply o
      → ChosenFor true q reply (o >>= λ p. some (record p { question = q }))
  question-Chosen q reply none h = (refl, h)
  question-Chosen q reply (some pl) h = (h, refl)

  -- The `select` tier returns a plan for the question, but where there is a client and either its
  -- call raises or its reply's "tools" cannot be iterated or holds a list or a dict. Every step of
  -- what it returns is one that the executor's check accepts, or a step of `methodology`.
  pub plan_question-Chosen :
      (has_client : Bool) (q : String) (p : Option String) (reply : Asked Float)
      → ChosenFor has_client q reply (plan_question Py select has_client q p reply)
  unfolding plan_question tier_plan
  plan_question-Chosen false q p reply = (fallback-IsSelected q p no_client, refl)
  plan_question-Chosen true q p reply =
      question-Chosen q reply (select_plan Py q p reply) (select_plan-Chosen q p reply)
