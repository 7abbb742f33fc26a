-- ===== src/Agent/Planner/Selected/Steps.antt =====
-- The verdict of the executor's check on a step of the `select` tier.
use quer_project_q.Common.{
  String, ◌≡◌, ◌≢◌, refl, ◌∙◌, sym, Bool, true, false, Option, none, some, Option-cases, inl, inr,
  ◌⊎◌, arith, All, str_eq, ℤ,
}
use quer_project_q.Agent.Json.{str}
use quer_project_q.Agent.Plan.{no_argument, effective_args}
use quer_project_q.Agent.Registry.{ToolSpec, tools, find_tool, param, period}
use quer_project_q.Agent.Registry.Verdicts.{find_tool-All}
use quer_project_q.Agent.Registry.Validate.{
  Verdict, callable, refused, validate, check_args, check_arg,
}
use quer_project_q.Agent.Planner.{known_tool, selected_step}

-- The tool takes a period and is another than `methodology`, or is `methodology`.
abbrev Differs : ToolSpec → Type 0
Differs t =
    ((param "period" t.params ≡ some period) × (str_eq t.name "methodology" ≡ false))
    ⊎ (t.name ≡ "methodology")

abbrev takes : {A B C : Type 0} {a : A} {b : B} → ((a ≡ a) × (b ≡ b)) ⊎ C
takes = inl (refl, refl)

tools-Differ : All Differs tools
unfolding param
tools-Differ = (
  takes,
  (
    takes,
    (
      takes,
      (
        takes,
        (takes, (takes, (takes, (takes, (takes, (takes, (takes, (takes, (inr refl, tt))))))))),
      ),
    ),
  ),
)

named_other : (s t : String) → s ≡ t → str_eq s "methodology" ≡ false → t ≢ "methodology"
named_other s t same other e =
    let name : s ≡ "methodology" = same ∙ e in absurd (ground (arith, rw name at other))

module _ {Float : Type 0} (below : Float → ℤ → Bool) where
  -- What the check says of the step that `select` makes of a tool.
  abbrev pub verdict : Option String → String → Verdict
  verdict p name =
      let s = selected_step {Float = Float} p (str name) in validate below s.tool (effective_args s)

  -- Called; or refused for the period, which only `methodology` is.
  abbrev pub HasVerdict : Option String → String → Verdict → Type 0
  HasVerdict p name v =
      ((v ≡ callable) × ((p ≡ none) ⊎ (name ≢ "methodology")))
      ⊎ ((v ≡ refused (no_argument "period"))
          × (name ≡ "methodology")
          × ((s : String) × (p ≡ some s)))

  period-callable :
      (p : Option String) (name : String) (t : ToolSpec)
      → find_tool name tools ≡ some t
      → param "period" t.params ≡ some period
      → verdict p name ≡ callable
  unfolding selected_step effective_args validate check_args check_arg
  period-callable none name t e has = ground (arith, e)
  period-callable (some p) name t e has = ground (arith, e, has)

  methodology-HasVerdict :
      (p : Option String) → HasVerdict p "methodology" (verdict p "methodology")
  unfolding selected_step effective_args validate check_args check_arg find_tool param
  methodology-HasVerdict none = inl (refl, inl refl)
  methodology-HasVerdict (some p) = inr (refl, refl, (p, refl))

  tool-HasVerdict :
      (p : Option String) (name : String) (t : ToolSpec)
      → find_tool name tools ≡ some t
      → HasVerdict p name (verdict p name)
  tool-HasVerdict p name t e =
      let found = find_tool-All Differs name tools t tools-Differ e in
      elim found.0 [
        | inr same ↦
            let is : name ≡ "methodology" = sym found.1 ∙ same in rw is (methodology-HasVerdict p)
        | inl (has, other) ↦
            inl (period-callable p name t e has, inr (named_other t.name name found.1 other))
      ]

  -- Of the tools that there are, the check accepts each step that `select` makes, but for
  -- `methodology` with a period: that step is refused, since the tool takes none. Without a period
  -- all are accepted.
  pub selected_step-HasVerdict :
      (p : Option String) (name : String)
      → known_tool {Float = Float} (str name) ≡ some true
      → HasVerdict p name (verdict p name)
  unfolding known_tool
  selected_step-HasVerdict p name known = elim (Option-cases (find_tool name tools)) [
    | inl missing ↦ absurd (ground (arith, missing, known))
    | inr (t, e) ↦ tool-HasVerdict p name t e
  ]
