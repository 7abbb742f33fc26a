-- ===== src/Agent/Registry/Verdicts.antt =====
-- The cases of a verdict, and the one thing on which `validate_step` raises.
use quer_project_q.Common.{
  ◌≡◌, refl, Bool, false, Option-cases, inl, inr, ◌⊎◌, List, [], ◌∷◌, arith, ℤ, String, some, All,
  Bool-cases, str_eq, str_eq_iff,
}
use quer_project_q.Agent.Json.{Json, null, bool, int, num, str, arr, obj, Dict, is_hashable}
use quer_project_q.Agent.Plan.{Reason, PlanStep}
use quer_project_q.Agent.Registry.{ToolSpec, find_tool, tools}
use quer_project_q.Agent.Registry.Validate.{
  Verdict, raises, callable, refused, validate, check_args,
}

pub Verdict-cases :
    (v : Verdict) → (v ≡ callable) ⊎ ((v ≡ raises) ⊎ ((r : Reason) × (v ≡ refused r)))
Verdict-cases raises = inr (inl refl)
Verdict-cases callable = inl refl
Verdict-cases (refused r) = inr (inr (r, refl))

-- A step whose tool cannot be looked up.
abbrev pub HasUnhashable : {Float : Type 0} → List (PlanStep Float) → Type 0
HasUnhashable [] = ⊥
HasUnhashable (s ∷ steps) = (is_hashable s.tool ≡ false) ⊎ HasUnhashable steps

module _ {Float : Type 0} (below : Float → ℤ → Bool) where
  pub validate-raises :
      (tool : Json Float) (args : Dict Float)
      → validate below tool args ≡ raises
      → is_hashable tool ≡ false
  unfolding validate
  validate-raises (arr xs) args h = refl
  validate-raises (obj fs) args h = refl
  validate-raises (str s) args h = elim (Option-cases (find_tool s tools)) [
    | inl missing ↦ absurd (ground (arith, missing))
    | inr (t, found) ↦ elim (Option-cases (check_args below args t.params)) [
      | inl passed ↦ absurd (ground (arith, found, passed))
      | inr (r, failed) ↦ absurd (ground (arith, found, failed))
    ]
  ]
  validate-raises null args h = absurd (ground arith)
  validate-raises (bool b) args h = absurd (ground arith)
  validate-raises (int b) args h = absurd (ground arith)
  validate-raises (num b) args h = absurd (ground arith)

-- What holds of every tool holds of the tool that is found, which has the name.
pub find_tool-All :
    (P : ToolSpec → Type 0) (name : String) (ts : List ToolSpec) (t : ToolSpec)
    → All P ts
    → find_tool name ts ≡ some t
    → P t × (t.name ≡ name)
unfolding find_tool
find_tool-All P name [] t h e = absurd (ground arith)
find_tool-All P name (s ∷ ts) t h e = elim (Bool-cases (str_eq s.name name)) [
  | inl found ↦
      let same : s ≡ t = ground (arith, found) in
      rw (← same) (h.0, (str_eq_iff s.name name).0 found)
  | inr other ↦ find_tool-All P name ts t h.1 (ground (arith, other))
]
