-- ===== src/Agent/Registry/Schema.antt =====
-- The merged arguments of the plan schema: `_merge_params` of python/analytics/agent/registry.py.
-- A merged description is left out, as all prose is.
pub mod Permissive
use quer_project_q.Common.{
  String, Bool, true, false, not, ◌||◌, Option, none, some, List, [], ◌∷◌, ◌++◌, str_eq,
  if◌then◌else◌,
}
use quer_project_q.Agent.Registry.{Fragment, Params, ToolSpec, tools, param}

-- `v in values`, for a text
abbrev pub text_in : String → List (Option String) → Bool
text_in s [] = false
text_in s (none ∷ vs) = text_in s vs
text_in s (some v ∷ vs) = str_eq s v || text_in s vs

-- [v for v in known if v is not None]
abbrev pub texts : List (Option String) → List (Option String)
texts [] = []
texts (none ∷ vs) = texts vs
texts (some v ∷ vs) = some v ∷ texts vs

-- [v for v in incoming if v is not None and v not in values]
abbrev pub new_texts : List (Option String) → List (Option String) → List (Option String)
new_texts values [] = []
new_texts values (none ∷ vs) = new_texts values vs
new_texts values (some v ∷ vs) =
    let rest = new_texts values vs in if text_in v values then rest else some v ∷ rest

-- The merged "enum"; an empty one counts as none.
unfoldable pub merge_enum :
    Option (List (Option String)) → Option (List (Option String)) → Option (List (Option String))
merge_enum (some (k ∷ known)) (some (i ∷ incoming)) =
    let values = texts (k ∷ known) in some (values ++ new_texts values (i ∷ incoming) ++ none ∷ [])
merge_enum known incoming = known

-- One argument into the merged ones: a new name at the end, or the union of the enums.
unfoldable pub merge_param : Params → String → Fragment → Params
unfolding merge_enum
merge_param [] name f = (name, f) ∷ []
merge_param ((k, g) ∷ merged) name f =
    let rest = merge_param merged name f in
    if str_eq k name
    then (k, record g { enum = merge_enum g.enum f.enum }) ∷ merged
    else (k, g) ∷ rest

unfoldable pub merge_tool : Params → Params → Params
unfolding merge_param
merge_tool merged [] = merged
merge_tool merged ((name, f) ∷ ps) = merge_tool (merge_param merged name f) ps

-- `_merge_params`
unfoldable pub merge_params : Params → List ToolSpec → Params
unfolding merge_tool
merge_params merged [] = merged
merge_params merged (t ∷ ts) = merge_params (merge_tool merged t.params) ts

-- `_ALL_ARGS`
unfoldable pub all_args : Params
unfolding merge_params
all_args = merge_params [] tools
