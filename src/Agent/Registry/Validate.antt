-- ===== src/Agent/Registry/Validate.antt =====
-- `_type_ok` and `validate_step` of python/analytics/agent/registry.py.
use quer_project_q.Common.{
  ℕ, String, Bool, true, false, not, ◌||◌, Option, none, some, List, [], ◌∷◌, ltb, str_eq,
  if◌then◌else◌, length, ℤ, ltb_ℤ,
}
use quer_project_q.Agent.Json.{Json, bool, int, num, str, arr, obj, items, Dict}
use quer_project_q.Agent.Plan.{
  Reason, unknown_tool, no_argument, not_allowed, wrong_type, below_minimum, too_many, item_type,
  item_minimum,
}
use quer_project_q.Agent.Registry.{
  JsonType, string, integer, number, array, boolean, object, null, ItemFragment, Fragment, Params,
  tools, find_tool, param,
}

-- `raises` is the TypeError of looking up a name that cannot be a key.
pub data Verdict : Type 0 where
  raises : Verdict
  callable : Verdict
  refused : Reason → Verdict

abbrev is_null_type : JsonType → Bool
is_null_type null = true
is_null_type _ = false

abbrev is_boolean_type : JsonType → Bool
is_boolean_type boolean = true
is_boolean_type _ = false

abbrev any_type : (JsonType → Bool) → List JsonType → Bool
any_type p [] = false
any_type p (t ∷ ts) = p t || any_type p ts

module _ {Float : Type 0} where
  -- `isinstance(value, _JSON_TYPES[t])` for a value that is neither None nor a bool
  unfoldable pub is_instance : Json Float → JsonType → Bool
  is_instance (str s) string = true
  is_instance (int n) integer = true
  is_instance (int n) number = true
  is_instance (num x) number = true
  is_instance (arr xs) array = true
  is_instance (obj fs) object = true
  is_instance _ _ = false

  unfoldable pub type_ok : Json Float → List JsonType → Bool
  unfolding is_instance
  type_ok Json.null types = any_type is_null_type types
  type_ok (bool b) types = any_type is_boolean_type types
  type_ok v types = any_type (is_instance v) types

  -- `value in allowed`: a text, or None
  unfoldable pub allowed_in : Json Float → List (Option String) → Bool
  allowed_in v [] = false
  allowed_in Json.null (none ∷ allowed) = true
  allowed_in Json.null (some a ∷ allowed) = allowed_in Json.null allowed
  allowed_in (str s) (none ∷ allowed) = allowed_in (str s) allowed
  allowed_in (str s) (some a ∷ allowed) = str_eq s a || allowed_in (str s) allowed
  allowed_in _ (a ∷ allowed) = false

  abbrev pub in_enum : Json Float → Option (List (Option String)) → Bool
  in_enum v none = true
  in_enum v (some allowed) = allowed_in v allowed

-- `below x n` is Python's `x < n`, for a float and an int.
module _ {Float : Type 0} (below : Float → ℤ → Bool) where
  -- A number under the minimum; a bool is kept apart.
  unfoldable pub under : Json Float → Option ℤ → Bool
  under v none = false
  under (int n) (some m) = ltb_ℤ n m
  under (num x) (some m) = below x m
  under _ (some m) = false

  unfoldable pub check_items : String → List (Json Float) → ItemFragment → Option Reason
  unfolding type_ok under
  check_items key [] f = none
  check_items key (v ∷ vs) f =
      let rest = check_items key vs f in
      if not (type_ok v f.types)
      then some (item_type key)
      else if under v f.minimum
      then some (item_minimum key)
      else rest

  abbrev more_than : ℕ → Option ℕ → Bool
  more_than n none = false
  more_than n (some m) = ltb m n

  -- The tests on a list; any other value passes them.
  unfoldable pub check_list : String → Json Float → Fragment → Option Reason
  unfolding check_items
  check_list key (arr xs) f =
      if more_than (length (items xs)) f.max_items
      then some (too_many key)
      else elim f.item [ none ↦ none | some g ↦ check_items key (items xs) g ]
  check_list key v f = none

  -- One argument against its fragment. On None the code goes on to the next one; the last two
  -- tests pass a None as well.
  unfoldable pub check_arg : String → Json Float → Fragment → Option Reason
  unfolding type_ok allowed_in under check_list
  check_arg key v f =
      if not (in_enum v f.enum)
      then some (not_allowed key)
      else if not (type_ok v f.types)
      then some (wrong_type key)
      else if under v f.minimum
      then some (below_minimum key)
      else check_list key v f

  unfoldable pub check_args : Dict Float → Params → Option Reason
  check_args [] ps = none
  check_args ((key, v) ∷ args) ps =
      let rest = check_args args ps in
      elim (param key ps) [
        | none ↦ some (no_argument key)
        | some f ↦ elim (check_arg key v f) [ some r ↦ some r | none ↦ rest ]
      ]

  abbrev verdict : Option Reason → Verdict
  verdict none = callable
  verdict (some r) = refused r

  -- `validate_step`, on the tool and the arguments of a step
  unfoldable pub validate : Json Float → Dict Float → Verdict
  unfolding check_args check_arg param find_tool
  validate (str name) args = elim (find_tool name tools) [
    | none ↦ refused unknown_tool
    | some spec ↦ verdict (check_args args spec.params)
  ]
  validate (arr xs) args = raises
  validate (obj fs) args = raises
  validate _ args = refused unknown_tool
