-- ===== src/Agent/Registry/Plans.antt =====
-- `tool_schemas` and `plan_json_schema` of python/analytics/agent/registry.py: the schemas that a
-- model's plan is constrained to. The descriptions, all of them prose, are left out.
pub mod Strict
mod Tests
use quer_project_q.Common.{
  ℕ, String, Bool, true, false, ◌||◌, Option, none, some, List, [], ◌∷◌, ◌++◌, map, str_eq,
  if◌then◌else◌, sort_by, text_before, ℤ, pos,
}
use quer_project_q.Agent.Json.{
  Json, null, bool, int, str, arr, obj, Items, nil, cons, Fields, end, field, Dict,
}
use quer_project_q.Agent.Registry.{
  JsonType, string, integer, number, array, boolean, object, Fragment, ItemFragment, Params,
  ToolSpec, tools,
}
use quer_project_q.Agent.Registry.Schema.{all_args}
use quer_project_q.Agent.Registry.Strip.{strip}

-- A type's name in a schema.
unfoldable pub type_name : JsonType → String
type_name string = "string"
type_name integer = "integer"
type_name number = "number"
type_name array = "array"
type_name boolean = "boolean"
type_name JsonType.null = "null"
type_name object = "object"

-- The tool's parameters, sorted(TOOLS.items()).
abbrev by_name : ToolSpec → ToolSpec → Bool
by_name a b = text_before a.name b.name

module _ {Float : Type 0} where
  abbrev pub items_of : List (Json Float) → Items Float
  items_of [] = nil
  items_of (x ∷ xs) = cons x (items_of xs)

  abbrev pub fields_of : Dict Float → Fields Float
  fields_of [] = end
  fields_of ((k, v) ∷ fs) = field k v (fields_of fs)

  abbrev pub list_json : List (Json Float) → Json Float
  list_json xs = arr (items_of xs)

  abbrev pub dict_json : Dict Float → Json Float
  dict_json d = obj (fields_of d)

  -- The "type" of a fragment: a name, or the names of several.
  unfoldable pub types_json : List JsonType → Json Float
  unfolding type_name
  types_json (t ∷ []) = str (type_name t)
  types_json ts = list_json (map (λ t. str (type_name t)) ts)

  abbrev enum_value : Option String → Json Float
  enum_value none = null
  enum_value (some s) = str s

  -- A keyword that may be absent.
  abbrev optional : {A : Type 0} → String → (A → Json Float) → Option A → Dict Float
  optional k f none = []
  optional k f (some a) = (k, f a) ∷ []

  unfoldable pub item_json : ItemFragment → Json Float
  unfolding types_json
  item_json f = dict_json (("type", types_json f.types) ∷ optional "minimum" int f.minimum)

  unfoldable pub fragment_json : Fragment → Json Float
  unfolding types_json item_json
  fragment_json f = dict_json (
      ("type", types_json f.types)
        ∷ optional "enum" (λ values. list_json (map enum_value values)) f.enum
      ++ optional "minimum" int f.minimum
      ++ optional "maxItems" (λ n. int (pos n)) f.max_items
      ++ optional "items" item_json f.item)

  -- "properties" of parameters.
  abbrev pub params_json : Params → Json Float
  params_json ps = dict_json (map (λ p. (p.0, fragment_json p.1)) ps)

  abbrev pub names_json : List String → Json Float
  names_json names = list_json (map (λ s. str s) names)

  -- An object's schema that allows its properties only.
  abbrev pub closed_object : Dict Float → List String → Json Float
  closed_object properties required = dict_json (
      ("type", str "object")
      ∷ ("properties", dict_json properties)
      ∷ ("required", names_json required)
      ∷ ("additionalProperties", bool false)
      ∷ [])

  -- A tool's definition.
  unfoldable pub tool_schema : ToolSpec → Json Float
  unfolding fragment_json
  tool_schema spec = dict_json (
      ("name", str spec.name)
      ∷ ("input_schema", closed_object (map (λ p. (p.0, fragment_json p.1)) spec.params) [])
      ∷ [])

  -- `tool_schemas`
  unfoldable pub tool_schemas : List (Json Float)
  unfolding tool_schema
  tool_schemas = map tool_schema tools

  abbrev text_schema : Json Float
  text_schema = dict_json (("type", str "string") ∷ [])

  abbrev named_schema : List String → Json Float
  named_schema names = dict_json (("type", str "string") ∷ ("enum", names_json names) ∷ [])

  -- A plan of steps, each as given.
  abbrev plan_schema : Json Float → Json Float
  plan_schema step =
      closed_object
        (("goal", text_schema)
          ∷ (
            "steps",
            dict_json (("type", str "array") ∷ ("maxItems", int (pos 12)) ∷ ("items", step) ∷ []),
          )
          ∷ [])
        ("goal" ∷ "steps" ∷ [])

  -- A step of some tools, given the schema of its arguments.
  abbrev step_schema : List String → Json Float → Json Float
  step_schema names args =
      closed_object
        (("tool", named_schema names) ∷ ("args", args) ∷ ("rationale", text_schema) ∷ [])
        ("tool" ∷ "args" ∷ "rationale" ∷ [])

  -- A branch of `_per_tool_plan_schema`: the arguments are the tool's, and may be left out.
  unfoldable pub branch : ToolSpec → Json Float
  unfolding fragment_json
  branch spec = step_schema (spec.name ∷ []) (
      dict_json (
        ("type", str "object")
        ∷ ("properties", params_json spec.params)
        ∷ ("additionalProperties", bool false)
        ∷ []))

  -- `_per_tool_plan_schema`
  unfoldable pub per_tool_plan_schema : Json Float
  unfolding branch
  per_tool_plan_schema =
      plan_schema (dict_json (("anyOf", list_json (map branch (sort_by by_name tools))) ∷ []))

  -- What `plan_json_schema` strips of the keywords that are not supported.
  unfoldable pub flat_plan_schema : Json Float
  unfolding all_args fragment_json
  flat_plan_schema = plan_schema (
      step_schema (sort_by text_before (map (λ t. t.name) tools)) (
        closed_object (map (λ p. (p.0, fragment_json p.1)) all_args)
          (sort_by text_before (map (λ p. p.0) all_args))))

  -- `plan_json_schema`; `none` is its ValueError.
  unfoldable pub plan_json_schema : String → Option (Json Float)
  unfolding per_tool_plan_schema flat_plan_schema
  plan_json_schema style =
      if str_eq style "per_tool"
      then some per_tool_plan_schema
      else if str_eq style "flat"
      then some (strip flat_plan_schema)
      else none
