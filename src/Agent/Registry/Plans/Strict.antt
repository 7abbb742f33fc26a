-- ===== src/Agent/Registry/Plans/Strict.antt =====
-- What the schemas of `plan_json_schema` of python/analytics/agent/registry.py demand of a plan.
use quer_project_q.Common.{
  ◌≡◌, refl, String, Bool, true, false, not, ◌&&◌, ◌||◌, Bool-cases, inl, inr, ◌⊎◌, Option, none,
  some, List, [], ◌∷◌, str_eq, sort_by, text_before,
}
use quer_project_q.Agent.Json.{
  Json, bool, str, arr, obj, Items, nil, cons, Fields, end, field, Dict, fields, items, get,
}
use quer_project_q.Agent.Registry.Schema.{all_args}
use quer_project_q.Agent.Registry.Strip.{unsupported, strip, IsSupported, get-strip}
use quer_project_q.Agent.Registry.Plans.{
  branch, fragment_json, item_json, types_json, type_name, plan_json_schema, flat_plan_schema,
  per_tool_plan_schema,
}

module _ {Float : Type 0} where
  abbrev is_false : Option (Json Float) → Bool
  is_false (some (bool b)) = not b
  is_false v = false

  abbrev has_name : String → List (Json Float) → Bool
  has_name s [] = false
  has_name s (str t ∷ vs) = str_eq t s || has_name s vs
  has_name s (v ∷ vs) = has_name s vs

  abbrev names_of : Option (Json Float) → List (Json Float)
  names_of (some (arr xs)) = items xs
  names_of v = []

  -- Every property stands among the names.
  abbrev all_named : List (Json Float) → Dict Float → Bool
  all_named names [] = true
  all_named names ((k, v) ∷ ps) = has_name k names && all_named names ps

  abbrev properties_of : Option (Json Float) → Option (Dict Float)
  properties_of (some (obj ps)) = some (fields ps)
  properties_of v = none

  -- A schema that lists properties allows no others; a strict one requires them all.
  abbrev is_closed_here : Bool → Dict Float → Bool
  is_closed_here strictly d = elim (properties_of (get "properties" d)) [
    | none ↦ true
    | some ps ↦
        is_false (get "additionalProperties" d)
        && (not strictly || all_named (names_of (get "required" d)) ps)
  ]

  unfoldable mutual
    -- So it is at every depth.
    pub is_closed : Bool → Json Float → Bool
    is_closed strictly (obj fs) =
        is_closed_here strictly (fields fs) && are_closed_fields strictly fs
    is_closed strictly (arr xs) = are_closed strictly xs
    is_closed strictly v = true

    are_closed : Bool → Items Float → Bool
    are_closed strictly nil = true
    are_closed strictly (cons x xs) = is_closed strictly x && are_closed strictly xs

    are_closed_fields : Bool → Fields Float → Bool
    are_closed_fields strictly end = true
    are_closed_fields strictly (field k v fs) =
        is_closed strictly v && are_closed_fields strictly fs

per_tool-closed : (Float : Type 0) → is_closed {Float = Float} false per_tool_plan_schema ≡ true
unfolding is_closed per_tool_plan_schema branch fragment_json item_json types_json type_name sort_by
    text_before
per_tool-closed Float = refl

flat-closed : (Float : Type 0) → is_closed {Float = Float} true (strip flat_plan_schema) ≡ true
unfolding is_closed flat_plan_schema all_args fragment_json item_json types_json type_name sort_by
    text_before strip unsupported
flat-closed Float = refl

supported_type : unsupported "type" ≡ false
unfolding unsupported
supported_type = refl

strip-IsSupported : (Float : Type 0) (fs : Fields Float) → IsSupported (strip (obj fs))
strip-IsSupported Float fs = (get-strip "type" fs supported_type).1

flat-IsSupported : (Float : Type 0) → IsSupported {Float = Float} (strip flat_plan_schema)
unfolding flat_plan_schema
flat-IsSupported Float = strip-IsSupported Float _

-- What a style comes to: a ValueError if it is not known, and else a schema that is closed; the flat
-- one is strict and holds none of the keywords that are not supported.
pub SchemaResult : {Float : Type 0} → String → Option (Json Float) → Type 0
SchemaResult style none = (str_eq style "per_tool" ≡ false) × (str_eq style "flat" ≡ false)
SchemaResult style (some schema) =
    (is_closed false schema ≡ true)
    × ((str_eq style "per_tool" ≡ true)
        ⊎ ((str_eq style "flat" ≡ true) × (is_closed true schema ≡ true) × IsSupported schema))

flat-closed_loosely :
    (Float : Type 0) → is_closed {Float = Float} false (strip flat_plan_schema) ≡ true
unfolding is_closed flat_plan_schema all_args fragment_json item_json types_json type_name sort_by
    text_before strip unsupported
flat-closed_loosely Float = refl

-- A style is refused exactly if it is neither "per_tool" nor "flat". In the schema of either, every
-- object that lists properties allows no others, at every depth; in the flat one, each also requires
-- all that it lists, as structured outputs demand, and no unsupported keyword is left.
pub plan_json_schema-SchemaResult :
    (Float : Type 0) (style : String) → SchemaResult {Float = Float} style (plan_json_schema style)
unfolding plan_json_schema SchemaResult
plan_json_schema-SchemaResult Float style = elim (Bool-cases (str_eq style "per_tool")) [
  | inl per_tool ↦ rw per_tool (per_tool-closed Float, inl per_tool)
  | inr other ↦ elim (Bool-cases (str_eq style "flat")) [
    | inl flat ↦
        rw (other, flat)
          (flat-closed_loosely Float, inr (flat, flat-closed Float, flat-IsSupported Float))
    | inr unknown ↦ rw (other, unknown) (other, unknown)
  ]
]
