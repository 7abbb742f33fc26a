-- ===== src/Agent/Registry.antt =====
-- python/analytics/agent/registry.py: the tools, by name, with the schema fragment of each
-- argument. The prose of a fragment and of a tool, and the function behind it, are left out.
pub mod Validate
pub mod Verdicts
pub mod Schema
pub mod Strip
pub mod Plans
use quer_project_q.Common.{
  ℕ, String, Bool, true, Option, none, some, List, [], ◌∷◌, ◌++◌, map, str_eq, if◌then◌else◌, ℤ,
  pos,
}

pub data JsonType : Type 0 where
  string integer number array boolean object null : JsonType

-- The "items" of an array's fragment.
pub record ItemFragment : Type 0 where
  pub types : List JsonType
  pub minimum : Option ℤ

-- A fragment; `none` is a keyword that is not there. In "enum" None is `none`.
pub record Fragment : Type 0 where
  pub types : List JsonType
  pub enum : Option (List (Option String))
  pub minimum : Option ℤ
  pub max_items : Option ℕ
  pub item : Option ItemFragment

abbrev pub Params : Type 0
Params = List (String × Fragment)

pub record ToolSpec : Type 0 where
  pub name : String
  pub params : Params

abbrev pub plain : List JsonType → Fragment
plain ts = record { types = ts; enum = none; minimum = none; max_items = none; item = none }

-- `_PERIOD`
abbrev pub period : Fragment
period = plain (string ∷ null ∷ [])

-- `_enum`
abbrev enum_fragment : List String → Bool → Fragment
enum_fragment values nullable = record (plain (string ∷ (if nullable then null ∷ [] else []))) {
  enum = some (map some values ++ (if nullable then none ∷ [] else []));
}

abbrev enum_of : List String → Fragment
enum_of values = enum_fragment values true

abbrev at_least_one : Fragment
at_least_one = record (plain (integer ∷ null ∷ [])) { minimum = some (pos 1) }

abbrev tool : String → Params → ToolSpec
tool name params = record { name = name; params = params }

-- The arguments of `trend`.
abbrev pub trend_params : Params
trend_params =
    ("period", period)
    ∷ ("signal", enum_of ("torque" ∷ "success_rate" ∷ []))
    ∷ ("by", enum_of ("day" ∷ "hour" ∷ []))
    ∷ ("window", at_least_one)
    ∷ []

abbrev pub tools : List ToolSpec
tools =
    tool "overview" (("period", period) ∷ [])
    ∷ tool "success_rates"
        (("period", period) ∷ ("by", enum_of ("head" ∷ "day" ∷ "overall" ∷ [])) ∷ [])
    ∷ tool "torque_stats" (
        ("period", period)
        ∷ ("outcome", enum_of ("successful" ∷ "failed" ∷ "all" ∷ []))
        ∷ ("by", enum_of ("head" ∷ []))
        ∷ [])
    ∷ tool "capping_speed" (("period", period) ∷ ("bucket", enum_of ("hour" ∷ "day" ∷ [])) ∷ [])
    ∷ tool "idle_periods" (("period", period) ∷ ("min_seconds", at_least_one) ∷ [])
    ∷ tool "anomalies"
        (("period", period) ∷ ("method", enum_of ("threshold" ∷ "deviation" ∷ "both" ∷ [])) ∷ [])
    ∷ tool "trend" trend_params
    ∷ tool "head_correlation" (
        ("period", period)
        ∷ (
          "heads",
          record {
            types = array ∷ null ∷ [];
            enum = none;
            minimum = none;
            max_items = some 64;
            item = some (record { types = integer ∷ []; minimum = some (pos 1) });
          },
        )
        ∷ ("by", enum_of ("day" ∷ "hour" ∷ []))
        ∷ [])
    ∷ tool "event_gaps" (("period", period) ∷ ("min_seconds", at_least_one) ∷ [])
    ∷ tool "compare_periods" (("period", period) ∷ ("by", enum_of ("month" ∷ "week" ∷ [])) ∷ [])
    ∷ tool "closure_filter" (
        ("period", period)
        ∷ ("above", plain (number ∷ null ∷ []))
        ∷ ("below", plain (number ∷ null ∷ []))
        ∷ ("outcome", enum_of ("successful" ∷ "failed" ∷ "all" ∷ []))
        ∷ ("head", at_least_one)
        ∷ [])
    ∷ tool "failure_correlation"
        (("period", period) ∷ ("by", enum_of ("hour_of_day" ∷ "torque" ∷ [])) ∷ [])
    ∷ tool "methodology" (
        ("topic", enum_of ("preprocessing" ∷ "duplicates" ∷ "assumptions" ∷ "classification" ∷ []))
        ∷ [])
    ∷ []

-- `TOOLS.get(name)`
unfoldable pub find_tool : String → List ToolSpec → Option ToolSpec
find_tool name [] = none
find_tool name (t ∷ ts) =
    let rest = find_tool name ts in if str_eq t.name name then some t else rest

-- `spec.params[key]`; `none` is a key that is not there.
unfoldable pub param : String → Params → Option Fragment
param key [] = none
param key ((k, f) ∷ ps) = let rest = param key ps in if str_eq k key then some f else rest
