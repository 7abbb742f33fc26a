-- ===== src/Agent/Config.antt =====
-- python/analytics/config.py: the settings, their checks, and the loading of a file.
pub mod Load
pub mod Valid
mod Tests
use quer_project_q.Common.{
  String, Bool, true, false, not, ◌&&◌, ◌||◌, Option, none, some, List, [], ◌∷◌, str_eq,
  if◌then◌else◌, ℤ, pos, ltb_ℤ,
}
use quer_project_q.Agent.Json.{Json, null, bool, int, num, str, arr, obj, items, Dict, fields}

-- A Python number: a field annotated as float may hold an int.
pub data Number (Float : Type 0) : Type 0 where
  whole : ℤ → Number Float
  real : Float → Number Float

-- What the defaults and the checks need of Python's floats: the literals, which are thousandths,
-- and `x >= y` on numbers.
pub record Numbers (Float : Type 0) : Type 0 where
  pub literal : ℤ → Float
  pub at_least : Number Float → Number Float → Bool

pub record Config (Float : Type 0) : Type 0 where
  pub store_path : String
  pub machine_id : String
  pub success_status : Number Float
  pub no_load_status : Number Float
  pub torque_min : Number Float
  pub torque_max : Number Float
  pub mad_k : Number Float
  pub mad_floor : Number Float
  pub idle_min_seconds : ℤ
  pub idle_max_gap_seconds : ℤ
  pub provider : String
  pub model : String
  pub max_tokens : ℤ
  pub api_timeout_s : Number Float
  pub effort : String
  pub ollama_host : String
  pub num_ctx : ℤ
  pub think : Json Float
  pub planning : String
  pub narrator_max_items : ℤ
  pub max_anomaly_items : ℤ

-- The ConfigErrors: those of `__post_init__` in their order, then those of `load_config`.
pub data ConfigError : Type 0 where
  empty_band bad_idle_min bad_idle_max_gap bad_mad_k bad_effort few_tokens bad_provider bad_think :
      ConfigError
  bad_planning bad_narrator_max bad_anomaly_max small_context : ConfigError
  not_found not_json : ConfigError
  unknown_key wrong_type : String → ConfigError
  unknown_item : ConfigError

-- `s in (…)`
abbrev pub one_of : String → List String → Bool
one_of s [] = false
one_of s (t ∷ ts) = str_eq s t || one_of s ts

-- The file: `open` and `json.load` are the caller's.
pub data File (Float : Type 0) : Type 0 where
  missing : File Float
  garbled : File Float
  parsed : Json Float → File Float

-- `raises` is an exception that is no ConfigError.
pub data Loaded (Float : Type 0) : Type 0 where
  loaded : Config Float → Loaded Float
  rejected : ConfigError → Loaded Float
  raises : Loaded Float

-- The annotation of a field; that of `think` is not checked.
pub data Kind : Type 0 where
  a_float an_int a_text unchecked : Kind

-- `known`
abbrev pub known : List (String × Kind)
known =
    ("store_path", a_text)
    ∷ ("machine_id", a_text)
    ∷ ("success_status", a_float)
    ∷ ("no_load_status", a_float)
    ∷ ("torque_min", a_float)
    ∷ ("torque_max", a_float)
    ∷ ("mad_k", a_float)
    ∷ ("mad_floor", a_float)
    ∷ ("idle_min_seconds", an_int)
    ∷ ("idle_max_gap_seconds", an_int)
    ∷ ("provider", a_text)
    ∷ ("model", a_text)
    ∷ ("max_tokens", an_int)
    ∷ ("api_timeout_s", a_float)
    ∷ ("effort", a_text)
    ∷ ("ollama_host", a_text)
    ∷ ("num_ctx", an_int)
    ∷ ("think", unchecked)
    ∷ ("planning", a_text)
    ∷ ("narrator_max_items", an_int)
    ∷ ("max_anomaly_items", an_int)
    ∷ []

unfoldable pub kind_in : List (String × Kind) → String → Option Kind
kind_in [] key = none
kind_in ((k, t) ∷ ks) key = let rest = kind_in ks key in if str_eq k key then some t else rest

module _ {Float : Type 0} where
  -- `think` is None, a bool or a level.
  abbrev pub think_ok : Json Float → Bool
  think_ok null = true
  think_ok (bool b) = true
  think_ok (str s) = one_of s ("low" ∷ "medium" ∷ "high" ∷ [])
  think_ok _ = false

  -- `isinstance(value, expected)`, bools kept apart
  abbrev pub has_kind : Json Float → Kind → Bool
  has_kind v unchecked = true
  has_kind (int n) a_float = true
  has_kind (num x) a_float = true
  has_kind (int n) an_int = true
  has_kind (str s) a_text = true
  has_kind v k = false

  -- The first key that is not known.
  unfoldable pub unknown_in : Dict Float → Option ConfigError
  unfolding kind_in
  unknown_in [] = none
  unknown_in ((k, v) ∷ raw) =
      let rest = unknown_in raw in
      elim (kind_in known k) [ none ↦ some (unknown_key k) | some t ↦ rest ]

  -- The first value of a wrong type.
  unfoldable pub ill_typed_in : Dict Float → Option ConfigError
  unfolding kind_in
  ill_typed_in [] = none
  ill_typed_in ((k, v) ∷ raw) =
      let rest = ill_typed_in raw in
      elim (kind_in known k) [
        | none ↦ rest
        | some t ↦ if has_kind v t then rest else some (wrong_type k)
      ]

  abbrev number_or : Number Float → Json Float → Number Float
  number_or d (int n) = whole n
  number_or d (num x) = real x
  number_or d _ = d

  abbrev int_or : ℤ → Json Float → ℤ
  int_or d (int n) = n
  int_or d _ = d

  abbrev text_or : String → Json Float → String
  text_or d (str s) = s
  text_or d _ = d

  -- One keyword of `Config(**raw)`; the values were checked.
  unfoldable pub set_field : String → Json Float → Config Float → Config Float
  set_field k v c =
      if str_eq k "store_path"
      then record c { store_path = text_or c.store_path v }
      else if str_eq k "machine_id"
      then record c { machine_id = text_or c.machine_id v }
      else if str_eq k "success_status"
      then record c { success_status = number_or c.success_status v }
      else if str_eq k "no_load_status"
      then record c { no_load_status = number_or c.no_load_status v }
      else if str_eq k "torque_min"
      then record c { torque_min = number_or c.torque_min v }
      else if str_eq k "torque_max"
      then record c { torque_max = number_or c.torque_max v }
      else if str_eq k "mad_k"
      then record c { mad_k = number_or c.mad_k v }
      else if str_eq k "mad_floor"
      then record c { mad_floor = number_or c.mad_floor v }
      else if str_eq k "idle_min_seconds"
      then record c { idle_min_seconds = int_or c.idle_min_seconds v }
      else if str_eq k "idle_max_gap_seconds"
      then record c { idle_max_gap_seconds = int_or c.idle_max_gap_seconds v }
      else if str_eq k "provider"
      then record c { provider = text_or c.provider v }
      else if str_eq k "model"
      then record c { model = text_or c.model v }
      else if str_eq k "max_tokens"
      then record c { max_tokens = int_or c.max_tokens v }
      else if str_eq k "api_timeout_s"
      then record c { api_timeout_s = number_or c.api_timeout_s v }
      else if str_eq k "effort"
      then record c { effort = text_or c.effort v }
      else if str_eq k "ollama_host"
      then record c { ollama_host = text_or c.ollama_host v }
      else if str_eq k "num_ctx"
      then record c { num_ctx = int_or c.num_ctx v }
      else if str_eq k "think"
      then record c { think = v }
      else if str_eq k "planning"
      then record c { planning = text_or c.planning v }
      else if str_eq k "narrator_max_items"
      then record c { narrator_max_items = int_or c.narrator_max_items v }
      else if str_eq k "max_anomaly_items"
      then record c { max_anomaly_items = int_or c.max_anomaly_items v }
      else c

  unfoldable pub set_fields : Dict Float → Config Float → Config Float
  set_fields [] c = c
  set_fields ((k, v) ∷ raw) c = set_fields raw (set_field k v c)
