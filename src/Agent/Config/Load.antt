-- ===== src/Agent/Config/Load.antt =====
-- `Config.__post_init__` and `load_config` of python/analytics/config.py.
use quer_project_q.Common.{
  String, Bool, false, not, ◌&&◌, Option, none, some, List, [], ◌∷◌, str_eq, if◌then◌else◌, pos,
  ltb_ℤ,
}
use quer_project_q.Agent.Json.{Json, bool, str, arr, obj, Items, nil, cons, fields, is_hashable}
use quer_project_q.Agent.Config.{
  whole, real, Numbers, Config, ConfigError, empty_band, bad_idle_min, bad_idle_max_gap, bad_mad_k,
  bad_effort, few_tokens, bad_provider, bad_think, bad_planning, bad_narrator_max, bad_anomaly_max,
  small_context, not_found, not_json, unknown_key, unknown_item, one_of, File, missing, garbled,
  parsed, Loaded, loaded, rejected, raises, known, kind_in, think_ok, unknown_in, ill_typed_in,
  set_fields,
}

abbrev pub efforts : List String
efforts = "low" ∷ "medium" ∷ "high" ∷ "xhigh" ∷ "max" ∷ []

abbrev pub providers : List String
providers = "anthropic" ∷ "ollama" ∷ []

abbrev pub plannings : List String
plannings = "plan" ∷ "select" ∷ "classify" ∷ []

-- The first error.
unfoldable pub first_error : List (Bool × ConfigError) → Option ConfigError
first_error [] = none
first_error ((failed, e) ∷ rest) = let later = first_error rest in if failed then some e else later

module _ {Float : Type 0} (N : Numbers Float) where
  open N use {literal, at_least}

  -- `Config()`
  unfoldable pub default_config : Config Float
  default_config = record {
    store_path = "events.duckdb";
    machine_id = "MCC";
    success_status = real (literal (pos 0));
    no_load_status = real (literal (pos 2000));
    torque_min = real (literal (pos 1500));
    torque_max = real (literal (pos 2500));
    mad_k = real (literal (pos 3000));
    mad_floor = real (literal (pos 10));
    idle_min_seconds = pos 300;
    idle_max_gap_seconds = pos 600;
    provider = "ollama";
    model = "qwen3:14b";
    max_tokens = pos 16000;
    api_timeout_s = real (literal (pos 120000));
    effort = "high";
    ollama_host = "http://localhost:11434";
    num_ctx = pos 8192;
    think = bool false;
    planning = "plan";
    narrator_max_items = pos 120;
    max_anomaly_items = pos 5000;
  }

  -- The tests of `__post_init__`, each with its error.
  abbrev pub checks : Config Float → List (Bool × ConfigError)
  checks c =
      (at_least c.torque_min c.torque_max, empty_band)
      ∷ (not (ltb_ℤ (pos 0) c.idle_min_seconds), bad_idle_min)
      ∷ (not (ltb_ℤ (pos 0) c.idle_max_gap_seconds), bad_idle_max_gap)
      ∷ (at_least (whole (pos 0)) c.mad_k, bad_mad_k)
      ∷ (not (one_of c.effort efforts), bad_effort)
      ∷ (ltb_ℤ c.max_tokens (pos 1024), few_tokens)
      ∷ (not (one_of c.provider providers), bad_provider)
      ∷ (not (think_ok c.think), bad_think)
      ∷ (not (one_of c.planning plannings), bad_planning)
      ∷ (ltb_ℤ c.narrator_max_items (pos 1), bad_narrator_max)
      ∷ (ltb_ℤ c.max_anomaly_items (pos 1), bad_anomaly_max)
      ∷ (str_eq c.provider "ollama" && ltb_ℤ c.num_ctx (pos 6144), small_context)
      ∷ []

  -- `Config.__post_init__`; `none` is no error.
  unfoldable pub post_init : Config Float → Option ConfigError
  unfolding first_error
  post_init c = first_error (checks c)

  -- `Config(…)`
  abbrev pub build : Config Float → Loaded Float
  build c = elim (post_init c) [ none ↦ loaded c | some e ↦ rejected e ]

  -- The loop over the keys on a list; its `items()` does not exist.
  unfoldable pub load_list : Items Float → Loaded Float
  load_list nil = raises
  load_list (cons (str s) xs) =
      let rest = load_list xs in
      elim (kind_in known s) [ none ↦ rejected (unknown_key s) | some t ↦ rest ]
  load_list (cons v xs) = if is_hashable v then rejected unknown_item else raises

  -- `load_config` from the parsed file on
  unfoldable pub load_json : Json Float → Loaded Float
  unfolding unknown_in ill_typed_in set_fields load_list default_config
  load_json (obj fs) = elim (unknown_in (fields fs)) [
    | some e ↦ rejected e
    | none ↦ elim (ill_typed_in (fields fs)) [
      | some e ↦ rejected e
      | none ↦ build (set_fields (fields fs) default_config)
    ]
  ]
  load_json (arr xs) = load_list xs
  load_json (str String.[]) = raises
  load_json (str (String.◌∷◌ c s)) = rejected (unknown_key (String.◌∷◌ c String.[]))
  load_json _ = raises

  -- `load_config`, given the file unless the path is None
  unfoldable pub load_config : Option (File Float) → Loaded Float
  unfolding load_json
  load_config none = build default_config
  load_config (some missing) = rejected not_found
  load_config (some garbled) = rejected not_json
  load_config (some (parsed v)) = load_json v
