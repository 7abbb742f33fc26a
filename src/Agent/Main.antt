-- ===== src/Agent/Main.antt =====
-- `main` of python/analytics/cli.py: from the arguments to the exit code. The parsed arguments, the
-- configuration file's content, the tools, the model's client, the texts that the planner asks it
-- with and the writing of the report are parameters.
pub mod Exits
mod Tests
use quer_project_q.Common.{
  ℕ, ◌+◌, String, Bool, true, false, ◌&&◌, ◌||◌, Option, none, some, List, [], ◌∷◌, length, ◌>>=◌,
  ◌==◌, str_eq, if◌then◌else◌, leb,
}
use quer_project_q.Agent.Json.{Json, null, bool, int, num, str, arr, obj, Fields, fields, Dict}
use quer_project_q.Agent.Config.{
  Numbers, Config, ConfigError, File, Loaded, loaded, rejected, raises,
}
use quer_project_q.Agent.Config.Load.{build, load_config}
use quer_project_q.Agent.Plan.{ReportType, Plan}
use quer_project_q.Agent.Router.{canned_plan}
use quer_project_q.Agent.Planner.{
  Python, Tier, plan, select, classify, Asked, has_payload, no_payload, call_raised, plan_question,
}
use quer_project_q.Agent.Executor.{
  Status, ok, insufficient_data, error, Outcome, Fingerprint, Execution, ToolResult, execute,
}
use quer_project_q.Agent.Model.{Client, Reply, json_call}
use quer_project_q.Agent.Narrator.{Narrative, template, Summary, summarised, summary_failed}
use quer_project_q.Agent.Narrator.Prompt.{Setting}
use quer_project_q.Agent.Narrator.Writing.{Report, narrate}

pub data Command : Type 0 where
  report : ReportType → Command
  ask : String → Command

-- The parsed arguments; `config` is the file of `--config`, or the default one if it is there.
pub record Args (Float : Type 0) : Type 0 where
  pub config : Option (File Float)
  pub provider : Option String
  pub model : Option String
  pub planning : Option String
  pub period : Option String
  pub command : Command

-- What `parse_args` does: the arguments, or the code of its SystemExit.
pub data Parsed (Float : Type 0) : Type 0 where
  args : Args Float → Parsed Float
  exits : Option ℕ → Parsed Float

-- The texts and the schema of a call of the model.
pub record Request (Float : Type 0) : Type 0 where
  pub system : String
  pub prompt : String
  pub schema : Json Float

-- What a run needs of the world, by the configuration: the tools, the store's fingerprint, the
-- client, what the planner asks of a question and a period, and whether the report could be
-- written.
pub record World (Float : Type 0) : Type 0 where
  pub run : Config Float → Json Float → Dict Float → Outcome Float
  pub fingerprint : Config Float → Fingerprint Float
  pub client : Config Float → Option (Client Float)
  pub request : Config Float → String → Option String → Request Float
  pub written : Config Float → Execution Float → Narrative → Bool

module _ {Float : Type 0} where
  -- `json_call` gives no payload but objects: `payload.get` of another would raise.
  abbrev asked_payload : Option (Json Float) → Asked Float
  asked_payload none = no_payload
  asked_payload (some (obj fs)) = has_payload (fields fs)
  asked_payload (some v) = call_raised

  -- What a call of the model is to the planner; `none` is its exception.
  unfoldable pub asked_of : Option (Reply Float) → Asked Float
  asked_of none = call_raised
  asked_of (some r) = asked_payload r.payload

-- `_TIERS[cfg.planning]`
unfoldable pub tier_of : String → Option Tier
tier_of s =
    if str_eq s "plan"
    then some plan
    else if str_eq s "select"
    then some select
    else if str_eq s "classify"
    then some classify
    else none

abbrev given : {A : Type 0} → A → Option A → A
given d none = d
given d (some a) = a

abbrev is_given : {A : Type 0} → Option A → Bool
is_given none = false
is_given (some a) = true

abbrev pub has_client : {A : Type 0} → Option A → Bool
has_client none = false
has_client (some c) = true

-- `r.status == "error"`
abbrev pub is_error_status : Status → Bool
is_error_status ok = false
is_error_status insufficient_data = false
is_error_status error = true

module _ {Float : Type 0} where
  abbrev pub is_error : ToolResult Float → Bool
  is_error r = is_error_status r.status

  unfoldable pub errors : List (ToolResult Float) → ℕ
  errors [] = 0
  errors (r ∷ rs) = (if is_error r then 1 else 0) + errors rs

  -- The end of `main`.
  unfoldable pub exit_code : Execution Float → ℕ
  unfolding errors
  exit_code x = if leb 1 (length x.results) && errors x.results == length x.results then 1 else 0

  -- `replace(cfg, **overrides)`, which checks the settings again
  unfoldable pub override : Numbers Float → Args Float → Config Float → Loaded Float
  override N a c =
      if is_given a.provider || is_given a.model || is_given a.planning
      then build N (record c {
        provider = given c.provider a.provider;
        model = given c.model a.model;
        planning = given c.planning a.planning;
      })
      else loaded c

  unfoldable override_loaded : Numbers Float → Args Float → Loaded Float → Loaded Float
  unfolding override
  override_loaded N a (loaded c) = override N a c
  override_loaded N a (rejected e) = rejected e
  override_loaded N a raises = raises

  -- The configuration of a run.
  unfoldable pub settings : Numbers Float → Args Float → Loaded Float
  unfolding override_loaded load_config
  settings N a = override_loaded N a (load_config N a.config)

module _ {Float : Type 0} (N : Numbers Float) (Py : Python Float) (S : Setting Float)
    (R : Report Float) (W : World Float) where
  open W use {run, fingerprint, client, request, written}

  -- The planner's call of the model, where there is a client.
  unfoldable pub planner_reply : Config Float → String → Option String → Asked Float
  unfolding json_call asked_of
  planner_reply cfg q period = elim (client cfg) [
    | none ↦ no_payload
    | some c ↦
        let r = request cfg q period in
        asked_of (json_call S.zero_float S.loads cfg c r.system r.prompt r.schema)
  ]

  -- The plan of the command; `none` is an exception. The tier of checked settings is one of three.
  unfoldable pub plan_of : Config Float → Args Float → Command → Option (Plan Float)
  unfolding plan_question canned_plan tier_of planner_reply
  plan_of cfg a (report r) = some (canned_plan r a.period)
  plan_of cfg a (ask q) = do
    tier ← tier_of cfg.planning
    plan_question Py tier (has_client (client cfg)) q a.period (planner_reply cfg q a.period)

  unfoldable summary_narrative : Summary → Option Narrative
  summary_narrative (summarised f c) =
      some (record { findings = f; next_checks = c; source = template; note = none })
  summary_narrative (summary_failed e) = none

  unfoldable pub narrative_of : Config Float → Execution Float → Command → Option Narrative
  unfolding narrate summary_narrative
  narrative_of cfg x (ask q) = narrate S R cfg x (client cfg)
  narrative_of cfg x (report r) = summary_narrative (R.summarise x)

  -- `main` once the configuration is there.
  unfoldable pub run_command : Config Float → Args Float → Option ℕ
  unfolding plan_of narrative_of execute exit_code
  run_command cfg a = do
    p ← plan_of cfg a a.command
    x ← execute Py.below (run cfg) (fingerprint cfg) p
    n ← narrative_of cfg x a.command
    if written cfg x n then some (exit_code x) else none

  unfoldable pub run_settings : Args Float → Loaded Float → Option ℕ
  unfolding run_command
  run_settings a (loaded cfg) = run_command cfg a
  run_settings a (rejected e) = some 2
  run_settings a raises = none

  -- `main`; `none` is an exception.
  unfoldable pub main : Parsed Float → Option ℕ
  unfolding run_settings settings
  main (exits none) = some 0
  main (exits (some code)) = some code
  main (args a) = run_settings a (settings N a)
