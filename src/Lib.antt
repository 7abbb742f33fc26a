-- ===== src/Lib.antt =====
-- Cleaning and agentic analytics of capping-machine data (python/).
--
-- A machine's day-file is a CSV of polls: a time, and for each of 36 heads a cap counter, a torque
-- and a status. Cleaning turns the polls into events, one for each advance or reset of a counter.
-- The agent turns a question into a plan of tool calls over the cleaned events, checks the plan
-- against a registry of tools and runs it.
--
-- Cleaning/ (python/oracle.py, oracle_union.py, oracle_kpi.py, clean_vectorized.py):
--   * Cleaning/Floats.antt: the floats as a parameter: parsing, rounding and comparing.
--   * Cleaning/Extract.antt: `extract` of oracle.py; `last` is a list of optional integers, and
--     the loops over rows and heads are recursions that pass it on.
--   * Cleaning/Vectorized.antt: `extract` of clean_vectorized.py: the header check, the delegation
--     of dirty input to oracle.py, and the transform on arrays of int64, whose wrap-around is
--     written out. `read_csv` and `rint` are parameters; where a theorem needs what pandas
--     documents of `read_csv`, it is the hypothesis ReadsCsv.
--   * Cleaning/Union.antt: `union_rows` of oracle_union.py. Cleaning/Kpi.antt: `kpis` of
--     oracle_kpi.py.
-- Agent/ (python/analytics/agent, python/analytics/result.py):
--   * Agent/Config.antt and Agent/Status.antt (python/analytics/config.py, status.py): the settings, their
--     checks and their loading; the conditions in a status.
--   * Agent/Json.antt: what `json.loads` gives. Agent/Plan.antt: plan.py.
--   * Agent/Registry.antt: the table TOOLS of registry.py; Agent/Registry/Validate.antt:
--     `validate_step`; Agent/Registry/Schema.antt: the merged arguments, `_merge_params`;
--     Agent/Registry/Strip.antt: `_strip_unsupported_keywords`; Agent/Registry/Plans.antt:
--     `tool_schemas` and `plan_json_schema`.
--   * Agent/Router.antt: router.py. Agent/Planner.antt: planner.py, with what the call of
--     the model does as an argument: an object, no payload, or an exception.
--     Agent/Executor.antt: executor.py, with the tools as an argument;
--     Agent/Executor/Answers.antt: `cli.main` from the question to the results.
--   * Agent/Main.antt: `main` of cli.py, given the parsed arguments, with the planner's
--     reply by `json_call`; the tools, the client, the prompts and the writing of the report are
--     parameters.
--   * Agent/Model.antt: llm.py, the two calls of a model and the checks on what comes back; what
--     the SDK, the daemon and `json.loads` answer are parameters.
--   * Agent/Narrator.antt: narrator.py. Agent/Narrator/Text.antt: its regular expressions and the
--     methods of `str` that it calls; Bounded.antt: `_bounded`; Prompt.antt: `_payload`, the
--     prompts and schemas; Writing.antt: `_facts`, `_fallback` and `narrate`. The system prompts,
--     the deterministic report and Python's tables of characters are parameters.
-- Drift.antt (python/analytics/tools/trend.py): `_mann_kendall_s`, the blocked Kendall sum. Its loop is
--   on as much fuel as there are values, and each round takes up at least one.
-- Tools.antt (python/analytics/tools): the rows of `cap_events` in scope, a list, and what a tool
--   answers. The SQL is translated to functions on that list, GROUP BY in Tools/Grouping.antt and
--   ORDER BY in Common/Sorting.antt; the tests on REAL columns and the divisions are parameters, and the
--   sentences of the provenance are left out. Tools/Gaps.antt: gaps.py; Tools/Idle.antt: idle.py;
--   Tools/Filter.antt: filter.py; Tools/Success.antt: success.py; Tools/Speed.antt: speed.py;
--   Tools/Overview.antt: overview.py.
--   Tools/Compare.antt: the buckets, calendar days and window of compare.py, and Tools/Compare/Buckets.antt
--   its `compare_periods`; Tools/Calendar.antt: the dates of `datetime` that it computes with.
--   Tools/Anomaly.antt: `_sample` of anomaly.py, Tools/Anomaly/Records.antt and Flags.antt its
--   `anomalies`, with medians and quantiles as parameters; Tools/Torque.antt: torque.py;
--   Tools/Factors.antt: factors.py, but for `upper_gamma_q`.
-- Store.antt (python/analytics/store.py): `store_fingerprint`, `connect`, `discover_heads`, `_month_bounds`,
--   `period_clause` and `scope_clause`; a clause holds months, and `first_day` their texts.
-- Report/Figures.antt (python/analytics/report/render.py): `_figure_keys`, `planned_figures` and
--   `_figures`, whose common loop over the steps is one function; a plot is a parameter.
-- Common/ holds the integers over the native numbers, lists, sorting, options and Boolean tests.
--
-- An exception that leaves a function is `none`. `digit_count` of Store.antt has the number itself
-- as fuel, which is no less than its digits. Every other loop of the source runs
-- over a list, and is a recursion on it. Python's integers are unbounded and are ℤ here; numpy's
-- are reduced to 64 bits.
--
-- Not modelled: the C++ core and CUDA code under core/; correlation.py, methodology.py, the rest of
-- trend.py and `upper_gamma_q` of factors.py, which are floating-point statistics or prose; the rest of
-- the rendering of reports, logging and the scripts; and the wording of the system prompts, of
-- descriptions and of messages.
pub mod Common
pub mod Cleaning
pub mod Agent
pub mod Drift
pub mod Tools
pub mod Store
pub mod Report
