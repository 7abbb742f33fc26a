-- ===== src/Agent/Main/Exits.antt =====
-- The exit codes of `main` of python/analytics/cli.py.
use quer_project_q.Common.{
  ℕ, ◌≤◌, ◌<◌, String, ◌≡◌, refl, ◌∙◌, true, false, Bool-cases, Option, none, some, Option-cases,
  inl, inr, ◌⊎◌, List, [], ◌∷◌, arith, length, All, All-imp, IsIn, ◌≢◌, str_eq, ◌>>=◌,
  if◌then◌else◌,
}
use quer_project_q.Agent.Config.{Numbers, Config, loaded}
use quer_project_q.Agent.Plan.{Plan}
use quer_project_q.Agent.Planner.{Python, classify, call_raised, plan_question}
use quer_project_q.Agent.Planner.Calls.{IsSound, Classified, plan_question-classify}
use quer_project_q.Agent.Model.{Client, Reply, ollama_body}
use quer_project_q.Agent.Model.Replies.{CallReply, json_call-CallReply}
use quer_project_q.Agent.Json.{Json}
use quer_project_q.Agent.Executor.{
  Status, ok, insufficient_data, error, Execution, ToolResult, execute,
}
use quer_project_q.Agent.Executor.Answers.{Answers, sound-Answers}
use quer_project_q.Agent.Narrator.{Narrative}
use quer_project_q.Agent.Narrator.Prompt.{Setting}
use quer_project_q.Agent.Narrator.Writing.{Report, narrate}
use quer_project_q.Agent.Narrator.Written.{narrate-hosted}
use quer_project_q.Agent.Main.{
  ask, Args, args, World, tier_of, has_client, is_error_status, is_error, errors, exit_code,
  asked_of, planner_reply, settings, plan_of, narrative_of, run_command, run_settings, main,
}

status_error : (s : Status) → is_error_status s ≡ true → s ≡ error
status_error ok h = absurd (ground (arith, h))
status_error insufficient_data h = absurd (ground (arith, h))
status_error error h = refl

status_other : (s : Status) → is_error_status s ≡ false → s ≢ error
status_other s h e = absurd (ground (arith, rw e at h))

module _ {Float : Type 0} where
  errors-cases :
      (rs : List (ToolResult Float))
      → ((errors rs ≡ length rs) × All (λ r. is_error r ≡ true) rs)
        ⊎ ((errors rs < length rs) × (r : ToolResult Float) × IsIn r rs × (is_error r ≡ false))
  unfolding errors
  errors-cases [] = inl (refl, tt)
  errors-cases (r ∷ rs) = elim (Bool-cases (is_error r)) [
    | inl failed ↦ elim (errors-cases rs) [
      | inl all ↦ inl (ground (arith, failed, all.0), (failed, all.1))
      | inr one ↦ inr (ground (arith, failed, one.0), one.1, inr one.2, one.3)
    ]
    | inr fine ↦ elim (errors-cases rs) [
      | inl all ↦ inr (ground (arith, fine, all.0), r, inl refl, fine)
      | inr one ↦ inr (ground (arith, fine, one.0), r, inl refl, fine)
    ]
  ]

  -- The exit code: 1 where there are results and all are errors, 0 where there is none or one that
  -- is no error.
  abbrev pub IsExitOf : Execution Float → ℕ → Type 0
  IsExitOf x code =
      ((code ≡ 1) × (1 ≤ length x.results) × All (λ r. r.status ≡ error) x.results)
      ⊎ ((code ≡ 0)
          × ((length x.results ≡ 0)
              ⊎ ((r : ToolResult Float) × IsIn r x.results × (r.status ≢ error))))

  exit_code-IsExitOf : (x : Execution Float) → IsExitOf x (exit_code x)
  unfolding exit_code
  exit_code-IsExitOf x = elim (errors-cases x.results) [
    | inl all ↦ elim (length_cases x.results) [
      | inl empty ↦ inr (ground (arith, empty), inl empty)
      | inr full ↦ inl (
        ground (arith, all.0, full),
        full,
        All-imp (λ r. is_error r ≡ true) (λ r. r.status ≡ error) x.results
            (λ r. status_error r.status) all.1,
      )
    ]
    | inr one ↦ inr (ground (arith, one.0), inr (one.1, one.2, status_other one.1.status one.3))
  ]
    where
      length_cases : (rs : List (ToolResult Float)) → (length rs ≡ 0) ⊎ (1 ≤ length rs)
      length_cases [] = inl refl
      length_cases (r ∷ rs) = inr (omega arith)

module _ {Float : Type 0} (N : Numbers Float) (Py : Python Float) (S : Setting Float)
    (R : Report Float) (W : World Float) where
  open W use {run, fingerprint, client, written}

  -- What `main` does with an execution.
  abbrev finish : Config Float → Execution Float → Option ℕ
  finish cfg x =
      narrate S R cfg x (client cfg) >>= λ n. if written cfg x n then some (exit_code x) else none

  abbrev planned : Args Float → Config Float → String → Option (Plan Float)
  planned a cfg q =
      plan_question Py classify (has_client (client cfg)) q a.period
        (planner_reply N Py S R W cfg q a.period)

  run_command-ask :
      (a : Args Float) (cfg : Config Float) (q : String)
      → a.command ≡ ask q
      → tier_of cfg.planning ≡ some classify
      → run_command N Py S R W cfg a
        ≡ (planned a cfg q >>= λ p. execute Py.below (run cfg) (fingerprint cfg) p >>= finish cfg)
  unfolding run_command plan_of narrative_of
  run_command-ask a cfg q asked tier = rw (asked, tier) refl

  json_call-HasReturned :
      (cfg : Config Float) (c : Client Float) (system prompt : String) (schema : Json Float)
      (o : Option (Reply Float))
      → str_eq cfg.provider "anthropic" ≡ true
      → CallReply S.zero_float S.loads cfg c (ollama_body cfg system prompt schema) o
      → asked_of o ≢ call_raised
  unfolding asked_of
  json_call-HasReturned cfg c system prompt schema none hosted h e =
      absurd (ground (arith, hosted, h.0))
  json_call-HasReturned cfg c system prompt schema (some r) hosted (inl (fs, payload, why)) e =
      absurd (ground (arith, payload, e))
  json_call-HasReturned cfg c system prompt schema (some r) hosted (inr (f, payload, why)) e =
      absurd (ground (arith, payload, e))

  -- The hosted call does not raise.
  planner_reply-HasReturned :
      (cfg : Config Float) (q : String) (p : Option String)
      → str_eq cfg.provider "anthropic" ≡ true
      → planner_reply N Py S R W cfg q p ≢ call_raised
  unfolding planner_reply
  planner_reply-HasReturned cfg q p hosted = elim (Option-cases (client cfg)) [
    | inl no_one ↦ λ e. absurd (ground (arith, no_one, e))
    | inr (c, there) ↦
        let r = W.request cfg q p in
        rw (there, planner_reply)
          (json_call-HasReturned cfg c r.system r.prompt r.schema _ hosted
            (json_call-CallReply S.zero_float S.loads cfg c r.system r.prompt r.schema))
  ]

  classify-plans :
      (a : Args Float) (cfg : Config Float) (q : String) (o : Option (Plan Float))
      → planner_reply N Py S R W cfg q a.period ≢ call_raised
      → Classified Py
          (has_client (client cfg))
          q
          a.period
          (planner_reply N Py S R W cfg q a.period)
          o
      → (p : Plan Float) × (o ≡ some p) × IsSound Py q p
  classify-plans a cfg q none returned h = absurd (returned h.1)
  classify-plans a cfg q (some p) returned h = (p, refl, h.1)

  -- With a hosted provider that classifies, and a report that can be written, a question always
  -- comes to an exit code, whatever the model replied to the planner and to the narrator and
  -- whether or not the template fails: the planner returns a plan, the executor runs it, each of
  -- its results is what the tool of its step gives, and the code is 1 where that execution has
  -- results and all are errors, and 0 otherwise.
  pub main-Answers :
      (a : Args Float) (cfg : Config Float) (q : String)
      → a.command ≡ ask q
      → settings N a ≡ loaded cfg
      → str_eq cfg.provider "anthropic" ≡ true
      → tier_of cfg.planning ≡ some classify
      → ((x : Execution Float) (n : Narrative) → written cfg x n ≡ true)
      → (p : Plan Float) × (x : Execution Float) × (code : ℕ) × (plan_question Py classify
            (has_client (client cfg))
            q
            a.period
            (planner_reply N Py S R W cfg q a.period)
          ≡ some p)
        × (execute Py.below (run cfg) (fingerprint cfg) p ≡ some x)
        × (main N Py S R W (args a) ≡ some code)
        × IsExitOf x code
        × Answers Py (run cfg) q x
  unfolding main run_settings
  main-Answers a cfg q asked set hosted tier writes =
      let reply = planner_reply N Py S R W cfg q a.period in
      let plans =
        classify-plans a cfg q (planned a cfg q) (planner_reply-HasReturned cfg q a.period hosted)
          (plan_question-classify Py (has_client (client cfg)) q a.period reply) in
      let ran = sound-Answers Py (run cfg) (fingerprint cfg) q plans.0 plans.2 in
      let told = narrate-hosted S R cfg ran.0 (client cfg) hosted in
      (
        plans.0,
        ran.0,
        exit_code ran.0,
        plans.1,
        ran.1,
        rw set (
            run_command-ask a cfg q asked tier
            ∙ rw (plans.1, ran.1, told.1, writes ran.0 told.0) refl),
        exit_code-IsExitOf ran.0,
        ran.2,
      )
