-- ===== src/Agent/Main/Tests.antt =====
-- A run of the command line: every tool raises, and the template fails too.
use quer_project_q.Common.{ℕ, ◌≡◌, refl, true, none, some, ℤ, pos, ltb_ℤ, eqb_ℤ}
use quer_project_q.Agent.Config.{Config}
use quer_project_q.Agent.Config.Load.{default_config, post_init}
use quer_project_q.Agent.Plan.{Plan, effective_args}
use quer_project_q.Agent.Registry.Validate.{validate}
use quer_project_q.Agent.Router.{route, matches, best_of}
use quer_project_q.Agent.Planner.{Python, classify, plan_question}
use quer_project_q.Agent.Json.{null}
use quer_project_q.Agent.Executor.{Execution, raised, unavailable, error_result, execute}
use quer_project_q.Agent.Executor.Answers.{Answers}
use quer_project_q.Agent.Narrator.Tests.{fixed, client, setting, broken}
use quer_project_q.Agent.Main.{Args, args, World, ask, settings, tier_of, planner_reply, main}
use quer_project_q.Agent.Main.Exits.{IsExitOf, main-Answers}

abbrev python : Python ℤ
python = record {
  below = ltb_ℤ;
  zero_float = λ n. eqb_ℤ n (pos 0);
  dict_of_items = λ xs. none;
  lower = λ s. s;
}

abbrev world : World ℤ
world = record {
  run = λ cfg tool args. raised "IOException";
  fingerprint = λ cfg. unavailable "IOException";
  client = λ cfg. some client;
  request = λ cfg q p. record { system = "rules"; prompt = q; schema = null };
  written = λ cfg x n. true;
}

abbrev typed : Args ℤ
typed = record {
  config = none;
  provider = some "anthropic";
  model = none;
  planning = some "classify";
  period = some "2026-03";
  command = ask "did it drift?";
}

abbrev overridden : Config ℤ
overridden = record (default_config fixed) { provider = "anthropic"; planning = "classify" }

main-Answers_example :
    (p : Plan ℤ) × (x : Execution ℤ) × (code : ℕ) × (plan_question python classify true
        "did it drift?"
        (some "2026-03")
        (planner_reply fixed python setting broken world overridden "did it drift?"
          (some "2026-03"))
      ≡ some p)
    × (execute ltb_ℤ (λ tool args. raised "IOException") (unavailable "IOException") p ≡ some x)
    × (main fixed python setting broken world (args typed) ≡ some code)
    × IsExitOf x code
    × Answers python (λ tool args. raised "IOException") "did it drift?" x
unfolding settings tier_of post_init
main-Answers_example =
    main-Answers fixed python setting broken world typed overridden "did it drift?" refl refl refl
      refl (λ x n. refl)

-- Every step failed.
all_failed : main fixed python setting broken world (args typed) ≡ some 1
unfolding main post_init route matches best_of validate effective_args error_result
all_failed = refl
