-- ===== src/Agent/Narrator/Tests.antt =====
-- Runs of the narrator and of its client. Floats are integers, and a number is its own text's length.
use Prim.Native.Char.{code}
use Prim.Native.String.{count}
use quer_project_q.Common.{
  ℕ, String, ◌≡◌, refl, Bool, true, false, none, some, ◌&&◌, ◌||◌, [], ◌∷◌, ◌==◌, leb, ℤ, pos,
  eqb_ℤ,
}
use quer_project_q.Agent.Json.{Json, null, int, str, arr, obj, Items, nil, cons, end, field}
use quer_project_q.Agent.Config.{Config, Numbers}
use quer_project_q.Agent.Config.Load.{default_config}
use quer_project_q.Agent.Plan.{llm}
use quer_project_q.Agent.Executor.{Message, ok, Execution, ToolResult, unavailable}
use quer_project_q.Agent.Model.{
  Client, Reply, Loads, loads_as, created, chatted, ollama_body, json_call,
}
use quer_project_q.Agent.Model.Replies.{CallReply, json_call-CallReply}
use quer_project_q.Agent.Narrator.{Narrative, model, summarised, summary_failed}
use quer_project_q.Agent.Narrator.Prompt.{Setting, payload}
use quer_project_q.Agent.Narrator.Prompt.Bounds.{AreBounded, payload-AreBounded}
use quer_project_q.Agent.Narrator.Writing.{Report, facts, narrate}
use quer_project_q.Agent.Narrator.Written.{HostedWritten, narrate-hosted}
use quer_project_q.Agent.Narrator.Raised.{NarrateResult, narrate-NarrateResult}
use quer_project_q.Agent.Narrator.Local.{LocalWritten, narrate-local}
use quer_project_q.Agent.Narrator.Text.{Chars, strip_marker, numbers, splitlines, has_bullet}

-- ASCII.
abbrev pub ascii : Chars
ascii = record {
  is_space = λ c. code c == 32 || code c == 10;
  is_digit = λ c. leb 48 (code c) && leb (code c) 57;
}

strip_marker_run : strip_marker ascii " - drift of head 7" ≡ "drift of head 7"
unfolding strip_marker
strip_marker_run = refl

numbers_run : numbers ascii "from 1,023.20. to 3" ≡ "1023.20" ∷ "3" ∷ []
unfolding numbers
numbers_run = refl

splitlines_run : splitlines "a\n\nb\n" ≡ "a" ∷ "" ∷ "b" ∷ []
unfolding splitlines
splitlines_run = refl

bullet_run : has_bullet ascii "Findings:\n  * head 3" ≡ true
unfolding has_bullet
bullet_run = refl

-- No number is too large.
abbrev pub fixed : Numbers ℤ
fixed = record { literal = λ n. n; at_least = λ a b. false }

abbrev cfg : Config ℤ
cfg = default_config fixed

abbrev hosted : Config ℤ
hosted = record cfg { provider = "anthropic" }

abbrev local : Config ℤ
local = record cfg { provider = "ollama" }

-- The hosted model is cut off; the local one answers with a text, which `loads` reads.
abbrev pub client : Client ℤ
client = record {
  create = λ request. created (record { stop_reason = some "max_tokens"; content = [] });
  chat = λ body. chatted (obj (field "message" (obj (field "content" (str "an answer") end)) end));
}

abbrev pub loads : Json ℤ → Loads ℤ
loads text = loads_as (obj (field "answer" (arr (cons (str "Head 7 drifts by 12 of 3.") nil)) end))

abbrev pub is_zero : ℤ → Bool
is_zero n = eqb_ℤ n (pos 0)

json_call-CallReply_example :
    CallReply is_zero loads local client
      (ollama_body local "rules" "why?" null)
      (json_call is_zero loads local client "rules" "why?" null)
json_call-CallReply_example = json_call-CallReply is_zero loads local client "rules" "why?" null

abbrev pub show : ℕ → String
show n = "n"

abbrev wide : ℕ × ℕ → String
wide caps = "a table"

abbrev pub setting : Setting ℤ
setting = record {
  shown = λ v. "a value";
  show = show;
  filter_text = λ f. "a filter";
  dumps = λ v. "[]";
  loads = loads;
  zero_float = is_zero;
  chars = ascii;
  decimals = record { of_text = λ s. pos (count s); close = λ places a b. eqb_ℤ a b };
  within = λ text room. leb (count text) room;
  system = "rules";
  answer_system = "rules";
  message_text = λ m. "a message";
  not_measured = λ tool. none;
}

abbrev pub report : Report ℤ
report = record {
  summarise = λ x. summarised "- **Drift.** head 7, 12 of 36" "- Check head 7.";
  tables = λ x. some (λ caps. "");
  figures = λ x. some [];
}

abbrev pub broken : Report ℤ
broken = record report { summarise = λ x. summary_failed "KeyError" }

abbrev execution : Execution ℤ
execution = record {
  plan = record { goal = str "drift"; steps = []; source = llm; note = []; question = "why?" };
  results = [];
  trace = [];
  store = unavailable "IOException";
}

narrate-hosted_example :
    (n : Narrative) × (narrate setting broken hosted execution (some client) ≡ some n)
    × HostedWritten setting broken n
narrate-hosted_example = narrate-hosted setting broken hosted execution (some client) refl

abbrev findings : String
findings = "- **Drift.** head 7, 12 of 36"

abbrev reply : Reply ℤ
reply = record {
  payload = some (obj (field "answer" (arr (cons (str "Head 7 drifts by 12 of 3.") nil)) end));
  reason = none;
}

narrate-local_example :
    (n : Narrative) × (narrate setting report local execution (some client) ≡ some n)
    × LocalWritten setting report execution findings "- Check head 7." findings reply n
unfolding facts json_call default_config
narrate-local_example =
    narrate-local setting report local execution client findings "- Check head 7." findings reply
      refl refl refl refl refl

-- A result with a list of two items.
abbrev hits : ToolResult ℤ
hits = record {
  tool = str "anomalies";
  status = ok;
  values = obj (field "hits" (arr (cons (int (pos 1)) (cons (str "two") nil))) end);
  provenance = record { period = null; rows_scanned = 2; filters = []; assumptions = [] };
  message = Message.text "two hits";
}

payload-AreBounded_example :
    let x : Execution ℤ = record execution { results = hits ∷ [] } in
    (vs : Items ℤ) × (payload setting x 1 ≡ "[]") × AreBounded setting 1 x.results vs
payload-AreBounded_example = payload-AreBounded setting 1 (record execution { results = hits ∷ [] })

narrate-NarrateResult_example :
    NarrateResult setting broken local execution
      (some client)
      (narrate setting broken local execution (some client))
narrate-NarrateResult_example = narrate-NarrateResult setting broken local execution (some client)

-- The template fails, and with it the narrator of the local provider.
narrate_raises : narrate setting broken local execution (some client) ≡ none
unfolding narrate default_config
narrate_raises = refl

-- The answer is the model's: it states 12, which the findings carry.
narrate_run :
    narrate setting report local execution (some client)
    ≡ some (record {
      findings = "- **Answer.** Head 7 drifts by 12 of 3.\n- **Drift.** head 7, 12 of 36";
      next_checks = "- Check head 7.";
      source = model;
      note = none;
    })
unfolding narrate default_config
narrate_run = refl
