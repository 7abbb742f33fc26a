-- ===== src/Agent/Narrator/Writing.antt =====
-- `_fallback`, `_facts`, `_narrate_from_findings` and `narrate` of
-- python/analytics/agent/narrator.py.
use Prim.Native.String.{count}
use quer_project_q.Common.{
  ℕ, ◌+◌, ◌/◌, ◌-◌, String, not, Option, none, some, List, [], ◌∷◌, ◌>>=◌, str_eq, str_append,
  if◌then◌else◌, pos_part,
}
use quer_project_q.Agent.Json.{Json, str}
use quer_project_q.Agent.Config.{Config}
use quer_project_q.Agent.Executor.{Execution}
use quer_project_q.Agent.Model.{Client, Reply, json_call}
use quer_project_q.Agent.Narrator.{
  Thin, Note, no_client, model_failed, missing_section, thin, summary_failed_too, Narrative,
  template, model, Summary, summarised, summary_failed, bullets, unsubstantiated, ungrounded,
  attempts, first_fit,
}
use quer_project_q.Agent.Narrator.Text.{join, is_empty, texts_where, splitlines, strip_marker}
use quer_project_q.Agent.Narrator.Prompt.{
  Setting, answer_schema, sections_schema, section, asked, answer_prompt, sections_prompt,
}

-- The deterministic report of an execution, where `none` is an exception: `summarise`, `tables` for
-- the rows that a table and a daily one may have, and `planned_figures`.
pub record Report (Float : Type 0) : Type 0 where
  pub summarise : Execution Float → Summary
  pub tables : Execution Float → Option (ℕ × ℕ → String)
  pub figures : Execution Float → Option (List (String × String))

module _ {Float : Type 0} (S : Setting Float) (R : Report Float) where
  open S use {shown, loads, zero_float, chars, decimals, within, system, answer_system}
  open R use {summarise, tables, figures}

  unfoldable pub fallback_on : Note → Summary → Narrative
  fallback_on reason (summarised f c) = record {
    findings = f;
    next_checks = c;
    source = template;
    note = some reason;
  }
  fallback_on reason (summary_failed e) = record {
    findings = "- No findings could be written. See *Confidence and limits*.";
    next_checks = "- Re-run this report and check the tool-call trace.";
    source = template;
    note = some (summary_failed_too reason e);
  }

  -- `_fallback`
  unfoldable pub fallback : Execution Float → Note → Narrative
  unfolding fallback_on
  fallback x reason = fallback_on reason (summarise x)

  abbrev captions : List (String × String) → List String
  captions [] = []
  captions ((caption, name) ∷ drawn) = join "" (caption ∷ " (" ∷ name ∷ ")" ∷ []) ∷ captions drawn

  unfoldable figures_text : List (String × String) → String
  unfolding join
  figures_text [] = ""
  figures_text (d ∷ drawn) =
      join "" ("Figures drawn in this report: " ∷ join "; " (captions (d ∷ drawn)) ∷ "." ∷ [])

  -- max(num_ctx - _REPLY_TOKENS - prose // _PROSE_CHARS_PER_TOKEN, 0)
  abbrev room : Config Float → String → String → ℕ
  room cfg findings drawn =
      pos_part cfg.num_ctx - (1200 + (count answer_system + count findings + count drawn) / 3)

  unfoldable pub facts_text : Config Float → String → (ℕ × ℕ → String) → String → String
  unfolding join first_fit attempts
  facts_text cfg findings cut drawn =
      let text = first_fit (λ t. within t (room cfg findings drawn)) cut attempts in
      join "\n\n" (texts_where (λ t. not (is_empty t)) (findings ∷ text ∷ drawn ∷ []))

  -- `_facts`, given the template's findings
  unfoldable pub facts : Config Float → Execution Float → String → Option String
  unfolding facts_text figures_text
  facts cfg x findings = do
    drawn ← figures x
    cut ← tables x
    some (facts_text cfg findings cut (figures_text drawn))

  -- `_unsubstantiated(answer) or _ungrounded(answer, facts, question)`: to look for numbers in a
  -- question that is no text is a TypeError.
  unfoldable pub thin_answer : String → String → Json Float → Option (Option Thin)
  unfolding unsubstantiated ungrounded
  thin_answer answer given question = elim (unsubstantiated chars answer) [
    | some why ↦ some (some why)
    | none ↦ elim question [ str q ↦ some (ungrounded chars decimals answer given q) | _ ↦ none ]
  ]

  abbrev pub indented : List String → List String
  indented [] = []
  indented (ln ∷ lines) = str_append "  " ln ∷ indented lines

  unfoldable pub label : String → List String → String
  unfolding join strip_marker
  label first rest =
      join "\n" (str_append "- **Answer.** " (strip_marker chars first) ∷ indented rest)

  -- The answer under one label, then the template's findings; `none` is an answer of no lines.
  unfoldable pub labelled : String → List String → Option String
  unfolding label
  labelled findings [] = none
  labelled findings (first ∷ rest) = some (str_append (label first rest) (str_append "\n" findings))

  -- The answer, unless it is thin.
  unfoldable pub answered :
      Execution Float → String → String → String → Option Thin → Option Narrative
  unfolding fallback labelled splitlines
  answered x findings next_checks answer (some why) = some (fallback x (thin why))
  answered x findings next_checks answer none = labelled findings (splitlines answer) >>= λ text.
      some (record { findings = text; next_checks = next_checks; source = model; note = none })

  -- `_narrate_from_findings` on the answer in the model's reply.
  unfoldable pub local_answer :
      Execution Float → String → String → String → Option (Json Float) → Option Narrative
  unfolding answered bullets thin_answer
  local_answer x findings next_checks given none = some (fallback x missing_section)
  local_answer x findings next_checks given (some a) =
      thin_answer (bullets chars shown a) given (asked S x)
      >>= answered x findings next_checks (bullets chars shown a)

  -- `_narrate_from_findings` on the model's reply.
  unfoldable pub local_narrative :
      Execution Float → String → String → String → Reply Float → Option Narrative
  unfolding local_answer
  local_narrative x findings next_checks given r = elim r.payload [
    | none ↦ some (fallback x (model_failed r.reason))
    | some v ↦ local_answer x findings next_checks given (section "answer" v)
  ]

  -- `_narrate_from_findings`; `none` is an exception, which nothing catches.
  unfoldable pub narrate_from_findings :
      Config Float → Execution Float → Client Float → Option Narrative
  unfolding facts local_narrative answer_prompt json_call
  narrate_from_findings cfg x client = elim (summarise x) [
    | summary_failed e ↦ none
    | summarised f c ↦ do
      given ← facts cfg x f
      r ←
          json_call zero_float loads cfg client answer_system (answer_prompt S x given)
            answer_schema
      local_narrative x f c given r
  ]

  -- What `narrate` makes of the two sections.
  unfoldable pub sections_narrative : Execution Float → String → String → Narrative
  unfolding fallback unsubstantiated
  sections_narrative x f c = elim (unsubstantiated chars f) [
    | some why ↦ fallback x (thin why)
    | none ↦ record { findings = f; next_checks = c; source = model; note = none }
  ]

  -- A section that is missing is an exception, which is caught.
  unfoldable pub hosted_sections :
      Execution Float → Option (Json Float) → Option (Json Float) → Narrative
  unfolding sections_narrative bullets
  hosted_sections x none c = fallback x missing_section
  hosted_sections x (some f) none = fallback x missing_section
  hosted_sections x (some f) (some c) =
      sections_narrative x (bullets chars shown f) (bullets chars shown c)

  -- `narrate` on a hosted model's reply.
  unfoldable pub hosted_narrative : Execution Float → Reply Float → Narrative
  unfolding hosted_sections
  hosted_narrative x r = elim r.payload [
    | none ↦ fallback x (model_failed r.reason)
    | some v ↦ hosted_sections x (section "findings" v) (section "next_checks" v)
  ]

  -- `narrate`, given the client or None.
  unfoldable pub narrate : Config Float → Execution Float → Option (Client Float) → Option Narrative
  unfolding narrate_from_findings hosted_narrative sections_prompt json_call
  narrate cfg x none = some (fallback x (no_client cfg.provider))
  narrate cfg x (some client) =
      if str_eq cfg.provider "ollama"
      then narrate_from_findings cfg x client
      else json_call zero_float loads cfg client system
          (sections_prompt S x (pos_part cfg.narrator_max_items)) sections_schema
        >>= λ r. some (hosted_narrative x r)
