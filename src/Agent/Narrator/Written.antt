-- ===== src/Agent/Narrator/Written.antt =====
-- What `narrate` of python/analytics/agent/narrator.py promises of its narrative, with the hosted
-- provider.
use quer_project_q.Common.{
  String, ◌≡◌, refl, true, false, Option, none, some, Option-cases, inl, inr, ◌⊎◌, str_eq,
  str_eq_iff, arith, pos_part,
}
use quer_project_q.Agent.Json.{Json}
use quer_project_q.Agent.Config.{Config}
use quer_project_q.Agent.Executor.{Execution}
use quer_project_q.Agent.Model.{Client, Reply, json_call, anthropic_call}
use quer_project_q.Agent.Narrator.{
  Note, Narrative, template, model, Summary, summarised, summary_failed, thin, no_client,
  model_failed, missing_section, unsubstantiated,
}
use quer_project_q.Agent.Narrator.Prompt.{Setting, sections_schema, section, sections_prompt}
use quer_project_q.Agent.Narrator.Writing.{
  Report, fallback_on, fallback, sections_narrative, hosted_sections, hosted_narrative, narrate,
}

-- The template's narrative, with the reason why.
abbrev pub IsFallback : Narrative → Type 0
IsFallback n = (n.source ≡ template) × (why : Note) × (n.note ≡ some why)

-- The model's, with no reason.
abbrev pub IsModel : Narrative → Type 0
IsModel n = (n.source ≡ model) × (n.note ≡ none)

pub hosted_not_local : (s : String) → str_eq s "anthropic" ≡ true → str_eq s "ollama" ≡ false
hosted_not_local s h = let e : s ≡ "anthropic" = (str_eq_iff s "anthropic").0 h in rw e refl

module _ {Float : Type 0} (S : Setting Float) (R : Report Float) where
  open S use {chars, decimals, shown, loads, zero_float, system, answer_system}
  open R use {summarise}

  fallback_on-IsFallback : (why : Note) (s : Summary) → IsFallback (fallback_on S R why s)
  unfolding fallback_on
  fallback_on-IsFallback why (summarised f c) = (refl, why, refl)
  fallback_on-IsFallback why (summary_failed e) = (refl, _, refl)

  pub fallback-IsFallback : (x : Execution Float) (why : Note) → IsFallback (fallback S R x why)
  unfolding fallback
  fallback-IsFallback x why = fallback_on-IsFallback why (summarise x)

  -- The template's narrative, or sections of the model's that say something.
  abbrev pub HostedWritten : Narrative → Type 0
  HostedWritten n = IsFallback n ⊎ (IsModel n × (unsubstantiated chars n.findings ≡ none))

  sections-HostedWritten :
      (x : Execution Float) (f c : String) → HostedWritten (sections_narrative S R x f c)
  unfolding sections_narrative
  sections-HostedWritten x f c = elim (Option-cases (unsubstantiated chars f)) [
    | inl fine ↦ ground (arith, fine)
    | inr (why, bad) ↦
        let same : sections_narrative S R x f c ≡ fallback S R x (thin why) = ground (arith, bad) in
        rw same (inl (fallback-IsFallback x (thin why)))
  ]

  payload-HostedWritten :
      (x : Execution Float) (f c : Option (Json Float)) → HostedWritten (hosted_sections S R x f c)
  unfolding hosted_sections
  payload-HostedWritten x none c = inl (fallback-IsFallback x missing_section)
  payload-HostedWritten x (some f) none = inl (fallback-IsFallback x missing_section)
  payload-HostedWritten x (some f) (some c) = sections-HostedWritten x _ _

  pub hosted-HostedWritten :
      (x : Execution Float) (r : Reply Float) → HostedWritten (hosted_narrative S R x r)
  unfolding hosted_narrative
  hosted-HostedWritten x r = elim (Option-cases r.payload) [
    | inl failed ↦
        let same : hosted_narrative S R x r ≡ fallback S R x (model_failed r.reason) =
          ground (arith, failed) in
        rw same (inl (fallback-IsFallback x (model_failed r.reason)))
    | inr (v, e) ↦
        let same : hosted_narrative S R x r
            ≡ hosted_sections S R x (section "findings" v) (section "next_checks" v) =
          ground (arith, e) in
        rw same (payload-HostedWritten x (section "findings" v) (section "next_checks" v))
  ]

  -- With the hosted provider the narrator always returns a narrative, whatever the model answered
  -- and whether or not the template fails. It is the template's, with the reason why, or the
  -- model's, whose findings are not empty, hold a bullet and are not only lead-ins.
  pub narrate-hosted :
      (cfg : Config Float) (x : Execution Float) (client : Option (Client Float))
      → str_eq cfg.provider "anthropic" ≡ true
      → (n : Narrative) × (narrate S R cfg x client ≡ some n) × HostedWritten n
  unfolding narrate json_call
  narrate-hosted cfg x none h = (_, refl, inl (fallback-IsFallback x (no_client cfg.provider)))
  narrate-hosted cfg x (some client) h =
      let prompt = sections_prompt S x (pos_part cfg.narrator_max_items) in
      let r = anthropic_call zero_float loads cfg client system prompt sections_schema in
      (
        hosted_narrative S R x r,
        rw (h, hosted_not_local cfg.provider h) refl,
        hosted-HostedWritten x r,
      )
