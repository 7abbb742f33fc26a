-- ===== src/Agent/Narrator/Raised.antt =====
-- When `narrate` of python/analytics/agent/narrator.py raises.
use mathlib.Core.Path.{subst}
use quer_project_q.Common.{
  String, ◌≡◌, refl, Bool, true, false, if◌then◌else◌, Bool-cases, Option, none, some, Option-cases,
  inl, inr, ◌⊎◌, str_eq, arith, ◌>>=◌, sym, pos_part,
}
use quer_project_q.Agent.Json.{Json, null, bool, int, num, str, arr, obj}
use quer_project_q.Agent.Config.{Config}
use quer_project_q.Agent.Executor.{Execution}
use quer_project_q.Agent.Model.{Client, Reply, ollama_body, json_call}
use quer_project_q.Agent.Model.Replies.{Raises, CallReply, json_call-CallReply}
use quer_project_q.Agent.Narrator.{
  Narrative, Summary, summarised, summary_failed, thin, no_client, model_failed, missing_section,
  bullets, unsubstantiated, ungrounded,
}
use quer_project_q.Agent.Narrator.Text.{is_empty}
use quer_project_q.Agent.Narrator.Prompt.{
  Setting, answer_schema, sections_schema, section, asked, answer_prompt, sections_prompt,
}
use quer_project_q.Agent.Narrator.Writing.{
  Report, fallback, facts, thin_answer, labelled, answered, local_answer, local_narrative,
  narrate_from_findings, hosted_narrative, narrate,
}
use quer_project_q.Agent.Narrator.Local.{substantiated_lines}
use quer_project_q.Agent.Narrator.Written.{
  IsFallback, IsModel, HostedWritten, fallback-IsFallback, hosted-HostedWritten, hosted_not_local,
}

if_false : {A : Type 0} (b : Bool) (a c : A) → b ≡ false → (if b then a else c) ≡ c
if_false b a c h = rw h refl

module _ {Float : Type 0} (S : Setting Float) (R : Report Float) where
  open S use {chars, decimals, shown, loads, zero_float, system, answer_system}
  open R use {summarise}

  -- The template's narrative with the reason why, or the model's.
  abbrev pub IsNarrative : Narrative → Type 0
  IsNarrative n = IsFallback n ⊎ IsModel n

  abbrev pub IsNoText : Json Float → Type 0
  IsNoText (str s) = ⊥
  IsNoText v = Unit

  -- There is no text that was asked: no question, and a goal that is none.
  abbrev pub HasNoText : Execution Float → Type 0
  HasNoText x = (is_empty x.plan.question ≡ true) × IsNoText x.plan.goal

  asked-HasNoText :
      (x : Execution Float) (v : Json Float) → asked S x ≡ v → IsNoText v → HasNoText x
  asked-HasNoText x v e h = elim (Bool-cases (is_empty x.plan.question)) [
    | inl empty ↦ let goal : x.plan.goal ≡ v = rw empty at e in (empty, rw goal h)
    | inr full ↦
        let question : str x.plan.question ≡ v = rw full at e in
        absurd (subst IsNoText (sym question) h)
  ]

  -- What is made of the local model's reply.
  abbrev LocalResult : Execution Float → Option Narrative → Type 0
  LocalResult x (some n) = IsNarrative n
  LocalResult x none = HasNoText x

  answered-LocalResult :
      (x : Execution Float) (f c answer : String)
      → unsubstantiated chars answer ≡ none
      → LocalResult x (answered S R x f c answer none)
  unfolding answered labelled
  answered-LocalResult x f c answer fine =
      let lines = substantiated_lines chars decimals answer fine in rw lines.2 (inr (refl, refl))

  not_text :
      (x : Execution Float) (f c given answer : String) (v : Json Float)
      → thin_answer S R answer given v ≡ none
      → HasNoText x
      → LocalResult x (thin_answer S R answer given v >>= answered S R x f c answer)
  not_text x f c given answer v e h = rw (e, LocalResult) h

  thin-LocalResult :
      (x : Execution Float) (f c given answer : String) (v : Json Float)
      → unsubstantiated chars answer ≡ none
      → asked S x ≡ v
      → LocalResult x (thin_answer S R answer given v >>= answered S R x f c answer)
  unfolding thin_answer answered
  thin-LocalResult x f c given answer (str q) fine e =
      elim (Option-cases (ungrounded chars decimals answer given q)) [
        | inl carried ↦
            let same : (thin_answer S R answer given (str q) >>= answered S R x f c answer)
                ≡ answered S R x f c answer none =
              ground (arith, fine, carried) in
            subst (LocalResult x) (sym same) (answered-LocalResult x f c answer fine)
        | inr (why, bad) ↦
            let same : (thin_answer S R answer given (str q) >>= answered S R x f c answer)
                ≡ some (fallback S R x (thin why)) =
              ground (arith, fine, bad) in
            rw (same, LocalResult) (inl (fallback-IsFallback S R x (thin why)))
      ]
  thin-LocalResult x f c given answer null fine e =
      not_text x f c given answer null (ground (arith, fine)) (asked-HasNoText x null e tt)
  thin-LocalResult x f c given answer (bool b) fine e =
      not_text x f c given answer (bool b) (ground (arith, fine)) (asked-HasNoText x (bool b) e tt)
  thin-LocalResult x f c given answer (int n) fine e =
      not_text x f c given answer (int n) (ground (arith, fine)) (asked-HasNoText x (int n) e tt)
  thin-LocalResult x f c given answer (num n) fine e =
      not_text x f c given answer (num n) (ground (arith, fine)) (asked-HasNoText x (num n) e tt)
  thin-LocalResult x f c given answer (arr vs) fine e =
      not_text x f c given answer (arr vs) (ground (arith, fine)) (asked-HasNoText x (arr vs) e tt)
  thin-LocalResult x f c given answer (obj fs) fine e =
      not_text x f c given answer (obj fs) (ground (arith, fine)) (asked-HasNoText x (obj fs) e tt)

  judged-LocalResult :
      (x : Execution Float) (f c given answer : String)
      → LocalResult x (thin_answer S R answer given (asked S x) >>= answered S R x f c answer)
  unfolding thin_answer answered
  judged-LocalResult x f c given answer = elim (Option-cases (unsubstantiated chars answer)) [
    | inr (why, bad) ↦
        let same : (thin_answer S R answer given (asked S x) >>= answered S R x f c answer)
            ≡ some (fallback S R x (thin why)) =
          ground (arith, bad) in
        rw (same, LocalResult) (inl (fallback-IsFallback S R x (thin why)))
    | inl fine ↦ thin-LocalResult x f c given answer (asked S x) fine refl
  ]

  answer-LocalResult :
      (x : Execution Float) (f c given : String) (a : Option (Json Float))
      → LocalResult x (local_answer S R x f c given a)
  unfolding local_answer
  answer-LocalResult x f c given none = inl (fallback-IsFallback S R x missing_section)
  answer-LocalResult x f c given (some a) = judged-LocalResult x f c given (bullets chars shown a)

  local-LocalResult :
      (x : Execution Float) (f c given : String) (r : Reply Float)
      → LocalResult x (local_narrative S R x f c given r)
  unfolding local_narrative
  local-LocalResult x f c given r = elim (Option-cases r.payload) [
    | inl failed ↦
        rw (failed, local_narrative) (inl (fallback-IsFallback S R x (model_failed r.reason)))
    | inr (v, e) ↦ rw (e, local_narrative) (answer-LocalResult x f c given (section "answer" v))
  ]

  -- Why the narrator of the local provider raises: the template fails; or its figures or tables do;
  -- or the model's reply is misshapen; or there is no text that was asked.
  abbrev pub LocalRaises : Config Float → Execution Float → Client Float → Type 0
  LocalRaises cfg x client =
      ((e : String) × (summarise x ≡ summary_failed e))
      ⊎ ((f c : String) × (summarise x ≡ summarised f c)
          × ((facts S R cfg x f ≡ none)
              ⊎ ((given : String) × (facts S R cfg x f ≡ some given)
                  × (Raises zero_float loads (
                        client.chat
                          (ollama_body cfg answer_system (answer_prompt S x given) answer_schema))
                      ⊎ HasNoText x))))

  -- A narrative; or the exception, for which there is a client that is not the hosted one.
  abbrev pub NarrateResult :
      Config Float → Execution Float → Option (Client Float) → Option Narrative → Type 0
  NarrateResult cfg x client (some n) = IsNarrative n
  NarrateResult cfg x none none = ⊥
  NarrateResult cfg x (some client) none =
      (str_eq cfg.provider "anthropic" ≡ false)
      × ((str_eq cfg.provider "ollama" ≡ false) ⊎ LocalRaises cfg x client)

  facts-NarrateResult :
      (cfg : Config Float) (x : Execution Float) (client : Client Float) (f c given : String)
      (o : Option (Reply Float))
      → str_eq cfg.provider "anthropic" ≡ false
      → str_eq cfg.provider "ollama" ≡ true
      → summarise x ≡ summarised f c
      → facts S R cfg x f ≡ some given
      → CallReply zero_float loads cfg client
          (ollama_body cfg answer_system (answer_prompt S x given) answer_schema)
          o
      → NarrateResult cfg x (some client) (o >>= local_narrative S R x f c given)
  facts-NarrateResult cfg x client f c given none other local told e (_, inl unknown) =
      absurd (ground (arith, local, unknown))
  facts-NarrateResult cfg x client f c given none other local told e (_, inr bad) =
      (other, inr (inr (f, c, told, inr (given, e, inl bad))))
  facts-NarrateResult cfg x client f c given (some r) other local told e h =
      local_result (local_narrative S R x f c given r) (local-LocalResult x f c given r)
    where
      local_result : (o : Option Narrative) → LocalResult x o → NarrateResult cfg x (some client) o
      local_result (some n) k = k
      local_result none k = (other, inr (inr (f, c, told, inr (given, e, inr k))))

  findings-NarrateResult :
      (cfg : Config Float) (x : Execution Float) (client : Client Float)
      → str_eq cfg.provider "anthropic" ≡ false
      → str_eq cfg.provider "ollama" ≡ true
      → NarrateResult cfg x (some client) (narrate_from_findings S R cfg x client)
  unfolding narrate_from_findings
  findings-NarrateResult cfg x client other local = go (summarise x) refl
    where
      after_facts :
          (f c : String) (o : Option String)
          → summarise x ≡ summarised f c
          → facts S R cfg x f ≡ o
          → NarrateResult cfg x (some client) (
              o >>= λ given.
              json_call zero_float loads cfg client answer_system
                (answer_prompt S x given)
                answer_schema
              >>= local_narrative S R x f c given)
      after_facts f c none told e = (other, inr (inr (f, c, told, inl e)))
      after_facts f c (some given) told e =
          facts-NarrateResult cfg x client f c given _ other local told e (
            json_call-CallReply zero_float loads cfg client answer_system (answer_prompt S x given)
              answer_schema)

      go :
          (s : Summary)
          → summarise x ≡ s
          → NarrateResult cfg x (some client) (narrate_from_findings S R cfg x client)
      go (summary_failed e) told =
          rw (told, narrate_from_findings, NarrateResult) (other, inr (inl (e, told)))
      go (summarised f c) told =
          rw (told, narrate_from_findings, NarrateResult)
            (after_facts f c (facts S R cfg x f) told refl)

  hosted-NarrateResult :
      (cfg : Config Float) (x : Execution Float) (client : Client Float) (body : Json Float)
      (o : Option (Reply Float))
      → str_eq cfg.provider "ollama" ≡ false
      → CallReply zero_float loads cfg client body o
      → NarrateResult cfg x (some client) (o >>= λ r. some (hosted_narrative S R x r))
  hosted-NarrateResult cfg x client body none other h = (h.0, inl other)
  hosted-NarrateResult cfg x client body (some r) other h =
      written (hosted_narrative S R x r) (hosted-HostedWritten S R x r)
    where
      written : (n : Narrative) → HostedWritten S R n → IsNarrative n
      written n (inl back) = inl back
      written n (inr by_model) = inr by_model.0

  local_not_hosted : (s : String) → str_eq s "ollama" ≡ true → str_eq s "anthropic" ≡ false
  local_not_hosted s h = elim (Bool-cases (str_eq s "anthropic")) [
    | inl hosted ↦ absurd (ground (arith, h, hosted_not_local s hosted))
    | inr other ↦ other
  ]

  -- The narrator returns the template's narrative with a reason, or the model's, but where there is
  -- a client that is not the hosted one and either the provider is unknown or the template fails,
  -- its figures or tables do, the local model's reply is misshapen, or there is neither a question
  -- nor a goal that is a text. Without a client, and with the hosted one, it always returns.
  pub narrate-NarrateResult :
      (cfg : Config Float) (x : Execution Float) (client : Option (Client Float))
      → NarrateResult cfg x client (narrate S R cfg x client)
  unfolding narrate
  narrate-NarrateResult cfg x none = inl (fallback-IsFallback S R x (no_client cfg.provider))
  narrate-NarrateResult cfg x (some client) = elim (Bool-cases (str_eq cfg.provider "ollama")) [
    | inl local ↦
        rw (local, NarrateResult)
          (findings-NarrateResult cfg x client (local_not_hosted cfg.provider local) local)
    | inr other ↦
        let prompt = sections_prompt S x (pos_part cfg.narrator_max_items) in
        let call = json_call zero_float loads cfg client system prompt sections_schema in
        subst (NarrateResult cfg x (some client))
          (sym (
            if_false (str_eq cfg.provider "ollama") (narrate_from_findings S R cfg x client)
              (call >>= λ r. some (hosted_narrative S R x r)) other))
          (hosted-NarrateResult cfg x client _ call other
            (json_call-CallReply zero_float loads cfg client system prompt sections_schema))
  ]
