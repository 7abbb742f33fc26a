-- ===== src/Agent/Narrator/Local.antt =====
-- What `narrate` of python/analytics/agent/narrator.py promises with the local provider.
use Prim.Native.String.append
use quer_project_q.Common.{
  String, ◌≡◌, refl, true, false, Bool-cases, Option, none, some, Option-cases, inl, inr, ◌⊎◌, List,
  [], ◌∷◌, ◌++◌, str_eq, str_append, arith, All, ◌>>=◌, ap, sym, ◌∙◌,
}
use quer_project_q.Agent.Json.{Json, str}
use quer_project_q.Agent.Config.{Config}
use quer_project_q.Agent.Executor.{Execution}
use quer_project_q.Agent.Model.{Client, Reply, json_call}
use quer_project_q.Agent.Narrator.{
  Narrative, model, summarised, thin, model_failed, missing_section, Decimals, bullets,
  unsubstantiated, is_carried, first_uncarried, ungrounded,
}
use quer_project_q.Agent.Narrator.Text.{Chars, is_empty, numbers, splitlines, strip_marker, join}
use quer_project_q.Agent.Narrator.Prompt.{Setting, answer_schema, section, answer_prompt}
use quer_project_q.Agent.Narrator.Writing.{
  Report, fallback, facts, thin_answer, label, labelled, indented, answered, local_answer,
  local_narrative, narrate_from_findings, narrate,
}
use quer_project_q.Agent.Narrator.Written.{IsFallback, IsModel, fallback-IsFallback}

module _ {Float : Type 0} (chars : Chars) (decimals : Decimals Float) where
  first_uncarried-All :
      (known ns : List String)
      → first_uncarried chars decimals known ns ≡ none
      → All (λ n. is_carried chars decimals known n ≡ true) ns
  unfolding first_uncarried
  first_uncarried-All known [] h = tt
  first_uncarried-All known (n ∷ ns) h = elim (Bool-cases (is_carried chars decimals known n)) [
    | inl carried ↦ (carried, first_uncarried-All known ns (ground (arith, carried)))
    | inr foreign ↦ absurd (ground (arith, foreign))
  ]

  pub substantiated_lines :
      (s : String)
      → unsubstantiated chars s ≡ none
      → (first : String) × (rest : List String) × (splitlines s ≡ first ∷ rest)
  unfolding unsubstantiated
  substantiated_lines s h = elim (lines_cases (splitlines s)) [
    | inl empty ↦ absurd (ground (arith, empty, h))
    | inr found ↦ found
  ]
    where
      lines_cases :
          (ls : List String)
          → (ls ≡ []) ⊎ ((first : String) × (rest : List String) × (ls ≡ first ∷ rest))
      lines_cases [] = inl refl
      lines_cases (first ∷ rest) = inr (first, rest, refl)

module _ {Float : Type 0} (S : Setting Float) (R : Report Float) where
  open S use {chars, decimals, shown, loads, zero_float, system, answer_system}
  open R use {summarise}

  -- The lines after the first of an answer, each on a line of its own and indented.
  abbrev pub nested : List String → String
  nested [] = ""
  nested (line ∷ lines) = str_append "\n" (str_append (str_append "  " line) (nested lines))

  append_empty : (s : String) → str_append s "" ≡ s
  append_empty String.[] = append.nil ""
  append_empty (String.◌∷◌ c s) = append.cons c s "" ∙ ap (λ t. String.◌∷◌ c t) (append_empty s)

  join-nested :
      (first : String) (rest : List String)
      → join "\n" (first ∷ indented S R rest) ≡ str_append first (nested rest)
  unfolding join
  join-nested first [] = sym (append_empty first)
  join-nested first (line ∷ rest) =
      ap (λ t. str_append first (str_append "\n" t)) (join-nested (str_append "  " line) rest)

  -- The answer is written in full: its first line without the marker after the label, the other
  -- lines under it, and the template's findings below.
  abbrev pub IsWritten : String → String → String → Type 0
  IsWritten answer findings text =
      (first : String) × (rest : List String) × (splitlines answer ≡ first ∷ rest)
      × (text
          ≡ str_append
              (str_append (str_append "- **Answer.** " (strip_marker chars first)) (nested rest))
              (str_append "\n" findings))

  -- The model's answer above the template's findings, and the template's checks. The answer has a
  -- bullet, and each number in it is a digit or is carried by what the model was given.
  abbrev pub Answered : Execution Float → String → String → String → String → Narrative → Type 0
  Answered x findings next_checks given answer n =
      IsModel n
      × IsWritten answer findings n.findings
      × (n.next_checks ≡ next_checks)
      × (unsubstantiated chars answer ≡ none)
      × All
          (λ m.
            is_carried chars decimals (numbers chars given ++ numbers chars x.plan.question) m
            ≡ true)
          (numbers chars answer)

  abbrev Judged : Execution Float → String → String → String → String → Narrative → Type 0
  Judged x findings next_checks given answer n =
      IsFallback n ⊎ Answered x findings next_checks given answer n

  -- The template's narrative, or one with the answer of the model's reply.
  abbrev pub LocalWritten :
      Execution Float → String → String → String → Reply Float → Narrative → Type 0
  LocalWritten x findings next_checks given r n =
      IsFallback n
      ⊎ ((v a : Json Float) × (r.payload ≡ some v)
          × (section "answer" v ≡ some a)
          × Answered x findings next_checks given (bullets chars shown a) n)

  grounded :
      (x : Execution Float) (answer given : String)
      → ungrounded chars decimals answer given x.plan.question ≡ none
      → All
          (λ m.
            is_carried chars decimals (numbers chars given ++ numbers chars x.plan.question) m
            ≡ true)
          (numbers chars answer)
  unfolding ungrounded
  grounded x answer given h = first_uncarried-All chars decimals _ (numbers chars answer) h

  substantiated-Judged :
      (x : Execution Float) (f c given answer : String)
      → unsubstantiated chars answer ≡ none
      → ungrounded chars decimals answer given x.plan.question ≡ none
      → (n : Narrative) × (answered S R x f c answer none ≡ some n) × Judged x f c given answer n
  unfolding answered labelled label
  substantiated-Judged x f c given answer fine carried =
      let lines = substantiated_lines chars decimals answer fine in
      let top = str_append "- **Answer.** " (strip_marker chars lines.0) in
      (
        record {
          findings = str_append (str_append top (nested lines.1)) (str_append "\n" f);
          next_checks = c;
          source = model;
          note = none;
        },
        rw (lines.2, sym (join-nested top lines.1)) refl,
        inr (
          (refl, refl),
          (lines.0, lines.1, lines.2, refl),
          refl,
          fine,
          grounded x answer given carried,
        ),
      )

  verdict-Judged :
      (x : Execution Float) (f c given answer : String)
      → (n : Narrative) × ((thin_answer S R answer given (str x.plan.question)
            >>= answered S R x f c answer)
          ≡ some n)
        × Judged x f c given answer n
  unfolding thin_answer answered
  verdict-Judged x f c given answer = elim (Option-cases (unsubstantiated chars answer)) [
    | inr (why, bad) ↦
        (fallback S R x (thin why), ground (arith, bad), inl (fallback-IsFallback S R x (thin why)))
    | inl fine ↦ elim (Option-cases (ungrounded chars decimals answer given x.plan.question)) [
      | inr (why, bad) ↦ (
        fallback S R x (thin why),
        ground (arith, fine, bad),
        inl (fallback-IsFallback S R x (thin why)),
      )
      | inl carried ↦
          let written = substantiated-Judged x f c given answer fine carried in
          (written.0, ground (arith, fine, carried, written.1), written.2)
    ]
  ]

  Judged-LocalWritten :
      (x : Execution Float) (f c given : String) (r : Reply Float) (v a : Json Float)
      (n : Narrative)
      → r.payload ≡ some v
      → section "answer" v ≡ some a
      → Judged x f c given (bullets chars shown a) n
      → LocalWritten x f c given r n
  Judged-LocalWritten x f c given r v a n e same (inl back) = inl back
  Judged-LocalWritten x f c given r v a n e same (inr by_model) = inr (v, a, e, same, by_model)

  answer-LocalWritten :
      (x : Execution Float) (f c given : String) (r : Reply Float) (v : Json Float)
      (o : Option (Json Float))
      → is_empty x.plan.question ≡ false
      → r.payload ≡ some v
      → section "answer" v ≡ o
      → (n : Narrative) × (local_answer S R x f c given o ≡ some n) × LocalWritten x f c given r n
  unfolding local_answer
  answer-LocalWritten x f c given r v none h e same =
      (fallback S R x missing_section, refl, inl (fallback-IsFallback S R x missing_section))
  answer-LocalWritten x f c given r v (some a) h e same =
      let written = verdict-Judged x f c given (bullets chars shown a) in
      (written.0, rw h written.1, Judged-LocalWritten x f c given r v a written.0 e same written.2)

  local-LocalWritten :
      (x : Execution Float) (f c given : String) (r : Reply Float)
      → is_empty x.plan.question ≡ false
      → (n : Narrative) × (local_narrative S R x f c given r ≡ some n)
        × LocalWritten x f c given r n
  unfolding local_narrative
  local-LocalWritten x f c given r h = elim (Option-cases r.payload) [
    | inl failed ↦ (
      fallback S R x (model_failed r.reason),
      ground (arith, failed),
      inl (fallback-IsFallback S R x (model_failed r.reason)),
    )
    | inr (v, e) ↦
        let written = answer-LocalWritten x f c given r v (section "answer" v) h e refl in
        (written.0, ground (arith, e, written.1), written.2)
  ]

  -- With the local provider, where the template and its tables can be made, the question is not
  -- empty and the call of the model returns, the narrator returns a narrative. It is the
  -- template's, with the reason why, or it writes the answer of the model's reply: all of its lines
  -- stand under one label, it has a bullet and states no number of two digits or more that the
  -- facts and the question do not carry, and the template's findings follow in full; the checks
  -- are the template's.
  pub narrate-local :
      (cfg : Config Float) (x : Execution Float) (client : Client Float) (f c given : String)
      (r : Reply Float)
      → str_eq cfg.provider "ollama" ≡ true
      → is_empty x.plan.question ≡ false
      → summarise x ≡ summarised f c
      → facts S R cfg x f ≡ some given
      → json_call zero_float loads cfg client answer_system (answer_prompt S x given) answer_schema
        ≡ some r
      → (n : Narrative) × (narrate S R cfg x (some client) ≡ some n) × LocalWritten x f c given r n
  unfolding narrate narrate_from_findings
  narrate-local cfg x client f c given r local there done told called =
      let written = local-LocalWritten x f c given r there in
      (written.0, ground (arith, local, done, told, called, written.1), written.2)
