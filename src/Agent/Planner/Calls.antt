-- ===== src/Agent/Planner/Calls.antt =====
-- What each tier of `plan` promises of the plan that it returns.
use quer_project_q.Common.{
  String, ◌≡◌, refl, Bool, true, false, Option, none, some, Option-cases, inl, inr, ◌⊎◌, List, [],
  ◌∷◌, arith, All, ◌>>=◌, if◌then◌else◌,
}
use quer_project_q.Agent.Json.{Dict, get_or_null}
use quer_project_q.Agent.Plan.{
  ReportType, not_a_report_type, Source, router, llm, Sentence, no_client, planning_failed,
  not_shaped, empty_plan, invalid_plan, PlanStep, Plan, effective_args,
}
use quer_project_q.Agent.Registry.Validate.{raises, callable, validate}
use quer_project_q.Agent.Registry.Verdicts.{Verdict-cases, validate-raises, HasUnhashable}
use quer_project_q.Agent.Router.{canned_plan, route, best, steps_of, period_json}
use quer_project_q.Agent.Router.Choice.{IsCallable, canned_plan-IsCallable, route-IsChoice}
use quer_project_q.Agent.Planner.{
  Tier, plan, select, classify, Python, Asked, has_payload, no_payload, call_raised, fallback,
  report_type, classify_plan, select_plan, compose_plan, first_refusal, steps_of_payload,
  first_trend, has_compare, with_level_check, amend, tier_plan, plan_question,
}
use quer_project_q.Agent.Planner.Level.{with_level_check-lem}

Source-cases : (s : Source) → (s ≡ router) ⊎ (s ≡ llm)
Source-cases router = inl refl
Source-cases llm = inr refl

module _ {Float : Type 0} (Py : Python Float) where
  open Py use {below, lower}

  -- Every step can be called, and the plan carries the question.
  abbrev pub IsSound : String → Plan Float → Type 0
  IsSound q p = All (IsCallable below) p.steps × (p.question ≡ q)

  -- A torque trend is accompanied by a comparison of periods.
  abbrev pub HasLevelCheck : Plan Float → Type 0
  HasLevelCheck p = (first_trend p.steps ≡ none) ⊎ (has_compare p.steps ≡ true)

  route-IsCallable :
      (q : String) (p : Option String)
      → All (IsCallable below) (route lower {Float = Float} q p).steps
  unfolding canned_plan
  route-IsCallable q p =
      let chosen : (route lower {Float = Float} q p).steps
          ≡ steps_of (best lower q) (period_json p) =
        (route-IsChoice lower q p).1 in
      rw chosen (canned_plan-IsCallable below (best lower q) p)

  pub fallback-IsCallable :
      (q : String) (p : Option String) (why : Sentence)
      → All (IsCallable below) (fallback Py q p why).steps
  unfolding fallback
  fallback-IsCallable q p why = route-IsCallable q p

  fixed-IsCallable :
      (r : ReportType) (p : Option String) (pl : Plan Float)
      → pl.steps ≡ steps_of r (period_json p)
      → All (IsCallable below) pl.steps
  unfolding canned_plan
  fixed-IsCallable r p pl e = rw e (canned_plan-IsCallable below r p)

  fallback-steps :
      (q : String) (p : Option String) (why : Sentence)
      → (fallback Py q p why).steps ≡ steps_of (best lower q) (period_json p)
  unfolding fallback
  fallback-steps q p why = (route-IsChoice lower q p).1

  -- The plan of a report type, or a call that raised.
  abbrev pub IsFixed : Option String → Asked Float → Option (Plan Float) → Type 0
  IsFixed p reply (some pl) = (r : ReportType) × (pl.steps ≡ steps_of r (period_json p))
  IsFixed p reply none = reply ≡ call_raised

  classify-IsFixed :
      (q : String) (p : Option String) (reply : Asked Float)
      → IsFixed p reply (classify_plan Py q p reply)
  unfolding classify_plan canned_plan
  classify-IsFixed q p call_raised = refl
  classify-IsFixed q p no_payload = (best lower q, fallback-steps q p planning_failed)
  classify-IsFixed q p (has_payload payload) =
      elim (Option-cases (report_type (get_or_null "report" payload))) [
        | inl bad ↦
            let same : classify_plan Py q p (has_payload payload)
                ≡ some (fallback Py q p not_a_report_type) =
              ground (arith, bad) in
            rw (same, IsFixed) (best lower q, fallback-steps q p not_a_report_type)
        | inr (r, e) ↦ fixed_choice r e
      ]
    where
      fixed_choice :
          (r : ReportType)
          → report_type (get_or_null "report" payload) ≡ some r
          → IsFixed p (has_payload payload) (classify_plan Py q p (has_payload payload))
      fixed_choice r e = rw (e, IsFixed) (r, refl)

  first_refusal-callable :
      (steps : List (PlanStep Float))
      → first_refusal Py steps ≡ callable
      → All (IsCallable below) steps
  unfolding first_refusal
  first_refusal-callable [] h = tt
  first_refusal-callable (s ∷ steps) h =
      elim (Verdict-cases (validate below s.tool (effective_args s))) [
        | inl ok ↦ (ok, first_refusal-callable steps (ground (arith, ok)))
        | inr (inl bad) ↦ absurd (ground (arith, bad))
        | inr (inr (r, bad)) ↦ absurd (ground (arith, bad))
      ]

  first_refusal-raises :
      (steps : List (PlanStep Float)) → first_refusal Py steps ≡ raises → HasUnhashable steps
  unfolding first_refusal
  first_refusal-raises [] h = absurd (ground arith)
  first_refusal-raises (s ∷ steps) h =
      elim (Verdict-cases (validate below s.tool (effective_args s))) [
        | inl ok ↦ inr (first_refusal-raises steps (ground (arith, ok)))
        | inr (inl bad) ↦ inl (validate-raises below s.tool (effective_args s) bad)
        | inr (inr (r, bad)) ↦ absurd (ground (arith, bad))
      ]

  -- What `_plan` returns: a plan that can be called; or the call raised, or the TypeError.
  Composed : Asked Float → Option (Plan Float) → Type 0
  Composed reply (some pl) = All (IsCallable below) pl.steps
  Composed call_raised none = Unit
  Composed no_payload none = ⊥
  Composed (has_payload payload) none =
      (s : List (PlanStep Float)) × (steps_of_payload Py payload ≡ some s) × HasUnhashable s

  compose_steps-Composed :
      (q : String) (p : Option String) (payload : Dict Float) (s : PlanStep Float)
      (steps : List (PlanStep Float))
      → steps_of_payload Py payload ≡ some (s ∷ steps)
      → Composed (has_payload payload) (compose_plan Py q p (has_payload payload))
  unfolding compose_plan Composed
  compose_steps-Composed q p payload s steps e =
      elim (Verdict-cases (first_refusal Py (s ∷ steps))) [
        | inl ok ↦ ground (arith, e, ok, first_refusal-callable (s ∷ steps) ok)
        | inr (inl bad) ↦ ground (arith, e, bad, first_refusal-raises (s ∷ steps) bad)
        | inr (inr (r, bad)) ↦ ground (arith, e, bad, fallback-IsCallable q p (invalid_plan r))
      ]

  compose_plan-Composed :
      (q : String) (p : Option String) (reply : Asked Float)
      → Composed reply (compose_plan Py q p reply)
  unfolding compose_plan Composed
  compose_plan-Composed q p call_raised = tt
  compose_plan-Composed q p no_payload = fallback-IsCallable q p planning_failed
  compose_plan-Composed q p (has_payload payload) =
      elim (Option-cases (steps_of_payload Py payload)) [
        | inl bad ↦ ground (arith, bad, fallback-IsCallable q p not_shaped)
        | inr ([], e) ↦ ground (arith, e, fallback-IsCallable q p empty_plan)
        | inr (s ∷ steps, e) ↦ compose_steps-Composed q p payload s steps e
      ]

  amend-Sound :
      (p : Plan Float)
      → All (IsCallable below) p.steps
      → All (IsCallable below) (amend p).steps
        × (((amend p).source ≡ router) ⊎ HasLevelCheck (amend p))
  amend-Sound p ok = elim (Source-cases p.source) [
    | inl routed ↦ (ground (arith, routed, ok), inl (ground (arith, routed)))
    | inr by_model ↦
        let same : amend p ≡ with_level_check p = ground (arith, by_model) in
        let checked = with_level_check-lem below p ok in rw same (checked.0, inr checked.1)
  ]

  -- The model was asked, and its call raised or its plan names a tool by a list or a dict.
  abbrev pub Escapes : Bool → Asked Float → Type 0
  Escapes has_client reply =
      (has_client ≡ true)
      × ((reply ≡ call_raised)
          ⊎ ((payload : Dict Float) × (s : List (PlanStep Float)) × (reply ≡ has_payload payload)
              × (steps_of_payload Py payload ≡ some s)
              × HasUnhashable s))

  -- The plan of the `plan` tier, or its exception.
  abbrev pub Answered : Bool → String → Asked Float → Option (Plan Float) → Type 0
  Answered has_client q reply (some pl) = IsSound q pl × ((pl.source ≡ router) ⊎ HasLevelCheck pl)
  Answered has_client q reply none = Escapes has_client reply

  fallback-source :
      (q : String) (p : Option String) (why : Sentence) → (fallback Py q p why).source ≡ router
  unfolding fallback route canned_plan
  fallback-source q p why = refl

  compose-Answered :
      (q : String) (reply : Asked Float) (o : Option (Plan Float))
      → Composed reply o
      → Answered true q reply
          ((o >>= λ p. some (amend p)) >>= λ p. some (record p { question = q }))
  unfolding Composed
  compose-Answered q call_raised none h = (refl, inl refl)
  compose-Answered q no_payload none h = absurd h
  compose-Answered q (has_payload payload) none h = (refl, inr (payload, h.0, refl, h.1, h.2))
  compose-Answered q reply (some pl) h =
      let amended = amend-Sound pl h in ((amended.0, refl), amended.1)

  -- The `plan` tier returns, but where there is a client and either its call raises or the model's
  -- plan names a tool by a list or a dict. What it returns carries the question; every step is one
  -- that the executor's check accepts; and unless the plan is the router's, a torque trend in it is
  -- accompanied by a comparison of periods.
  pub plan_question-Answered :
      (has_client : Bool) (q : String) (p : Option String) (reply : Asked Float)
      → Answered has_client q reply (plan_question Py plan has_client q p reply)
  unfolding plan_question tier_plan
  plan_question-Answered false q p reply =
      ((fallback-IsCallable q p no_client, refl), inl (fallback-source q p no_client))
  plan_question-Answered true q p reply =
      compose-Answered q reply (compose_plan Py q p reply) (compose_plan-Composed q p reply)

  -- The plan of the `classify` tier, or its exception.
  abbrev pub Classified : Bool → String → Option String → Asked Float → Option (Plan Float) → Type 0
  Classified has_client q p reply (some pl) = IsFixed p reply (some pl) × IsSound q pl
  Classified has_client q p reply none = (has_client ≡ true) × (reply ≡ call_raised)

  question-Classified :
      (q : String) (p : Option String) (reply : Asked Float) (o : Option (Plan Float))
      → IsFixed p reply o
      → Classified true q p reply (o >>= λ p. some (record p { question = q }))
  question-Classified q p reply none h = (refl, h)
  question-Classified q p reply (some pl) h = (h, (fixed-IsCallable h.0 p pl h.1, refl))

  -- The `classify` tier returns, but where there is a client whose call raises, the fixed plan of a
  -- report type, which can be called and carries the question.
  pub plan_question-classify :
      (has_client : Bool) (q : String) (p : Option String) (reply : Asked Float)
      → Classified has_client q p reply (plan_question Py classify has_client q p reply)
  unfolding plan_question tier_plan
  plan_question-classify false q p reply =
      ((best lower q, fallback-steps q p no_client), (fallback-IsCallable q p no_client, refl))
  plan_question-classify true q p reply =
      question-Classified q p reply (classify_plan Py q p reply) (classify-IsFixed q p reply)

  -- Without a client, or without a payload, every tier returns the router's plan for the question,
  -- and its note opens with the reason.
  pub plan_question-routed :
      (tier : Tier) (has_client : Bool) (q : String) (p : Option String) (reply : Asked Float)
      → (has_client ≡ false) ⊎ (reply ≡ no_payload)
      → plan_question Py tier has_client q p reply
        ≡ some (record (route lower q p) {
          question = q;
          note =
              (if has_client then planning_failed else no_client)
              ∷ (route lower {Float = Float} q p).note;
        })
  unfolding plan_question tier_plan classify_plan select_plan compose_plan fallback route
      canned_plan
  plan_question-routed tier false q p reply h = refl
  plan_question-routed tier true q p reply (inl e) = absurd (ground (arith, e))
  plan_question-routed plan true q p reply (inr e) = rw e refl
  plan_question-routed select true q p reply (inr e) = rw e refl
  plan_question-routed classify true q p reply (inr e) = rw e refl
