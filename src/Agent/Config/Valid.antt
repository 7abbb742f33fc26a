-- ===== src/Agent/Config/Valid.antt =====
-- What a configuration that was loaded satisfies.
use quer_project_q.Common.{
  ◌≡◌, ◌⊎◌, ◌↔◌, ◌≢◌, inl, inr, refl, String, Bool, true, false, none, some, Option-cases,
  Bool-cases, All, List, [], ◌∷◌, arith, ◌&&◌, ltb_ℤ, ℤ, pos, ◌≤ℤ◌, str_eq, str_eq_iff,
}
use quer_project_q.Agent.Json.{obj, Fields, fields, Dict}
use quer_project_q.Agent.Config.{
  whole, Numbers, Config, ConfigError, Kind, known, kind_in, has_kind, one_of, parsed, loaded,
  raises, think_ok, unknown_in, ill_typed_in, set_fields, Dict,
}
use quer_project_q.Agent.Config.Load.{
  default_config, efforts, providers, plannings, checks, first_error, post_init, build, load_json,
  load_config,
}

context_iff :
    (s : String) (n : ℤ)
    → ((str_eq s "ollama" && ltb_ℤ n (pos 6144)) ≡ false) ↔ ((s ≢ "ollama") ⊎ (pos 6144 ≤ℤ n))
context_iff s n = elim (Bool-cases (str_eq s "ollama")) [
  | inl same ↦ (
    λ h. inr (ground (arith, same, h)),
    λ h. elim h [
      | inl other ↦ absurd (other ((str_eq_iff s "ollama").0 same))
      | inr wide ↦ ground (arith, same, wide)
    ],
  )
  | inr different ↦ (
    λ h. inl (λ e. ground (arith, different, (str_eq_iff s "ollama").1 e)),
    λ h. ground (arith, different),
  )
]

-- A test that does not fail.
abbrev Passes : Bool × ConfigError → Type 0
Passes (failed, e) = failed ≡ false

first_error-Passes : (cs : List (Bool × ConfigError)) → (first_error cs ≡ none) ↔ All Passes cs
unfolding first_error
first_error-Passes [] = (λ h. tt, λ h. refl)
first_error-Passes ((true, e) ∷ cs) =
    (λ h. absurd (ground arith), λ h. absurd (ground (arith, h.0)))
first_error-Passes ((false, e) ∷ cs) =
    let rest = first_error-Passes cs in (λ h. (refl, rest.0 h), λ h. rest.1 h.1)

module _ {Float : Type 0} (N : Numbers Float) where
  open N use {at_least}

  -- What the analyses may rely on.
  pub record IsValid (c : Config Float) : Type 0 where
    pub band : at_least c.torque_min c.torque_max ≡ false
    pub idle_min : pos 1 ≤ℤ c.idle_min_seconds
    pub idle_max_gap : pos 1 ≤ℤ c.idle_max_gap_seconds
    pub mad_k : at_least (whole (pos 0)) c.mad_k ≡ false
    pub effort : one_of c.effort efforts ≡ true
    pub tokens : pos 1024 ≤ℤ c.max_tokens
    pub provider : one_of c.provider providers ≡ true
    pub think : think_ok c.think ≡ true
    pub planning : one_of c.planning plannings ≡ true
    pub narrator_max : pos 1 ≤ℤ c.narrator_max_items
    pub anomaly_max : pos 1 ≤ℤ c.max_anomaly_items
    pub context : (c.provider ≢ "ollama") ⊎ (pos 6144 ≤ℤ c.num_ctx)

  checks-IsValid : (c : Config Float) → All Passes (checks N c) ↔ IsValid c
  checks-IsValid c = (
    λ h. record {
      band = h.0;
      idle_min = ground (arith, h.1.0);
      idle_max_gap = ground (arith, h.1.1.0);
      mad_k = h.1.1.1.0;
      effort = ground (arith, h.1.1.1.1.0);
      tokens = ground (arith, h.1.1.1.1.1.0);
      provider = ground (arith, h.1.1.1.1.1.1.0);
      think = ground (arith, h.1.1.1.1.1.1.1.0);
      planning = ground (arith, h.1.1.1.1.1.1.1.1.0);
      narrator_max = ground (arith, h.1.1.1.1.1.1.1.1.1.0);
      anomaly_max = ground (arith, h.1.1.1.1.1.1.1.1.1.1.0);
      context = (context_iff c.provider c.num_ctx).0 h.1.1.1.1.1.1.1.1.1.1.1.0;
    },
    λ v. (
      v.band,
      (
        ground (arith, v.idle_min),
        (
          ground (arith, v.idle_max_gap),
          (
            v.mad_k,
            (
              ground (arith, v.effort),
              (
                ground (arith, v.tokens),
                (
                  ground (arith, v.provider),
                  (
                    ground (arith, v.think),
                    (
                      ground (arith, v.planning),
                      (
                        ground (arith, v.narrator_max),
                        (
                          ground (arith, v.anomaly_max),
                          ((context_iff c.provider c.num_ctx).1 v.context, tt),
                        ),
                      ),
                    ),
                  ),
                ),
              ),
            ),
          ),
        ),
      ),
    ),
  )

  -- `Config` accepts the settings that are valid, and no others.
  pub post_init-IsValid : (c : Config Float) → (post_init N c ≡ none) ↔ IsValid c
  unfolding post_init
  post_init-IsValid c =
      let passed = first_error-Passes (checks N c) in
      let valid = checks-IsValid c in (λ h. valid.0 (passed.0 h), λ v. passed.1 (valid.1 v))

  build-loaded : (d c : Config Float) → build N d ≡ loaded c → (d ≡ c) × IsValid c
  build-loaded d c h = elim (Option-cases (post_init N d)) [
    | inr (e, bad) ↦ absurd (ground (arith, bad, h))
    | inl fine ↦
        let same : d ≡ c = ground (arith, fine, h) in
        (same, rw same at ((post_init-IsValid d).0 fine))
  ]

  loaded-build : (d c : Config Float) → d ≡ c → IsValid c → build N d ≡ loaded c
  loaded-build d c same valid =
      let fine : post_init N d ≡ none = (post_init-IsValid d).1 (rw same valid) in
      ground (arith, fine, same)

  -- Every key is a field, and its value has the field's type.
  abbrev pub IsTyped : Dict Float → Type 0
  IsTyped raw = All (λ f. (t : Kind) × (kind_in known f.0 ≡ some t) × (has_kind f.1 t ≡ true)) raw

  IsTyped-accepted :
      (raw : Dict Float) → IsTyped raw → (unknown_in raw ≡ none) × (ill_typed_in raw ≡ none)
  unfolding unknown_in ill_typed_in
  IsTyped-accepted [] h = (refl, refl)
  IsTyped-accepted ((k, v) ∷ raw) h =
      let rest = IsTyped-accepted raw h.1 in
      (ground (arith, h.0.1, rest.0), ground (arith, h.0.1, h.0.2, rest.1))

  accepted-IsTyped :
      (raw : Dict Float) → unknown_in raw ≡ none → ill_typed_in raw ≡ none → IsTyped raw
  unfolding unknown_in ill_typed_in
  accepted-IsTyped [] h e = tt
  accepted-IsTyped ((k, v) ∷ raw) h e = elim (Option-cases (kind_in known k)) [
    | inl bad ↦ absurd (ground (arith, bad))
    | inr (t, found) ↦ elim (Bool-cases (has_kind v t)) [
      | inl right ↦ (
        (t, found, right),
        accepted-IsTyped raw (ground (arith, found)) (ground (arith, found, right)),
      )
      | inr wrong ↦ absurd (ground (arith, found, wrong))
    ]
  ]

  -- A JSON object is loaded exactly if each key is a field, each value has the field's type, and
  -- the defaults overlaid with it are valid; that overlay is then the configuration.
  pub load_config-IsTyped :
      (fs : Fields Float) (c : Config Float)
      → (load_config N (some (parsed (obj fs))) ≡ loaded c)
        ↔ (IsTyped (fields fs) × (set_fields (fields fs) (default_config N) ≡ c) × IsValid c)
  unfolding load_config load_json
  load_config-IsTyped fs c =
      let overlay = set_fields (fields fs) (default_config N) in
      (
        λ h. elim (Option-cases (unknown_in (fields fs))) [
          | inr (e, bad) ↦ absurd (ground (arith, bad, h))
          | inl keys ↦ elim (Option-cases (ill_typed_in (fields fs))) [
            | inr (e, bad) ↦ absurd (ground (arith, keys, bad, h))
            | inl types ↦
                let built = build-loaded overlay c (ground (arith, keys, types, h)) in
                (accepted-IsTyped (fields fs) keys types, built.0, built.1)
          ]
        ],
        λ h.
            let typed = IsTyped-accepted (fields fs) h.0 in
            ground (arith, typed.0, typed.1, loaded-build overlay c h.1 h.2),
      )

  -- An object is loaded or rejected: no other exception is raised on it.
  pub load_config-object : (fs : Fields Float) → load_config N (some (parsed (obj fs))) ≢ raises
  unfolding load_config load_json
  load_config-object fs h = elim (Option-cases (unknown_in (fields fs))) [
    | inr (e, bad) ↦ ground (arith, bad, h)
    | inl keys ↦ elim (Option-cases (ill_typed_in (fields fs))) [
      | inr (e, bad) ↦ ground (arith, keys, bad, h)
      | inl types ↦ elim (Option-cases (post_init N (set_fields (fields fs) (default_config N)))) [
        | inl fine ↦ ground (arith, keys, types, fine, h)
        | inr (e, bad) ↦ ground (arith, keys, types, bad, h)
      ]
    ]
  ]
