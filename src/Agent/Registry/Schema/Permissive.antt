-- ===== src/Agent/Registry/Schema/Permissive.antt =====
-- The merged schema against the check of a step.
use quer_project_q.Common.{
  ap, sym, ◌∙◌, String, ◌≡◌, refl, Bool, true, false, Bool-cases, inl, inr, Option, none, some,
  Option-cases, List, [], ◌∷◌, ◌&&◌, ◌||◌, arith, All, ℤ, str_eq, str_eq_iff,
}
use quer_project_q.Agent.Json.{Json, str, null, bool, int, num, arr, obj, Dict}
use quer_project_q.Agent.Registry.{Fragment, Params, ToolSpec, tools, find_tool, param}
use quer_project_q.Agent.Registry.Verdicts.{find_tool-All}
use quer_project_q.Agent.Registry.Validate.{
  validate, callable, check_arg, check_args, allowed_in, in_enum,
}
use quer_project_q.Agent.Registry.Schema.{all_args, text_in}

abbrev none_in : List (Option String) → Bool
none_in [] = false
none_in (none ∷ vs) = true
none_in (some v ∷ vs) = none_in vs

-- Every value of the first is in the second.
abbrev within : List (Option String) → List (Option String) → Bool
within [] ys = true
within (none ∷ xs) ys = none_in ys && within xs ys
within (some x ∷ xs) ys = text_in x ys && within xs ys

abbrev enum_within : Option (List (Option String)) → Option (List (Option String)) → Bool
enum_within xs none = true
enum_within none (some ys) = false
enum_within (some xs) (some ys) = within xs ys

-- The merged fragment of the name is this one, but for an enum that has all its values.
abbrev IsMerged : String × Fragment → Type 0
IsMerged (k, f) =
    (g : Fragment) × (param k all_args ≡ some g)
    × (g ≡ record f { enum = g.enum })
    × (enum_within f.enum g.enum ≡ true)

abbrev AreMerged : Params → Type 0
AreMerged ps = All IsMerged ps

abbrev ToolIsMerged : ToolSpec → Type 0
ToolIsMerged t = AreMerged t.params

tools-ToolIsMerged : All ToolIsMerged tools
unfolding param all_args
tools-ToolIsMerged = (
  ((_, refl, refl, refl), tt),
  (
    ((_, refl, refl, refl), ((_, refl, refl, refl), tt)),
    (
      ((_, refl, refl, refl), ((_, refl, refl, refl), ((_, refl, refl, refl), tt))),
      (
        ((_, refl, refl, refl), ((_, refl, refl, refl), tt)),
        (
          ((_, refl, refl, refl), ((_, refl, refl, refl), tt)),
          (
            ((_, refl, refl, refl), ((_, refl, refl, refl), tt)),
            (
              (
                (_, refl, refl, refl),
                ((_, refl, refl, refl), ((_, refl, refl, refl), ((_, refl, refl, refl), tt))),
              ),
              (
                ((_, refl, refl, refl), ((_, refl, refl, refl), ((_, refl, refl, refl), tt))),
                (
                  ((_, refl, refl, refl), ((_, refl, refl, refl), tt)),
                  (
                    ((_, refl, refl, refl), ((_, refl, refl, refl), tt)),
                    (
                      (
                        (_, refl, refl, refl),
                        (
                          (_, refl, refl, refl),
                          (
                            (_, refl, refl, refl),
                            ((_, refl, refl, refl), ((_, refl, refl, refl), tt)),
                          ),
                        ),
                      ),
                      (
                        ((_, refl, refl, refl), ((_, refl, refl, refl), tt)),
                        (((_, refl, refl, refl), tt), tt),
                      ),
                    ),
                  ),
                ),
              ),
            ),
          ),
        ),
      ),
    ),
  ),
)

text_in-allowed :
    (Float : Type 0) (s : String) (vs : List (Option String))
    → allowed_in {Float = Float} (str s) vs ≡ text_in s vs
unfolding allowed_in
text_in-allowed Float s [] = refl
text_in-allowed Float s (none ∷ vs) = text_in-allowed Float s vs
text_in-allowed Float s (some v ∷ vs) = ap (λ b. str_eq s v || b) (text_in-allowed Float s vs)

none_in-allowed :
    (Float : Type 0) (vs : List (Option String)) → allowed_in {Float = Float} null vs ≡ none_in vs
unfolding allowed_in
none_in-allowed Float [] = refl
none_in-allowed Float (none ∷ vs) = refl
none_in-allowed Float (some v ∷ vs) = none_in-allowed Float vs

within-text :
    (s : String) (xs ys : List (Option String))
    → within xs ys ≡ true
    → text_in s xs ≡ true
    → text_in s ys ≡ true
within-text s [] ys h e = absurd (ground arith)
within-text s (none ∷ xs) ys h e = elim (Bool-cases (none_in ys)) [
  | inl there ↦ within-text s xs ys (ground (arith, there, h)) e
  | inr absent ↦ absurd (ground (arith, absent, h))
]
within-text s (some x ∷ xs) ys h e = elim (Bool-cases (text_in x ys)) [
  | inr absent ↦ absurd (ground (arith, absent, h))
  | inl there ↦ elim (Bool-cases (str_eq s x)) [
    | inl same ↦ rw ((str_eq_iff s x).0 same) there
    | inr other ↦ within-text s xs ys (ground (arith, there, h)) (ground (arith, other, e))
  ]
]

within-none :
    (xs ys : List (Option String)) → within xs ys ≡ true → none_in xs ≡ true → none_in ys ≡ true
within-none [] ys h e = absurd (ground arith)
within-none (none ∷ xs) ys h e = elim (Bool-cases (none_in ys)) [
  | inl there ↦ there
  | inr absent ↦ absurd (ground (arith, absent, h))
]
within-none (some x ∷ xs) ys h e = elim (Bool-cases (text_in x ys)) [
  | inl there ↦ within-none xs ys (ground (arith, there, h)) e
  | inr absent ↦ absurd (ground (arith, absent, h))
]

-- Only None and a text are ever in an enum.
abbrev IsOther : {Float : Type 0} → Json Float → Type 0
IsOther null = ⊥
IsOther (str s) = ⊥
IsOther _ = Unit

other_allowed :
    {Float : Type 0} (v : Json Float) (xs : List (Option String))
    → IsOther v
    → allowed_in v xs ≡ true
    → ⊥
unfolding allowed_in
other_allowed v [] o e = ground (arith, e)
other_allowed null (x ∷ xs) o e = o
other_allowed (str s) (x ∷ xs) o e = o
other_allowed (bool b) (x ∷ xs) o e = ground (arith, e)
other_allowed (int b) (x ∷ xs) o e = ground (arith, e)
other_allowed (num b) (x ∷ xs) o e = ground (arith, e)
other_allowed (arr b) (x ∷ xs) o e = ground (arith, e)
other_allowed (obj b) (x ∷ xs) o e = ground (arith, e)

module _ {Float : Type 0} where
  in_enum-merged :
      (v : Json Float) (xs ys : Option (List (Option String)))
      → enum_within xs ys ≡ true
      → in_enum v xs ≡ true
      → in_enum v ys ≡ true
  in_enum-merged v xs none h e = refl
  in_enum-merged v none (some ys) h e = absurd (ground (arith, h))
  in_enum-merged (str s) (some xs) (some ys) h e =
      text_in-allowed Float s ys ∙ within-text s xs ys h (sym (text_in-allowed Float s xs) ∙ e)
  in_enum-merged null (some xs) (some ys) h e =
      none_in-allowed Float ys ∙ within-none xs ys h (sym (none_in-allowed Float xs) ∙ e)
  in_enum-merged (bool b) (some xs) (some ys) h e = absurd (other_allowed (bool b) xs tt e)
  in_enum-merged (int b) (some xs) (some ys) h e = absurd (other_allowed (int b) xs tt e)
  in_enum-merged (num b) (some xs) (some ys) h e = absurd (other_allowed (num b) xs tt e)
  in_enum-merged (arr b) (some xs) (some ys) h e = absurd (other_allowed (arr b) xs tt e)
  in_enum-merged (obj b) (some xs) (some ys) h e = absurd (other_allowed (obj b) xs tt e)

module _ {Float : Type 0} (below : Float → ℤ → Bool) where
  check_arg-enum :
      (k : String) (v : Json Float) (f : Fragment) (e : Option (List (Option String)))
      → enum_within f.enum e ≡ true
      → check_arg below k v f ≡ none
      → check_arg below k v (record f { enum = e }) ≡ none
  unfolding check_arg
  check_arg-enum k v f e w h = elim (Bool-cases (in_enum v f.enum)) [
    | inr refused ↦ absurd (ground (arith, refused, h))
    | inl allowed ↦ ground (arith, allowed, h, in_enum-merged v f.enum e w allowed)
  ]

  IsMerged-fits :
      (k : String) (v : Json Float) (f : Fragment)
      → IsMerged (k, f)
      → check_arg below k v f ≡ none
      → (g : Fragment) × (param k all_args ≡ some g) × (check_arg below k v g ≡ none)
  IsMerged-fits k v f m h = (m.0, m.1, rw m.2 (check_arg-enum k v f (Fragment.enum m.0) m.3 h))

  param-IsMerged :
      (k : String) (ps : Params) (f : Fragment)
      → AreMerged ps
      → param k ps ≡ some f
      → IsMerged (k, f)
  unfolding param
  param-IsMerged k [] f m e = absurd (ground arith)
  param-IsMerged k ((j, g) ∷ ps) f m e = elim (Bool-cases (str_eq j k)) [
    | inr other ↦ param-IsMerged k ps f m.1 (ground (arith, other, e))
    | inl same ↦
        let found : g ≡ f = ground (arith, same, e) in rw (← found, ← (str_eq_iff j k).0 same) m.0
  ]

  -- Arguments that a tool's own fragments accept are accepted by the merged ones.
  check_args-merged :
      (args : Dict Float) (ps : Params)
      → AreMerged ps
      → check_args below args ps ≡ none
      → check_args below args all_args ≡ none
  unfolding check_args
  check_args-merged [] ps m h = refl
  check_args-merged ((k, v) ∷ args) ps m h = elim (Option-cases (param k ps)) [
    | inl missing ↦ absurd (ground (arith, missing, h))
    | inr (f, found) ↦ elim (Option-cases (check_arg below k v f)) [
      | inr (r, failed) ↦ absurd (ground (arith, found, failed, h))
      | inl passed ↦
          let fits = IsMerged-fits k v f (param-IsMerged k ps f m found) passed in
          ground
            (arith, fits.1, fits.2, check_args-merged args ps m (ground (arith, found, passed, h)))
    ]
  ]

  -- The flat schema is permissive: the arguments of every step that `validate_step` accepts are
  -- arguments of the merged schema, each with the type, the enum and the bounds that it has there.
  pub validate-permissive :
      (name : String) (args : Dict Float)
      → validate below (str name) args ≡ callable
      → check_args below args all_args ≡ none
  unfolding validate
  validate-permissive name args h = elim (Option-cases (find_tool name tools)) [
    | inl missing ↦ absurd (ground (arith, missing, h))
    | inr (t, found) ↦ elim (Option-cases (check_args below args t.params)) [
      | inr (r, failed) ↦ absurd (ground (arith, found, failed, h))
      | inl passed ↦
          let merged = find_tool-All ToolIsMerged name tools t tools-ToolIsMerged found in
          check_args-merged args t.params merged.0 passed
    ]
  ]
