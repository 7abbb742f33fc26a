-- ===== src/Tools/Anomaly/Flags/Conditions.antt =====
-- `faults_by_condition` of python/analytics/tools/anomaly.py.
use quer_project_q.Common.{
  ℕ, ◌+◌, ◌≡◌, refl, sym, true, Bool-cases, inl, inr, String, str_eq, str_eq_iff, Option, none,
  some, List, [], ◌∷◌, arith, if◌then◌else◌, All, sum_of, ap,
}
use quer_project_q.Cleaning.Floats.{Floats}
use quer_project_q.Tools.{Event, Reals}
use quer_project_q.Tools.Overview.{Limits}
use quer_project_q.Tools.Anomaly.Records.{Bands, bump, bump_all}
use quer_project_q.Tools.Anomaly.Flags.{conditions_of, conditions_at, add_status, statuses, tally}

-- What a dict of counts holds under a key.
pub count_of : String → List (String × ℕ) → ℕ
count_of c [] = 0
count_of c ((d, n) ∷ dict) = (if str_eq d c then n else 0) + count_of c dict

-- How often a condition stands in a list, `n` times over.
pub times : ℕ → String → List String → ℕ
times n c [] = 0
times n c (d ∷ ds) = (if str_eq d c then n else 0) + times n c ds

times-add :
    (a b : ℕ) (c : String) (ds : List String) → times (a + b) c ds ≡ times a c ds + times b c ds
unfolding times
times-add a b c [] = omega arith
times-add a b c (d ∷ ds) = ground (arith, times-add a b c ds)

same_texts : (d e c : String) → str_eq d e ≡ true → str_eq e c ≡ str_eq d c
same_texts d e c h = ap (λ s. str_eq s c) (sym ((str_eq_iff d e).0 h))

count_of-bump :
    (c d : String) (n : ℕ) (dict : List (String × ℕ))
    → count_of c (bump d n dict) ≡ (if str_eq d c then n else 0) + count_of c dict
unfolding count_of bump
count_of-bump c d n [] = refl
count_of-bump c d n ((e, k) ∷ dict) = elim (Bool-cases (str_eq e d)) [
  | inl same ↦ ground (arith, same, same_texts e d c same)
  | inr other ↦ ground (arith, other, count_of-bump c d n dict)
]

count_of-bump_all :
    (c : String) (n : ℕ) (ds : List String) (dict : List (String × ℕ))
    → count_of c (bump_all n ds dict) ≡ times n c ds + count_of c dict
unfolding times bump_all
count_of-bump_all c n [] dict = omega arith
count_of-bump_all c n (d ∷ ds) dict =
    omega (arith, count_of-bump_all c n ds (bump d n dict), count_of-bump c d n dict)

pub or_none : Option (List String) → List String
or_none none = []
or_none (some cs) = cs

module _ (F : Floats) (R : Reals F.Float) (L : Limits F.Float) (B : Bands F.Float) (cap : ℕ) where
  open F use {Float}

  names_at : Float → List String
  names_at x = or_none (conditions_of F R L B cap x)

  -- The counts of the groups.
  grouped : String → List (Float × ℕ) → ℕ
  grouped c [] = 0
  grouped c ((x, n) ∷ gs) = times n c (names_at x) + grouped c gs

  Known : Float × ℕ → Type 0
  Known g = (cs : List String) × (conditions_of F R L B cap g.0 ≡ some cs)

  tally-counts :
      (gs : List (Float × ℕ)) (dict : List (String × ℕ))
      → All Known gs
      → (result : List (String × ℕ)) × (tally F R L B cap gs dict ≡ some result)
        × ((c : String) → count_of c result ≡ grouped c gs + count_of c dict)
  unfolding tally grouped names_at Known or_none
  tally-counts [] dict h = (dict, refl, λ c. omega arith)
  tally-counts ((x, n) ∷ gs) dict h =
      let (cs, known) = h.0 in
      let (result, same, counts) = tally-counts gs (bump_all n cs dict) h.1 in
      (
        result,
        rw known same,
        λ c. rw known (omega (arith, counts c, count_of-bump_all c n cs dict)),
      )

  -- How often a row's status sets a condition: once or not at all.
  pub row_times : String → Event Float → ℕ
  row_times c e = times 1 c (or_none (conditions_at F R L B cap e.status))

  -- `int` gives the row's status.
  abbrev pub HasConditions : Event Float → Type 0
  HasConditions e = (cs : List String) × (conditions_at F R L B cap e.status ≡ some cs)

  add_status-Known :
      (x : Float) (gs : List (Float × ℕ))
      → (n : ℕ) → Known (x, n)
      → All Known gs
      → All Known (add_status F R L B cap (some x) gs)
  unfolding add_status Known
  add_status-Known x [] n k h = (k, tt)
  add_status-Known x ((y, m) ∷ gs) n k h = elim (Bool-cases (B.same_status x y)) [
    | inl same ↦ rw same (h.0, h.1)
    | inr other ↦ rw other (h.0, add_status-Known x gs n k h.1)
  ]

  add_status-All :
      (o : Option Float) (gs : List (Float × ℕ))
      → (cs : List String) × (conditions_at F R L B cap o ≡ some cs)
      → All Known gs
      → All Known (add_status F R L B cap o gs)
  unfolding add_status Known
  add_status-All none gs k h = h
  add_status-All (some x) gs k h = add_status-Known x gs 1 k h

  statuses-Known :
      (es : List (Event Float)) → All HasConditions es → All Known (statuses F R L B cap es)
  unfolding statuses
  statuses-Known [] h = tt
  statuses-Known (e ∷ es) h =
      add_status-All e.status (statuses F R L B cap es) h.0 (statuses-Known es h.1)

  module _ (alike : (x y : Float) → B.same_status x y ≡ true → x ≡ y) where
    grouped-add_status :
        (c : String) (x : Float) (gs : List (Float × ℕ))
        → grouped c (add_status F R L B cap (some x) gs) ≡ times 1 c (names_at x) + grouped c gs
    unfolding grouped add_status
    grouped-add_status c x [] = refl
    grouped-add_status c x ((y, n) ∷ gs) = elim (Bool-cases (B.same_status x y)) [
      | inl same ↦
          let equal = ap (λ z. times 1 c (names_at z)) (alike x y same) in
          rw same (omega (arith, equal, times-add n 1 c (names_at y)))
      | inr other ↦ rw other (omega (arith, grouped-add_status c x gs))
    ]

    grouped-add :
        (c : String) (o : Option Float) (gs : List (Float × ℕ))
        → grouped c (add_status F R L B cap o gs)
          ≡ times 1 c (or_none (conditions_at F R L B cap o)) + grouped c gs
    unfolding add_status or_none times conditions_of names_at
    grouped-add c none gs = omega arith
    grouped-add c (some x) gs = grouped-add_status c x gs

    grouped-statuses :
        (c : String) (es : List (Event Float))
        → grouped c (statuses F R L B cap es) ≡ sum_of (row_times c) es
    unfolding statuses row_times grouped
    grouped-statuses c [] = refl
    grouped-statuses c (e ∷ es) =
        omega (arith, grouped-add c e.status (statuses F R L B cap es), grouped-statuses c es)

    -- Where `int` gives every status, the dict is made, and holds under each condition the number of
    -- rows whose status sets it.
    pub tally-statuses :
        (es : List (Event Float))
        → All HasConditions es
        → (result : List (String × ℕ)) × (tally F R L B cap (statuses F R L B cap es) []
            ≡ some result)
          × ((c : String) → count_of c result ≡ sum_of (row_times c) es)
    unfolding count_of
    tally-statuses es h =
        let (result, same, counts) =
          tally-counts (statuses F R L B cap es) [] (statuses-Known es h) in
        (result, same, λ c. omega (arith, counts c, grouped-statuses c es))
