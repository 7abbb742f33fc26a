-- ===== src/Tools/Idle/Runs.antt =====
-- That the gaps-and-islands query of python/analytics/tools/idle.py finds the maximal runs.
use quer_project_q.Common.{
  ℕ, suc, ◌-◌, ◌≤◌, ◌≡◌, refl, ap, ◌∙◌, Bool, true, false, Bool-cases, ◌&&◌, Option, none, some,
  inl, inr, List, [], ◌∷◌, map, ◌==◌, if◌then◌else◌, arith,
}
use quer_project_q.Tools.Idle.{
  Cycle, Keyed, Run, KeyedRun, single, extend, islands, segment_of, keyed_row, segmented, add_keyed,
  keyed_runs, runs_of,
}

abbrev extend_first : ℕ → List Run → List Run
extend_first t [] = single t ∷ []
extend_first t (r ∷ rs) = extend t r ∷ rs

-- The maximal runs, read off the rows: a run goes on as long as the next row is a no-load cycle
-- that no break comes before.
unfoldable pub maximal_runs : (ℕ → ℕ → Bool) → List Cycle → List Run
maximal_runs breaks [] = []
maximal_runs breaks ((t, false) ∷ rs) = maximal_runs breaks rs
maximal_runs breaks ((t, true) ∷ []) = single t ∷ []
maximal_runs breaks ((t, true) ∷ (u, false) ∷ rs) = single t ∷ maximal_runs breaks rs
maximal_runs breaks ((t, true) ∷ (u, true) ∷ rs) =
    let rest = maximal_runs breaks ((u, true) ∷ rs) in
    if breaks t u then single t ∷ rest else extend_first t rest

module _ (breaks : ℕ → ℕ → Bool) where
  -- The groups of the rows from some row on.
  abbrev runs_from : ℕ → ℕ → Option Keyed → List Cycle → List KeyedRun
  runs_from a g prev rs = keyed_runs (segmented breaks prev (islands a g rs))

  -- The first group, if there is one, has an island from `n` on.
  abbrev StartsFrom : ℕ → List KeyedRun → Type 0
  StartsFrom n [] = Unit
  StartsFrom n (r ∷ rs) = n ≤ r.island

  abbrev HasKey : ℕ → ℕ → List KeyedRun → Type 0
  HasKey i s [] = ⊥
  HasKey i s (r ∷ rs) = (r.island ≡ i) × (r.segment ≡ s)

  add_keyed-HasKey : (x : Keyed) (rs : List KeyedRun) → HasKey x.island x.segment (add_keyed x rs)
  unfolding add_keyed
  add_keyed-HasKey x [] = (refl, refl)
  add_keyed-HasKey x (r ∷ rs) = elim (Bool-cases (x.island == r.island && x.segment == r.segment)) [
    | inl same ↦ rw same (refl, refl)
    | inr other ↦ rw other (refl, refl)
  ]

  key_starts : (n i s : ℕ) (rs : List KeyedRun) → n ≤ i → HasKey i s rs → StartsFrom n rs
  key_starts n i s [] h k = tt
  key_starts n i s (r ∷ rs) h k = omega (arith, h, k.0)

  lower_start : (m n : ℕ) (rs : List KeyedRun) → m ≤ n → StartsFrom n rs → StartsFrom m rs
  lower_start m n [] h k = tt
  lower_start m n (r ∷ rs) h k = omega (arith, h, k)

  runs_from-StartsFrom :
      (a g : ℕ) (prev : Option Keyed) (rs : List Cycle) → StartsFrom (a - g) (runs_from a g prev rs)
  unfolding islands segmented keyed_runs
  runs_from-StartsFrom a g prev [] = tt
  runs_from-StartsFrom a g prev ((t, true) ∷ rs) =
      let x = keyed_row breaks prev t (suc a - suc g) in
      key_starts (a - g) x.island x.segment (add_keyed x (runs_from (suc a) (suc g) (some x) rs))
        (omega arith) (add_keyed-HasKey x (runs_from (suc a) (suc g) (some x) rs))
  runs_from-StartsFrom a g prev ((t, false) ∷ rs) =
      lower_start (a - g) (suc a - g) (runs_from (suc a) g prev rs) (omega arith)
        (runs_from-StartsFrom (suc a) g prev rs)

  abbrev bare : List KeyedRun → List Run
  bare rs = map (λ r. r.run) rs

  add_later :
      (x : Keyed) (rs : List KeyedRun)
      → StartsFrom (suc x.island) rs
      → bare (add_keyed x rs) ≡ single x.ts ∷ bare rs
  unfolding add_keyed
  add_later x [] h = refl
  add_later x (r ∷ rs) h = ground (arith, h)

  add_joined :
      (x : Keyed) (rs : List KeyedRun)
      → HasKey x.island x.segment rs
      → bare (add_keyed x rs) ≡ extend_first x.ts (bare rs)
  unfolding add_keyed
  add_joined x [] h = absurd h
  add_joined x (r ∷ rs) h = ground (arith, h.0, h.1)

  add_broken :
      (x : Keyed) (rs : List KeyedRun)
      → HasKey x.island (suc x.segment) rs
      → bare (add_keyed x rs) ≡ single x.ts ∷ bare rs
  unfolding add_keyed
  add_broken x [] h = absurd h
  add_broken x (r ∷ rs) h = ground (arith, h.0, h.1)

  add_next :
      (x : Keyed) (rs : List KeyedRun) (broken : Bool)
      → HasKey x.island (if broken then suc x.segment else x.segment) rs
      → bare (add_keyed x rs)
        ≡ (if broken then single x.ts ∷ bare rs else extend_first x.ts (bare rs))
  add_next x rs true h = add_broken x rs h
  add_next x rs false h = add_joined x rs h

  HasKey-same : (i j s u : ℕ) (rs : List KeyedRun) → i ≡ j → s ≡ u → HasKey i s rs → HasKey j u rs
  HasKey-same i j s u [] ei es h = h
  HasKey-same i j s u (r ∷ rs) ei es h = (h.0 ∙ ei, h.1 ∙ es)

  segment_of-next :
      (x : Keyed) (u i : ℕ)
      → i ≡ x.island
      → segment_of breaks (some x) u i ≡ (if breaks x.ts u then suc x.segment else x.segment)
  unfolding segment_of
  segment_of-next x u i h = ground (arith, h)

  -- The first group after a no-load cycle that another follows at once.
  next-HasKey :
      (a g u : ℕ) (x : Keyed) (rs : List Cycle)
      → suc (suc a) - suc (suc g) ≡ x.island
      → HasKey x.island
          (if breaks x.ts u then suc x.segment else x.segment)
          (runs_from (suc a) (suc g) (some x) ((u, true) ∷ rs))
  unfolding islands segmented keyed_runs
  next-HasKey a g u x rs h =
      let y = keyed_row breaks (some x) u (suc (suc a) - suc (suc g)) in
      let later = runs_from (suc (suc a)) (suc (suc g)) (some y) rs in
      HasKey-same y.island x.island y.segment (if breaks x.ts u then suc x.segment else x.segment)
        (add_keyed y later) h (segment_of-next x u y.island h) (add_keyed-HasKey y later)

  runs_from-maximal :
      (a g : ℕ) (prev : Option Keyed) (rs : List Cycle)
      → g ≤ a
      → bare (runs_from a g prev rs) ≡ maximal_runs breaks rs
  unfolding islands segmented keyed_runs maximal_runs
  runs_from-maximal a g prev [] h = refl
  runs_from-maximal a g prev ((t, false) ∷ rs) h =
      runs_from-maximal (suc a) g prev rs (omega (arith, h))
  runs_from-maximal a g prev ((t, true) ∷ []) h =
      add_later (keyed_row breaks prev t (suc a - suc g)) [] tt
  runs_from-maximal a g prev ((t, true) ∷ (u, false) ∷ rs) h =
      let x = keyed_row breaks prev t (suc a - suc g) in
      let later = runs_from (suc (suc a)) (suc g) (some x) rs in
      add_later x later (
        lower_start (suc (suc a - suc g)) (suc (suc a) - suc g) later (omega (arith, h))
          (runs_from-StartsFrom (suc (suc a)) (suc g) (some x) rs))
      ∙ ap (λ l. single t ∷ l)
          (runs_from-maximal (suc (suc a)) (suc g) (some x) rs (omega (arith, h)))
  runs_from-maximal a g prev ((t, true) ∷ (u, true) ∷ rs) h =
      let x = keyed_row breaks prev t (suc a - suc g) in
      let next = runs_from (suc a) (suc g) (some x) ((u, true) ∷ rs) in
      let key = next-HasKey a g u x rs (omega arith) in
      let rest = runs_from-maximal (suc a) (suc g) (some x) ((u, true) ∷ rs) (omega (arith, h)) in
      add_next x next (breaks t u) key
      ∙ ap (λ l. if breaks t u then single t ∷ l else extend_first t l) rest

  -- The query's runs of a head are the maximal ones: stretches of consecutive no-load cycles, cut
  -- where a row with load stands between two of them or they are further apart than the gap that is
  -- allowed, each with its first and last timestamp and its number of cycles.
  pub runs_of-maximal_runs : (rs : List Cycle) → runs_of breaks rs ≡ maximal_runs breaks rs
  unfolding runs_of
  runs_of-maximal_runs rs = runs_from-maximal 0 0 none rs (omega arith)
