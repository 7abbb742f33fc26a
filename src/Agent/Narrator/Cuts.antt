-- ===== src/Agent/Narrator/Cuts.antt =====
-- How `_facts` of python/analytics/agent/narrator.py cuts the tables.
use quer_project_q.Common.{
  ℕ, ◌≤◌, String, ◌≡◌, refl, ap, Bool, true, false, Bool-cases, inl, inr, ◌⊎◌, List, [], ◌∷◌, ◌++◌,
  arith, All,
}
use quer_project_q.Agent.Narrator.{attempts, first_fit}

-- The first attempt of the list that fits, or the last one: those before it do not fit.
abbrev pub IsChosen : (String → Bool) → (ℕ × ℕ → String) → List (ℕ × ℕ) → String → Type 0
IsChosen fits tables tries text =
    (before : List (ℕ × ℕ)) × (a : ℕ × ℕ) × (after : List (ℕ × ℕ)) × (tries ≡ before ++ a ∷ after)
    × All (λ b. fits (tables b) ≡ false) before
    × ((fits (tables a) ≡ true) ⊎ (after ≡ []))
    × (text ≡ tables a)

first_fit-IsChosen :
    (fits : String → Bool) (tables : ℕ × ℕ → String) (a : ℕ × ℕ) (tries : List (ℕ × ℕ))
    → IsChosen fits tables (a ∷ tries) (first_fit fits tables (a ∷ tries))
unfolding first_fit
first_fit-IsChosen fits tables a [] = ([], a, [], refl, tt, inr refl, refl)
first_fit-IsChosen fits tables a (b ∷ rest) = elim (Bool-cases (fits (tables a))) [
  | inl fit ↦ ([], a, b ∷ rest, refl, tt, inl fit, rw fit refl)
  | inr long ↦
      let later = first_fit-IsChosen fits tables b rest in
      (
        a ∷ later.0,
        later.1,
        later.2,
        ap (λ l. a ∷ l) later.3,
        (long, later.4),
        later.5,
        rw long later.6,
      )
]

-- Of two attempts, the later allows no more rows, and it cuts the tables that are not daily only
-- where the daily ones are down to five.
abbrev pub IsCutFurther : ℕ × ℕ → ℕ × ℕ → Type 0
IsCutFurther a b = (b.0 ≤ a.0) × (b.1 ≤ a.1) × ((b.0 ≡ a.0) ⊎ (a.1 ≡ 5))

abbrev pub AreCutFurther : List (ℕ × ℕ) → Type 0
AreCutFurther [] = Unit
AreCutFurther (a ∷ []) = Unit
AreCutFurther (a ∷ b ∷ tries) = IsCutFurther a b × AreCutFurther (b ∷ tries)

attempts-AreCutFurther : AreCutFurther attempts
unfolding attempts
attempts-AreCutFurther =
    let day : (n m : ℕ) → m ≤ n → IsCutFurther (120, n) (120, m) =
      λ n m h. (omega arith, h, inl refl) in
    let head : (n m : ℕ) → m ≤ n → IsCutFurther (n, 5) (m, 5) =
      λ n m h. (h, omega arith, inr refl) in
    (
      day 120 60 (omega arith),
      (
        day 60 40 (omega arith),
        (
          day 40 20 (omega arith),
          (
            day 20 10 (omega arith),
            (
              day 10 5 (omega arith),
              (
                head 120 60 (omega arith),
                (
                  head 60 40 (omega arith),
                  (
                    head 40 20 (omega arith),
                    (head 20 10 (omega arith), (head 10 5 (omega arith), tt)),
                  ),
                ),
              ),
            ),
          ),
        ),
      ),
    )

-- The tables that the model is given are those of the first attempt that fits, or of the last one
-- if none does. No attempt allows more rows than the one before, and the tables that are not daily
-- are cut only where the daily ones are down to five rows.
pub attempts-IsChosen :
    (fits : String → Bool) (tables : ℕ × ℕ → String)
    → IsChosen fits tables attempts (first_fit fits tables attempts) × AreCutFurther attempts
unfolding attempts
attempts-IsChosen fits tables =
    let rest =
      (120, 60)
      ∷ (120, 40)
      ∷ (120, 20)
      ∷ (120, 10)
      ∷ (120, 5)
      ∷ (60, 5)
      ∷ (40, 5)
      ∷ (20, 5)
      ∷ (10, 5)
      ∷ (5, 5)
      ∷ [] in
    (first_fit-IsChosen fits tables (120, 120) rest, attempts-AreCutFurther)
