-- ===== src/Tools/Grouping.antt =====
-- GROUP BY an integer, in its order: the rows of each group.
use quer_project_q.Common.{
  ℕ, ◌+◌, ◌≡◌, refl, ◌≤◌, Bool, true, false, Bool-cases, eq_of_parts, inl, inr, ◌⊎◌, All,
  where_holds, List, [], ◌∷◌, arith, if◌then◌else◌, sum_of, ℤ, ltb_ℤ, eqb_ℤ, length,
}
use quer_project_q.Tools.{Event}

-- COUNT(*) FILTER (WHERE p)
abbrev pub count_where {ℓ} : {A : Type ℓ} → (A → Bool) → List A → ℕ
count_where p [] = 0
count_where p (x ∷ xs) = (if p x then 1 else 0) + count_where p xs

module _ {Float : Type 0} (key : Event Float → ℤ) where
  unfoldable pub add_row :
      Event Float → List (ℤ × List (Event Float)) → List (ℤ × List (Event Float))
  add_row e [] = (key e, e ∷ []) ∷ []
  add_row e ((k, es) ∷ gs) =
      let rest = add_row e gs in
      if ltb_ℤ (key e) k
      then (key e, e ∷ []) ∷ (k, es) ∷ gs
      else if eqb_ℤ (key e) k
      then (k, e ∷ es) ∷ gs
      else (k, es) ∷ rest

  unfoldable pub groups : List (Event Float) → List (ℤ × List (Event Float))
  unfolding add_row
  groups [] = []
  groups (e ∷ es) = add_row e (groups es)

  counted-add_row :
      (p : Event Float → Bool) (e : Event Float) (gs : List (ℤ × List (Event Float)))
      → sum_of (λ g. count_where p g.1) (add_row e gs)
        ≡ (if p e then 1 else 0) + sum_of (λ g. count_where p g.1) gs
  unfolding add_row
  counted-add_row p e [] = omega arith
  counted-add_row p e ((k, es) ∷ gs) = ground (arith, counted-add_row p e gs)

  -- The groups' counts add up to the count.
  pub counted-groups :
      (p : Event Float → Bool) (es : List (Event Float))
      → sum_of (λ g. count_where p g.1) (groups es) ≡ count_where p es
  unfolding groups
  counted-groups p [] = refl
  counted-groups p (e ∷ es) = omega (arith, counted-add_row p e (groups es), counted-groups p es)

  length-add_row :
      (e : Event Float) (gs : List (ℤ × List (Event Float)))
      → sum_of (λ g. length g.1) (add_row e gs) ≡ 1 + sum_of (λ g. length g.1) gs
  unfolding add_row
  length-add_row e [] = refl
  length-add_row e ((k, es) ∷ gs) = ground (arith, length-add_row e gs)

  -- The groups' sizes add up to the number of rows.
  pub length-groups : (es : List (Event Float)) → sum_of (λ g. length g.1) (groups es) ≡ length es
  unfolding groups
  length-groups [] = refl
  length-groups (e ∷ es) = omega (arith, length-add_row e (groups es), length-groups es)

  -- The rows of a group: at least one, and each has the group's key.
  abbrev pub IsGroup : ℤ × List (Event Float) → Type 0
  IsGroup g = (1 ≤ length g.1) × All (λ e. key e ≡ g.0) g.1

  add_row-IsGroup :
      (e : Event Float) (gs : List (ℤ × List (Event Float)))
      → All IsGroup gs
      → All IsGroup (add_row e gs)
  unfolding add_row
  add_row-IsGroup e [] h = ((omega arith, (refl, tt)), tt)
  add_row-IsGroup e ((k, es) ∷ gs) h = elim (Bool-cases (ltb_ℤ (key e) k)) [
    | inl before ↦ rw before ((omega arith, (refl, tt)), h)
    | inr after ↦ elim (Bool-cases (eqb_ℤ (key e) k)) [
      | inl same ↦
          let e_key : key e ≡ k = eq_of_parts (key e) k (ground (arith, same)) in
          rw (after, same) ((omega arith, (e_key, h.0.1)), h.1)
      | inr other ↦ rw (after, other) (h.0, add_row-IsGroup e gs h.1)
    ]
  ]

  pub groups-IsGroup : (es : List (Event Float)) → All IsGroup (groups es)
  unfolding groups
  groups-IsGroup [] = tt
  groups-IsGroup (e ∷ es) = add_row-IsGroup e (groups es) (groups-IsGroup es)

module _ {A : Type 0} (p q : A → Bool) where
  pub length-where_holds : (xs : List A) → length (where_holds p xs) ≡ count_where p xs
  length-where_holds [] = refl
  length-where_holds (x ∷ xs) = ground (arith, length-where_holds xs)

  pub count_where_mono :
      (xs : List A)
      → All (λ x. (p x ≡ false) ⊎ (q x ≡ true)) xs
      → count_where p xs ≤ count_where q xs
  count_where_mono [] h = omega arith
  count_where_mono (x ∷ xs) h = elim h.0 [
    | inl out ↦ ground (arith, out, count_where_mono xs h.1)
    | inr both ↦ ground (arith, both, count_where_mono xs h.1)
  ]
