-- ===== src/Tools/Success/Partition.antt =====
-- That the heads and the days of python/analytics/tools/success.py partition the whole.
use quer_project_q.Common.{
  String, ◌≡◌, refl, false, Bool-cases, some, inl, inr, List, [], ◌∷◌, map, ◌==◌, arith, length,
  sum_of, suc, ltb_ℤ, eqb_ℤ, ℤ,
}
use quer_project_q.Agent.Config.{Number}
use quer_project_q.Tools.{Event, Answer, found, no_data, Reals}
use quer_project_q.Tools.Grouping.{groups, add_row, count_where, counted-groups, length-groups}
use quer_project_q.Tools.Success.{
  Group, overall, each, scope_of, Ratios, GroupRate, Overall, Rates, whole, split, key_of,
  is_success, is_failure, capping, group_rate, counts_of, rates_by, overall_of, unless_empty, rates,
  success_rates, scanned,
}

add_row-cons :
    {Float : Type 0} (key : Event Float → ℤ) (e : Event Float) (gs : List (ℤ × List (Event Float)))
    → (g : ℤ × List (Event Float)) × (rest : List (ℤ × List (Event Float))) × (add_row key e gs
        ≡ g ∷ rest)
unfolding add_row
add_row-cons key e [] = ((key e, e ∷ []), [], refl)
add_row-cons key e ((k, es) ∷ gs) = elim (Bool-cases (ltb_ℤ (key e) k)) [
  | inl before ↦ ((key e, e ∷ []), (k, es) ∷ gs, rw before refl)
  | inr after ↦ elim (Bool-cases (eqb_ℤ (key e) k)) [
    | inl same ↦ ((k, e ∷ es), gs, rw (after, same) refl)
    | inr other ↦ ((k, es), add_row key e gs, rw (after, other) refl)
  ]
]

module _ {Float : Type 0} (R : Reals Float) (success : Number Float) (D : Ratios Float) where
  -- The sums over the groups are the numbers of the whole.
  abbrev pub AddUp : List (GroupRate Float) → Overall Float → Type 0
  AddUp hs o =
      (sum_of (λ h. h.counts.total) hs ≡ o.counts.total)
      × (sum_of (λ h. h.counts.successful) hs ≡ o.counts.successful)
      × (sum_of (λ h. h.counts.failed) hs ≡ o.counts.failed)

  -- An answer by group and the answer for the whole: neither has data, or the one adds up to the
  -- other and both say that they scanned as many rows.
  abbrev pub Partitions : Answer (Rates Float) → Answer (Rates Float) → Type 0
  Partitions no_data no_data = Unit
  Partitions (found (split hs)) (found (whole o)) =
      AddUp hs o × (scanned R success D (split hs) ≡ scanned R success D (whole o))
  Partitions _ _ = ⊥

  totals :
      (gs : List (ℤ × List (Event Float)))
      → (sum_of (λ h. h.counts.total) (map (group_rate R success D) gs)
          ≡ sum_of (λ g. length g.1) gs)
        × (sum_of (λ h. h.counts.successful) (map (group_rate R success D) gs)
            ≡ sum_of (λ g. count_where (is_success R success D) g.1) gs)
        × (sum_of (λ h. h.counts.failed) (map (group_rate R success D) gs)
            ≡ sum_of (λ g. count_where (is_failure R success D) g.1) gs)
  unfolding group_rate
  totals [] = (refl, refl, refl)
  totals (g ∷ gs) =
      let rest = totals gs in (omega (arith, rest.0), omega (arith, rest.1), omega (arith, rest.2))

  rates_by-AddUp :
      (g : Group) (es : List (Event Float))
      → AddUp (rates_by R success D g es) (overall_of R success D es)
  unfolding overall_of counts_of
  rates_by-AddUp g es =
      let sums = totals (groups (key_of g) es) in
      (
        omega (arith, sums.0, length-groups (key_of g) es),
        omega (arith, sums.1, counted-groups (key_of g) (is_success R success D) es),
        omega (arith, sums.2, counted-groups (key_of g) (is_failure R success D) es),
      )

  split-Partitions :
      (h : GroupRate Float) (hs all : List (GroupRate Float)) (o : Overall Float)
      → all ≡ h ∷ hs
      → AddUp all o
      → Partitions (unless_empty R success D all) (found (whole o))
  unfolding scanned
  split-Partitions h hs all o e sums = rw e (rw e at sums, (rw e at sums).0)

  rates-Partitions :
      (g : Group) (es : List (Event Float))
      → Partitions (rates R success D (each g) es) (rates R success D overall es)
  unfolding rates groups
  rates-Partitions g [] = tt
  rates-Partitions g (e ∷ es) =
      let head = add_row-cons (key_of g) e (groups (key_of g) es) in
      let some_row : (suc (length es) == 0) ≡ false = ground arith in
      rw some_row (
        split-Partitions (group_rate R success D head.0) (map (group_rate R success D) head.1)
          (rates_by R success D g (e ∷ es)) (overall_of R success D (e ∷ es)) (rw head.2 refl)
          (rates_by-AddUp g (e ∷ es)))

  -- By head and by day alike, the groups have no data exactly where the whole has none, and else
  -- their closures, successes and failures add up to those of the whole: no closure is lost or
  -- counted twice, and the rows scanned are the same.
  pub success_rates-Partitions :
      (by : String) (g : Group) (rows : List (Event Float))
      → scope_of by ≡ some (each g)
      → Partitions (success_rates R success D by rows) (success_rates R success D "overall" rows)
  unfolding success_rates
  success_rates-Partitions by g rows known =
      let split_rates : success_rates R success D by rows
          ≡ rates R success D (each g) (capping R success D rows) =
        ground (arith, known) in
      rw split_rates (rates-Partitions g (capping R success D rows))
