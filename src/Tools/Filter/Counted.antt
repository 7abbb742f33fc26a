-- ===== src/Tools/Filter/Counted.antt =====
-- What `closure_filter` of python/analytics/tools/filter.py promises of its numbers.
use Prim.Native.Nat.{min}
use quer_project_q.Common.{
  ◌≤◌, String, ◌≡◌, refl, true, false, Bool-cases, Option, none, some, Option-cases, inl, inr, ◌⊎◌,
  List, [], ◌∷◌, map, ◌>>=◌, ◌==◌, arith, length, length-take, take, length-map_option, All,
  All-self, IsIn, take-All, where_holds, where_holds-All, map_option, map_option-none, sort_by,
  sort_by-All, sum_of, sum_of-sort_by, length-sort_by, ℤ,
}
use quer_project_q.Cleaning.Floats.{Floats}
use quer_project_q.Agent.Config.{Number}
use quer_project_q.Tools.{Event, Answer, found, no_data, bad_argument, Reals}
use quer_project_q.Tools.Grouping.{
  groups, count_where, length-groups, length-where_holds, count_where_mono,
}
use quer_project_q.Tools.Filter.{
  Outcome, outcome_of, Listed, Filtered, in_time, more_often, head_count, with_load, matches,
  label_of, listed_rows, summary, bad_head, closure_filter,
}

sum_of-head_count :
    {Float : Type 0} (gs : List (ℤ × List (Event Float)))
    → sum_of (λ c. c.1) (map head_count gs) ≡ sum_of (λ g. length g.1) gs
sum_of-head_count [] = refl
sum_of-head_count (g ∷ gs) = omega (arith, sum_of-head_count gs)

module _ (F : Floats) (R : Reals F.Float) (success : Number F.Float) where
  open F use {Float}

  -- The numbers of an answer agree with each other and with the rows.
  abbrev pub AreCounted : List (Event Float) → Filtered Float → Type 0
  AreCounted rows v =
      (v.capping_operations ≡ count_where (with_load F R success) rows)
      × (1 ≤ v.capping_operations)
      × (v.count ≤ v.capping_operations)
      × (sum_of (λ c. c.1) v.by_head ≡ v.count)
      × (v.listed ≡ min 20 v.count)
      × (length v.events ≡ v.listed)

  -- The outcome is one of the three and the head is not below 1.
  abbrev pub AreGood : String → Option ℤ → Type 0
  AreGood outcome head =
      (o : Outcome) × (outcome_of outcome ≡ some o) × (bad_head F R success head ≡ false)

  -- A refused argument; or of good ones no capping operation in scope, counted numbers, or a row
  -- whose status is no whole number.
  abbrev pub FilterResult :
      String → Option ℤ → List (Event Float) → Option (Answer (Filtered Float)) → Type 0
  FilterResult outcome head rows (some bad_argument) =
      (outcome_of outcome ≡ none) ⊎ (bad_head F R success head ≡ true)
  FilterResult outcome head rows (some no_data) =
      AreGood outcome head × (count_where (with_load F R success) rows ≡ 0)
  FilterResult outcome head rows (some (found v)) = AreGood outcome head × AreCounted rows v
  FilterResult outcome head rows none =
      AreGood outcome head × ((e : Event Float) × IsIn e rows × (label_of F R success e ≡ none))

  by_head-sum :
      (kept : List (Event Float))
      → sum_of (λ c. c.1) (sort_by more_often (map head_count (groups (λ e. e.head_id) kept)))
        ≡ length kept
  by_head-sum kept =
      let gs = groups (λ e. e.head_id) kept in
      omega (
        arith,
        sum_of-sort_by more_often (λ c. c.1) (map head_count gs),
        sum_of-head_count gs,
        length-groups (λ e. e.head_id) kept,
      )

  length-listed :
      (kept : List (Event Float)) (events : List (Listed Float))
      → map_option (label_of F R success) (listed_rows F R success kept) ≡ some events
      → length events ≡ min 20 (length kept)
  unfolding listed_rows
  length-listed kept events e =
      let first = sort_by in_time kept in
      omega (
        arith,
        length-map_option (label_of F R success) (take 20 first) events e,
        length-take 20 first,
        length-sort_by in_time kept,
      )

  module _ (above below : Option (Number Float)) (head : Option ℤ) (o : Outcome) where
    matches-with_load :
        (rows : List (Event Float))
        → All
            (λ e.
              (matches F R success above below head o e ≡ false) ⊎ (with_load F R success e ≡ true))
            rows
    unfolding matches
    matches-with_load [] = tt
    matches-with_load (e ∷ rows) = (
      elim (Bool-cases (with_load F R success e)) [
        | inl loaded ↦ inr loaded
        | inr bare ↦ inl (ground (arith, bare))
      ],
      matches-with_load rows,
    )

    listed-All :
        (rows : List (Event Float))
        → All
            (λ e. IsIn e rows)
            (listed_rows F R success (where_holds (matches F R success above below head o) rows))
    unfolding listed_rows
    listed-All rows =
        let kept = where_holds (matches F R success above below head o) rows in
        take-All (λ e. IsIn e rows) 20 (sort_by in_time kept)
          (sort_by-All in_time (λ e. IsIn e rows) kept
            (where_holds-All (matches F R success above below head o) (λ e. IsIn e rows) rows
              (All-self rows)))

    summary-FilterResult :
        (outcome : String) (rows : List (Event Float))
        → AreGood outcome head
        → 1 ≤ count_where (with_load F R success) rows
        → FilterResult outcome head rows (
            summary F R success
              (count_where (with_load F R success) rows)
              (where_holds (matches F R success above below head o) rows)
            >>= λ v. some (found v))
    unfolding summary
    summary-FilterResult outcome rows good h =
        let kept = where_holds (matches F R success above below head o) rows in
        let shown = listed_rows F R success kept in
        elim (Option-cases (map_option (label_of F R success) shown)) [
          | inl raised ↦
              let at_row =
                map_option-none (λ e. IsIn e rows) (label_of F R success) shown (listed-All rows)
                  raised in
              rw raised (good, at_row)
          | inr (events, e) ↦ rw e (
            good,
            (
              refl,
              h,
              omega (
                arith,
                length-where_holds (matches F R success above below head o) (with_load F R success)
                    rows,
                count_where_mono (matches F R success above below head o) (with_load F R success)
                    rows (matches-with_load rows),
              ),
              by_head-sum kept,
              length-listed kept events e,
              refl,
            ),
          )
        ]

  -- The tool refuses exactly the calls with an outcome that it does not know or a head below 1. Of
  -- others it has no data only where no row in scope has load; it raises only if a row in scope has
  -- no whole number for a status. Else the count is at most the capping operations, the heads'
  -- counts add up to it, and of the matching rows as many are listed as there are, up to 20.
  pub closure_filter-FilterResult :
      (above below : Option (Number Float)) (outcome : String) (head : Option ℤ)
      (rows : List (Event Float))
      → FilterResult outcome head rows (closure_filter F R success above below outcome head rows)
  unfolding closure_filter
  closure_filter-FilterResult above below outcome head rows =
      elim (Option-cases (outcome_of outcome)) [
        | inl unknown ↦ ground (arith, unknown)
        | inr (o, known) ↦ elim (Bool-cases (bad_head F R success head)) [
          | inl bad ↦ ground (arith, known, bad)
          | inr good ↦ elim (Bool-cases (count_where (with_load F R success) rows == 0)) [
            | inl empty ↦
                let at : AreGood outcome head = (o, known, good) in
                ground (arith, known, good, empty, at)
            | inr loaded ↦
                let there : 1 ≤ count_where (with_load F R success) rows = ground (arith, loaded) in
                ground (
                  arith,
                  known,
                  good,
                  loaded,
                  summary-FilterResult above below head o outcome rows (o, known, good) there,
                )
          ]
        ]
      ]
