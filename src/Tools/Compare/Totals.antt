-- ===== src/Tools/Compare/Totals.antt =====
-- The totals of `compare_periods` of python/analytics/tools/compare.py.
use quer_project_q.Common.{
  ◌≤◌, ◌/◌, ◌≡◌, refl, Bool, true, false, ◌&&◌, Bool-cases, String, Option, none, some, inl, inr,
  ◌⊎◌, List, [], ◌∷◌, map, arith, All, All-imp, All-self, IsIn, length, sum_of, where_holds, ℤ, pos,
}
use quer_project_q.Agent.Config.{Number}
use quer_project_q.Store.{Clause}
use quer_project_q.Tools.{Event, Answer, found, no_data, bad_argument, Reals, holds}
use quer_project_q.Tools.Calendar.{Date}
use quer_project_q.Tools.Grouping.{
  groups, counted-groups, length-groups, count_where, count_where_mono, length-where_holds,
}
use quer_project_q.Tools.Speed.Hours.{length-add_poll}
use quer_project_q.Tools.Compare.{
  Bucket, bucket_by, bucket_number, Arithmetic, BucketRow, Compared, days_of, window,
}
use quer_project_q.Tools.Compare.Buckets.{
  is_scope, is_cap, bucket_row, buckets_of, compared, within, compare_by, compare_if,
  compare_periods,
}

days_of-length :
    {Float : Type 0} (es : List (Event Float))
    → (length (days_of es) ≤ length es) × ((length es ≡ 0) ⊎ (1 ≤ length (days_of es)))
unfolding days_of
days_of-length [] = (omega arith, inl refl)
days_of-length (e ∷ es) =
    let more = length-add_poll (e.ts / 86400000000) (days_of es) in
    (omega (arith, more.1, (days_of-length es).0), inr more.0)

and_right : (b c : Bool) → (b && c ≡ false) ⊎ (c ≡ true)
and_right b true = inr refl
and_right true false = inl refl
and_right false false = inl refl

count_and :
    {A : Type 0} (p q : A → Bool) (xs : List A)
    → count_where (λ x. p x && q x) xs ≤ count_where q xs
count_and p q xs =
    count_where_mono (λ x. p x && q x) q xs
      (All-imp (λ x. IsIn x xs) (λ x. (p x && q x ≡ false) ⊎ (q x ≡ true)) xs
        (λ x i. and_right (p x) (q x)) (All-self xs))

-- A bucket's counts: the days it was active on are none exactly where it has no closures, and no
-- more than these.
pub Counted : {Float : Type 0} → BucketRow Float → Type 0
Counted b =
    (b.caps ≤ b.events)
    × (b.successful ≤ b.caps)
    × (b.rejected ≤ b.caps)
    × (b.active_days ≤ b.caps)
    × ((b.caps ≡ 0) ⊎ (1 ≤ b.active_days))

-- The argument names a bucket.
Known : String → Type 0
Known by = (b : Bucket) × (bucket_by by ≡ some b)

NoWindow : {Float : Type 0} → Clause → List (Event Float) → Type 0
NoWindow clause [] = ⊥
NoWindow clause (e ∷ es) = window clause e es ≡ none

module _ {Float : Type 0} (R : Reals Float) (D : Arithmetic Float)
    (success no_load : Number Float) where
  abbrev cap : Event Float → Bool
  cap e = is_cap R e

  count_where-length : (es : List (Event Float)) → count_where cap es ≤ length es
  count_where-length [] = omega arith
  count_where-length (e ∷ es) = ground (arith, count_where-length es)

  bucket_row-Counted :
      (by : Bucket) (lo hi : Date) (g : ℤ × List (Event Float))
      → Counted (bucket_row R D success no_load by lo hi g)
  unfolding bucket_row Counted
  bucket_row-Counted by lo hi g =
      let days = days_of-length (where_holds cap g.1) in
      let caps = length-where_holds cap cap g.1 in
      (
        count_where-length g.1,
        count_and (λ e. holds (λ s. R.equals s success) e.status) cap g.1,
        count_and (λ e. holds R.odd e.status) cap g.1,
        omega (arith, days.0, caps),
        elim days.1 [ inl empty ↦ inl (omega (arith, caps, empty)) | inr some_day ↦ inr some_day ],
      )

  rows-Counted :
      (by : Bucket) (lo hi : Date) (gs : List (ℤ × List (Event Float)))
      → let buckets = map (bucket_row R D success no_load by lo hi) gs in
        All Counted buckets
        × (sum_of (λ b. b.events) buckets ≡ sum_of (λ g. length g.1) gs)
        × (sum_of (λ b. b.caps) buckets ≡ sum_of (λ g. count_where cap g.1) gs)
  unfolding bucket_row
  rows-Counted by lo hi [] = (tt, refl, refl)
  rows-Counted by lo hi (g ∷ gs) =
      let rest = rows-Counted by lo hi gs in
      ((bucket_row-Counted by lo hi g, rest.0), omega (arith, rest.1), omega (arith, rest.2))

  -- What the comparison of the rows in scope says of them.
  pub IsComparison : List (Event Float) → Compared Float → Type 0
  IsComparison rows c =
      All Counted c.buckets
      × (c.rows_scanned ≡ length rows)
      × (sum_of (λ b. b.events) c.buckets ≡ length rows)
      × (sum_of (λ b. b.caps) c.buckets ≡ count_where cap rows)

  buckets_of-IsComparison :
      (by : Bucket) (lo hi : Date) (rows : List (Event Float))
      → IsComparison rows (compared D (buckets_of R D success no_load by lo hi rows))
  unfolding IsComparison compared buckets_of
  buckets_of-IsComparison by lo hi rows =
      let key : Event Float → ℤ = λ e. pos (bucket_number by e.ts) in
      let all = rows-Counted by lo hi (groups key rows) in
      (
        all.0,
        omega (arith, all.1, length-groups key rows),
        omega (arith, all.1, length-groups key rows),
        omega (arith, all.2, counted-groups key cap rows),
      )

  -- An unknown bucket is refused. Of a known one a ValueError comes of the clause or of a year
  -- without a date, or there are no rows, or the buckets count the rows in scope.
  pub IsResult : String → Clause → List (Event Float) → Option (Answer (Compared Float)) → Type 0
  IsResult by clause rows none = Known by × ((is_scope clause ≡ false) ⊎ NoWindow clause rows)
  IsResult by clause rows (some bad_argument) = bucket_by by ≡ none
  IsResult by clause rows (some no_data) = Known by × (rows ≡ [])
  IsResult by clause rows (some (found c)) = Known by × IsComparison rows c

  within-IsResult :
      (name : String) (by : Bucket) (clause : Clause) (e : Event Float) (es : List (Event Float))
      (w : Option (Date × Date))
      → window clause e es ≡ w
      → Known name
      → IsResult name clause (e ∷ es) (within R D success no_load by (e ∷ es) w)
  unfolding IsResult NoWindow
  within-IsResult name by clause e es none same known = (known, inr same)
  within-IsResult name by clause e es (some (lo, hi)) same known =
      (known, buckets_of-IsComparison by lo hi (e ∷ es))

  compare_by-IsResult :
      (name : String) (by : Bucket) (clause : Clause) (rows : List (Event Float))
      → Known name
      → IsResult name clause rows (compare_by R D success no_load by clause rows)
  unfolding IsResult compare_by NoWindow
  compare_by-IsResult name by clause [] known = elim (Bool-cases (is_scope clause)) [
    | inl good ↦ rw good (known, refl)
    | inr bad ↦ rw bad (known, inl bad)
  ]
  compare_by-IsResult name by clause (e ∷ es) known = elim (Bool-cases (is_scope clause)) [
    | inl good ↦ rw good (within-IsResult name by clause e es (window clause e es) refl known)
    | inr bad ↦ rw bad (known, inl bad)
  ]

  compare_if-IsResult :
      (name : String) (b : Option Bucket) (clause : Clause) (rows : List (Event Float))
      → bucket_by name ≡ b
      → IsResult name clause rows (compare_if R D success no_load b clause rows)
  unfolding IsResult Known
  compare_if-IsResult name none clause rows same = same
  compare_if-IsResult name (some by) clause rows same =
      compare_by-IsResult name by clause rows (by, same)

  -- The tool refuses exactly the unknown buckets. Of a known one it has no data only where there
  -- are no rows, and raises only for a clause that is a ValueError or bounds that are no dates.
  -- Else the buckets' events are the rows in scope and their closures the capping operations; in
  -- every bucket the successes, the failures and the active days are no more than the closures, and
  -- it has an active day exactly if it has closures.
  pub compare_periods-IsResult :
      (by : String) (clause : Clause) (rows : List (Event Float))
      → IsResult by clause rows (compare_periods R D success no_load by clause rows)
  unfolding compare_periods
  compare_periods-IsResult by clause rows = compare_if-IsResult by (bucket_by by) clause rows refl
