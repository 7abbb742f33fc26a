-- ===== src/Tools/Anomaly/Flags/Exact.antt =====
-- The counts of `anomalies` of python/analytics/tools/anomaly.py.
use quer_project_q.Common.{
  ℕ, suc, ◌%◌, ◌==◌, ◌≤◌, ◌≡◌, refl, sym, ap, ◌∙◌, Bool, true, false, Bool-cases, inl, inr, String,
  Option, none, some, List, [], ◌∷◌, map, map_option, arith, if◌then◌else◌, All, where_holds,
  sort_by-All, sum_of, sum_of-sort_by, IsOrdered, sort_by-IsOrdered, length, length-map, ℤ,
}
use quer_project_q.Cleaning.Floats.{Floats}
use quer_project_q.Tools.{Event, Reals}
use quer_project_q.Tools.Filter.{in_time}
use quer_project_q.Tools.Grouping.{groups, count_where, length-groups, length-where_holds}
use quer_project_q.Tools.Overview.{Limits}
use quer_project_q.Tools.Anomaly.{Sample, strided}
use quer_project_q.Tools.Anomaly.Strides.{IsSample, sample-IsSample}
use quer_project_q.Tools.Anomaly.Records.{
  Method, has_threshold, has_deviation, Bands, Anomalies, scale_at, Fault, Scale, Deviation, hit_of,
  more_hits,
}
use quer_project_q.Tools.Anomaly.Flags.{
  gathered, is_cap, is_fault, is_out, hit_rank, fault_rank, fault_of, off_rows, scales, heads_if,
  threshold_sample, out_by_head, deviation_sample, flags, is_off, deviation_at,
}
use quer_project_q.Tools.Anomaly.Flags.Conditions.{
  count_of, row_times, HasConditions, tally-statuses,
}

module _ {A : Type 0} where
  strided-All {κ} :
      (P : A → Type κ) (stride before : ℕ) (xs : List A)
      → All P xs
      → All P (strided stride before xs)
  unfolding strided
  strided-All P stride before [] h = tt
  strided-All P stride before (x ∷ xs) h =
      let rest = strided-All P stride (suc before) xs h.1 in
      elim (Bool-cases (before % stride == 0)) [
        | inl kept ↦ rw kept (h.0, rest)
        | inr passed ↦ rw passed rest
      ]

  map_option-some {κ} :
      {C : Type 0} (f : A → Option C) (P : A → Type κ) (xs : List A)
      → ((x : A) → P x → (c : C) × (f x ≡ some c))
      → All P xs
      → (cs : List C) × (map_option f xs ≡ some cs) × (length cs ≡ length xs)
  map_option-some f P [] total h = ([], refl, refl)
  map_option-some f P (x ∷ xs) total h =
      let (c, first) = total x h.0 in
      let (cs, rest, same) = map_option-some f P xs total h.1 in
      (c ∷ cs, rw (first, rest) refl, ap suc same)

  sample-All {κ} :
      (P : A → Type κ) (in_query in_rank : A → A → Bool) (cap : ℕ) (xs : List A) (s : Sample A)
      → IsSample in_query in_rank cap xs s
      → All P xs
      → All P s.listed
  sample-All P in_query in_rank cap xs s h all = elim h.2 [
    | inl whole_query ↦ rw whole_query.1 (sort_by-All in_query P xs all)
    | inr few ↦ rw few.1 (strided-All P _ 0 _ (sort_by-All in_rank P xs all))
  ]

  where_holds-true : (p : A → Bool) (xs : List A) → All (λ x. p x ≡ true) (where_holds p xs)
  where_holds-true p [] = tt
  where_holds-true p (x ∷ xs) = elim (Bool-cases (p x)) [
    | inl holds ↦ rw holds (holds, where_holds-true p xs)
    | inr fails ↦ rw fails (where_holds-true p xs)
  ]

  length-pairs :
      (f : A → ℕ) (g : A → ℤ) (xs : List A)
      → sum_of {A = ℤ × ℕ} (λ q. q.1) (map (λ x. (g x, f x)) xs) ≡ sum_of f xs
  length-pairs f g [] = refl
  length-pairs f g (x ∷ xs) = omega (arith, length-pairs f g xs)

module _ (F : Floats) (R : Reals F.Float) (L : Limits F.Float) (B : Bands F.Float) (cap : ℕ) where
  open F use {Float}

  fault_of-some :
      (e : Event Float)
      → HasConditions F R L B cap e
      → (f : Fault Float) × (fault_of F R L B cap e ≡ some f)
  unfolding fault_of
  fault_of-some e (cs, known) = (
    record { head_id = e.head_id; ts = e.ts; app_torque = e.app_torque; reason = cs },
    rw known refl,
  )

  deviation_at-some :
      (e : Event Float) (s : Option (Scale Float))
      → is_off F R L B cap e s ≡ true
      → (d : Deviation Float) × (deviation_at F R L B cap e s ≡ some d)
  deviation_at-some e none h = absurd (ground (arith, h))
  deviation_at-some e (some scale) h = (_, refl)

  -- The counts of a method, and how many hits are itemised.
  IsCounted : Bool → (Event Float → Bool) → List (Event Float) → Sample (Event Float) → Type 0
  IsCounted runs p rows s =
      (s.total ≡ (if runs then count_where p rows else 0)) × (length s.listed ≤ cap)

  threshold-IsCounted :
      (runs : Bool) (rows : List (Event Float))
      → 1 ≤ cap
      → (s : Sample (Event Float)) × (threshold_sample F R L B cap runs rows ≡ some s)
        × IsCounted runs (is_out F R L B cap) rows s
  unfolding threshold_sample IsCounted
  threshold-IsCounted false rows h = (_, refl, (refl, omega arith))
  threshold-IsCounted true rows h =
      let p = is_out F R L B cap in
      let (s, same, good) =
        sample-IsSample in_time (hit_rank F R L B cap) cap (where_holds p rows) h in
      (s, same, (good.0 ∙ length-where_holds p p rows, good.1))

  out_by_head-total :
      (runs : Bool) (rows : List (Event Float))
      → sum_of {A = ℤ × ℕ} (λ q. q.1) (out_by_head F R L B cap runs rows)
        ≡ (if runs then count_where (is_out F R L B cap) rows else 0)
  unfolding out_by_head
  out_by_head-total false rows = refl
  out_by_head-total true rows =
      let p = is_out F R L B cap in
      let out = where_holds p rows in
      let gs = groups (λ e. e.head_id) out in
      sum_of-sort_by more_hits (λ q. q.1) (map (λ g. (g.0, length g.1)) gs)
      ∙ length-pairs (λ g. length g.1) (λ g. g.0) gs
      ∙ length-groups (λ e. e.head_id) out
      ∙ length-where_holds p p rows

  more_hits-asym : (a b : ℤ × ℕ) → more_hits a b ≡ true → more_hits b a ≡ false
  more_hits-asym a b h = ground (arith, h)

  out_by_head-IsOrdered :
      (runs : Bool) (rows : List (Event Float))
      → IsOrdered more_hits (out_by_head F R L B cap runs rows)
  unfolding out_by_head
  out_by_head-IsOrdered false rows = tt
  out_by_head-IsOrdered true rows = sort_by-IsOrdered more_hits more_hits-asym _

  -- The readings off their head's median, where the deviation method runs.
  abbrev pub off_count : Bool → List (Event Float) → ℕ
  off_count false caps = 0
  off_count true caps = length (off_rows F R L B cap caps)

  -- What a run says of the rows in scope: a condition's count, the exact counts, and what is itemised.
  pub IsExact : Method → String → List (Event Float) → Anomalies Float → Type 0
  IsExact method c rows a =
      let faults = where_holds (is_fault F R L B cap) rows in
      let out = is_out F R L B cap in
      (a.rows_scanned ≡ length rows)
      × ((a.fault_count ≡ count_where (is_fault F R L B cap) rows) × (length a.faults ≤ cap))
      × (count_of c a.faults_by_condition ≡ sum_of (row_times F R L B cap c) faults)
      × ((a.threshold_count ≡ (if has_threshold method then count_where out rows else 0))
          × (length a.threshold_hits ≤ cap))
      × ((sum_of {A = ℤ × ℕ} (λ q. q.1) a.threshold_by_head ≡ a.threshold_count)
          × IsOrdered more_hits a.threshold_by_head)
      × ((a.deviation_count
            ≡ off_count (has_deviation method) (where_holds (is_cap F R L B cap) rows))
          × (length a.deviation_hits ≤ cap))

  -- The hits of the deviation method that are itemised.
  deviation-listed :
      (runs : Bool) (caps : List (Event Float))
      → 1 ≤ cap
      → let ss = heads_if F R L B cap runs caps in
        (s : Sample (Event Float)) × (ds : List (Deviation Float)) × (deviation_sample F R L B cap
            runs caps
          ≡ some s)
        × (map_option (λ e. deviation_at F R L B cap e (scale_at e.head_id ss)) s.listed ≡ some ds)
        × (s.total ≡ off_count runs caps)
        × (length ds ≤ cap)
  unfolding deviation_sample
  deviation-listed false caps h = (_, [], refl, refl, refl, omega arith)
  deviation-listed true caps h =
      let ss = scales F R L B cap caps in
      let off : Event Float → Bool = λ e. is_off F R L B cap e (scale_at e.head_id ss) in
      let rank = hit_rank F R L B cap in
      let (s, same, good) = sample-IsSample in_time rank cap (where_holds off caps) h in
      let (ds, made, size) =
        map_option-some (λ e. deviation_at F R L B cap e (scale_at e.head_id ss))
          (λ e. off e ≡ true) s.listed (λ e k. deviation_at-some e (scale_at e.head_id ss) k)
          (sample-All (λ e. off e ≡ true) in_time rank cap (where_holds off caps) s good
            (where_holds-true off caps)) in
      (s, ds, same, made, good.0, omega (arith, size, good.1))

  -- With a cap of at least 1, where `int` gives the status of every reject and statuses that are
  -- grouped together are the same, a method always comes to a result. Its numbers of rejects and of
  -- readings out of the band and off their head's median are those of all rows in scope, whatever
  -- is itemised, and at most `cap` of each kind are; the heads' readings out of the band add up to
  -- their number, the most first; under each condition stands the number of rejects whose status
  -- sets it.
  pub flags-IsExact :
      (method : Method) (c : String) (rows : List (Event Float))
      → 1 ≤ cap
      → ((x y : Float) → B.same_status x y ≡ true → x ≡ y)
      → All (HasConditions F R L B cap) (where_holds (is_fault F R L B cap) rows)
      → (a : Anomalies Float) × (flags F R L B cap method rows ≡ some a) × IsExact method c rows a
  unfolding flags IsExact IsCounted
  flags-IsExact method c rows h alike known =
      let fault = is_fault F R L B cap in
      let out = is_out F R L B cap in
      let faults = where_holds fault rows in
      let rank = fault_rank F R L B cap in
      let caps = where_holds (is_cap F R L B cap) rows in
      let (fs, fs_same, fs_good) = sample-IsSample in_time rank cap faults h in
      let (listed, listed_same, listed_size) =
        map_option-some (fault_of F R L B cap) (HasConditions F R L B cap) fs.listed fault_of-some
          (sample-All (HasConditions F R L B cap) in_time rank cap faults fs fs_good known) in
      let (dict, dict_same, dict_counts) = tally-statuses F R L B cap alike faults known in
      let (ts, ts_same, ts_good) = threshold-IsCounted (has_threshold method) rows h in
      let (ds, hits, ds_same, hits_same, off_total, hits_size) =
        deviation-listed (has_deviation method) caps h in
      (
        gathered F R L B cap method rows fs.total listed dict ts ds.total hits,
        rw (fs_same, listed_same, dict_same, ts_same, ds_same, hits_same) refl,
        (
          refl,
          (fs_good.0 ∙ length-where_holds fault fault rows, omega (arith, listed_size, fs_good.1)),
          dict_counts c,
          (ts_good.0, omega (arith, length-map ts.listed hit_of, ts_good.1)),
          (
            out_by_head-total (has_threshold method) rows ∙ sym ts_good.0,
            out_by_head-IsOrdered (has_threshold method) rows,
          ),
          (off_total, hits_size),
        ),
      )
