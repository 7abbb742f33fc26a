-- ===== src/Tools/Speed/Hours.antt =====
-- The active hours of python/analytics/tools/speed.py, which its rates divide by.
use quer_project_q.Common.{
  ℕ, ◌+◌, ◌≤◌, ◌/◌, String, ◌≡◌, refl, ap, sym, ◌∙◌, Bool, Option, none, some, Option-cases, inl,
  inr, ◌⊎◌, List, [], ◌∷◌, map, arith, All, length, sum_of, where_holds, ℤ, pos, pos_part,
}
use quer_project_q.Tools.{Event, Answer, found, no_data, bad_argument, Reals, holds}
use quer_project_q.Tools.Grouping.{
  groups, IsGroup, groups-IsGroup, length-groups, count_where, length-where_holds,
}
use quer_project_q.Tools.Gaps.{add_poll}
use quer_project_q.Tools.Speed.{
  Bucket, hour, day, bucket_of, width, Rates, BucketRate, Speed, bucket_number, hours_of,
  bucket_rate, buckets_of, speed_of, capping_speed,
}

pub length-add_poll :
    (t : ℕ) (us : List ℕ) → (1 ≤ length (add_poll t us)) × (length (add_poll t us) ≤ 1 + length us)
unfolding add_poll
length-add_poll t [] = (omega arith, omega arith)
length-add_poll t (u ∷ us) =
    let rest = length-add_poll t us in
    (ground (arith, rest.0, rest.1), ground (arith, rest.0, rest.1))

add_poll_twice : (t : ℕ) → add_poll t (t ∷ []) ≡ t ∷ []
unfolding add_poll
add_poll_twice t = ground arith

module _ {Float : Type 0} where
  hours_of-length :
      (es : List (Event Float))
      → 1 ≤ length es
      → (1 ≤ length (hours_of es)) × (length (hours_of es) ≤ length es)
  unfolding hours_of
  hours_of-length [] h = absurd (omega (arith, h))
  hours_of-length (e ∷ []) h = length-add_poll (e.ts / width hour) []
  hours_of-length (e ∷ d ∷ es) h =
      let rest = hours_of-length (d ∷ es) (omega arith) in
      let more = length-add_poll (e.ts / width hour) (hours_of (d ∷ es)) in
      (more.0, omega (arith, rest.1, more.1))

  -- Rows of one hour have one.
  hours_of-same :
      (k : ℤ) (es : List (Event Float))
      → All (λ e. bucket_number hour e ≡ k) es
      → (hours_of es ≡ []) ⊎ ((t : ℕ) × (hours_of es ≡ t ∷ []) × (pos t ≡ k))
  unfolding hours_of add_poll
  hours_of-same k [] h = inl refl
  hours_of-same k (e ∷ es) h = elim (hours_of-same k es h.1) [
    | inl empty ↦ inr (e.ts / width hour, rw empty refl, h.0)
    | inr (t, one, is_k) ↦
        let same : e.ts / width hour ≡ t = ap pos_part (h.0 ∙ sym is_k) in
        inr (t, rw (one, same) (add_poll_twice t), is_k)
  ]

  -- What a bucket's rate divides by: at least one hour, as many hours as closures at most, and one
  -- hour where the bucket is an hour.
  abbrev pub HasHours : Bucket → BucketRate Float → Type 0
  HasHours b r =
      (1 ≤ r.active_hours) × (r.active_hours ≤ r.caps) × ((b ≡ day) ⊎ (r.active_hours ≡ 1))

module _ {Float : Type 0} (R : Reals Float) (D : Rates Float) where
  abbrev pub loaded : Event Float → Bool
  loaded e = holds R.positive e.app_torque

  one_hour :
      (b : Bucket) (g : ℤ × List (Event Float))
      → IsGroup (bucket_number b) g
      → (b ≡ day) ⊎ (length (hours_of g.1) ≡ 1)
  one_hour day g h = inl refl
  one_hour hour g h = elim (hours_of-same g.0 g.1 h.1) [
    | inl empty ↦ absurd (ground (arith, empty, (hours_of-length g.1 h.0).0))
    | inr (t, one, is_k) ↦ inr (rw one refl)
  ]

  bucket_rate-HasHours :
      (b : Bucket) (gs : List (ℤ × List (Event Float)))
      → All (IsGroup (bucket_number b)) gs
      → All (HasHours b) (map (bucket_rate R D) gs)
        × (sum_of (λ r. r.caps) (map (bucket_rate R D) gs) ≡ sum_of (λ g. length g.1) gs)
  unfolding bucket_rate
  bucket_rate-HasHours b [] h = (tt, refl)
  bucket_rate-HasHours b (g ∷ gs) h =
      let rest = bucket_rate-HasHours b gs h.1 in
      let size = hours_of-length g.1 h.0.0 in
      (((size.0, size.1, one_hour b g h.0), rest.0), omega (arith, rest.1))

  buckets_of-HasHours :
      (b : Bucket) (rows : List (Event Float))
      → All (HasHours b) (buckets_of R D b rows)
        × (sum_of (λ r. r.caps) (buckets_of R D b rows) ≡ count_where loaded rows)
  buckets_of-HasHours b rows =
      let caps = where_holds loaded rows in
      let gs = groups (bucket_number b) caps in
      let both = bucket_rate-HasHours b gs (groups-IsGroup (bucket_number b) caps) in
      (
        both.0,
        omega (
          arith,
          both.1,
          length-groups (bucket_number b) caps,
          length-where_holds loaded loaded rows,
        ),
      )

  -- An unknown bucket, no capping operation in scope, or buckets whose closures are the capping
  -- operations and whose rates have their hours.
  abbrev pub SpeedResult : Option Bucket → List (Event Float) → Answer (Speed Float) → Type 0
  SpeedResult b rows bad_argument = b ≡ none
  SpeedResult none rows no_data = ⊥
  SpeedResult none rows (found v) = ⊥
  SpeedResult (some b) rows no_data = count_where loaded rows ≡ 0
  SpeedResult (some b) rows (found v) =
      All (HasHours b) v.buckets
      × (sum_of (λ r. r.caps) v.buckets ≡ count_where loaded rows)
      × (v.rows_scanned ≡ count_where loaded rows)

  speed_of-SpeedResult :
      (b : Bucket) (rows : List (Event Float)) (rs : List (BucketRate Float))
      → All (HasHours b) rs
      → sum_of (λ r. r.caps) rs ≡ count_where loaded rows
      → SpeedResult (some b) rows (speed_of R D rs)
  unfolding speed_of
  speed_of-SpeedResult b rows [] h sums = sym sums
  speed_of-SpeedResult b rows (r ∷ rs) h sums = (h, sums, sums)

  -- The tool refuses exactly the buckets that it does not know; of a known one it has no data only
  -- where no row in scope has load. Else the closures of its buckets add up to the capping
  -- operations in scope, and no rate divides by zero: each bucket has at least one active hour, at
  -- most as many as it has closures, and one if the buckets are hours.
  pub capping_speed-SpeedResult :
      (bucket : String) (rows : List (Event Float))
      → SpeedResult (bucket_of bucket) rows (capping_speed R D bucket rows)
  unfolding capping_speed
  capping_speed-SpeedResult bucket rows = elim (Option-cases (bucket_of bucket)) [
    | inl unknown ↦ ground (arith, unknown)
    | inr (b, known) ↦
        let both = buckets_of-HasHours b rows in
        let same : capping_speed R D bucket rows ≡ speed_of R D (buckets_of R D b rows) =
          ground (arith, known) in
        rw (same, known) (speed_of-SpeedResult b rows (buckets_of R D b rows) both.0 both.1)
  ]
