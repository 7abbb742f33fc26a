-- ===== src/Tools/Compare/Buckets.antt =====
-- `compare_periods` of python/analytics/tools/compare.py.
use quer_project_q.Common.{
  ℕ, ◌+◌, Bool, true, false, ◌&&◌, String, Option, none, some, List, [], ◌∷◌, map, ◌==◌,
  if◌then◌else◌, where_holds, sum_of, length, ℤ, pos, pos_part, ◌-ℤ◌,
}
use quer_project_q.Agent.Config.{Number, whole}
use quer_project_q.Store.{Clause, everything, between}
use quer_project_q.Tools.{Event, Answer, found, no_data, bad_argument, Reals, holds}
use quer_project_q.Tools.Calendar.{Date}
use quer_project_q.Tools.Grouping.{groups, count_where}
use quer_project_q.Tools.Compare.{
  Bucket, bucket_by, bucket_number, start_of, calendar_days, Arithmetic, BucketRow, Change,
  Compared, values, days_of, window,
}

-- A clause that `scope_clause` gives, and not a ValueError.
unfoldable pub is_scope : Clause → Bool
is_scope everything = true
is_scope (between t u) = true
is_scope failure = false

module _ {Float : Type 0} (R : Reals Float) where
  open R use {positive, equals, odd}

  -- app_torque > 0
  abbrev pub is_cap : Event Float → Bool
  is_cap e = holds positive e.app_torque

  abbrev pub is_success : Number Float → Event Float → Bool
  is_success success e = holds (λ s. equals s success) e.status && is_cap e

  abbrev pub is_reject : Event Float → Bool
  is_reject e = holds odd e.status && is_cap e

  abbrev pub is_no_load : Number Float → Event Float → Bool
  is_no_load no_load e =
      holds (λ s. equals s no_load) e.status && holds (λ x. equals x (whole (pos 0))) e.app_torque

  -- The torques of the capping operations.
  abbrev pub torques : List (Event Float) → List Float
  torques es = values (map (λ e. e.app_torque) (where_holds is_cap es))

module _ {Float : Type 0} (D : Arithmetic Float) where
  open D use {ratio, minus, percent, is_zero, less}

  -- `_ratio`
  unfoldable pub ratio_of : ℕ → ℕ → Option Float
  ratio_of num den = if den == 0 then none else some (ratio num den)

  -- `diff`, of the first and the last bucket
  unfoldable pub diff : Option Float → Option Float → Option Float
  diff (some a) (some b) = some (minus b a)
  diff a b = none

  unfoldable pub percent_of : Option Float → Option Float → Option Float
  percent_of (some a) (some b) = if is_zero a then none else some (percent (minus b a) a)
  percent_of a b = none

  unfoldable pub change_between : BucketRow Float → BucketRow Float → Change Float
  unfolding diff percent_of
  change_between first last = record {
    from_start = first.bucket_start;
    to_start = last.bucket_start;
    caps_per_day = diff first.caps_per_day last.caps_per_day;
    caps_per_day_pct = percent_of first.caps_per_day last.caps_per_day;
    caps_per_active_day = diff first.caps_per_active_day last.caps_per_active_day;
    reject_rate = diff first.reject_rate last.reject_rate;
    no_load_share = diff first.no_load_share last.no_load_share;
    active_days = pos last.active_days -ℤ pos first.active_days;
    torque_mean = diff first.torque_mean last.torque_mean;
    torque_stddev = diff first.torque_stddev last.torque_stddev;
  }

  abbrev pub last_from : BucketRow Float → List (BucketRow Float) → BucketRow Float
  last_from b [] = b
  last_from b (c ∷ cs) = last_from c cs

  unfoldable pub change_of : List (BucketRow Float) → Option (Change Float)
  unfolding change_between
  change_of (b ∷ c ∷ cs) = some (change_between b (last_from c cs))
  change_of buckets = none

  -- The buckets with a number of caps per day, with it: `rated`.
  unfoldable pub rated : List (BucketRow Float) → List (Float × BucketRow Float)
  rated [] = []
  rated (b ∷ bs) = elim b.caps_per_day [ none ↦ rated bs | some x ↦ (x, b) ∷ rated bs ]

  -- min(rated, key=…): the first of the lowest.
  unfoldable pub lowest_from :
      Float × BucketRow Float → List (Float × BucketRow Float) → Float × BucketRow Float
  lowest_from best [] = best
  lowest_from best (b ∷ bs) = lowest_from (if less b.0 best.0 then b else best) bs

  unfoldable pub lowest_of : List (Float × BucketRow Float) → Option (BucketRow Float)
  unfolding lowest_from
  lowest_of (b ∷ c ∷ cs) = some (lowest_from b (c ∷ cs)).1
  lowest_of buckets = none

  unfoldable pub compared : List (BucketRow Float) → Compared Float
  unfolding change_of rated lowest_of
  compared buckets = record {
    buckets = buckets;
    change = change_of buckets;
    lowest_volume_bucket = lowest_of (rated buckets);
    rows_scanned = sum_of (λ b. b.events) buckets;
  }

module _ {Float : Type 0} (R : Reals Float) (D : Arithmetic Float)
    (success no_load : Number Float) where
  open D use {average, median, deviation}

  -- A row of the query, with what is computed of it.
  unfoldable pub bucket_row : Bucket → Date → Date → ℤ × List (Event Float) → BucketRow Float
  unfolding ratio_of days_of start_of calendar_days
  bucket_row by lo hi g =
      let start = start_of by (pos_part g.0) in
      let caps = count_where (is_cap R) g.1 in
      let successful = count_where (is_success R success) g.1 in
      let rejected = count_where (is_reject R) g.1 in
      let no_load_cycles = count_where (is_no_load R no_load) g.1 in
      let days = calendar_days by lo hi start in
      let active = length (days_of (where_holds (is_cap R) g.1)) in
      record {
        bucket_start = start;
        events = length g.1;
        caps = caps;
        successful = successful;
        rejected = rejected;
        no_load_cycles = no_load_cycles;
        calendar_days = days;
        active_days = active;
        torque_mean = average (torques R g.1);
        torque_median = median (torques R g.1);
        torque_stddev = deviation (torques R g.1);
        caps_per_day = ratio_of D caps days;
        caps_per_active_day = ratio_of D caps active;
        reject_rate = ratio_of D rejected (successful + rejected);
        no_load_share = ratio_of D no_load_cycles (caps + no_load_cycles);
      }

  unfoldable pub buckets_of : Bucket → Date → Date → List (Event Float) → List (BucketRow Float)
  unfolding bucket_row bucket_number
  buckets_of by lo hi rows =
      map (bucket_row by lo hi) (groups (λ e. pos (bucket_number by e.ts)) rows)

  abbrev pub within :
      Bucket → List (Event Float) → Option (Date × Date) → Option (Answer (Compared Float))
  within by rows none = none
  within by rows (some (lo, hi)) = some (found (compared D (buckets_of by lo hi rows)))

  -- Past the test of `by`; `none` is a ValueError.
  unfoldable pub compare_by :
      Bucket → Clause → List (Event Float) → Option (Answer (Compared Float))
  unfolding is_scope window buckets_of compared
  compare_by by clause [] = if is_scope clause then some no_data else none
  compare_by by clause (e ∷ es) =
      if is_scope clause then within by (e ∷ es) (window clause e es) else none

  abbrev pub compare_if :
      Option Bucket → Clause → List (Event Float) → Option (Answer (Compared Float))
  compare_if none clause rows = some bad_argument
  compare_if (some by) clause rows = compare_by by clause rows

  -- `compare_periods` on the rows in scope.
  unfoldable pub compare_periods :
      String → Clause → List (Event Float) → Option (Answer (Compared Float))
  unfolding bucket_by compare_by
  compare_periods by clause rows = compare_if (bucket_by by) clause rows
